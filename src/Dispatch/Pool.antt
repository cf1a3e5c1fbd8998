-- ===== src/Dispatch/Pool.antt =====
-- src/rest_dispatcher.rs: the operations on the pool of source addresses, each under its lock. The
-- configured window is not taken to end past the last instant that the platform has.
use Prim.Native.String.{String}
use crypto_nav_manager.Base.{
  ℕ, zero, suc, ◌+◌, ◌-◌, ◌%◌, leb, ltb, ◌==◌, Bool, true, false, ◌&&◌, Option, none, some, List,
  [], ◌∷◌, map, length, get_elem?, set, Outcome, done, failed, panicked, if◌then◌else◌,
}
use crypto_nav_manager.Dispatch.{
  DispatcherConfig, Response, DispatchError, no_available_ip, IpClient, PoolState,
}
use crypto_nav_manager.Dispatch.Headers.{u32_max, parse_unsigned}

-- `u32::saturating_add`.
abbrev pub saturating_add : ℕ → ℕ → ℕ
saturating_add a b = if leb (a + b) u32_max then a + b else u32_max

abbrev pub max_ℕ : ℕ → ℕ → ℕ
max_ℕ a b = if leb a b then b else a

-- `min_by_key`: the first of the least.
abbrev pub min_by_key : (ℕ → ℕ) → List ℕ → Option ℕ
min_by_key key [] = none
min_by_key key (x ∷ xs) = elim (min_by_key key xs) [
  | none ↦ some x
  | some y ↦ some (if leb (key x) (key y) then x else y)
]

abbrev pub filter : (ℕ → Bool) → List ℕ → List ℕ
filter p [] = []
filter p (x ∷ xs) = if p x then x ∷ filter p xs else filter p xs

-- The numbers `start`, `start + 1`, … modulo `len`, `n` of them.
abbrev pub rotation : ℕ → ℕ → ℕ → List ℕ
rotation len start zero = []
rotation len start (suc n) = start % len ∷ rotation len (suc start) n

abbrev pub later : Option ℕ → ℕ → ℕ
later none now = now
later (some until) now = max_ℕ now until

abbrev pub unblock : Option ℕ → ℕ → Option ℕ
unblock none now = none
unblock (some until) now = if leb until now then none else some until

abbrev pub minimum : List ℕ → Option ℕ
minimum [] = none
minimum (x ∷ xs) = elim (minimum xs) [ none ↦ some x | some y ↦ some (if leb x y then x else y) ]

abbrev pub wait : ℕ → Option ℕ → Option ℕ
wait now none = none
wait now (some ready) = some (ready - now)

abbrev pub observed_weight : Option String → Response → Option ℕ
observed_weight none r = none
observed_weight (some name) r = elim (r.header name) [
  | none ↦ none
  | some text ↦ parse_unsigned u32_max text
]

module _ {C : Type 0} where
  unfoldable pub refresh : ℕ → ℕ → IpClient C → IpClient C
  refresh now window c =
      let ended = leb window (now - c.window_started_at) in
      record c {
        used_weight = if ended then 0 else c.used_weight;
        window_started_at = if ended then now else c.window_started_at;
        blocked_until = unblock c.blocked_until now;
      }

  unfoldable pub is_available : DispatcherConfig → ℕ → IpClient C → Bool
  is_available config weight c =
      elim c.blocked_until [ none ↦ true | some _ ↦ false ]
      && leb (saturating_add c.used_weight weight) config.max_weight_per_window

  -- What the closures of `reserve_client` ask of `state.clients[index]`; their indices are in bounds.
  abbrev pub available_at : DispatcherConfig → ℕ → List (IpClient C) → ℕ → Bool
  available_at config weight clients i = elim (get_elem? clients i) [
    | none ↦ false
    | some c ↦ is_available config weight c
  ]

  abbrev pub used_at : List (IpClient C) → ℕ → ℕ
  used_at clients i = elim (get_elem? clients i) [ none ↦ 0 | some c ↦ c.used_weight ]

  -- When a client can take the request again.
  unfoldable pub ready_at : DispatcherConfig → ℕ → ℕ → IpClient C → ℕ
  ready_at config now weight c =
      let ready = later c.blocked_until now in
      if ltb config.max_weight_per_window (saturating_add c.used_weight weight)
      then max_ℕ ready (c.window_started_at + config.window)
      else ready

  abbrev pub charge : ℕ → IpClient C → IpClient C
  charge weight c = record c { used_weight = saturating_add c.used_weight weight }

  unfoldable pub select : DispatcherConfig → ℕ → ℕ → List (IpClient C) → Option ℕ
  select config weight next clients =
      let len = length clients in
      min_by_key (used_at clients)
        (filter (available_at config weight clients) (rotation len (next % len) len))

  -- The pool, which the call changes even if it fails, and the number and the client reserved.
  unfoldable pub reserve_client :
      {X : Type 0}
      → DispatcherConfig
      → ℕ
      → ℕ
      → PoolState C
      → PoolState C × Outcome (DispatchError X) (ℕ × IpClient C)
  unfolding refresh select
  reserve_client config now weight s =
      let clients = map (refresh now config.window) s.clients in
      let s₁ = record s { clients = clients } in
      if length clients == 0
      then (s₁, panicked)
      else elim (select config weight s.next_tie_break clients) [
        | none ↦ (
          s₁,
          failed (no_available_ip (wait now (minimum (map (ready_at config now weight) clients)))),
        )
        | some i ↦ elim (get_elem? clients i) [
          | none ↦ (s₁, panicked)
          | some c ↦ (
            record {
              clients = set clients i (charge weight c);
              next_tie_break = suc i % length clients;
            },
            done (i, c),
          )
        ]
      ]

  -- `Instant + Duration` panics past the `last` instant of the platform.
  unfoldable pub block_client : {X : Type 0} → ℕ → ℕ → ℕ → ℕ → PoolState C → Outcome X (PoolState C)
  block_client last now i duration s = elim (get_elem? s.clients i) [
    | none ↦ panicked
    | some c ↦
        if leb (now + duration) last
        then done (record s {
          clients = set s.clients i (record c { blocked_until = some (now + duration) });
        })
        else panicked
  ]

  unfoldable pub update_observed_weight :
      {X : Type 0} → DispatcherConfig → ℕ → Response → PoolState C → Outcome X (PoolState C)
  update_observed_weight config i r s = elim (observed_weight config.observed_weight_header r) [
    | none ↦ done s
    | some observed ↦ elim (get_elem? s.clients i) [
      | none ↦ panicked
      | some c ↦ done (record s {
        clients = set s.clients i (record c { used_weight = max_ℕ c.used_weight observed });
      })
    ]
  ]
