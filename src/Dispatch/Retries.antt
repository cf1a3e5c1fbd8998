-- ===== src/Dispatch/Retries.antt =====
-- `Dispatcher::dispatch` of src/rest_dispatcher.rs ends, and with what.
use Prim.Native.String.{String}
use crypto_nav_manager.Base.{
  ℕ, zero, suc, ◌+◌, ◌≤◌, ◌<◌, leb, le→leb, ltb, ltb→lt, ◌==◌, ◌≡◌, refl, ◌∙◌, ◌⊎◌, inl, inr, true,
  false, List, [], ◌∷◌, some, length, get_elem?, set, length-set, Outcome, done, failed, panicked,
  stuck, Bool-cases, Option-cases, arith,
}
use crypto_nav_manager.Dispatch.{
  DispatcherConfig, RequestSpec, Response, DispatchResponse, DispatchError, invalid_config,
  weight_exceeds_limit, no_available_ip, request, rate_limited, IpClient, PoolState,
}
use crypto_nav_manager.Dispatch.Pool.{
  max_ℕ, refresh, charge, block_client, observed_weight, update_observed_weight,
}
use crypto_nav_manager.Dispatch.Selection.{length-map, get_elem?-lt}
use crypto_nav_manager.Dispatch.Reservation.{refreshed, reserved, reserve_client-Grants}
use crypto_nav_manager.Dispatch.Request.{
  Turn, is_rate_limit, backoff, max_attempts, give_way, answer, attempts, dispatch,
}

⊎-cases : {A B : Type 0} (x : A ⊎ B) → ((a : A) × (x ≡ inl a)) ⊎ ((b : B) × (x ≡ inr b))
⊎-cases (inl a) = inl (a, refl)
⊎-cases (inr b) = inr (b, refl)

max_attempts-positive : (config : DispatcherConfig) → 1 ≤ max_attempts config
unfolding max_attempts
max_attempts-positive config = ground arith

get_elem?-of_lt :
    {A : Type 0} (xs : List A) (i : ℕ) → i < length xs → (a : A) × (get_elem? xs i ≡ some a)
get_elem?-of_lt [] i h = elim h [ ]
get_elem?-of_lt (x ∷ xs) zero h = (x, refl)
get_elem?-of_lt (x ∷ xs) (suc i) h = get_elem?-of_lt xs i (omega arith)

module _ {C : Type 0} where
  abbrev SameSize : PoolState C → PoolState C → Type 0
  SameSize s s' = length s'.clients ≡ length s.clients

  block_client-SameSize :
      (X : Type 0) (last now i duration : ℕ) (s : PoolState C)
      → i < length s.clients
      → now + duration ≤ last
      → (s' : PoolState C) × (block_client {X = X} last now i duration s ≡ done s') × SameSize s s'
  unfolding block_client
  block_client-SameSize X last now i duration s h l =
      let (c, e) = get_elem?-of_lt s.clients i h in
      let fits : leb (now + duration) last ≡ true = le→leb _ _ l in
      let d : IpClient C = record c { blocked_until = some (now + duration) } in
      (
        record s { clients = set s.clients i d },
        rw (e, block_client, fits),
        length-set s.clients i d,
      )

  update_observed_weight-SameSize :
      (X : Type 0) (config : DispatcherConfig) (i : ℕ) (r : Response) (s : PoolState C)
      → i < length s.clients
      → (s' : PoolState C) × (update_observed_weight {X = X} config i r s ≡ done s') × SameSize s s'
  unfolding update_observed_weight
  update_observed_weight-SameSize X config i r s h =
      elim (Option-cases (observed_weight config.observed_weight_header r)) [
        | inl e ↦ (s, rw (e, update_observed_weight), refl)
        | inr (w, e) ↦
            let (c, f) = get_elem?-of_lt s.clients i h in
            let d : IpClient C = record c { used_weight = max_ℕ c.used_weight w } in
            (
              record s { clients = set s.clients i d },
              rw (e, f, update_observed_weight),
              length-set s.clients i d,
            )
      ]

module _ {X C : Type 0} (last : ℕ) (config : DispatcherConfig) (spec : RequestSpec)
    (turns : ℕ → Turn X C) where
  -- What other requests do keeps the number of clients, and no answer asks for a wait past the last
  -- instant.
  pub record IsOrderly : Type 0 where
    pub before : (k : ℕ) (s : PoolState C) → SameSize s ((turns k).before s)
    pub during : (k : ℕ) (s : PoolState C) → SameSize s ((turns k).during s)
    pub between : (k : ℕ) (s : PoolState C) → SameSize s ((turns k).between s)
    pub in_time :
        (k : ℕ) (c : C) (r : Response)
        → (turns k).send c spec ≡ inr r
        → (turns k).blocked_at + backoff config r ≤ last

  -- How a dispatch may end.
  abbrev pub Explained : Outcome (DispatchError X) DispatchResponse → Type 0
  Explained (done d) =
      (is_rate_limit d.response.status ≡ false)
      × (0 < d.attempts)
      × (d.attempts ≤ max_attempts config)
  Explained (failed (invalid_config _)) = ⊥
  Explained (failed (weight_exceeds_limit weight limit)) = limit < weight
  Explained (failed (no_available_ip t)) = (n : ℕ) × (t ≡ some n)
  Explained (failed (request _ x)) = Unit
  Explained (failed (rate_limited _ status _)) = is_rate_limit status ≡ true
  Explained panicked = ⊥
  Explained stuck = ⊥

  give_way-Explained :
      (attempt : ℕ) (ip : String) (c : C) (r : Response) (i : ℕ) (s : PoolState C)
      (next : PoolState C → PoolState C × Outcome (DispatchError X) DispatchResponse)
      → IsOrderly
      → (turns attempt).send c spec ≡ inr r
      → is_rate_limit r.status ≡ true
      → i < length s.clients
      → ((attempt == max_attempts config) ≡ false
          → (s' : PoolState C) → SameSize s s'
          → Explained (next s').1)
      → Explained (give_way last config spec turns attempt ip r i s next).1
  unfolding give_way
  give_way-Explained attempt ip c r i s next o e l h go =
      let (s', run, size) =
        block_client-SameSize (DispatchError X) last (turns attempt).blocked_at i (backoff config r)
          s h (o.in_time attempt c r e) in
      elim (Bool-cases (attempt == max_attempts config)) [
        | inl b ↦ rw (run, give_way, b) l
        | inr b ↦ rw (run, give_way, b) (go b s' size)
      ]

  answer-Explained :
      (attempt i : ℕ) (ip : String) (c : C) (s : PoolState C)
      (next : PoolState C → PoolState C × Outcome (DispatchError X) DispatchResponse)
      → IsOrderly
      → 0 < attempt
      → attempt ≤ max_attempts config
      → i < length s.clients
      → ((attempt == max_attempts config) ≡ false
          → (s' : PoolState C) → SameSize s s'
          → Explained (next s').1)
      → Explained (answer last config spec turns attempt i ip c s next).1
  unfolding answer
  answer-Explained attempt i ip c s next o p m h go =
      let s₁ = (turns attempt).during s in
      let h₁ : i < length s₁.clients = omega (arith, o.during attempt s) in
      elim (⊎-cases ((turns attempt).send c spec)) [
        | inl (x, e) ↦ rw (e, answer) tt
        | inr (r, e) ↦
            let (s₂, run, size) =
              update_observed_weight-SameSize (DispatchError X) config i r s₁ h₁ in
            let h₂ : i < length ((turns attempt).between s₂).clients =
              omega (arith, o.between attempt s₂, size) in
            elim (Bool-cases (is_rate_limit r.status)) [
              | inl b ↦
                  rw (e, answer, run, b)
                    (give_way-Explained attempt ip c r i ((turns attempt).between s₂) next o e b h₂
                      (λ ne s' size'.
                        go ne s' (size' ∙ o.between attempt s₂ ∙ size ∙ o.during attempt s)))
              | inr b ↦ rw (e, answer, run, b) (b, p, m)
            ]
      ]

  next_attempt : (attempt n : ℕ) → attempt ≤ n → (attempt == n) ≡ false → suc attempt ≤ n
  next_attempt attempt n m ne = ground arith

  too_late : (attempt n : ℕ) → attempt ≤ n → attempt + 0 ≡ suc n → ⊥
  too_late attempt n m e = omega arith

  reserved-length :
      (now weight i : ℕ) (s : PoolState C) (c : IpClient C)
      → length (reserved config now weight s i c).clients ≡ length s.clients
  reserved-length now weight i s c =
      length-set (refreshed config now s) i (charge weight c)
      ∙ length-map (refresh now config.window) s.clients

  attempts-Explained :
      (left attempt : ℕ) (s : PoolState C)
      → IsOrderly
      → 0 < attempt
      → attempt ≤ max_attempts config
      → attempt + left ≡ suc (max_attempts config)
      → 0 < length s.clients
      → Explained (attempts last config spec turns left attempt s).1
  unfolding attempts
  attempts-Explained zero attempt s o p m e h =
      elim (too_late attempt (max_attempts config) m e) [ ]
  attempts-Explained (suc left) attempt s o p m e h =
      let s₀ = (turns attempt).before s in
      let now = (turns attempt).reserved_at in
      let n : 0 < length s₀.clients = omega (arith, o.before attempt s) in
      elim (reserve_client-Grants X config now spec.weight s₀ n) [
        | inl (i, c, (at, _, run)) ↦
            let same = reserved-length now spec.weight i s₀ c in
            let inside : i < length (reserved config now spec.weight s₀ i c).clients = omega (
              arith,
              same,
              get_elem?-lt (refreshed config now s₀) i at,
              length-map (refresh now config.window) s₀.clients,
            ) in
            rw (run, attempts)
              (answer-Explained attempt i c.ip c.client (reserved config now spec.weight s₀ i c)
                (attempts last config spec turns left (suc attempt)) o p m inside
                (λ ne s' size.
                  attempts-Explained left (suc attempt) s' o (omega arith)
                    (next_attempt attempt (max_attempts config) m ne) (omega arith)
                    (omega (arith, size, same, n))))
        | inr (t, (_, _, run)) ↦ rw (run, attempts) (t, refl)
      ]

  -- If the pool has a client, the other requests keep the number of clients, and no wait asked for
  -- ends past the last instant: `dispatch` ends without a panic. A response that it returns tells of no
  -- rate limit and came within `max_rate_limit_retries` + 1 attempts; a rate limit is reported with the
  -- status 429 or 418, a weight only if it exceeds the quota, and a missing address with a wait.
  pub dispatch-Explained :
      (s : PoolState C)
      → IsOrderly
      → 0 < length s.clients
      → Explained (dispatch last config spec turns s).1
  unfolding dispatch
  dispatch-Explained s o h = elim (Bool-cases (ltb config.max_weight_per_window spec.weight)) [
    | inl b ↦ rw b (ltb→lt _ _ b)
    | inr b ↦ rw b (
        attempts-Explained (max_attempts config) 1 s o (omega arith) (max_attempts-positive config)
          (omega arith) h)
  ]
