-- ===== src/Dispatch/Reservation.antt =====
-- `reserve_client` of src/rest_dispatcher.rs on every branch, and what its `retry_after` promises.
use mathlib.Core.Bool.{false≢true}
use crypto_nav_manager.Base.{
  ℕ, suc, ◌+◌, ◌-◌, ◌%◌, ◌≤◌, ◌<◌, leb, ltb, ◌==◌, ◌≡◌, refl, sym, ap, subst, ◌∙◌, ◌⊎◌, inl, inr,
  Bool, true, false, Option, none, some, List, map, length, get_elem?, set, done, failed,
  if◌then◌else◌, arith,
}
use crypto_nav_manager.Dispatch.{DispatcherConfig, no_available_ip, IpClient, PoolState}
use crypto_nav_manager.Dispatch.Headers.{u32_max}
use crypto_nav_manager.Dispatch.Pool.{
  refresh, unblock, later, max_ℕ, saturating_add, is_available, ready_at, charge, reserve_client,
}
use crypto_nav_manager.Dispatch.Selection.{
  select-cases, IsBest, IsExhausted, get_elem?-map, length-map, minimum-map,
}

unblock-later : (until : Option ℕ) (now t : ℕ) → later until now ≤ t → unblock until t ≡ none
unblock-later none now t h = refl
unblock-later (some until) now t h = ground arith

ready_le :
    (now t ready ended : ℕ) (b : Bool)
    → t ≡ now + ((if b then max_ℕ ready ended else ready) - now)
    → ready ≤ t
ready_le now t ready ended b e = ground arith

-- The weight fits at `t`, since by then the window is over or it has fitted all along.
has_room :
    (used weight limit now t started window ready : ℕ)
    → weight ≤ limit
    → limit ≤ u32_max
    → t
      ≡ now
        + ((if ltb limit (saturating_add used weight)
              then max_ℕ ready (started + window)
              else ready)
            - now)
    → leb (saturating_add (if leb window (t - started) then 0 else used) weight) limit ≡ true
has_room used weight limit now t started window ready w m e = ground arith

module _ {C : Type 0} where
  -- The clients as a reservation at `now` finds them.
  abbrev pub refreshed : DispatcherConfig → ℕ → PoolState C → List (IpClient C)
  refreshed config now s = map (refresh now config.window) s.clients

  -- The pool after client `i` has been reserved.
  abbrev pub reserved : DispatcherConfig → ℕ → ℕ → PoolState C → ℕ → IpClient C → PoolState C
  reserved config now weight s i c = record {
    clients = set (refreshed config now s) i (charge weight c);
    next_tie_break = suc i % length (refreshed config now s);
  }

  abbrev pub Grants :
      (X : Type 0) → DispatcherConfig → ℕ → ℕ → PoolState C → ℕ → IpClient C → Type 0
  Grants X config now weight s i c =
      (get_elem? (refreshed config now s) i ≡ some c)
      × IsBest config weight (refreshed config now s) c
      × (reserve_client {X = X} config now weight s
          ≡ (reserved config now weight s i c, done (i, c)))

  abbrev pub Refuses : (X : Type 0) → DispatcherConfig → ℕ → ℕ → PoolState C → ℕ → Type 0
  Refuses X config now weight s t =
      IsExhausted config weight (refreshed config now s)
      × ((j : ℕ) × (d : IpClient C) × (get_elem? (refreshed config now s) j ≡ some d)
          × (t ≡ ready_at config now weight d - now))
      × (reserve_client {X = X} config now weight s
          ≡ (record s { clients = refreshed config now s }, failed (no_available_ip (some t))))

  -- On a pool with a client, a reservation ends without a panic. Either it charges the client that it
  -- returns, which is not blocked, has room for the weight, and is the least used of those; or no
  -- client is so, nothing is charged, and the wait that it names is until one of them is ready.
  pub reserve_client-Grants :
      (X : Type 0) (config : DispatcherConfig) (now weight : ℕ) (s : PoolState C)
      → 0 < length s.clients
      → ((i : ℕ) × (c : IpClient C) × Grants X config now weight s i c)
        ⊎ ((t : ℕ) × Refuses X config now weight s t)
  unfolding reserve_client
  reserve_client-Grants X config now weight s h =
      let clients = refreshed config now s in
      let n : 0 < length clients =
        subst (λ x. 0 < x) (sym (length-map (refresh now config.window) s.clients)) h in
      let ne : (length clients == 0) ≡ false = ground arith in
      elim (select-cases config weight s.next_tie_break clients n) [
        | inl (i, c, e, at, best) ↦ inl (i, c, (at, best, rw (ne, e, at)))
        | inr (e, ex) ↦
            let (i, a, at, m) = minimum-map (ready_at config now weight) clients n in
            inr (ready_at config now weight a - now, (ex, (i, a, at, refl), rw (ne, e, m)))
      ]

  -- At the time that `ready_at` names, a client that was refused can take the request.
  available_when_ready :
      (config : DispatcherConfig) (now weight t : ℕ) (c : IpClient C)
      → weight ≤ config.max_weight_per_window
      → config.max_weight_per_window ≤ u32_max
      → t ≡ now + (ready_at config now weight c - now)
      → is_available config weight (refresh t config.window c) ≡ true
  unfolding ready_at is_available refresh
  available_when_ready config now weight t c w m e =
      let ready = later c.blocked_until now in
      let free : unblock c.blocked_until t ≡ none = unblock-later c.blocked_until now t (
        ready_le now t ready (c.window_started_at + config.window)
          (ltb config.max_weight_per_window (saturating_add c.used_weight weight)) e) in
      rw (
        free,
        has_room c.used_weight weight config.max_weight_per_window now t c.window_started_at
            config.window ready w m e,
      )

  -- Waiting as long as a refusal says is enough: if nothing else happens to the pool, the request is
  -- granted then. Its weight must be within the quota, which is an `u32`.
  pub reserve_client-of_wait :
      (X : Type 0) (config : DispatcherConfig) (now weight t : ℕ) (s s' : PoolState C)
      → 0 < length s.clients
      → weight ≤ config.max_weight_per_window
      → config.max_weight_per_window ≤ u32_max
      → reserve_client {X = X} config now weight s ≡ (s', failed (no_available_ip (some t)))
      → (i : ℕ) × (c : IpClient C) × Grants X config (now + t) weight s' i c
  unfolding reserve_client
  reserve_client-of_wait X config now weight t s s' h w m r =
      elim (reserve_client-Grants X config now weight s h) [
        | inl (i, c, (at, best, g)) ↦ cc
        | inr (t', (ex, (j, d, at, q), g)) ↦
            let p : (record s { clients = refreshed config now s }) ≡ s' = cc in
            let same : t' ≡ t = cc in
            subst (λ x. (i : ℕ) × (c : IpClient C) × Grants X config (now + t) weight x i c) p
              (elim (reserve_client-Grants X config (now + t) weight
                (record s { clients = refreshed config now s })
                (subst (λ x. 0 < x) (sym (length-map (refresh now config.window) s.clients)) h)) [
                  | inl y ↦ y
                  | inr (_, (ex', _, _)) ↦
                      elim (false≢true (
                        sym (
                          ex' j (refresh (now + t) config.window d) (
                            get_elem?-map (refresh (now + t) config.window) (refreshed config now s)
                              j at))
                        ∙ available_when_ready config now weight (now + t) d w m
                            (ap (λ x. now + x) (sym same ∙ q)))) [ ]
                ])
      ]
