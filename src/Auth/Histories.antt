-- ===== src/Auth/Histories.antt =====
-- Whom a session token stands for, src/auth.rs: the store against the history of its calls.
use crypto_nav_manager.Base.{
  ℕ, ◌+◌, ◌-◌, ◌*◌, ◌≤◌, ◌<◌, ltb, leb, ◌≡◌, refl, ap, subst, ◌∙◌, ◌⊎◌, inl, inr, Bool, true, false,
  ◌||◌, not, Option, none, some, List, [], ◌∷◌, Bool-cases, Option-cases, arith,
}
use crypto_nav_manager.Base.Int.{ℤ, eqb_ℤ}
use crypto_nav_manager.Base.Maps.{Key}
use crypto_nav_manager.Auth.{AuthUser, MemorySession, session_ttl_secs, session_renew_below_secs}
use crypto_nav_manager.Auth.Sessions.{
  Store, empty, keep_if, is_kept, create, use_session, resolve, revoke, hash_of,
  revoke_user_sessions,
}

pub data Event : Type 0 where
  created : List ℕ → ℕ → AuthUser → Event
  resolved : List ℕ → ℕ → Event
  revoked : List ℕ → Event
  revoked_user : ℤ → Option (List ℕ) → Event

kept_or : (a b : Bool) → (not a || b) ≡ true → (a ≡ false) ⊎ (b ≡ true)
kept_or a b h = ground arith

module _ {K : Type 0} ⦃k : Key K⦄ (token_hash : List ℕ → K) where
  -- The store after a history, whose latest event comes first.
  abbrev pub run : List Event → Store K
  run [] = empty
  run (created token now user ∷ es) = create token_hash token now user (run es)
  run (resolved token now ∷ es) = (resolve token_hash token now (run es)).0
  run (revoked token ∷ es) = revoke token_hash token (run es)
  run (revoked_user id keep ∷ es) = revoke_user_sessions token_hash id keep (run es)

  -- The history has given the hash `h` to the user `u`, and has not taken it back.
  abbrev pub IsEntitled : List Event → K → AuthUser → Type 0
  IsEntitled [] h u = ⊥
  IsEntitled (created token now user ∷ es) h u =
      ((k.beq (token_hash token) h ≡ true) × (user ≡ u))
      ⊎ ((k.beq (token_hash token) h ≡ false) × IsEntitled es h u)
  IsEntitled (resolved token now ∷ es) h u = IsEntitled es h u
  IsEntitled (revoked token ∷ es) h u = (k.beq (token_hash token) h ≡ false) × IsEntitled es h u
  IsEntitled (revoked_user id keep ∷ es) h u =
      ((eqb_ℤ u.user_id id ≡ false) ⊎ (is_kept h (hash_of token_hash keep) ≡ true))
      × IsEntitled es h u

  keep_if-some :
      (p : K → MemorySession → Bool) (h : K) (o : Option MemorySession) (s : MemorySession)
      → keep_if p h o ≡ some s
      → (o ≡ some s) × (p h s ≡ true)
  keep_if-some p h none s e = cc
  keep_if-some p h (some t) s e = elim (Bool-cases (p h t)) [
    | inl b ↦
        let g = rw (keep_if, b) at e in let q : t ≡ s = cc in (g, subst (λ x. p h x ≡ true) q b)
    | inr b ↦ cc (rw (keep_if, b) at e)
  ]

  -- Using a session touches no other one, and keeps its user.
  use_session-user :
      (h j : K) (now : ℕ) (s t : MemorySession) (m : Store K)
      → m h ≡ some s
      → (use_session token_hash h now s m).0 j ≡ some t
      → (t' : MemorySession) × (m j ≡ some t') × (t'.user ≡ t.user)
  unfolding use_session
  use_session-user h j now s t m at e = elim (Bool-cases (leb s.expires_at_ms now)) [
    | inl b ↦ elim (Bool-cases (k.beq h j)) [
      | inl c ↦ cc (rw (b, c) at e)
      | inr c ↦ (t, rw (b, c) at e, refl)
    ]
    | inr b ↦ elim (Bool-cases (ltb (s.expires_at_ms - now) (session_renew_below_secs * 1000))) [
      | inl d ↦ elim (Bool-cases (k.beq h j)) [
        | inl c ↦
            let g = rw (b, d, c) at e in
            let q : record s { expires_at_ms = now + session_ttl_secs * 1000 } ≡ t = cc in
            (s, subst (λ x. m x ≡ some s) ((k.beq_iff h j).0 c) at, ap (λ x. x.user) q)
        | inr c ↦ (t, rw (b, d, c) at e, refl)
      ]
      | inr d ↦ (t, rw (b, d) at e, refl)
    ]
  ]

  entitled :
      (es : List Event) (h : K) (s : MemorySession) → run es h ≡ some s → IsEntitled es h s.user
  unfolding create revoke revoke_user_sessions resolve
  entitled [] h s e = cc
  entitled (created token now user ∷ es) h s e = elim (Bool-cases (k.beq (token_hash token) h)) [
    | inl b ↦
        let g = rw b at e in
        let made : MemorySession = record {
          user = user;
          expires_at_ms = now + session_ttl_secs * 1000;
        } in
        let q : made ≡ s = cc in inl (b, ap (λ x. x.user) q)
    | inr b ↦ inr (
      b,
      entitled es h s (keep_if-some (λ _ x. ltb now x.expires_at_ms) h (run es h) s (rw b at e)).0,
    )
  ]
  entitled (resolved token now ∷ es) h s e = elim (Option-cases (run es (token_hash token))) [
    | inl n ↦ entitled es h s (rw (n, run, resolve) at e)
    | inr (t, n) ↦
        let (t', at, same) =
          use_session-user (token_hash token) h now t s (run es) n (rw (n, run, resolve) at e) in
        subst (IsEntitled es h) same (entitled es h t' at)
  ]
  entitled (revoked token ∷ es) h s e = elim (Bool-cases (k.beq (token_hash token) h)) [
    | inl b ↦ cc (rw b at e)
    | inr b ↦ (b, entitled es h s (rw b at e))
  ]
  entitled (revoked_user id keep ∷ es) h s e =
      let (at, kept) =
        keep_if-some (λ j x. not (eqb_ℤ x.user.user_id id) || is_kept j (hash_of token_hash keep)) h
          (run es h) s e in
      (
        kept_or (eqb_ℤ s.user.user_id id) (is_kept h (hash_of token_hash keep)) kept,
        entitled es h s at,
      )

  -- What `resolve` does with the session that it finds.
  use_session-user_of :
      (h : K) (now : ℕ) (s : MemorySession) (m : Store K) (u : AuthUser)
      → (use_session token_hash h now s m).1 ≡ some u
      → (s.user ≡ u) × (now < s.expires_at_ms)
  unfolding use_session
  use_session-user_of h now s m u e = elim (Bool-cases (leb s.expires_at_ms now)) [
    | inl b ↦ cc (rw b at e)
    | inr b ↦ elim (Bool-cases (ltb (s.expires_at_ms - now) (session_renew_below_secs * 1000))) [
      | inl d ↦ let g = rw (b, d) at e in (cc, ground arith)
      | inr d ↦ let g = rw (b, d) at e in (cc, ground arith)
    ]
  ]

  -- After any calls on a new store, a token that resolves to a user has a hash that was created for
  -- this user, and that no later call created anew, revoked, or revoked with the user's sessions
  -- without keeping it; and the session has not expired.
  pub resolve-IsEntitled :
      (es : List Event) (token : List ℕ) (now : ℕ) (u : AuthUser)
      → (resolve token_hash token now (run es)).1 ≡ some u
      → IsEntitled es (token_hash token) u
        × ((s : MemorySession) × (run es (token_hash token) ≡ some s) × (now < s.expires_at_ms))
  unfolding resolve
  resolve-IsEntitled es token now u e = elim (Option-cases (run es (token_hash token))) [
    | inl n ↦ cc (rw (n, resolve) at e)
    | inr (s, n) ↦
        let (same, live) =
          use_session-user_of (token_hash token) now s (run es) u (rw (n, resolve) at e) in
        (
          subst (IsEntitled es (token_hash token)) same (entitled es (token_hash token) s n),
          (s, n, live),
        )
  ]

  use_session-live :
      (h : K) (t : ℕ) (s : MemorySession) (m : Store K)
      → t < s.expires_at_ms
      → (use_session token_hash h t s m).1 ≡ some s.user
  unfolding use_session
  use_session-live h t s m l =
      let b : leb s.expires_at_ms t ≡ false = ground arith in
      elim (Bool-cases (ltb (s.expires_at_ms - t) (session_renew_below_secs * 1000))) [
        | inl d ↦ rw (b, d) refl
        | inr d ↦ rw (b, d) refl
      ]

  resolve-live :
      (token : List ℕ) (t : ℕ) (s : MemorySession) (m : Store K)
      → m (token_hash token) ≡ some s
      → t < s.expires_at_ms
      → (resolve token_hash token t m).1 ≡ some s.user
  unfolding resolve
  resolve-live token t s m at l = rw (at, resolve) (use_session-live (token_hash token) t s m l)

  -- A session in use is good for another seven days.
  use_session-renewed :
      (h : K) (now : ℕ) (s : MemorySession) (m : Store K)
      → m h ≡ some s
      → now < s.expires_at_ms
      → (s' : MemorySession) × ((use_session token_hash h now s m).0 h ≡ some s')
        × (s'.user ≡ s.user)
        × (now + session_renew_below_secs * 1000 ≤ s'.expires_at_ms)
  unfolding use_session
  use_session-renewed h now s m at l =
      let b : leb s.expires_at_ms now ≡ false = ground arith in
      let same = (k.beq_iff h h).1 refl in
      elim (Bool-cases (ltb (s.expires_at_ms - now) (session_renew_below_secs * 1000))) [
        | inl d ↦ (
          record s { expires_at_ms = now + session_ttl_secs * 1000 },
          rw (b, d, same) refl,
          refl,
          omega arith,
        )
        | inr d ↦ (s, rw (b, d) at, refl, ground arith)
      ]

  -- A new session resolves to its user for fourteen days, whatever was in the store.
  pub resolve-create :
      (token : List ℕ) (now t : ℕ) (u : AuthUser) (m : Store K)
      → t < now + session_ttl_secs * 1000
      → (resolve token_hash token t (create token_hash token now u m)).1 ≡ some u
  unfolding create
  resolve-create token now t u m h =
      let same = (k.beq_iff (token_hash token) (token_hash token)).1 refl in
      let made : MemorySession = record {
        user = u;
        expires_at_ms = now + session_ttl_secs * 1000;
      } in
      resolve-live token t made (create token_hash token now u m) (rw same refl) h

  -- A token that has been resolved does so again for seven days, in the store that it left.
  pub resolve-resolve :
      (token : List ℕ) (now t : ℕ) (u : AuthUser) (m : Store K)
      → (resolve token_hash token now m).1 ≡ some u
      → t < now + session_renew_below_secs * 1000
      → (resolve token_hash token t (resolve token_hash token now m).0).1 ≡ some u
  unfolding resolve
  resolve-resolve token now t u m e h = elim (Option-cases (m (token_hash token))) [
    | inl n ↦ cc (rw (n, resolve) at e)
    | inr (s, n) ↦
        let (same, live) =
          use_session-user_of (token_hash token) now s m u (rw (n, resolve) at e) in
        let (s', at, user, long) = use_session-renewed (token_hash token) now s m n live in
        resolve-live token t s' (resolve token_hash token now m).0 (rw (n, resolve) at)
          (omega arith)
        ∙ ap some (user ∙ same)
  ]
