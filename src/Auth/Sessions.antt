-- ===== src/Auth/Sessions.antt =====
-- `SessionStore` of src/auth.rs, the store in memory: a `HashMap` from the hash of a token. The map
-- is a function, since the program only looks keys up, retains and removes; SHA-256 is the parameter
-- `token_hash`, and the token that `create` draws from the database is its argument.
use crypto_nav_manager.Base.{
  ℕ, ◌+◌, ◌-◌, ◌*◌, ltb, leb, Bool, false, ◌||◌, not, Option, none, some, List, if◌then◌else◌,
}
use crypto_nav_manager.Base.Int.{ℤ, eqb_ℤ}
use crypto_nav_manager.Base.Maps.{Key}
use crypto_nav_manager.Auth.{AuthUser, MemorySession, session_ttl_secs, session_renew_below_secs}

abbrev pub Store : Type 0 → Type 0
Store K = K → Option MemorySession

module _ {K : Type 0} ⦃k : Key K⦄ where
  abbrev pub empty : Store K
  empty h = none

  abbrev pub insert : K → MemorySession → Store K → Store K
  insert h s m j = if k.beq h j then some s else m j

  abbrev pub remove : K → Store K → Store K
  remove h m j = if k.beq h j then none else m j

  abbrev pub keep_if : (K → MemorySession → Bool) → K → Option MemorySession → Option MemorySession
  keep_if p h none = none
  keep_if p h (some s) = if p h s then some s else none

  abbrev pub retain : (K → MemorySession → Bool) → Store K → Store K
  retain p m h = keep_if p h (m h)

  abbrev pub is_kept : K → Option K → Bool
  is_kept h none = false
  is_kept h (some kept) = k.beq kept h

module _ {K : Type 0} ⦃k : Key K⦄ (token_hash : List ℕ → K) where
  unfoldable pub create : List ℕ → ℕ → AuthUser → Store K → Store K
  create token now_ms user m =
      insert (token_hash token)
        (record { user = user; expires_at_ms = now_ms + session_ttl_secs * 1000 })
        (retain (λ _ s. ltb now_ms s.expires_at_ms) m)

  -- What `resolve` does with a session that it has found under `h`.
  unfoldable pub use_session : K → ℕ → MemorySession → Store K → Store K × Option AuthUser
  use_session h now_ms s m =
      if leb s.expires_at_ms now_ms
      then (remove h m, none)
      else if ltb (s.expires_at_ms - now_ms) (session_renew_below_secs * 1000)
      then (insert h (record s { expires_at_ms = now_ms + session_ttl_secs * 1000 }) m, some s.user)
      else (m, some s.user)

  unfoldable pub resolve : List ℕ → ℕ → Store K → Store K × Option AuthUser
  unfolding use_session
  resolve token now_ms m = elim (m (token_hash token)) [
    | none ↦ (m, none)
    | some s ↦ use_session (token_hash token) now_ms s m
  ]

  unfoldable pub revoke : List ℕ → Store K → Store K
  revoke token m = remove (token_hash token) m

  abbrev pub hash_of : Option (List ℕ) → Option K
  hash_of none = none
  hash_of (some token) = some (token_hash token)

  unfoldable pub revoke_user_sessions : ℤ → Option (List ℕ) → Store K → Store K
  revoke_user_sessions user_id keep_token m =
      retain (λ h s. not (eqb_ℤ s.user.user_id user_id) || is_kept h (hash_of keep_token)) m
