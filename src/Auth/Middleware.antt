-- ===== src/Auth/Middleware.antt =====
-- src/auth.rs: the cookies that the server sets, and `require_auth` over the store in memory, whose
-- `resolve` does not fail.
use crypto_nav_manager.Base.{ℕ, ◌≡◌, refl, inl, inr, Option, none, some, List, ◌++◌, Option-cases}
use crypto_nav_manager.Base.Maps.{Key}
use crypto_nav_manager.Base.Text.{codes}
use crypto_nav_manager.Auth.{AuthUser}
use crypto_nav_manager.Auth.Sessions.{Store, resolve}
use crypto_nav_manager.Auth.Cookies.{session_cookie, session_token}
use crypto_nav_manager.Auth.Histories.{Event, run, IsEntitled, resolve-IsEntitled}

-- `SESSION_TTL_SECS` in digits.
abbrev pub ttl_digits : List ℕ
ttl_digits = codes "1209600"

unfoldable pub session_cookie_header : List ℕ → List ℕ
session_cookie_header token =
    session_cookie
    ++ codes "="
    ++ token
    ++ codes "; Path=/; HttpOnly; SameSite=Lax; Max-Age="
    ++ ttl_digits

unfoldable pub clear_cookie_header : List ℕ
clear_cookie_header = session_cookie ++ codes "=; Path=/; HttpOnly; SameSite=Lax; Max-Age=0"

-- The answer to a request: the refusal 401, or what the next handler answers.
pub data Reply (R : Type 0) : Type 0 where
  unauthorized : Reply R
  served : R → Reply R

module _ {K R : Type 0} ⦃k : Key K⦄ (token_hash : List ℕ → K) where
  abbrev pub authorize : (AuthUser → R) → Option AuthUser → Reply R
  authorize next none = unauthorized
  authorize next (some u) = served (next u)

  unfoldable pub require_auth : Option (List ℕ) → ℕ → (AuthUser → R) → Store K → Store K × Reply R
  require_auth cookie now_ms next m = elim (session_token cookie) [
    | none ↦ (m, unauthorized)
    | some token ↦ let r = resolve token_hash token now_ms m in (r.0, authorize next r.1)
  ]

  authorize-served :
      (next : AuthUser → R) (o : Option AuthUser) (r : R)
      → authorize next o ≡ served r
      → (u : AuthUser) × (o ≡ some u) × (next u ≡ r)
  authorize-served next none r e = cc
  authorize-served next (some u) r e = (u, refl, cc)

  -- After any calls on a new store, a request that reaches the next handler has a session cookie, and
  -- the handler gets the user to whom the history has given the hash of its token and has not taken
  -- it back from.
  pub require_auth-IsEntitled :
      (es : List Event) (cookie : Option (List ℕ)) (now_ms : ℕ) (next : AuthUser → R) (r : R)
      → (require_auth cookie now_ms next (run token_hash es)).1 ≡ served r
      → (token : List ℕ) × (u : AuthUser) × (session_token cookie ≡ some token)
        × IsEntitled token_hash es (token_hash token) u
        × (next u ≡ r)
  unfolding require_auth
  require_auth-IsEntitled es cookie now_ms next r e = elim (Option-cases (session_token cookie)) [
    | inl n ↦ cc (rw (n, require_auth) at e)
    | inr (token, n) ↦
        let (u, found, given) =
          authorize-served next (resolve token_hash token now_ms (run token_hash es)).1 r
            (rw (n, require_auth) at e) in
        (token, u, n, (resolve-IsEntitled token_hash es token now_ms u found).0, given)
  ]
