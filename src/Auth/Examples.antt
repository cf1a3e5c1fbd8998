-- ===== src/Auth/Examples.antt =====
-- Tests of the authentication, and its theorems at concrete inputs: a token is its own hash.
use crypto_nav_manager.Base.{Option, ℕ, ◌≡◌, refl, ◌<◌, false, some, List, [], ◌∷◌, arith}
use crypto_nav_manager.Base.Int.{pos}
use crypto_nav_manager.Base.Text.{
  bytes_key, codes, trim, trim_start, trim_end, is_ascii_lowercase, is_ascii_digit,
}
use crypto_nav_manager.Auth.{AuthUser, MemorySession, admin, user, valid_username}
use crypto_nav_manager.Auth.Sessions.{create, use_session, resolve, revoke}
use crypto_nav_manager.Auth.Cookies.{session_token, first_token, pair_token}
use crypto_nav_manager.Auth.Middleware.{
  session_cookie_header, clear_cookie_header, served, require_auth, require_auth-IsEntitled,
}
use crypto_nav_manager.Auth.Headers.{
  cookie_header, cookie_pair, session_token-session_cookie_header,
}
use crypto_nav_manager.Auth.Histories.{
  Event, created, resolved, revoked, run, IsEntitled, resolve-IsEntitled, resolve-create,
  resolve-resolve,
}

abbrev plain : List ℕ → List ℕ
plain token = token

abbrev alice : AuthUser
alice = record { user_id = pos 1; username = codes "alice"; role = admin }

abbrev bob : AuthUser
bob = record { user_id = pos 2; username = codes "bob"; role = user }

abbrev events : List Event
events =
    revoked (codes "b")
    ∷ resolved (codes "a") 700000000
    ∷ created (codes "b") 2000 bob
    ∷ created (codes "a") 1000 alice
    ∷ []

still_in : (resolve plain (codes "a") 1300000000 (run plain events)).1 ≡ some alice
unfolding resolve use_session revoke create
still_in = refl

resolve-IsEntitled_example :
    IsEntitled plain events (codes "a") alice
    × ((s : MemorySession) × (run plain events (codes "a") ≡ some s)
        × (1300000000 < s.expires_at_ms))
resolve-IsEntitled_example = resolve-IsEntitled plain events (codes "a") 1300000000 alice still_in

resolve-create_example :
    (resolve plain (codes "b") 1209600004 (create plain (codes "b") 5 bob (run plain events))).1
    ≡ some bob
resolve-create_example =
    resolve-create plain (codes "b") 5 1209600004 bob (run plain events) (omega arith)

resolve-resolve_example :
    (resolve plain
      (codes "a")
      1904799999
      (resolve plain (codes "a") 1300000000 (run plain events)).0).1
    ≡ some alice
resolve-resolve_example =
    resolve-resolve plain (codes "a") 1300000000 1904799999 alice (run plain events) still_in
      (omega arith)

reads_the_session_cookie :
    session_token (some (codes "theme=dark; nav_session= abc ;x")) ≡ some (codes "abc")
unfolding session_token first_token pair_token trim trim_start trim_end
reads_the_session_cookie = refl

session_token-session_cookie_header_example :
    (session_token (
        some (
          cookie_header (
            codes "theme=dark"
            ∷ cookie_pair (session_cookie_header (codes "a1"))
            ∷ codes "x=1"
            ∷ [])))
      ≡ some (codes "a1"))
    × (session_token (
          some (
            cookie_header
              (codes "theme=dark" ∷ cookie_pair clear_cookie_header ∷ codes "x=1" ∷ [])))
        ≡ first_token (codes "x=1" ∷ []))
unfolding first_token pair_token trim trim_start trim_end
session_token-session_cookie_header_example =
    session_token-session_cookie_header (codes "theme=dark" ∷ []) (codes "x=1" ∷ []) b'a'
      (b'1' ∷ []) refl (ground arith) (ground arith) (ground arith)

names_are_lowercase : valid_username (codes "Alice") ≡ false
unfolding valid_username is_ascii_lowercase is_ascii_digit
names_are_lowercase = refl

abbrev cookie : Option (List ℕ)
cookie = some (codes "nav_session=a")

serves_alice :
    (require_auth plain cookie 1300000000 (λ u. u.username) (run plain events)).1
    ≡ served (codes "alice")
unfolding require_auth session_token first_token pair_token trim trim_start trim_end resolve
    use_session revoke create
serves_alice = refl

require_auth-IsEntitled_example :
    (token : List ℕ) × (u : AuthUser) × (session_token cookie ≡ some token)
    × IsEntitled plain events token u
    × (u.username ≡ codes "alice")
require_auth-IsEntitled_example =
    require_auth-IsEntitled plain events cookie 1300000000 (λ (u : AuthUser). u.username)
      (codes "alice") serves_alice
