-- ===== src/Auth.antt =====
-- src/auth.rs: roles, users, sessions, and the rules for names and passwords. Texts are their bytes.
-- Times are milliseconds since 1970.
pub mod Sessions
pub mod Cookies
pub mod Histories
pub mod Middleware
pub mod Headers
pub mod Examples
use crypto_nav_manager.Base.{
  ℕ, ◌+◌, ◌*◌, leb, ◌==◌, Bool, true, false, ◌&&◌, ◌||◌, not, Option, none, some, List, [], length,
  if◌then◌else◌,
}
use crypto_nav_manager.Base.Int.{ℤ, eqb_ℤ}
use crypto_nav_manager.Base.Text.{codes, bytes_eq, is_ascii_digit, is_ascii_lowercase, all}

abbrev pub session_ttl_secs : ℕ
session_ttl_secs = 14 * 24 * 3600

abbrev pub session_renew_below_secs : ℕ
session_renew_below_secs = 7 * 24 * 3600

pub data Role : Type 0 where
  admin user : Role

unfoldable pub as_str : Role → List ℕ
as_str admin = codes "admin"
as_str user = codes "user"

unfoldable pub parse : List ℕ → Option Role
parse value =
    if bytes_eq value (codes "admin")
    then some admin
    else if bytes_eq value (codes "user")
    then some user
    else none

pub record AuthUser : Type 0 where
  pub user_id : ℤ
  pub username : List ℕ
  pub role : Role

pub is_admin : AuthUser → Bool
is_admin u = elim u.role [ admin ↦ true | user ↦ false ]

pub record MemorySession : Type 0 where
  pub user : AuthUser
  pub expires_at_ms : ℕ

abbrev pub is_username_byte : ℕ → Bool
unfolding is_ascii_lowercase is_ascii_digit
is_username_byte c = is_ascii_lowercase c || is_ascii_digit c || c == b'_' || c == b'.' || c == b'-'

unfoldable pub valid_username : List ℕ → Bool
valid_username name = not (length name == 0) && leb (length name) 64 && all is_username_byte name

unfoldable pub valid_password : List ℕ → Bool
valid_password password = leb 8 (length password) && leb (length password) 128
