-- ===== src/Auth/Cookies.antt =====
-- `session_token` of src/auth.rs: the token in a `Cookie` header.
use crypto_nav_manager.Base.{
  ℕ, ◌==◌, Bool, ◌&&◌, not, Option, none, some, List, [], ◌∷◌, if◌then◌else◌,
}
use crypto_nav_manager.Base.Text.{codes, bytes_eq, trim, split}

abbrev pub session_cookie : List ℕ
session_cookie = codes "nav_session"

abbrev pub before_rest : ℕ → Option (List ℕ × List ℕ) → Option (List ℕ × List ℕ)
before_rest c none = none
before_rest c (some (left, right)) = some (c ∷ left, right)

abbrev pub split_once : ℕ → List ℕ → Option (List ℕ × List ℕ)
split_once sep [] = none
split_once sep (c ∷ cs) = if c == sep then some ([], cs) else before_rest c (split_once sep cs)

abbrev pub is_empty : List ℕ → Bool
is_empty [] = Bool.true
is_empty (c ∷ cs) = Bool.false

-- The token of one pair, if it is the session's.
unfoldable pub pair_token : List ℕ → Option (List ℕ)
unfolding trim
pair_token pair = elim (split_once b'=' (trim pair)) [
  | none ↦ none
  | some (name, value) ↦
      if bytes_eq (trim name) session_cookie && not (is_empty (trim value))
      then some (trim value)
      else none
]

unfoldable pub first_token : List (List ℕ) → Option (List ℕ)
unfolding pair_token
first_token [] = none
first_token (pair ∷ pairs) = elim (pair_token pair) [
  | some token ↦ some token
  | none ↦ first_token pairs
]

-- The text of the header, if it is there and is text.
unfoldable pub session_token : Option (List ℕ) → Option (List ℕ)
unfolding first_token
session_token none = none
session_token (some header) = first_token (split b';' header)
