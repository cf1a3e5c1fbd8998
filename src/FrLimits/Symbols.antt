-- ===== src/FrLimits/Symbols.antt =====
-- src/fr_position_limits.rs: the names under which the sources know a contract.
use crypto_nav_manager.Base.{
  ℕ, ◌==◌, leb, Bool, true, false, ◌&&◌, ◌||◌, Option, none, some, List, [], ◌∷◌, ◌++◌,
  if◌then◌else◌,
}
use crypto_nav_manager.Base.Text.{
  strip_suffix, codes, bytes_eq, upper_byte, is_ascii_digit, is_ascii_lowercase,
}
use crypto_nav_manager.FrLimits.{or_else, is_some}

unfoldable pub is_alphanumeric : ℕ → Bool
unfolding is_ascii_digit is_ascii_lowercase
is_alphanumeric c = is_ascii_digit c || is_ascii_lowercase c || leb b'A' c && leb c b'Z'

-- What stands before the first `@`, if one is there.
abbrev pub before_at : List ℕ → List ℕ
before_at [] = []
before_at (c ∷ cs) = if c == b'@' then [] else c ∷ before_at cs

-- The letters and digits, upper case: `trim` takes nothing more away.
unfoldable pub clean : List ℕ → List ℕ
unfolding is_alphanumeric upper_byte
clean [] = []
clean (c ∷ cs) = if is_alphanumeric c then upper_byte c ∷ clean cs else clean cs

abbrev is_empty : List ℕ → Bool
is_empty [] = true
is_empty (c ∷ cs) = false

-- The name with its quote asset; none for no name and for the quote asset itself.
abbrev pub quoted : List ℕ → Option (List ℕ)
quoted cleaned =
    if is_empty cleaned || bytes_eq cleaned (codes "USDT")
    then none
    else if is_some (strip_suffix (codes "USDT") cleaned)
    then some cleaned
    else some (cleaned ++ codes "USDT")

unfoldable pub normalize_symbol : List ℕ → Option (List ℕ)
unfolding clean strip_suffix
normalize_symbol value =
    let cleaned = clean (before_at value) in
    quoted (or_else (strip_suffix (codes "SWAP") cleaned) cleaned)

unfoldable pub asset_from_symbol : List ℕ → List ℕ
unfolding strip_suffix
asset_from_symbol symbol = or_else (strip_suffix (codes "USDT") symbol) symbol

unfoldable pub gate_contract : List ℕ → List ℕ
unfolding asset_from_symbol
gate_contract symbol = asset_from_symbol symbol ++ codes "_USDT"
