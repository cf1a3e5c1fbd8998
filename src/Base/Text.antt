-- ===== src/Base/Text.antt =====
-- Texts as their bytes, and the ASCII tests of the source.
use Prim.Native.Nat.{ℕ, ◌+◌, ◌-◌}
use Prim.Native.Char.{code}
use Prim.Native.String.{String}
use mathlib.Core.Path.{◌≡◌}
use mathlib.Core.Logic.{◌↔◌}
use mathlib.Core.Bool.{Bool, true, false, ◌&&◌, ◌||◌}
use mathlib.Core.List.{List, [], ◌∷◌, map}
use mathlib.Core.Option.{Option, none, some}
use native.Mathlib.Omega.{arith}
use crypto_nav_manager.Base.Maps.{Key}
use crypto_nav_manager.Base.Tests.{ltb, leb, ◌==◌, if◌then◌else◌}

abbrev pub codes : String → List ℕ
codes String.[] = []
codes (String.◌∷◌ c s) = code c ∷ codes s

abbrev pub bytes_eq : List ℕ → List ℕ → Bool
bytes_eq [] [] = true
bytes_eq [] (y ∷ ys) = false
bytes_eq (x ∷ xs) [] = false
bytes_eq (x ∷ xs) (y ∷ ys) = x == y && bytes_eq xs ys

pub bytes_eq_iff : (xs ys : List ℕ) → (bytes_eq xs ys ≡ true) ↔ (xs ≡ ys)
bytes_eq_iff [] [] = ground arith
bytes_eq_iff [] (y ∷ ys) = ground arith
bytes_eq_iff (x ∷ xs) [] = ground arith
bytes_eq_iff (x ∷ xs) (y ∷ ys) = ground (arith, bytes_eq_iff xs ys)

unfoldable pub is_ascii_digit : ℕ → Bool
is_ascii_digit c = leb b'0' c && leb c b'9'

unfoldable pub is_ascii_lowercase : ℕ → Bool
is_ascii_lowercase c = leb b'a' c && leb c b'z'

unfoldable pub lower_byte : ℕ → ℕ
lower_byte c = if leb b'A' c && leb c b'Z' then c + 32 else c

unfoldable pub to_ascii_lowercase : List ℕ → List ℕ
unfolding lower_byte
to_ascii_lowercase = map lower_byte

unfoldable pub upper_byte : ℕ → ℕ
upper_byte c = if leb b'a' c && leb c b'z' then c - 32 else c

unfoldable pub to_ascii_uppercase : List ℕ → List ℕ
unfolding upper_byte
to_ascii_uppercase = map upper_byte

abbrev pub all : {A : Type 0} → (A → Bool) → List A → Bool
all p [] = true
all p (x ∷ xs) = p x && all p xs

-- `strip_suffix`: the text in front of the suffix, where it ends in it.
unfoldable pub strip_suffix : List ℕ → List ℕ → Option (List ℕ)
strip_suffix suffix [] = if bytes_eq [] suffix then some [] else none
strip_suffix suffix (c ∷ cs) =
    let rest = strip_suffix suffix cs in
    if bytes_eq (c ∷ cs) suffix
    then some []
    else elim rest [ none ↦ none | some ds ↦ some (c ∷ ds) ]

-- `trim` of a header's text, which has printable ASCII characters and tabs.
abbrev pub is_blank : ℕ → Bool
is_blank c = c == 32 || c == 9

unfoldable pub trim_start : List ℕ → List ℕ
trim_start [] = []
trim_start (c ∷ cs) = if is_blank c then trim_start cs else c ∷ cs

unfoldable pub trim_end : List ℕ → List ℕ
trim_end [] = []
trim_end (c ∷ cs) = elim (trim_end cs) [
  | [] ↦ if is_blank c then [] else c ∷ []
  | d ∷ ds ↦ c ∷ d ∷ ds
]

unfoldable pub trim : List ℕ → List ℕ
unfolding trim_start trim_end
trim cs = trim_end (trim_start cs)

abbrev pub prepend : ℕ → List (List ℕ) → List (List ℕ)
prepend c [] = (c ∷ []) ∷ []
prepend c (part ∷ parts) = (c ∷ part) ∷ parts

-- `split` on one character: as many parts as separators, and one.
abbrev pub split : ℕ → List ℕ → List (List ℕ)
split sep [] = [] ∷ []
split sep (c ∷ cs) = if c == sep then [] ∷ split sep cs else prepend c (split sep cs)

-- The order of texts: byte by byte.
abbrev pub bytes_before : List ℕ → List ℕ → Bool
bytes_before [] [] = false
bytes_before [] (y ∷ ys) = true
bytes_before (x ∷ xs) [] = false
bytes_before (x ∷ xs) (y ∷ ys) =
    if ltb x y then true else if ltb y x then false else bytes_before xs ys

instance abbrev pub bytes_key : Key (List ℕ)
bytes_key = record { beq = bytes_eq; before = bytes_before; beq_iff = bytes_eq_iff }
