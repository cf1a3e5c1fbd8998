-- ===== src/FrLimits/Spellings.antt =====
-- src/fr_position_limits.rs, `normalize_symbol`: the spellings of a contract have one key.
use crypto_nav_manager.Base.{
  ℕ, ◌+◌, ◌≤◌, ◌==◌, leb, ◌≡◌, refl, sym, subst, ◌⊎◌, true, false, ◌&&◌, inl, inr, Bool-cases, none,
  some, List, [], ◌∷◌, ◌++◌, length-append, arith,
}
use crypto_nav_manager.Base.Text.{
  strip_suffix, codes, bytes_eq, bytes_eq_iff, upper_byte, is_ascii_digit, is_ascii_lowercase,
}
use crypto_nav_manager.FrLimits.Symbols.{
  is_alphanumeric, before_at, clean, quoted, normalize_symbol,
}
use crypto_nav_manager.FrLimits.Naming.{
  is_key_byte, strip_suffix-append, strip_swap-quote, bytes_eq_longer,
}

-- A byte that is neither a digit, nor a letter, nor `@`.
abbrev pub IsSeparator : ℕ → Type 0
IsSeparator c =
    (is_key_byte c ≡ false) × ((leb b'a' c && leb c b'z') ≡ false) × ((c == b'@') ≡ false)

-- A digit as it is, a letter in upper or in lower case.
abbrev pub IsCaseOf : ℕ → ℕ → Type 0
IsCaseOf d c = (is_key_byte d ≡ true) × ((c ≡ d) ⊎ ((b'A' ≤ d) × (c ≡ d + 32)))

-- A way to write a name: in letters of any case, with separators anywhere, and anything after an `@`.
abbrev pub Spells : List ℕ → List ℕ → Type 0
Spells [] name = name ≡ []
Spells (c ∷ cs) name =
    ((c ≡ b'@') × (name ≡ []))
    ⊎ (IsSeparator c × Spells cs name)
    ⊎ ((d : ℕ) × (ds : List ℕ) × (name ≡ d ∷ ds) × IsCaseOf d c × Spells cs ds)

case_byte :
    (d c : ℕ)
    → IsCaseOf d c
    → ((c == b'@') ≡ false) × (is_alphanumeric c ≡ true) × (upper_byte c ≡ d)
unfolding is_alphanumeric upper_byte is_ascii_digit is_ascii_lowercase
case_byte d c (k, inl e) = ground arith
case_byte d c (k, inr (a, e)) = ground arith

separator_byte : (c : ℕ) → IsSeparator c → is_alphanumeric c ≡ false
unfolding is_alphanumeric is_ascii_digit is_ascii_lowercase
separator_byte c (k, l, a) = ground arith

-- What is left of a spelling is the name.
clean-before_at : (value name : List ℕ) → Spells value name → clean (before_at value) ≡ name
unfolding clean
clean-before_at [] name h = sym h
clean-before_at (c ∷ cs) name (inl (at, e)) =
    let here : (c == b'@') ≡ true = ground arith in rw (here, e) refl
clean-before_at (c ∷ cs) name (inr (inl (s, h))) =
    let (_, _, other) = s in rw other (rw (separator_byte c s) (clean-before_at cs name h))
clean-before_at (c ∷ cs) name (inr (inr (d, ds, e, k, h))) =
    let (other, kept, upper) = case_byte d c k in
    rw other (rw (kept, upper, clean-before_at cs ds h) (sym e))

-- How the exchanges end the name of a contract of an asset.
pub data Ending : Type 0 where
  bare quote swap quote_swap : Ending

abbrev pub written : List ℕ → Ending → List ℕ
written asset bare = asset
written asset quote = asset ++ codes "USDT"
written asset swap = asset ++ codes "SWAP"
written asset quote_swap = (asset ++ codes "USDT") ++ codes "SWAP"

cut-written :
    (c : ℕ) (cs : List ℕ) (e : Ending)
    → strip_suffix (codes "SWAP") (c ∷ cs) ≡ none
    → (strip_suffix (codes "SWAP") (written (c ∷ cs) e) ≡ some (c ∷ cs))
      ⊎ ((strip_suffix (codes "SWAP") (written (c ∷ cs) e) ≡ some ((c ∷ cs) ++ codes "USDT"))
          ⊎ (strip_suffix (codes "SWAP") (written (c ∷ cs) e) ≡ none)
            × ((written (c ∷ cs) e ≡ c ∷ cs) ⊎ (written (c ∷ cs) e ≡ (c ∷ cs) ++ codes "USDT")))
cut-written c cs bare h = inr (inr (h, inl refl))
cut-written c cs quote h = inr (inr (strip_swap-quote (c ∷ cs), inr refl))
cut-written c cs swap h = inl (strip_suffix-append (codes "SWAP") (c ∷ cs))
cut-written c cs quote_swap h =
    inr (inl (strip_suffix-append (codes "SWAP") ((c ∷ cs) ++ codes "USDT")))

-- The asset's name, with or without the quote asset, is a key of one form.
quoted-asset :
    (c : ℕ) (cs : List ℕ)
    → strip_suffix (codes "USDT") (c ∷ cs) ≡ none
    → quoted (c ∷ cs) ≡ some ((c ∷ cs) ++ codes "USDT")
quoted-asset c cs h = elim (Bool-cases (bytes_eq (c ∷ cs) (codes "USDT"))) [
  | inl same ↦
      let e : c ∷ cs ≡ codes "USDT" = (bytes_eq_iff (c ∷ cs) (codes "USDT")).0 same in
      let g : strip_suffix (codes "USDT") (codes "USDT") ≡ none =
        subst (λ ds. strip_suffix (codes "USDT") ds ≡ none) e h in
      let found = strip_suffix-append (codes "USDT") [] in cc
  | inr other ↦ rw (other, h) refl
]

quoted-quote :
    (c : ℕ) (cs : List ℕ) → quoted ((c ∷ cs) ++ codes "USDT") ≡ some ((c ∷ cs) ++ codes "USDT")
quoted-quote c cs =
    let sum = length-append cs (codes "USDT") in
    let longer = bytes_eq_longer ((c ∷ cs) ++ codes "USDT") (codes "USDT") (omega arith) in
    rw (longer, strip_suffix-append (codes "USDT") (c ∷ cs)) refl

-- An asset whose name ends neither in SWAP nor in USDT has one key, its name in front of USDT: `normalize_symbol`
-- gives it to every spelling of the name, of the name with the quote asset, and of either with SWAP behind it, in
-- letters of any case, with separators anywhere and anything after an `@`.
pub normalize_symbol-Spells :
    (c : ℕ) (cs value : List ℕ) (e : Ending)
    → strip_suffix (codes "SWAP") (c ∷ cs) ≡ none
    → strip_suffix (codes "USDT") (c ∷ cs) ≡ none
    → Spells value (written (c ∷ cs) e)
    → normalize_symbol value ≡ some ((c ∷ cs) ++ codes "USDT")
unfolding normalize_symbol
normalize_symbol-Spells c cs value e not_swap not_quote h =
    rw (clean-before_at value (written (c ∷ cs) e) h) (elim (cut-written c cs e not_swap) [
      | inl x ↦ rw x (quoted-asset c cs not_quote)
      | inr (inl x) ↦ rw x (quoted-quote c cs)
      | inr (inr (x, inl w)) ↦ rw (x, w) (quoted-asset c cs not_quote)
      | inr (inr (x, inr w)) ↦ rw (x, w) (quoted-quote c cs)
    ])
