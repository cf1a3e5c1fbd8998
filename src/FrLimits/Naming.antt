-- ===== src/FrLimits/Naming.antt =====
-- src/fr_position_limits.rs, `normalize_symbol`: the form of a key, and that it is its own key.
use crypto_nav_manager.Base.{
  ℕ, ◌<◌, ◌==◌, leb, ◌≡◌, refl, ap, sym, ◌∙◌, subst, Bool, true, false, ◌&&◌, ◌||◌, inl, inr,
  Bool-cases, Option-cases, none, some, List, [], ◌∷◌, ◌++◌, length, length-append, All, All-append,
  arith,
}
use crypto_nav_manager.Base.Text.{
  strip_suffix, codes, bytes_eq, bytes_eq_iff, upper_byte, is_ascii_digit, is_ascii_lowercase,
}
use crypto_nav_manager.FrLimits.{or_else}
use crypto_nav_manager.FrLimits.Symbols.{
  is_alphanumeric, before_at, clean, quoted, normalize_symbol,
}

-- A digit or an upper case letter.
abbrev pub is_key_byte : ℕ → Bool
is_key_byte c = leb b'0' c && leb c b'9' || leb b'A' c && leb c b'Z'

abbrev pub IsClean : List ℕ → Type 0
IsClean = All (λ c. is_key_byte c ≡ true)

upper_byte-key : (c : ℕ) → is_alphanumeric c ≡ true → is_key_byte (upper_byte c) ≡ true
unfolding is_alphanumeric upper_byte is_ascii_digit is_ascii_lowercase
upper_byte-key c h = ground arith

alphanumeric_of_key : (c : ℕ) → is_key_byte c ≡ true → is_alphanumeric c ≡ true
unfolding is_alphanumeric is_ascii_digit is_ascii_lowercase
alphanumeric_of_key c h = ground arith

upper_byte_of_key : (c : ℕ) → is_key_byte c ≡ true → upper_byte c ≡ c
unfolding upper_byte
upper_byte_of_key c h = ground arith

clean-IsClean : (cs : List ℕ) → IsClean (clean cs)
unfolding clean
clean-IsClean [] = tt
clean-IsClean (c ∷ cs) = elim (Bool-cases (is_alphanumeric c)) [
  | inl kept ↦ rw kept (upper_byte-key c kept, clean-IsClean cs)
  | inr dropped ↦ rw dropped (clean-IsClean cs)
]

clean-of-IsClean : (cs : List ℕ) → IsClean cs → clean cs ≡ cs
unfolding clean
clean-of-IsClean [] a = refl
clean-of-IsClean (c ∷ cs) (h, a) =
    rw (alphanumeric_of_key c h, upper_byte_of_key c h) (ap (λ ds. c ∷ ds) (clean-of-IsClean cs a))

before_at-of-IsClean : (cs : List ℕ) → IsClean cs → before_at cs ≡ cs
before_at-of-IsClean [] a = refl
before_at-of-IsClean (c ∷ cs) (h, a) =
    let plain : (c == b'@') ≡ false = ground arith in
    rw plain (ap (λ ds. c ∷ ds) (before_at-of-IsClean cs a))

strip_suffix-some :
    (suffix cs : List ℕ) {ds : List ℕ} → strip_suffix suffix cs ≡ some ds → cs ≡ ds ++ suffix
unfolding strip_suffix
strip_suffix-some suffix [] {ds = ds} h = elim (Bool-cases (bytes_eq [] suffix)) [
  | inl e ↦ let g = rw e at h in let whole = (bytes_eq_iff [] suffix).0 e in cc
  | inr e ↦ let g = rw e at h in cc
]
strip_suffix-some suffix (c ∷ cs) {ds = ds} h = elim (Bool-cases (bytes_eq (c ∷ cs) suffix)) [
  | inl e ↦
      let g = rw e at h in
      let whole : c ∷ cs ≡ suffix = (bytes_eq_iff (c ∷ cs) suffix).0 e in
      let none_left : ds ≡ [] = cc in whole ∙ rw none_left refl
  | inr e ↦
      let g = rw e at h in
      elim (Option-cases (strip_suffix suffix cs)) [
        | inl stays ↦ let k = rw stays at g in cc
        | inr (es, comes_off) ↦
            let k : some (c ∷ es) ≡ some ds = rw comes_off at g in
            let rest = strip_suffix-some suffix cs comes_off in
            let front : c ∷ es ≡ ds = cc in ap (λ zs. c ∷ zs) rest ∙ ap (λ zs. zs ++ suffix) front
      ]
]

bytes_eq_self : (cs : List ℕ) → bytes_eq cs cs ≡ true
bytes_eq_self cs = (bytes_eq_iff cs cs).1 refl

-- A longer text is another.
pub bytes_eq_longer : (cs ds : List ℕ) → length ds < length cs → bytes_eq cs ds ≡ false
bytes_eq_longer cs ds h = elim (Bool-cases (bytes_eq cs ds)) [
  | inl e ↦ let same = ap length ((bytes_eq_iff cs ds).0 e) in absurd (omega arith)
  | inr e ↦ e
]

-- A suffix comes off again.
pub strip_suffix-append : (suffix ds : List ℕ) → strip_suffix suffix (ds ++ suffix) ≡ some ds
unfolding strip_suffix
strip_suffix-append [] [] = refl
strip_suffix-append (c ∷ cs) [] = rw (bytes_eq_self (c ∷ cs))
strip_suffix-append suffix (d ∷ ds) = rw (
  bytes_eq_longer (d ∷ ds ++ suffix) suffix (let sum = length-append ds suffix in omega arith),
  strip_suffix-append suffix ds,
)

abbrev last_byte : ℕ → List ℕ → ℕ
last_byte c [] = c
last_byte c (d ∷ ds) = last_byte d ds

last_byte-append :
    (c : ℕ) (cs : List ℕ) (d : ℕ) (ds : List ℕ) → last_byte c (cs ++ d ∷ ds) ≡ last_byte d ds
last_byte-append c [] d ds = refl
last_byte-append c (e ∷ cs) d ds = last_byte-append e cs d ds

-- A name that ends in the quote asset does not end in SWAP.
pub strip_swap-quote : (ds : List ℕ) → strip_suffix (codes "SWAP") (ds ++ codes "USDT") ≡ none
strip_swap-quote ds = elim (Option-cases (strip_suffix (codes "SWAP") (ds ++ codes "USDT"))) [
  | inl e ↦ e
  | inr (es, e) ↦
      let same = ap (last_byte 0) (strip_suffix-some (codes "SWAP") (ds ++ codes "USDT") e) in
      let t = last_byte-append 0 ds b'U' (b'S' ∷ b'D' ∷ b'T' ∷ []) in
      let p = last_byte-append 0 es b'S' (b'W' ∷ b'A' ∷ b'P' ∷ []) in absurd (omega arith)
]

IsClean-left : (cs ds : List ℕ) → IsClean (cs ++ ds) → IsClean cs
IsClean-left [] ds a = tt
IsClean-left (c ∷ cs) ds (h, a) = (h, IsClean-left cs ds a)

-- A key is a name, not empty, in front of the quote asset, in digits and upper case letters.
abbrev pub IsKey : List ℕ → Type 0
IsKey key = (c : ℕ) × (cs : List ℕ) × (key ≡ (c ∷ cs) ++ codes "USDT") × IsClean key

quoted-IsKey :
    (cleaned : List ℕ) {key : List ℕ} → IsClean cleaned → quoted cleaned ≡ some key → IsKey key
quoted-IsKey [] a h = cc
quoted-IsKey (c ∷ cs) {key = key} a h = elim (Bool-cases (bytes_eq (c ∷ cs) (codes "USDT"))) [
  | inl quote ↦ let g = rw quote at h in cc
  | inr other ↦
      let g = rw other at h in
      elim (Option-cases (strip_suffix (codes "USDT") (c ∷ cs))) [
        | inl bare ↦
            let k = rw bare at g in
            let e : key ≡ (c ∷ cs) ++ codes "USDT" = cc in
            (
              c,
              cs,
              e,
              subst IsClean (sym e)
                  (All-append _ (c ∷ cs) (codes "USDT") a (refl, (refl, (refl, (refl, tt))))),
            )
        | inr (ds, comes_off) ↦
            let k = rw comes_off at g in
            let e : key ≡ c ∷ cs = cc in
            named key ds (e ∙ strip_suffix-some (codes "USDT") (c ∷ cs) comes_off) (e ∙ refl)
              (subst IsClean (sym e) a) other
      ]
]
  where
    named :
        (key ds : List ℕ)
        → key ≡ ds ++ codes "USDT"
        → key ≡ c ∷ cs
        → IsClean key
        → bytes_eq (c ∷ cs) (codes "USDT") ≡ false
        → IsKey key
    named key [] e same a other = cc
    named key (d ∷ ds) e same a other = (d, ds, e, a)

key_normal :
    (c : ℕ) (cs : List ℕ)
    → IsClean ((c ∷ cs) ++ codes "USDT")
    → normalize_symbol ((c ∷ cs) ++ codes "USDT") ≡ some ((c ∷ cs) ++ codes "USDT")
unfolding normalize_symbol
key_normal c cs a =
    let sum = length-append cs (codes "USDT") in
    let longer = bytes_eq_longer ((c ∷ cs) ++ codes "USDT") (codes "USDT") (omega arith) in
    rw
      (
        before_at-of-IsClean ((c ∷ cs) ++ codes "USDT") a,
        clean-of-IsClean ((c ∷ cs) ++ codes "USDT") a,
        strip_swap-quote (c ∷ cs),
        longer,
        strip_suffix-append (codes "USDT") cs,
      )
      refl

or_else-IsClean : (cs : List ℕ) → IsClean cs → IsClean (or_else (strip_suffix (codes "SWAP") cs) cs)
or_else-IsClean cs a = elim (Option-cases (strip_suffix (codes "SWAP") cs)) [
  | inl e ↦ rw e a
  | inr (ds, e) ↦
      rw e
        (IsClean-left ds (codes "SWAP") (subst IsClean (strip_suffix-some (codes "SWAP") cs e) a))
]

-- What `normalize_symbol` gives is a name, not empty, of digits and upper case letters in front of USDT, and it is
-- its own key: normalizing it again changes nothing.
pub normalize_symbol-IsKey :
    (value key : List ℕ)
    → normalize_symbol value ≡ some key
    → IsKey key × (normalize_symbol key ≡ some key)
unfolding normalize_symbol
normalize_symbol-IsKey value key h =
    let cleaned = clean (before_at value) in
    let (c, cs, e, a) =
      quoted-IsKey (or_else (strip_suffix (codes "SWAP") cleaned) cleaned)
        (or_else-IsClean cleaned (clean-IsClean (before_at value))) h in
    (
      (c, cs, e, a),
      subst (λ k. normalize_symbol k ≡ some k) (sym e) (key_normal c cs (subst IsClean e a)),
    )
