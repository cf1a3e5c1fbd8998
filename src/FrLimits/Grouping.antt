-- ===== src/FrLimits/Grouping.antt =====
-- src/fr_position_limits.rs: which rows of an answer count for a symbol.
use Prim.Native.String.{String}
use crypto_nav_manager.Base.{
  ℕ, ◌≡◌, refl, ap, sym, ◌∙◌, inl, inr, Bool-cases, Option, none, some, List, [], ◌∷◌,
  if◌then◌else◌,
}
use crypto_nav_manager.Base.Maps.{lookup, lookup-insert}
use crypto_nav_manager.Base.Text.{bytes_eq, bytes_eq_iff, bytes_key}
use crypto_nav_manager.FrLimits.{Fields, first}
use crypto_nav_manager.FrLimits.Symbols.{normalize_symbol}
use crypto_nav_manager.FrLimits.Exchange.{put, put_keyed, put_named, apply_row, apply_rows}

module _ {F L : Type 0} (field : String) (change : Option L → List ℕ → Fields F → Option L) where
  -- The record of one symbol after a row that names it; a row without what it takes leaves it.
  abbrev pub own_row : Option L → List ℕ → Fields F → Option L
  own_row old raw row = first (change old raw row) old

  abbrev keyed_row : List ℕ → Option L → Fields F → List ℕ → Option (List ℕ) → Option L
  keyed_row symbol old row raw none = old
  keyed_row symbol old row raw (some t) = if bytes_eq t symbol then own_row old raw row else old

  abbrev named_row : List ℕ → Option L → Fields F → Option (List ℕ) → Option L
  named_row symbol old row none = old
  named_row symbol old row (some raw) = keyed_row symbol old row raw (normalize_symbol raw)

  -- The record of one symbol after the rows that name it, in their order.
  abbrev pub record_of : List ℕ → Option L → List (Fields F) → Option L
  record_of symbol old [] = old
  record_of symbol old (row ∷ rows) =
      record_of symbol (named_row symbol old row (row.text field)) rows

  lookup-put :
      (t symbol : List ℕ) (limits : List (List ℕ × L)) (r : Option L)
      → lookup symbol (put change t limits r)
        ≡ (if bytes_eq t symbol then first r (lookup t limits) else lookup symbol limits)
  lookup-put t symbol limits none = elim (Bool-cases (bytes_eq t symbol)) [
    | inl own ↦
        let same : t ≡ symbol = (bytes_eq_iff t symbol).0 own in
        rw own (ap (λ s. lookup s limits) (sym same))
    | inr other ↦ rw other
  ]
  lookup-put t symbol limits (some r) = lookup-insert t symbol r limits

  lookup-put_keyed :
      (symbol : List ℕ) (limits : List (List ℕ × L)) (row : Fields F) (raw : List ℕ)
      (key : Option (List ℕ))
      → lookup symbol (put_keyed change limits row raw key)
        ≡ keyed_row symbol (lookup symbol limits) row raw key
  lookup-put_keyed symbol limits row raw none = refl
  lookup-put_keyed symbol limits row raw (some t) =
      lookup-put t symbol limits (change (lookup t limits) raw row)
      ∙ elim (Bool-cases (bytes_eq t symbol)) [
        | inl own ↦
            let same : t ≡ symbol = (bytes_eq_iff t symbol).0 own in
            rw own (ap (λ s. own_row (lookup s limits) raw row) same)
        | inr other ↦ rw other
      ]

  lookup-put_named :
      (symbol : List ℕ) (limits : List (List ℕ × L)) (row : Fields F) (name : Option (List ℕ))
      → lookup symbol (put_named change limits row name)
        ≡ named_row symbol (lookup symbol limits) row name
  lookup-put_named symbol limits row none = refl
  lookup-put_named symbol limits row (some raw) =
      lookup-put_keyed symbol limits row raw (normalize_symbol raw)

  lookup-apply_row :
      (symbol : List ℕ) (limits : List (List ℕ × L)) (row : Fields F)
      → lookup symbol (apply_row field change limits row)
        ≡ named_row symbol (lookup symbol limits) row (row.text field)
  unfolding apply_row
  lookup-apply_row symbol limits row = lookup-put_named symbol limits row (row.text field)

  -- Rows of other symbols have no part in the record of a symbol, and a symbol that no row names keeps
  -- the record that it had.
  pub lookup-apply_rows :
      (symbol : List ℕ) (limits : List (List ℕ × L)) (rows : List (Fields F))
      → lookup symbol (apply_rows field change limits rows)
        ≡ record_of symbol (lookup symbol limits) rows
  unfolding apply_rows
  lookup-apply_rows symbol limits [] = refl
  lookup-apply_rows symbol limits (row ∷ rows) =
      lookup-apply_rows symbol (apply_row field change limits row) rows
      ∙ ap (λ old. record_of symbol old rows) (lookup-apply_row symbol limits row)
