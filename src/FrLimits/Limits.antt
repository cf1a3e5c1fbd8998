-- ===== src/FrLimits/Limits.antt =====
-- src/fr_position_limits.rs: the limit that counts, and the order of the rows.
use crypto_nav_manager.Base.{
  ℕ, ◌≤◌, ◌≡◌, refl, ap, ◌∙◌, subst, true, false, ◌&&◌, inl, inr, Bool-cases, Option-cases, Option,
  none, some, List, [], arith, if◌then◌else◌,
}
use mathlib.Core.List.{Perm}
use crypto_nav_manager.Base.Sort.{sort_by-perm, sort_by-Chain, Chain}
use crypto_nav_manager.Float.{Float, IsPositive, IsIeee}
use crypto_nav_manager.FrLimits.{
  Constants, BinanceLimit, Fields, first, positive, capped, effective_limit,
}
use crypto_nav_manager.FrLimits.Rows.{FrLimitRow}
use crypto_nav_manager.FrLimits.Tables.{row_le, sort_rows}
use crypto_nav_manager.FrLimits.Exchange.{
  config_change, position_change, bracket_change, gate_change, parse_gate_positions,
  merge_binance_positions, merge_binance_brackets, parse_binance_symbol_configs,
}
use crypto_nav_manager.FrLimits.Answers.{merge_answers}
use crypto_nav_manager.FrLimits.Grouping.{record_of, lookup-apply_rows}
use crypto_nav_manager.Base.Maps.{lookup}
use crypto_nav_manager.Base.Text.{bytes_key}

module _ {F : Type 0} ⦃f : Float F⦄ where
  -- A limit that is not above a value.
  abbrev pub IsBelow : F → Option F → Type 0
  IsBelow cap none = Unit
  IsBelow cap (some value) = f.lt value cap ≡ false

  positive-IsPositive : (o : Option F) {a : F} → positive o ≡ some a → IsPositive a
  unfolding positive
  positive-IsPositive none h = cc
  positive-IsPositive (some b) {a = a} h = elim (Bool-cases (f.is_finite b && f.lt f.nought b)) [
    | inl fine ↦ let g = rw fine at h in let e : b ≡ a = cc in subst IsPositive e (ground arith)
    | inr bad ↦ let g = rw bad at h in cc
  ]

  module _ (laws : IsIeee F) where
    lt_irrefl : (a : F) → f.lt a a ≡ false
    lt_irrefl a = elim (Bool-cases (f.lt a a)) [ inl less ↦ laws.lt_asym a a less | inr e ↦ e ]

    min-IsBelow :
        (a b : F)
        → IsPositive a
        → IsPositive b
        → IsPositive (f.min a b) × (f.lt a (f.min a b) ≡ false) × (f.lt b (f.min a b) ≡ false)
    min-IsBelow a b p q = elim (Bool-cases (f.lt b a)) [
      | inl less ↦
          let pick : f.min a b ≡ b = laws.min_pick a b p q ∙ rw less in
          rw pick (q, laws.lt_asym b a less, lt_irrefl b)
      | inr more ↦
          let pick : f.min a b ≡ a = laws.min_pick a b p q ∙ rw more in
          rw pick (p, lt_irrefl a, more)
    ]

    capped-IsBelow :
        (cap : Option F) (bracket : F)
        → ((a : F) → cap ≡ some a → IsPositive a)
        → IsPositive bracket
        → IsPositive (capped cap bracket)
          × IsBelow (capped cap bracket) cap
          × (f.lt bracket (capped cap bracket) ≡ false)
    capped-IsBelow none bracket p q = (q, tt, lt_irrefl bracket)
    capped-IsBelow (some a) bracket p q = min-IsBelow a bracket (p a refl) q

    first-IsPositive :
        (x y : Option F) (a : F) → first (positive x) (positive y) ≡ some a → IsPositive a
    first-IsPositive x y a h = elim (Option-cases (positive x)) [
      | inl missing ↦ positive-IsPositive y (rw missing at h)
      | inr (b, found) ↦
          let g : some b ≡ some a = rw found at h in positive-IsPositive x (found ∙ g)
    ]

    -- The limit that counts for a Binance symbol is positive, and it is above neither the cap of the symbol's
    -- configuration (that of the position's risk, where the configuration has no positive one) nor the
    -- largest bracket, where these are positive.
    pub effective_limit-IsBelow :
        (limit : BinanceLimit F) (least : F)
        → effective_limit limit ≡ some least
        → IsPositive least
          × IsBelow least
              (first (positive limit.symbol_config_limit) (positive limit.position_risk_limit))
          × IsBelow least (positive limit.bracket_limit)
    unfolding effective_limit
    effective_limit-IsBelow limit least h =
        let base =
          first (positive limit.symbol_config_limit) (positive limit.position_risk_limit) in
        elim (Option-cases (positive limit.bracket_limit)) [
          | inl missing ↦
              let g : base ≡ some least = rw (missing, effective_limit) at h in
              (
                first-IsPositive limit.symbol_config_limit limit.position_risk_limit least g,
                rw g (lt_irrefl least),
                rw missing tt,
              )
          | inr (bracket, found) ↦
              let g : some (capped base bracket) ≡ some least = rw (found, effective_limit) at h in
              let e : capped base bracket ≡ least = cc in
              let (p, x, y) =
                capped-IsBelow base bracket
                  (first-IsPositive limit.symbol_config_limit limit.position_risk_limit)
                  (positive-IsPositive limit.bracket_limit found) in
              (
                subst IsPositive e p,
                subst (λ c. IsBelow c base) e x,
                rw found (subst (λ c. f.lt bracket c ≡ false) e y),
              )
        ]

module _ {F : Type 0} where
  -- Where a row stands: the ones near their limit first.
  abbrev pub place : FrLimitRow F → ℕ
  place row = if row.near_limit then 0 else 1

module _ {F : Type 0} ⦃f : Float F⦄ (constants : Constants F) where
  row_le-place : (a b : FrLimitRow F) → row_le constants a b ≡ true → place a ≤ place b
  unfolding row_le
  row_le-place a b h = ground arith

  row_le-not_place : (a b : FrLimitRow F) → row_le constants a b ≡ false → place b ≤ place a
  unfolding row_le
  row_le-not_place a b h = ground arith

  -- The sorted rows are the rows, each as often as before, and those near their limit come first.
  pub sort_rows-perm :
      (rows : List (FrLimitRow F))
      → Perm (sort_rows constants rows) rows × Chain place (sort_rows constants rows)
  unfolding sort_rows
  sort_rows-perm rows = (
    sort_by-perm (row_le constants) rows,
    sort_by-Chain place (row_le constants) row_le-place row_le-not_place rows,
  )

  -- What the answers say of one symbol, whatever they say of others, is in its record: the rows that name
  -- it, under any spelling, change it in their order, first those of `symbolConfig`, then those of
  -- `positionRisk` and of `leverageBracket`; for Gate the rows of its positions.
  pub lookup-merge_answers :
      (symbol : List ℕ) (configs positions brackets : List (Fields F))
      → (lookup symbol (merge_answers constants configs positions brackets)
          ≡ record_of "symbol"
              (bracket_change constants)
              symbol
              (record_of "symbol"
                (position_change constants)
                symbol
                (record_of "symbol" config_change symbol none configs)
                positions)
              brackets)
        × (lookup symbol (parse_gate_positions positions)
            ≡ record_of "contract" gate_change symbol none positions)
  unfolding merge_answers parse_gate_positions merge_binance_brackets merge_binance_positions
      parse_binance_symbol_configs lookup
  lookup-merge_answers symbol configs positions brackets =
      let first_rows = lookup-apply_rows "symbol" config_change symbol [] configs in
      let second_rows =
        lookup-apply_rows "symbol" (position_change constants) symbol
          (parse_binance_symbol_configs configs) positions
        ∙ ap (λ r. record_of "symbol" (position_change constants) symbol r positions) first_rows in
      (
        lookup-apply_rows "symbol" (bracket_change constants) symbol
              (merge_binance_positions constants (parse_binance_symbol_configs configs) positions)
              brackets
            ∙ ap (λ r. record_of "symbol" (bracket_change constants) symbol r brackets) second_rows,
        lookup-apply_rows "contract" gate_change symbol [] positions,
      )
