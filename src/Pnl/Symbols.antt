-- ===== src/Pnl/Symbols.antt =====
-- src/pnl.rs, `calculate`: the symbol of each event has a state from the start.
use crypto_nav_manager.Base.{
  ℕ, ◌≡◌, refl, ap, sym, ◌∙◌, Bool, true, inl, inr, Bool-cases, some, List, [], ◌∷◌, ◌++◌, map, All,
  arith, if◌then◌else◌,
}
use crypto_nav_manager.Base.Maps.{lookup}
use crypto_nav_manager.Base.Sort.{insert_sorted, sort_by}
use crypto_nav_manager.Base.Text.{bytes_eq, bytes_eq_iff, bytes_key}
use crypto_nav_manager.Float.{Float}
use crypto_nav_manager.Pnl
use crypto_nav_manager.Pnl.{
  PnlSourceKind, PnlInputs, PnlEvent, NormalizedTrade, FundingEvent, InterestEvent, trade, funded,
  charged,
}
use crypto_nav_manager.Pnl.Symbol
use crypto_nav_manager.Pnl.States.{has}
use crypto_nav_manager.Pnl.Calculate.{
  dedup, sorted_set, all_events, available_symbols_of, fresh_states,
}

has-insert_sorted :
    (le : List ℕ → List ℕ → Bool) (x : List ℕ) (xs : List (List ℕ)) (s : List ℕ)
    → has (insert_sorted le x xs) s ≡ has (x ∷ xs) s
unfolding insert_sorted
has-insert_sorted le x [] s = refl
has-insert_sorted le x (y ∷ ys) s = elim (Bool-cases (le x y)) [
  | inl front ↦ rw front
  | inr behind ↦ rw (behind, has-insert_sorted le x ys s) (ground arith)
]

has-sort_by :
    (le : List ℕ → List ℕ → Bool) (xs : List (List ℕ)) (s : List ℕ)
    → has (sort_by le xs) s ≡ has xs s
unfolding sort_by
has-sort_by le [] s = refl
has-sort_by le (x ∷ xs) s =
    has-insert_sorted le x (sort_by le xs) s
    ∙ ap (λ b. if bytes_eq x s then true else b) (has-sort_by le xs s)

has-dedup : (xs : List (List ℕ)) (s : List ℕ) → has (dedup xs) s ≡ has xs s
has-dedup [] s = refl
has-dedup (x ∷ xs) s =
    joined (dedup xs) ∙ ap (λ b. if bytes_eq x s then true else b) (has-dedup xs s)
  where
    joined :
        (ts : List (List ℕ))
        → has (elim ts [ [] ↦ x ∷ [] | t ∷ ts ↦ if bytes_eq x t then t ∷ ts else x ∷ t ∷ ts ]) s
          ≡ has (x ∷ ts) s
    joined [] = refl
    joined (t ∷ ts) = elim (Bool-cases (bytes_eq x t)) [
      | inl same ↦ let e : x ≡ t = (bytes_eq_iff x t).0 same in rw (same, e) (ground arith)
      | inr other ↦ rw other
    ]

has-sorted_set : (xs : List (List ℕ)) (s : List ℕ) → has (sorted_set xs) s ≡ has xs s
unfolding sorted_set
has-sorted_set xs s = has-dedup (sort_by _ xs) s ∙ has-sort_by _ xs s

module _ {A : Type 0} (name : A → List ℕ) where
  has_weaker :
      (y : List ℕ) (ys : List (List ℕ)) (xs : List A)
      → All (λ x. has ys (name x) ≡ true) xs
      → All (λ x. has (y ∷ ys) (name x) ≡ true) xs
  has_weaker y ys [] a = tt
  has_weaker y ys (x ∷ xs) (h, a) = (ground arith, has_weaker y ys xs a)

  -- Each element's name is among the names.
  has_own : (xs : List A) → All (λ x. has (map name xs) (name x) ≡ true) xs
  has_own [] = tt
  has_own (x ∷ xs) =
      let same = (bytes_eq_iff (name x) (name x)).1 refl in
      (rw same, has_weaker (name x) (map name xs) xs (has_own xs))

map-append : {A B : Type 0} (g : A → B) (xs ys : List A) → map g (xs ++ ys) ≡ map g xs ++ map g ys
map-append g [] ys = refl
map-append g (x ∷ xs) ys = ap (λ zs. g x ∷ zs) (map-append g xs ys)

map-map :
    {A B C : Type 0} (h : B → C) (g : A → B) (xs : List A)
    → map h (map g xs) ≡ map (λ x. h (g x)) xs
map-map h g [] = refl
map-map h g (x ∷ xs) = ap (λ zs. h (g x) ∷ zs) (map-map h g xs)

module _ {F : Type 0} where
  -- The names of the events, kind by kind.
  symbols_of_events :
      (inputs : PnlInputs F)
      → map Pnl.symbol (all_events inputs)
        ≡ map (λ (t : NormalizedTrade F). t.symbol) inputs.trades
          ++ map (λ (e : FundingEvent F). e.symbol) inputs.funding
          ++ map (λ (e : InterestEvent F). e.symbol) inputs.interest
  unfolding Pnl.symbol
  symbols_of_events inputs =
      rw
        (
          map-append (Pnl.symbol {F = F}) (map trade inputs.trades ++ map funded inputs.funding)
              (map charged inputs.interest),
          map-append (Pnl.symbol {F = F}) (map trade inputs.trades) (map funded inputs.funding),
          map-map (Pnl.symbol {F = F}) trade inputs.trades,
          map-map (Pnl.symbol {F = F}) funded inputs.funding,
          map-map (Pnl.symbol {F = F}) charged inputs.interest,
        )
        refl

module _ {F : Type 0} (trades : List (NormalizedTrade F)) (funding : List (FundingEvent F))
    (interest : List (InterestEvent F)) where
  -- The inputs of a strategy without an initial snapshot.
  abbrev pub without_positions : PnlInputs F
  without_positions = record {
    trades = trades;
    funding = funding;
    interest = interest;
    initial_positions = [];
  }

  has_available :
      (es : List (PnlEvent F))
      → All (λ e. has (map Pnl.symbol (all_events without_positions)) (Pnl.symbol e) ≡ true) es
      → All (λ e. has (available_symbols_of without_positions) (Pnl.symbol e) ≡ true) es
  unfolding available_symbols_of
  has_available [] a = tt
  has_available (e ∷ es) (h, a) = (
    has-sorted_set _ (Pnl.symbol e)
        ∙ ap (λ names. has names (Pnl.symbol e)) (sym (symbols_of_events without_positions))
        ∙ h,
    has_available es a,
  )

  pub available_symbols_of-has :
      All
        (λ e. has (available_symbols_of without_positions) (Pnl.symbol e) ≡ true)
        (all_events without_positions)
  available_symbols_of-has =
      has_available (all_events without_positions)
        (has_own (Pnl.symbol {F = F}) (all_events without_positions))

module _ {F : Type 0} ⦃f : Float F⦄ where
  pub lookup-fresh_states :
      (source : PnlSourceKind) (ss : List (List ℕ)) (s : List ℕ)
      → has ss s ≡ true
      → lookup s (fresh_states {F = F} source ss) ≡ some (Symbol.for_source source)
  unfolding lookup fresh_states
  lookup-fresh_states source [] s h = cc
  lookup-fresh_states source (t ∷ ts) s h = elim (Bool-cases (bytes_eq t s)) [
    | inl own ↦ rw own
    | inr other ↦ rw other (lookup-fresh_states source ts s (rw other at h))
  ]
