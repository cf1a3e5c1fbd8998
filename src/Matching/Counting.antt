-- ===== src/Matching/Counting.antt =====
-- The counters of hedges in src/intra_order_match.rs: each hedge that was seen is counted, and once.
use crypto_nav_manager.Base.{
  ℕ, suc, ◌+◌, ◌≤◌, ◌<◌, ◌≡◌, refl, ◌∙◌, inl, inr, true, false, ◌&&◌, not, if◌then◌else◌, Option,
  none, some, List, [], ◌∷◌, arith, Bool-cases,
}
use crypto_nav_manager.Base.Int.{ℤ, pos, ◌+ℤ◌, eqb_ℤ, eqb_ℤ_iff}
use crypto_nav_manager.Base.Maps.{lookup, lookup-insert}
use crypto_nav_manager.Matching.{HedgeTiming, MatchEngine, int_key, queue_key}
use crypto_nav_manager.Matching.State.{is_member, count_or_zero}
use crypto_nav_manager.Matching.History.{record_first_hedge_timing, count_hedge, note_fill}

-- How many of the hedges are of this order.
abbrev pub seen_number : ℤ → List (ℤ × ℤ) → ℕ
seen_number k [] = 0
seen_number k ((j, id) ∷ seen) = if eqb_ℤ j k then suc (seen_number k seen) else seen_number k seen

-- A counter of at least so many hedges; without a counter there is none.
abbrev pub CountsTo : ℕ → Option ℤ → Type 0
CountsTo c none = c ≡ 0
CountsTo c (some n) = (m : ℕ) × (n ≡ pos m) × (c ≤ m)

abbrev pub IsDistinct : List (ℤ × ℤ) → Type 0
IsDistinct [] = Unit
IsDistinct (p ∷ ps) = (is_member p ps ≡ false) × IsDistinct ps

CountsTo-suc :
    (c : ℕ) (x : Option ℤ) → CountsTo c x → CountsTo (suc c) (some (count_or_zero x +ℤ pos 1))
unfolding ◌+ℤ◌
CountsTo-suc c none h = (1, refl, omega arith)
CountsTo-suc c (some n) (m, e, h) = (m + 1, rw e (ground arith), omega arith)

CountsTo-counter : (c : ℕ) (x : Option ℤ) → 0 < c → CountsTo c x → (n : ℤ) × (x ≡ some n)
CountsTo-counter c none p h = absurd (omega arith)
CountsTo-counter c (some n) p h = (n, refl)

is_member-number :
    (k id : ℤ) (seen : List (ℤ × ℤ)) → is_member (k, id) seen ≡ true → 0 < seen_number k seen
is_member-number k id [] m = cc
is_member-number k id ((j, i) ∷ seen) m = elim (Bool-cases (eqb_ℤ j k)) [
  | inl same ↦ rw same (omega arith)
  | inr other ↦ rw other (is_member-number k id seen (rw other at m))
]

module _ {F : Type 0} where
  -- Each hedge stands once among the seen, and each order's counter has at least its hedges.
  abbrev pub IsCounted : MatchEngine F → Type 0
  IsCounted e =
      IsDistinct e.seen_hedge_orders
      × ((k : ℤ) → CountsTo (seen_number k e.seen_hedge_orders) (lookup k e.hedge_order_counts))

  -- The hedge is seen, and it is one more for its order if it was not seen before.
  abbrev pub CountsOnce : MatchEngine F → ℤ → ℤ → MatchEngine F → Type 0
  CountsOnce e k id e' =
      (is_member (k, id) e'.seen_hedge_orders ≡ true)
      × ((j : ℤ)
          → count_or_zero (lookup j e'.hedge_order_counts) ≡ (
              if eqb_ℤ k j && not (is_member (k, id) e.seen_hedge_orders)
              then count_or_zero (lookup j e.hedge_order_counts) +ℤ pos 1
              else count_or_zero (lookup j e.hedge_order_counts)))

  -- The counters before and after a change of the other records.
  abbrev pub SameCounts : MatchEngine F → MatchEngine F → Type 0
  SameCounts e e' =
      (e'.seen_hedge_orders ≡ e.seen_hedge_orders) × (e'.hedge_order_counts ≡ e.hedge_order_counts)

  pub record_first_hedge_timing-SameCounts :
      (e : MatchEngine F) (k : ℤ) (t : HedgeTiming) → SameCounts e (record_first_hedge_timing e k t)
  unfolding record_first_hedge_timing
  record_first_hedge_timing-SameCounts e k t = ground arith

  pub note_fill-SameCounts :
      (e : MatchEngine F) (k : ℤ) (ts : Option ℤ) → SameCounts e (note_fill e k ts)
  unfolding note_fill
  note_fill-SameCounts e k none = (refl, refl)
  note_fill-SameCounts e k (some ts) = (refl, refl)

  pub IsCounted-of-SameCounts :
      (e e' : MatchEngine F) → SameCounts e e' → IsCounted e → IsCounted e'
  IsCounted-of-SameCounts e e' (s, c) h = rw (s, c) h

  pub count_hedge-IsCounted :
      (e : MatchEngine F) (k id : ℤ)
      → IsCounted e
      → IsCounted (count_hedge e k id)
        × ((n : ℤ) × (lookup k (count_hedge e k id).hedge_order_counts ≡ some n))
  unfolding count_hedge
  count_hedge-IsCounted e k id (d, c) = elim (Bool-cases (is_member (k, id) e.seen_hedge_orders)) [
    | inl old ↦ rw old (
      (d, c),
      CountsTo-counter (seen_number k e.seen_hedge_orders) _
          (is_member-number k id e.seen_hedge_orders old) (c k),
    )
    | inr new ↦
        let n = count_or_zero (lookup k e.hedge_order_counts) +ℤ pos 1 in
        rw new (
          (
            (new, d),
            (λ j. rw (lookup-insert k j n e.hedge_order_counts) (elim (Bool-cases (eqb_ℤ k j)) [
              | inl same ↦
                  rw (same, (eqb_ℤ_iff k j).0 same)
                    (CountsTo-suc (seen_number j e.seen_hedge_orders)
                      (lookup j e.hedge_order_counts) (c j))
              | inr other ↦ rw other (c j)
            ])),
          ),
          (n, lookup-insert k k n e.hedge_order_counts ∙ rw ((eqb_ℤ_iff k k).1 refl)),
        )
  ]

  pub count_hedge-CountsOnce :
      (e : MatchEngine F) (k id : ℤ) → CountsOnce e k id (count_hedge e k id)
  unfolding count_hedge
  count_hedge-CountsOnce e k id = elim (Bool-cases (is_member (k, id) e.seen_hedge_orders)) [
    | inl old ↦ rw old (old, λ j. ground arith)
    | inr new ↦
        let n = count_or_zero (lookup k e.hedge_order_counts) +ℤ pos 1 in
        rw new (
          rw ((eqb_ℤ_iff k k).1 refl, (eqb_ℤ_iff id id).1 refl) refl,
          (λ j. rw (lookup-insert k j n e.hedge_order_counts) (elim (Bool-cases (eqb_ℤ k j)) [
            | inl same ↦ rw (same, ← (eqb_ℤ_iff k j).0 same) refl
            | inr other ↦ rw other refl
          ])),
        )
  ]

  pub CountsOnce-of-SameCounts :
      (e e' e₁ e₁' : MatchEngine F) (k id : ℤ)
      → SameCounts e e₁
      → SameCounts e' e₁'
      → CountsOnce e₁ k id e'
      → CountsOnce e k id e₁'
  CountsOnce-of-SameCounts e e' e₁ e₁' k id (s, c) (s', c') h = rw (s', c', ← s, ← c) h
