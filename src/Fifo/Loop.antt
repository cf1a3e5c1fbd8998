-- ===== src/Fifo/Loop.antt =====
-- The closing loop of src/fifo_pnl.rs under the facts of IEEE 754 alone: termination.
use crypto_nav_manager.Base.{
  ℕ, zero, suc, ◌<◌, ◌≡◌, refl, ◌⊎◌, inl, inr, true, false, Option, some, List, [], ◌∷◌, arith,
  length, All, Bool-cases,
}
use crypto_nav_manager.Float.{Float, IsPositive, IsIeee}
use crypto_nav_manager.Fifo.{Lot, close_lots, reduce_front}

module _ {F : Type 0} ⦃f : Float F⦄ where
  abbrev pub IsOpen : List (Lot F) → Type 0
  IsOpen = All λ lot. IsPositive lot.entry_price × IsPositive lot.amount

  -- How the loop may end: the amount is used up, or the deque is empty.
  abbrev pub Ended : List (Lot F) → F → Type 0
  Ended lots rest = (rest ≡ f.nought) ⊎ (lots ≡ []) × IsPositive rest

  module _ (laws : IsIeee F) where
    close_lots-nought :
        (gain : F → F → F) (fuel : ℕ) (lots : List (Lot F)) (pnl : F)
        → close_lots gain (suc fuel) lots f.nought pnl ≡ some (lots, pnl, f.nought)
    unfolding close_lots
    close_lots-nought gain fuel [] pnl = refl
    close_lots-nought gain fuel (lot ∷ rest) pnl = rw (laws.lt_nought)

    -- The amount exceeds the front lot: the lot goes, and the loop runs on.
    pub close_lots-front :
        (gain : F → F → F) (fuel : ℕ) (lot : Lot F) (rest : List (Lot F)) (amount pnl : F)
        → IsPositive amount
        → IsPositive lot.amount
        → f.lt lot.amount amount ≡ true
        → close_lots gain (suc fuel) (lot ∷ rest) amount pnl
          ≡ close_lots gain fuel rest
              (f.sub amount lot.amount)
              (f.add pnl (gain lot.entry_price lot.amount))
    unfolding close_lots reduce_front
    close_lots-front gain fuel lot rest amount pnl p q more = rw (
      p.1,
      laws.min_pick amount lot.amount p q,
      more,
      laws.sub_self lot.amount q.0,
      laws.eq_nought,
    )

    -- The front lot covers the amount: the loop stops with nothing left.
    pub close_lots-last :
        (gain : F → F → F) (fuel : ℕ) (lot : Lot F) (rest : List (Lot F)) (amount pnl : F)
        → IsPositive amount
        → IsPositive lot.amount
        → f.lt lot.amount amount ≡ false
        → close_lots gain (suc (suc fuel)) (lot ∷ rest) amount pnl
          ≡ some (reduce_front lot rest amount, f.add pnl (gain lot.entry_price amount), f.nought)
    unfolding close_lots
    close_lots-last gain fuel lot rest amount pnl p q enough =
        rw (p.1, laws.min_pick amount lot.amount p q, enough, laws.sub_self amount p.0)
          (close_lots-nought gain fuel (reduce_front lot rest amount) _)

    reduce_front-IsOpen :
        (lot : Lot F) (rest : List (Lot F)) (amount : F)
        → IsPositive amount
        → IsOpen (lot ∷ rest)
        → f.lt lot.amount amount ≡ false
        → IsOpen (reduce_front lot rest amount)
    unfolding reduce_front
    reduce_front-IsOpen lot rest amount p ((e, q), o) enough =
        elim (laws.lt_connex amount lot.amount p q enough) [
          | inl less ↦
              let left = laws.sub_positive lot.amount amount q p less in
              rw (laws.eq_positive _ left.1) ((e, left), o)
          | inr same ↦ rw (same, laws.sub_self lot.amount q.0, laws.eq_nought) o
        ]

    abbrev pub Closes : Option (List (Lot F) × F × F) → Type 0
    Closes r =
        (lots : List (Lot F)) × (pnl : F) × (rest : F) × (r ≡ some (lots, pnl, rest))
        × IsOpen lots
        × Ended lots rest

    -- From positive lots and a positive amount, fuel above the number of lots is enough.
    pub close_lots-Closes :
        (gain : F → F → F) (fuel : ℕ) (lots : List (Lot F)) (amount pnl : F)
        → length lots < fuel
        → IsOpen lots
        → IsPositive amount
        → Closes (close_lots gain fuel lots amount pnl)
    close_lots-Closes gain zero lots amount pnl h o p = absurd (omega arith)
    close_lots-Closes gain (suc fuel) [] amount pnl h o p =
        ([], pnl, amount, unfold close_lots in refl, tt, inr (refl, p))
    close_lots-Closes gain (suc zero) (lot ∷ rest) amount pnl h o p = absurd (omega arith)
    close_lots-Closes gain (suc (suc fuel)) (lot ∷ rest) amount pnl h ((e, q), o) p =
        elim (Bool-cases (f.lt lot.amount amount)) [
          | inl more ↦ rw (close_lots-front gain (suc fuel) lot rest amount pnl p q more) (
              close_lots-Closes gain (suc fuel) rest (f.sub amount lot.amount) _ (omega arith) o
                (laws.sub_positive amount lot.amount p q more))
          | inr enough ↦ (
            _,
            _,
            _,
            close_lots-last gain fuel lot rest amount pnl p q enough,
            reduce_front-IsOpen lot rest amount p ((e, q), o) enough,
            inl refl,
          )
        ]
