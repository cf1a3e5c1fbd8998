-- ===== src/Fifo/Quantity/Lots.antt =====
-- The lots of src/quantity_fifo_pnl.rs against those of src/fifo_pnl.rs.
use crypto_nav_manager.Base.{
  ℕ, zero, suc, ◌≡◌, refl, ◌&&◌, Option, none, some, List, [], ◌∷◌, arith, Outcome, done, failed,
  panicked, stuck, Bool-cases, inl, inr,
}
use crypto_nav_manager.Float.{Float}
use crypto_nav_manager.Fifo.{
  Side, buy, sell, Lot, FifoPnlError, invalid_positive_value, invalid_fee, validate_positive,
  close_lots,
}
use crypto_nav_manager.Fifo.Amount
use crypto_nav_manager.Fifo.Amount.{FifoPnl, FillResult}
use crypto_nav_manager.Fifo.Quantity
use crypto_nav_manager.Fifo.Quantity.{QuantityFifoPnl}

-- A refusal without the name that the engine has for the size.
pub data Refusal (F : Type 0) : Type 0 where
  of_value : F → Refusal F
  of_fee : F → Refusal F

module _ {F : Type 0} where
  -- The loop's result without the PnL.
  abbrev pub forget : Option (List (Lot F) × F × F) → Option (List (Lot F) × F)
  forget none = none
  forget (some (lots, pnl, rest)) = some (lots, rest)

  abbrev pub refusal : FifoPnlError F → Refusal F
  refusal (invalid_positive_value field value) = of_value value
  refusal (invalid_fee fee) = of_fee fee

  -- How a call ends, with the lots, longs and shorts, if it succeeds.
  abbrev pub amount_lots :
      Outcome (FifoPnlError F) (FifoPnl F × FillResult F)
      → Outcome (Refusal F) (List (Lot F) × List (Lot F))
  amount_lots (done (s, r)) = done (s.longs, s.shorts)
  amount_lots (failed e) = failed (refusal e)
  amount_lots panicked = panicked
  amount_lots stuck = stuck

  abbrev pub quantity_lots :
      Outcome (FifoPnlError F) (QuantityFifoPnl F)
      → Outcome (Refusal F) (List (Lot F) × List (Lot F))
  quantity_lots (done s) = done (s.longs, s.shorts)
  quantity_lots (failed e) = failed (refusal e)
  quantity_lots panicked = panicked
  quantity_lots stuck = stuck

module _ {F : Type 0} ⦃f : Float F⦄ where
  -- What the loop adds to the PnL has no part in what it does to the lots.
  forget-close_lots :
      (gain gain' : F → F → F) (fuel : ℕ) (lots : List (Lot F)) (amount pnl pnl' : F)
      → forget (close_lots gain fuel lots amount pnl)
        ≡ forget (close_lots gain' fuel lots amount pnl')
  unfolding close_lots
  forget-close_lots gain gain' zero lots amount pnl pnl' = refl
  forget-close_lots gain gain' (suc fuel) [] amount pnl pnl' = refl
  forget-close_lots gain gain' (suc fuel) (lot ∷ rest) amount pnl pnl' =
      elim (Bool-cases (f.lt f.nought amount)) [
        | inl more ↦ rw more (forget-close_lots gain gain' fuel _ _ _ _)
        | inr stop ↦ rw stop
      ]

  -- Both books from what the loop left, where the loops agree.
  finish_fill-agree :
      (a : FifoPnl F) (b : QuantityFifoPnl F) (side : Side) (price size fee : F)
      (x y : Option (List (Lot F) × F × F))
      → a.longs ≡ b.longs
      → a.shorts ≡ b.shorts
      → forget x ≡ forget y
      → amount_lots (Amount.finish_fill a side price size fee x)
        ≡ quantity_lots (Quantity.finish_fill b side price fee y)
  unfolding Amount.finish_fill Quantity.finish_fill
  finish_fill-agree a b side price size fee none none l s e = refl
  finish_fill-agree a b side price size fee none (some y) l s e = cc
  finish_fill-agree a b side price size fee (some x) none l s e = cc
  finish_fill-agree a b buy price size fee (some (xs, p, r)) (some (ys, q, t)) l s e = ground arith
  finish_fill-agree a b sell price size fee (some (xs, p, r)) (some (ys, q, t)) l s e = ground arith

  closing_side-agree :
      (a : FifoPnl F) (b : QuantityFifoPnl F) (side : Side)
      → a.longs ≡ b.longs
      → a.shorts ≡ b.shorts
      → Amount.closing_side a side ≡ Quantity.closing_side b side
  unfolding Amount.closing_side Quantity.closing_side
  closing_side-agree a b buy l s = ground arith
  closing_side-agree a b sell l s = ground arith

  pub apply_fill-agree :
      (a : FifoPnl F) (b : QuantityFifoPnl F) (side : Side) (price size fee : F)
      → a.longs ≡ b.longs
      → a.shorts ≡ b.shorts
      → amount_lots (Amount.apply_fill a side price size fee)
        ≡ quantity_lots (Quantity.apply_fill b side price size fee)
  unfolding Amount.apply_fill Quantity.apply_fill validate_positive
  apply_fill-agree a b side price size fee l s =
      elim (Bool-cases (f.is_finite price && f.lt f.nought price)) [
        | inr bad ↦ rw bad
        | inl fine ↦ rw fine (elim (Bool-cases (f.is_finite size && f.lt f.nought size)) [
          | inr bad ↦ rw bad
          | inl sized ↦ rw sized (elim (Bool-cases (f.is_finite fee)) [
            | inr bad ↦ rw bad
            | inl paid ↦ rw paid (
                finish_fill-agree a b side price size fee _ _ l s
                  (rw (closing_side-agree a b side l s) (forget-close_lots _ _ _ _ _ _ _)))
          ])
        ])
      ]
