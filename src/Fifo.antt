-- ===== src/Fifo.antt =====
-- What src/fifo_pnl.rs and src/quantity_fifo_pnl.rs share: sides, lots, errors, the check of an
-- input and the closing loop. A list of lots is a `VecDeque<Lot>`, its front first.
pub mod Loop
pub mod Ticks
pub mod Amount
pub mod Quantity
pub mod Examples
use Prim.Native.String.{String}
use crypto_nav_manager.Base.{
  ℕ, zero, suc, ◌≡◌, Bool, true, false, ◌&&◌, Option, none, some, List, [], ◌∷◌, Outcome, done,
  failed, if◌then◌else◌,
}
use crypto_nav_manager.Float.{Float}

pub data Side : Type 0 where
  buy sell : Side

pub record Lot (F : Type 0) : Type 0 where
  pub entry_price : F
  pub amount : F

pub data FifoPnlError (F : Type 0) : Type 0 where
  invalid_positive_value : String → F → FifoPnlError F
  invalid_fee : F → FifoPnlError F

module _ {F : Type 0} ⦃f : Float F⦄ where
  open f use {nought, add, sub, min, lt, eq, is_finite}

  unfoldable pub validate_positive : String → F → Outcome (FifoPnlError F) (Unit {0})
  validate_positive field value =
      if is_finite value && lt nought value
      then done tt
      else failed (invalid_positive_value field value)

  -- The deque after its front lot has given up `matched`.
  unfoldable pub reduce_front : Lot F → List (Lot F) → F → List (Lot F)
  reduce_front lot rest matched =
      let left = sub lot.amount matched in
      if eq left nought then rest else record lot { amount = left } ∷ rest

  -- `while amount > 0.0`, on fuel; `gain entry_price matched` is what the loop adds to the PnL for
  -- one match. The result is the deque, the PnL and the amount that is left.
  unfoldable pub close_lots : (F → F → F) → ℕ → List (Lot F) → F → F → Option (List (Lot F) × F × F)
  close_lots gain zero lots amount pnl = none
  close_lots gain (suc fuel) [] amount pnl = some ([], pnl, amount)
  close_lots gain (suc fuel) (lot ∷ rest) amount pnl =
      let matched = min amount lot.amount in
      let next =
        close_lots gain fuel (reduce_front lot rest matched) (sub amount matched)
          (add pnl (gain lot.entry_price matched)) in
      if lt nought amount then next else some (lot ∷ rest, pnl, amount)
