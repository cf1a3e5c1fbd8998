-- ===== src/Pnl/Venue.antt =====
-- src/pnl.rs: the FIFO book of one venue, in amounts or in quantities as the source wants it.
use crypto_nav_manager.Base.{
  Bool, true, false, Outcome, done, failed, panicked, stuck, ◌>>=◌, if◌then◌else◌, [],
}
use crypto_nav_manager.Float.{Float}
use crypto_nav_manager.Fifo.{Side, buy, sell, FifoPnlError}
use crypto_nav_manager.Fifo.Amount
use crypto_nav_manager.Fifo.Amount.{FifoPnl, PnlSnapshot}
use crypto_nav_manager.Fifo.Quantity
use crypto_nav_manager.Fifo.Quantity.{QuantityFifoPnl, QuantityPnlSnapshot}
use crypto_nav_manager.Pnl.{
  PnlSourceKind, intra, funding_rate, market_making, futures_market_making, cta, PnlError, fifo,
  initial_quantity, Literals,
}

pub record VenuePnlSnapshot (F : Type 0) : Type 0 where
  pub gross_realized_pnl : F
  pub cumulative_fees : F
  pub realized_pnl : F
  pub floating_pnl : F
  pub total_pnl : F

pub data VenueFifo (F : Type 0) : Type 0 where
  amount_u : FifoPnl F → VenueFifo F
  quantity : QuantityFifoPnl F → VenueFifo F

-- An error of a book as one of the PnL.
abbrev pub in_fifo : {F A : Type 0} → Outcome (FifoPnlError F) A → Outcome (PnlError F) A
in_fifo (done a) = done a
in_fifo (failed e) = failed (fifo e)
in_fifo panicked = panicked
in_fifo stuck = stuck

module _ {F : Type 0} where
  abbrev pub of_amount : PnlSnapshot F → VenuePnlSnapshot F
  of_amount s = record {
    gross_realized_pnl = s.gross_realized_pnl;
    cumulative_fees = s.cumulative_fees;
    realized_pnl = s.realized_pnl;
    floating_pnl = s.floating_pnl;
    total_pnl = s.total_pnl;
  }

  abbrev pub of_quantity : QuantityPnlSnapshot F → VenuePnlSnapshot F
  of_quantity s = record {
    gross_realized_pnl = s.gross_realized_pnl;
    cumulative_fees = s.cumulative_fees;
    realized_pnl = s.realized_pnl;
    floating_pnl = s.floating_pnl;
    total_pnl = s.total_pnl;
  }

  unfoldable pub uses_quantity : VenueFifo F → Bool
  uses_quantity (amount_u s) = false
  uses_quantity (quantity s) = true

module _ {F : Type 0} ⦃f : Float F⦄ where
  abbrev pub no_snapshot : VenuePnlSnapshot F
  no_snapshot = record {
    gross_realized_pnl = f.nought;
    cumulative_fees = f.nought;
    realized_pnl = f.nought;
    floating_pnl = f.nought;
    total_pnl = f.nought;
  }

  abbrev pub empty_quantity : QuantityFifoPnl F
  empty_quantity = record {
    longs = [];
    shorts = [];
    gross_realized_pnl = f.nought;
    cumulative_fees = f.nought;
  }

  unfoldable pub for_source : PnlSourceKind → VenueFifo F
  for_source intra = quantity empty_quantity
  for_source funding_rate = quantity empty_quantity
  for_source cta = quantity empty_quantity
  for_source futures_market_making = quantity empty_quantity
  for_source market_making = amount_u Amount.new

  unfoldable pub apply_fill :
      VenueFifo F → Side → F → F → F → F → Outcome (PnlError F) (VenueFifo F)
  unfolding Amount.apply_fill Quantity.apply_fill
  apply_fill (amount_u s) side price amount size fee =
      in_fifo (Amount.apply_fill s side price amount fee) >>= λ (s', _). done (amount_u s')
  apply_fill (quantity s) side price amount size fee =
      in_fifo (Quantity.apply_fill s side price size fee) >>= λ s'. done (quantity s')

  unfoldable pub snapshot : VenueFifo F → F → F → Outcome (PnlError F) (VenuePnlSnapshot F)
  unfolding Amount.snapshot Quantity.snapshot
  snapshot (amount_u s) bid ask = in_fifo (Amount.snapshot s bid ask) >>= λ r. done (of_amount r)
  snapshot (quantity s) bid ask =
      in_fifo (Quantity.snapshot s bid ask) >>= λ r. done (of_quantity r)

  -- The side of a signed quantity.
  abbrev pub side_of : F → Side
  side_of size = if f.lt f.nought size then buy else sell

module _ {F : Type 0} ⦃f : Float F⦄ (literals : Literals F) where
  unfoldable pub seed_fifo : VenueFifo F → F → F → Outcome (PnlError F) (VenueFifo F)
  unfolding apply_fill
  seed_fifo s size mark_price =
      if f.is_finite size
      then (if f.le (f.abs size) literals.epsilon
          then done s
          else apply_fill s (side_of size) mark_price (f.mul (f.abs size) mark_price) (f.abs size)
              f.nought)
      else failed initial_quantity
