-- ===== src/Pnl/Symbol.antt =====
-- src/pnl.rs: the books, positions and charges of one symbol.
use crypto_nav_manager.Base.{
  ℕ, suc, ◌&&◌, ◌||◌, not, Option, none, some, Outcome, done, failed, ◌>>=◌, if◌then◌else◌,
}
use crypto_nav_manager.Float.{Float}
use crypto_nav_manager.Fifo.{Side, buy, sell}
use crypto_nav_manager.Pnl.{
  PnlSourceKind, PositionLeg, spot, futures, NormalizedTrade, InterestEvent, InitialPosition,
  PnlEvent, trade, funded, charged, PnlError, invalid_mark, Literals, clean_zero,
}
use crypto_nav_manager.Pnl.Venue
use crypto_nav_manager.Pnl.Venue.{
  VenueFifo, VenuePnlSnapshot, no_snapshot, uses_quantity, side_of, seed_fifo,
}

pub record SymbolState (F : Type 0) : Type 0 where
  pub spot_fifo : VenueFifo F
  pub futures_fifo : VenueFifo F
  pub funding_pnl_usdt : F
  pub interest_cost_usdt : F
  pub trade_count : ℕ
  pub volume_usdt : F
  pub spot_position_qty : F
  pub futures_position_qty : F
  pub mark_price : Option F
  pub unconverted_fee_count : ℕ
  pub unconverted_interest_count : ℕ
  pub spot_snapshot : Option (VenuePnlSnapshot F)
  pub futures_snapshot : Option (VenuePnlSnapshot F)

pub record Metrics (F : Type 0) : Type 0 where
  pub trade_count : ℕ
  pub volume_usdt : F
  pub fee_before_pnl_usdt : F
  pub trading_fee_usdt : F
  pub fee_after_pnl_usdt : F
  pub funding_pnl_usdt : F
  pub interest_cost_usdt : F
  pub floating_pnl_usdt : F
  pub total_pnl_usdt : F
  pub open_amount_usdt : F
  pub spot_position_usdt : F
  pub futures_position_usdt : F
  pub spot_position_qty : F
  pub futures_position_qty : F
  pub unconverted_fee_count : ℕ
  pub unconverted_interest_count : ℕ

abbrev pub or_else : {A : Type 0} → Option A → A → A
or_else none a = a
or_else (some b) a = b

abbrev pub first : {A : Type 0} → Option A → Option A → Option A
first none o = o
first (some a) o = some a

module _ {F : Type 0} where
  abbrev pub leg_fifo : SymbolState F → PositionLeg → VenueFifo F
  leg_fifo s spot = s.spot_fifo
  leg_fifo s futures = s.futures_fifo

  abbrev pub with_fifo : SymbolState F → PositionLeg → VenueFifo F → SymbolState F
  with_fifo s spot book = record s { spot_fifo = book }
  with_fifo s futures book = record s { futures_fifo = book }

  -- One more where the fee or the cost is not known.
  abbrev pub missing : Option F → ℕ → ℕ
  missing none n = suc n
  missing (some x) n = n

module _ {F : Type 0} ⦃f : Float F⦄ where
  open f use {nought, add, sub, mul, div, neg, abs, lt, le, eq, is_finite}

  unfoldable pub for_source : PnlSourceKind → SymbolState F
  unfolding Venue.for_source
  for_source source = record {
    spot_fifo = Venue.for_source source;
    futures_fifo = Venue.for_source source;
    funding_pnl_usdt = nought;
    interest_cost_usdt = nought;
    trade_count = 0;
    volume_usdt = nought;
    spot_position_qty = nought;
    futures_position_qty = nought;
    mark_price = none;
    unconverted_fee_count = 0;
    unconverted_interest_count = 0;
    spot_snapshot = none;
    futures_snapshot = none;
  }

  -- Both books marked at one price, which is kept.
  unfoldable pub mark_at : SymbolState F → F → Outcome (PnlError F) (SymbolState F)
  unfolding Venue.snapshot
  mark_at s price = Venue.snapshot s.spot_fifo price price >>= λ x.
      Venue.snapshot s.futures_fifo price price >>= λ y.
      done (record s { mark_price = some price; spot_snapshot = some x; futures_snapshot = some y })

  abbrev pub signed : Side → F → F
  signed buy size = size
  signed sell size = neg size

  abbrev pub move : SymbolState F → PositionLeg → F → SymbolState F
  move s spot delta = record s { spot_position_qty = add s.spot_position_qty delta }
  move s futures delta = record s { futures_position_qty = add s.futures_position_qty delta }

  -- The fill of a trade booked, counted and added to the position.
  abbrev pub counted : SymbolState F → PositionLeg → NormalizedTrade F → VenueFifo F → SymbolState F
  counted s leg t book =
      let filled = record (with_fifo s leg book) {
        trade_count = suc s.trade_count;
        volume_usdt = add s.volume_usdt t.amount_u;
        unconverted_fee_count = missing t.fee_usdt s.unconverted_fee_count;
      } in
      move filled leg (signed t.side t.quantity)

  unfoldable pub apply_trade :
      SymbolState F → NormalizedTrade F → Outcome (PnlError F) (SymbolState F)
  unfolding mark_at Venue.apply_fill
  apply_trade s t =
      Venue.apply_fill (leg_fifo s t.leg) t.side t.price t.amount_u t.quantity
        (or_else t.fee_usdt nought)
      >>= λ book. mark_at (counted s t.leg t book) t.price

  -- The cost of an interest event, or one more that is not known.
  abbrev pub add_cost : SymbolState F → Option F → SymbolState F
  add_cost s none = record s { unconverted_interest_count = suc s.unconverted_interest_count }
  add_cost s (some cost) = record s { interest_cost_usdt = add s.interest_cost_usdt cost }

  -- The price that a known positive cost implies.
  abbrev pub implied_price : Option F → F → Option F
  implied_price none delta = none
  implied_price (some cost) delta =
      if is_finite cost && lt nought cost then some (div cost (abs delta)) else none

  unfoldable pub conversion_price : SymbolState F → InterestEvent F → Option F
  conversion_price s e =
      first e.conversion_price
        (first (implied_price e.cost_usdt e.spot_quantity_delta) s.mark_price)

  -- The interest as a fill of the spot book at the conversion price.
  unfoldable pub adjust_spot : SymbolState F → F → F → Outcome (PnlError F) (SymbolState F)
  unfolding mark_at Venue.apply_fill
  adjust_spot s delta price =
      Venue.apply_fill s.spot_fifo (side_of delta) price (mul (abs delta) price) (abs delta) nought
      >>= λ book. mark_at (record s { spot_fifo = book }) price

  unfoldable pub apply_interest :
      SymbolState F → InterestEvent F → Outcome (PnlError F) (SymbolState F)
  unfolding adjust_spot conversion_price uses_quantity
  apply_interest s e =
      let delta = e.spot_quantity_delta in
      if not (eq delta nought) && uses_quantity s.spot_fifo
      then elim (conversion_price s e) [
        | none ↦ done (add_cost s e.cost_usdt)
        | some price ↦
            adjust_spot s delta price >>= λ s'. done (add_cost (move s' spot delta) e.cost_usdt)
      ]
      else done (add_cost (move s spot delta) e.cost_usdt)

  -- One event of the symbol.
  unfoldable pub apply_one : SymbolState F → PnlEvent F → Outcome (PnlError F) (SymbolState F)
  unfolding apply_trade apply_interest
  apply_one s (trade t) = apply_trade s t
  apply_one s (funded e) =
      done (record s { funding_pnl_usdt = add s.funding_pnl_usdt e.amount_usdt })
  apply_one s (charged e) = apply_interest s e

module _ {F : Type 0} ⦃f : Float F⦄ (literals : Literals F) where
  open f use {nought, add, sub, mul, lt, is_finite}

  unfoldable pub seed_position :
      SymbolState F → InitialPosition F → Outcome (PnlError F) (SymbolState F)
  unfolding seed_fifo mark_at
  seed_position s p =
      if not (is_finite p.mark_price) || f.le p.mark_price nought
      then failed (invalid_mark p.symbol)
      else seed_fifo literals s.spot_fifo p.spot_quantity p.mark_price >>= λ x.
          seed_fifo literals s.futures_fifo p.futures_quantity p.mark_price >>= λ y.
          mark_at
            (record s {
              spot_fifo = x;
              futures_fifo = y;
              spot_position_qty = p.spot_quantity;
              futures_position_qty = p.futures_quantity;
            })
            p.mark_price

  unfoldable pub metrics : SymbolState F → Metrics F
  unfolding clean_zero
  metrics s =
      let x = or_else s.spot_snapshot no_snapshot in
      let y = or_else s.futures_snapshot no_snapshot in
      let mark = or_else s.mark_price nought in
      let spot_usdt = mul s.spot_position_qty mark in
      let futures_usdt = mul s.futures_position_qty mark in
      record {
        trade_count = s.trade_count;
        volume_usdt = s.volume_usdt;
        fee_before_pnl_usdt = add x.gross_realized_pnl y.gross_realized_pnl;
        trading_fee_usdt = add x.cumulative_fees y.cumulative_fees;
        fee_after_pnl_usdt = add x.realized_pnl y.realized_pnl;
        funding_pnl_usdt = s.funding_pnl_usdt;
        interest_cost_usdt = s.interest_cost_usdt;
        floating_pnl_usdt = add x.floating_pnl y.floating_pnl;
        total_pnl_usdt =
            sub (add (add x.total_pnl y.total_pnl) s.funding_pnl_usdt) s.interest_cost_usdt;
        open_amount_usdt = clean_zero literals (add spot_usdt futures_usdt);
        spot_position_usdt = spot_usdt;
        futures_position_usdt = futures_usdt;
        spot_position_qty = s.spot_position_qty;
        futures_position_qty = s.futures_position_qty;
        unconverted_fee_count = s.unconverted_fee_count;
        unconverted_interest_count = s.unconverted_interest_count;
      }
