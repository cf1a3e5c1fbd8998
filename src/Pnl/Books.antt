-- ===== src/Pnl/Books.antt =====
-- src/pnl.rs: the books of a symbol under the events that are applied to it.
use crypto_nav_manager.Base.{
  ◌≡◌, refl, ap, sym, ◌∙◌, subst, ◌⊎◌, inl, inr, true, ◌&&◌, not, Bool-cases, Option, none, some,
  List, [], ◌∷◌, All, Outcome, done, failed, panicked, stuck, ◌>>=◌, is_done-done,
}
use crypto_nav_manager.Float.{Float, IsPositive, IsFinite, IsIeee}
use crypto_nav_manager.Fifo.{Side, Lot, FifoPnlError}
use crypto_nav_manager.Fifo.Amount
use crypto_nav_manager.Fifo.Amount.{FifoPnl, FillResult, PnlSnapshot}
use crypto_nav_manager.Fifo.Amount.Safety.{IsBook, validate_positive_pass, apply_fill-IsBook}
use crypto_nav_manager.Fifo.Quantity
use crypto_nav_manager.Fifo.Quantity.{QuantityFifoPnl}
use crypto_nav_manager.Fifo.Quantity.Lots.{amount_lots, quantity_lots, apply_fill-agree}
use crypto_nav_manager.Pnl.{
  PositionLeg, spot, futures, NormalizedTrade, InterestEvent, PnlEvent, trade, funded, charged,
}
use crypto_nav_manager.Pnl.Venue
use crypto_nav_manager.Pnl.Venue.{
  VenueFifo, VenuePnlSnapshot, amount_u, quantity, in_fifo, side_of, uses_quantity,
}
use crypto_nav_manager.Pnl.Symbol.{
  SymbolState, or_else, mark_at, leg_fifo, counted, move, add_cost, conversion_price, adjust_spot,
  apply_trade, apply_interest, apply_one,
}
use crypto_nav_manager.Pnl.Isolation.{apply_each}

module _ {F : Type 0} ⦃f : Float F⦄ where
  -- The lots of a quantity book as an amount book.
  abbrev pub as_amount : QuantityFifoPnl F → FifoPnl F
  as_amount s = record {
    longs = s.longs;
    shorts = s.shorts;
    long_amount_u = f.nought;
    short_amount_u = f.nought;
    gross_realized_pnl = s.gross_realized_pnl;
    cumulative_fees = s.cumulative_fees;
  }

  -- Every lot of the venue has a positive price and a positive size, and one side at most is open.
  abbrev pub IsVenue : VenueFifo F → Type 0
  IsVenue (amount_u s) = IsBook s
  IsVenue (quantity s) = IsBook (as_amount s)

  pub record IsSymbol (s : SymbolState F) : Type 0 where
    pub spot_book : IsVenue s.spot_fifo
    pub futures_book : IsVenue s.futures_fifo

  abbrev pub IsValidTrade : NormalizedTrade F → Type 0
  IsValidTrade t =
      IsPositive t.price
      × IsPositive t.amount_u
      × IsPositive t.quantity
      × IsFinite (or_else t.fee_usdt f.nought)

  -- Interest that moves no position, or at a conversion price of its own, where the price, the size of the change
  -- and the value of that size at the price are positive and finite.
  abbrev pub IsValidInterest : InterestEvent F → Type 0
  IsValidInterest e =
      (f.eq e.spot_quantity_delta f.nought ≡ true)
      ⊎ ((price : F) × (e.conversion_price ≡ some price)
          × IsPositive price
          × IsPositive (f.abs e.spot_quantity_delta)
          × IsPositive (f.mul (f.abs e.spot_quantity_delta) price))

  abbrev pub IsValid : PnlEvent F → Type 0
  IsValid (trade t) = IsValidTrade t
  IsValid (funded e) = Unit
  IsValid (charged e) = IsValidInterest e

  quantity_lots-done :
      (r : Outcome (FifoPnlError F) (QuantityFifoPnl F)) {lots : List (Lot F) × List (Lot F)}
      → quantity_lots r ≡ done lots
      → (s : QuantityFifoPnl F) × (r ≡ done s) × (s.longs ≡ lots.0) × (s.shorts ≡ lots.1)
  quantity_lots-done (done s) h = (s, refl, cc, cc)
  quantity_lots-done (failed e) h = cc
  quantity_lots-done panicked h = cc
  quantity_lots-done stuck h = cc

  IsBook-from_lots :
      {a b : FifoPnl F} → b.longs ≡ a.longs → b.shorts ≡ a.shorts → IsBook a → IsBook b
  IsBook-from_lots l s v = record {
    longs_open = rw l v.longs_open;
    shorts_open = rw s v.shorts_open;
    one_sided = rw (l, s) v.one_sided;
  }

  -- Every venue gives a snapshot at a positive price.
  snapshot-done :
      (v : VenueFifo F) (price : F)
      → IsPositive price
      → (r : VenuePnlSnapshot F) × (Venue.snapshot v price price ≡ done r)
  unfolding Venue.snapshot Amount.snapshot Quantity.snapshot
  snapshot-done (amount_u s) price p =
      is_done-done (Venue.snapshot (amount_u s) price price)
        (rw (validate_positive_pass "bid" price p, validate_positive_pass "ask" price p) refl)
  snapshot-done (quantity s) price p =
      is_done-done (Venue.snapshot (quantity s) price price)
        (rw (validate_positive_pass "bid" price p, validate_positive_pass "ask" price p) refl)

  mark_at-done :
      (s : SymbolState F) (price : F)
      → IsPositive price
      → (s' : SymbolState F) × (mark_at s price ≡ done s')
        × (s'.spot_fifo ≡ s.spot_fifo)
        × (s'.futures_fifo ≡ s.futures_fifo)
  unfolding mark_at
  mark_at-done s price p =
      let (x, first) = snapshot-done s.spot_fifo price p in
      let (y, second) = snapshot-done s.futures_fifo price p in
      (
        record s { mark_price = some price; spot_snapshot = some x; futures_snapshot = some y },
        rw (first, second) refl,
        refl,
        refl,
      )

  leg_fifo-IsVenue : (s : SymbolState F) (leg : PositionLeg) → IsSymbol s → IsVenue (leg_fifo s leg)
  leg_fifo-IsVenue s spot v = v.spot_book
  leg_fifo-IsVenue s futures v = v.futures_book

  counted-IsSymbol :
      (s : SymbolState F) (leg : PositionLeg) (t : NormalizedTrade F) (book : VenueFifo F)
      → IsSymbol s
      → IsVenue book
      → IsSymbol (counted s leg t book)
  counted-IsSymbol s spot t book v b = record { spot_book = b; futures_book = v.futures_book }
  counted-IsSymbol s futures t book v b = record { spot_book = v.spot_book; futures_book = b }

  marked-IsSymbol :
      (s : SymbolState F) {s' : SymbolState F}
      → s'.spot_fifo ≡ s.spot_fifo
      → s'.futures_fifo ≡ s.futures_fifo
      → IsSymbol s
      → IsSymbol s'
  marked-IsSymbol s x y v = record {
    spot_book = subst IsVenue (sym x) v.spot_book;
    futures_book = subst IsVenue (sym y) v.futures_book;
  }

  module _ (laws : IsIeee F) where
    apply_fill-IsVenue :
        (v : VenueFifo F) (side : Side) (price amount size fee : F)
        → IsVenue v
        → IsPositive price
        → IsPositive amount
        → IsPositive size
        → IsFinite fee
        → (v' : VenueFifo F) × (Venue.apply_fill v side price amount size fee ≡ done v')
          × IsVenue v'
    unfolding Venue.apply_fill
    apply_fill-IsVenue (amount_u s) side price amount size fee b p a q h =
        let (s', r, path, b') = apply_fill-IsBook laws s side price amount fee b (p, a, h) in
        (amount_u s', rw path refl, b')
    apply_fill-IsVenue (quantity s) side price amount size fee b p a q h =
        let (t, r, path, b') =
          apply_fill-IsBook laws (as_amount s) side price size fee b (p, q, h) in
        let agree = apply_fill-agree (as_amount s) s side price size fee refl refl in
        let lots : quantity_lots (Quantity.apply_fill s side price size fee)
            ≡ done (t.longs, t.shorts) =
          sym agree ∙ ap amount_lots path in
        let (s', path', l, k) =
          quantity_lots-done (Quantity.apply_fill s side price size fee) lots in
        (quantity s', ap (λ r. in_fifo r >>= λ q. done (quantity q)) path', IsBook-from_lots l k b')

    apply_trade-IsSymbol :
        (s : SymbolState F) (t : NormalizedTrade F)
        → IsSymbol s
        → IsValidTrade t
        → (s' : SymbolState F) × (apply_trade s t ≡ done s') × IsSymbol s'
    unfolding apply_trade
    apply_trade-IsSymbol s t v (p, a, q, h) =
        let (book, fill, b) =
          apply_fill-IsVenue (leg_fifo s t.leg) t.side t.price t.amount_u t.quantity
            (or_else t.fee_usdt f.nought) (leg_fifo-IsVenue s t.leg v) p a q h in
        let (s', path, x, y) = mark_at-done (counted s t.leg t book) t.price p in
        (
          s',
          rw (fill, path) refl,
          marked-IsSymbol (counted s t.leg t book) x y (counted-IsSymbol s t.leg t book v b),
        )

    adjust_spot-IsSymbol :
        (s : SymbolState F) (delta price : F)
        → IsSymbol s
        → IsPositive price
        → IsPositive (f.abs delta)
        → IsPositive (f.mul (f.abs delta) price)
        → (s' : SymbolState F) × (adjust_spot s delta price ≡ done s') × IsSymbol s'
    unfolding adjust_spot
    adjust_spot-IsSymbol s delta price v p d m =
        let (book, fill, b) =
          apply_fill-IsVenue s.spot_fifo (side_of delta) price (f.mul (f.abs delta) price)
            (f.abs delta) f.nought v.spot_book p m d laws.nought_finite in
        let (s', path, x, y) = mark_at-done (record s { spot_fifo = book }) price p in
        (
          s',
          rw (fill, path) refl,
          marked-IsSymbol (record s { spot_fifo = book }) x y
              (record { spot_book = b; futures_book = v.futures_book }),
        )

    -- What an interest event adds to the costs and to the position leaves the books.
    charged-IsSymbol :
        (s : SymbolState F) (delta : F) (cost : Option F)
        → IsSymbol s
        → IsSymbol (add_cost (move s spot delta) cost)
    charged-IsSymbol s delta none v = record {
      spot_book = v.spot_book;
      futures_book = v.futures_book;
    }
    charged-IsSymbol s delta (some c) v = record {
      spot_book = v.spot_book;
      futures_book = v.futures_book;
    }

    apply_interest-IsSymbol :
        (s : SymbolState F) (e : InterestEvent F)
        → IsSymbol s
        → IsValidInterest e
        → (s' : SymbolState F) × (apply_interest s e ≡ done s') × IsSymbol s'
    unfolding apply_interest conversion_price
    apply_interest-IsSymbol s e v (inl still) = (
      add_cost (move s spot e.spot_quantity_delta) e.cost_usdt,
      rw still refl,
      charged-IsSymbol s e.spot_quantity_delta e.cost_usdt v,
    )
    apply_interest-IsSymbol s e v (inr (price, own, p, d, m)) =
        elim (Bool-cases (not (f.eq e.spot_quantity_delta f.nought) && uses_quantity s.spot_fifo)) [
          | inr stays ↦ (
            add_cost (move s spot e.spot_quantity_delta) e.cost_usdt,
            rw stays refl,
            charged-IsSymbol s e.spot_quantity_delta e.cost_usdt v,
          )
          | inl moves ↦
              let (s', path, v') = adjust_spot-IsSymbol s e.spot_quantity_delta price v p d m in
              (
                add_cost (move s' spot e.spot_quantity_delta) e.cost_usdt,
                rw (moves, own, path) refl,
                charged-IsSymbol s' e.spot_quantity_delta e.cost_usdt v',
              )
        ]

    pub apply_one-IsSymbol :
        (s : SymbolState F) (e : PnlEvent F)
        → IsSymbol s
        → IsValid e
        → (s' : SymbolState F) × (apply_one s e ≡ done s') × IsSymbol s'
    unfolding apply_one
    apply_one-IsSymbol s (trade t) v h = apply_trade-IsSymbol s t v h
    apply_one-IsSymbol s (funded e) v h =
        (_, refl, record { spot_book = v.spot_book; futures_book = v.futures_book })
    apply_one-IsSymbol s (charged e) v h = apply_interest-IsSymbol s e v h

    -- Under the facts of IEEE 754, a symbol whose books are well formed (every lot positive, one side of a
    -- book at most open) takes every sequence of valid events without an error or a loop that does not
    -- end, in both kinds of book, and its books are well formed again: trades of a positive price, amount
    -- and quantity with a finite fee or none, all funding, and interest that moves no position or that
    -- brings a conversion price, where the price, the size of the change and the value of that size at the
    -- price are positive and finite.
    pub apply_each-IsSymbol :
        (s : SymbolState F) (es : List (PnlEvent F))
        → IsSymbol s
        → All IsValid es
        → (s' : SymbolState F) × (apply_each s es ≡ done s') × IsSymbol s'
    apply_each-IsSymbol s [] v a = (s, refl, v)
    apply_each-IsSymbol s (e ∷ es) v (h, a) =
        let (next, one, v') = apply_one-IsSymbol s e v h in
        let (s', path, v'') = apply_each-IsSymbol next es v' a in (s', rw (one, path) refl, v'')
