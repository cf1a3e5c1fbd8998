-- ===== src/Fifo/Amount/Safety.antt =====
-- The amount book of src/fifo_pnl.rs: which fills it takes, and what they keep true.
use crypto_nav_manager.Base.{
  ℕ, suc, ◌≡◌, ◌⊎◌, inl, inr, some, List, [], ◌∷◌, arith, length, All-append, done,
}
use crypto_nav_manager.Float.{Float, IsFinite, IsPositive, IsIeee}
use crypto_nav_manager.Fifo.{Side, buy, sell, Lot, validate_positive, close_lots}
use crypto_nav_manager.Fifo.Loop.{IsOpen, Ended, close_lots-Closes}
use crypto_nav_manager.Fifo.Amount.{
  FifoPnl, FillResult, close_gain, closing_side, book_fill, apply_fill,
}

module _ {F : Type 0} ⦃f : Float F⦄ where
  -- Every open lot has a positive price and a positive amount, and one side at most is open.
  pub record IsBook (s : FifoPnl F) : Type 0 where
    pub longs_open : IsOpen s.longs
    pub shorts_open : IsOpen s.shorts
    pub one_sided : (s.longs ≡ []) ⊎ (s.shorts ≡ [])

  abbrev pub IsValidFill : F → F → F → Type 0
  IsValidFill price amount fee = IsPositive price × IsPositive amount × IsFinite fee

  pub validate_positive_pass :
      (field : _) (value : F) → IsPositive value → validate_positive field value ≡ done tt
  unfolding validate_positive
  validate_positive_pass field value p = rw (p.0, p.1)

  apply_fill-IsValidFill :
      (s : FifoPnl F) (side : Side) (price amount fee : F) {r : FifoPnl F × FillResult F}
      → apply_fill s side price amount fee ≡ done r
      → IsValidFill price amount fee
  unfolding apply_fill validate_positive
  apply_fill-IsValidFill s side price amount fee e = ground arith

  module _ (laws : IsIeee F) where
    book_fill-IsBook :
        (s : FifoPnl F) (side : Side) (price amount fee pnl rest : F) (lots : List (Lot F))
        → IsBook s
        → IsPositive price
        → IsOpen lots
        → Ended lots rest
        → ((closing_side s side).0 ≡ [] → lots ≡ [])
        → IsBook (book_fill s side price amount fee (lots, pnl, rest)).0
    unfolding book_fill closing_side
    book_fill-IsBook s buy price amount fee pnl rest lots v p o (inl e) k =
        rw (e, laws.lt_nought)
          (record {
            longs_open = v.longs_open;
            shorts_open = o;
            one_sided = elim v.one_sided [ inl a ↦ inl a | inr b ↦ inr (k b) ];
          })
    book_fill-IsBook s buy price amount fee pnl rest lots v p o (inr (e, q)) k = rw (q.1) (record {
      longs_open = All-append _ s.longs _ v.longs_open ((p, q), tt);
      shorts_open = o;
      one_sided = inr e;
    })
    book_fill-IsBook s sell price amount fee pnl rest lots v p o (inl e) k =
        rw (e, laws.lt_nought)
          (record {
            longs_open = o;
            shorts_open = v.shorts_open;
            one_sided = elim v.one_sided [ inl a ↦ inl (k a) | inr b ↦ inr b ];
          })
    book_fill-IsBook s sell price amount fee pnl rest lots v p o (inr (e, q)) k = rw (q.1) (record {
      longs_open = o;
      shorts_open = All-append _ s.shorts _ v.shorts_open ((p, q), tt);
      one_sided = inl e;
    })

    closing_side-IsOpen : (s : FifoPnl F) (side : Side) → IsBook s → IsOpen (closing_side s side).0
    unfolding closing_side
    closing_side-IsOpen s buy v = v.shorts_open
    closing_side-IsOpen s sell v = v.longs_open

    close_lots-nil :
        (gain : F → F → F) (fuel : ℕ) (start amount : F) (lots lots' : List (Lot F)) {pnl rest : F}
        → close_lots gain (suc fuel) lots amount start ≡ some (lots', pnl, rest)
        → lots ≡ []
        → lots' ≡ []
    unfolding close_lots
    close_lots-nil gain fuel start amount [] lots' e n = ground arith
    close_lots-nil gain fuel start amount (l ∷ ls) lots' e n = cc

    -- Under the facts of IEEE 754, a book (every lot positive, one side empty) takes every fill of a
    -- positive price, a positive amount and a finite fee: the loop ends, and the result is a book
    -- again.
    pub apply_fill-IsBook :
        (s : FifoPnl F) (side : Side) (price amount fee : F)
        → IsBook s
        → IsValidFill price amount fee
        → (s' : FifoPnl F) × (r : FillResult F) × (apply_fill s side price amount fee
            ≡ done (s', r))
          × IsBook s'
    unfolding apply_fill
    apply_fill-IsBook s side price amount fee v (p, q, h) =
        let (lots, dir) = closing_side s side in
        let (lots', pnl, rest, e, o, k) =
          close_lots-Closes laws (close_gain price dir) (suc (length lots)) lots amount f.nought
            (omega arith) (closing_side-IsOpen s side v) q in
        let booked = book_fill s side price amount fee (lots', pnl, rest) in
        (
          booked.0,
          booked.1,
          rw (
            validate_positive_pass "price" price p,
            validate_positive_pass "amount_u" amount q,
            h,
            e,
          ),
          book_fill-IsBook s side price amount fee pnl rest lots' v p o k
              (close_lots-nil (close_gain price dir) (length lots) f.nought amount lots lots' e),
        )
