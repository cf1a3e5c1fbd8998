-- ===== src/Pnl/Loading.antt =====
-- src/pnl.rs, `load_market_making_inputs`: what a row that is accepted comes to.
use crypto_nav_manager.Base.{
  ℕ, ◌≡◌, subst, ◌∙◌, true, false, inl, inr, Bool-cases, Option, List, Outcome, done, >>=-eq-done,
  done-inj,
}
use crypto_nav_manager.Base.Text.{to_ascii_lowercase, to_ascii_uppercase}
use crypto_nav_manager.Float.{Float, IsPositive, IsFinite, IsIeee}
use crypto_nav_manager.Pnl.{NormalizedTrade, PnlError, invalid_amount, invalid_quantity}
use crypto_nav_manager.Pnl.Symbol.{or_else}
use crypto_nav_manager.Pnl.Charges.{
  positive_or, raw_amount_u, raw_quantity, market_making_amount_u, market_making_quantity,
}
use crypto_nav_manager.Pnl.Inputs.{
  MarketMakingTradeRow, parse_side, multiplier_for, market_making_trade,
}
use crypto_nav_manager.Pnl.Books.{IsValidTrade}

module _ {F : Type 0} ⦃f : Float F⦄ (laws : IsIeee F) where
  -- The guard at the end of both calculations.
  positive_or-IsPositive :
      (a : F) (e : PnlError F) {r : F} → positive_or e a ≡ done r → IsPositive r
  unfolding positive_or
  positive_or-IsPositive a e h = elim (Bool-cases (f.is_finite a)) [
    | inr infinite ↦ cc (rw (infinite, positive_or) at h)
    | inl finite ↦
        let g = rw (finite, positive_or) at h in
        elim (Bool-cases (f.lt f.nought a)) [
          | inl above ↦
              let le_false : f.le a f.nought ≡ false =
                laws.le-not_lt a f.nought finite laws.nought_finite ∙ rw above in
              subst IsPositive (done-inj (rw le_false at g)) (finite, above)
          | inr below ↦
              let le_true : f.le a f.nought ≡ true =
                laws.le-not_lt a f.nought finite laws.nought_finite ∙ rw below in
              cc (rw le_true at g)
        ]
  ]

  market_making_amount_u-IsPositive :
      (exchange : List ℕ) (price quantity : F) (quote multiplier : Option F) {r : F}
      → market_making_amount_u exchange price quantity quote multiplier ≡ done r
      → IsPositive r
  unfolding market_making_amount_u
  market_making_amount_u-IsPositive exchange price quantity quote multiplier h =
      let (a, _, guard) =
        >>=-eq-done (raw_amount_u exchange price quantity quote multiplier)
          (λ amount. positive_or (invalid_amount exchange amount) amount) h in
      positive_or-IsPositive a (invalid_amount exchange a) guard

  market_making_quantity-IsPositive :
      (exchange : List ℕ) (quantity : F) (multiplier : Option F) {r : F}
      → market_making_quantity exchange quantity multiplier ≡ done r
      → IsPositive r
  unfolding market_making_quantity
  market_making_quantity-IsPositive exchange quantity multiplier h =
      let (a, _, guard) =
        >>=-eq-done (raw_quantity exchange quantity multiplier)
          (λ size. positive_or (invalid_quantity exchange size) size) h in
      positive_or-IsPositive a (invalid_quantity exchange a) guard

  -- A market-making row at a positive price, with a finite fee or none, that is accepted becomes a trade
  -- that the books take: its amount and its quantity are positive, on every exchange.
  pub market_making_trade-IsValidTrade :
      (exchange : List ℕ) (multiplier_of : Option (List ℕ → ℕ → Outcome (PnlError F) F))
      (row : MarketMakingTradeRow F) (t : NormalizedTrade F)
      → IsPositive row.price
      → IsFinite (or_else row.fee_usdt f.nought)
      → market_making_trade exchange multiplier_of row ≡ done t
      → IsValidTrade t
  unfolding market_making_trade
  market_making_trade-IsValidTrade exchange multiplier_of row t p h e =
      let (side, _, e1) = >>=-eq-done (parse_side (to_ascii_lowercase row.side)) _ e in
      let (multiplier, _, e2) =
        >>=-eq-done (multiplier_for multiplier_of (to_ascii_uppercase row.symbol) row.ts) _ e1 in
      let (amount, counted, e3) =
        >>=-eq-done
          (market_making_amount_u exchange row.price row.quantity row.quote_quantity multiplier) _
          e2 in
      let (quantity, sized, e4) =
        >>=-eq-done (market_making_quantity exchange row.quantity multiplier) _ e3 in
      subst IsValidTrade (done-inj e4) (
        p,
        market_making_amount_u-IsPositive exchange row.price row.quantity row.quote_quantity
            multiplier counted,
        market_making_quantity-IsPositive exchange row.quantity multiplier sized,
        h,
      )
