-- ===== src/Pnl/Inputs.antt =====
-- src/pnl.rs, `load_inputs`: the rows of the queries as trades, funding and interest. The queries are SQL.
-- The caches of mark prices and contract multipliers are arguments.
use crypto_nav_manager.Base.{
  ℕ, Bool, ◌&&◌, ◌||◌, not, Option, none, some, List, [], ◌∷◌, ◌++◌, Outcome, done, failed, ◌>>=◌,
  if◌then◌else◌,
}
use crypto_nav_manager.Base.Maps.{lookup, insert}
use crypto_nav_manager.Base.Text.{
  codes, bytes_eq, bytes_key, to_ascii_lowercase, to_ascii_uppercase,
}
use crypto_nav_manager.Float.{Float}
use crypto_nav_manager.Fifo.{Side, buy, sell}
use crypto_nav_manager.Pnl.{
  PositionLeg, spot, futures, NormalizedTrade, InterestEvent, PnlError, unsupported_side,
  unsupported_market, invalid_amount, invalid_quantity,
}
use crypto_nav_manager.Pnl.Symbol.{or_else, first}
use crypto_nav_manager.Pnl.Performance.{map_option}
use crypto_nav_manager.Pnl.Charges.{
  is_stablecoin, base_asset, is_base, binance_intra_fee_usdt, binance_fee_cost_usdt,
  market_making_amount_u, market_making_quantity, spot_swap_position_quantity, interest_cost_usdt,
  nearest_trade_price,
}

pub record SpotSwapTradeRow (F : Type 0) : Type 0 where
  pub market : List ℕ
  pub symbol : List ℕ
  pub side : List ℕ
  pub price : F
  pub amount_u : F
  pub quantity : F
  pub fee : F
  pub fee_usdt : Option F
  pub commission_asset : List ℕ
  pub ts : ℕ

pub record SpotSwapInterestRow (F : Type 0) : Type 0 where
  pub currency : List ℕ
  pub interest : F
  pub cost_usdt : Option F
  pub ts : ℕ

pub record BinanceIntraTradeRow (F : Type 0) : Type 0 where
  pub market : List ℕ
  pub liquidity_role : List ℕ
  pub symbol : List ℕ
  pub side : List ℕ
  pub price : F
  pub amount_u : F
  pub quantity : F
  pub fee : F
  pub commission_asset : List ℕ
  pub ts : ℕ

pub record MarketMakingTradeRow (F : Type 0) : Type 0 where
  pub symbol : List ℕ
  pub side : List ℕ
  pub price : F
  pub quantity : F
  pub quote_quantity : Option F
  pub fee_usdt : Option F
  pub ts : ℕ

-- The symbol that the interest of a currency belongs to.
abbrev pub interest_symbol : List ℕ → List ℕ
interest_symbol currency = if is_stablecoin currency then currency else currency ++ codes "USDT"

module _ {F : Type 0} where
  unfoldable pub parse_side : List ℕ → Outcome (PnlError F) Side
  parse_side side =
      if bytes_eq side (codes "buy")
      then done buy
      else if bytes_eq side (codes "sell")
      then done sell
      else failed (unsupported_side side)

  unfoldable pub intra_leg : List ℕ → Outcome (PnlError F) PositionLeg
  intra_leg market =
      if bytes_eq market (codes "spot")
      then done spot
      else if bytes_eq market (codes "swap") || bytes_eq market (codes "usdm_futures")
      then done futures
      else failed (unsupported_market market)

  unfoldable pub spot_swap_leg : List ℕ → Outcome (PnlError F) PositionLeg
  spot_swap_leg market =
      if bytes_eq market (codes "spot") || bytes_eq market (codes "margin")
      then done spot
      else if bytes_eq market (codes "swap")
          || bytes_eq market (codes "usdm_futures")
          || bytes_eq market (codes "usdt_futures")
      then done futures
      else failed (unsupported_market market)

module _ {F : Type 0} ⦃f : Float F⦄ where
  open f use {nought, one, mul, abs, is_finite, le}

  unfoldable pub binance_intra_trade :
      F → (List ℕ → Option F) → BinanceIntraTradeRow F → Outcome (PnlError F) (NormalizedTrade F)
  unfolding parse_side intra_leg binance_fee_cost_usdt binance_intra_fee_usdt
  binance_intra_trade rate price_of row =
      let symbol = to_ascii_uppercase row.symbol in
      let quantity = abs row.quantity in
      let fee =
        binance_intra_fee_usdt rate row.market row.liquidity_role row.amount_u
          (binance_fee_cost_usdt price_of row.fee row.commission_asset row.price symbol) in
      parse_side row.side >>= λ side.
      if not (is_finite row.amount_u) || le row.amount_u nought
      then failed (invalid_amount (codes "Binance intra") row.amount_u)
      else if not (is_finite quantity) || le quantity nought
      then failed (invalid_quantity (codes "Binance intra") row.quantity)
      else intra_leg row.market >>= λ leg. done (record {
        symbol = symbol;
        side = side;
        leg = leg;
        price = row.price;
        amount_u = row.amount_u;
        quantity = quantity;
        fee_usdt = fee;
        ts = row.ts;
      })

  -- `multiplier_of` is the book of multipliers of an exchange that counts in contracts.
  abbrev pub multiplier_for :
      Option (List ℕ → ℕ → Outcome (PnlError F) F) → List ℕ → ℕ → Outcome (PnlError F) (Option F)
  multiplier_for none symbol ts = done none
  multiplier_for (some multiplier_at) symbol ts = multiplier_at symbol ts >>= λ m. done (some m)

  unfoldable pub market_making_trade :
      List ℕ
      → Option (List ℕ → ℕ → Outcome (PnlError F) F)
      → MarketMakingTradeRow F
      → Outcome (PnlError F) (NormalizedTrade F)
  unfolding parse_side market_making_amount_u market_making_quantity
  market_making_trade exchange multiplier_of row =
      parse_side (to_ascii_lowercase row.side) >>= λ side.
      multiplier_for multiplier_of (to_ascii_uppercase row.symbol) row.ts >>= λ multiplier.
      market_making_amount_u exchange row.price row.quantity row.quote_quantity multiplier
      >>= λ amount. market_making_quantity exchange row.quantity multiplier >>= λ quantity.
          done (record {
            symbol = to_ascii_uppercase row.symbol;
            side = side;
            leg = futures;
            price = row.price;
            amount_u = amount;
            quantity = quantity;
            fee_usdt = row.fee_usdt;
            ts = row.ts;
          })

  -- The fee of a row in USDT: its own, or one that its commission asset gives.
  unfoldable pub spot_swap_fee : List ℕ → (List ℕ → Option F) → SpotSwapTradeRow F → Option F
  unfolding base_asset binance_fee_cost_usdt
  spot_swap_fee exchange price_of row =
      let symbol = to_ascii_uppercase row.symbol in
      let asset = to_ascii_uppercase row.commission_asset in
      first row.fee_usdt (
        if is_stablecoin asset
        then some row.fee
        else if is_base (base_asset symbol) asset
        then some (mul row.fee row.price)
        else if bytes_eq exchange (codes "binance")
        then binance_fee_cost_usdt price_of row.fee asset row.price symbol
        else none)

  unfoldable pub spot_swap_trade :
      List ℕ → (List ℕ → Option F) → SpotSwapTradeRow F → Outcome (PnlError F) (NormalizedTrade F)
  unfolding parse_side spot_swap_leg spot_swap_fee spot_swap_position_quantity base_asset
  spot_swap_trade exchange price_of row =
      let symbol = to_ascii_uppercase row.symbol in
      parse_side row.side >>= λ side. spot_swap_leg row.market >>= λ leg.
      let quantity =
        spot_swap_position_quantity exchange leg side (abs row.quantity) row.fee
          (to_ascii_uppercase row.commission_asset) (base_asset symbol) in
      if not (is_finite quantity) || le quantity nought
      then failed (invalid_quantity exchange quantity)
      else done (record {
        symbol = symbol;
        side = side;
        leg = leg;
        price = row.price;
        amount_u = row.amount_u;
        quantity = quantity;
        fee_usdt = spot_swap_fee exchange price_of row;
        ts = row.ts;
      })

  -- `spot_prices` and `all_prices` are the prices paid for each symbol, `price_of` the mark prices.
  unfoldable pub interest_price :
      List ℕ
      → (List ℕ → Option F)
      → List (List ℕ × List (ℕ × F))
      → List (List ℕ × List (ℕ × F))
      → SpotSwapInterestRow F
      → Option F
  unfolding nearest_trade_price lookup
  interest_price exchange price_of spot_prices all_prices row =
      let currency = to_ascii_uppercase row.currency in
      let symbol = interest_symbol currency in
      let nearest =
        first (nearest_trade_price (or_else (lookup symbol spot_prices) []) row.ts)
          (nearest_trade_price (or_else (lookup symbol all_prices) []) row.ts) in
      if is_stablecoin currency
      then some one
      else if bytes_eq exchange (codes "binance")
      then price_of symbol
      else if bytes_eq exchange (codes "bybit")
      then first nearest (price_of symbol)
      else nearest

  unfoldable pub spot_swap_interest :
      List ℕ
      → (List ℕ → Option F)
      → List (List ℕ × List (ℕ × F))
      → List (List ℕ × List (ℕ × F))
      → SpotSwapInterestRow F
      → InterestEvent F
  unfolding interest_price interest_cost_usdt
  spot_swap_interest exchange price_of spot_prices all_prices row =
      let currency = to_ascii_uppercase row.currency in
      let price = interest_price exchange price_of spot_prices all_prices row in
      record {
        symbol = interest_symbol currency;
        cost_usdt =
            map_option (interest_cost_usdt exchange)
              (first row.cost_usdt (map_option (λ p. mul row.interest p) price));
        conversion_price = price;
        spot_quantity_delta =
            if bytes_eq exchange (codes "bybit") && not (is_stablecoin currency)
            then row.interest
            else nought;
        ts = row.ts;
      }

module _ {F : Type 0} where
  -- The price of a trade behind those of its symbol.
  abbrev pub push_price :
      List ℕ → ℕ → F → List (List ℕ × List (ℕ × F)) → List (List ℕ × List (ℕ × F))
  push_price symbol ts price history =
      insert symbol (or_else (lookup symbol history) [] ++ (ts, price) ∷ []) history

  unfoldable pub price_history :
      (SpotSwapTradeRow F → Bool)
      → List (List ℕ × List (ℕ × F))
      → List (SpotSwapTradeRow F)
      → List (List ℕ × List (ℕ × F))
  unfolding lookup insert
  price_history counts history [] = history
  price_history counts history (row ∷ rows) =
      price_history counts
        (if counts row
          then push_price (to_ascii_uppercase row.symbol) row.ts row.price history
          else history)
        rows

  abbrev pub on_spot : SpotSwapTradeRow F → Bool
  on_spot row = bytes_eq row.market (codes "spot")
