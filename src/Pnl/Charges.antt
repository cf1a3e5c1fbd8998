-- ===== src/Pnl/Charges.antt =====
-- src/pnl.rs: fees, amounts, quantities and interest of the rows of a source.
use crypto_nav_manager.Base.{
  ℕ, ltb, leb, ◌-◌, ◌==◌, Bool, true, false, ◌&&◌, ◌||◌, not, Option, none, some, List, [], ◌∷◌,
  ◌++◌, Outcome, done, failed, ◌>>=◌, if◌then◌else◌,
}
use crypto_nav_manager.Base.Text.{
  strip_suffix, codes, bytes_eq, all, is_ascii_digit, is_ascii_lowercase, to_ascii_lowercase,
  to_ascii_uppercase,
}
use crypto_nav_manager.Float.{Float}
use crypto_nav_manager.Fifo.{Side, buy, sell}
use crypto_nav_manager.Pnl.{
  PositionLeg, spot, futures, PnlError, missing_multiplier, unsupported_exchange, invalid_amount,
  invalid_quantity, invalid_identifier,
}
use crypto_nav_manager.Pnl.Symbol.{or_else}
use crypto_nav_manager.Pnl.Performance.{filter_option, map_option}

-- `is_ascii_alphanumeric`, or an underscore.
unfoldable pub is_identifier_byte : ℕ → Bool
unfolding is_ascii_digit is_ascii_lowercase
is_identifier_byte c =
    c == b'_' || is_ascii_digit c || is_ascii_lowercase c || leb b'A' c && leb c b'Z'

unfoldable pub validate_identifier : {F : Type 0} → List ℕ → Outcome (PnlError F) (Unit {0})
unfolding is_identifier_byte
validate_identifier [] = failed invalid_identifier
validate_identifier (c ∷ cs) =
    if all is_identifier_byte (c ∷ cs) then done tt else failed invalid_identifier

abbrev pub is_stablecoin : List ℕ → Bool
is_stablecoin asset =
    bytes_eq asset (codes "USDT") || bytes_eq asset (codes "USDC") || bytes_eq asset (codes "USD")

-- The symbol without its quote asset, or the empty text.
unfoldable pub base_asset : List ℕ → List ℕ
unfolding strip_suffix
base_asset symbol = or_else (strip_suffix (codes "USDT") symbol) []

-- Whether the asset is the base of the symbol.
abbrev pub is_base : List ℕ → List ℕ → Bool
is_base [] asset = false
is_base (c ∷ cs) asset = bytes_eq asset (c ∷ cs)

abbrev pub eq_ignore_case : List ℕ → List ℕ → Bool
eq_ignore_case a b = bytes_eq (to_ascii_lowercase a) (to_ascii_lowercase b)

abbrev pub on_contracts : List ℕ → Bool
on_contracts exchange = bytes_eq exchange (codes "gate") || bytes_eq exchange (codes "okx")

abbrev pub on_coins : List ℕ → Bool
on_coins exchange = bytes_eq exchange (codes "binance") || bytes_eq exchange (codes "bybit")

abbrev pub is_spot : PositionLeg → Bool
is_spot spot = true
is_spot futures = false

module _ {F : Type 0} ⦃f : Float F⦄ where
  open f use {nought, add, sub, mul, neg, abs, max, lt, eq, is_finite}

  -- `rate` is 0.4 / 10_000.
  unfoldable pub binance_intra_fee_usdt : F → List ℕ → List ℕ → F → Option F → Option F
  unfolding to_ascii_lowercase
  binance_intra_fee_usdt rate market liquidity_role amount_u observed =
      if eq_ignore_case market (codes "spot") && eq_ignore_case liquidity_role (codes "maker")
      then some (mul (neg amount_u) rate)
      else observed

  -- `price_of` is the cache of mark prices.
  unfoldable pub binance_fee_cost_usdt : (List ℕ → Option F) → F → List ℕ → F → List ℕ → Option F
  unfolding base_asset to_ascii_uppercase
  binance_fee_cost_usdt price_of fee commission_asset trade_price symbol =
      let asset = to_ascii_uppercase commission_asset in
      if not (is_finite fee)
      then none
      else if is_stablecoin asset
      then some fee
      else if is_base (base_asset symbol) asset
      then (if is_finite trade_price && lt nought trade_price
          then some (mul fee trade_price)
          else none)
      else map_option (λ price. mul fee price) (price_of (asset ++ codes "USDT"))

  abbrev pub need : List ℕ → Option F → Outcome (PnlError F) F
  need exchange none = failed (missing_multiplier exchange)
  need exchange (some multiplier) = done multiplier

  -- A finite positive number, or the error.
  unfoldable pub positive_or : PnlError F → F → Outcome (PnlError F) F
  positive_or error a = if not (is_finite a) || f.le a nought then failed error else done a

  abbrev pub raw_amount_u : List ℕ → F → F → Option F → Option F → Outcome (PnlError F) F
  raw_amount_u exchange price quantity quote multiplier =
      if on_contracts exchange
      then (need exchange multiplier >>= λ m. done (mul (mul price (abs quantity)) m))
      else if on_coins exchange
      then done
          (or_else (filter_option (λ amount. not (eq amount nought)) quote) (mul price quantity))
      else failed (unsupported_exchange exchange)

  unfoldable pub market_making_amount_u :
      List ℕ → F → F → Option F → Option F → Outcome (PnlError F) F
  unfolding positive_or
  market_making_amount_u exchange price quantity quote multiplier =
      raw_amount_u exchange price quantity quote multiplier >>= λ amount.
      positive_or (invalid_amount exchange amount) amount

  abbrev pub raw_quantity : List ℕ → F → Option F → Outcome (PnlError F) F
  raw_quantity exchange quantity multiplier =
      if on_contracts exchange
      then (need exchange multiplier >>= λ m. done (mul (abs quantity) m))
      else if on_coins exchange
      then done (abs quantity)
      else failed (unsupported_exchange exchange)

  unfoldable pub market_making_quantity : List ℕ → F → Option F → Outcome (PnlError F) F
  unfolding positive_or
  market_making_quantity exchange quantity multiplier =
      raw_quantity exchange quantity multiplier >>= λ size.
      positive_or (invalid_quantity exchange size) size

  abbrev pub with_fee : Side → F → F → F
  with_fee buy raw fee = add raw (abs fee)
  with_fee sell raw fee = sub raw (abs fee)

  unfoldable pub spot_swap_position_quantity :
      List ℕ → PositionLeg → Side → F → F → List ℕ → List ℕ → F
  spot_swap_position_quantity exchange leg side raw fee commission_asset base =
      if (bytes_eq exchange (codes "gate")
          || bytes_eq exchange (codes "bitget")
          || bytes_eq exchange (codes "bybit"))
        && is_spot leg
        && is_base base commission_asset
      then with_fee side raw fee
      else raw

  unfoldable pub interest_cost_usdt : List ℕ → F → F
  interest_cost_usdt exchange amount =
      if bytes_eq exchange (codes "binance") then max amount nought else max (neg amount) nought

module _ {F : Type 0} where
  -- `partition_point`: the last price before `ts`, and the prices from `ts` on.
  unfoldable pub split_prices : ℕ → Option (ℕ × F) → List (ℕ × F) → Option (ℕ × F) × List (ℕ × F)
  split_prices ts last [] = (last, [])
  split_prices ts last ((t, price) ∷ prices) =
      let rest = split_prices ts (some (t, price)) prices in
      if ltb t ts then rest else (last, (t, price) ∷ prices)

  abbrev pub nearer : ℕ → Option (ℕ × F) × List (ℕ × F) → Option F
  nearer ts (none, []) = none
  nearer ts (none, (t, price) ∷ rest) = some price
  nearer ts (some (t, price), []) = some price
  nearer ts (some (t, price), (u, next) ∷ rest) =
      if leb (ts - t) (u - ts) then some price else some next

  unfoldable pub nearest_trade_price : List (ℕ × F) → ℕ → Option F
  unfolding split_prices
  nearest_trade_price prices ts = nearer ts (split_prices ts none prices)
