-- ===== src/FrLimits/Exchange.antt =====
-- src/fr_position_limits.rs: the limits and positions in the answers of the exchanges. The names there
-- have no white space around them but blanks and tabs.
use Prim.Native.String.{String}
use crypto_nav_manager.Base.{ℕ, Bool, true, ◌&&◌, Option, none, some, List, [], ◌∷◌, if◌then◌else◌}
use crypto_nav_manager.Base.Maps.{lookup, insert}
use crypto_nav_manager.Base.Text.{bytes_key, to_ascii_uppercase, trim}
use crypto_nav_manager.Float.{Float}
use crypto_nav_manager.FrLimits.{
  Constants, Fields, BinanceLimit, GateLimit, or_else, first, filter_option, map_option, positive,
  minimum_positive, add_optional,
}
use crypto_nav_manager.FrLimits.Symbols.{normalize_symbol}

module _ {F L : Type 0} (change : Option L → List ℕ → Fields F → Option L) where
  abbrev pub put : List ℕ → List (List ℕ × L) → Option L → List (List ℕ × L)
  put symbol limits none = limits
  put symbol limits (some r) = insert symbol r limits

  abbrev pub put_keyed : List (List ℕ × L) → Fields F → List ℕ → Option (List ℕ) → List (List ℕ × L)
  put_keyed limits row raw none = limits
  put_keyed limits row raw (some symbol) = put symbol limits (change (lookup symbol limits) raw row)

  abbrev pub put_named : List (List ℕ × L) → Fields F → Option (List ℕ) → List (List ℕ × L)
  put_named limits row none = limits
  put_named limits row (some raw) = put_keyed limits row raw (normalize_symbol raw)

module _ {F L : Type 0} where
  -- A row of an answer: its `field` names a symbol, whose record changes, or nothing does. The loops over
  -- the answers skip a row without a name, with one that is no symbol, or without what `change` needs.
  unfoldable pub apply_row :
      String
      → (Option L → List ℕ → Fields F → Option L)
      → List (List ℕ × L)
      → Fields F
      → List (List ℕ × L)
  unfolding normalize_symbol lookup insert
  apply_row field change limits row = put_named change limits row (row.text field)

  unfoldable pub apply_rows :
      String
      → (Option L → List ℕ → Fields F → Option L)
      → List (List ℕ × L)
      → List (Fields F)
      → List (List ℕ × L)
  unfolding apply_row
  apply_rows field change limits [] = limits
  apply_rows field change limits (row ∷ rows) =
      apply_rows field change (apply_row field change limits row) rows

unfoldable pub display_name : List ℕ → List ℕ
unfolding to_ascii_uppercase trim
display_name raw = to_ascii_uppercase (trim raw)

-- The name that is displayed, where none is there yet.
abbrev pub named : List ℕ → List ℕ → List ℕ
named [] raw = display_name raw
named (c ∷ cs) raw = c ∷ cs

module _ {F : Type 0} where
  abbrev pub no_limit : BinanceLimit F
  no_limit = record {
    symbol = [];
    symbol_config_limit = none;
    position_risk_limit = none;
    bracket_limit = none;
    leverage = none;
    current_notional = none;
  }

module _ {F : Type 0} ⦃f : Float F⦄ where
  open f use {nought, add, mul, neg, abs, min, lt, is_finite}

  -- `symbolConfig`: a positive cap replaces what the symbol had.
  unfoldable pub config_change :
      Option (BinanceLimit F) → List ℕ → Fields F → Option (BinanceLimit F)
  unfolding positive display_name
  config_change old raw row = elim (positive (row.number "maxNotionalValue")) [
    | none ↦ none
    | some cap ↦ some (record no_limit {
      symbol = display_name raw;
      symbol_config_limit = some cap;
      leverage = positive (row.number "leverage");
    })
  ]

  unfoldable pub parse_binance_symbol_configs : List (Fields F) → List (List ℕ × BinanceLimit F)
  unfolding config_change apply_rows
  parse_binance_symbol_configs rows = apply_rows "symbol" config_change [] rows

  unfoldable pub gate_notional : Option F → F → F
  gate_notional none raw_value = raw_value
  gate_notional (some size) raw_value =
      if lt size nought
      then neg (abs raw_value)
      else if lt nought size
      then abs raw_value
      else nought

  -- A Gate position: a second row of the symbol lowers the limits and adds its notional.
  unfoldable pub gate_change : Option (GateLimit F) → List ℕ → Fields F → Option (GateLimit F)
  unfolding positive minimum_positive display_name gate_notional
  gate_change old raw row =
      let raw_value = or_else (filter_option is_finite (row.number "value")) nought in
      let notional = gate_notional (row.number "size") raw_value in
      let cross = positive (row.number "cross_leverage_limit") in
      elim (positive (row.number "risk_limit")) [
        | none ↦ none
        | some risk_limit ↦ elim old [
          | none ↦ some (record {
            contract = display_name raw;
            risk_limit = risk_limit;
            current_notional = notional;
            cross_leverage_limit = cross;
          })
          | some r ↦ some (record r {
            risk_limit = min r.risk_limit risk_limit;
            current_notional = add r.current_notional notional;
            cross_leverage_limit = minimum_positive r.cross_leverage_limit cross;
          })
        ]
      ]

  unfoldable pub parse_gate_positions : List (Fields F) → List (List ℕ × GateLimit F)
  unfolding gate_change apply_rows
  parse_gate_positions rows = apply_rows "contract" gate_change [] rows

module _ {F : Type 0} ⦃f : Float F⦄ (constants : Constants F) where
  open f use {nought, mul, abs, lt, is_finite}

  abbrev pub is_tiny : Option F → Bool
  is_tiny none = true
  is_tiny (some value) = lt (abs value) constants.epsilon

  -- The notional of a position, from its amount and mark price where it is missing or nought.
  unfoldable pub notional_of : Fields F → Option F
  notional_of row =
      let amount = or_else (row.number "positionAmt") nought in
      let mark = or_else (row.number "markPrice") nought in
      if is_tiny (row.number "notional") && lt constants.epsilon (abs amount) && lt nought mark
      then some (mul amount mark)
      else row.number "notional"

  -- `positionRisk`: the entry of the symbol, new where there is none.
  unfoldable pub position_change :
      Option (BinanceLimit F) → List ℕ → Fields F → Option (BinanceLimit F)
  unfolding positive minimum_positive add_optional notional_of display_name
  position_change old raw row =
      let r = or_else old no_limit in
      some (record r {
        symbol = named r.symbol raw;
        position_risk_limit =
            minimum_positive r.position_risk_limit (positive (row.number "maxNotionalValue"));
        current_notional =
            add_optional r.current_notional (filter_option is_finite (notional_of row));
        leverage = first r.leverage (positive (row.number "leverage"));
      })

  unfoldable pub merge_binance_positions :
      List (List ℕ × BinanceLimit F) → List (Fields F) → List (List ℕ × BinanceLimit F)
  unfolding position_change apply_rows
  merge_binance_positions limits rows = apply_rows "symbol" position_change limits rows

  -- `max_by` of the positive caps: the last of the greatest.
  unfoldable pub max_cap : List (String → Option F) → Option F
  unfolding positive
  max_cap [] = none
  max_cap (bracket ∷ brackets) =
      let rest = max_cap brackets in
      elim (positive (bracket "notionalCap")) [
        | none ↦ rest
        | some cap ↦ elim rest [
          | none ↦ some cap
          | some best ↦ some (if constants.total_le cap best then best else cap)
        ]
      ]

  -- `leverageBracket`: only of symbols that are there.
  unfoldable pub bracket_change :
      Option (BinanceLimit F) → List ℕ → Fields F → Option (BinanceLimit F)
  unfolding max_cap
  bracket_change old raw row = elim (max_cap row.brackets) [
    | none ↦ none
    | some largest ↦
        map_option (λ (r : BinanceLimit F). record r { bracket_limit = some largest }) old
  ]

  unfoldable pub merge_binance_brackets :
      List (List ℕ × BinanceLimit F) → List (Fields F) → List (List ℕ × BinanceLimit F)
  unfolding bracket_change apply_rows
  merge_binance_brackets limits rows = apply_rows "symbol" bracket_change limits rows
