-- ===== src/FrLimits/Answers.antt =====
-- src/fr_position_limits.rs: what the three answers of Binance, and the one of Gate, come to.
use Prim.Native.String.{String}
use crypto_nav_manager.Base.{ℕ, List, [], ◌∷◌, ◌++◌, length, Outcome, done, failed, ◌>>=◌}
use crypto_nav_manager.Base.Text.{codes}
use crypto_nav_manager.Float.{Float}
use crypto_nav_manager.FrLimits.{Constants, Fields, BinanceLimit, GateLimit}
use crypto_nav_manager.FrLimits.Exchange.{
  parse_binance_symbol_configs, merge_binance_positions, merge_binance_brackets,
  parse_gate_positions,
}

-- An answer: the objects of its array, a JSON text that is no array, or the error of the request.
pub data Answer (F : Type 0) : Type 0 where
  rows : List (Fields F) → Answer F
  no_array : Answer F
  unavailable : List ℕ → Answer F

pub record BinanceData (F : Type 0) : Type 0 where
  pub limits : List (List ℕ × BinanceLimit F)
  pub symbol_config_rows : ℕ
  pub position_risk_rows : ℕ
  pub leverage_bracket_rows : ℕ
  pub warnings : List (List ℕ)

pub record GateData (F : Type 0) : Type 0 where
  pub limits : List (List ℕ × GateLimit F)

pub data ExchangeData (F : Type 0) : Type 0 where
  binance : BinanceData F → ExchangeData F
  gate : GateData F → ExchangeData F

-- `root_array`.
abbrev pub no_array_error : String → List ℕ
no_array_error label = codes label ++ codes " response is not an array"

module _ {F : Type 0} where
  unfoldable pub config_rows : Answer F → Outcome (List ℕ) (List (Fields F))
  config_rows (rows found) = done found
  config_rows no_array = failed (no_array_error "Binance symbolConfig")
  config_rows (unavailable error) = failed error

  -- The rows of an answer that the code can do without, and the warning that takes their place.
  unfoldable pub other_rows :
      String → String → Answer F → Outcome (List ℕ) (List (Fields F) × List (List ℕ))
  other_rows label fallback (rows found) = done (found, [])
  other_rows label fallback no_array = failed (no_array_error label)
  other_rows label fallback (unavailable error) =
      done ([], (codes label ++ codes " unavailable; " ++ codes fallback ++ error) ∷ [])

module _ {F : Type 0} ⦃f : Float F⦄ (constants : Constants F) where
  -- The three answers merged, in this order.
  unfoldable pub merge_answers :
      List (Fields F) → List (Fields F) → List (Fields F) → List (List ℕ × BinanceLimit F)
  unfolding merge_binance_brackets merge_binance_positions parse_binance_symbol_configs
  merge_answers configs positions brackets =
      merge_binance_brackets constants
        (merge_binance_positions constants (parse_binance_symbol_configs configs) positions)
        brackets

  unfoldable pub fetch_binance_data :
      Answer F → Answer F → Answer F → Outcome (List ℕ) (BinanceData F)
  unfolding merge_answers config_rows other_rows
  fetch_binance_data config position bracket = config_rows config >>= λ (configs : List (Fields F)).
      other_rows "Binance positionRisk" "snapshot notional fallback is active: " position
      >>= λ (positions, position_warnings).
          other_rows "Binance leverageBracket" "symbolConfig cap is active: " bracket
          >>= λ (brackets, bracket_warnings). done (record {
            limits = merge_answers configs positions brackets;
            symbol_config_rows = length configs;
            position_risk_rows = length positions;
            leverage_bracket_rows = length brackets;
            warnings = position_warnings ++ bracket_warnings;
          })

  unfoldable pub fetch_gate_data : Answer F → Outcome (List ℕ) (GateData F)
  unfolding parse_gate_positions
  fetch_gate_data (rows found) = done (record { limits = parse_gate_positions found })
  fetch_gate_data no_array = failed (no_array_error "Gate futures positions")
  fetch_gate_data (unavailable error) = failed error
