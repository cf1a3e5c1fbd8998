-- ===== src/FrLimits/Examples.antt =====
-- Tests of src/fr_position_limits.rs, and its theorems applied.
use Prim.Native.String.{String}
use crypto_nav_manager.Base.{
  ℕ, ◌≡◌, ◌↔◌, ◌||◌, refl, inl, inr, arith, true, none, some, List, [], ◌∷◌,
}
use mathlib.Core.List.{Perm}
use crypto_nav_manager.Base.Int.{pos}
use crypto_nav_manager.Base.Maps.{lookup}
use crypto_nav_manager.Base.Sort.{Chain}
use crypto_nav_manager.Base.Text.{strip_suffix, codes, bytes_key}
use crypto_nav_manager.Float.{IsPositive}
use crypto_nav_manager.Float.Sample.{Sample, num, sample_float, Sample-IsIeee, nearest}
use crypto_nav_manager.FrLimits.{
  Constants, program_constants, Fields, SnapshotPosition, BinanceLimit, GateLimit, first, positive,
  effective_limit,
}
use crypto_nav_manager.FrLimits.Symbols.{normalize_symbol}
use crypto_nav_manager.FrLimits.Spellings.{swap, normalize_symbol-Spells}
use crypto_nav_manager.FrLimits.Naming.{IsKey, normalize_symbol-IsKey}
use crypto_nav_manager.FrLimits.Exchange.{
  config_change, position_change, bracket_change, gate_change, parse_gate_positions, no_limit,
}
use crypto_nav_manager.FrLimits.Grouping.{record_of}
use crypto_nav_manager.FrLimits.Answers.{BinanceData, GateData, gate, merge_answers}
use crypto_nav_manager.FrLimits.Rows.{FrLimitRow, build_row}
use crypto_nav_manager.FrLimits.Tables.{
  binance_row, gate_row, build_binance_rows, build_gate_rows, sort_rows,
}
use crypto_nav_manager.FrLimits.Monitor.{
  FrLimitSource, Answers, fetched, default_params, fetch_environment,
}
use crypto_nav_manager.FrLimits.Limits.{
  IsBelow, effective_limit-IsBelow, place, sort_rows-perm, lookup-merge_answers,
}
use crypto_nav_manager.FrLimits.Displayed.{
  any_value, is_large, is_held, IsTable, build_rows-IsTable,
}
use crypto_nav_manager.FrLimits.Health.{AllRead, fetch_environment-healthy}

abbrev n : ℕ → Sample
n k = num (pos k)

-- The constants of the code, each at the nearest whole number.
abbrev constants : Constants Sample
constants = program_constants nearest num sample_float.le

normalize_symbol_test : normalize_symbol (codes "btc-usdt-swap@perp") ≡ some (codes "BTCUSDT")
unfolding normalize_symbol
normalize_symbol_test = refl

normalize_symbol-IsKey_example :
    IsKey (codes "BTCUSDT") × (normalize_symbol (codes "BTCUSDT") ≡ some (codes "BTCUSDT"))
normalize_symbol-IsKey_example =
    normalize_symbol-IsKey (codes "btc-usdt-swap@perp") (codes "BTCUSDT") normalize_symbol_test

normalize_symbol-Spells_example : normalize_symbol (codes "btc-SWAP") ≡ some (codes "BTCUSDT")
unfolding strip_suffix
normalize_symbol-Spells_example =
    normalize_symbol-Spells b'B' (codes "TC") (codes "btc-SWAP") swap refl refl (
      inr (
        inr (
          b'B',
          codes "TCSWAP",
          refl,
          (refl, inr (omega arith, refl)),
          inr (
              inr (
                b'T',
                codes "CSWAP",
                refl,
                (refl, inr (omega arith, refl)),
                inr (
                    inr (
                      b'C',
                      codes "SWAP",
                      refl,
                      (refl, inr (omega arith, refl)),
                      inr (
                          inl (
                            (refl, refl, refl),
                            inr (
                                inr (
                                  b'S',
                                  codes "WAP",
                                  refl,
                                  (refl, inl refl),
                                  inr (
                                      inr (
                                        b'W',
                                        codes "AP",
                                        refl,
                                        (refl, inl refl),
                                        inr (
                                            inr (
                                              b'A',
                                              codes "P",
                                              refl,
                                              (refl, inl refl),
                                              inr (inr (b'P', [], refl, (refl, inl refl), refl)),
                                            )),
                                      )),
                                )),
                          )),
                    )),
              )),
        )))

abbrev btc_limit : BinanceLimit Sample
btc_limit = record no_limit {
  symbol = codes "BTCUSDT";
  position_risk_limit = some (n 5000);
  bracket_limit = some (n 3000);
}

btc_limit_test : effective_limit btc_limit ≡ some (n 3000)
unfolding effective_limit
btc_limit_test = refl

effective_limit-IsBelow_example :
    IsPositive (n 3000)
    × IsBelow
        (n 3000)
        (first (positive btc_limit.symbol_config_limit) (positive btc_limit.position_risk_limit))
    × IsBelow (n 3000) (positive btc_limit.bracket_limit)
effective_limit-IsBelow_example =
    effective_limit-IsBelow Sample-IsIeee btc_limit (n 3000) btc_limit_test

abbrev row : String → ℕ → ℕ → FrLimitRow Sample
row symbol notional limit =
    build_row constants (codes symbol) (codes symbol) none (some (n notional)) (some (n limit)) none
      none none none (default_params constants)

abbrev two_rows : List (FrLimitRow Sample)
two_rows = row "ETHUSDT" 10 1000 ∷ row "BTCUSDT" 2000 1000 ∷ []

sort_rows-perm_example :
    Perm (sort_rows constants two_rows) two_rows × Chain place (sort_rows constants two_rows)
sort_rows-perm_example = sort_rows-perm constants two_rows

-- A row that names its symbol, with a limit.
abbrev config_row : String → ℕ → Fields Sample
config_row symbol limit = record {
  text = λ field. some (codes symbol);
  number = λ field. some (n limit);
  brackets = (λ field. some (n (limit))) ∷ [];
}

abbrev config_rows_of : List (Fields Sample)
config_rows_of = config_row "btc_usdt" 70 ∷ config_row "ETHUSDT" 50 ∷ config_row "BTCUSDT" 60 ∷ []

lookup-merge_answers_example :
    (lookup (codes "BTCUSDT") (merge_answers constants config_rows_of config_rows_of config_rows_of)
      ≡ record_of "symbol"
          (bracket_change constants)
          (codes "BTCUSDT")
          (record_of "symbol"
            (position_change constants)
            (codes "BTCUSDT")
            (record_of "symbol" config_change (codes "BTCUSDT") none config_rows_of)
            config_rows_of)
          config_rows_of)
    × (lookup (codes "BTCUSDT") (parse_gate_positions config_rows_of)
        ≡ record_of "contract" gate_change (codes "BTCUSDT") none config_rows_of)
lookup-merge_answers_example =
    lookup-merge_answers constants (codes "BTCUSDT") config_rows_of config_rows_of config_rows_of

abbrev shorts : List (List ℕ × SnapshotPosition Sample)
shorts =
    (codes "BTCUSDT", record { asset = []; open_usdt = some (n 5); futures_usdt = none })
    ∷ (codes "ETHUSDT", record { asset = []; open_usdt = none; futures_usdt = some (n 0) })
    ∷ []

abbrev btc_data : BinanceData Sample
btc_data = record {
  limits = (codes "BTCUSDT", record btc_limit { current_notional = some (n 700) }) ∷ [];
  symbol_config_rows = 1;
  position_risk_rows = 1;
  leverage_bracket_rows = 1;
  warnings = [];
}

abbrev eth_gate : GateData Sample
eth_gate = record {
  limits =
      (
        codes "ETHUSDT",
        record {
          contract = codes "ETH_USDT";
          current_notional = n 9000;
          risk_limit = n 10000;
          cross_leverage_limit = none;
        },
      )
      ∷ [];
}

build_rows-IsTable_example :
    let guard = default_params constants in
    IsTable constants
      (binance_row constants btc_data shorts guard)
      (λ symbol.
        any_value (is_held constants) shorts symbol
        || any_value
            (λ (l : BinanceLimit Sample). is_large constants l.current_notional)
            btc_data.limits
            symbol)
      (build_binance_rows constants btc_data shorts guard).0
    × IsTable constants
        (gate_row constants eth_gate shorts guard)
        (λ symbol.
          any_value (is_held constants) shorts symbol
          || any_value
              (λ (l : GateLimit Sample). is_large constants (some l.current_notional))
              eth_gate.limits
              symbol)
        (build_gate_rows constants eth_gate shorts guard).0
build_rows-IsTable_example =
    build_rows-IsTable constants btc_data eth_gate shorts (default_params constants)

abbrev source : FrLimitSource
source = record {
  strategy_slug = codes "fr";
  host = codes "host";
  env_path = codes "env";
  exchange = codes "gate";
  snapshot_url = codes "url";
  sort_order = 1;
}

abbrev answers : Answers Sample
answers = record {
  credentials = fetched tt;
  snapshot = fetched (record { ts_ms = 5; positions = shorts });
  params = fetched (record { params = default_params constants; live = true; warnings = [] });
  exchange = fetched (gate (record { limits = [] }));
  now_ms = 7;
}

answers_test : (fetch_environment constants source answers).status ≡ "healthy"
unfolding fetch_environment
answers_test = refl

fetch_environment-healthy_example :
    ((fetch_environment constants source answers).status ≡ "healthy") ↔ (
      (answers.credentials ≡ fetched tt)
      × AllRead constants answers answers.exchange (fetch_environment constants source answers))
fetch_environment-healthy_example = fetch_environment-healthy constants source answers
