-- ===== src/FrLimits/Monitor.antt =====
-- src/fr_position_limits.rs: an environment of the overview, and the overview with its cache. What the
-- requests, the file with the credentials and the clock give are arguments.
use Prim.Native.String.{String}
use crypto_nav_manager.Base.{
  ℕ, ◌-◌, ltb, leb, ◌==◌, suc, Bool, true, false, ◌&&◌, Option, none, some, List, [], ◌∷◌, ◌++◌,
  length, if◌then◌else◌,
}
use crypto_nav_manager.Base.Sort.{sort_by}
use crypto_nav_manager.Base.Text.{codes}
use crypto_nav_manager.Base.Int.{pos}
use crypto_nav_manager.Float.{Float}
use crypto_nav_manager.FrLimits.{Constants, SnapshotPosition, GuardParams}
use crypto_nav_manager.FrLimits.Answers.{ExchangeData, binance, gate}
use crypto_nav_manager.FrLimits.Rows.{FrLimitSourceCounts, FrLimitRow}
use crypto_nav_manager.FrLimits.Tables.{no_counts, build_binance_rows, build_gate_rows, sort_rows}

pub record FrLimitSource : Type 0 where
  pub strategy_slug : List ℕ
  pub host : List ℕ
  pub env_path : List ℕ
  pub exchange : List ℕ
  pub snapshot_url : List ℕ
  pub sort_order : ℕ

pub record SnapshotData (F : Type 0) : Type 0 where
  pub ts_ms : ℕ
  pub positions : List (List ℕ × SnapshotPosition F)

pub record GuardParamsLoad (F : Type 0) : Type 0 where
  pub params : GuardParams F
  pub live : Bool
  pub warnings : List (List ℕ)

pub record FrLimitEnvironment (F : Type 0) : Type 0 where
  pub strategy_slug : List ℕ
  pub exchange : List ℕ
  pub status : String
  pub snapshot_ts_ms : Option ℕ
  pub exchange_fetched_at_ms : Option ℕ
  pub params_live : Bool
  pub source_counts : FrLimitSourceCounts
  pub rows : List (FrLimitRow F)
  pub warnings : List (List ℕ)
  pub error : Option (List ℕ)
  pub sort_order : ℕ

-- What a request gives, or the text of its error.
pub data Fetched (A : Type 0) : Type 0 where
  fetched : A → Fetched A
  missed : List ℕ → Fetched A

-- The answers of one environment: whether the credentials load, the snapshot, the parameters, and the
-- exchange, with the time at which it answered.
pub record Answers (F : Type 0) : Type 0 where
  pub credentials : Fetched (Unit {0})
  pub snapshot : Fetched (SnapshotData F)
  pub params : Fetched (GuardParamsLoad F)
  pub exchange : Fetched (ExchangeData F)
  pub now_ms : ℕ

module _ {F : Type 0} where
  unfoldable pub failed_environment : FrLimitSource → List ℕ → List (List ℕ) → FrLimitEnvironment F
  failed_environment source error warnings = record {
    strategy_slug = source.strategy_slug;
    exchange = source.exchange;
    status = "error";
    snapshot_ts_ms = none;
    exchange_fetched_at_ms = none;
    params_live = false;
    source_counts = no_counts;
    rows = [];
    warnings = warnings;
    error = some error;
    sort_order = source.sort_order;
  }

  abbrev pub snapshot_warnings : Fetched (SnapshotData F) → List (List ℕ)
  snapshot_warnings (fetched s) = []
  snapshot_warnings (missed error) = (codes "snapshot unavailable: " ++ error) ∷ []

  abbrev pub snapshot_ts : Fetched (SnapshotData F) → Option ℕ
  snapshot_ts (fetched s) = some s.ts_ms
  snapshot_ts (missed error) = none

  abbrev pub snapshot_positions : Fetched (SnapshotData F) → List (List ℕ × SnapshotPosition F)
  snapshot_positions (fetched s) = s.positions
  snapshot_positions (missed error) = []

  abbrev pub count_near : List (FrLimitRow F) → ℕ
  count_near [] = 0
  count_near (row ∷ rows) = if row.near_limit then suc (count_near rows) else count_near rows

module _ {F : Type 0} (constants : Constants F) where
  unfoldable pub default_params : GuardParams F
  default_params = record {
    pending_buy = pos 0;
    pending_sell = pos 0;
    default_amount_u = constants.default_amount_u;
    amount_u_overrides = [];
  }

  unfoldable pub params_or_default : Fetched (GuardParamsLoad F) → GuardParamsLoad F
  unfolding default_params
  params_or_default (fetched load) = load
  params_or_default (missed error) = record {
    params = default_params;
    live = false;
    warnings =
        (codes "pre-trade params unavailable; exchange-limit fallback is active: " ++ error) ∷ [];
  }

abbrev pub has_none : {A : Type 0} → List A → Bool
has_none [] = true
has_none (a ∷ rest) = false

module _ {F : Type 0} ⦃f : Float F⦄ (constants : Constants F) where
  -- The rows and counts of an exchange, and its warnings.
  unfoldable pub exchange_rows :
      ExchangeData F
      → List (List ℕ × SnapshotPosition F)
      → GuardParams F
      → List (FrLimitRow F) × FrLimitSourceCounts
  unfolding build_binance_rows build_gate_rows
  exchange_rows (binance answer) snapshot params =
      build_binance_rows constants answer snapshot params
  exchange_rows (gate answer) snapshot params = build_gate_rows constants answer snapshot params

  abbrev pub exchange_warnings : ExchangeData F → List (List ℕ)
  exchange_warnings (binance answer) = answer.warnings
  exchange_warnings (gate answer) = []

  -- The environment where the credentials are there.
  unfoldable pub environment_of :
      FrLimitSource → Answers F → Fetched (ExchangeData F) → FrLimitEnvironment F
  unfolding params_or_default exchange_rows sort_rows
  environment_of source answers (missed error) =
      let load = params_or_default constants answers.params in
      record {
        strategy_slug = source.strategy_slug;
        exchange = source.exchange;
        status = "error";
        snapshot_ts_ms = snapshot_ts answers.snapshot;
        exchange_fetched_at_ms = none;
        params_live = load.live;
        source_counts = record no_counts {
          snapshot_rows = length (snapshot_positions answers.snapshot);
        };
        rows = [];
        warnings = snapshot_warnings answers.snapshot ++ load.warnings;
        error = some (codes "exchange limits unavailable: " ++ error);
        sort_order = source.sort_order;
      }
  environment_of source answers (fetched answer) =
      let load = params_or_default constants answers.params in
      let positions = snapshot_positions answers.snapshot in
      let built = exchange_rows answer positions load.params in
      let rows = sort_rows constants built.0 in
      let warnings =
        snapshot_warnings answers.snapshot ++ load.warnings ++ exchange_warnings answer in
      record {
        strategy_slug = source.strategy_slug;
        exchange = source.exchange;
        status = if count_near rows == 0 && has_none warnings then "healthy" else "warning";
        snapshot_ts_ms = snapshot_ts answers.snapshot;
        exchange_fetched_at_ms = some answers.now_ms;
        params_live = load.live;
        source_counts = record built.1 {
          snapshot_rows = length positions;
          displayed_rows = length rows;
          near_limit_rows = count_near rows;
        };
        rows = rows;
        warnings = warnings;
        error = none;
        sort_order = source.sort_order;
      }

  abbrev pub with_credentials :
      FrLimitSource → Answers F → Fetched (Unit {0}) → FrLimitEnvironment F
  with_credentials source answers (missed error) = failed_environment source error []
  with_credentials source answers (fetched u) = environment_of source answers answers.exchange

  unfoldable pub fetch_environment : FrLimitSource → Answers F → FrLimitEnvironment F
  unfolding environment_of failed_environment
  fetch_environment source answers = with_credentials source answers answers.credentials

pub record FrPositionLimitOverview (F : Type 0) : Type 0 where
  pub generated_at_ms : ℕ
  pub alert_threshold_ratio : F
  pub environments : List (FrLimitEnvironment F)

pub record CachedOverview (F : Type 0) : Type 0 where
  pub stored_at : ℕ
  pub overview : FrPositionLimitOverview F

module _ {F : Type 0} where
  abbrev pub earlier : FrLimitEnvironment F → FrLimitEnvironment F → Bool
  earlier a b = leb a.sort_order b.sort_order

module _ {F : Type 0} ⦃f : Float F⦄ (constants : Constants F) where
  unfoldable pub fetch_all :
      (FrLimitSource → Answers F) → List FrLimitSource → List (FrLimitEnvironment F)
  unfolding fetch_environment
  fetch_all ask [] = []
  fetch_all ask (source ∷ sources) =
      fetch_environment constants source (ask source) ∷ fetch_all ask sources

  -- A new overview, and the cache that keeps it: `finish` is the order in which the tasks end.
  unfoldable pub refresh :
      ℕ
      → (List (FrLimitEnvironment F) → List (FrLimitEnvironment F))
      → (FrLimitSource → Answers F)
      → List FrLimitSource
      → FrPositionLimitOverview F × Option (CachedOverview F)
  unfolding fetch_all sort_by
  refresh now finish ask sources =
      let overview : FrPositionLimitOverview F = record {
        generated_at_ms = now;
        alert_threshold_ratio = constants.alert_threshold_ratio;
        environments = sort_by earlier (finish (fetch_all ask sources));
      } in
      (overview, some (record { stored_at = now; overview = overview }))

  -- The cached overview serves for twenty seconds.
  unfoldable pub overview :
      ℕ
      → (List (FrLimitEnvironment F) → List (FrLimitEnvironment F))
      → (FrLimitSource → Answers F)
      → List FrLimitSource
      → Option (CachedOverview F)
      → FrPositionLimitOverview F × Option (CachedOverview F)
  unfolding refresh
  overview now finish ask sources none = refresh now finish ask sources
  overview now finish ask sources (some cached) =
      let again = refresh now finish ask sources in
      if ltb (now - cached.stored_at) 20000 then (cached.overview, some cached) else again
