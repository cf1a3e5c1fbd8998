-- ===== src/AccountRisk/Cache.antt =====
-- `AccountRiskCache` of src/account_risk.rs under its lock: the connections and the latest readings,
-- and the snapshots of them. The lock is not taken to be poisoned.
use Prim.Native.String.{String}
use crypto_nav_manager.Base.{
  ℕ, ◌-◌, ltb, Bool, true, false, Option, none, some, List, [], ◌∷◌, map, if◌then◌else◌,
}
use crypto_nav_manager.Base.Int.{ℤ, ltb_ℤ}
use crypto_nav_manager.Base.Maps.{lookup, insert}
use crypto_nav_manager.Base.Sort.{sort_by}
use crypto_nav_manager.Base.Text.{bytes_before, bytes_key}
use crypto_nav_manager.Float.{Float}
use crypto_nav_manager.AccountRisk.{AccountRiskFeed, as_str, AccountRiskReading, Limits}

pub record CacheState (F : Type 0) : Type 0 where
  pub connected : List (List ℕ × Bool)
  pub readings : List (List ℕ × AccountRiskReading F)

pub record AccountRiskSnapshot (F : Type 0) : Type 0 where
  pub strategy_slug : List ℕ
  pub exchange : List ℕ
  pub connected : Bool
  pub status : String
  pub risk_level : Option String
  pub scope : Option (List ℕ)
  pub source_ts_ms : Option ℤ
  pub received_at_ms : Option ℕ
  pub uni_mmr : Option F
  pub adjusted_equity_usd : Option F
  pub actual_equity_usd : Option F
  pub maintenance_margin_usd : Option F
  pub initial_margin_usd : Option F
  pub borrowed_usd : Option F
  pub notional_usd : Option F

abbrev pub stale_after_ms : ℕ
stale_after_ms = 90000

abbrev pub field : {A B : Type 0} → (A → B) → Option A → Option B
field g none = none
field g (some a) = some (g a)

abbrev pub feed_le : AccountRiskFeed → AccountRiskFeed → Bool
feed_le a b =
    if ltb_ℤ a.sort_order b.sort_order
    then true
    else if ltb_ℤ b.sort_order a.sort_order
    then false
    else if bytes_before b.strategy_slug a.strategy_slug
    then false
    else true

abbrev pub unconnected : List AccountRiskFeed → List (List ℕ × Bool)
unconnected [] = []
unconnected (feed ∷ feeds) = insert feed.strategy_slug false (unconnected feeds)

module _ {F : Type 0} where
  unfoldable pub start : List AccountRiskFeed → CacheState F
  start feeds = record { connected = unconnected feeds; readings = [] }

  unfoldable pub set_connected : List ℕ → Bool → CacheState F → CacheState F
  set_connected slug connected s = record s { connected = insert slug connected s.connected }

  abbrev pub is_newer : Option (AccountRiskReading F) → AccountRiskReading F → Bool
  is_newer none reading = false
  is_newer (some existing) reading = ltb_ℤ reading.source_ts_ms existing.source_ts_ms

  -- A reading older than the one that is there is dropped.
  unfoldable pub update : List ℕ → AccountRiskReading F → ℕ → CacheState F → CacheState F
  update slug reading now_ms s = if is_newer (lookup slug s.readings) reading then s else record s {
    readings = insert slug (record reading { received_at_ms = now_ms }) s.readings;
  }

  abbrev pub is_stale : Option (AccountRiskReading F) → ℕ → Bool
  is_stale none now_ms = false
  is_stale (some r) now_ms = ltb stale_after_ms (now_ms - r.received_at_ms)

  unfoldable pub status_of : Bool → Option (AccountRiskReading F) → ℕ → String
  status_of false reading now_ms = "unavailable"
  status_of true none now_ms = "waiting"
  status_of true (some r) now_ms = if is_stale (some r) now_ms then "stale" else "live"

module _ {F : Type 0} ⦃f : Float F⦄ (limits : Limits F) where
  unfoldable pub risk_level_of : AccountRiskReading F → String
  risk_level_of r =
      if f.le r.maintenance_margin_usd limits.epsilon
      then "free_trade"
      else if f.lt limits.free_above r.margin_ratio
      then "free_trade"
      else if f.lt limits.warning_above r.margin_ratio
      then "warning"
      else if f.lt limits.reduce_above r.margin_ratio
      then "reduce_only"
      else "liquidation"

  unfoldable pub uni_mmr_of : Option (AccountRiskReading F) → Option F
  uni_mmr_of none = none
  uni_mmr_of (some r) =
      if f.lt limits.epsilon r.maintenance_margin_usd then some r.margin_ratio else none

  unfoldable pub snapshot_for_feed :
      AccountRiskFeed → Bool → Option (AccountRiskReading F) → ℕ → AccountRiskSnapshot F
  unfolding status_of risk_level_of uni_mmr_of
  snapshot_for_feed feed connected reading now_ms = record {
    strategy_slug = feed.strategy_slug;
    exchange = feed.exchange;
    connected = connected;
    status = status_of connected reading now_ms;
    risk_level = field risk_level_of reading;
    scope = field (λ r. as_str r.scope) reading;
    source_ts_ms = field (λ r. r.source_ts_ms) reading;
    received_at_ms = field (λ r. r.received_at_ms) reading;
    uni_mmr = uni_mmr_of reading;
    adjusted_equity_usd = field (λ r. r.adjusted_equity_usd) reading;
    actual_equity_usd = field (λ r. r.actual_equity_usd) reading;
    maintenance_margin_usd = field (λ r. r.maintenance_margin_usd) reading;
    initial_margin_usd = field (λ r. r.initial_margin_usd) reading;
    borrowed_usd = field (λ r. r.borrowed_usd) reading;
    notional_usd = field (λ r. r.notional_usd) reading;
  }

  abbrev pub is_connected : Option Bool → Bool
  is_connected none = false
  is_connected (some b) = b

  unfoldable pub snapshots : List AccountRiskFeed → ℕ → CacheState F → List (AccountRiskSnapshot F)
  unfolding snapshot_for_feed
  snapshots feeds now_ms s =
      map
        (λ (feed : AccountRiskFeed).
          snapshot_for_feed feed (is_connected (lookup feed.strategy_slug s.connected))
            (lookup feed.strategy_slug s.readings) now_ms)
        (sort_by feed_le feeds)
