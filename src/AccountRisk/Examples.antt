-- ===== src/AccountRisk/Examples.antt =====
-- Tests of the account risk cache, and its theorems at concrete inputs: an `f64` is the whole number
-- of its bytes.
use crypto_nav_manager.Base.{ℕ, ◌≡◌, refl, ◌⊎◌, none, some, List, [], ◌∷◌, ◌++◌, replicate, done}
use crypto_nav_manager.Base.Int.{pos}
use crypto_nav_manager.Base.Maps.{lookup, insert}
use crypto_nav_manager.Base.Text.{bytes_key, codes}
use crypto_nav_manager.Float.Sample.{Sample, sample_float, units}
use crypto_nav_manager.AccountRisk.{AccountRiskReading, Limits, gate_unified, decode}
use crypto_nav_manager.AccountRisk.Wire.{
  decode_account_risk, decode_body, read_u32, read_i64, read_f64, read_array, read_reading,
  le_value, signed, slice, validate, check_amounts, is_ratio,
}
use crypto_nav_manager.AccountRisk.Cache.{start, update, risk_level_of}
use crypto_nav_manager.AccountRisk.Decoding.{EndsIn, IsDecoded, decode_account_risk-EndsIn}
use crypto_nav_manager.AccountRisk.Newest.{Update, run, CameWith, NoneAfter, Untold, update-newest}

abbrev limits : Limits Sample
limits = record {
  epsilon = units 0;
  infinity = units 1000000;
  free_above = units 15;
  warning_above = units 12;
  reduce_above = units 10;
}

abbrev eight : ℕ → List ℕ
eight b = b ∷ replicate 7 0

abbrev body : List ℕ
body =
    (167 ∷ 15 ∷ 0 ∷ 0 ∷ [])
    ++ eight 9
    ++ eight 100
    ++ eight 101
    ++ eight 50
    ++ eight 12
    ++ eight 20
    ++ eight 25
    ++ eight 30

abbrev event : List ℕ
event = (167 ∷ 15 ∷ 0 ∷ 0 ∷ []) ++ (11 ∷ 0 ∷ 0 ∷ 0 ∷ []) ++ (68 ∷ 0 ∷ 0 ∷ 0 ∷ []) ++ body

abbrev reading : ℕ → ℕ → AccountRiskReading Sample
reading time received = record {
  source_ts_ms = pos time;
  scope = gate_unified;
  adjusted_equity_usd = units 100;
  actual_equity_usd = units 101;
  maintenance_margin_usd = units 50;
  initial_margin_usd = units 12;
  margin_ratio = units 20;
  borrowed_usd = units 25;
  notional_usd = units 30;
  received_at_ms = received;
}

decodes_the_wire_format : decode_account_risk units limits event ≡ done (some (reading 9 0))
unfolding decode_account_risk decode_body read_u32 read_i64 read_f64 read_array read_reading
    le_value signed slice validate check_amounts is_ratio decode
decodes_the_wire_format = refl

decode_account_risk-EndsIn_example :
    EndsIn (IsDecoded units limits) (decode_account_risk units limits event)
decode_account_risk-EndsIn_example = decode_account_risk-EndsIn units limits event

abbrev updates : List (Update Sample)
updates = (codes "gate_mm", reading 8 0, 70) ∷ (codes "gate_mm", reading 9 0, 60) ∷ []

-- A late reading that is older is dropped.
keeps_the_newest :
    lookup (codes "gate_mm") (run {F = Sample} [] updates).readings ≡ some (reading 9 60)
unfolding lookup insert start update
keeps_the_newest = refl

a_low_ratio_is_liquidated :
    risk_level_of limits (record (reading 9 0) { margin_ratio = units 5 }) ≡ "liquidation"
unfolding risk_level_of
a_low_ratio_is_liquidated = refl

update-newest_example :
    ((lookup (codes "gate_mm") (run [] updates).readings ≡ none) × Untold updates (codes "gate_mm"))
    ⊎ ((r : AccountRiskReading Sample) × (lookup (codes "gate_mm") (run [] updates).readings
          ≡ some r)
        × CameWith updates (codes "gate_mm") r
        × NoneAfter updates (codes "gate_mm") r.source_ts_ms)
update-newest_example = update-newest [] updates (codes "gate_mm")
