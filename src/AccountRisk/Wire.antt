-- ===== src/AccountRisk/Wire.antt =====
-- `decode_account_risk` of src/account_risk.rs: an event of the account monitors, byte by byte. An
-- `f64` is made of its eight bytes by the parameter `of_bits`.
use Prim.Native.String.{String}
use crypto_nav_manager.Base.{
  ℕ, ◌+◌, ◌-◌, ◌*◌, ◌^◌, ltb, leb, ◌==◌, Bool, ◌&&◌, ◌||◌, not, Option, none, some, List, [], ◌∷◌,
  length, take, drop, Outcome, done, failed, panicked, ◌>>=◌, if◌then◌else◌,
}
use crypto_nav_manager.Base.Int.{ℤ, pos, ◌-ℤ◌, leb_ℤ}
use crypto_nav_manager.Float.{Float}
use crypto_nav_manager.AccountRisk.{AccountScope, decode, AccountRiskReading, Limits}

abbrev pub event_type : ℕ
event_type = 4007

abbrev pub header_bytes : ℕ
header_bytes = 12

abbrev pub legacy_body_bytes : ℕ
legacy_body_bytes = 4 + 8 + 8 * 7

abbrev pub body_bytes : ℕ
body_bytes = legacy_body_bytes + 8

pub data WireError : Type 0 where
  too_short : ℕ → WireError
  truncated_at : ℕ → WireError
  unsupported_scope : ℕ → WireError
  unsupported_length : ℕ → WireError
  truncated_event : ℕ → ℕ → WireError
  inner_type : WireError
  bad_timestamp : WireError
  not_finite : String → WireError

-- The number in little-endian bytes.
unfoldable pub le_value : List ℕ → ℕ
le_value [] = 0
le_value (b ∷ bs) = b + 256 * le_value bs

unfoldable pub read_array : ℕ → List ℕ → ℕ → Outcome WireError (List ℕ)
read_array n bytes offset =
    if leb (offset + n) (length bytes)
    then done (take n (drop offset bytes))
    else failed (truncated_at offset)

unfoldable pub read_u32 : List ℕ → ℕ → Outcome WireError ℕ
read_u32 bytes offset = read_array 4 bytes offset >>= λ part. done (le_value part)

-- Two's complement.
unfoldable pub signed : ℕ → ℤ
signed n = if ltb n (2 ^ 63) then pos n else pos n -ℤ pos (2 ^ 64)

unfoldable pub read_i64 : List ℕ → ℕ → Outcome WireError ℤ
read_i64 bytes offset = read_array 8 bytes offset >>= λ part. done (signed (le_value part))

-- `data[from..to]`, which panics out of range.
unfoldable pub slice : List ℕ → ℕ → ℕ → Outcome WireError (List ℕ)
slice bytes from to =
    if leb from to && leb to (length bytes)
    then done (take (to - from) (drop from bytes))
    else panicked

module _ {F : Type 0} ⦃f : Float F⦄ (of_bits : ℕ → F) (limits : Limits F) where
  unfoldable pub read_f64 : List ℕ → ℕ → Outcome WireError F
  read_f64 bytes offset = read_array 8 bytes offset >>= λ part. done (of_bits (le_value part))

  unfoldable pub read_reading : List ℕ → AccountScope → Outcome WireError (AccountRiskReading F)
  read_reading body scope = do
    source_ts_ms ← read_i64 body 4
    adjusted_equity_usd ← read_f64 body 12
    actual_equity_usd ← read_f64 body 20
    maintenance_margin_usd ← read_f64 body 28
    initial_margin_usd ← read_f64 body 36
    margin_ratio ← read_f64 body 44
    borrowed_usd ← read_f64 body 52
    notional_usd ← read_f64 body 60
    done (record {
      source_ts_ms = source_ts_ms;
      scope = scope;
      adjusted_equity_usd = adjusted_equity_usd;
      actual_equity_usd = actual_equity_usd;
      maintenance_margin_usd = maintenance_margin_usd;
      initial_margin_usd = initial_margin_usd;
      margin_ratio = margin_ratio;
      borrowed_usd = borrowed_usd;
      notional_usd = notional_usd;
      received_at_ms = 0;
    })

  abbrev pub is_amount : F → Bool
  is_amount value = f.is_finite value || f.is_nan value

  unfoldable pub check_amounts : List (String × F) → Outcome WireError (Unit {0})
  check_amounts [] = done tt
  check_amounts ((name, value) ∷ rest) =
      if is_amount value then check_amounts rest else failed (not_finite name)

  abbrev pub amounts : AccountRiskReading F → List (String × F)
  amounts r =
      ("adjusted_equity_usd", r.adjusted_equity_usd)
      ∷ ("actual_equity_usd", r.actual_equity_usd)
      ∷ ("maintenance_margin_usd", r.maintenance_margin_usd)
      ∷ ("initial_margin_usd", r.initial_margin_usd)
      ∷ ("borrowed_usd", r.borrowed_usd)
      ∷ ("notional_usd", r.notional_usd)
      ∷ []

  unfoldable pub is_ratio : AccountRiskReading F → Bool
  is_ratio r =
      f.is_finite r.margin_ratio
      || f.le r.maintenance_margin_usd limits.epsilon && f.eq r.margin_ratio limits.infinity

  unfoldable pub validate : AccountRiskReading F → Outcome WireError (Option (AccountRiskReading F))
  unfolding check_amounts is_ratio
  validate r =
      if leb_ℤ r.source_ts_ms (pos 0)
      then failed bad_timestamp
      else check_amounts (amounts r) >>= λ _.
          if is_ratio r then done (some r) else failed (not_finite "margin_ratio")

  -- What follows the header of an event of the right type.
  unfoldable pub decode_body :
      List ℕ → AccountScope → ℕ → Outcome WireError (Option (AccountRiskReading F))
  unfolding slice
  decode_body bytes scope body_len =
      if not (body_len == legacy_body_bytes) && not (body_len == body_bytes)
      then failed (unsupported_length body_len)
      else if ltb (length bytes) (header_bytes + body_len)
      then failed (truncated_event (length bytes) (header_bytes + body_len))
      else slice bytes header_bytes (header_bytes + body_len) >>= λ body.
          read_u32 body 0 >>= λ inner.
          if not (inner == event_type)
          then failed inner_type
          else read_reading body scope >>= validate

  unfoldable pub decode_account_risk : List ℕ → Outcome WireError (Option (AccountRiskReading F))
  unfolding decode_body
  decode_account_risk bytes =
      if ltb (length bytes) header_bytes
      then failed (too_short (length bytes))
      else read_u32 bytes 0 >>= λ kind.
          if not (kind == event_type)
          then done none
          else read_u32 bytes 4 >>= λ value. elim (decode value) [
            | none ↦ failed (unsupported_scope value)
            | some scope ↦ read_u32 bytes 8 >>= decode_body bytes scope
          ]
