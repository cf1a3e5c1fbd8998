-- ===== src/Matching.antt =====
-- src/intra_order_match.rs: sides, orders, events and the state of the matching engine. An `i64` is
-- an integer; the counters are not taken to reach 2^63.
pub mod State
pub mod History
pub mod Engine
pub mod Load
pub mod Levels
pub mod Soundness
pub mod Rounds
pub mod Netting
pub mod Hedging
pub mod Counting
pub mod Recording
pub mod Margin
pub mod Futures
pub mod Batch
pub mod Examples
use Prim.Native.String.{String}
use text.Mathlib.Text.{◌==◌ as str_eq}
use text.Mathlib.TextEquality.{eq_iff}
use crypto_nav_manager.Base.{
  ℕ, ◌≡◌, ◌↔◌, Bool, true, false, ◌&&◌, not, Option, none, some, List, arith, ltb, if◌then◌else◌,
}
use crypto_nav_manager.Base.Int.{ℤ, ◌-ℤ◌, ltb_ℤ, leb_ℤ, eqb_ℤ, eqb_ℤ_iff}
use crypto_nav_manager.Base.Maps.{Key}
use crypto_nav_manager.Base.Text.{codes, to_ascii_lowercase, bytes_eq}
use crypto_nav_manager.Float.{Float}

pub data Side : Type 0 where
  buy sell : Side

abbrev pub side_eq : Side → Side → Bool
side_eq buy buy = true
side_eq sell sell = true
side_eq _ _ = false

unfoldable pub as_str : Side → List ℕ
as_str buy = codes "buy"
as_str sell = codes "sell"

-- `none` is the refusal of an unsupported side.
unfoldable pub parse : List ℕ → Option Side
parse value =
    let lower = to_ascii_lowercase value in
    if bytes_eq lower (codes "buy")
    then some buy
    else if bytes_eq lower (codes "sell")
    then some sell
    else none

unfoldable pub opposite : Side → Side
opposite buy = sell
opposite sell = buy

pub data MatchingState : Type 0 where
  pending completed netted mixed : MatchingState

pub state_as_str : MatchingState → List ℕ
state_as_str pending = codes "pending"
state_as_str completed = codes "completed"
state_as_str netted = codes "netted"
state_as_str mixed = codes "mixed"

pub record MarginOrder (F : Type 0) : Type 0 where
  pub fkey : ℤ
  pub symbol : String
  pub side : Side
  pub cts : ℤ
  pub open_uts : ℤ
  pub open_mkt_ts_us : Option ℤ
  pub open_new_ts_us : Option ℤ
  pub open_terminal_ts_us : Option ℤ
  pub open_terminal_ts_local_us : Option ℤ
  pub hts : Option ℤ
  pub hedge_new_ts_us : Option ℤ
  pub hedge_terminal_ts_us : Option ℤ
  pub fts : Option ℤ
  pub close_count : ℤ
  pub price : F
  pub amount : F
  pub range : F
  pub tlen : Option F
  pub open_fill_amount : F
  pub remaining_amount : F
  pub camount : F
  pub netted_amount : F
  pub close_notional : F
  pub matching_state : MatchingState
  pub open_source_ts_us : ℤ

pub record FuturesOrder (F : Type 0) : Type 0 where
  pub client_order_id : ℤ
  pub main_fkey : Option ℤ
  pub symbol : String
  pub side : Side
  pub create_ts_us : ℤ
  pub update_ts_us : ℤ
  pub new_ts_us : Option ℤ
  pub terminal_ts_us : Option ℤ
  pub fill_ts_us : Option ℤ
  pub source_ts_us : ℤ
  pub amount : F
  pub cprice : Option F
  pub event_count : ℤ

pub record HedgeTiming : Type 0 where
  pub client_order_id : ℤ
  pub create_ts_us : ℤ
  pub new_ts_us : Option ℤ
  pub terminal_ts_us : Option ℤ
  pub source_ts_us : ℤ

pub record HedgeHistory : Type 0 where
  pub main_fkey : ℤ
  pub first_order : HedgeTiming
  pub last_fill_ts_us : Option ℤ
  pub order_count : ℤ

pub data MatchEvent (F : Type 0) : Type 0 where
  margin : MarginOrder F → MatchEvent F
  futures : FuturesOrder F → MatchEvent F

pub record HedgeResult (F : Type 0) : Type 0 where
  pub order : FuturesOrder F
  pub allocated_amount : F
  pub unallocated_amount : F
  pub anchor_matched : Bool

pub data MatchError : Type 0 where
  bad_epsilon : MatchError
  non_pending duplicate_pending no_real_fill duplicate_margin : ℤ → MatchError
  invalid_fill no_fill_timestamp : ℤ → MatchError

-- `BTreeMap`s as association lists; a queue is listed front first.
pub record MatchEngine (F : Type 0) : Type 0 where
  pub epsilon : F
  pub orders : List (ℤ × MarginOrder F)
  pub queues : List ((String × Side) × List ℤ)
  pub first_hedge_timing : List (ℤ × HedgeTiming)
  pub last_hedge_fill_ts_us : List (ℤ × ℤ)
  pub hedge_order_counts : List (ℤ × ℤ)
  pub seen_hedge_orders : List (ℤ × ℤ)

instance abbrev pub int_key : Key ℤ
int_key = record { beq = eqb_ℤ; before = ltb_ℤ; beq_iff = eqb_ℤ_iff }

abbrev queue_key_eq : String × Side → String × Side → Bool
queue_key_eq (s, d) (t, e) = str_eq s t && side_eq d e

pub queue_key_eq_iff : (a b : String × Side) → (queue_key_eq a b ≡ true) ↔ (a ≡ b)
queue_key_eq_iff (s, buy) (t, buy) = ground (arith, eq_iff s t)
queue_key_eq_iff (s, buy) (t, sell) = ground (arith, eq_iff s t)
queue_key_eq_iff (s, sell) (t, buy) = ground (arith, eq_iff s t)
queue_key_eq_iff (s, sell) (t, sell) = ground (arith, eq_iff s t)

-- The map of the queues is never listed, so that the order of its keys does not show.
instance abbrev pub queue_key : Key (String × Side)
queue_key = record { beq = queue_key_eq; before = λ _ _. false; beq_iff = queue_key_eq_iff }

abbrev pub pair_eq : ℤ × ℤ → ℤ × ℤ → Bool
pair_eq (a, b) (c, d) = eqb_ℤ a c && eqb_ℤ b d

-- `timing < timing'` on the sort keys of two hedges.
unfoldable pub timing_before : HedgeTiming → HedgeTiming → Bool
timing_before a b =
    if ltb_ℤ a.create_ts_us b.create_ts_us
    then true
    else if ltb_ℤ b.create_ts_us a.create_ts_us
    then false
    else if ltb_ℤ a.source_ts_us b.source_ts_us
    then true
    else if ltb_ℤ b.source_ts_us a.source_ts_us
    then false
    else ltb_ℤ a.client_order_id b.client_order_id

-- `<=` on tuples, first components first.
abbrev pub key_le : ℤ × ℤ × ℕ × ℤ → ℤ × ℤ × ℕ × ℤ → Bool
key_le (a, b, c, d) (a', b', c', d') =
    if ltb_ℤ a a'
    then true
    else if ltb_ℤ a' a
    then false
    else if ltb_ℤ b b'
    then true
    else if ltb_ℤ b' b
    then false
    else if ltb c c'
    then true
    else if ltb c' c
    then false
    else leb_ℤ d d'

module _ {F : Type 0} where
  unfoldable pub sort_key : MatchEvent F → ℤ × ℤ × ℕ × ℤ
  sort_key (margin order) = (order.open_uts, order.open_source_ts_us, 0, order.fkey)
  sort_key (futures order) = (order.create_ts_us, order.source_ts_us, 1, order.client_order_id)

  unfoldable pub event_le : MatchEvent F → MatchEvent F → Bool
  unfolding sort_key
  event_le a b = key_le (sort_key a) (sort_key b)

  unfoldable pub pending_le : MarginOrder F → MarginOrder F → Bool
  pending_le a b =
      key_le (a.open_uts, a.open_source_ts_us, 0, a.fkey)
        (b.open_uts, b.open_source_ts_us, 0, b.fkey)

module _ {F : Type 0} ⦃f : Float F⦄ where
  open f use {nought, sub, div, lt, eq}

  unfoldable pub cprice : MarginOrder F → Option F
  cprice o = if lt nought o.camount then some (div o.close_notional o.camount) else none

  pub holding : MarginOrder F → ℤ
  holding o = o.open_uts -ℤ o.cts

  pub holding_close : MarginOrder F → Option ℤ
  holding_close o = elim o.fts [ none ↦ none | some fts ↦ some (fts -ℤ o.open_uts) ]

  -- The PnL ratio of a closed order on its side, at a closing price.
  pnlu_at : Side → F → F → Option F
  pnlu_at buy price close =
      if not (eq close nought) then some (div (sub close price) close) else none
  pnlu_at sell price close =
      if not (eq price nought) then some (div (sub price close) price) else none

  pub pnlu : MarginOrder F → Option F
  unfolding pnlu_at cprice
  pnlu o = elim (cprice o) [ none ↦ none | some close ↦ pnlu_at o.side o.price close ]
