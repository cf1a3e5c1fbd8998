-- ===== src/Matching/State.antt =====
-- src/intra_order_match.rs: access to the maps and queues of the engine, and the state of an order.
use Prim.Native.String.{String}
use crypto_nav_manager.Base.{
  Bool, true, false, ◌&&◌, ◌||◌, Option, none, some, List, [], ◌∷◌, ◌++◌, Outcome, done, panicked,
  if◌then◌else◌,
}
use crypto_nav_manager.Base.Int.{ℤ, pos, max_ℤ, eqb_ℤ}
use crypto_nav_manager.Base.Maps.{lookup, insert}
use crypto_nav_manager.Float.{Float}
use crypto_nav_manager.Matching.{
  Side, MatchingState, pending, completed, netted, mixed, MarginOrder, HedgeTiming, MatchError,
  MatchEngine, int_key, queue_key, pair_eq, timing_before,
}

-- The key of the first entry of a queue, if there is one.
abbrev pub front : Option (List ℤ) → Option ℤ
front none = none
front (some []) = none
front (some (k ∷ ks)) = some k

abbrev pub queue_of : Option (List ℤ) → List ℤ
queue_of none = []
queue_of (some ks) = ks

abbrev pub tail : List ℤ → List ℤ
tail [] = []
tail (k ∷ ks) = ks

abbrev pub is_member : ℤ × ℤ → List (ℤ × ℤ) → Bool
is_member p [] = false
is_member p (q ∷ qs) = pair_eq q p || is_member p qs

abbrev pub count_or_zero : Option ℤ → ℤ
count_or_zero none = pos 0
count_or_zero (some n) = n

-- The later of a recorded fill and an incoming one.
abbrev pub later_fill : Option ℤ → ℤ → ℤ
later_fill none ts = ts
later_fill (some old) ts = max_ℤ old ts

abbrev pub is_key : Option ℤ → ℤ → Bool
is_key none k = false
is_key (some j) k = eqb_ℤ j k

abbrev pub has_fill : Option ℤ → Bool
has_fill none = false
has_fill (some ts) = true

-- Whether an incoming first hedge takes the place of the recorded one.
abbrev pub is_replaced : Option HedgeTiming → HedgeTiming → Bool
is_replaced none incoming = true
is_replaced (some current) incoming = timing_before incoming current

-- `i64::MIN`.
abbrev pub i64_min : ℤ
i64_min = ℤ.negsuc 9_223_372_036_854_775_807

module _ {F : Type 0} ⦃f : Float F⦄ where
  open f use {nought, add, sub, mul, neg, abs, min, max, lt, le, is_finite}

  unfoldable pub clamp_zero : F → F → F
  clamp_zero value epsilon = if le (abs value) epsilon then nought else value

  unfoldable pub state_of : F → F → F → F → MatchingState
  state_of epsilon remaining camount netted_amount =
      if lt epsilon remaining
      then pending
      else if lt epsilon camount && lt epsilon netted_amount
      then mixed
      else if lt epsilon camount
      then completed
      else netted

  unfoldable pub refresh_state : MarginOrder F → F → MarginOrder F
  unfolding state_of
  refresh_state o epsilon = record o {
    matching_state = state_of epsilon o.remaining_amount o.camount o.netted_amount;
  }

module _ {F : Type 0} where
  abbrev pub with_timing : MarginOrder F → HedgeTiming → MarginOrder F
  with_timing o t = record o {
    hts = some t.create_ts_us;
    hedge_new_ts_us = t.new_ts_us;
    hedge_terminal_ts_us = t.terminal_ts_us;
  }

  -- `self.orders[&fkey]` and `self.orders.get_mut(&fkey).unwrap()`.
  unfoldable pub index : MatchEngine F → ℤ → Outcome MatchError (MarginOrder F)
  index e k = elim (lookup k e.orders) [ none ↦ panicked | some o ↦ done o ]

  abbrev pub put : MatchEngine F → ℤ → MarginOrder F → MatchEngine F
  put e k o = record e { orders = insert k o e.orders }

  abbrev pub queue : MatchEngine F → String × Side → List ℤ
  queue e key = queue_of (lookup key e.queues)

  abbrev pub push_back : MatchEngine F → String × Side → ℤ → MatchEngine F
  push_back e key k = record e { queues = insert key (queue e key ++ k ∷ []) e.queues }

  abbrev pub pop_front : MatchEngine F → String × Side → MatchEngine F
  pop_front e key = record e { queues = insert key (tail (queue e key)) e.queues }
