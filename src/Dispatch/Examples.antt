-- ===== src/Dispatch/Examples.antt =====
-- Tests of the dispatcher, and its theorems at concrete inputs: two source addresses, a quota of 10.
use Prim.Native.String.{String}
use crypto_nav_manager.Base.{
  ℕ, ◌+◌, ◌==◌, ◌≡◌, refl, ◌≤◌, ◌<◌, subst, Bool-cases, ◌⊎◌, inl, inr, none, some, [], ◌∷◌, length,
  Outcome, done, failed, Bool, if◌then◌else◌, arith,
}
use crypto_nav_manager.Base.Text.{codes, trim_start, trim_end}
use crypto_nav_manager.Dispatch.{
  DispatcherConfig, default, RequestSpec, Response, DispatchError, no_available_ip, IpClient,
  PoolState,
}
use crypto_nav_manager.Dispatch.Headers.{retry_after, parse_unsigned, parse_digits}
use crypto_nav_manager.Dispatch.Pool.{
  refresh, select, is_available, ready_at, reserve_client, block_client, update_observed_weight,
}
use crypto_nav_manager.Dispatch.Reservation.{
  Grants, Refuses, reserve_client-Grants, reserve_client-of_wait,
}
use crypto_nav_manager.Dispatch.Request.{
  Turn, backoff, max_attempts, attempts, answer, give_way, dispatch,
}
use crypto_nav_manager.Dispatch.Retries.{IsOrderly, Explained, dispatch-Explained}

abbrev config : DispatcherConfig
config = record default {
  local_ips = "127.0.0.1" ∷ "::1" ∷ [];
  max_weight_per_window = 10;
  observed_weight_header = some "x-mbx-used-weight-1m";
}

abbrev ip_client : String → ℕ → IpClient ℕ
ip_client ip n = record {
  ip = ip;
  client = n;
  used_weight = 0;
  window_started_at = 0;
  blocked_until = none;
}

abbrev pool : PoolState ℕ
pool = record { clients = ip_client "127.0.0.1" 0 ∷ ip_client "::1" 1 ∷ []; next_tie_break = 0 }

abbrev Transport : Type 0
Transport = Bool

abbrev reserve :
    ℕ → ℕ → PoolState ℕ → PoolState ℕ × Outcome (DispatchError Transport) (ℕ × IpClient ℕ)
reserve = reserve_client config

reserve_client-Grants_example :
    ((i : ℕ) × (c : IpClient ℕ) × Grants Transport config 5 3 pool i c)
    ⊎ ((t : ℕ) × Refuses Transport config 5 3 pool t)
reserve_client-Grants_example = reserve_client-Grants Transport config 5 3 pool (omega arith)

-- Both addresses have used up their quota.
abbrev drained : PoolState ℕ
drained = (reserve 2 10 (reserve 1 10 pool).0).0

parses_retry_after_seconds :
    retry_after (record { status = 429; header = λ _. some (codes " 17\t") }) ≡ some 17000000000
unfolding retry_after parse_unsigned parse_digits trim_start trim_end
parses_retry_after_seconds = refl

drained_size : 0 < length drained.clients
unfolding reserve_client is_available
drained_size = omega arith

drained_waits : reserve 3 1 drained ≡ (drained, failed (no_available_ip (some 59999999997)))
unfolding reserve_client refresh select is_available ready_at
drained_waits = refl

reserve_client-of_wait_example :
    (i : ℕ) × (c : IpClient ℕ) × Grants Transport config (3 + 59999999997) 1 drained i c
reserve_client-of_wait_example =
    reserve_client-of_wait Transport config 3 1 59999999997 drained drained drained_size
      (omega arith) (omega arith) drained_waits

abbrev spec : RequestSpec
spec = record { method = "GET"; url = "/"; headers = []; body = none; weight = 4 }

abbrev answered : ℕ → Response
answered c = record { status = if c == 0 then 429 else 200; header = λ _. none }

-- The first address is told to go slow, the second one answers.
abbrev turns : ℕ → Turn Transport ℕ
turns k = record {
  before = λ s. s;
  reserved_at = k;
  send = λ c _. inr (answered c);
  during = λ s. s;
  between = λ s. s;
  blocked_at = 7;
}

short_wait : (c : ℕ) → 7 + backoff config (answered c) ≤ 1000000000000
unfolding backoff retry_after
short_wait c = elim (Bool-cases (c == 0)) [
  | inl e ↦ rw e (omega arith)
  | inr e ↦ rw e (omega arith)
]

turns-IsOrderly : IsOrderly 1000000000000 config spec turns
unfolding backoff retry_after
turns-IsOrderly = record {
  before = λ k s. refl;
  during = λ k s. refl;
  between = λ k s. refl;
  in_time = λ k c r e.
      let q : answered c ≡ r = cc in
      subst (λ x. 7 + backoff config x ≤ 1000000000000) q (short_wait c);
}

-- The request is sent again through the other address.
retries_elsewhere :
    (dispatch 1000000000000 config spec turns pool).1
    ≡ done (record { local_ip = "::1"; attempts = 2; response = answered 1 })
unfolding dispatch attempts answer give_way backoff retry_after max_attempts reserve_client refresh
    select is_available block_client update_observed_weight
retries_elsewhere = refl

dispatch-Explained_example :
    Explained 1000000000000 config spec turns (dispatch 1000000000000 config spec turns pool).1
dispatch-Explained_example =
    dispatch-Explained 1000000000000 config spec turns pool turns-IsOrderly (omega arith)
