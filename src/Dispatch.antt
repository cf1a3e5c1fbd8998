-- ===== src/Dispatch.antt =====
-- src/rest_dispatcher.rs: the configuration, the requests and the state of the pool of source
-- addresses. Instants and durations are nanoseconds; a `Client` handle is of any type `C`, and
-- building one and sending through it are parameters.
pub mod Headers
pub mod Pool
pub mod Request
pub mod Retries
pub mod Selection
pub mod Reservation
pub mod Quota
pub mod Examples
use Prim.Native.String.{String}
use crypto_nav_manager.Base.{
  ℕ, suc, ◌*◌, ◌==◌, Option, none, some, List, [], ◌∷◌, ◌++◌, Outcome, done, failed, panicked,
  stuck, ◌>>=◌, if◌then◌else◌,
}

pub record DispatcherConfig : Type 0 where
  pub local_ips : List String
  pub max_weight_per_window : ℕ
  pub window : ℕ
  pub request_timeout : ℕ
  pub tcp_keepalive : Option ℕ
  pub cooldown_429 : ℕ
  pub backoff_418 : ℕ
  pub max_rate_limit_retries : ℕ
  pub observed_weight_header : Option String

abbrev pub from_secs : ℕ → ℕ
from_secs n = n * 1000000000

abbrev pub default : DispatcherConfig
default = record {
  local_ips = [];
  max_weight_per_window = 1200;
  window = from_secs 60;
  request_timeout = from_secs 10;
  tcp_keepalive = some (from_secs 30);
  cooldown_429 = from_secs 60;
  backoff_418 = from_secs 120;
  max_rate_limit_retries = 1;
  observed_weight_header = none;
}

pub record RequestSpec : Type 0 where
  pub method : String
  pub url : String
  pub headers : List (String × String)
  pub body : Option (List ℕ)
  pub weight : ℕ

pub new_request : String → String → RequestSpec
new_request method url = record {
  method = method;
  url = url;
  headers = [];
  body = none;
  weight = 1;
}

-- A response as far as the dispatcher reads it: the status, and the text of a header that is there
-- and is text (`get` and `to_str`).
pub record Response : Type 0 where
  pub status : ℕ
  pub header : String → Option (List ℕ)

pub record DispatchResponse : Type 0 where
  pub local_ip : String
  pub attempts : ℕ
  pub response : Response

-- `X` are the errors of the transport.
pub data DispatchError (X : Type 0) : Type 0 where
  invalid_config : String → DispatchError X
  weight_exceeds_limit : ℕ → ℕ → DispatchError X
  no_available_ip : Option ℕ → DispatchError X
  request : String → X → DispatchError X
  rate_limited : String → ℕ → ℕ → DispatchError X

pub record IpClient (C : Type 0) : Type 0 where
  pub ip : String
  pub client : C
  pub used_weight : ℕ
  pub window_started_at : ℕ
  pub blocked_until : Option ℕ

pub record PoolState (C : Type 0) : Type 0 where
  pub clients : List (IpClient C)
  pub next_tie_break : ℕ

module _ {X : Type 0} where
  unfoldable pub validate : DispatcherConfig → Outcome (DispatchError X) (Unit {0})
  validate config = elim config.local_ips [
    | [] ↦ failed (invalid_config "at least one local IP is required")
    | _ ∷ _ ↦
        if config.max_weight_per_window == 0
        then failed (invalid_config "max_weight_per_window must be greater than zero")
        else if config.window == 0
        then failed (invalid_config "window must be greater than zero")
        else done tt
  ]

module _ {X C : Type 0} (build : DispatcherConfig → String → Outcome String C) (now : ℕ → ℕ) where
  -- The clients of the addresses from number `i` on; a failure to build one is told by its text.
  unfoldable pub build_clients :
      DispatcherConfig → ℕ → List String → Outcome (DispatchError X) (List (IpClient C))
  build_clients config i [] = done []
  build_clients config i (ip ∷ ips) = elim (build config ip) [
    | done c ↦ build_clients config (suc i) ips >>= λ rest. done (
        record {
          ip = ip;
          client = c;
          used_weight = 0;
          window_started_at = now i;
          blocked_until = none;
        }
        ∷ rest)
    | failed text ↦ failed (invalid_config text)
    | panicked ↦ panicked
    | stuck ↦ stuck
  ]

  unfoldable pub new : DispatcherConfig → Outcome (DispatchError X) (PoolState C)
  unfolding validate build_clients
  new config = validate config >>= λ _. build_clients config 0 config.local_ips >>= λ clients.
      done (record { clients = clients; next_tie_break = 0 })
