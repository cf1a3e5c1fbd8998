-- ===== src/Dispatch/Quota.antt =====
-- src/rest_dispatcher.rs: the pool under any order of the calls of concurrent requests. Each call
-- holds the lock of the pool, so a run is a sequence of them.
use crypto_nav_manager.Base.{
  ℕ, ◌+◌, ◌-◌, ◌≤◌, ◌<◌, leb, ◌==◌, ◌≡◌, none, some, length, get_elem?, done, failed, if◌then◌else◌,
}
use crypto_nav_manager.Dispatch.{DispatcherConfig, DispatchError, Response, IpClient, PoolState}
use crypto_nav_manager.Dispatch.Pool.{reserve_client, block_client, update_observed_weight}

module _ {C : Type 0} where
  -- The weight that client `i` has been charged in its window, after a reservation of client `j`: a
  -- window that has ended starts anew.
  abbrev pub carried : DispatcherConfig → ℕ → PoolState C → ℕ → ℕ → ℕ
  carried config now s i n = elim (get_elem? s.clients i) [
    | none ↦ 0
    | some c ↦ if leb config.window (now - c.window_started_at) then 0 else n
  ]

module _ (X : Type 0) {C : Type 0} (config : DispatcherConfig) (i : ℕ) where
  -- `Charged s n`: calls lead from a new pool to `s`, and reserved `n` in the window of client `i`.
  pub data Charged : PoolState C → ℕ → Type 0 where
    fresh : (s : PoolState C) → 0 < length s.clients → Charged s 0
    granted :
        (now weight : ℕ) (s s' : PoolState C) (n j : ℕ) (c : IpClient C)
        → Charged s n
        → reserve_client {X = X} config now weight s ≡ (s', done (j, c))
        → Charged s' (carried config now s i n + (if j == i then weight else 0))
    refused :
        (now weight : ℕ) (s s' : PoolState C) (n : ℕ) (x : DispatchError X)
        → Charged s n
        → reserve_client config now weight s ≡ (s', failed x)
        → Charged s' (carried config now s i n)
    blocked :
        (last now j duration n : ℕ) (s s' : PoolState C)
        → Charged s n
        → block_client {X = DispatchError X} last now j duration s ≡ done s'
        → Charged s' n
    observed :
        (j n : ℕ) (r : Response) (s s' : PoolState C)
        → Charged s n
        → update_observed_weight {X = DispatchError X} config j r s ≡ done s'
        → Charged s' n

module _ {C : Type 0} (config : DispatcherConfig) (i : ℕ) where
  -- What is charged is counted, and is within the quota.
  pub record IsWithin (s : PoolState C) (n : ℕ) : Type 0 where
    pub nonempty : 0 < length s.clients
    pub counted : (c : IpClient C) → get_elem? s.clients i ≡ some c → n ≤ c.used_weight
    pub limited : n ≤ config.max_weight_per_window
