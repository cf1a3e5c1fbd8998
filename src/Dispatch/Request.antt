-- ===== src/Dispatch/Request.antt =====
-- `Dispatcher::dispatch` of src/rest_dispatcher.rs. Other requests use the pool between the calls of
-- this one; the transport, the clock and what the others do are the parameter `turns`, one for each
-- attempt.
use Prim.Native.String.{String}
use crypto_nav_manager.Base.{
  ℕ, zero, suc, ltb, ◌==◌, ◌⊎◌, inl, inr, Bool, ◌||◌, none, some, Outcome, done, failed, panicked,
  stuck, if◌then◌else◌,
}
use crypto_nav_manager.Dispatch.{
  DispatcherConfig, RequestSpec, Response, DispatchResponse, DispatchError, weight_exceeds_limit,
  request, rate_limited, IpClient, PoolState,
}
use crypto_nav_manager.Dispatch.Headers.{retry_after, u64_max}
use crypto_nav_manager.Dispatch.Pool.{reserve_client, block_client, update_observed_weight}

-- One attempt: what other requests do before the reservation, while the request is under way and
-- before the block, the times read, and the answer.
pub record Turn (X C : Type 0) : Type 0 where
  pub before : PoolState C → PoolState C
  pub reserved_at : ℕ
  pub send : C → RequestSpec → X ⊎ Response
  pub during : PoolState C → PoolState C
  pub between : PoolState C → PoolState C
  pub blocked_at : ℕ

abbrev pub is_rate_limit : ℕ → Bool
is_rate_limit status = status == 429 || status == 418

unfoldable pub backoff : DispatcherConfig → Response → ℕ
unfolding retry_after
backoff config r = elim (retry_after r) [
  | some duration ↦ duration
  | none ↦ if r.status == 418 then config.backoff_418 else config.cooldown_429
]

-- `max_rate_limit_retries.saturating_add(1)` on a `usize` of 64 bits.
unfoldable pub max_attempts : DispatcherConfig → ℕ
max_attempts config =
    if ltb config.max_rate_limit_retries u64_max then suc config.max_rate_limit_retries else u64_max

module _ {X C : Type 0} (last : ℕ) (config : DispatcherConfig) (spec : RequestSpec)
    (turns : ℕ → Turn X C) where
  -- What follows a response that tells of a rate limit: the block, and the next attempt or the end.
  unfoldable pub give_way :
      ℕ
      → String
      → Response
      → ℕ
      → PoolState C
      → (PoolState C → PoolState C × Outcome (DispatchError X) DispatchResponse)
      → PoolState C × Outcome (DispatchError X) DispatchResponse
  unfolding backoff
  give_way attempt ip r i s next =
      let blocked : Outcome (DispatchError X) (PoolState C) =
        block_client last (turns attempt).blocked_at i (backoff config r) s in
      elim blocked [
        | done s' ↦
            if attempt == max_attempts config
            then (s', failed (rate_limited ip r.status (backoff config r)))
            else next s'
        | failed x ↦ (s, failed x)
        | panicked ↦ (s, panicked)
        | stuck ↦ (s, stuck)
      ]

  -- What follows the reservation of client `i`.
  unfoldable pub answer :
      ℕ
      → ℕ
      → String
      → C
      → PoolState C
      → (PoolState C → PoolState C × Outcome (DispatchError X) DispatchResponse)
      → PoolState C × Outcome (DispatchError X) DispatchResponse
  unfolding give_way
  answer attempt i ip client s next =
      let s₁ = (turns attempt).during s in
      elim ((turns attempt).send client spec) [
        | inl x ↦ (s₁, failed (request ip x))
        | inr r ↦
            let seen : Outcome (DispatchError X) (PoolState C) =
              update_observed_weight config i r s₁ in
            elim seen [
              | done s₂ ↦
                  if is_rate_limit r.status
                  then give_way attempt ip r i ((turns attempt).between s₂) next
                  else (s₂, done (record { local_ip = ip; attempts = attempt; response = r }))
              | failed x ↦ (s₁, failed x)
              | panicked ↦ (s₁, panicked)
              | stuck ↦ (s₁, stuck)
            ]
      ]

  -- What follows a reservation, granted or not.
  abbrev pub after_reserve :
      ℕ
      → (PoolState C → PoolState C × Outcome (DispatchError X) DispatchResponse)
      → PoolState C × Outcome (DispatchError X) (ℕ × IpClient C)
      → PoolState C × Outcome (DispatchError X) DispatchResponse
  after_reserve attempt next (s, done (i, c)) = answer attempt i c.ip c.client s next
  after_reserve attempt next (s, failed x) = (s, failed x)
  after_reserve attempt next (s, panicked) = (s, panicked)
  after_reserve attempt next (s, stuck) = (s, stuck)

  -- `for attempt in 1..=max_attempts`, with the number of attempts that are left.
  unfoldable pub attempts :
      ℕ → ℕ → PoolState C → PoolState C × Outcome (DispatchError X) DispatchResponse
  attempts zero attempt s = (s, panicked)
  attempts (suc left) attempt s =
      after_reserve attempt (attempts left (suc attempt))
        (reserve_client config (turns attempt).reserved_at spec.weight ((turns attempt).before s))

  unfoldable pub dispatch : PoolState C → PoolState C × Outcome (DispatchError X) DispatchResponse
  unfolding attempts max_attempts
  dispatch s =
      if ltb config.max_weight_per_window spec.weight
      then (s, failed (weight_exceeds_limit spec.weight config.max_weight_per_window))
      else attempts (max_attempts config) 1 s
