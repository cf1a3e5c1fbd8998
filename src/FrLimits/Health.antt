-- ===== src/FrLimits/Health.antt =====
-- src/fr_position_limits.rs, `fetch_environment`: what stands behind the status of an environment.
use Prim.Native.String.{String}
use crypto_nav_manager.Base.{
  ℕ, ◌==◌, ◌≡◌, ◌↔◌, refl, ap, Bool, true, false, ◌&&◌, none, List, [], ◌∷◌, ◌++◌, arith,
  if◌then◌else◌,
}
use crypto_nav_manager.Base.Text.{codes, bytes_eq}
use crypto_nav_manager.Float.{Float}
use crypto_nav_manager.FrLimits.{Constants}
use crypto_nav_manager.FrLimits.Answers.{ExchangeData}
use crypto_nav_manager.FrLimits.Tables.{sort_rows}
use crypto_nav_manager.FrLimits.Monitor.{
  FrLimitSource, SnapshotData, GuardParamsLoad, FrLimitEnvironment, Fetched, fetched, missed,
  Answers, snapshot_warnings, params_or_default, count_near, has_none, snapshot_positions,
  exchange_rows, exchange_warnings, failed_environment, environment_of, with_credentials,
  fetch_environment,
}

has_none-nil :
    {A : Type 0} (xs ys : List A) → has_none (xs ++ ys) ≡ true → (xs ≡ []) × (has_none ys ≡ true)
has_none-nil [] ys h = (refl, h)
has_none-nil (x ∷ xs) ys h = cc

nil_of_has_none : {A : Type 0} (xs : List A) → has_none xs ≡ true → xs ≡ []
nil_of_has_none [] h = refl
nil_of_has_none (x ∷ xs) h = cc

has_none_of_nil : {A : Type 0} (xs : List A) → xs ≡ [] → has_none xs ≡ true
has_none_of_nil xs h = ap has_none h

nought_and : (n : ℕ) (b : Bool) → (n == 0 && b) ≡ true → (n ≡ 0) × (b ≡ true)
nought_and n b h = ground arith

abbrev is_healthy : String → Bool
is_healthy status = bytes_eq (codes status) (codes "healthy")

abbrev status_of : Bool → String
status_of b = if b then "healthy" else "warning"

status_of-true : (b : Bool) → is_healthy (status_of b) ≡ true → b ≡ true
status_of-true true h = refl
status_of-true false h = cc

module _ {F : Type 0} where
  snapshot_warnings-nil :
      (x : Fetched (SnapshotData F))
      → snapshot_warnings x ≡ []
      → (s : SnapshotData F) × (x ≡ fetched s)
  snapshot_warnings-nil (fetched s) h = (s, refl)
  snapshot_warnings-nil (missed e) h = cc

module _ {F : Type 0} (constants : Constants F) where
  params_or_default-nil :
      (x : Fetched (GuardParamsLoad F))
      → (params_or_default constants x).warnings ≡ []
      → (p : GuardParamsLoad F) × (x ≡ fetched p)
  unfolding params_or_default
  params_or_default-nil (fetched p) h = (p, refl)
  params_or_default-nil (missed e) h = cc

module _ {F : Type 0} ⦃f : Float F⦄ (constants : Constants F) where
  -- What a healthy environment has read, and what it has not.
  abbrev pub AllRead : Answers F → Fetched (ExchangeData F) → FrLimitEnvironment F → Type 0
  AllRead answers exchange environment =
      ((s : SnapshotData F) × (answers.snapshot ≡ fetched s))
      × ((p : GuardParamsLoad F) × (answers.params ≡ fetched p))
      × ((d : ExchangeData F) × (exchange ≡ fetched d))
      × (count_near environment.rows ≡ 0)
      × (environment.warnings ≡ [])
      × (environment.error ≡ none)

  environment_of-healthy :
      (source : FrLimitSource) (answers : Answers F) (exchange : Fetched (ExchangeData F))
      → is_healthy (environment_of constants source answers exchange).status ≡ true
      → AllRead answers exchange (environment_of constants source answers exchange)
  unfolding environment_of
  environment_of-healthy source answers (missed e) h = cc
  environment_of-healthy source answers (fetched d) h =
      let positions = snapshot_positions answers.snapshot in
      let load = params_or_default constants answers.params in
      let rows = sort_rows constants (exchange_rows constants d positions load.params).0 in
      let early = snapshot_warnings answers.snapshot ++ load.warnings in
      let warnings = early ++ exchange_warnings constants d in
      let (none_near, quiet) =
        nought_and (count_near rows) (has_none warnings)
          (status_of-true (count_near rows == 0 && has_none warnings) h) in
      let (from_early, _) = has_none-nil early (exchange_warnings constants d) quiet in
      let (from_snapshot, rest) =
        has_none-nil (snapshot_warnings answers.snapshot) load.warnings
          (has_none_of_nil early from_early) in
      let from_params = nil_of_has_none load.warnings rest in
      (
        snapshot_warnings-nil answers.snapshot from_snapshot,
        params_or_default-nil constants answers.params from_params,
        (d, refl),
        none_near,
        nil_of_has_none warnings quiet,
        refl,
      )

  status-AllRead :
      (source : FrLimitSource) (answers : Answers F) (exchange : Fetched (ExchangeData F))
      → AllRead answers exchange (environment_of constants source answers exchange)
      → (environment_of constants source answers exchange).status ≡ "healthy"
  unfolding environment_of
  status-AllRead source answers (missed e) (_, _, (d, h), _, _, _) = cc
  status-AllRead source answers (fetched d) (_, _, _, none_near, quiet, _) =
      rw (none_near, quiet) refl

  with_credentials-healthy :
      (source : FrLimitSource) (answers : Answers F) (credentials : Fetched (Unit {0}))
      → is_healthy (with_credentials constants source answers credentials).status ≡ true
      → (credentials ≡ fetched tt)
        × AllRead answers answers.exchange (with_credentials constants source answers credentials)
  unfolding failed_environment
  with_credentials-healthy source answers (missed e) h = cc
  with_credentials-healthy source answers (fetched u) h =
      (refl, environment_of-healthy source answers answers.exchange h)

  with_credentials-AllRead :
      (source : FrLimitSource) (answers : Answers F) (credentials : Fetched (Unit {0}))
      → credentials ≡ fetched tt
      → AllRead answers answers.exchange (with_credentials constants source answers credentials)
      → (with_credentials constants source answers credentials).status ≡ "healthy"
  with_credentials-AllRead source answers (missed e) c h = cc
  with_credentials-AllRead source answers (fetched u) c h =
      status-AllRead source answers answers.exchange h

  -- An environment is reported healthy if and only if the credentials, the snapshot, the parameters and the
  -- limits of the exchange were all read, none of its rows is near its limit, its list of warnings is empty,
  -- and it has no error of its own. A row without a limit may still be unavailable, with an error in the row.
  pub fetch_environment-healthy :
      (source : FrLimitSource) (answers : Answers F)
      → ((fetch_environment constants source answers).status ≡ "healthy") ↔ (
          (answers.credentials ≡ fetched tt)
          × AllRead answers answers.exchange (fetch_environment constants source answers))
  unfolding fetch_environment
  fetch_environment-healthy source answers = (
    (λ h. with_credentials-healthy source answers answers.credentials (ap is_healthy h)),
    (λ (c, h). with_credentials-AllRead source answers answers.credentials c h),
  )
