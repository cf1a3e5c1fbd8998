-- ===== src/AccountRisk/Newest.antt =====
-- `AccountRiskCache::update` of src/account_risk.rs: what the cache holds after any updates.
use mathlib.Core.Bool.{false≢true}
use crypto_nav_manager.Base.{
  ℕ, ◌≡◌, refl, sym, subst, ◌∙◌, ◌⊎◌, inl, inr, Bool, true, false, none, some, List, [], ◌∷◌,
  if◌then◌else◌, Bool-cases, arith,
}
use crypto_nav_manager.Base.Int.{ℤ, ltb_ℤ, ◌≤ℤ◌}
use crypto_nav_manager.Base.Maps.{lookup, lookup-insert}
use crypto_nav_manager.Base.Text.{bytes_key, bytes_eq, bytes_eq_iff}
use crypto_nav_manager.AccountRisk.{AccountRiskFeed, AccountRiskReading}
use crypto_nav_manager.AccountRisk.Cache.{CacheState, is_newer, start, update}

-- An update: the strategy, the reading, and the time at which it arrives.
abbrev pub Update : Type 0 → Type 0
Update F = List ℕ × AccountRiskReading F × ℕ

same_branches : {A : Type 0} (b : Bool) (x y : A) → x ≡ y → (if b then x else x) ≡ y
same_branches true x y e = e
same_branches false x y e = e

module _ {F : Type 0} where
  -- The cache of the feeds after these updates, the last one first.
  abbrev pub run : List AccountRiskFeed → List (Update F) → CacheState F
  run feeds [] = start feeds
  run feeds ((slug, r, now) ∷ us) = update slug r now (run feeds us)

  -- The reading came with one of the updates of the strategy.
  abbrev pub CameWith : List (Update F) → List ℕ → AccountRiskReading F → Type 0
  CameWith [] slug r = ⊥
  CameWith ((slug', r', now) ∷ us) slug r =
      ((bytes_eq slug' slug ≡ true) × (record r' { received_at_ms = now } ≡ r)) ⊎ CameWith us slug r

  -- No update of the strategy is newer than this time.
  abbrev pub NoneAfter : List (Update F) → List ℕ → ℤ → Type 0
  NoneAfter [] slug t = Unit
  NoneAfter ((slug', r', now) ∷ us) slug t =
      (bytes_eq slug' slug ≡ true → r'.source_ts_ms ≤ℤ t) × NoneAfter us slug t

  abbrev pub Untold : List (Update F) → List ℕ → Type 0
  Untold [] slug = Unit
  Untold ((slug', r', now) ∷ us) slug = (bytes_eq slug' slug ≡ false) × Untold us slug

  NoneAfter-later :
      (us : List (Update F)) (slug : List ℕ) (t t' : ℤ)
      → t ≤ℤ t'
      → NoneAfter us slug t
      → NoneAfter us slug t'
  NoneAfter-later [] slug t t' l a = tt
  NoneAfter-later ((slug', r', now) ∷ us) slug t t' l (p, a) =
      (λ e. let q = p e in ground arith, NoneAfter-later us slug t t' l a)

  Untold-NoneAfter :
      (us : List (Update F)) (slug : List ℕ) (t : ℤ) → Untold us slug → NoneAfter us slug t
  Untold-NoneAfter [] slug t u = tt
  Untold-NoneAfter ((slug', r', now) ∷ us) slug t (n, u) =
      (λ e. elim (false≢true (sym n ∙ e)) [ ], Untold-NoneAfter us slug t u)

  lookup-update :
      (slug slug' : List ℕ) (r : AccountRiskReading F) (now : ℕ) (s : CacheState F)
      → lookup slug (update slug' r now s).readings ≡ (
          if is_newer (lookup slug' s.readings) r
          then lookup slug s.readings
          else if bytes_eq slug' slug
          then some (record r { received_at_ms = now })
          else lookup slug s.readings)
  unfolding update
  lookup-update slug slug' r now s = elim (Bool-cases (is_newer (lookup slug' s.readings) r)) [
    | inl b ↦ rw b refl
    | inr b ↦ rw b (lookup-insert slug' slug (record r { received_at_ms = now }) s.readings)
  ]

  start-empty :
      (feeds : List AccountRiskFeed) (slug : List ℕ)
      → lookup slug (start {F = F} feeds).readings ≡ none
  unfolding start lookup
  start-empty feeds slug = refl

  -- After any updates of a new cache, a strategy without an update has no reading. Another one has a
  -- reading that came with one of its updates, with the time at which that arrived, and no update of
  -- the strategy is newer.
  pub update-newest :
      (feeds : List AccountRiskFeed) (us : List (Update F)) (slug : List ℕ)
      → ((lookup slug (run feeds us).readings ≡ none) × Untold us slug)
        ⊎ ((r : AccountRiskReading F) × (lookup slug (run feeds us).readings ≡ some r)
            × CameWith us slug r
            × NoneAfter us slug r.source_ts_ms)
  update-newest feeds [] slug = inl (start-empty feeds slug, tt)
  update-newest feeds ((slug', r', now) ∷ us) slug =
      let s = run feeds us in
      let look = lookup-update slug slug' r' now s in
      elim (Bool-cases (bytes_eq slug' slug)) [
        | inr other ↦ elim (update-newest feeds us slug) [
          | inl (n, u) ↦ inl (
            look ∙ rw other (same_branches (is_newer (lookup slug' s.readings) r') _ none n),
            (other, u),
          )
          | inr (r, n, c, a) ↦ inr (
            r,
            look ∙ rw other (same_branches (is_newer (lookup slug' s.readings) r') _ (some r) n),
            inr c,
            ((λ e. elim (false≢true (sym other ∙ e)) [ ]), a),
          )
        ]
        | inl same ↦
            let here : slug' ≡ slug = (bytes_eq_iff slug' slug).0 same in
            let kept : AccountRiskReading F = record r' { received_at_ms = now } in
            elim (Bool-cases (is_newer (lookup slug' s.readings) r')) [
              | inl b ↦
                  let b' = subst (λ x. is_newer (lookup x s.readings) r' ≡ true) here b in
                  elim (update-newest feeds us slug) [
                    | inl (n, u) ↦ elim (false≢true (subst (λ o. is_newer o r' ≡ true) n b')) [ ]
                    | inr (r, n, c, a) ↦
                        let older : ltb_ℤ r'.source_ts_ms r.source_ts_ms ≡ true =
                          subst (λ o. is_newer o r' ≡ true) n b' in
                        inr (r, look ∙ rw b n, inr c, ((λ _. ground arith), a))
                  ]
              | inr b ↦
                  let b' = subst (λ x. is_newer (lookup x s.readings) r' ≡ false) here b in
                  let rest : NoneAfter us slug r'.source_ts_ms =
                    elim (update-newest feeds us slug) [
                      | inl (n, u) ↦ Untold-NoneAfter us slug r'.source_ts_ms u
                      | inr (r, n, c, a) ↦
                          let older : ltb_ℤ r'.source_ts_ms r.source_ts_ms ≡ false =
                            subst (λ o. is_newer o r' ≡ false) n b' in
                          NoneAfter-later us slug r.source_ts_ms r'.source_ts_ms (ground arith) a
                    ] in
                  inr (kept, look ∙ rw (b, same) refl, inl (same, refl), ((λ _. omega arith), rest))
            ]
      ]
