-- ===== src/Matching/Hedging.antt =====
-- The closing loop of `apply_futures`, src/intra_order_match.rs: termination and the invariant.
use Prim.Native.String.{String}
use crypto_nav_manager.Base.{
  ℕ, zero, suc, ◌<◌, ◌≡◌, refl, sym, ap, subst, ◌∙◌, ◌⊎◌, inl, inr, Bool, true, false, ◌||◌, some,
  List, [], ◌∷◌, arith, length, Outcome, done, Bool-cases, if◌then◌else◌,
}
use crypto_nav_manager.Base.Int.{ℤ}
use crypto_nav_manager.Base.Maps.{lookup}
use crypto_nav_manager.Float.{Float, IsIeee}
use crypto_nav_manager.Matching.{
  Side, MarginOrder, FuturesOrder, MatchError, MatchEngine, int_key, queue_key, queue_key_eq_iff,
}
use crypto_nav_manager.Matching.State.{put, queue, pop_front, clamp_zero, is_key}
use crypto_nav_manager.Matching.Engine.{close, hedge_loop}
use crypto_nav_manager.Matching.Levels.{
  IsTolerance, Exceeds, Level, le_nought, le-Exceeds, first_left, second_left, split_lem,
}
use crypto_nav_manager.Matching.Soundness.{
  IsQueue, IsSound, index-eq-done, queue-pop_front, put_front-IsSound, put_popped-IsSound,
}
use crypto_nav_manager.Matching.Rounds.{front-nil, front-cons}

module _ {F : Type 0} ⦃f : Float F⦄ where
  -- The engine after one round of the closing loop, but for the pop.
  unfoldable pub closed_engine :
      MatchEngine F → ℤ → MarginOrder F → FuturesOrder F → F → MatchEngine F
  closed_engine e j order o remaining =
      put e j (close e.epsilon order (f.min remaining order.remaining_amount) o.cprice)

  hedge_loop-nil :
      (fuel : ℕ) (e : MatchEngine F) (key : String × Side) (o : FuturesOrder F) (remaining : F)
      (anchor : Bool)
      → queue e key ≡ []
      → hedge_loop (suc fuel) e key o remaining anchor ≡ done (e, remaining, anchor)
  unfolding hedge_loop
  hedge_loop-nil fuel e key o remaining anchor h = elim (Bool-cases (f.lt e.epsilon remaining)) [
    | inl more ↦ rw (more, hedge_loop, front-nil (lookup key e.queues) h)
    | inr stop ↦ rw (stop, hedge_loop)
  ]

  pub hedge_loop-used :
      (fuel : ℕ) (e : MatchEngine F) (key : String × Side) (o : FuturesOrder F) (remaining : F)
      (anchor : Bool)
      → f.lt e.epsilon remaining ≡ false
      → hedge_loop (suc fuel) e key o remaining anchor ≡ done (e, remaining, anchor)
  unfolding hedge_loop
  hedge_loop-used fuel e key o remaining anchor h = rw (h, hedge_loop)

  hedge_loop-step :
      (fuel : ℕ) (e : MatchEngine F) (key : String × Side) (o : FuturesOrder F) (remaining : F)
      (anchor : Bool) (j : ℤ) (js : List ℤ) (order : MarginOrder F)
      → f.lt e.epsilon remaining ≡ true
      → queue e key ≡ j ∷ js
      → lookup j e.orders ≡ some order
      → let q = f.min remaining order.remaining_amount in
        let e' = closed_engine e j order o remaining in
        hedge_loop (suc fuel) e key o remaining anchor
        ≡ hedge_loop fuel
            (if f.le (close e.epsilon order q o.cprice).remaining_amount e.epsilon
              then pop_front e' key
              else e')
            key
            o
            (clamp_zero (f.sub remaining q) e.epsilon)
            (anchor || is_key o.main_fkey j)
  unfolding hedge_loop closed_engine
  hedge_loop-step fuel e key o remaining anchor j js order more h g =
      rw (more, hedge_loop, front-cons (lookup key e.queues) j js h, index-eq-done e j g)

  module _ (laws : IsIeee F) (key : String × Side) (o : FuturesOrder F) (P : MatchEngine F → Type 0)
      (keep : (e : MatchEngine F) (j : ℤ) (order : MarginOrder F) (remaining : F)
        → IsTolerance e.epsilon
        → lookup j e.orders ≡ some order
        → P e
        → P (closed_engine e j order o remaining))
      (keep_pop : (e : MatchEngine F) → P e → P (pop_front e key)) where
    -- How a round or the loop ends.
    abbrev Round :
        MatchEngine F
        → ℤ
        → List ℤ
        → F
        → ℕ
        → Bool
        → Outcome MatchError (MatchEngine F × F × Bool)
        → Type 0
    Round e j js remaining fuel anchor r =
        (e' : MatchEngine F) × (remaining' : F) × (r ≡ hedge_loop fuel e' key o remaining' anchor)
        × IsSound e'
        × P e'
        × (e'.epsilon ≡ e.epsilon)
        × ((queue e' key ≡ js) × Level e.epsilon remaining' ⊎ (remaining' ≡ f.nought))

    abbrev pub HedgesTo : MatchEngine F → Outcome MatchError (MatchEngine F × F × Bool) → Type 0
    HedgesTo e r =
        (e' : MatchEngine F) × (rest : F) × (anchor : Bool) × (r ≡ done (e', rest, anchor))
        × IsSound e'
        × P e'
        × (e'.epsilon ≡ e.epsilon)
        × ((rest ≡ f.nought) ⊎ (queue e' key ≡ []) × Level e.epsilon rest)

    hedge-Round_popped :
        (e : MatchEngine F) (j : ℤ) (js : List ℤ) (order : MarginOrder F) (remaining : F) (fuel : ℕ)
        (anchor : Bool)
        → IsSound e
        → P e
        → f.lt e.epsilon remaining ≡ true
        → queue e key ≡ j ∷ js
        → lookup j e.orders ≡ some order
        → (close e.epsilon order (f.min remaining order.remaining_amount) o.cprice).remaining_amount
          ≡ f.nought
        → Level e.epsilon
            (clamp_zero (f.sub remaining (f.min remaining order.remaining_amount)) e.epsilon)
        → Round e j js remaining fuel
            (anchor || is_key o.main_fkey j)
            (hedge_loop (suc fuel) e key o remaining anchor)
    unfolding closed_engine
    hedge-Round_popped e j js order remaining fuel anchor s p more h g used level =
        let q = f.min remaining order.remaining_amount in
        let e' = closed_engine e j order o remaining in
        (
          pop_front e' key,
          clamp_zero (f.sub remaining q) e.epsilon,
          hedge_loop-step fuel e key o remaining anchor j js order more h g
              ∙ rw (used, le_nought laws e.epsilon s.tolerance),
          put_popped-IsSound e key j js _ s h,
          keep_pop e' (keep e j order remaining s.tolerance g p),
          refl,
          inl (queue-pop_front e' key key ∙ rw ((queue_key_eq_iff key key).1 refl, h), level),
        )

    hedge-Round :
        (e : MatchEngine F) (j : ℤ) (js : List ℤ) (remaining : F) (fuel : ℕ) (anchor : Bool)
        → IsSound e
        → P e
        → Exceeds e.epsilon remaining
        → queue e key ≡ j ∷ js
        → Round e j js remaining fuel
            (anchor || is_key o.main_fkey j)
            (hedge_loop (suc fuel) e key o remaining anchor)
    unfolding close closed_engine
    hedge-Round e j js remaining fuel anchor s p more h =
        let eps = e.epsilon in
        let (order, g, w, open_j) = (subst (IsQueue e key) h (s.queues key)).0.0 in
        let q = f.min remaining order.remaining_amount in
        elim (split_lem laws eps s.tolerance remaining order.remaining_amount more open_j) [
          | first_left level used ↦
              hedge-Round_popped e j js order remaining fuel anchor s p more.1 h g used level
          | second_left used (inl spent) ↦
              hedge-Round_popped e j js order remaining fuel anchor s p more.1 h g spent (inl used)
          | second_left used (inr open_j') ↦
              let e' = closed_engine e j order o remaining in
              (
                e',
                clamp_zero (f.sub remaining q) eps,
                hedge_loop-step fuel e key o remaining anchor j js order more.1 h g
                    ∙ rw (le-Exceeds laws eps s.tolerance _ open_j'),
                put_front-IsSound e key j js (close eps order q o.cprice) s h w open_j',
                keep e j order remaining s.tolerance g p,
                refl,
                inr used,
              )
        ]

    -- Fuel above the length of the queue, and one unit more, is enough.
    pub hedge_loop-HedgesTo :
        (fuel : ℕ) (e : MatchEngine F) (js : List ℤ) (remaining : F) (anchor : Bool)
        → IsSound e
        → P e
        → Level e.epsilon remaining
        → queue e key ≡ js
        → suc (length js) < fuel
        → HedgesTo e (hedge_loop fuel e key o remaining anchor)
    hedge_loop-HedgesTo zero e js remaining anchor s p l h m = absurd (omega arith)
    hedge_loop-HedgesTo (suc zero) e js remaining anchor s p l h m = absurd (omega arith)
    hedge_loop-HedgesTo (suc (suc fuel)) e js remaining anchor s p (inl used) h m = (
      e,
      remaining,
      anchor,
      hedge_loop-used _ e key o remaining anchor (ap (f.lt e.epsilon) used ∙ s.tolerance.1),
      s,
      p,
      refl,
      inl used,
    )
    hedge_loop-HedgesTo (suc (suc fuel)) e [] remaining anchor s p (inr more) h m = (
      e,
      remaining,
      anchor,
      hedge_loop-nil _ e key o remaining anchor h,
      s,
      p,
      refl,
      inr (h, inr more),
    )
    hedge_loop-HedgesTo (suc (suc fuel)) e (j ∷ js) remaining anchor s p (inr more) h m =
        let anchor' = anchor || is_key o.main_fkey j in
        let (e', remaining', run, s', p', same, next) =
          hedge-Round e j js remaining (suc fuel) anchor s p more h in
        elim next [
          | inr used ↦ (
            e',
            remaining',
            anchor',
            run
                ∙ hedge_loop-used fuel e' key o remaining' anchor'
                    (ap (f.lt e'.epsilon) used ∙ s'.tolerance.1),
            s',
            p',
            same,
            inl used,
          )
          | inl (shorter, level) ↦
              let (e'', rest, end_anchor, run', s'', p'', same', end) =
                hedge_loop-HedgesTo (suc fuel) e' js remaining' anchor' s' p'
                  (subst (λ x. Level x remaining') (sym same) level) shorter (omega arith) in
              (
                e'',
                rest,
                end_anchor,
                run ∙ run',
                s'',
                p'',
                same' ∙ same,
                subst (λ x. (rest ≡ f.nought) ⊎ (queue e'' key ≡ []) × Level x rest) same end,
              )
        ]
