-- ===== src/Matching/Netting.antt =====
-- The netting loop of `apply_margin`, src/intra_order_match.rs: termination and the invariant.
use Prim.Native.String.{String}
use mathlib.Core.Option.{some-injective}
use crypto_nav_manager.Base.{
  ℕ, zero, suc, ◌<◌, ◌≡◌, refl, sym, ap, subst, ◌∙◌, ◌⊎◌, inl, inr, false, Option, none, some, List,
  [], ◌∷◌, arith, length, All, Outcome, done, Bool-cases,
}
use crypto_nav_manager.Base.Int.{ℤ, eqb_ℤ, eqb_ℤ_iff}
use crypto_nav_manager.Base.Maps.{lookup}
use crypto_nav_manager.Float.{Float, IsIeee}
use crypto_nav_manager.Matching.{
  Side, MarginOrder, MatchError, MatchEngine, int_key, queue_key, queue_key_eq_iff, HedgeTiming,
}
use crypto_nav_manager.Matching.State.{put, queue, pop_front}
use crypto_nav_manager.Matching.Engine.{net, net_round, net_loop}
use crypto_nav_manager.Matching.History.{recall_timing, recall_fill, recall_count}
use crypto_nav_manager.Matching.Levels.{
  IsTolerance, Exceeds, Level, le_nought, le-Exceeds, first_left, second_left, split_lem,
}
use crypto_nav_manager.Matching.Soundness.{Lacks, Live, IsQueue, lookup-put_self, queue-pop_front}
use crypto_nav_manager.Matching.Rounds.{
  Netting, netted_engine, net_round-eq, net_loop-nil, net_loop-used, net_loop-step, Netting-popped,
  Netting-kept,
}

module _ {F : Type 0} ⦃f : Float F⦄ where
  module _ (laws : IsIeee F) (own key : String × Side) (k : ℤ) where
    -- What else the loop keeps: `P` is kept by a round and does not depend on the queues.
    module _ (P : MatchEngine F → Type 0)
        (keep : (e : MatchEngine F) (j : ℤ) (other current : MarginOrder F)
          → IsTolerance e.epsilon
          → eqb_ℤ j k ≡ false
          → lookup j e.orders ≡ some other
          → lookup k e.orders ≡ some current
          → P e
          → P (netted_engine e k j other current))
        (keep_pop : (e : MatchEngine F) → P e → P (pop_front e key)) where
      abbrev pub NetsTo : Outcome MatchError (MatchEngine F) → Type 0
      NetsTo r =
          (e' : MatchEngine F) × (r ≡ done e')
          × (v : Netting own k e') × P e'
          × ((v.order.remaining_amount ≡ f.nought) ⊎ (queue e' key ≡ []))

      abbrev Rounds : MatchEngine F → List ℤ → Outcome MatchError (MatchEngine F) → Type 0
      Rounds e js r =
          (e' : MatchEngine F) × (r ≡ done e')
          × Netting own k e'
          × P e'
          × ((queue e' key ≡ js)
              ⊎ (o : MarginOrder F) × (lookup k e'.orders ≡ some o)
                × (o.remaining_amount ≡ f.nought))

      round_popped :
          (e : MatchEngine F) (j : ℤ) (js : List ℤ) (other : MarginOrder F) (v : Netting own k e)
          → P e
          → queue e key ≡ j ∷ js
          → lookup j e.orders ≡ some other
          → eqb_ℤ j k ≡ false
          → let q = f.min v.order.remaining_amount other.remaining_amount in
            (net e.epsilon other q).remaining_amount ≡ f.nought
            → Level e.epsilon (net e.epsilon v.order q).remaining_amount
            → Rounds e js (net_round e key k j v.order.remaining_amount)
      unfolding netted_engine
      round_popped e j js other v p h g n used level =
          let e' = netted_engine e k j other v.order in
          (
            pop_front e' key,
            net_round-eq e key k j other v.order g v.found n
                ∙ rw (used, le_nought laws e.epsilon v.sound.tolerance),
            Netting-popped own key k e j js other v h n level,
            keep_pop e' (keep e j other v.order v.sound.tolerance n g v.found p),
            inl (queue-pop_front e' key key ∙ rw ((queue_key_eq_iff key key).1 refl, h)),
          )

      -- A round, from an order that is still open.
      round :
          (e : MatchEngine F) (j : ℤ) (js : List ℤ) (v : Netting own k e)
          → P e
          → queue e key ≡ j ∷ js
          → Exceeds e.epsilon v.order.remaining_amount
          → Rounds e js (net_round e key k j v.order.remaining_amount)
      unfolding net netted_engine
      round e j js v p h open_k =
          let eps = e.epsilon in
          let tol = v.sound.tolerance in
          let (other, g, w, open_j) = (subst (IsQueue e key) h (v.sound.queues key)).0.0 in
          let n = (subst (Lacks k) h (v.unqueued key)).0 in
          let current = v.order in
          let q = f.min current.remaining_amount other.remaining_amount in
          elim (split_lem laws eps tol current.remaining_amount other.remaining_amount open_k
            open_j) [
              | first_left level used ↦ round_popped e j js other v p h g n used level
              | second_left used (inl spent) ↦ round_popped e j js other v p h g n spent (inl used)
              | second_left used (inr open_j') ↦ (
                netted_engine e k j other current,
                net_round-eq e key k j other current g v.found n
                    ∙ rw (le-Exceeds laws eps tol _ open_j'),
                Netting-kept own key k e j js other v h w open_j' (inl used),
                keep e j other current tol n g v.found p,
                inr (
                  net eps current q,
                  lookup-put_self (put e j (net eps other q)) k (net eps current q),
                  used,
                ),
              )
            ]

      -- Fuel above the length of the queue is enough for an open order, and one unit for a used one.
      pub net_loop-NetsTo :
          (fuel : ℕ) (e : MatchEngine F) (js : List ℤ) (v : Netting own k e)
          → P e
          → queue e key ≡ js
          → suc (length js) < fuel
          → NetsTo (net_loop fuel e key k)
      net_loop-NetsTo zero e js v p h m = absurd (omega arith)
      net_loop-NetsTo (suc zero) e js v p h m = absurd (omega arith)
      net_loop-NetsTo (suc (suc fuel)) e [] v p h m = (e, net_loop-nil _ e key k h, v, p, inr h)
      net_loop-NetsTo (suc (suc fuel)) e (j ∷ js) v p h m = elim v.level [
        | inl used ↦
            (e, net_loop-used laws _ e key k v.order v.sound.tolerance v.found used, v, p, inl used)
        | inr open_k ↦
            let fits : suc (length js) < suc fuel = omega arith in
            let (e', run, v', p', progress) = round e j js v p h open_k in
            let step =
              net_loop-step (suc fuel) e key k j js v.order h v.found
                (le-Exceeds laws e.epsilon v.sound.tolerance _ open_k)
              ∙ rw run in
            elim progress [
              | inl shorter ↦
                  let (e'', rest, v'', p'', end) =
                    net_loop-NetsTo (suc fuel) e' js v' p' shorter fits in
                  (e'', step ∙ rest, v'', p'', end)
              | inr (o, g, used) ↦ (
                e',
                step ∙ net_loop-used laws fuel e' key k o v'.sound.tolerance g used,
                v',
                p',
                inl (ap (λ x. x.remaining_amount) (some-injective _ _ (sym v'.found ∙ g)) ∙ used),
              )
            ]
      ]

  -- An order that is not in the map is in no queue.
  pub Lacks-of-none :
      (e : MatchEngine F) (key : String × Side) (k : ℤ) (ks : List ℤ)
      → lookup k e.orders ≡ none
      → All (Live e key) ks
      → Lacks k ks
  Lacks-of-none e key k [] n a = tt
  Lacks-of-none e key k (j ∷ ks) n ((o, h, s, p), a) = (
    elim (Bool-cases (eqb_ℤ j k)) [
      | inr other ↦ other
      | inl same ↦
          let found = sym h ∙ ap (λ z. lookup z e.orders) ((eqb_ℤ_iff j k).0 same) ∙ n in cc
    ],
    Lacks-of-none e key k ks n a,
  )

  -- `admit` sets the amounts, and leaves symbol and side.
  pub recall_place :
      (o : MarginOrder F) (t : Option HedgeTiming) (x y : Option ℤ)
      → let o' = recall_count (recall_fill (recall_timing o t) x) y in
        (o'.symbol ≡ o.symbol) × (o'.side ≡ o.side) × (o'.remaining_amount ≡ o.remaining_amount)
  recall_place o t x y = ground arith
