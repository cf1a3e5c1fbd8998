-- ===== src/Matching/Rounds.antt =====
-- One round of the netting loop of `apply_margin`, src/intra_order_match.rs: what it does, and the invariant.
use Prim.Native.String.{String}
use crypto_nav_manager.Base.{
  ℕ, suc, ◌≡◌, refl, ◌∙◌, inl, inr, false, Option, none, some, List, [], ◌∷◌, arith, done, ◌>>=◌,
  Bool-cases, Option-cases, if◌then◌else◌,
}
use crypto_nav_manager.Base.Int.{ℤ, eqb_ℤ, eqb_ℤ_iff}
use crypto_nav_manager.Base.Maps.{lookup}
use crypto_nav_manager.Float.{Float, IsIeee}
use crypto_nav_manager.Matching.{Side, MarginOrder, MatchEngine, int_key, queue_key}
use crypto_nav_manager.Matching.State.{put, queue, queue_of, tail, pop_front, front}
use crypto_nav_manager.Matching.Engine.{net, net_round, net_loop}
use crypto_nav_manager.Matching.Levels.{IsTolerance, Exceeds, Level, le_nought}
use crypto_nav_manager.Matching.Soundness.{
  Lacks, IsSound, index-eq-done, lookup-put_self, lookup-put_ne, queue-pop_front,
  put_unqueued-IsSound, put_front-IsSound, put_popped-IsSound,
}

Lacks-tail : (k : ℤ) (ks : List ℤ) → Lacks k ks → Lacks k (tail ks)
Lacks-tail k [] l = l
Lacks-tail k (j ∷ ks) l = l.1

pub front-nil : (m : Option (List ℤ)) → queue_of m ≡ [] → front m ≡ none
front-nil none h = refl
front-nil (some []) h = refl
front-nil (some (k ∷ ks)) h = cc

pub front-cons :
    (m : Option (List ℤ)) (j : ℤ) (js : List ℤ) → queue_of m ≡ j ∷ js → front m ≡ some j
front-cons none j js h = cc
front-cons (some []) j js h = cc
front-cons (some (k ∷ ks)) j js h = cc

module _ {F : Type 0} ⦃f : Float F⦄ where
  -- The engine after one round of netting: `other` under `j` and `current` under `k` give up the
  -- smaller of their remaining amounts.
  unfoldable pub netted_engine :
      MatchEngine F → ℤ → ℤ → MarginOrder F → MarginOrder F → MatchEngine F
  netted_engine e k j other current =
      let q = f.min current.remaining_amount other.remaining_amount in
      put (put e j (net e.epsilon other q)) k (net e.epsilon current q)

  pub net_round-eq :
      (e : MatchEngine F) (key : String × Side) (k j : ℤ) (other current : MarginOrder F)
      → lookup j e.orders ≡ some other
      → lookup k e.orders ≡ some current
      → eqb_ℤ j k ≡ false
      → let q = f.min current.remaining_amount other.remaining_amount in
        let e' = netted_engine e k j other current in
        net_round e key k j current.remaining_amount
        ≡ done (
            if f.le (net e.epsilon other q).remaining_amount e.epsilon
            then pop_front e' key
            else e')
  unfolding net_round netted_engine
  net_round-eq e key k j other current h g n =
      let q = f.min current.remaining_amount other.remaining_amount in
      let e₁ = put e j (net e.epsilon other q) in
      let e₂ = put e₁ k (net e.epsilon current q) in
      rw
        (
          index-eq-done e j h,
          index-eq-done e₁ k (lookup-put_ne e j k (net e.epsilon other q) n ∙ g),
          index-eq-done e₂ j (
              lookup-put_ne e₁ k j (net e.epsilon current q)
                (ground (arith, eqb_ℤ_iff k j, eqb_ℤ_iff j k))
              ∙ lookup-put_self e j (net e.epsilon other q)),
        )
        refl

  -- The state of the netting loop: order `k` of the queue `own`, in no queue yet, and what is left of
  -- it.
  pub record Netting (own : String × Side) (k : ℤ) (e : MatchEngine F) : Type 0 where
    pub sound : IsSound e
    pub order : MarginOrder F
    pub found : lookup k e.orders ≡ some order
    pub place : (order.symbol, order.side) ≡ own
    pub level : Level e.epsilon order.remaining_amount
    pub unqueued : (key : String × Side) → Lacks k (queue e key)

  Lacks-pop_front :
      (e : MatchEngine F) (key : String × Side) (k : ℤ)
      → ((key' : String × Side) → Lacks k (queue e key'))
      → (key' : String × Side) → Lacks k (queue (pop_front e key) key')
  Lacks-pop_front e key k l key' =
      rw (queue-pop_front e key key') (elim (Bool-cases (queue_key.beq key key')) [
        | inl same ↦ rw same (Lacks-tail k (queue e key) (l key))
        | inr other ↦ rw other (l key')
      ])

  -- The three ways of `net_loop`: no other side, an order that is used up, and a round.
  pub net_loop-nil :
      (fuel : ℕ) (e : MatchEngine F) (key : String × Side) (k : ℤ)
      → queue e key ≡ []
      → net_loop (suc fuel) e key k ≡ done e
  unfolding net_loop
  net_loop-nil fuel e key k h = rw (front-nil (lookup key e.queues) h, net_loop)

  pub net_loop-used :
      (laws : IsIeee F) (fuel : ℕ) (e : MatchEngine F) (key : String × Side) (k : ℤ)
      (o : MarginOrder F)
      → IsTolerance e.epsilon
      → lookup k e.orders ≡ some o
      → o.remaining_amount ≡ f.nought
      → net_loop (suc fuel) e key k ≡ done e
  unfolding net_loop
  net_loop-used laws fuel e key k o tol g used = elim (Option-cases (front (lookup key e.queues))) [
    | inl nothing ↦ rw (nothing, net_loop)
    | inr (j, some_j) ↦
        rw (some_j, net_loop, index-eq-done e k g, used, le_nought laws e.epsilon tol)
  ]

  pub net_loop-step :
      (fuel : ℕ) (e : MatchEngine F) (key : String × Side) (k j : ℤ) (js : List ℤ)
      (o : MarginOrder F)
      → queue e key ≡ j ∷ js
      → lookup k e.orders ≡ some o
      → f.le o.remaining_amount e.epsilon ≡ false
      → net_loop (suc fuel) e key k
        ≡ (net_round e key k j o.remaining_amount >>= λ e'. net_loop fuel e' key k)
  unfolding net_loop
  net_loop-step fuel e key k j js o h g more =
      rw (front-cons (lookup key e.queues) j js h, net_loop, index-eq-done e k g, more)

  module _ (own key : String × Side) (k : ℤ) where
    -- A round that pops the front.
    pub Netting-popped :
        (e : MatchEngine F) (j : ℤ) (js : List ℤ) (other : MarginOrder F) (v : Netting own k e)
        → queue e key ≡ j ∷ js
        → eqb_ℤ j k ≡ false
        → let q = f.min v.order.remaining_amount other.remaining_amount in
          Level e.epsilon (net e.epsilon v.order q).remaining_amount
          → Netting own k (pop_front (netted_engine e k j other v.order) key)
    unfolding netted_engine net
    Netting-popped e j js other v h n l =
        let q = f.min v.order.remaining_amount other.remaining_amount in
        let other' = net e.epsilon other q in
        let current' = net e.epsilon v.order q in
        let popped = pop_front (put e j other') key in
        let gone = Lacks-pop_front (put e j other') key k v.unqueued in
        record {
          sound =
              put_unqueued-IsSound popped k current'
                (put_popped-IsSound e key j js other' v.sound h) gone;
          order = current';
          found = lookup-put_self popped k current';
          place = v.place;
          level = l;
          unqueued = gone;
        }

    -- A round that leaves the front open.
    pub Netting-kept :
        (e : MatchEngine F) (j : ℤ) (js : List ℤ) (other : MarginOrder F) (v : Netting own k e)
        → queue e key ≡ j ∷ js
        → (other.symbol, other.side) ≡ key
        → let q = f.min v.order.remaining_amount other.remaining_amount in
          Exceeds e.epsilon (net e.epsilon other q).remaining_amount
          → Level e.epsilon (net e.epsilon v.order q).remaining_amount
          → Netting own k (netted_engine e k j other v.order)
    unfolding netted_engine net
    Netting-kept e j js other v h w p l =
        let q = f.min v.order.remaining_amount other.remaining_amount in
        let other' = net e.epsilon other q in
        let current' = net e.epsilon v.order q in
        record {
          sound =
              put_unqueued-IsSound (put e j other') k current'
                (put_front-IsSound e key j js other' v.sound h w p) v.unqueued;
          order = current';
          found = lookup-put_self (put e j other') k current';
          place = v.place;
          level = l;
          unqueued = v.unqueued;
        }
