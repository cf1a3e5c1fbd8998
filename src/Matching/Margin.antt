-- ===== src/Matching/Margin.antt =====
-- `apply_margin` of src/intra_order_match.rs on every branch.
use Prim.Native.String.{String}
use mathlib.Core.Bool.{false≢true}
use text.Mathlib.TextEquality.{eq_iff}
use crypto_nav_manager.Base.{
  suc, ◌≡◌, refl, sym, ap, subst, ◌∙◌, ◌⊎◌, inl, inr, Bool, true, false, not, ◌||◌, none, some, [],
  arith, length, Outcome, done, failed, ◌>>=◌, Bool-cases, Option-cases, if◌then◌else◌,
}
use crypto_nav_manager.Base.Int.{ℤ, eqb_ℤ}
use crypto_nav_manager.Base.Maps.{lookup}
use crypto_nav_manager.Float.{Float, IsIeee}
use crypto_nav_manager.Matching.{
  Side, buy, sell, opposite, MarginOrder, MatchError, no_real_fill, duplicate_margin, MatchEngine,
  int_key, queue_key, queue_key_eq_iff, pending,
}
use crypto_nav_manager.Matching.State.{put, queue, push_back, pop_front}
use crypto_nav_manager.Matching.Engine.{net_loop, enqueue_rest, apply_margin}
use crypto_nav_manager.Matching.History.{admit}
use crypto_nav_manager.Matching.Levels.{IsTolerance, Exceeds, Level, le-Exceeds}
use crypto_nav_manager.Matching.Soundness.{
  IsSound, index-eq-done, lookup-put_self, queue-pop_front, queue-push_back, push_back-IsSound,
  put_unqueued-IsSound,
}
use crypto_nav_manager.Matching.Counting.{IsCounted}
use crypto_nav_manager.Matching.Rounds.{Netting, netted_engine}
use crypto_nav_manager.Matching.Netting.{net_loop-NetsTo, Lacks-of-none, recall_place}

module _ {F : Type 0} ⦃f : Float F⦄ where
  -- Buyers and sellers of a symbol are never both waiting.
  abbrev pub IsUncrossed : MatchEngine F → Type 0
  IsUncrossed e = (symbol : String) → (queue e (symbol, buy) ≡ []) ⊎ (queue e (symbol, sell) ≡ [])

  -- Popping from the queue at `key` touches no other, and does not fill it.
  abbrev pub Shrinks : MatchEngine F → String × Side → MatchEngine F → Type 0
  Shrinks e key e' =
      ((key' : String × Side) → queue_key.beq key key' ≡ false → queue e' key' ≡ queue e key')
      × (queue e key ≡ [] → queue e' key ≡ [])

  pub Shrinks-pop_front :
      (e : MatchEngine F) (key : String × Side) (e' : MatchEngine F)
      → Shrinks e key e'
      → Shrinks e key (pop_front e' key)
  Shrinks-pop_front e key e' (same, empty) = (
    (λ key' h. queue-pop_front e' key key' ∙ rw h (same key' h)),
    λ n. queue-pop_front e' key key ∙ rw ((queue_key_eq_iff key key).1 refl, empty n),
  )

  Shrinks-empty :
      (e : MatchEngine F) (key : String × Side) (e' : MatchEngine F) (key' : String × Side)
      → Shrinks e key e'
      → queue e key' ≡ []
      → queue e' key' ≡ []
  Shrinks-empty e key e' key' (same, empty) n = elim (Bool-cases (queue_key.beq key key')) [
    | inr other ↦ same key' other ∙ n
    | inl h ↦
        let at = (queue_key_eq_iff key key').0 h in
        subst (λ z. queue e' z ≡ []) at (empty (subst (λ z. queue e z ≡ []) (sym at) n))
  ]

  pub Shrinks-IsUncrossed :
      (e : MatchEngine F) (key : String × Side) (e' : MatchEngine F)
      → Shrinks e key e'
      → IsUncrossed e
      → IsUncrossed e'
  Shrinks-IsUncrossed e key e' w u symbol = elim (u symbol) [
    | inl buyers ↦ inl (Shrinks-empty e key e' (symbol, buy) w buyers)
    | inr sellers ↦ inr (Shrinks-empty e key e' (symbol, sell) w sellers)
  ]

  -- An order joins its side when nobody waits on the other.
  push_back-IsUncrossed :
      (e : MatchEngine F) (symbol : String) (side : Side) (k : ℤ)
      → IsUncrossed e
      → queue e (symbol, opposite side) ≡ []
      → IsUncrossed (push_back e (symbol, side) k)
  unfolding opposite
  push_back-IsUncrossed e symbol buy k u n other =
      rw
        (
          queue-push_back e (symbol, buy) (other, buy) k,
          queue-push_back e (symbol, buy) (other, sell) k,
        )
        (ground (arith, eq_iff symbol other, u other, n))
  push_back-IsUncrossed e symbol sell k u n other =
      rw
        (
          queue-push_back e (symbol, sell) (other, buy) k,
          queue-push_back e (symbol, sell) (other, sell) k,
        )
        (ground (arith, eq_iff symbol other, u other, n))

  Level-Exceeds : (eps x : F) → IsTolerance eps → Level eps x → f.lt eps x ≡ true → Exceeds eps x
  Level-Exceeds eps x t (inl n) h = absurd (false≢true (sym t.1 ∙ ap (f.lt eps) (sym n) ∙ h))
  Level-Exceeds eps x t (inr p) h = p

  settled_empty :
      (eps x : F) {A : Type 0} → IsTolerance eps → f.lt eps x ≡ true → (x ≡ f.nought) ⊎ A → A
  settled_empty eps x t h (inl n) = absurd (false≢true (sym t.1 ∙ ap (f.lt eps) (sym n) ∙ h))
  settled_empty eps x t h (inr a) = a

  admit_place :
      (e : MatchEngine F) (o : MarginOrder F)
      → ((admit e o).symbol ≡ o.symbol)
        × ((admit e o).side ≡ o.side)
        × ((admit e o).remaining_amount ≡ o.open_fill_amount)
  unfolding admit
  admit_place e o =
      let fresh = record o { remaining_amount = o.open_fill_amount; matching_state = pending } in
      recall_place fresh (lookup o.fkey e.first_hedge_timing)
        (lookup o.fkey e.last_hedge_fill_ts_us) (lookup o.fkey e.hedge_order_counts)

  module _ (laws : IsIeee F) (e : MatchEngine F) (o : MarginOrder F) (P : MatchEngine F → Type 0)
      (keep : (e' : MatchEngine F) (j : ℤ) (other current : MarginOrder F)
        → IsTolerance e'.epsilon
        → eqb_ℤ j o.fkey ≡ false
        → lookup j e'.orders ≡ some other
        → lookup o.fkey e'.orders ≡ some current
        → P e'
        → P (netted_engine e' o.fkey j other current))
      (keep_pop : (e' : MatchEngine F) (key : String × Side) → P e' → P (pop_front e' key))
      (keep_push : (e' : MatchEngine F) (key : String × Side) (k : ℤ)
        → P e'
        → P (push_back e' key k)) where
    -- The engine when the order has gone in.
    abbrev pub Admits : Outcome MatchError (MatchEngine F) → Type 0
    Admits r = (e' : MatchEngine F) × (r ≡ done e') × IsSound e' × IsUncrossed e' × P e'

    admitted-Netting :
        IsSound e
        → lookup o.fkey e.orders ≡ none
        → Exceeds e.epsilon o.open_fill_amount
        → Netting (o.symbol, o.side) o.fkey (put e o.fkey (admit e o))
    admitted-Netting s new open_o =
        let (symbol, side, remaining) = admit_place e o in
        let unqueued =
          λ (key : String × Side). Lacks-of-none e key o.fkey (queue e key) new (s.queues key).0 in
        record {
          sound = put_unqueued-IsSound e o.fkey (admit e o) s unqueued;
          order = admit e o;
          found = lookup-put_self e o.fkey (admit e o);
          place = ground (arith, symbol, side);
          level = inr (rw remaining open_o);
          unqueued = unqueued;
        }

    apply_margin-eq :
        IsSound e
        → lookup o.fkey e.orders ≡ none
        → Exceeds e.epsilon o.open_fill_amount
        → let key : String × Side = (o.symbol, opposite o.side) in
          apply_margin e o ≡ (
            net_loop (suc (suc (length (queue e key)))) (put e o.fkey (admit e o)) key o.fkey
            >>= λ e₂. enqueue_rest e₂ (o.symbol, o.side) o.fkey)
    unfolding apply_margin
    apply_margin-eq s new open_o =
        rw
          (
            open_o.0,
            le-Exceeds laws e.epsilon s.tolerance o.open_fill_amount open_o,
            new,
            apply_margin,
          )
          refl

    enqueue_rest-eq :
        (e' : MatchEngine F) (key : String × Side) (k : ℤ) (order : MarginOrder F)
        → lookup k e'.orders ≡ some order
        → enqueue_rest e' key k
          ≡ done (if f.lt e'.epsilon order.remaining_amount then push_back e' key k else e')
    unfolding enqueue_rest
    enqueue_rest-eq e' key k order h = rw (index-eq-done e' k h)

    -- What the loop leaves, with the rest of the order behind the others of its side.
    enqueue_rest-Admits :
        (e₂ : MatchEngine F) (v : Netting (o.symbol, o.side) o.fkey e₂)
        → P e₂
        → IsUncrossed e
        → Shrinks e (o.symbol, opposite o.side) e₂
        → (v.order.remaining_amount ≡ f.nought) ⊎ (queue e₂ (o.symbol, opposite o.side) ≡ [])
        → Admits (enqueue_rest e₂ (o.symbol, o.side) o.fkey)
    enqueue_rest-Admits e₂ v p u shrinks end =
        let kept = Shrinks-IsUncrossed e _ e₂ shrinks u in
        let run = enqueue_rest-eq e₂ (o.symbol, o.side) o.fkey v.order v.found in
        elim (Bool-cases (f.lt e₂.epsilon v.order.remaining_amount)) [
          | inr used ↦ (e₂, rw used at run, v.sound, kept, p)
          | inl waits ↦
              let open_rest = Level-Exceeds e₂.epsilon _ v.sound.tolerance v.level waits in
              let exhausted = settled_empty e₂.epsilon _ v.sound.tolerance waits end in
              (
                push_back e₂ (o.symbol, o.side) o.fkey,
                rw waits at run,
                push_back-IsSound e₂ (o.symbol, o.side) o.fkey v.sound
                    (v.order, v.found, v.place, open_rest) (v.unqueued _),
                push_back-IsUncrossed e₂ o.symbol o.side o.fkey kept exhausted,
                keep_push e₂ _ o.fkey p,
              )
        ]

    apply_margin-Admits :
        IsSound e
        → IsUncrossed e
        → lookup o.fkey e.orders ≡ none
        → Exceeds e.epsilon o.open_fill_amount
        → P (put e o.fkey (admit e o))
        → Admits (apply_margin e o)
    unfolding netted_engine
    apply_margin-Admits s u new open_o p =
        let key : String × Side = (o.symbol, opposite o.side) in
        let e₁ = put e o.fkey (admit e o) in
        let (e₂, run, v, (p', shrinks), end) =
          net_loop-NetsTo laws (o.symbol, o.side) key o.fkey (λ e'. P e' × Shrinks e key e')
            (λ e' j other current t n g h (q, w). (keep e' j other current t n g h q, w))
            (λ e' (q, w). (keep_pop e' key q, Shrinks-pop_front e key e' w))
            (suc (suc (length (queue e key)))) e₁ (queue e key) (admitted-Netting s new open_o)
            (p, ((λ key' h. refl), λ h. h)) refl (omega arith) in
        let (e₃, rest, sound, uncrossed, p'') = enqueue_rest-Admits e₂ v p' u shrinks end in
        (e₃, rw (apply_margin-eq s new open_o, run) rest, sound, uncrossed, p'')

module _ {F : Type 0} ⦃f : Float F⦄ where
  -- The first guard of `apply_margin`.
  abbrev pub unfilled : MatchEngine F → MarginOrder F → Bool
  unfilled e o = not (f.is_finite o.open_fill_amount) || f.le o.open_fill_amount e.epsilon

  filled_Exceeds :
      (laws : IsIeee F) (eps x : F)
      → IsTolerance eps
      → (not (f.is_finite x) || f.le x eps) ≡ false
      → Exceeds eps x
  filled_Exceeds laws eps x t h = ground (arith, laws.le-not_lt x eps, t)

  -- On a sound, uncrossed engine whose hedges are counted, and under the facts of IEEE 754,
  -- `apply_margin` refuses exactly an order without a real fill or with a key that is there.
  -- Otherwise it ends, in such an engine again.
  pub apply_margin-Keeps :
      (laws : IsIeee F) (e : MatchEngine F) (o : MarginOrder F)
      → IsSound e
      → IsUncrossed e
      → IsCounted e
      → ((apply_margin e o ≡ failed (no_real_fill o.fkey)) × (unfilled e o ≡ true))
        ⊎ ((apply_margin e o ≡ failed (duplicate_margin o.fkey))
            × (unfilled e o ≡ false)
            × ((old : MarginOrder F) × (lookup o.fkey e.orders ≡ some old)))
        ⊎ ((e' : MatchEngine F) × (apply_margin e o ≡ done e')
            × IsSound e'
            × IsUncrossed e'
            × IsCounted e'
            × (unfilled e o ≡ false)
            × (lookup o.fkey e.orders ≡ none))
  unfolding apply_margin netted_engine
  apply_margin-Keeps laws e o s u c = elim (Bool-cases (unfilled e o)) [
    | inl bad ↦ inl (rw bad, bad)
    | inr filled ↦ elim (Option-cases (lookup o.fkey e.orders)) [
      | inr (old, there) ↦ inr (inl (rw (filled, there, apply_margin), filled, (old, there)))
      | inl new ↦
          let open_o = filled_Exceeds laws e.epsilon o.open_fill_amount s.tolerance filled in
          let (e', run, s', u', c') =
            apply_margin-Admits laws e o IsCounted (λ _ _ _ _ _ _ _ _ k. k) (λ _ _ k. k)
              (λ _ _ _ k. k) s u new open_o c in
          inr (inr (e', run, s', u', c', filled, new))
    ]
  ]
