-- ===== src/Matching/Futures.antt =====
-- `apply_futures` of src/intra_order_match.rs on every branch.
use Prim.Native.String.{String}
use crypto_nav_manager.Base.{
  suc, ◌≡◌, refl, sym, ap, subst, ◌∙◌, ◌⊎◌, inl, inr, Bool, true, false, not, ◌&&◌, ◌||◌, Option,
  none, some, [], arith, length, Outcome, done, failed, Bool-cases,
}
use crypto_nav_manager.Base.Int.{ℤ}
use crypto_nav_manager.Base.Maps.{lookup}
use crypto_nav_manager.Float.{Float, IsIeee}
use crypto_nav_manager.Matching.{
  Side, opposite, MarginOrder, FuturesOrder, HedgeResult, MatchError, invalid_fill,
  no_fill_timestamp, MatchEngine, int_key, queue_key,
}
use crypto_nav_manager.Matching.State.{queue, queue_of, pop_front, has_fill}
use crypto_nav_manager.Matching.Engine.{hedge_loop, record_anchor, apply_futures}
use crypto_nav_manager.Matching.Levels.{IsTolerance, Level, le_nought}
use crypto_nav_manager.Matching.Soundness.{IsSound}
use crypto_nav_manager.Matching.Hedging.{closed_engine, hedge_loop-used, hedge_loop-HedgesTo}
use crypto_nav_manager.Matching.Counting.{IsCounted}
use crypto_nav_manager.Matching.Recording.{
  SameBook, SameBook-records, record_hedge_order-SameBook, SameBook-IsSound,
}
use crypto_nav_manager.Matching.Margin.{
  IsUncrossed, Shrinks, Shrinks-pop_front, Shrinks-IsUncrossed,
}

module _ {F : Type 0} ⦃f : Float F⦄ where
  record_anchor-SameBook :
      (e : MatchEngine F) (o : FuturesOrder F) (k : Option ℤ)
      → IsCounted e
      → (e' : MatchEngine F) × (record_anchor e o k ≡ done e') × SameBook e e' × IsCounted e'
  unfolding record_anchor
  record_anchor-SameBook e o none c = (e, refl, SameBook-records e e refl refl refl, c)
  record_anchor-SameBook e o (some k) c =
      let (e', run, book, counted, _, _) = record_hedge_order-SameBook e k o c in
      (e', run, book, counted)

  -- The guards of `apply_futures`.
  abbrev pub invalid : MatchEngine F → FuturesOrder F → Bool
  invalid e o = not (f.is_finite o.amount) || f.lt o.amount (f.neg e.epsilon)

  abbrev pub untimed : MatchEngine F → FuturesOrder F → Bool
  untimed e o = f.lt e.epsilon o.amount && not (has_fill o.fill_ts_us)

  module _ (laws : IsIeee F) where
    -- `order.amount.max(0.0)` is the amount of a real fill, and else not worth a match.
    opening_amount :
        (eps amount : F)
        → IsTolerance eps
        → f.is_finite amount ≡ true
        → (f.lt eps (f.max amount f.nought) ≡ false) ⊎ Level eps (f.max amount f.nought)
    opening_amount eps amount t h = elim (Bool-cases (f.lt eps amount)) [
      | inl more ↦
          let positive = laws.le_lt_trans f.nought eps amount (le_nought laws eps t) more in
          inr (inr (rw (laws.max_nought amount positive) (h, more)))
      | inr less ↦ elim (laws.max_pick amount f.nought h laws.nought_finite) [
        | inl first ↦ inl (ap (f.lt eps) first ∙ less)
        | inr second ↦ inl (ap (f.lt eps) second ∙ t.1)
      ]
    ]

  module _ (laws : IsIeee F) (e : MatchEngine F) (o : FuturesOrder F) (P : MatchEngine F → Type 0)
      (keep : (e' : MatchEngine F) (j : ℤ) (order : MarginOrder F) (remaining : F)
        → IsTolerance e'.epsilon
        → lookup j e'.orders ≡ some order
        → P e'
        → P (closed_engine e' j order o remaining))
      (keep_pop : (e' : MatchEngine F) (key : String × Side) → P e' → P (pop_front e' key))
      (keep_book : (e' e'' : MatchEngine F) → SameBook e' e'' → P e' → P e'') where
    abbrev pub Serves : Outcome MatchError (MatchEngine F × HedgeResult F) → Type 0
    Serves r =
        (e' : MatchEngine F) × (h : HedgeResult F) × (r ≡ done (e', h))
        × IsSound e'
        × IsUncrossed e'
        × IsCounted e'
        × P e'
        × ((f.lt e.epsilon h.unallocated_amount ≡ false)
            ⊎ (queue e' (o.symbol, opposite o.side) ≡ []))

    -- The loop, whatever the amount.
    hedge_loop_total :
        (e₁ : MatchEngine F) (key : String × Side) (anchor : Bool)
        → IsSound e₁
        → P e₁ × Shrinks e₁ key e₁ × IsCounted e₁
        → f.is_finite o.amount ≡ true
        → (e₂ : MatchEngine F) × (rest : F) × (end : Bool) × (hedge_loop
              (suc (suc (length (queue e₁ key))))
              e₁
              key
              o
              (f.max o.amount f.nought)
              anchor
            ≡ done (e₂, rest, end))
          × IsSound e₂
          × (P e₂ × Shrinks e₁ key e₂ × IsCounted e₂)
          × ((f.lt e₁.epsilon rest ≡ false) ⊎ (queue e₂ key ≡ []))
    unfolding closed_engine
    hedge_loop_total e₁ key anchor s p h =
        elim (opening_amount laws e₁.epsilon o.amount s.tolerance h) [
          | inl small ↦ (
            e₁,
            f.max o.amount f.nought,
            anchor,
            hedge_loop-used _ e₁ key o _ anchor small,
            s,
            p,
            inl small,
          )
          | inr level ↦
              let (e₂, rest, end, run, s₂, p₂, same, over) =
                hedge_loop-HedgesTo laws key o (λ e'. P e' × Shrinks e₁ key e' × IsCounted e')
                  (λ e' j order r t g (q, w, c). (keep e' j order r t g q, w, c))
                  (λ e' (q, w, c). (keep_pop e' key q, Shrinks-pop_front e₁ key e' w, c))
                  (suc (suc (length (queue e₁ key)))) e₁ (queue e₁ key) _ anchor s p level refl
                  (omega arith) in
              (
                e₂,
                rest,
                end,
                run,
                s₂,
                p₂,
                elim over [
                  | inl used ↦ inl (ap (f.lt e₁.epsilon) used ∙ s.tolerance.1)
                  | inr (empty, _) ↦ inr empty
                ],
              )
        ]

    pub apply_futures-Serves :
        IsSound e
        → IsUncrossed e
        → IsCounted e
        → P e
        → invalid e o ≡ false
        → untimed e o ≡ false
        → Serves (apply_futures e o)
    unfolding apply_futures
    apply_futures-Serves s u c p valid timed =
        let (e₁, noted, book, c₁) = record_anchor-SameBook e o o.main_fkey c in
        let key : String × Side = (o.symbol, opposite o.side) in
        let s₁ = SameBook-IsSound e e₁ book s in
        let u₁ : IsUncrossed e₁ = λ symbol.
          subst
            (λ x.
              (queue_of (lookup (symbol, Side.buy) x) ≡ [])
              ⊎ (queue_of (lookup (symbol, Side.sell) x) ≡ []))
            (sym book.queues) (u symbol) in
        let start : P e₁ × Shrinks e₁ key e₁ × IsCounted e₁ =
          (keep_book e e₁ book p, ((λ k' h. refl), λ h. h), c₁) in
        let (e₂, rest, end, run, s₂, (p₂, w, c₂), over) =
          hedge_loop_total e₁ key (f.le o.amount e.epsilon) s₁ start (ground arith) in
        (
          e₂,
          record {
            order = o;
            allocated_amount = f.sub o.amount rest;
            unallocated_amount = rest;
            anchor_matched = end;
          },
          rw (valid, timed, noted, run),
          s₂,
          Shrinks-IsUncrossed e₁ key e₂ w u₁,
          c₂,
          p₂,
          subst (λ x. (f.lt x rest ≡ false) ⊎ (queue e₂ key ≡ [])) book.epsilon over,
        )

module _ {F : Type 0} ⦃f : Float F⦄ where
  -- On a sound, uncrossed engine whose hedges are counted, and under the facts of IEEE 754,
  -- `apply_futures` refuses a hedge exactly if its amount is not finite or too far below zero, or if
  -- it is filled without a fill time. Otherwise it ends, in such an engine again, and what is left of
  -- the hedge does not exceed the tolerance or no order waits on the other side.
  pub apply_futures-Keeps :
      (laws : IsIeee F) (e : MatchEngine F) (o : FuturesOrder F)
      → IsSound e
      → IsUncrossed e
      → IsCounted e
      → ((apply_futures e o ≡ failed (invalid_fill o.client_order_id)) × (invalid e o ≡ true))
        ⊎ ((apply_futures e o ≡ failed (no_fill_timestamp o.client_order_id))
            × (invalid e o ≡ false)
            × (untimed e o ≡ true))
        ⊎ ((e' : MatchEngine F) × (h : HedgeResult F) × (apply_futures e o ≡ done (e', h))
            × IsSound e'
            × IsUncrossed e'
            × IsCounted e'
            × (invalid e o ≡ false)
            × (untimed e o ≡ false)
            × ((f.lt e.epsilon h.unallocated_amount ≡ false)
                ⊎ (queue e' (o.symbol, opposite o.side) ≡ [])))
  unfolding apply_futures
  apply_futures-Keeps laws e o s u c = elim (Bool-cases (invalid e o)) [
    | inl bad ↦ inl (rw bad, bad)
    | inr valid ↦ elim (Bool-cases (untimed e o)) [
      | inl bad ↦ inr (inl (rw (valid, bad), valid, bad))
      | inr timed ↦
          let (e', h, run, s', u', c', _, over) =
            apply_futures-Serves laws e o (λ _. Unit {0}) (λ _ _ _ _ _ _ _. tt) (λ _ _ _. tt)
              (λ _ _ _ _. tt) s u c tt valid timed in
          inr (inr (e', h, run, s', u', c', valid, timed, over))
    ]
  ]
