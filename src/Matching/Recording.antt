-- ===== src/Matching/Recording.antt =====
-- The recording of hedges in src/intra_order_match.rs against the rest of the engine.
use Prim.Native.String.{String}
use crypto_nav_manager.Base.{
  ◌≡◌, refl, ap, sym, subst, ◌∙◌, inl, inr, Option, none, some, List, [], ◌∷◌, All, done,
  Bool-cases, Option-cases,
}
use crypto_nav_manager.Base.Int.{ℤ, pos, eqb_ℤ, eqb_ℤ_iff}
use crypto_nav_manager.Base.Maps.{lookup, insert, lookup-insert}
use crypto_nav_manager.Float.{Float}
use crypto_nav_manager.Matching.{
  Side, MarginOrder, FuturesOrder, HedgeTiming, MatchEngine, int_key, queue_key,
}
use crypto_nav_manager.Matching.State.{put, queue, queue_of, is_member, is_replaced, with_timing}
use crypto_nav_manager.Matching.History.{
  record_first_hedge_timing, timing_of, count_hedge, note_fill, copy_history, copy_timing,
  record_hedge_order,
}
use crypto_nav_manager.Matching.Soundness.{Live, IsQueue, IsSound}
use crypto_nav_manager.Matching.Counting.{
  IsCounted, CountsOnce, SameCounts, record_first_hedge_timing-SameCounts, note_fill-SameCounts,
  IsCounted-of-SameCounts, count_hedge-IsCounted, count_hedge-CountsOnce, CountsOnce-of-SameCounts,
}

module _ {F : Type 0} where
  -- An order without what the hedges leave in it: their times and their number.
  abbrev pub unhedged : MarginOrder F → MarginOrder F
  unhedged o = record o {
    hts = none;
    hedge_new_ts_us = none;
    hedge_terminal_ts_us = none;
    fts = none;
    close_count = pos 0;
  }

  abbrev pub Carries : MarginOrder F → MarginOrder F → Type 0
  Carries o o' = unhedged o' ≡ unhedged o

  abbrev pub Related : Option (MarginOrder F) → Option (MarginOrder F) → Type 0
  Related none none = Unit
  Related none (some o') = ⊥
  Related (some o) none = ⊥
  Related (some o) (some o') = Carries o o'

  pub record SameBook (e e' : MatchEngine F) : Type 0 where
    pub epsilon : e'.epsilon ≡ e.epsilon
    pub queues : e'.queues ≡ e.queues
    pub orders : (k : ℤ) → Related (lookup k e.orders) (lookup k e'.orders)

  -- The order, if it is there, has this number of hedges.
  abbrev pub TellsCount : Option (MarginOrder F) → Option ℤ → Type 0
  TellsCount none n = Unit
  TellsCount (some o) n = n ≡ some o.close_count

  Related-refl : (x : Option (MarginOrder F)) → Related x x
  Related-refl none = tt
  Related-refl (some o) = refl

  Related-trans : (x y z : Option (MarginOrder F)) → Related x y → Related y z → Related x z
  Related-trans none none z r t = t
  Related-trans none (some y) z r t = absurd r
  Related-trans (some x) none z r t = absurd r
  Related-trans (some x) (some y) none r t = t
  Related-trans (some x) (some y) (some z) r t = t ∙ r

  SameBook-trans : (e e' e'' : MatchEngine F) → SameBook e e' → SameBook e' e'' → SameBook e e''
  SameBook-trans e e' e'' a b = record {
    epsilon = b.epsilon ∙ a.epsilon;
    queues = b.queues ∙ a.queues;
    orders = λ k. Related-trans (lookup k e.orders) _ _ (a.orders k) (b.orders k);
  }

  -- One order is replaced by one that carries the same.
  SameBook-put :
      (e : MatchEngine F) (k : ℤ) (o o' : MarginOrder F)
      → lookup k e.orders ≡ some o
      → Carries o o'
      → SameBook e (put e k o')
  SameBook-put e k o o' h c = record {
    epsilon = refl;
    queues = refl;
    orders = λ j. rw (lookup-insert k j o' e.orders) (elim (Bool-cases (eqb_ℤ k j)) [
      | inr other ↦ rw other (Related-refl (lookup j e.orders))
      | inl same ↦ rw (same, ← (eqb_ℤ_iff k j).0 same, h) c
    ]);
  }

  -- A change of the records behind the orders and queues.
  pub SameBook-records :
      (e e' : MatchEngine F)
      → e'.epsilon ≡ e.epsilon
      → e'.queues ≡ e.queues
      → e'.orders ≡ e.orders
      → SameBook e e'
  SameBook-records e e' a b c = record {
    epsilon = a;
    queues = b;
    orders = λ k. rw c (Related-refl (lookup k e.orders));
  }

  copy_timing-SameBook : (e : MatchEngine F) (k : ℤ) → SameBook e (copy_timing e k)
  copy_timing-SameBook e k = elim (Option-cases (lookup k e.orders)) [
    | inl nothing ↦ rw (nothing, copy_timing) (SameBook-records e e refl refl refl)
    | inr (o, h) ↦ elim (Option-cases (lookup k e.first_hedge_timing)) [
      | inl nothing ↦ rw (h, nothing, copy_timing) (SameBook-records e e refl refl refl)
      | inr (t, g) ↦ rw (h, g, copy_timing) (SameBook-put e k o (with_timing o t) h refl)
    ]
  ]

  pub record_first_hedge_timing-SameBook :
      (e : MatchEngine F) (k : ℤ) (t : HedgeTiming) → SameBook e (record_first_hedge_timing e k t)
  unfolding record_first_hedge_timing
  record_first_hedge_timing-SameBook e k t =
      elim (Bool-cases (is_replaced (lookup k e.first_hedge_timing) t)) [
        | inl now ↦ rw now (
            SameBook-trans e _ _ (SameBook-records e _ refl refl refl) (
              copy_timing-SameBook
                (record e { first_hedge_timing = insert k t e.first_hedge_timing }) k))
        | inr before ↦ rw before (copy_timing-SameBook e k)
      ]

  note_fill-SameBook : (e : MatchEngine F) (k : ℤ) (ts : Option ℤ) → SameBook e (note_fill e k ts)
  unfolding note_fill
  note_fill-SameBook e k none = SameBook-records e e refl refl refl
  note_fill-SameBook e k (some ts) = SameBook-records e _ refl refl refl

  count_hedge-SameBook : (e : MatchEngine F) (k id : ℤ) → SameBook e (count_hedge e k id)
  unfolding count_hedge
  count_hedge-SameBook e k id = elim (Bool-cases (is_member (k, id) e.seen_hedge_orders)) [
    | inl old ↦ rw old (SameBook-records e e refl refl refl)
    | inr new ↦ rw new (SameBook-records e _ refl refl refl)
  ]

  copy_history-SameBook :
      (e : MatchEngine F) (k n : ℤ)
      → lookup k e.hedge_order_counts ≡ some n
      → (e' : MatchEngine F) × (copy_history e k ≡ done e')
        × SameBook e e'
        × SameCounts e e'
        × TellsCount (lookup k e'.orders) (lookup k e'.hedge_order_counts)
  unfolding copy_history
  copy_history-SameBook e k n h = elim (Option-cases (lookup k e.orders)) [
    | inl nothing ↦ (
      e,
      rw (nothing, copy_history),
      SameBook-records e e refl refl refl,
      (refl, refl),
      rw nothing tt,
    )
    | inr (o, g) ↦
        let o' = record o { fts = lookup k e.last_hedge_fill_ts_us; close_count = n } in
        (
          put e k o',
          rw (g, h, copy_history),
          SameBook-put e k o o' g refl,
          (refl, refl),
          rw (lookup-insert k k o' e.orders) (rw ((eqb_ℤ_iff k k).1 refl) h),
        )
  ]

  -- Where every hedge that was seen is counted, recording a hedge ends without a panic and leaves every hedge
  -- counted. It changes no queue and of no order more than the times and the number of its hedges, and it is
  -- one more hedge in the counter of its order, and in no other, if and only if it was not seen before. The order,
  -- if it is there, then has the counter's number.
  pub record_hedge_order-SameBook :
      (e : MatchEngine F) (k : ℤ) (o : FuturesOrder F)
      → IsCounted e
      → (e' : MatchEngine F) × (record_hedge_order e k o ≡ done e')
        × SameBook e e'
        × IsCounted e'
        × CountsOnce e k o.client_order_id e'
        × TellsCount (lookup k e'.orders) (lookup k e'.hedge_order_counts)
  unfolding record_hedge_order
  record_hedge_order-SameBook e k o c =
      let id = o.client_order_id in
      let e₁ = record_first_hedge_timing e k (timing_of o) in
      let e₂ = count_hedge e₁ k id in
      let e₃ = note_fill e₂ k o.fill_ts_us in
      let before = record_first_hedge_timing-SameCounts e k (timing_of o) in
      let c₁ = IsCounted-of-SameCounts e e₁ before c in
      let (c₂, (n, h)) = count_hedge-IsCounted e₁ k id c₁ in
      let same = note_fill-SameCounts e₂ k o.fill_ts_us in
      let (e₄, run, book, same', told) = copy_history-SameBook e₃ k n (rw (same.1) h) in
      let after : SameCounts e₂ e₄ = (same'.0 ∙ same.0, same'.1 ∙ same.1) in
      (
        e₄,
        run,
        SameBook-trans e e₁ e₄ (record_first_hedge_timing-SameBook e k (timing_of o)) (
            SameBook-trans e₁ e₂ e₄ (count_hedge-SameBook e₁ k id)
              (SameBook-trans e₂ e₃ e₄ (note_fill-SameBook e₂ k o.fill_ts_us) book)),
        IsCounted-of-SameCounts e₂ e₄ after c₂,
        CountsOnce-of-SameCounts e e₂ e₁ e₄ k id before after (count_hedge-CountsOnce e₁ k id),
        told,
      )

module _ {F : Type 0} ⦃f : Float F⦄ where
  Live-SameBook :
      (e e' : MatchEngine F) (key : String × Side) (ks : List ℤ)
      → SameBook e e'
      → All (Live e key) ks
      → All (Live e' key) ks
  Live-SameBook e e' key [] b a = tt
  Live-SameBook e e' key (k ∷ ks) b ((o, h, s, p), a) = (
    related_live (lookup k e'.orders) refl
        (subst (λ x. Related x (lookup k e'.orders)) h (b.orders k)),
    Live-SameBook e e' key ks b a,
  )
    where
      related_live :
          (x : Option (MarginOrder F)) → lookup k e'.orders ≡ x → Related (some o) x → Live e' key k
      related_live none g r = absurd r
      related_live (some o') g r = (
        o',
        g,
        ap (λ x. (x.symbol, x.side)) r ∙ s,
        rw (b.epsilon, ap (λ x. x.remaining_amount) r) p,
      )

  pub SameBook-IsSound : (e e' : MatchEngine F) → SameBook e e' → IsSound e → IsSound e'
  SameBook-IsSound e e' b s = record {
    tolerance = rw (b.epsilon) (s.tolerance);
    queues = λ key.
        subst (λ x. IsQueue e' key (queue_of (lookup key x))) (sym b.queues)
          (Live-SameBook e e' key (queue e key) b (s.queues key).0, (s.queues key).1);
  }
