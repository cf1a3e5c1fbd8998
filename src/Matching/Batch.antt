-- ===== src/Matching/Batch.antt =====
-- `MatchEngine::apply` of src/intra_order_match.rs: the invariant over a batch of events, and events
-- released in chunks.
use crypto_nav_manager.Base.{
  ◌≡◌, refl, sym, ap, ◌∙◌, ◌⊎◌, inl, inr, List, [], ◌∷◌, ◌++◌, arith, Outcome, done, failed, ◌>>=◌,
  Outcome-cases,
}
use mathlib.Core.List.{append_assoc, append-nil}
use crypto_nav_manager.Base.Sort.{
  sort_by, IsSorted, sort_by-of-IsSorted, IsSorted-left, IsSorted-right,
}
use crypto_nav_manager.Float.{Float, IsIeee}
use crypto_nav_manager.Matching.{
  MatchEvent, margin, futures, HedgeResult, MatchError, MatchEngine, event_le,
}
use crypto_nav_manager.Matching.Engine.{apply_margin, apply_futures, apply_events, apply}
use crypto_nav_manager.Matching.Soundness.{IsSound}
use crypto_nav_manager.Matching.Counting.{IsCounted}
use crypto_nav_manager.Matching.Margin.{IsUncrossed, apply_margin-Keeps}
use crypto_nav_manager.Matching.Futures.{apply_futures-Keeps}

module _ {F : Type 0} ⦃f : Float F⦄ where
  pub record IsReady (e : MatchEngine F) : Type 0 where
    pub sound : IsSound e
    pub uncrossed : IsUncrossed e
    pub counted : IsCounted e

  -- A batch ends, well or with an error; it neither panics nor loops.
  abbrev pub Ends : Outcome MatchError (List (HedgeResult F)) → Type 0
  Ends r =
      ((hedges : List (HedgeResult F)) × (r ≡ done hedges)) ⊎ ((x : MatchError) × (r ≡ failed x))

  apply_events-IsReady :
      (laws : IsIeee F) (e : MatchEngine F) (events : List (MatchEvent F))
      (hedges : List (HedgeResult F))
      → IsReady e
      → IsReady (apply_events e events hedges).0 × Ends (apply_events e events hedges).1
  unfolding apply_events
  apply_events-IsReady laws e [] hedges v = (v, inl (hedges, refl))
  apply_events-IsReady laws e (margin o ∷ rest) hedges v =
      elim (apply_margin-Keeps laws e o v.sound v.uncrossed v.counted) [
        | inl (bad, _) ↦ rw (bad, apply_events) (v, inr (_, refl))
        | inr (inl (bad, _, _)) ↦ rw (bad, apply_events) (v, inr (_, refl))
        | inr (inr (e', run, s, u, c, _, _)) ↦
            rw (run, apply_events)
              (apply_events-IsReady laws e' rest hedges
                (record { sound = s; uncrossed = u; counted = c }))
      ]
  apply_events-IsReady laws e (futures o ∷ rest) hedges v =
      elim (apply_futures-Keeps laws e o v.sound v.uncrossed v.counted) [
        | inl (bad, _) ↦ rw (bad, apply_events) (v, inr (_, refl))
        | inr (inl (bad, _, _)) ↦ rw (bad, apply_events) (v, inr (_, refl))
        | inr (inr (e', h, run, s, u, c, _, _, _)) ↦
            rw (run, apply_events)
              (apply_events-IsReady laws e' rest (hedges ++ h ∷ [])
                (record { sound = s; uncrossed = u; counted = c }))
      ]

  -- Under the facts of IEEE 754 and whatever the events, `apply` ends without a panic, well or with
  -- an error, and leaves a ready engine ready: its queues list open orders of their own symbol and
  -- side, each once, the two sides of a symbol never wait together, and every hedge that was seen is
  -- counted: each stands once among the seen, and the counter of each order is at least the number of the
  -- hedges seen for it.
  pub apply-IsReady :
      (laws : IsIeee F) (e : MatchEngine F) (events : List (MatchEvent F))
      → IsReady e
      → IsReady (apply e events).0 × Ends (apply e events).1
  unfolding apply
  apply-IsReady laws e events v = apply_events-IsReady laws e (sort_by event_le events) [] v

  -- The result of a chunk that follows others.
  abbrev pub after :
      List (HedgeResult F)
      → MatchEngine F × Outcome MatchError (List (HedgeResult F))
      → MatchEngine F × Outcome MatchError (List (HedgeResult F))
  after before (e, r) = (e, r >>= λ hedges. done (before ++ hedges))

  apply_events-after :
      (e : MatchEngine F) (events : List (MatchEvent F)) (before hedges : List (HedgeResult F))
      → apply_events e events (before ++ hedges) ≡ after before (apply_events e events hedges)
  unfolding apply_events
  apply_events-after e [] before hedges = refl
  apply_events-after e (margin o ∷ rest) before hedges = elim (Outcome-cases (apply_margin e o)) [
    | inl (e', h) ↦ rw (h, apply_events) (apply_events-after e' rest before hedges)
    | inr (inl (x, h)) ↦ rw (h, apply_events)
    | inr (inr (inl h)) ↦ rw (h, apply_events)
    | inr (inr (inr h)) ↦ rw (h, apply_events)
  ]
  apply_events-after e (futures o ∷ rest) before hedges = elim (Outcome-cases (apply_futures e o)) [
    | inl ((e', r), h) ↦
        rw (h, apply_events, append_assoc before hedges (r ∷ []))
          (apply_events-after e' rest before (hedges ++ r ∷ []))
    | inr (inl (x, h)) ↦ rw (h, apply_events)
    | inr (inr (inl h)) ↦ rw (h, apply_events)
    | inr (inr (inr h)) ↦ rw (h, apply_events)
  ]

  apply_events-append :
      (e e' : MatchEngine F) (xs ys : List (MatchEvent F)) (hedges hedges' : List (HedgeResult F))
      → apply_events e xs hedges ≡ (e', done hedges')
      → apply_events e (xs ++ ys) hedges ≡ apply_events e' ys hedges'
  unfolding apply_events
  apply_events-append e e' [] ys hedges hedges' h = ground (arith, h)
  apply_events-append e e' (margin o ∷ xs) ys hedges hedges' h =
      elim (Outcome-cases (apply_margin e o)) [
        | inl (e₁, g) ↦
            rw (g, apply_events)
              (apply_events-append e₁ e' xs ys hedges hedges' (rw (g, apply_events) at h))
        | inr (inl (x, g)) ↦ cc (rw (g, apply_events) at h)
        | inr (inr (inl g)) ↦ cc (rw (g, apply_events) at h)
        | inr (inr (inr g)) ↦ cc (rw (g, apply_events) at h)
      ]
  apply_events-append e e' (futures o ∷ xs) ys hedges hedges' h =
      elim (Outcome-cases (apply_futures e o)) [
        | inl ((e₁, r), g) ↦
            rw (g, apply_events)
              (apply_events-append e₁ e' xs ys (hedges ++ r ∷ []) hedges'
                (rw (g, apply_events) at h))
        | inr (inl (x, g)) ↦ cc (rw (g, apply_events) at h)
        | inr (inr (inl g)) ↦ cc (rw (g, apply_events) at h)
        | inr (inr (inr g)) ↦ cc (rw (g, apply_events) at h)
      ]

  -- Chunk invariance: on events in their canonical order, a batch gives what its first chunk and then
  -- its second give, the engine and the hedges or the error, if the first chunk succeeds.
  pub apply-append :
      (e e' : MatchEngine F) (xs ys : List (MatchEvent F)) (hedges : List (HedgeResult F))
      → IsSorted event_le (xs ++ ys)
      → apply e xs ≡ (e', done hedges)
      → apply e (xs ++ ys) ≡ after hedges (apply e' ys)
  unfolding apply
  apply-append e e' xs ys hedges s h =
      let left = sort_by-of-IsSorted event_le xs (IsSorted-left event_le xs ys s) in
      rw
        (
          sort_by-of-IsSorted event_le (xs ++ ys) s,
          sort_by-of-IsSorted event_le ys (IsSorted-right event_le xs ys s),
        )
        (apply_events-append e e' xs ys [] hedges (rw left at h)
          ∙ rw (← apply_events-after e' ys hedges [])
              (ap (apply_events e' ys) (sym (append-nil hedges))))
