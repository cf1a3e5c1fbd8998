-- ===== src/Pnl/Boundaries.antt =====
-- src/pnl.rs, `calculate`: which events count for the total PnL at the start of a rolling window.
use crypto_nav_manager.Base.{
  ℕ, suc, ltb, ◌≡◌, ap, sym, subst, ◌∙◌, true, false, inl, inr, Bool-cases, List, [], ◌∷◌, ◌++◌,
  All, done, >>=-eq-done, done-inj, arith,
}
use crypto_nav_manager.Base.Sort.{Chain, Chain-right}
use crypto_nav_manager.Float.{Float}
use crypto_nav_manager.Pnl
use crypto_nav_manager.Pnl.{PnlSourceKind, PnlInputs, PnlEvent, PnlError, event_le, Literals}
use crypto_nav_manager.Pnl.States.{States, Baselines, has, all_metrics}
use crypto_nav_manager.Pnl.Track.{
  Track, Curves, before, from_start, capture, capture_rest, follow_event, follow, plot, draw_event,
  draw,
}
use crypto_nav_manager.Pnl.Calculate.{sorted_events, start_curves, replay_events}
use crypto_nav_manager.Pnl.Order.{
  at, keys, before-from_start, from_start-All, Within, later-Within, rolling_boundaries,
  rolling_boundaries-Within, sorted_events-Chain,
}
use crypto_nav_manager.Pnl.Captures.{
  IsTotalAt, Adds, stepped, capture_rest-Adds, capture-Adds, follow_event-stepped, stepped-Within,
  stepped-Adds,
}

module _ {F : Type 0} ⦃f : Float F⦄ (literals : Literals F) (selected : List (List ℕ)) where
  follow-Adds :
      (end : ℕ) (t : Track F) (es later_es : List (PnlEvent F)) {t' fin : Track F}
      → follow literals selected t es ≡ done t'
      → Chain at (es ++ later_es)
      → Within end t.pending
      → (Within end t'.pending → Adds literals selected t' later_es fin)
      → Adds literals selected t (es ++ later_es) fin
  unfolding follow
  follow-Adds end t [] later_es {fin = fin} h c w k =
      subst (λ (s : Track F). Adds literals selected s later_es fin) (sym (done-inj h))
        (k (subst (λ (s : Track F). Within end s.pending) (done-inj h) w))
  follow-Adds end t (e ∷ es) later_es {t' = t'} h c w k =
      let (next, one, rest) = >>=-eq-done (follow_event literals selected t e) _ h in
      let (states, applied, eq) = follow_event-stepped literals selected t e one in
      let rest' = subst (λ (s : Track F). follow literals selected s es ≡ done t') (sym eq) rest in
      stepped-Adds literals selected t e (es ++ later_es) states applied c w.0 (
        follow-Adds end (stepped literals selected t e states) es later_es rest' c.1
          (stepped-Within literals selected end t e states w) k)

  pub draw_event-track :
      (source : PnlSourceKind) (baselines : Baselines F) (c : Curves F) (e : PnlEvent F)
      (t : Track F)
      → (draw_event literals source baselines selected c e t).track ≡ t
  unfolding draw_event plot
  draw_event-track source baselines c e t = elim (Bool-cases (has selected (Pnl.symbol e))) [
    | inl shown ↦ rw shown
    | inr hidden ↦ rw hidden
  ]

  -- The drawing follows the events up to the end.
  draw-follow :
      (source : PnlSourceKind) (baselines : Baselines F) (end : ℕ) (c : Curves F)
      (es : List (PnlEvent F)) {c' : Curves F}
      → draw literals source baselines selected end c es ≡ done c'
      → follow literals selected c.track (before (suc end) es) ≡ done c'.track
  unfolding draw follow before
  draw-follow source baselines end c [] h = ap done (ap (λ (d : Curves F). d.track) (done-inj h))
  draw-follow source baselines end c (e ∷ es) {c' = c'} h = elim (Bool-cases (ltb end (at e))) [
    | inl past ↦
        let stop : ltb (at e) (suc end) ≡ false = ground arith in
        let g = rw past at h in rw stop (ap done (ap (λ (d : Curves F). d.track) (done-inj g)))
    | inr upto ↦
        let go : ltb (at e) (suc end) ≡ true = ground arith in
        let g = rw upto at h in
        let (t, one, rest) = >>=-eq-done (follow_event literals selected c.track e) _ g in
        let next =
          draw-follow source baselines end (draw_event literals source baselines selected c e t) es
            rest in
        rw (go, one)
          (subst (λ (s : Track F). follow literals selected s (before (suc end) es) ≡ done c'.track)
            (draw_event-track source baselines c e t) next)
  ]

  -- The part of a replay from the start on.
  drawn-Adds :
      (source : PnlSourceKind) (baselines : Baselines F) (end : ℕ) (c : Curves F)
      (es : List (PnlEvent F)) {c' : Curves F}
      → Chain at es
      → Within end c.track.pending
      → draw literals source baselines selected end c es ≡ done c'
      → Adds literals selected c.track es (capture_rest literals selected c'.track)
  drawn-Adds source baselines end c es {c' = c'} ch w h =
      let parts = before-from_start (suc end) es in
      subst (λ zs. Adds literals selected c.track zs (capture_rest literals selected c'.track))
        parts
        (follow-Adds end c.track (before (suc end) es) (from_start (suc end) es)
          (draw-follow source baselines end c es h) (subst (Chain at) (sym parts) ch) w
          (λ w'.
            capture_rest-Adds literals selected end c'.track (from_start (suc end) es) w'.1
              (from_start-All (suc end) es ch)))

  -- `replay_events`: the values at the boundaries.
  replay_events-Adds :
      (source : PnlSourceKind) (start end : ℕ) (t : Track F) (es : List (PnlEvent F))
      {b : Baselines F} {c : Curves F}
      → Chain at es
      → Within end t.pending
      → replay_events literals source selected start end t es ≡ done (b, c)
      → Adds literals selected t es c.track
  unfolding replay_events capture start_curves
  replay_events-Adds source start end t es {c = c} ch w h =
      let parts = before-from_start start es in
      let ordered = subst (Chain at) (sym parts) ch in
      let (t1, first, rest) = >>=-eq-done (follow literals selected t (before start es)) _ h in
      let at_start = capture literals selected start t1 in
      let baselines = all_metrics literals at_start.states in
      let (c1, second, rest') =
        >>=-eq-done
          (draw literals source baselines selected end
            (start_curves literals source selected start baselines at_start) (from_start start es))
          _ rest in
      let ends : capture_rest literals selected c1.track ≡ c.track =
        ap (λ (r : Baselines F × Curves F). r.1.track) (done-inj rest') in
      subst (λ zs. Adds literals selected t zs c.track) parts
        (follow-Adds end t (before start es) (from_start start es) first ordered w (λ w'.
          capture-Adds literals selected start t1 (from_start start es) (from_start-All start es ch)
            (subst (Adds literals selected at_start (from_start start es)) ends (
              drawn-Adds source baselines end _ (from_start start es)
                (Chain-right at (before start es) (from_start start es) ordered)
                (later-Within end start t1.pending w') second))))

  -- `calculate` keeps one total for each rolling window that starts within the strategy's history, in
  -- the order of time: where the replay of some inputs, from any states, succeeds, the value kept for a
  -- boundary is the total PnL of the selected symbols in the states reached by exactly those events that
  -- are not after the boundary, whichever side of the start of the curve the boundary is on.
  pub replay_events-IsTotalAt :
      (source : PnlSourceKind) (strategy_start start end : ℕ) (states : States F)
      (inputs : PnlInputs F) (baselines : Baselines F) (c : Curves F)
      → replay_events literals source selected start end
          (record {
            states = states;
            pending = rolling_boundaries strategy_start end;
            boundary_pnl = [];
          })
          (sorted_events inputs)
        ≡ done (baselines, c)
      → (keys c.track.boundary_pnl ≡ rolling_boundaries strategy_start end)
        × All (IsTotalAt literals selected states (sorted_events inputs)) c.track.boundary_pnl
  replay_events-IsTotalAt source strategy_start start end states inputs baselines c h =
      let adds =
        replay_events-Adds source start end _ (sorted_events inputs) (sorted_events-Chain inputs)
          (rolling_boundaries-Within strategy_start end) h in
      (
        ap keys adds.added ∙ adds.every,
        subst (All (IsTotalAt literals selected states (sorted_events inputs))) (sym adds.added)
            adds.right,
      )
