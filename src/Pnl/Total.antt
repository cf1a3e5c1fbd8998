-- ===== src/Pnl/Total.antt =====
-- src/pnl.rs, `calculate`: replays of valid events end with a value.
use crypto_nav_manager.Base.{
  ℕ, ◌≡◌, refl, sym, ◌∙◌, subst, inl, inr, Bool-cases, some, List, [], ◌∷◌, All, done, ltb,
}
use crypto_nav_manager.Base.Maps.{lookup, insert, lookup-insert}
use crypto_nav_manager.Base.Text.{bytes_eq, bytes_key}
use crypto_nav_manager.Float.{Float, IsIeee}
use crypto_nav_manager.Pnl
use crypto_nav_manager.Pnl.{PnlEvent, PnlError, PnlSourceKind, Literals}
use crypto_nav_manager.Pnl.Symbol.{SymbolState}
use crypto_nav_manager.Pnl.States.{States, Baselines, apply_event, all_metrics}
use crypto_nav_manager.Pnl.Books.{IsSymbol, IsValid, apply_one-IsSymbol}
use crypto_nav_manager.Pnl.Track.{
  Track, Curves, before, from_start, capture, capture_rest, follow_event, follow, draw_event, draw,
}
use crypto_nav_manager.Pnl.Calculate.{start_curves, replay_events}
use crypto_nav_manager.Pnl.Boundaries.{draw_event-track}

module _ {F : Type 0} ⦃f : Float F⦄ where
  -- The symbol has a state, and its books are well formed.
  abbrev pub IsKnown : States F → List ℕ → Type 0
  IsKnown states symbol = (s : SymbolState F) × (lookup symbol states ≡ some s) × IsSymbol s

  abbrev pub Keeps : States F → States F → Type 0
  Keeps states states' = (symbol : List ℕ) → IsKnown states symbol → IsKnown states' symbol

  abbrev pub IsReady : States F → PnlEvent F → Type 0
  IsReady states e = IsKnown states (Pnl.symbol e) × IsValid e

  IsReady-Keeps :
      (states states' : States F) (es : List (PnlEvent F))
      → Keeps states states'
      → All (IsReady states) es
      → All (IsReady states') es
  IsReady-Keeps states states' [] k a = tt
  IsReady-Keeps states states' (e ∷ es) k ((h, v), a) =
      ((k (Pnl.symbol e) h, v), IsReady-Keeps states states' es k a)

  insert-Keeps :
      (states : States F) (symbol : List ℕ) (s : SymbolState F)
      → IsSymbol s
      → Keeps states (insert symbol s states)
  insert-Keeps states symbol s v other (t, found, w) = elim (Bool-cases (bytes_eq symbol other)) [
    | inl own ↦ (s, lookup-insert symbol other s states ∙ rw own, v)
    | inr apart ↦ (t, lookup-insert symbol other s states ∙ rw apart found, w)
  ]

  module _ (laws : IsIeee F) where
    apply_event-Keeps :
        (states : States F) (e : PnlEvent F)
        → IsReady states e
        → (states' : States F) × (apply_event states e ≡ done states') × Keeps states states'
    unfolding apply_event
    apply_event-Keeps states e ((s, found, w), v) =
        let (s', one, w') = apply_one-IsSymbol laws s e w v in
        (
          insert (Pnl.symbol e) s' states,
          rw (apply_event, found, one) refl,
          insert-Keeps states (Pnl.symbol e) s' w',
        )

    module _ (literals : Literals F) (selected : List (List ℕ)) where
      follow_event-Keeps :
          (t : Track F) (e : PnlEvent F)
          → IsReady t.states e
          → (t' : Track F) × (follow_event literals selected t e ≡ done t')
            × Keeps t.states t'.states
      unfolding follow_event
      follow_event-Keeps t e h =
          let (states, path, k) = apply_event-Keeps t.states e h in
          (record (capture literals selected (Pnl.ts e) t) { states = states }, rw path refl, k)

      follow-Keeps :
          (t : Track F) (es : List (PnlEvent F))
          → All (IsReady t.states) es
          → (t' : Track F) × (follow literals selected t es ≡ done t') × Keeps t.states t'.states
      unfolding follow
      follow-Keeps t [] a = (t, refl, λ symbol h. h)
      follow-Keeps t (e ∷ es) (h, a) =
          let (t1, first, k) = follow_event-Keeps t e h in
          let (t2, rest, k') = follow-Keeps t1 es (IsReady-Keeps t.states t1.states es k a) in
          (t2, rw (first, rest) refl, λ symbol known. k' symbol (k symbol known))

      draw-done :
          (source : PnlSourceKind) (baselines : Baselines F) (end : ℕ) (es : List (PnlEvent F))
          (c : Curves F)
          → All (IsReady c.track.states) es
          → (c' : Curves F) × (draw literals source baselines selected end c es ≡ done c')
      unfolding draw
      draw-done source baselines end [] c a = (c, refl)
      draw-done source baselines end (e ∷ es) c (h, a) = elim (Bool-cases (ltb end (Pnl.ts e))) [
        | inl past ↦ (c, rw past refl)
        | inr upto ↦
            let (t, first, k) = follow_event-Keeps c.track e h in
            let next = draw_event literals source baselines selected c e t in
            let known =
              subst (λ (s : Track F). All (IsReady s.states) es)
                (sym (draw_event-track literals selected source baselines c e t))
                (IsReady-Keeps c.track.states t.states es k a) in
            let (c', rest) = draw-done source baselines end es next known in
            (c', rw (upto, first, rest) refl)
      ]

      All-before :
          (start : ℕ) (es : List (PnlEvent F)) (P : PnlEvent F → Type 0)
          → All P es
          → All P (before start es) × All P (from_start start es)
      unfolding before from_start
      All-before start [] P a = (tt, tt)
      All-before start (e ∷ es) P (h, a) = elim (Bool-cases (ltb (Pnl.ts e) start)) [
        | inl early ↦ let (x, y) = All-before start es P a in rw early ((h, x), y)
        | inr late ↦ rw late (tt, (h, a))
      ]

      pub replay_events-done :
          (source : PnlSourceKind) (start end : ℕ) (t : Track F) (es : List (PnlEvent F))
          → All (IsReady t.states) es
          → (r : Baselines F × Curves F) × (replay_events literals source selected start end t es
              ≡ done r)
      unfolding replay_events capture start_curves
      replay_events-done source start end t es a =
          let (early, late) = All-before start es (IsReady t.states) a in
          let (t1, first, k) = follow-Keeps t (before start es) early in
          let at_start = capture literals selected start t1 in
          let baselines = all_metrics literals at_start.states in
          let (c, second) =
            draw-done source baselines end (from_start start es)
              (start_curves literals source selected start baselines at_start)
              (IsReady-Keeps t.states t1.states (from_start start es) k late) in
          (
            (baselines, record c { track = capture_rest literals selected c.track }),
            rw (first, second) refl,
          )
