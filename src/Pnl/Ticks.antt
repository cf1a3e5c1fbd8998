-- ===== src/Pnl/Ticks.antt =====
-- src/pnl.rs, `resample_fixed_interval`: which ticks the points have, and which values.
use native.Mathlib.Nat.{div-add-mod', mod-lt}
use crypto_nav_manager.Base.{
  ℕ, zero, suc, ◌+◌, ◌-◌, ◌*◌, ◌/◌, ◌≤◌, ◌<◌, ◌≡◌, refl, true, false, inl, inr, Bool-cases, some,
  ◌||◌, List, [], ◌∷◌, ◌++◌, All, leb, ltb, ◌==◌, arith, if◌then◌else◌,
}
use crypto_nav_manager.Base.Sort.{Chain, All-le_trans}
use crypto_nav_manager.Pnl.States.{PnlPoint}
use crypto_nav_manager.Pnl.Curve.{advance, sample_ticks, resample_fixed_interval}

-- `count` ticks from `tick` on.
abbrev pub steps : ℕ → ℕ → ℕ → List ℕ
steps tick interval zero = []
steps tick interval (suc count) = tick ∷ steps (tick + interval) interval count

module _ {F : Type 0} where
  abbrev pub at : PnlPoint F → ℕ
  at p = p.ts

  -- The last point that is not after the tick.
  abbrev pub held : PnlPoint F → List (PnlPoint F) → ℕ → PnlPoint F
  held p [] tick = p
  held p (q ∷ qs) tick = if leb q.ts tick then held q qs tick else held p qs tick

  -- That point, moved to the tick.
  abbrev pub hold : PnlPoint F → List (PnlPoint F) → ℕ → PnlPoint F
  hold p ps tick = record (held p ps tick) { ts = tick }

  abbrev pub hold_all : PnlPoint F → List (PnlPoint F) → List ℕ → List (PnlPoint F)
  hold_all p ps [] = []
  hold_all p ps (t ∷ ts) = hold p ps t ∷ hold_all p ps ts

  held-later :
      (p : PnlPoint F) (ps : List (PnlPoint F)) (tick : ℕ)
      → All (λ q. suc tick ≤ at q) ps
      → held p ps tick ≡ p
  held-later p [] tick a = refl
  held-later p (q ∷ qs) tick (h, a) =
      let after : leb q.ts tick ≡ false = ground arith in rw after (held-later p qs tick a)

  advance-held :
      (p : PnlPoint F) (ps : List (PnlPoint F)) (tick : ℕ)
      → Chain at ps
      → (advance p ps tick).0 ≡ held p ps tick
  unfolding advance
  advance-held p [] tick c = refl
  advance-held p (q ∷ qs) tick (a, c) = elim (Bool-cases (leb q.ts tick)) [
    | inl h ↦ rw h (advance-held q qs tick c)
    | inr h ↦
        let after : suc tick ≤ at q = ground arith in
        rw (h, held-later p qs tick (All-le_trans at after qs a))
  ]

  -- What is left behind does not count for a later tick.
  advance-later :
      (p : PnlPoint F) (ps : List (PnlPoint F)) (tick tick' : ℕ)
      → tick ≤ tick'
      → held (advance p ps tick).0 (advance p ps tick).1 tick' ≡ held p ps tick'
  unfolding advance
  advance-later p [] tick tick' le = refl
  advance-later p (q ∷ qs) tick tick' le = elim (Bool-cases (leb q.ts tick)) [
    | inl h ↦
        let too : leb q.ts tick' ≡ true = ground arith in
        rw (h, too) (advance-later q qs tick tick' le)
    | inr h ↦ rw h
  ]

  advance-Chain :
      (p : PnlPoint F) (ps : List (PnlPoint F)) (tick : ℕ)
      → Chain at ps
      → Chain at (advance p ps tick).1
  unfolding advance
  advance-Chain p [] tick c = tt
  advance-Chain p (q ∷ qs) tick (a, c) = elim (Bool-cases (leb q.ts tick)) [
    | inl h ↦ rw h (advance-Chain q qs tick c)
    | inr h ↦ rw h (a, c)
  ]

  hold_all-later :
      (p : PnlPoint F) (ps : List (PnlPoint F)) (tick : ℕ) (ts : List ℕ)
      → All (λ t. tick ≤ t) ts
      → hold_all (advance p ps tick).0 (advance p ps tick).1 ts ≡ hold_all p ps ts
  hold_all-later p ps tick [] a = refl
  hold_all-later p ps tick (t ∷ ts) (h, a) =
      rw (advance-later p ps tick t h, hold_all-later p ps tick ts a)

All-steps :
    (tick interval count n : ℕ)
    → n ≤ tick
    → (end : ℕ) → n ≤ end
    → All (λ t. n ≤ t) (steps tick interval count ++ end ∷ [])
All-steps tick interval zero n h end e = (e, tt)
All-steps tick interval (suc count) n h end e =
    (h, All-steps (tick + interval) interval count n (omega arith) end e)

-- The ticks from `tick` on that come before `end`: no more and no fewer than there are.
abbrev pub Reaches : ℕ → ℕ → ℕ → ℕ → Type 0
Reaches tick interval end count =
    (end ≤ tick + count * interval) × ((i : ℕ) → i < count → tick + i * interval < end)

under-step :
    (tick interval end count i : ℕ)
    → tick < end
    → ((j : ℕ) → j < count → tick + interval + j * interval < end)
    → i < suc count
    → tick + i * interval < end
under-step tick interval end count zero lt under h = omega arith
under-step tick interval end count (suc j) lt under h = let k = under j (omega arith) in grind arith

steps-Reaches :
    (tick interval end count : ℕ)
    → tick < end
    → Reaches (tick + interval) interval end count
    → Reaches tick interval end (suc count)
steps-Reaches tick interval end count lt (over, under) =
    (grind arith, λ i h. under-step tick interval end count i lt under h)

module _ {F : Type 0} where
  sample_ticks-hold_all :
      (fuel tick end interval : ℕ) (c : PnlPoint F) (ps : List (PnlPoint F))
      → Chain at ps
      → 0 < interval
      → end ≤ tick + fuel
      → (count : ℕ) × Reaches tick interval end count
        × (sample_ticks (suc fuel) tick end interval c ps
            ≡ some (hold_all c ps (steps tick interval count ++ end ∷ [])))
  unfolding sample_ticks
  sample_ticks-hold_all zero tick end interval c ps ch pos le =
      let stop : ltb tick end ≡ false = ground arith in
      (0, (omega arith, λ i h. omega arith), rw (stop, advance-held c ps end ch) refl)
  sample_ticks-hold_all (suc fuel) tick end interval c ps ch pos le =
      elim (Bool-cases (ltb tick end)) [
        | inl go ↦
            let below : tick < end = ground arith in
            let (count, reach, path) =
              sample_ticks-hold_all fuel (tick + interval) end interval (advance c ps tick).0
                (advance c ps tick).1 (advance-Chain c ps tick ch) pos (omega arith) in
            (
              suc count,
              steps-Reaches tick interval end count below reach,
              rw
                  (
                    go,
                    path,
                    hold_all-later c ps tick (steps (tick + interval) interval count ++ end ∷ []) (
                        All-steps (tick + interval) interval count tick (omega arith) end
                          (omega arith)),
                    advance-held c ps tick ch,
                  )
                  refl,
            )
        | inr stop ↦
            let above : end ≤ tick = ground arith in
            (0, (omega arith, λ i h. omega arith), rw (stop, advance-held c ps end ch) refl)
      ]

next-tick : (start interval : ℕ) → 0 < interval → start < (start / interval + 1) * interval
next-tick start interval pos =
    let whole = div-add-mod' start interval in let part = mod-lt start pos in grind arith

-- The times of the points between `start` and `end`: the start, the multiples of the interval that lie
-- strictly between, and the end.
abbrev pub ticks_of : ℕ → ℕ → ℕ → ℕ → List ℕ
ticks_of start end interval count =
    start ∷ steps ((start / interval + 1) * interval) interval count ++ end ∷ []

module _ {F : Type 0} where
  -- Where the points are in the order of time, the interval is positive and the start is before the end,
  -- `resample_fixed_interval` gives one point at the start, one at each multiple of the interval
  -- that lies strictly between start and end, and one at the end, in this order and no others; each is the
  -- last of the points that is not after its tick (the first point where none is), moved to the tick.
  pub resample_fixed_interval-hold_all :
      (start end interval : ℕ) (p : PnlPoint F) (ps : List (PnlPoint F))
      → Chain at ps
      → 0 < interval
      → start < end
      → (count : ℕ) × Reaches ((start / interval + 1) * interval) interval end count
        × (resample_fixed_interval (p ∷ ps) start end interval
            ≡ some (hold_all p ps (ticks_of start end interval count)))
  unfolding resample_fixed_interval
  resample_fixed_interval-hold_all start end interval p ps ch pos lt =
      let first = next-tick start interval pos in
      let some_interval : (interval == 0 || ltb end start) ≡ false = ground arith in
      let go : ltb start end ≡ true = ground arith in
      let (count, reach, path) =
        sample_ticks-hold_all (end - start) ((start / interval + 1) * interval) end interval
          (advance p ps start).0 (advance p ps start).1 (advance-Chain p ps start ch) pos
          (omega (arith, first)) in
      (
        count,
        reach,
        rw
            (
              some_interval,
              go,
              path,
              hold_all-later p ps start
                  (steps ((start / interval + 1) * interval) interval count ++ end ∷ [])
                  (All-steps ((start / interval + 1) * interval) interval count start
                    (omega (arith, first)) end (omega arith)),
              advance-held p ps start ch,
            )
            refl,
      )

  sample_ticks-some :
      (fuel tick end interval : ℕ) (c : PnlPoint F) (ps : List (PnlPoint F))
      → 0 < interval
      → end ≤ tick + fuel
      → (qs : List (PnlPoint F)) × (sample_ticks (suc fuel) tick end interval c ps ≡ some qs)
  unfolding sample_ticks
  sample_ticks-some zero tick end interval c ps pos le =
      let stop : ltb tick end ≡ false = ground arith in
      (record (advance c ps end).0 { ts = end } ∷ [], rw stop refl)
  sample_ticks-some (suc fuel) tick end interval c ps pos le = elim (Bool-cases (ltb tick end)) [
    | inl go ↦
        let (qs, path) =
          sample_ticks-some fuel (tick + interval) end interval (advance c ps tick).0
            (advance c ps tick).1 pos (omega arith) in
        (record (advance c ps tick).0 { ts = tick } ∷ qs, rw (go, path) refl)
    | inr stop ↦ (record (advance c ps end).0 { ts = end } ∷ [], rw stop refl)
  ]

  -- The loop of `resample_fixed_interval` ends on all inputs, whatever the order of the points and the
  -- interval: the fuel of `end - start + 1` rounds is enough.
  pub resample_fixed_interval-some :
      (points : List (PnlPoint F)) (start end interval : ℕ)
      → (qs : List (PnlPoint F)) × (resample_fixed_interval points start end interval ≡ some qs)
  unfolding resample_fixed_interval
  resample_fixed_interval-some [] start end interval = ([], refl)
  resample_fixed_interval-some (p ∷ ps) start end interval =
      elim (Bool-cases (interval == 0 || ltb end start)) [
        | inl none_due ↦ (p ∷ ps, rw none_due refl)
        | inr due ↦ elim (Bool-cases (ltb start end)) [
          | inl go ↦
              let pos : 0 < interval = ground arith in
              let first = next-tick start interval pos in
              let (qs, path) =
                sample_ticks-some (end - start) ((start / interval + 1) * interval) end interval
                  (advance p ps start).0 (advance p ps start).1 pos (omega (arith, first)) in
              (record (advance p ps start).0 { ts = start } ∷ qs, rw (due, go, path) refl)
          | inr stop ↦ (record (advance p ps start).0 { ts = start } ∷ [], rw (due, stop) refl)
        ]
      ]
