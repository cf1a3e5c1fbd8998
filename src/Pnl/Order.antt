-- ===== src/Pnl/Order.antt =====
-- src/pnl.rs, `calculate`: the order of the events and of the boundaries.
use crypto_nav_manager.Base.{
  ℕ, suc, ◌+◌, ◌-◌, leb, ltb, ◌≤◌, ◌≡◌, refl, ap, true, false, inl, inr, Bool-cases, List, [], ◌∷◌,
  ◌++◌, All, arith, leb→le,
}
use crypto_nav_manager.Base.Sort.{Chain, All-le_trans, sort_by, sort_by-All, sort_by-Chain}
use crypto_nav_manager.Pnl
use crypto_nav_manager.Pnl.{PnlSourceKind, PnlInputs, PnlEvent, PnlError, event_le, Literals}
use crypto_nav_manager.Pnl.Track.{
  rolling_windows_ms, boundaries_from, due, later, until, at_each, before, from_start,
}
use crypto_nav_manager.Pnl.Calculate.{all_events, sorted_events}

module _ {F : Type 0} where
  abbrev pub at : PnlEvent F → ℕ
  at = Pnl.ts

  pub event_le-ts : (x y : PnlEvent F) → event_le x y ≡ true → at x ≤ at y
  unfolding event_le
  event_le-ts x y h = ground arith

  pub event_le-not_ts : (x y : PnlEvent F) → event_le x y ≡ false → at y ≤ at x
  unfolding event_le
  event_le-not_ts x y h = ground arith

  abbrev pub keys : List (ℕ × F) → List ℕ
  keys [] = []
  keys ((b, v) ∷ rest) = b ∷ keys rest

  pub keys-append : (xs ys : List (ℕ × F)) → keys (xs ++ ys) ≡ keys xs ++ keys ys
  keys-append [] ys = refl
  keys-append ((b, v) ∷ xs) ys = ap (λ zs. b ∷ zs) (keys-append xs ys)

  pub keys-due : (ts : ℕ) (v : F) (bs : List ℕ) → keys (due ts v bs) ++ later ts bs ≡ bs
  unfolding due later
  keys-due ts v [] = refl
  keys-due ts v (b ∷ bs) = elim (Bool-cases (ltb b ts)) [
    | inl h ↦ rw h (ap (λ zs. b ∷ zs) (keys-due ts v bs))
    | inr h ↦ rw h
  ]

  pub keys-at_each : (v : F) (bs : List ℕ) → keys (at_each v bs) ≡ bs
  keys-at_each v [] = refl
  keys-at_each v (b ∷ bs) = ap (λ zs. b ∷ zs) (keys-at_each v bs)

  pub before-from_start :
      (start : ℕ) (es : List (PnlEvent F)) → before start es ++ from_start start es ≡ es
  unfolding before from_start
  before-from_start start [] = refl
  before-from_start start (e ∷ es) = elim (Bool-cases (ltb (at e) start)) [
    | inl h ↦ rw h (ap (λ zs. e ∷ zs) (before-from_start start es))
    | inr h ↦ rw h
  ]

  -- What stands after the start is at the start or later.
  pub from_start-All :
      (start : ℕ) (es : List (PnlEvent F))
      → Chain at es
      → All (λ e. start ≤ at e) (from_start start es)
  unfolding from_start
  from_start-All start [] c = tt
  from_start-All start (e ∷ es) (a, c) = elim (Bool-cases (ltb (at e) start)) [
    | inl h ↦ rw h (from_start-All start es c)
    | inr h ↦ rw h (let le : start ≤ at e = ground arith in (le, All-le_trans at le es a))
  ]

  -- No event counts for a boundary before all of them.
  pub until-nil : (b : ℕ) (es : List (PnlEvent F)) → All (λ e. suc b ≤ at e) es → until b es ≡ []
  unfolding until
  until-nil b [] a = refl
  until-nil b (e ∷ es) (h, a) =
      (let more : leb (at e) b ≡ false = ground arith in rw more (until-nil b es a))

pub later-Chain : (ts : ℕ) (bs : List ℕ) → Chain (λ b. b) bs → Chain (λ b. b) (later ts bs)
unfolding later
later-Chain ts [] c = tt
later-Chain ts (b ∷ bs) (a, c) = elim (Bool-cases (ltb b ts)) [
  | inl h ↦ rw h (later-Chain ts bs c)
  | inr h ↦ rw h (a, c)
]

pub later-All : (ts : ℕ) (bs : List ℕ) → Chain (λ b. b) bs → All (λ b. ts ≤ b) (later ts bs)
unfolding later
later-All ts [] c = tt
later-All ts (b ∷ bs) (a, c) = elim (Bool-cases (ltb b ts)) [
  | inl h ↦ rw h (later-All ts bs c)
  | inr h ↦ rw h (let le : ts ≤ b = ground arith in (le, All-le_trans (λ b. b) le bs a))
]

-- Boundaries in order, none after the end.
abbrev pub Within : ℕ → List ℕ → Type 0
Within end bs = Chain (λ b. b) bs × All (λ b. b ≤ end) bs

pub later-end :
    (end ts : ℕ) (bs : List ℕ) → All (λ b. b ≤ end) bs → All (λ b. b ≤ end) (later ts bs)
unfolding later
later-end end ts [] a = tt
later-end end ts (b ∷ bs) (h, a) = elim (Bool-cases (ltb b ts)) [
  | inl e ↦ rw e (later-end end ts bs a)
  | inr e ↦ rw e (h, a)
]

pub later-Within : (end ts : ℕ) (bs : List ℕ) → Within end bs → Within end (later ts bs)
later-Within end ts bs (c, a) = (later-Chain ts bs c, later-end end ts bs a)

boundaries_from-end :
    (strategy_start end : ℕ) (windows : List ℕ)
    → All (λ b. b ≤ end) (boundaries_from strategy_start end windows)
boundaries_from-end strategy_start end [] = tt
boundaries_from-end strategy_start end (w ∷ ws) = elim (Bool-cases (leb (strategy_start + w) end)) [
  | inl h ↦
      rw h (let le : end - w ≤ end = omega arith in (le, boundaries_from-end strategy_start end ws))
  | inr h ↦ rw h (boundaries_from-end strategy_start end ws)
]

-- The boundaries of the rolling windows, in order.
abbrev pub rolling_boundaries : ℕ → ℕ → List ℕ
rolling_boundaries strategy_start end =
    sort_by leb (boundaries_from strategy_start end rolling_windows_ms)

pub rolling_boundaries-Within :
    (strategy_start end : ℕ) → Within end (rolling_boundaries strategy_start end)
rolling_boundaries-Within strategy_start end = (
  sort_by-Chain (λ b. b) leb leb→le (λ x y h. ground arith)
      (boundaries_from strategy_start end rolling_windows_ms),
  sort_by-All leb _ (boundaries_from strategy_start end rolling_windows_ms)
      (boundaries_from-end strategy_start end rolling_windows_ms),
)

pub sorted_events-Chain : {F : Type 0} (inputs : PnlInputs F) → Chain at (sorted_events inputs)
unfolding sorted_events
sorted_events-Chain {F = F} inputs =
    sort_by-Chain (at {F = F}) event_le event_le-ts event_le-not_ts (all_events inputs)
