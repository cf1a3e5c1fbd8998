-- ===== src/Pnl/Captures.antt =====
-- src/pnl.rs, `calculate`: the totals that are captured at the boundaries, and the events that they count.
use crypto_nav_manager.Base.{
  ℕ, suc, leb, ltb, ◌≤◌, ◌≡◌, refl, ap, sym, subst, ◌∙◌, true, inl, inr, Bool-cases, List, [], ◌∷◌,
  ◌++◌, All, All-append, done, >>=-eq-done, done-inj, arith,
}
use mathlib.Core.List.{append_assoc}
use crypto_nav_manager.Base.Sort.{Chain, All-le_trans}
use crypto_nav_manager.Float.{Float}
use crypto_nav_manager.Pnl.{PnlEvent, Literals}
use crypto_nav_manager.Pnl.States.{States, apply_event, apply_all, selected_total_pnl}
use crypto_nav_manager.Pnl.Track.{Track, due, until, at_each, capture, capture_rest, follow_event}
use crypto_nav_manager.Pnl.Order.{
  at, keys, keys-append, keys-due, keys-at_each, until-nil, later-All, Within, later-Within,
}

module _ {F : Type 0} ⦃f : Float F⦄ (literals : Literals F) (selected : List (List ℕ)) where
  -- The value is the total of the states after exactly the events that are not after the boundary.
  abbrev pub IsTotalAt : States F → List (PnlEvent F) → ℕ × F → Type 0
  IsTotalAt states es (b, v) =
      (reached : States F) × (apply_all states (until b es) ≡ done reached)
      × (v ≡ selected_total_pnl literals reached selected)

  -- What a track adds on the way to its last state, `fin`.
  pub record Adds (t : Track F) (es : List (PnlEvent F)) (fin : Track F) : Type 0 where
    pub values : List (ℕ × F)
    pub added : fin.boundary_pnl ≡ t.boundary_pnl ++ values
    pub every : keys values ≡ t.pending
    pub right : All (IsTotalAt t.states es) values

  due-right :
      (ts : ℕ) (states : States F) (es : List (PnlEvent F)) (bs : List ℕ)
      → All (λ e. ts ≤ at e) es
      → All (IsTotalAt states es) (due ts (selected_total_pnl literals states selected) bs)
  unfolding due apply_all
  due-right ts states es [] a = tt
  due-right ts states es (b ∷ bs) a = elim (Bool-cases (ltb b ts)) [
    | inl h ↦ rw h (
        let le : suc b ≤ ts = ground arith in
        (
          (states, rw (until-nil b es (All-le_trans at le es a)) refl, refl),
          due-right ts states es bs a,
        ))
    | inr h ↦ rw h tt
  ]

  at_each-right :
      (end : ℕ) (states : States F) (es : List (PnlEvent F)) (bs : List ℕ)
      → All (λ b. b ≤ end) bs
      → All (λ e. suc end ≤ at e) es
      → All (IsTotalAt states es) (at_each (selected_total_pnl literals states selected) bs)
  unfolding apply_all
  at_each-right end states es [] le a = tt
  at_each-right end states es (b ∷ bs) (h, le) a =
      let under : suc b ≤ suc end = omega arith in
      (
        (states, rw (until-nil b es (All-le_trans at under es a)) refl, refl),
        at_each-right end states es bs le a,
      )

  -- The last boundaries.
  pub capture_rest-Adds :
      (end : ℕ) (t : Track F) (es : List (PnlEvent F))
      → All (λ b. b ≤ end) t.pending
      → All (λ e. suc end ≤ at e) es
      → Adds t es (capture_rest literals selected t)
  unfolding capture_rest
  capture_rest-Adds end t es le a = record {
    values = at_each (selected_total_pnl literals t.states selected) t.pending;
    added = refl;
    every = keys-at_each _ t.pending;
    right = at_each-right end t.states es t.pending le a;
  }

  -- Boundaries that are captured before the events they do not count.
  pub capture-Adds :
      (ts : ℕ) (t : Track F) (es : List (PnlEvent F)) {fin : Track F}
      → All (λ e. ts ≤ at e) es
      → Adds (capture literals selected ts t) es fin
      → Adds t es fin
  unfolding capture
  capture-Adds ts t es a r =
      let total = selected_total_pnl literals t.states selected in
      let here = due ts total t.pending in
      record {
        values = here ++ r.values;
        added = r.added ∙ append_assoc t.boundary_pnl here r.values;
        every =
            keys-append here r.values
            ∙ ap (λ zs. keys here ++ zs) r.every
            ∙ keys-due ts total t.pending;
        right = All-append _ here r.values (due-right ts t.states es t.pending a) r.right;
      }

  -- An event that counts for all boundaries that are left.
  step-right :
      (states states' : States F) (e : PnlEvent F) (es : List (PnlEvent F)) (vs : List (ℕ × F))
      → apply_event states e ≡ done states'
      → All (λ b. at e ≤ b) (keys vs)
      → All (IsTotalAt states' es) vs
      → All (IsTotalAt states (e ∷ es)) vs
  unfolding until apply_all
  step-right states states' e es [] h le r = tt
  step-right states states' e es ((b, v) ∷ vs) h (c, le) ((reached, path, eq), r) =
      let under : leb (at e) b ≡ true = ground arith in
      ((reached, rw (under, h) path, eq), step-right states states' e es vs h le r)

  -- The track after an event.
  abbrev pub stepped : Track F → PnlEvent F → States F → Track F
  stepped t e states = record (capture literals selected (at e) t) { states = states }

  pub follow_event-stepped :
      (t : Track F) (e : PnlEvent F) {t' : Track F}
      → follow_event literals selected t e ≡ done t'
      → (states : States F) × (apply_event t.states e ≡ done states) × (stepped t e states ≡ t')
  unfolding follow_event
  follow_event-stepped t e h =
      let (states, applied, eq) = >>=-eq-done (apply_event t.states e) _ h in
      (states, applied, done-inj eq)

  pub stepped-Within :
      (end : ℕ) (t : Track F) (e : PnlEvent F) (states : States F)
      → Within end t.pending
      → Within end (stepped t e states).pending
  unfolding capture
  stepped-Within end t e states w = later-Within end (at e) t.pending w

  pub stepped-Adds :
      (t : Track F) (e : PnlEvent F) (es : List (PnlEvent F)) (states : States F) {fin : Track F}
      → apply_event t.states e ≡ done states
      → Chain at (e ∷ es)
      → Chain (λ b. b) t.pending
      → Adds (stepped t e states) es fin
      → Adds t (e ∷ es) fin
  unfolding capture
  stepped-Adds t e es states applied (a, c) p r =
      let from : All (λ b. at e ≤ b) (keys r.values) =
        subst (All (λ b. at e ≤ b)) (sym r.every) (later-All (at e) t.pending p) in
      capture-Adds (at e) t (e ∷ es) (omega arith, a)
        (record {
          values = r.values;
          added = r.added;
          every = r.every;
          right = step-right t.states states e es r.values applied from r.right;
        })
