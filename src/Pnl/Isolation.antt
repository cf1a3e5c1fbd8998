-- ===== src/Pnl/Isolation.antt =====
-- src/pnl.rs, `apply_event`: each symbol has a state of its own.
use crypto_nav_manager.Base.{
  ℕ, ◌≡◌, refl, sym, ◌∙◌, subst, true, false, inl, inr, Bool-cases, Option-cases, some, List, [],
  ◌∷◌, Outcome, done, ◌>>=◌, >>=-eq-done, done-inj, if◌then◌else◌,
}
use crypto_nav_manager.Base.Maps.{lookup, lookup-insert}
use crypto_nav_manager.Base.Text.{bytes_eq, bytes_eq_iff, bytes_key}
use crypto_nav_manager.Float.{Float}
use crypto_nav_manager.Pnl
use crypto_nav_manager.Pnl.{PnlEvent, PnlError}
use crypto_nav_manager.Pnl.Symbol.{SymbolState, apply_one}
use crypto_nav_manager.Pnl.States.{States, apply_event, apply_all}

module _ {F : Type 0} where
  -- The events of one symbol.
  abbrev pub of_symbol : List ℕ → List (PnlEvent F) → List (PnlEvent F)
  of_symbol symbol [] = []
  of_symbol symbol (e ∷ es) =
      if bytes_eq (Pnl.symbol e) symbol then e ∷ of_symbol symbol es else of_symbol symbol es

module _ {F : Type 0} ⦃f : Float F⦄ where
  -- The state of one symbol after events of its own.
  abbrev pub apply_each : SymbolState F → List (PnlEvent F) → Outcome (PnlError F) (SymbolState F)
  apply_each s [] = done s
  apply_each s (e ∷ es) = apply_one s e >>= λ s'. apply_each s' es

  apply_event-other :
      (states : States F) (e : PnlEvent F) {states' : States F} (symbol : List ℕ)
      → apply_event states e ≡ done states'
      → bytes_eq (Pnl.symbol e) symbol ≡ false
      → lookup symbol states' ≡ lookup symbol states
  unfolding apply_event
  apply_event-other states e symbol h other = elim (Option-cases (lookup (Pnl.symbol e) states)) [
    | inl missing ↦ cc (rw (missing, apply_event) at h)
    | inr (s, found) ↦
        let g = rw (found, apply_event) at h in
        let (s', _, eq) = >>=-eq-done (apply_one s e) _ g in
        subst (λ m. lookup symbol m ≡ lookup symbol states) (done-inj eq)
          (lookup-insert (Pnl.symbol e) symbol s' states ∙ rw other)
  ]

  apply_event-own :
      (states : States F) (e : PnlEvent F) {states' : States F} (s : SymbolState F)
      → apply_event states e ≡ done states'
      → lookup (Pnl.symbol e) states ≡ some s
      → (s' : SymbolState F) × (apply_one s e ≡ done s') × (lookup (Pnl.symbol e) states' ≡ some s')
  unfolding apply_event
  apply_event-own states e s h found =
      let g = rw (found, apply_event) at h in
      let (s', one, eq) = >>=-eq-done (apply_one s e) _ g in
      let here : bytes_eq (Pnl.symbol e) (Pnl.symbol e) ≡ true =
        (bytes_eq_iff (Pnl.symbol e) (Pnl.symbol e)).1 refl in
      (
        s',
        one,
        subst (λ m. lookup (Pnl.symbol e) m ≡ some s') (done-inj eq)
            (lookup-insert (Pnl.symbol e) (Pnl.symbol e) s' states ∙ rw here),
      )

  -- Where the events of all symbols apply one after another, the state of a symbol at the end is the one
  -- that the symbol's own events give, in their order, and those of other symbols have no part in it.
  pub apply_all-apply_each :
      (es : List (PnlEvent F)) (states states' : States F) (symbol : List ℕ) (s : SymbolState F)
      → apply_all states es ≡ done states'
      → lookup symbol states ≡ some s
      → (s' : SymbolState F) × (apply_each s (of_symbol symbol es) ≡ done s')
        × (lookup symbol states' ≡ some s')
  unfolding apply_all
  apply_all-apply_each [] states states' symbol s h found =
      (s, refl, subst (λ m. lookup symbol m ≡ some s) (done-inj h) found)
  apply_all-apply_each (e ∷ es) states states' symbol s h found =
      let (next, first, rest) = >>=-eq-done (apply_event states e) _ h in
      elim (Bool-cases (bytes_eq (Pnl.symbol e) symbol)) [
        | inl own ↦
            let same = (bytes_eq_iff (Pnl.symbol e) symbol).0 own in
            let (mid, one, found') =
              apply_event-own states e s first
                (subst (λ k. lookup k states ≡ some s) (sym same) found) in
            let (s', path, last) =
              apply_all-apply_each es next states' symbol mid rest
                (subst (λ k. lookup k next ≡ some mid) same found') in
            (s', rw (own, one) path, last)
        | inr other ↦
            let (s', path, last) =
              apply_all-apply_each es next states' symbol s rest
                (apply_event-other states e symbol first other ∙ found) in
            (s', rw other path, last)
      ]
