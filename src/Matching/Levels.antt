-- ===== src/Matching/Levels.antt =====
-- Amounts of the matching engine: at or below the tolerance they are exactly nought. This is what
-- `clamp_zero` of src/intra_order_match.rs keeps true.
use crypto_nav_manager.Base.{◌≡◌, refl, ap, ◌∙◌, ◌⊎◌, inl, inr, true, false, not, arith, Bool-cases}
use crypto_nav_manager.Float.{Float, IsPositive, IsIeee}
use crypto_nav_manager.Matching.State.{clamp_zero}

module _ {F : Type 0} ⦃f : Float F⦄ where
  -- A finite tolerance that is not negative.
  abbrev pub IsTolerance : F → Type 0
  IsTolerance eps = (f.is_finite eps ≡ true) × (f.lt eps f.nought ≡ false)

  -- An amount that is still open.
  abbrev pub Exceeds : F → F → Type 0
  Exceeds eps x = (f.is_finite x ≡ true) × (f.lt eps x ≡ true)

  abbrev pub Level : F → F → Type 0
  Level eps x = (x ≡ f.nought) ⊎ Exceeds eps x

  module _ (laws : IsIeee F) (eps : F) (tol : IsTolerance eps) where
    pub le_nought : f.le f.nought eps ≡ true
    le_nought = laws.le-not_lt f.nought eps laws.nought_finite tol.0 ∙ ap not tol.1

    pub Exceeds-IsPositive : (x : F) → Exceeds eps x → IsPositive x
    Exceeds-IsPositive x (h, g) = (h, laws.le_lt_trans f.nought eps x le_nought g)

    pub le-Exceeds : (x : F) → Exceeds eps x → f.le x eps ≡ false
    le-Exceeds x (h, g) = laws.le-not_lt x eps h tol.0 ∙ ap not g

    pub lt_nought : f.lt eps f.nought ≡ false
    lt_nought = tol.1

    pub clamp_nought : clamp_zero f.nought eps ≡ f.nought
    unfolding clamp_zero
    clamp_nought = rw (laws.abs_nought, le_nought)

    pub clamp-Level : (x : F) → IsPositive x → Level eps (clamp_zero x eps)
    unfolding clamp_zero
    clamp-Level x (h, p) = elim (Bool-cases (f.le (f.abs x) eps)) [
      | inl small ↦ rw small (inl refl)
      | inr large ↦
          rw large (inr (h, ground (arith, laws.abs_positive x p, laws.le-not_lt x eps h tol.0)))
    ]

    -- What two open amounts leave when the smaller is taken from both: one of them is used up.
    pub data Split (a b : F) : Type 0 where
      first_left :
          Level eps (clamp_zero (f.sub a (f.min a b)) eps)
          → clamp_zero (f.sub b (f.min a b)) eps ≡ f.nought
          → Split a b
      second_left :
          clamp_zero (f.sub a (f.min a b)) eps ≡ f.nought
          → Level eps (clamp_zero (f.sub b (f.min a b)) eps)
          → Split a b

    pub split_lem : (a b : F) → Exceeds eps a → Exceeds eps b → Split a b
    split_lem a b p q =
        let pa = Exceeds-IsPositive a p in
        let pb = Exceeds-IsPositive b q in
        elim (Bool-cases (f.lt b a)) [
          | inl less ↦
              let pick = laws.min_pick a b pa pb ∙ rw less in
              first_left (rw pick (clamp-Level (f.sub a b) (laws.sub_positive a b pa pb less)))
                (rw (pick, laws.sub_self b pb.0) clamp_nought)
          | inr more ↦
              let pick = laws.min_pick a b pa pb ∙ rw more in
              second_left (rw (pick, laws.sub_self a pa.0) clamp_nought) (
                rw pick (elim (laws.lt_connex a b pa pb more) [
                  | inl less ↦ clamp-Level (f.sub b a) (laws.sub_positive b a pb pa less)
                  | inr same ↦ rw (same, laws.sub_self b pb.0) (inl clamp_nought)
                ]))
        ]
