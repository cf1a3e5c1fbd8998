-- ===== src/Pnl/Nearest.antt =====
-- src/pnl.rs, `nearest_trade_price`: which price is taken.
use crypto_nav_manager.Base.{
  ℕ, ltb, leb, ◌+◌, ◌-◌, ◌≤◌, ◌<◌, ◌≡◌, ◌⊎◌, refl, inl, inr, Bool-cases, some, List, [], ◌∷◌, All,
  arith,
}
use crypto_nav_manager.Base.Sort.{Chain}
use crypto_nav_manager.Pnl.Charges.{split_prices, nearer, nearest_trade_price}

abbrev pub distance : ℕ → ℕ → ℕ
distance a b = (a - b) + (b - a)

module _ {F : Type 0} where
  abbrev pub time : ℕ × F → ℕ
  time (t, price) = t

  abbrev pub IsIn : ℕ × F → List (ℕ × F) → Type 0
  IsIn q [] = ⊥
  IsIn q (p ∷ ps) = (q ≡ p) ⊎ IsIn q ps

  -- A price of the list, none of which was paid nearer to `ts`.
  abbrev pub IsNearest : ℕ → List (ℕ × F) → ℕ × F → Type 0
  IsNearest ts prices q =
      IsIn q prices × All (λ (p : ℕ × F). distance ts (time q) ≤ distance ts (time p)) prices

  farther :
      (ts n d : ℕ)
      → ts ≤ n
      → d ≤ n - ts
      → (ps : List (ℕ × F)) → All (λ (p : ℕ × F). n ≤ time p) ps
      → All (λ (p : ℕ × F). d ≤ distance ts (time p)) ps
  farther ts n d h k [] a = tt
  farther ts n d h k ((t, price) ∷ ps) (le, a) = (omega arith, farther ts n d h k ps a)

  split_prices-IsNearest :
      (ts : ℕ) (l : ℕ × F) (ps : List (ℕ × F))
      → time l < ts
      → Chain time (l ∷ ps)
      → (q : ℕ × F) × (nearer ts (split_prices ts (some l) ps) ≡ some (q.1))
        × IsNearest ts (l ∷ ps) q
  unfolding split_prices
  split_prices-IsNearest ts (t, price) [] h c = ((t, price), refl, (inl refl, (omega arith, tt)))
  split_prices-IsNearest ts (t, price) ((u, next) ∷ ps) h ((le, a), (b, c)) =
      elim (Bool-cases (ltb u ts)) [
        | inl before ↦
            let near : u < ts = ground arith in
            let (q, path, (place, (first, others))) =
              split_prices-IsNearest ts (u, next) ps near (b, c) in
            (q, rw before path, (inr place, (omega arith, (first, others))))
        | inr after ↦
            let far : ts ≤ u = ground arith in
            elim (Bool-cases (leb (ts - t) (u - ts))) [
              | inl earlier ↦
                  let gap : ts - t ≤ u - ts = ground arith in
                  (
                    (t, price),
                    rw (after, earlier) refl,
                    (
                      inl refl,
                      (
                        omega arith,
                        (omega arith, farther ts u (distance ts t) far (omega arith) ps b),
                      ),
                    ),
                  )
              | inr later_price ↦
                  let gap : u - ts ≤ ts - t = ground arith in
                  (
                    (u, next),
                    rw (after, later_price) refl,
                    (
                      inr (inl refl),
                      (
                        omega arith,
                        (omega arith, farther ts u (distance ts u) far (omega arith) ps b),
                      ),
                    ),
                  )
            ]
      ]

  -- Where the prices are in the order of time and there is one, `nearest_trade_price` gives a price of the
  -- list, and no price of the list was paid nearer to the time.
  pub nearest_trade_price-IsNearest :
      (ts : ℕ) (p : ℕ × F) (ps : List (ℕ × F))
      → Chain time (p ∷ ps)
      → (q : ℕ × F) × (nearest_trade_price (p ∷ ps) ts ≡ some (q.1)) × IsNearest ts (p ∷ ps) q
  unfolding nearest_trade_price split_prices
  nearest_trade_price-IsNearest ts (t, price) ps (a, c) = elim (Bool-cases (ltb t ts)) [
    | inl before ↦
        let near : t < ts = ground arith in
        let (q, path, best) = split_prices-IsNearest ts (t, price) ps near (a, c) in
        (q, rw before path, best)
    | inr after ↦
        let far : ts ≤ t = ground arith in
        (
          (t, price),
          rw after refl,
          (inl refl, (omega arith, farther ts t (distance ts t) far (omega arith) ps a)),
        )
  ]
