-- ===== src/Fifo/Ticks.antt =====
-- The closing loop of src/fifo_pnl.rs on amounts that are whole numbers of ticks.
use Prim.Native.Nat.{min}
use mathlib.Core.List.{append-nil, append_assoc}
use crypto_nav_manager.Base.{
  ℕ, zero, suc, ◌-◌, ◌≤◌, ◌<◌, ◌≡◌, refl, sym, subst, ◌∙◌, inl, inr, Option, some, List, [], ◌∷◌,
  ◌++◌, arith, length, length-append, length-replicate, drop, replicate, drop-replicate_all,
  drop-replicate_part, ltb, ltb→lt, lt→ltb, Bool-cases,
}
use crypto_nav_manager.Float.{Float, Grid}
use crypto_nav_manager.Fifo.{Lot, close_lots, reduce_front}

module _ {F : Type 0} where
  -- One entry for each tick that is open, oldest first: the price at which it was opened.
  unfoldable pub expand : List (F × ℕ) → List F
  expand [] = []
  expand ((price, n) ∷ ts) = replicate n price ++ expand ts

module _ {F : Type 0} ⦃f : Float F⦄ (g : Grid F) where
  -- The lots hold these prices and numbers of ticks.
  abbrev pub Represents : List (Lot F) → List (F × ℕ) → Type 0
  Represents [] [] = Unit
  Represents [] (t ∷ ts) = ⊥
  Represents (lot ∷ lots) [] = ⊥
  Represents (lot ∷ lots) ((price, n) ∷ ts) =
      (lot.entry_price ≡ price) × g.Is lot.amount n × Represents lots ts

  close_lots-zero :
      (gain : F → F → F) (fuel : ℕ) (lots : List (Lot F)) (amount pnl : F)
      → g.Is amount 0
      → close_lots gain (suc fuel) lots amount pnl ≡ some (lots, pnl, amount)
  unfolding close_lots
  close_lots-zero gain fuel [] amount pnl z = refl
  close_lots-zero gain fuel (lot ∷ rest) amount pnl z =
      rw (g.lt_ltb f.nought amount 0 0 g.is_nought z)

  abbrev pub Takes : ℕ → List (F × ℕ) → Option (List (Lot F) × F × F) → Type 0
  Takes m ts r =
      (lots : List (Lot F)) × (pnl : F) × (rest : F) × (ts' : List (F × ℕ)) × (r
        ≡ some (lots, pnl, rest))
      × Represents lots ts'
      × g.Is rest (m - length (expand ts))
      × (expand ts' ≡ drop m (expand ts))

  close_lots-step :
      (gain : F → F → F) (fuel : ℕ) (lot : Lot F) (rest : List (Lot F)) (amount pnl : F) {m : ℕ}
      → g.Is amount m
      → 0 < m
      → let matched = f.min amount lot.amount in
        close_lots gain (suc fuel) (lot ∷ rest) amount pnl
        ≡ close_lots gain fuel
            (reduce_front lot rest matched)
            (f.sub amount matched)
            (f.add pnl (gain lot.entry_price matched))
  unfolding close_lots
  close_lots-step gain fuel lot rest amount pnl {m} a h =
      rw (g.lt_ltb f.nought amount 0 m g.is_nought a, lt→ltb 0 m h)

  -- What is left of the front lot, in ticks.
  left_ticks :
      (lot : Lot F) (amount : F) (m n : ℕ)
      → g.Is amount m
      → g.Is lot.amount n
      → g.Is (f.sub lot.amount (f.min amount lot.amount)) (n - min m n)
  left_ticks lot amount m n a q = g.is_sub _ _ n (min m n) q (g.is_min _ _ m n a q) (omega arith)

  reduce_front_pop :
      (lot : Lot F) (rest : List (Lot F)) (amount : F) (m n : ℕ)
      → g.Is amount m
      → g.Is lot.amount n
      → n ≤ m
      → reduce_front lot rest (f.min amount lot.amount) ≡ rest
  unfolding reduce_front
  reduce_front_pop lot rest amount m n a q h =
      rw (g.eq_== _ _ _ 0 (left_ticks lot amount m n a q) g.is_nought) (ground arith)

  reduce_front_keep :
      (lot : Lot F) (rest : List (Lot F)) (amount : F) (m n : ℕ)
      → g.Is amount m
      → g.Is lot.amount n
      → m < n
      → reduce_front lot rest (f.min amount lot.amount)
        ≡ record lot { amount = f.sub lot.amount (f.min amount lot.amount) } ∷ rest
  unfolding reduce_front
  reduce_front_keep lot rest amount m n a q h =
      rw (g.eq_== _ _ _ 0 (left_ticks lot amount m n a q) g.is_nought) (ground arith)

  -- The front lot holds more than the amount: a part of it goes.
  take_part :
      (gain : F → F → F) (fuel : ℕ) (lot : Lot F) (rest : List (Lot F)) (p : F) (n : ℕ)
      (ts : List (F × ℕ)) (amount pnl : F) (m : ℕ)
      → lot.entry_price ≡ p
      → g.Is lot.amount n
      → Represents rest ts
      → g.Is amount m
      → 0 < m
      → m < n
      → Takes m ((p, n) ∷ ts) (close_lots gain (suc (suc fuel)) (lot ∷ rest) amount pnl)
  unfolding expand
  take_part gain fuel lot rest p n ts amount pnl m e q r a pos part =
      let matched = f.min amount lot.amount in
      let pnl' = f.add pnl (gain lot.entry_price matched) in
      let kept = record lot { amount = f.sub lot.amount matched } ∷ rest in
      let left = g.is_sub amount matched m _ a (g.is_min _ _ _ n a q) (omega arith) in
      let stop = close_lots-zero gain fuel kept _ pnl' (subst (g.Is _) (omega arith) left) in
      (
        kept,
        pnl',
        f.sub amount matched,
        (p, n - m) ∷ ts,
        close_lots-step gain (suc fuel) lot rest amount pnl a pos
            ∙ rw (reduce_front_keep lot rest amount m n a q part) stop,
        (e, subst (g.Is _) (omega arith) (left_ticks lot amount m n a q), r),
        subst (g.Is _)
            (omega (arith, length-append (replicate n p) (expand ts), length-replicate n p)) left,
        sym (
            subst (λ k. drop m (replicate k p ++ expand ts) ≡ replicate (n - m) p ++ expand ts)
              (omega arith) (drop-replicate_part (n - m) m p (expand ts))),
      )

  -- The front lot is used up: the rest of the amount is taken behind it.
  take_whole :
      (gain : F → F → F) (fuel : ℕ) (lot : Lot F) (rest : List (Lot F)) (p : F) (n : ℕ)
      (ts : List (F × ℕ)) (amount pnl : F) (m : ℕ)
      → g.Is lot.amount n
      → g.Is amount m
      → 0 < m
      → n ≤ m
      → let matched = f.min amount lot.amount in
        Takes (m - n) ts (
          close_lots gain fuel rest
            (f.sub amount matched)
            (f.add pnl (gain lot.entry_price matched)))
        → Takes m ((p, n) ∷ ts) (close_lots gain (suc fuel) (lot ∷ rest) amount pnl)
  unfolding expand
  take_whole gain fuel lot rest p n ts amount pnl m q a pos whole
        (lots', pnl', rest', ts', run, rep, is, taken) =
      (
        lots',
        pnl',
        rest',
        ts',
        close_lots-step gain fuel lot rest amount pnl a pos
            ∙ rw (reduce_front_pop lot rest amount m n a q whole) run,
        rep,
        subst (g.Is _)
            (omega (arith, length-append (replicate n p) (expand ts), length-replicate n p)) is,
        taken
            ∙ sym (
                subst (λ k. drop k (replicate n p ++ expand ts) ≡ drop (m - n) (expand ts))
                  (omega arith) (drop-replicate_all (m - n) n p (expand ts))),
      )

  -- From lots that hold `ts` the loop takes the first `m` ticks, or all that there are.
  pub close_lots-Takes :
      (gain : F → F → F) (fuel : ℕ) (lots : List (Lot F)) (ts : List (F × ℕ)) (amount pnl : F)
      (m : ℕ)
      → length lots < fuel
      → Represents lots ts
      → g.Is amount m
      → Takes m ts (close_lots gain fuel lots amount pnl)
  unfolding expand
  close_lots-Takes gain zero lots ts amount pnl m h r a = absurd (omega arith)
  close_lots-Takes gain (suc fuel) lots ts amount pnl zero h r a = (
    lots,
    pnl,
    amount,
    ts,
    close_lots-zero gain fuel lots amount pnl a,
    r,
    subst (g.Is amount) (omega arith) a,
    refl,
  )
  close_lots-Takes gain (suc fuel) [] [] amount pnl (suc m) h r a = (
    [],
    pnl,
    amount,
    [],
    unfold close_lots in refl,
    tt,
    subst (g.Is amount) (omega arith) a,
    refl,
  )
  close_lots-Takes gain (suc fuel) [] (t ∷ ts) amount pnl (suc m) h r a = absurd r
  close_lots-Takes gain (suc fuel) (lot ∷ rest) [] amount pnl (suc m) h r a = absurd r
  close_lots-Takes gain (suc zero) (lot ∷ rest) ((p, n) ∷ ts) amount pnl (suc m) h (e, q, r) a =
      absurd (omega arith)
  close_lots-Takes gain (suc (suc fuel)) (lot ∷ rest) ((p, n) ∷ ts) amount pnl (suc m) h (e, q, r)
        a =
      let matched = f.min amount lot.amount in
      let left = g.is_sub amount matched (suc m) _ a (g.is_min _ _ _ n a q) (omega arith) in
      elim (Bool-cases (ltb (suc m) n)) [
        | inl part ↦
            take_part gain fuel lot rest p n ts amount pnl (suc m) e q r a (omega arith)
              (ltb→lt _ _ part)
        | inr whole ↦
            take_whole gain (suc fuel) lot rest p n ts amount pnl (suc m) q a (omega arith)
              (ground arith)
              (close_lots-Takes gain (suc fuel) rest ts _ _ (suc m - n) (omega arith) r
                (subst (g.Is _) (ground arith) left))
      ]

  pub Represents-push :
      (lots : List (Lot F)) (ts : List (F × ℕ)) (lot : Lot F) (n : ℕ)
      → Represents lots ts
      → g.Is lot.amount n
      → Represents (lots ++ lot ∷ []) (ts ++ (lot.entry_price, n) ∷ [])
  Represents-push [] [] lot n r q = (refl, q, tt)
  Represents-push [] (t ∷ ts) lot n r q = absurd r
  Represents-push (l ∷ lots) [] lot n r q = absurd r
  Represents-push (l ∷ lots) ((p, k) ∷ ts) lot n (e, a, r) q =
      (e, a, Represents-push lots ts lot n r q)

module _ {F : Type 0} where
  pub expand-push :
      (ts : List (F × ℕ)) (p : F) (n : ℕ) → expand (ts ++ (p, n) ∷ []) ≡ expand ts ++ replicate n p
  unfolding expand
  expand-push [] p n = append-nil (replicate n p)
  expand-push ((q, k) ∷ ts) p n =
      rw (expand-push ts p n) (sym (append_assoc (replicate k q) (expand ts) (replicate n p)))
