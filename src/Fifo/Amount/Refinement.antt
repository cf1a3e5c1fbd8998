-- ===== src/Fifo/Amount/Refinement.antt =====
-- The amount book of src/fifo_pnl.rs against two queues of ticks, one for each side.
use Prim.Native.Nat.{min}
use mathlib.Core.List.{append-nil}
use crypto_nav_manager.Base.{
  ℕ, zero, suc, ◌+◌, ◌-◌, ◌≤◌, ◌<◌, ◌≡◌, ap, subst, ◌∙◌, List, [], ◌∷◌, ◌++◌, arith, length,
  length-append, length-replicate, drop, length-drop, replicate, lt→ltb, done,
}
use crypto_nav_manager.Float.{Float, Grid, IsPositive, IsFinite}
use crypto_nav_manager.Fifo.{Side, buy, sell, Lot, close_lots}
use crypto_nav_manager.Fifo.Ticks.{
  expand, Represents, Takes, close_lots-Takes, Represents-push, expand-push,
}
use crypto_nav_manager.Fifo.Amount.{
  FifoPnl, FillResult, close_gain, closing_side, open_remainder, settle_closed, book_fill,
  apply_fill,
}
use crypto_nav_manager.Fifo.Amount.Safety.{validate_positive_pass}

module _ {F : Type 0} where
  -- The other side without its oldest `m` ticks.
  drained : Side → ℕ → List F × List F → List F × List F
  drained buy m (longs, shorts) = (longs, drop m shorts)
  drained sell m (longs, shorts) = (drop m longs, shorts)

  -- The fill's own side with `n` more ticks behind.
  joined : Side → F → ℕ → List F × List F → List F × List F
  joined buy price n (longs, shorts) = (longs ++ replicate n price, shorts)
  joined sell price n (longs, shorts) = (longs, shorts ++ replicate n price)

  -- The ticks that a fill on this side may close, and those that it may join.
  pub closing_queue : Side → List F × List F → List F
  closing_queue buy q = q.1
  closing_queue sell q = q.0

  -- What a fill of `m` ticks promises: it takes the oldest ticks of the other side, and what is left
  -- of it queues up on its own.
  pub fill_queues : Side → F → ℕ → List F × List F → List F × List F
  unfolding drained joined closing_queue
  fill_queues side price m q =
      joined side price (m - length (closing_queue side q)) (drained side m q)

  unfoldable pub opening_queue : Side → List F × List F → List F
  opening_queue buy q = q.0
  opening_queue sell q = q.1

  drained_room :
      (side : Side) (m : ℕ) (q : List F × List F) (limit : ℕ)
      → length (opening_queue side q) + m ≤ limit
      → length (opening_queue side (drained side m q)) + (m - length (closing_queue side q)) ≤ limit
  unfolding opening_queue drained
  drained_room buy m q limit h = omega arith
  drained_room sell m q limit h = omega arith

module _ {F : Type 0} ⦃f : Float F⦄ (g : Grid F) where
  -- One side of a book: its lots hold the queue, and its running amount is the queue's length.
  abbrev pub Holds : List (Lot F) → F → List F → Type 0
  Holds lots amount queue =
      (ts : List (F × ℕ)) × Represents g lots ts × (expand ts ≡ queue) × g.Is amount (length queue)

  pub record View (s : FifoPnl F) (q : List F × List F) : Type 0 where
    pub long_side : Holds s.longs s.long_amount_u q.0
    pub short_side : Holds s.shorts s.short_amount_u q.1

  -- A side after the closing loop.
  Holds-close :
      (lots : List (Lot F)) (amount taken rest : F) (queue : List F) (ts : List (F × ℕ)) (m : ℕ)
      → g.Is amount (length queue)
      → g.Is taken m
      → Represents g lots ts
      → g.Is rest (m - length queue)
      → expand ts ≡ drop m queue
      → Holds lots (f.sub amount (f.sub taken rest)) (drop m queue)
  Holds-close lots amount taken rest queue ts m a t r k e = (
    ts,
    r,
    e,
    subst (g.Is _) (omega (arith, length-drop m queue))
        (g.is_sub _ _ _ _ a (g.is_sub _ _ _ _ t k (omega arith)) (omega arith)),
  )

  -- A side after a push.
  Holds-push :
      (lots : List (Lot F)) (amount price added : F) (queue : List F) (n : ℕ)
      → Holds lots amount queue
      → g.Is added n
      → length queue + n ≤ g.limit
      → Holds
          (lots ++ record { entry_price = price; amount = added } ∷ [])
          (f.add amount added)
          (queue ++ replicate n price)
  Holds-push lots amount price added queue n (ts, r, e, a) k h = (
    ts ++ (price, n) ∷ [],
    Represents-push g lots ts _ n r k,
    expand-push ts price n ∙ ap (λ x. x ++ replicate n price) e,
    subst (g.Is _)
        (omega (arith, length-append queue (replicate n price), length-replicate n price))
        (g.is_add _ _ _ _ a k h),
  )

  settle_closed-View :
      (s : FifoPnl F) (side : Side) (q : List F × List F) (lots : List (Lot F)) (taken rest : F)
      (ts : List (F × ℕ)) (m : ℕ)
      → View s q
      → g.Is taken m
      → Represents g lots ts
      → g.Is rest (m - length (closing_queue side q))
      → expand ts ≡ drop m (closing_queue side q)
      → View (settle_closed s side lots (f.sub taken rest)) (drained side m q)
  unfolding settle_closed closing_queue drained
  settle_closed-View s buy q lots taken rest ts m v t r k e = record {
    long_side = v.long_side;
    short_side = Holds-close lots _ taken rest q.1 ts m v.short_side.3 t r k e;
  }
  settle_closed-View s sell q lots taken rest ts m v t r k e = record {
    long_side = Holds-close lots _ taken rest q.0 ts m v.long_side.3 t r k e;
    short_side = v.short_side;
  }

  open_remainder-View :
      (s : FifoPnl F) (side : Side) (price rest : F) (q : List F × List F) (n : ℕ)
      → View s q
      → g.Is rest n
      → length (opening_queue side q) + n ≤ g.limit
      → View (open_remainder s side price rest) (joined side price n q)
  unfolding open_remainder opening_queue joined
  open_remainder-View s buy price rest (l, h) zero v k b =
      rw (g.lt_ltb _ _ 0 0 g.is_nought k, append-nil l) v
  open_remainder-View s sell price rest (l, h) zero v k b =
      rw (g.lt_ltb _ _ 0 0 g.is_nought k, append-nil h) v
  open_remainder-View s buy price rest q (suc n) v k b =
      rw (g.lt_ltb _ _ 0 (suc n) g.is_nought k, lt→ltb 0 (suc n) (omega arith))
        (record {
          long_side = Holds-push s.longs s.long_amount_u price rest q.0 (suc n) v.long_side k b;
          short_side = v.short_side;
        })
  open_remainder-View s sell price rest q (suc n) v k b =
      rw (g.lt_ltb _ _ 0 (suc n) g.is_nought k, lt→ltb 0 (suc n) (omega arith))
        (record {
          long_side = v.long_side;
          short_side = Holds-push s.shorts s.short_amount_u price rest q.1 (suc n) v.short_side k b;
        })

  closing_side-Takes :
      (s : FifoPnl F) (side : Side) (q : List F × List F) (gain : F → F → F) (amount : F) (m : ℕ)
      → View s q
      → g.Is amount m
      → let lots = (closing_side s side).0 in
        (ts : List (F × ℕ)) × (expand ts ≡ closing_queue side q)
        × Takes g m ts (close_lots gain (suc (length lots)) lots amount f.nought)
  unfolding closing_side closing_queue
  closing_side-Takes s buy q gain amount m v a =
      let (ts, r, e, _) = v.short_side in
      (ts, e, close_lots-Takes g gain _ s.shorts ts amount f.nought m (omega arith) r a)
  closing_side-Takes s sell q gain amount m v a =
      let (ts, r, e, _) = v.long_side in
      (ts, e, close_lots-Takes g gain _ s.longs ts amount f.nought m (omega arith) r a)

  IsPositive-ticks : (amount : F) (m : ℕ) → g.Is amount m → 0 < m → IsPositive amount
  IsPositive-ticks amount m a pos =
      (g.is_finite amount m a, g.lt_ltb _ _ 0 m g.is_nought a ∙ lt→ltb 0 m pos)

  -- What the caller is told: how much was matched and how much opened.
  pub record Reports (r : FillResult F) (side : Side) (m : ℕ) (q : List F × List F) : Type 0 where
    pub matched : g.Is r.matched_amount_u (min m (length (closing_queue side q)))
    pub opened : g.Is r.opened_amount_u (m - length (closing_queue side q))

  -- On a book that holds the queues `q` of ticks, a fill of `m` > 0 ticks at a positive price and a
  -- finite fee succeeds, leaves the queues `fill_queues side price m q`, oldest ticks closed first,
  -- and reports the ticks matched and opened; the side that it joins must have room on the grid.
  pub apply_fill-fill_queues :
      (s : FifoPnl F) (side : Side) (price amount fee : F) (m : ℕ) (q : List F × List F)
      → View s q
      → IsPositive price
      → IsFinite fee
      → g.Is amount m
      → 0 < m
      → length (opening_queue side q) + m ≤ g.limit
      → (s' : FifoPnl F) × (r : FillResult F) × (apply_fill s side price amount fee ≡ done (s', r))
        × View s' (fill_queues side price m q)
        × Reports r side m q
  unfolding apply_fill fill_queues
  apply_fill-fill_queues s side price amount fee m q v p h a pos room =
      let gain = close_gain price (closing_side s side).1 in
      let (ts, e, takes) = closing_side-Takes s side q gain amount m v a in
      let (lots, pnl, rest, ts', run, rep, is, taken) = takes in
      let left : g.Is rest (m - length (closing_queue side q)) =
        subst (λ x. g.Is rest (m - length x)) e is in
      let gone : expand ts' ≡ drop m (closing_queue side q) = taken ∙ ap (drop m) e in
      let closed = settle_closed-View s side q lots amount rest ts' m v a rep left gone in
      let opened =
        open_remainder-View _ side price rest _ (m - length (closing_queue side q)) closed left
          (drained_room side m q g.limit room) in
      let out = book_fill s side price amount fee (lots, pnl, rest) in
      (
        out.0,
        out.1,
        rw (
          validate_positive_pass "price" price p,
          validate_positive_pass "amount_u" amount (IsPositive-ticks amount m a pos),
          h,
          run,
        ),
        record { long_side = opened.long_side; short_side = opened.short_side },
        record {
          matched = subst (g.Is _) (omega arith) (g.is_sub _ _ _ _ a left (omega arith));
          opened = left;
        },
      )
