-- ===== src/Pnl/Extrema.antt =====
-- src/pnl.rs, `downsample_extrema`: how many points it leaves, and which.
use native.Mathlib.Nat.{div-add-mod', mod-lt}
use crypto_nav_manager.Base.{
  ℕ, zero, suc, ◌+◌, ◌-◌, ◌*◌, ◌/◌, ◌≤◌, ◌<◌, inl, inr, Bool-cases, List, [], ◌∷◌, ◌||◌, All,
  All-append, length, length-append, take, drop, length-drop, leb, ltb, ◌==◌, arith, if◌then◌else◌,
}
use crypto_nav_manager.Base.Sort.{sort_by, sort_by-All, sort_by-length}
use crypto_nav_manager.Float.{Float}
use crypto_nav_manager.Pnl.States.{PnlPoint}
use crypto_nav_manager.Pnl.Curve.{
  div_ceil, bucket_count, ts_le, dedup_by_ts, min_by, max_by, all_extrema, bucket_extrema,
  sample_chunks, last_of, without_last, interior, downsample_extrema,
}

le-div_ceil : (a b : ℕ) → 0 < b → a ≤ div_ceil a b * b
unfolding div_ceil
le-div_ceil a b pos =
    let whole = div-add-mod' a b in
    let part = mod-lt a pos in
    elim (Bool-cases (a - (a / b) * b == 0)) [
      | inl h ↦ rw h (ground arith)
      | inr h ↦ rw h (grind arith)
    ]

bucket_count-pos : (m : ℕ) → 0 < bucket_count m
unfolding bucket_count
bucket_count-pos m = ground arith

bucket_count-le : (m : ℕ) → 10 ≤ m → 8 * bucket_count m + 2 ≤ m
unfolding bucket_count
bucket_count-le m h = let whole = div-add-mod' (m - 2) 8 in ground arith

module _ {F : Type 0} where
  length-dedup_by_ts : (ps : List (PnlPoint F)) → length (dedup_by_ts ps) ≤ length ps
  unfolding dedup_by_ts
  length-dedup_by_ts [] = omega arith
  length-dedup_by_ts (p ∷ ps) = let h = length-dedup_by_ts ps in ground arith

  dedup_by_ts-All :
      (P : PnlPoint F → Type 0) (ps : List (PnlPoint F)) → All P ps → All P (dedup_by_ts ps)
  unfolding dedup_by_ts
  dedup_by_ts-All P [] a = tt
  dedup_by_ts-All P (p ∷ ps) (h, a) = keep p (dedup_by_ts ps) h (dedup_by_ts-All P ps a)
    where
      keep :
          (p : PnlPoint F) (qs : List (PnlPoint F))
          → P p
          → All P qs
          → All P (elim qs [ [] ↦ p ∷ [] | q ∷ qs ↦ if p.ts == q.ts then p ∷ qs else p ∷ q ∷ qs ])
      keep p [] h a = (h, tt)
      keep p (q ∷ qs) h (k, a) = elim (Bool-cases (p.ts == q.ts)) [
        | inl e ↦ rw e (h, a)
        | inr e ↦ rw e (h, (k, a))
      ]

  All-take :
      (P : PnlPoint F → Type 0) (n : ℕ) (ps : List (PnlPoint F)) → All P ps → All P (take n ps)
  All-take P zero ps a = tt
  All-take P (suc n) [] a = tt
  All-take P (suc n) (p ∷ ps) (h, a) = (h, All-take P n ps a)

  All-drop :
      (P : PnlPoint F → Type 0) (n : ℕ) (ps : List (PnlPoint F)) → All P ps → All P (drop n ps)
  All-drop P zero ps a = a
  All-drop P (suc n) [] a = tt
  All-drop P (suc n) (p ∷ ps) (h, a) = All-drop P n ps a

module _ {F : Type 0} ⦃f : Float F⦄ (P : PnlPoint F → Type 0) where
  min_by-pick :
      (value : PnlPoint F → F) (p : PnlPoint F) (ps : List (PnlPoint F))
      → P p
      → All P ps
      → P (min_by value p ps)
  unfolding min_by
  min_by-pick value p [] h a = h
  min_by-pick value p (q ∷ qs) h (k, a) = elim (Bool-cases (f.lt (value q) (value p))) [
    | inl e ↦ rw e (min_by-pick value q qs k a)
    | inr e ↦ rw e (min_by-pick value p qs h a)
  ]

  max_by-pick :
      (value : PnlPoint F → F) (p : PnlPoint F) (ps : List (PnlPoint F))
      → P p
      → All P ps
      → P (max_by value p ps)
  unfolding max_by
  max_by-pick value p [] h a = h
  max_by-pick value p (q ∷ qs) h (k, a) = elim (Bool-cases (f.lt (value q) (value p))) [
    | inl e ↦ rw e (max_by-pick value p qs h a)
    | inr e ↦ rw e (max_by-pick value q qs k a)
  ]

  bucket_extrema-All : (ps : List (PnlPoint F)) → All P ps → All P (bucket_extrema ps)
  unfolding bucket_extrema
  bucket_extrema-All [] a = tt
  bucket_extrema-All (p ∷ ps) (h, a) =
      let low = λ (v : PnlPoint F → F). min_by-pick v p ps h a in
      let high = λ (v : PnlPoint F → F). max_by-pick v p ps h a in
      dedup_by_ts-All P (sort_by ts_le (all_extrema p ps)) (
        sort_by-All ts_le P (all_extrema p ps)
          (low _, (high _, (low _, (high _, (low _, (high _, (low _, (high _, tt)))))))))

  sample_chunks-All :
      (fuel size : ℕ) (ps : List (PnlPoint F)) → All P ps → All P (sample_chunks fuel size ps)
  unfolding sample_chunks
  sample_chunks-All zero size ps a = tt
  sample_chunks-All (suc fuel) size [] a = tt
  sample_chunks-All (suc fuel) size (p ∷ ps) a =
      All-append P (bucket_extrema (take size (p ∷ ps)))
        (sample_chunks fuel size (drop size (p ∷ ps)))
        (bucket_extrema-All (take size (p ∷ ps)) (All-take P size (p ∷ ps) a))
        (sample_chunks-All fuel size (drop size (p ∷ ps)) (All-drop P size (p ∷ ps) a))

module _ {F : Type 0} ⦃f : Float F⦄ where
  length-bucket_extrema : (ps : List (PnlPoint F)) → length (bucket_extrema ps) ≤ 8
  unfolding bucket_extrema
  length-bucket_extrema [] = omega arith
  length-bucket_extrema (p ∷ ps) = omega (
    arith,
    length-dedup_by_ts (sort_by ts_le (all_extrema p ps)),
    sort_by-length ts_le (all_extrema p ps),
  )

  length-sample_chunks :
      (fuel size count : ℕ) (ps : List (PnlPoint F))
      → length ps ≤ count * size
      → length (sample_chunks fuel size ps) ≤ 8 * count
  unfolding sample_chunks
  length-sample_chunks zero size count ps h = omega arith
  length-sample_chunks (suc fuel) size count [] h = omega arith
  length-sample_chunks (suc fuel) size zero (p ∷ ps) h = grind arith
  length-sample_chunks (suc fuel) size (suc count) (p ∷ ps) h =
      let chunk = length-bucket_extrema (take size (p ∷ ps)) in
      let dropped = length-drop size (p ∷ ps) in
      let rest : length (drop size (p ∷ ps)) ≤ count * size = grind arith in
      let sum =
        length-append (bucket_extrema (take size (p ∷ ps)))
          (sample_chunks fuel size (drop size (p ∷ ps))) in
      omega (arith, length-sample_chunks fuel size count (drop size (p ∷ ps)) rest)

  without_last-All :
      (P : PnlPoint F → Type 0) (p : PnlPoint F) (ps : List (PnlPoint F))
      → P p
      → All P ps
      → All P (without_last p ps) × P (last_of p ps)
  without_last-All P p [] h a = (tt, h)
  without_last-All P p (q ∷ qs) h (k, a) =
      let (rest, last) = without_last-All P q qs k a in ((h, rest), last)

  interior-All : (P : PnlPoint F → Type 0) (ps : List (PnlPoint F)) → All P ps → All P (interior ps)
  interior-All P [] a = tt
  interior-All P (p ∷ ps) (h, a) = (without_last-All P p ps h a).0

  -- Where at least ten points are wanted, `downsample_extrema` leaves no more than are wanted, and it makes
  -- none up: what holds of every point of a curve holds of every point that it leaves.
  pub downsample_extrema-All :
      (P : PnlPoint F → Type 0) (ps : List (PnlPoint F)) (max_points : ℕ)
      → 10 ≤ max_points
      → All P ps
      → All P (downsample_extrema ps max_points)
        × (length (downsample_extrema ps max_points) ≤ max_points)
  unfolding downsample_extrema
  downsample_extrema-All P [] max_points enough a = (tt, omega arith)
  downsample_extrema-All P (p ∷ ps) max_points enough (h, a) =
      elim (Bool-cases (leb (length (p ∷ ps)) max_points || ltb max_points 10)) [
        | inl few ↦ rw few ((h, a), ground arith)
        | inr many ↦
            let inner = interior ps in
            let size = div_ceil (length inner) (bucket_count max_points) in
            let chunks = sample_chunks (length inner) size inner in
            let fits =
              le-div_ceil (length inner) (bucket_count max_points) (bucket_count-pos max_points) in
            rw many (
              (
                h,
                All-append P chunks (last_of p ps ∷ [])
                    (sample_chunks-All P (length inner) size inner (interior-All P ps a))
                    ((without_last-All P p ps h a).1, tt),
              ),
              let sum = length-append chunks (last_of p ps ∷ []) in
                  let bound =
                    length-sample_chunks (length inner) size (bucket_count max_points) inner
                      (grind arith) in
                  omega (arith, bucket_count-le max_points enough),
            )
      ]
