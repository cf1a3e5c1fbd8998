-- ===== src/Pnl/Curve.antt =====
-- src/pnl.rs: the points of a curve, one for each fixed tick, and fewer of them.
use crypto_nav_manager.Base.{
  ℕ, zero, suc, ◌+◌, ◌-◌, ◌*◌, ◌/◌, leb, ltb, ◌==◌, Bool, ◌||◌, Option, none, some, List, [], ◌∷◌,
  ◌++◌, length, take, drop, if◌then◌else◌,
}
use crypto_nav_manager.Base.Sort.{sort_by}
use crypto_nav_manager.Float.{Float}
use crypto_nav_manager.Pnl.States.{PnlPoint}

unfoldable pub div_ceil : ℕ → ℕ → ℕ
div_ceil a b = if a - (a / b) * b == 0 then a / b else a / b + 1

abbrev pub max_ℕ : ℕ → ℕ → ℕ
max_ℕ a b = if leb a b then b else a

-- Eight points at most stand for a bucket: two for each of four values.
unfoldable pub bucket_count : ℕ → ℕ
bucket_count max_points = max_ℕ ((max_points - 2) / 8) 1

module _ {F : Type 0} where
  -- A point at the time of the last one takes its place.
  unfoldable pub push_or_replace_point : List (PnlPoint F) → PnlPoint F → List (PnlPoint F)
  push_or_replace_point [] p = p ∷ []
  push_or_replace_point (q ∷ []) p = if q.ts == p.ts then p ∷ [] else q ∷ p ∷ []
  push_or_replace_point (q ∷ r ∷ qs) p = q ∷ push_or_replace_point (r ∷ qs) p

  -- `push_at`: the source moves on to the last point that is not after `ts`.
  unfoldable pub advance : PnlPoint F → List (PnlPoint F) → ℕ → PnlPoint F × List (PnlPoint F)
  advance current [] ts = (current, [])
  advance current (p ∷ ps) ts =
      let rest = advance p ps ts in if leb p.ts ts then rest else (current, p ∷ ps)

  -- `while tick_ms < end_ms`, on fuel, and the point at the end.
  unfoldable pub sample_ticks :
      ℕ → ℕ → ℕ → ℕ → PnlPoint F → List (PnlPoint F) → Option (List (PnlPoint F))
  unfolding advance
  sample_ticks zero tick end interval current ps = none
  sample_ticks (suc fuel) tick end interval current ps =
      let (c, rest) = advance current ps tick in
      let (d, _) = advance current ps end in
      let more = sample_ticks fuel (tick + interval) end interval c rest in
      if ltb tick end
      then elim more [ none ↦ none | some qs ↦ some (record c { ts = tick } ∷ qs) ]
      else some (record d { ts = end } ∷ [])

  -- A tick is not taken to reach 2^63; there the code's saturating sum would end the loop.
  unfoldable pub resample_fixed_interval :
      List (PnlPoint F) → ℕ → ℕ → ℕ → Option (List (PnlPoint F))
  unfolding advance sample_ticks
  resample_fixed_interval [] start end interval = some []
  resample_fixed_interval (p ∷ ps) start end interval =
      if interval == 0 || ltb end start
      then some (p ∷ ps)
      else let (c, rest) = advance p ps start in
        if ltb start end
        then elim (sample_ticks (suc (end - start)) ((start / interval + 1) * interval) end interval
            c rest) [ none ↦ none | some qs ↦ some (record c { ts = start } ∷ qs) ]
        else some (record c { ts = start } ∷ [])

module _ {F : Type 0} where
  abbrev pub ts_le : PnlPoint F → PnlPoint F → Bool
  ts_le a b = leb a.ts b.ts

  -- `dedup_by_key`: of neighbours with one time, the first.
  unfoldable pub dedup_by_ts : List (PnlPoint F) → List (PnlPoint F)
  dedup_by_ts [] = []
  dedup_by_ts (p ∷ ps) = elim (dedup_by_ts ps) [
    | [] ↦ p ∷ []
    | q ∷ qs ↦ if p.ts == q.ts then p ∷ qs else p ∷ q ∷ qs
  ]

module _ {F : Type 0} ⦃f : Float F⦄ where
  -- `min_by` with `partial_cmp` and `Equal` for NaN: the first of the least.
  unfoldable pub min_by : (PnlPoint F → F) → PnlPoint F → List (PnlPoint F) → PnlPoint F
  min_by value best [] = best
  min_by value best (p ∷ ps) = min_by value (if f.lt (value p) (value best) then p else best) ps

  -- `max_by`: the last of the greatest.
  unfoldable pub max_by : (PnlPoint F → F) → PnlPoint F → List (PnlPoint F) → PnlPoint F
  max_by value best [] = best
  max_by value best (p ∷ ps) = max_by value (if f.lt (value p) (value best) then best else p) ps

  abbrev pub extrema_of : (PnlPoint F → F) → PnlPoint F → List (PnlPoint F) → List (PnlPoint F)
  extrema_of value p ps = min_by value p ps ∷ max_by value p ps ∷ []

  -- The least and the greatest of each of the four values.
  abbrev pub all_extrema : PnlPoint F → List (PnlPoint F) → List (PnlPoint F)
  all_extrema p ps =
      extrema_of (λ q. q.total_pnl_usdt) p ps
      ++ extrema_of (λ q. q.spot_position_usdt) p ps
      ++ extrema_of (λ q. q.futures_position_usdt) p ps
      ++ extrema_of (λ q. q.exposure_usdt) p ps

  -- The extrema of one bucket, in the order of time.
  unfoldable pub bucket_extrema : List (PnlPoint F) → List (PnlPoint F)
  unfolding min_by max_by dedup_by_ts sort_by
  bucket_extrema [] = []
  bucket_extrema (p ∷ ps) = dedup_by_ts (sort_by ts_le (all_extrema p ps))

  -- The extrema of the `chunks(size)`, on fuel: a chunk takes `size` points.
  unfoldable pub sample_chunks : ℕ → ℕ → List (PnlPoint F) → List (PnlPoint F)
  unfolding bucket_extrema
  sample_chunks zero size ps = []
  sample_chunks (suc fuel) size [] = []
  sample_chunks (suc fuel) size (p ∷ ps) =
      bucket_extrema (take size (p ∷ ps)) ++ sample_chunks fuel size (drop size (p ∷ ps))

  abbrev pub last_of : PnlPoint F → List (PnlPoint F) → PnlPoint F
  last_of p [] = p
  last_of p (q ∷ qs) = last_of q qs

  abbrev pub without_last : PnlPoint F → List (PnlPoint F) → List (PnlPoint F)
  without_last p [] = []
  without_last p (q ∷ qs) = p ∷ without_last q qs

  -- The interior of a curve from its second point, `p`, on.
  abbrev pub interior : List (PnlPoint F) → List (PnlPoint F)
  interior [] = []
  interior (p ∷ ps) = without_last p ps

  -- Each chunk has a point at least, so the number of points is enough fuel.
  unfoldable pub downsample_extrema : List (PnlPoint F) → ℕ → List (PnlPoint F)
  unfolding sample_chunks div_ceil bucket_count
  downsample_extrema [] max_points = []
  downsample_extrema (p ∷ ps) max_points =
      if leb (length (p ∷ ps)) max_points || ltb max_points 10
      then p ∷ ps
      else let inner = interior ps in
        p ∷ sample_chunks (length inner) (div_ceil (length inner) (bucket_count max_points)) inner
        ++ last_of p ps ∷ []
