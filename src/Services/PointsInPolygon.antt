-- ===== src/Services/PointsInPolygon.antt =====
-- internal/services/utils.go: `getPointsInPolygon`. A nil slice is the empty list (the code
-- returns no other empty slice), and the index -1 is `none`.
pub mod StepBack
pub mod Boundary
use runner_io.Common.{
  ℕ, zero, suc, ◌+◌, ◌-◌, ◌%◌, List, [], ◌∷◌, Option, none, some, if◌then◌else◌, ◌==◌, length,
  contains_func,
}
use runner_io.Common.Int.{ℤ}
use runner_io.Common.Sort.{sort_func}
use runner_io.Float64.{Float64}
use runner_io.Dto.Schema.{CoordinateStruct}
use runner_io.Services.PointInPolygon.{is_point_in_polygon}

-- The `for` that steps back while the index is one of `idxs`, `n` being the length of P1. The fuel is
-- the number of rounds left; at its end the index stands as it is.
unfoldable pub step_back : ℕ → List ℕ → ℕ → ℕ → ℕ
unfolding contains_func
step_back zero idxs n last = last
step_back (suc fuel) idxs n last =
    let rest = step_back fuel idxs n (if last == 0 then n - 1 else last - 1) in
    if contains_func idxs (λ i. i == last) then rest else last

module _ {ℓ} {F : Type ℓ} ⦃f : Float64 F⦄ where
  -- The loop over P1 from index `idx` on: the points inside P2, and their indices.
  unfoldable pub collect_inside :
      ℕ → List (CoordinateStruct F) → List (CoordinateStruct F) → List (CoordinateStruct F) × List ℕ
  unfolding is_point_in_polygon
  collect_inside idx [] p2 = ([], [])
  collect_inside idx (point ∷ p1) p2 =
      let rest = collect_inside (suc idx) p1 p2 in
      if is_point_in_polygon point p2 then (point ∷ rest.0, idx ∷ rest.1) else rest

  -- The comparison that the points are sorted by: x² + y², its difference cut to an integer.
  unfoldable pub compare_norm : CoordinateStruct F → CoordinateStruct F → ℤ
  compare_norm a b =
      let temp_a = f.add (f.mul a.x a.x) (f.mul a.y a.y) in
      let temp_b = f.add (f.mul b.x b.x) (f.mul b.y b.y) in f.to_int (f.sub temp_a temp_b)

  abbrev pub with_last :
      List (CoordinateStruct F)
      → List (CoordinateStruct F)
      → List ℕ
      → List (CoordinateStruct F) × Option ℕ
  with_last p1 points [] = ([], none)
  with_last p1 points (i ∷ idxs) =
      let n = length p1 in
      if length (i ∷ idxs) == n
      then (points, none)
      else (sort_func compare_norm points, some (step_back n (i ∷ idxs) n ((i + n - 1) % n)))

  unfoldable pub get_points_in_polygon :
      List (CoordinateStruct F) → List (CoordinateStruct F) → List (CoordinateStruct F) × Option ℕ
  unfolding collect_inside compare_norm step_back sort_func
  get_points_in_polygon p1 p2 =
      let (points, idxs) = collect_inside 0 p1 p2 in with_last p1 points idxs
