-- ===== src/Services/EatPolygon.antt =====
-- internal/services/run_processor.go: `eatPolygon`. `none` is the panic of an index out of range.
pub mod Remove
pub mod Survivors
use runner_io.Common.{
  ℕ, suc, List, [], ◌∷◌, ◌++◌, Option, none, some, if◌then◌else◌, ◌==◌, get_elem?, delete_func,
  reverse,
}
use runner_io.Float64.{Float64}
use runner_io.GoTime.{zero_time}
use runner_io.Dto.Schema.{CoordinateStruct, PolygonData}
use runner_io.Services.Distance.{distance}
use runner_io.Services.PointInPolygon.{same_point}
use runner_io.Services.PointsInPolygon.{get_points_in_polygon}

module _ {ℓ} {F : Type ℓ} ⦃f : Float64 F⦄ where
  -- The loop that copies the points of p1 from index `idx` on, and behind index `last` those of
  -- `extra`.
  unfoldable pub splice :
      ℕ → ℕ → List (CoordinateStruct F) → List (CoordinateStruct F) → List (CoordinateStruct F)
  splice idx last [] extra = []
  splice idx last (point ∷ coords) extra =
      let rest = splice (suc idx) last coords extra in
      point ∷ (if idx == last then extra ++ rest else rest)

  -- The loop of `slices.DeleteFunc` over the points to remove.
  unfoldable pub remove_points :
      List (CoordinateStruct F) → List (CoordinateStruct F) → List (CoordinateStruct F)
  unfolding delete_func
  remove_points [] coords = coords
  remove_points (point ∷ points) coords =
      remove_points points (delete_func coords λ p. same_point point p)

  abbrev pub last_coord : CoordinateStruct F → List (CoordinateStruct F) → CoordinateStruct F
  last_coord p [] = p
  last_coord p (q ∷ qs) = last_coord q qs

  -- `pointsInP1`, turned round where its first point is further from `at` than its last.
  unfoldable pub towards :
      CoordinateStruct F
      → CoordinateStruct F
      → List (CoordinateStruct F)
      → List (CoordinateStruct F)
  towards at first rest =
      let last = last_coord first rest in
      if f.lt (distance last.x last.y at.x at.y) (distance first.x first.y at.x at.y)
      then reverse (first ∷ rest)
      else first ∷ rest

  -- Behind the calls of `getPointsInPolygon`: the points of p1 inside p2, the index before them,
  -- and the points of p2 inside p1.
  unfoldable pub eat_points :
      PolygonData F
      → List (CoordinateStruct F)
      → Option ℕ
      → List (CoordinateStruct F)
      → Option (PolygonData F)
  unfolding splice remove_points towards
  eat_points p1 [] last in_p1 = some p1
  eat_points p1 (a ∷ in_p2) last [] = some p1
  eat_points p1 (a ∷ in_p2) none (b ∷ in_p1) =
      some (record { coords = remove_points (a ∷ in_p2) []; runner = p1.runner; time = zero_time })
  eat_points p1 (a ∷ in_p2) (some last) (b ∷ in_p1) = elim (get_elem? p1.coords last) [
    | none ↦ none
    | some at ↦ some (record {
      coords = remove_points (a ∷ in_p2) (splice 0 last p1.coords (towards at b in_p1));
      runner = p1.runner;
      time = zero_time;
    })
  ]

  unfoldable pub eat_polygon : PolygonData F → PolygonData F → Option (PolygonData F)
  unfolding eat_points get_points_in_polygon
  eat_polygon p1 p2 =
      let (points_in_p2, last) = get_points_in_polygon p1.coords p2.coords in
      let points_in_p1 = (get_points_in_polygon p2.coords p1.coords).0 in
      eat_points p1 points_in_p2 last points_in_p1
