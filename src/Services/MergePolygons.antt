-- ===== src/Services/MergePolygons.antt =====
-- internal/services/run_processor.go: `mergePolygons`.
pub mod Outside
use runner_io.Common.{Bool, true, false, List, [], ◌∷◌, ◌++◌}
use runner_io.Float64.{Float64}
use runner_io.GoTime.{zero_time}
use runner_io.Dto.Schema.{CoordinateStruct, PolygonData}
use runner_io.Services.PointsInPolygon.{get_points_in_polygon}
use runner_io.Services.SortPoints.{sort_points_by_distance}
use runner_io.Services.EatPolygon.{remove_points}

module _ {ℓ} {F : Type ℓ} ⦃f : Float64 F⦄ where
  -- Behind the calls of `getPointsInPolygon`.
  unfoldable pub merge_points :
      PolygonData F
      → PolygonData F
      → List (CoordinateStruct F)
      → List (CoordinateStruct F)
      → PolygonData F × Bool
  unfolding remove_points sort_points_by_distance
  merge_points p1 p2 in_p2 [] = (p1, false)
  merge_points p1 p2 [] (b ∷ in_p1) = (p1, false)
  merge_points p1 p2 (a ∷ in_p2) (b ∷ in_p1) =
      let coords = p1.coords ++ p2.coords in
      let outside_p2 = remove_points (a ∷ in_p2) coords in
      let outside = remove_points (b ∷ in_p1) outside_p2 in
      (
        record { coords = sort_points_by_distance outside; runner = p1.runner; time = zero_time },
        true,
      )

  unfoldable pub merge_polygons : PolygonData F → PolygonData F → PolygonData F × Bool
  unfolding merge_points get_points_in_polygon
  merge_polygons p1 p2 =
      merge_points p1 p2 (get_points_in_polygon p1.coords p2.coords).0
        (get_points_in_polygon p2.coords p1.coords).0
