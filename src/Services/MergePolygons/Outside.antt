-- ===== src/Services/MergePolygons/Outside.antt =====
-- What `mergePolygons` makes of two polygons.
use mathlib.Core.List.{Mem}
use runner_io.Common.{◌≡◌, ◌⊎◌, Bool, true, false, List, [], All}
use runner_io.Float64.{Float64, IsComparable}
use runner_io.GoTime.{zero_time}
use runner_io.Dto.Schema.{CoordinateStruct, PolygonData}
use runner_io.Services.PointInPolygon.{is_point_in_polygon}
use runner_io.Services.PointsInPolygon.{get_points_in_polygon}
use runner_io.Services.PointsInPolygon.Boundary.{points_inside}

module _ {ℓ} {F : Type ℓ} ⦃f : Float64 F⦄ where
  -- A point of one of the polygons outside the other.
  abbrev pub IsOutline :
      List (CoordinateStruct F) → List (CoordinateStruct F) → CoordinateStruct F → Type ℓ
  IsOutline p1 p2 c =
      (Mem c p1 × (is_point_in_polygon c p2 ≡ false))
      ⊎ (Mem c p2 × (is_point_in_polygon c p1 ≡ false))

  -- The two outcomes: the first polygon and `false`, where one has no point inside the other, or
  -- a new polygon of the first one's runner, with the zero time, and `true`.
  abbrev pub IsMerged : PolygonData F → PolygonData F → PolygonData F × Bool → Type ℓ
  IsMerged p1 p2 (r, merged) =
      ((merged ≡ false)
        × (r ≡ p1)
        × ((points_inside p1.coords p2.coords ≡ []) ⊎ (points_inside p2.coords p1.coords ≡ [])))
      ⊎ ((merged ≡ true)
          × (r.time ≡ zero_time)
          × (r.runner ≡ p1.runner)
          × All (IsOutline p1.coords p2.coords) r.coords)

  module _ (laws : IsComparable F) (p1 p2 : PolygonData F) where
    abbrev in_p2 : List (CoordinateStruct F)
    in_p2 = (get_points_in_polygon p1.coords p2.coords).0

    abbrev in_p1 : List (CoordinateStruct F)
    in_p1 = (get_points_in_polygon p2.coords p1.coords).0
