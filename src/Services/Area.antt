-- ===== src/Services/Area.antt =====
-- internal/services/area.go: the area of each user of a group.
pub mod Totals
use runner_io.Common.{List, [], ◌∷◌, Option, none, some, String}
use runner_io.Common.Map.{Map, lookup, insert}
use runner_io.Common.Result.{Result, ok, err}
use runner_io.Float64.{Float64, float_zero}
use runner_io.Dto.Schema.{CoordinateStruct, PolygonData}
use runner_io.Services.PointInPolygon.{next_vertex}
use runner_io.Services.SortPoints.{sort_points_by_distance}

module _ {ℓ} {F : Type ℓ} ⦃f : Float64 F⦄ where
  -- The loop of the shoelace formula; `coords[(i + 1) % len]` is the next vertex around the polygon.
  unfoldable pub shoelace : CoordinateStruct F → List (CoordinateStruct F) → F → F
  shoelace first [] area = area
  shoelace first (p ∷ ps) area =
      let q = next_vertex first ps in
      shoelace first ps (f.add area (f.sub (f.mul p.x q.y) (f.mul q.x p.y)))

  abbrev pub twice_area : List (CoordinateStruct F) → F
  twice_area [] = float_zero
  twice_area (p ∷ ps) = shoelace p (p ∷ ps) float_zero

  unfoldable pub get_polygon_area : List (CoordinateStruct F) → F
  unfolding shoelace sort_points_by_distance
  get_polygon_area coords =
      f.abs (f.div (twice_area (sort_points_by_distance coords)) (f.literal 2 0))

  -- One round of the loop.
  unfoldable pub add_area : Map F → PolygonData F → Map F
  unfolding get_polygon_area lookup insert
  add_area areas polygon =
      let area = get_polygon_area polygon.coords in
      elim (lookup polygon.runner areas) [
        | none ↦ insert polygon.runner area areas
        | some current_area ↦ insert polygon.runner (f.add current_area area) areas
      ]

  unfoldable pub add_areas : Map F → List (PolygonData F) → Map F
  unfolding add_area
  add_areas areas [] = areas
  add_areas areas (polygon ∷ polygons) = add_areas (add_area areas polygon) polygons

  -- `polygon_data` is what `getPolygonDataFromMongo` returned.
  unfoldable pub area_processor {κ} :
      {E : Type κ} → Result E (List (PolygonData F)) → Result E (Map F)
  unfolding add_areas
  area_processor (err e) = err e
  area_processor (ok polygon_data) = ok (add_areas [] polygon_data)
