-- ===== src/Examples/Polygons.antt =====
-- Runs of the polygon routines on squares.
use mathlib.Core.List.{Mem, Perm}
use runner_io.Common.{
  str_eq, if◌then◌else◌, ◌≡◌, refl, true, false, List, [], ◌∷◌, none, some, All, arith,
}
use runner_io.Common.Int.{pos}
use runner_io.Float64.Fixed.{Fixed, fixed_float, cosine, Fixed-IsComparable}
use runner_io.Dto.Schema.{CoordinateStruct, PolygonData}
use runner_io.Services.Distance.{distance}
use runner_io.Services.PointInPolygon.{is_point_in_polygon}
use runner_io.Services.PointsInPolygon.{get_points_in_polygon}
use runner_io.Services.PointsInPolygon.Boundary.{
  IsBeforeRun, points_inside, get_points_in_polygon-IsBeforeRun, get_points_in_polygon-perm,
}
use runner_io.Services.SortPoints.{nearest, sort_points_by_distance, far_away}
use runner_io.Services.SortPoints.Permutation.{AreWithin, sort_points_by_distance-perm}
use runner_io.Services.CleanPolygons.{clean_polygons}
use runner_io.Services.CleanPolygons.Eaten.{runners}
use runner_io.Services.CleanPolygons.Runners.{clean_polygons-runners}
use runner_io.Services.RunProcessor.{Bson}
use runner_io.Common.Result.{ok}
use runner_io.Examples.{coordinate, large, corner, some_polygons}

corner_inside : is_point_in_polygon (coordinate 3 3 20) large.coords ≡ true
unfolding is_point_in_polygon cosine
corner_inside = refl

corner_outside : is_point_in_polygon (coordinate 6 6 20) large.coords ≡ false
unfolding is_point_in_polygon cosine
corner_outside = refl

before_corner : (get_points_in_polygon corner.coords large.coords).1 ≡ some 3
unfolding get_points_in_polygon cosine
before_corner = refl

get_points_in_polygon-IsBeforeRun_example : IsBeforeRun corner.coords large.coords 3
get_points_in_polygon-IsBeforeRun_example =
    get_points_in_polygon-IsBeforeRun corner.coords large.coords before_corner

get_points_in_polygon-perm_example :
    Perm
      (get_points_in_polygon corner.coords large.coords).0
      (points_inside corner.coords large.coords)
get_points_in_polygon-perm_example = get_points_in_polygon-perm corner.coords large.coords

large_within : AreWithin large.coords
unfolding distance cosine
large_within = ground arith

sort_points_by_distance-perm_example : Perm (sort_points_by_distance large.coords) large.coords
sort_points_by_distance-perm_example = sort_points_by_distance-perm large.coords large_within

nearest_found :
    (nearest
      (coordinate 0 0 10)
      0
      large.coords
      (true ∷ false ∷ false ∷ false ∷ [])
      (far_away, none)).1
    ≡ some 1
unfolding nearest cosine distance
nearest_found = refl

abbrev IsEarly : CoordinateStruct Fixed → Type 0
IsEarly c = c.time ≡ pos 10

clean_polygons-runners_example :
    (rs : List (PolygonData Fixed)) × (clean_polygons some_polygons ≡ some rs)
    × All (λ p. Mem p.runner (runners some_polygons)) rs
    × All (λ p. Mem p.runner (runners rs)) some_polygons
clean_polygons-runners_example = clean_polygons-runners Fixed-IsComparable some_polygons

-- A data base whose documents are the polygons themselves; that of "bob" cannot be read.
abbrev small_mongo : Bson (PolygonData Fixed) (PolygonData Fixed) Fixed
small_mongo = record {
  find = λ collection field value. ok some_polygons;
  to_json = λ d. if str_eq d.runner "bob" then none else some d;
  live_line = λ d. none;
  polygon = λ d. some d;
}
