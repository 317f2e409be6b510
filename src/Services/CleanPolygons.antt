-- ===== src/Services/CleanPolygons.antt =====
-- internal/services/run_processor.go: `cleanPolygons`.
pub mod Eaten
pub mod Filed
pub mod Runners
use Prim.Native.String.{compare}
use Prim.Native.Nat.{Ordering}
use runner_io.Common.{
  Bool, List, [], ◌∷◌, ◌++◌, Option, none, some, if◌then◌else◌, String, str_eq, ◌>>=◌, or_nil,
}
use runner_io.Common.Int.{ℤ, pos, negsuc}
use runner_io.Common.Map.{Map, lookup, insert, keys}
use runner_io.Common.Sort.{sort_func}
use runner_io.Float64.{Float64}
use runner_io.GoTime.{compare_time}
use runner_io.Dto.Schema.{PolygonData}
use runner_io.Services.EatPolygon.{eat_polygon}
use runner_io.Services.MergePolygons.{merge_polygons}

-- `strings.Compare`, by which `slices.Sort` orders strings.
unfoldable pub compare_string : String → String → ℤ
compare_string a b = elim (compare a b) [
  | Ordering.lt ↦ negsuc 0
  | Ordering.eq ↦ pos 0
  | Ordering.gt ↦ pos 1
]

module _ {ℓ} {F : Type ℓ} ⦃f : Float64 F⦄ where
  -- Latest first.
  abbrev pub compare_latest : PolygonData F → PolygonData F → ℤ
  compare_latest a b = compare_time b.time a.time

  -- The inner loop: the polygon is eaten by each cleaned polygon of another runner in turn.
  unfoldable pub eat_by : PolygonData F → List (PolygonData F) → Option (PolygonData F)
  unfolding eat_polygon
  eat_by polygon [] = some polygon
  eat_by polygon (cleaned ∷ rest) =
      (if str_eq polygon.runner cleaned.runner then some polygon else eat_polygon polygon cleaned)
      >>= λ p. eat_by p rest

  -- The outer loop, `cleaned` being `cleanedPolygons`.
  unfoldable pub eat_all :
      List (PolygonData F) → List (PolygonData F) → Option (List (PolygonData F))
  unfolding eat_by
  eat_all cleaned [] = some cleaned
  eat_all cleaned (polygon ∷ polygons) =
      eat_by polygon cleaned >>= λ p. eat_all (cleaned ++ p ∷ []) polygons

  -- The loop over the polygons of a runner: the first that can be merged is replaced, or else the
  -- polygon is appended.
  unfoldable pub place : PolygonData F → List (PolygonData F) → List (PolygonData F)
  unfolding merge_polygons
  place polygon [] = polygon ∷ []
  place polygon (d ∷ polygons) =
      let merged = merge_polygons polygon d in
      let rest = place polygon polygons in if merged.1 then merged.0 ∷ polygons else d ∷ rest

  -- One round of the loop that merges.
  unfoldable pub merge_one : Map (List (PolygonData F)) → PolygonData F → Map (List (PolygonData F))
  unfolding place lookup insert
  merge_one by_runner polygon = elim (lookup polygon.runner by_runner) [
    | none ↦ insert polygon.runner (polygon ∷ []) by_runner
    | some old ↦ insert polygon.runner (place polygon old) by_runner
  ]

  unfoldable pub merge_all :
      Map (List (PolygonData F)) → List (PolygonData F) → Map (List (PolygonData F))
  unfolding merge_one
  merge_all by_runner [] = by_runner
  merge_all by_runner (polygon ∷ polygons) = merge_all (merge_one by_runner polygon) polygons

  abbrev pub entry_of : String → Map (List (PolygonData F)) → List (PolygonData F)
  entry_of runner by_runner = or_nil (lookup runner by_runner)

  -- The polygons of each runner, in the order of the names.
  unfoldable pub list_runners : List String → Map (List (PolygonData F)) → List (PolygonData F)
  unfolding lookup
  list_runners [] by_runner = []
  list_runners (runner ∷ runners) by_runner =
      entry_of runner by_runner ++ list_runners runners by_runner

  unfoldable pub merged_list : Map (List (PolygonData F)) → List (PolygonData F)
  unfolding list_runners compare_string sort_func
  merged_list by_runner = list_runners (sort_func compare_string (keys by_runner)) by_runner

  unfoldable pub clean_polygons : List (PolygonData F) → Option (List (PolygonData F))
  unfolding eat_all merge_all merged_list sort_func
  clean_polygons polygons = eat_all [] (sort_func compare_latest polygons) >>= λ cleaned.
      some (merged_list (merge_all [] cleaned))
