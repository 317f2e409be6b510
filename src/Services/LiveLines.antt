-- ===== src/Services/LiveLines.antt =====
-- internal/services/run_processor_helper.go: grouping the live lines by user, the users whose lines
-- close a cycle, and the polygons that these make.
pub mod Production
pub mod Polygons
pub mod Grouping
use runner_io.Common.{
  List, [], ◌∷◌, ◌++◌, Option, none, some, not, if◌then◌else◌, map, ◌>>=◌, String, or_nil,
}
use runner_io.Common.Int.{ℤ}
use runner_io.Common.Map.{Map, lookup, insert}
use runner_io.Common.Sort.{sort_func}
use runner_io.Float64.{Float64}
use runner_io.GoTime.{compare_time}
use runner_io.Dto.Schema.{LiveLinesData, PolygonData, to_polygon_data}
use runner_io.Services.Distance.{RunProcessorConfig, is_cycle}

module _ {ℓ} {F : Type ℓ} where
  abbrev pub compare_oldest : LiveLinesData F → LiveLinesData F → ℤ
  compare_oldest a b = compare_time a.time b.time

  -- `m[k]`, where a missing key reads as the nil slice.
  abbrev pub lines_of : String → Map (List (LiveLinesData F)) → List (LiveLinesData F)
  lines_of sender m = or_nil (lookup sender m)

  -- The first loop.
  unfoldable pub group_lines :
      Map (List (LiveLinesData F)) → List (LiveLinesData F) → Map (List (LiveLinesData F))
  unfolding lookup insert
  group_lines m [] = m
  group_lines m (line ∷ lines) =
      group_lines (insert line.sender (lines_of line.sender m ++ line ∷ []) m) lines

  -- The loop that sorts each entry in its place.
  unfoldable pub sort_entries : Map (List (LiveLinesData F)) → Map (List (LiveLinesData F))
  unfolding sort_func
  sort_entries = map λ e. (e.0, sort_func compare_oldest e.1)

  unfoldable pub segregate_points_by_user : List (LiveLinesData F) → Map (List (LiveLinesData F))
  unfolding group_lines sort_entries
  segregate_points_by_user lines = sort_entries (group_lines [] lines)

  -- The loop over the polygons of one user.
  unfoldable pub to_polygons : List (List (LiveLinesData F)) → Option (List (PolygonData F))
  unfolding to_polygon_data
  to_polygons [] = some []
  to_polygons (lines ∷ rest) =
      to_polygon_data lines >>= λ p. to_polygons rest >>= λ ps. some (p ∷ ps)

  -- The loop over the map, in the order of its entries.
  unfoldable pub all_polygons : Map (List (List (LiveLinesData F))) → Option (List (PolygonData F))
  unfolding to_polygons
  all_polygons [] = some []
  all_polygons ((user, polygons) ∷ m) =
      to_polygons polygons >>= λ ps. all_polygons m >>= λ qs. some (ps ++ qs)

  unfoldable pub add_polygons_to_new_polygon_array :
      List (PolygonData F) → Map (List (List (LiveLinesData F))) → Option (List (PolygonData F))
  unfolding all_polygons
  add_polygons_to_new_polygon_array polygon_data m =
      all_polygons m >>= λ ps. some (polygon_data ++ ps)

module _ {ℓ} {F : Type ℓ} ⦃f : Float64 F⦄ (config : RunProcessorConfig F) where
  -- The loop over the map, `m` being `mapOfPolygonsForEachUser`.
  unfoldable pub add_cycles :
      Map (List (List (LiveLinesData F)))
      → Map (List (LiveLinesData F))
      → Map (List (List (LiveLinesData F)))
  unfolding is_cycle lookup insert
  add_cycles m [] = m
  add_cycles m ((user, lines) ∷ entries) =
      add_cycles
        (if not (is_cycle lines config)
          then m
          else insert user (or_nil (lookup user m) ++ lines ∷ []) m)
        entries

  unfoldable pub create_user_polygons_map :
      Map (List (LiveLinesData F)) → Map (List (List (LiveLinesData F)))
  unfolding add_cycles
  create_user_polygons_map lines = add_cycles [] lines
