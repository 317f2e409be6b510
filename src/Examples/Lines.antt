-- ===== src/Examples/Lines.antt =====
-- Runs of the live lines.
use mathlib.Core.List.{Perm, Mem, mem-cons_self, mem-cons_of_mem}
use mathlib.Core.List.Perm
use runner_io.Common.{◌≡◌, ◌≢◌, eq_iff, refl, List, [], ◌∷◌, some, String, All, arith, ◌>>=◌}
use runner_io.Common.Map.{Map}
use runner_io.Float64.Fixed.{Fixed, fixed_float, cosine, Fixed-IsComparable, Fixed-IsSigned}
use runner_io.Dto.Schema.{PolygonData, LiveLinesData}
use runner_io.Services.Distance.{group_config}
use runner_io.Services.LiveLines.{lines_of, segregate_points_by_user, create_user_polygons_map}
use runner_io.Services.LiveLines.Grouping.{AreOldestFirst, sent_by, segregate_points_by_user_lem}
use runner_io.Services.LiveLines.Production.{create_user_polygons_map-none}
use runner_io.Services.RemovePoints.{point_of, remove_points_from_live_lines_data}
use runner_io.Services.RemovePoints.Outside.{
  IsOutside, points_of, remove_points_from_live_lines_data-IsOutside,
  remove_points_from_live_lines_data-later, remove_points_from_live_lines_data-untouched,
}
use runner_io.Services.PointInPolygon.{is_point_in_polygon}
use runner_io.Services.CleanPolygons.{clean_polygons}
use runner_io.Services.CleanPolygons.Eaten.{runners}
use runner_io.Services.ProcessData.{process_data}
use runner_io.Services.ProcessData.Safety.{process_data-total, process_data-group_config}
use runner_io.Examples.{line, some_polygons, some_lines}

-- "ann" entered the large square at time 5, so that her later lines alone are left.
left :
    remove_points_from_live_lines_data some_lines some_polygons
    ≡ line "bob" 7 7 6 ∷ line "ann" 7 2 40 ∷ line "ann" 7 1 20 ∷ []
unfolding remove_points_from_live_lines_data cosine
left = refl

abbrev as_listed : Map (List (List (LiveLinesData Fixed))) → Map (List (List (LiveLinesData Fixed)))
as_listed m = m

process_data-total_example :
    (ls : List (LiveLinesData Fixed)) × (ps : List (PolygonData Fixed)) × (process_data as_listed
        some_lines some_polygons group_config
      ≡ some (ls, ps))
    × All (λ l. IsOutside ps (point_of l)) ls
    × All (λ p. Mem p.runner (runners ps)) some_polygons
process_data-total_example =
    process_data-total as_listed (λ m. Perm.refl m) Fixed-IsComparable some_lines some_polygons
      group_config

process_data-group_config_example : process_data as_listed some_lines some_polygons group_config ≡ (
    clean_polygons some_polygons >>= λ cleaned.
    some (remove_points_from_live_lines_data some_lines cleaned, cleaned))
process_data-group_config_example =
    process_data-group_config as_listed (λ m. Perm.refl m) Fixed-IsComparable Fixed-IsSigned
      some_lines some_polygons

remove_points_from_live_lines_data-IsOutside_example :
    All
      (λ l. IsOutside some_polygons (point_of l))
      (remove_points_from_live_lines_data some_lines some_polygons)
remove_points_from_live_lines_data-IsOutside_example =
    remove_points_from_live_lines_data-IsOutside some_lines some_polygons

remove_points_from_live_lines_data-later_example :
    Mem (line "ann" 7 2 40) (remove_points_from_live_lines_data some_lines some_polygons)
remove_points_from_live_lines_data-later_example =
    remove_points_from_live_lines_data-later some_lines some_polygons (line "ann" 7 1 20)
      (line "ann" 7 2 40) (rw left (mem-cons_of_mem _ (mem-cons_of_mem _ mem-cons_self)))
      (mem-cons_of_mem _ (mem-cons_of_mem _ mem-cons_self)) refl (omega arith)

ann-ne-bob : ◌≢◌ {A = String} "ann" "bob"
ann-ne-bob e = ground (arith, eq_iff "ann" "bob")

bob-IsOutside : All (λ l. l.sender ≡ "bob" → IsOutside some_polygons (point_of l)) some_lines
unfolding is_point_in_polygon cosine
bob-IsOutside = (
  λ e. absurd (ann-ne-bob e),
  (λ e. (refl, (refl, (refl, tt))), (λ e. absurd (ann-ne-bob e), (λ e. absurd (ann-ne-bob e), tt))),
)

remove_points_from_live_lines_data-untouched_example :
    points_of "bob" (remove_points_from_live_lines_data some_lines some_polygons)
    ≡ points_of "bob" some_lines
remove_points_from_live_lines_data-untouched_example =
    remove_points_from_live_lines_data-untouched some_lines some_polygons "bob" bob-IsOutside

segregate_points_by_user_lem_example :
    Perm (lines_of "ann" (segregate_points_by_user some_lines)) (sent_by "ann" some_lines)
    × AreOldestFirst (lines_of "ann" (segregate_points_by_user some_lines))
segregate_points_by_user_lem_example = segregate_points_by_user_lem "ann" some_lines

create_user_polygons_map-none_example :
    create_user_polygons_map group_config (segregate_points_by_user some_lines) ≡ []
create_user_polygons_map-none_example = create_user_polygons_map-none Fixed-IsSigned some_lines
