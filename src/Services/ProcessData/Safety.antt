-- ===== src/Services/ProcessData/Safety.antt =====
-- `processData` never panics; what it returns is consistent; and what it does in production.
use mathlib.Core.List.{Mem, Perm, append-nil}
use mathlib.Core.List.Perm
use runner_io.Common.{◌≡◌, List, [], ◌++◌, some, ◌>>=◌, All, All-front}
use runner_io.Common.Map.{Map}
use runner_io.Float64.{Float64, IsComparable, IsSigned}
use runner_io.Dto.Schema.{LiveLinesData, PolygonData}
use runner_io.Services.Distance.{RunProcessorConfig, group_config}
use runner_io.Services.LiveLines.{
  segregate_points_by_user, create_user_polygons_map, add_polygons_to_new_polygon_array,
  all_polygons,
}
use runner_io.Services.LiveLines.Polygons.{
  AreThere-perm, add_polygons_to_new_polygon_array-total, create_user_polygons_map-AreThere,
}
use runner_io.Services.LiveLines.Production.{create_user_polygons_map-none}
use runner_io.Services.CleanPolygons.{clean_polygons}
use runner_io.Services.CleanPolygons.Eaten.{runners}
use runner_io.Services.CleanPolygons.Runners.{clean_polygons-runners}
use runner_io.Services.RemovePoints.{point_of, remove_points_from_live_lines_data}
use runner_io.Services.RemovePoints.Outside.{
  IsOutside, remove_points_from_live_lines_data-IsOutside,
}
use runner_io.Services.ProcessData.{process_data}

module _ {ℓ} {F : Type ℓ} ⦃f : Float64 F⦄
    (range_order : Map (List (List (LiveLinesData F))) → Map (List (List (LiveLinesData F))))
    (order_perm : (m : Map (List (List (LiveLinesData F)))) → Perm (range_order m) m)
    (laws : IsComparable F) where
  -- Where the comparisons follow IEEE 754, `processData` never panics, whatever the order in which
  -- `range` meets the map's entries. No live line that it returns lies inside one of the polygons that
  -- it returns, whatever the times of the two, and each runner of a polygon that came in still has a
  -- polygon.
  pub process_data-total :
      (live_lines : List (LiveLinesData F)) (polygon_data : List (PolygonData F))
      (config : RunProcessorConfig F)
      → (ls : List (LiveLinesData F)) × (ps : List (PolygonData F)) × (process_data range_order
            live_lines polygon_data config
          ≡ some (ls, ps))
        × All (λ l. IsOutside ps (point_of l)) ls
        × All (λ p. Mem p.runner (runners ps)) polygon_data
  unfolding process_data
  process_data-total live_lines polygon_data config =
      let by_user = create_user_polygons_map config (segregate_points_by_user live_lines) in
      let (added, all_added) =
        add_polygons_to_new_polygon_array-total polygon_data (range_order by_user) (
          AreThere-perm (range_order by_user) by_user (order_perm by_user)
            (create_user_polygons_map-AreThere config (segregate_points_by_user live_lines))) in
      let (ps, cleaned, known, kept) = clean_polygons-runners laws (polygon_data ++ added) in
      (
        remove_points_from_live_lines_data live_lines ps,
        ps,
        rw (all_added, cleaned),
        remove_points_from_live_lines_data-IsOutside live_lines ps,
        All-front (λ p. Mem p.runner (runners ps)) polygon_data added kept,
      )

  -- Where the signs of quotients and sums of numbers below or equal to zero are as in IEEE 754,
  -- under the configuration of `RunProcessorOnGroup`, whatever the order of the map's entries,
  -- the live lines add no polygon: the polygons that come out are those that came in, cleaned.
  pub process_data-group_config :
      IsSigned F
      → (live_lines : List (LiveLinesData F)) (polygon_data : List (PolygonData F))
      → process_data range_order live_lines polygon_data group_config ≡ (
          clean_polygons polygon_data >>= λ cleaned.
          some (remove_points_from_live_lines_data live_lines cleaned, cleaned))
  unfolding process_data add_polygons_to_new_polygon_array all_polygons
  process_data-group_config signs live_lines polygon_data = rw (
    create_user_polygons_map-none signs live_lines,
    Perm.eq-nil (order_perm []),
    append-nil polygon_data,
  )
