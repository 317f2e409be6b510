-- ===== src/Services/ProcessData.antt =====
-- internal/services/run_processor.go: `processData`.
pub mod Safety
use runner_io.Common.{List, Option, some, ◌>>=◌}
use runner_io.Common.Map.{Map}
use runner_io.Float64.{Float64}
use runner_io.Dto.Schema.{LiveLinesData, PolygonData}
use runner_io.Services.Distance.{RunProcessorConfig}
use runner_io.Services.LiveLines.{
  segregate_points_by_user, create_user_polygons_map, add_polygons_to_new_polygon_array,
}
use runner_io.Services.CleanPolygons.{clean_polygons}
use runner_io.Services.RemovePoints.{remove_points_from_live_lines_data}

module _ {ℓ} {F : Type ℓ} ⦃f : Float64 F⦄ where
  -- `range_order` puts the entries of the map into the order in which `range` meets them, which Go
  -- leaves open. `none` is a panic.
  unfoldable pub process_data :
      (range_order : Map (List (List (LiveLinesData F))) → Map (List (List (LiveLinesData F))))
      → List (LiveLinesData F)
      → List (PolygonData F)
      → RunProcessorConfig F
      → Option (List (LiveLinesData F) × List (PolygonData F))
  unfolding segregate_points_by_user create_user_polygons_map add_polygons_to_new_polygon_array
      clean_polygons remove_points_from_live_lines_data
  process_data range_order live_lines polygon_data config =
      let by_user = segregate_points_by_user live_lines in
      let polygons_by_user = create_user_polygons_map config by_user in
      add_polygons_to_new_polygon_array polygon_data (range_order polygons_by_user)
      >>= λ all_polygons. clean_polygons all_polygons >>= λ cleaned.
          some (remove_points_from_live_lines_data live_lines cleaned, cleaned)
