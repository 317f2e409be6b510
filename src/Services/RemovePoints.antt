-- ===== src/Services/RemovePoints.antt =====
-- internal/services/run_processor.go: `removePointsFromLiveLinesData`.
pub mod Entries
pub mod Outside
use runner_io.Common.{
  Bool, true, false, not, ◌&&◌, ◌||◌, List, [], ◌∷◌, Option, none, some, if◌then◌else◌,
}
use runner_io.Common.Map.{Map, lookup, insert}
use runner_io.Float64.{Float64}
use runner_io.GoTime.{Time, zero_time, before, after}
use runner_io.Dto.Schema.{CoordinateStruct, LiveLinesData, PolygonData}
use runner_io.Services.PointInPolygon.{is_point_in_polygon}

-- `ok && liveLinesData.Time.Before(val)`
abbrev pub is_before_entry : Time → Option Time → Bool
is_before_entry t none = false
is_before_entry t (some entry) = before t entry

-- `ok && !liveLinesData.Time.After(val)`
abbrev pub is_cut : Time → Option Time → Bool
is_cut t none = false
is_cut t (some entry) = not (after t entry)

module _ {ℓ} {F : Type ℓ} ⦃f : Float64 F⦄ where
  -- `point`, whose time is left at the zero value.
  abbrev pub point_of : LiveLinesData F → CoordinateStruct F
  point_of line = record { x = line.x; y = line.y; time = zero_time }

  -- The loop over the polygons: `isAnyPointInPolygon` and `currMaxTime`.
  unfoldable pub scan_polygons :
      CoordinateStruct F → List (PolygonData F) → Bool → Time → Bool × Time
  unfolding is_point_in_polygon
  scan_polygons point [] found max_time = (found, max_time)
  scan_polygons point (polygon ∷ polygons) found max_time =
      let inside = is_point_in_polygon point polygon.coords in
      scan_polygons point polygons (found || inside)
        (if inside && after polygon.time max_time then polygon.time else max_time)

  -- One round of the first loop.
  unfoldable pub note_entry : List (PolygonData F) → LiveLinesData F → Map Time → Map Time
  unfolding scan_polygons lookup insert
  note_entry polygons line entries =
      if is_before_entry line.time (lookup line.sender entries)
      then entries
      else let (found, max_time) = scan_polygons (point_of line) polygons false line.time in
        if found then insert line.sender max_time entries else entries

  unfoldable pub note_entries : List (PolygonData F) → List (LiveLinesData F) → Map Time → Map Time
  unfolding note_entry
  note_entries polygons [] entries = entries
  note_entries polygons (line ∷ lines) entries =
      note_entries polygons lines (note_entry polygons line entries)

  -- The second loop.
  unfoldable pub keep_later : Map Time → List (LiveLinesData F) → List (LiveLinesData F)
  unfolding lookup
  keep_later entries [] = []
  keep_later entries (line ∷ lines) =
      let rest = keep_later entries lines in
      if is_cut line.time (lookup line.sender entries) then rest else line ∷ rest

  unfoldable pub remove_points_from_live_lines_data :
      List (LiveLinesData F) → List (PolygonData F) → List (LiveLinesData F)
  unfolding note_entries keep_later
  remove_points_from_live_lines_data lines polygons =
      keep_later (note_entries polygons lines []) lines
