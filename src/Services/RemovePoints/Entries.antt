-- ===== src/Services/RemovePoints/Entries.antt =====
-- The map of entry times: an entry never goes back in time, and every point inside a polygon is
-- reached by the entry of its runner.
use mathlib.Core.Bool.{not}
use runner_io.Common.{
  ◌≡◌, refl, ◌∙◌, Bool, true, false, ◌||◌, ◌&&◌, List, [], ◌∷◌, some, String, str_eq, eq_iff,
  if◌then◌else◌, arith, All,
}
use runner_io.Common.Int.{◌≤ℤ◌}
use runner_io.Common.Map.{Map, lookup, lookup-insert, str_eq_refl}
use runner_io.Float64.{Float64}
use runner_io.GoTime.{Time, after}
use runner_io.Dto.Schema.{CoordinateStruct, LiveLinesData, PolygonData}
use runner_io.Services.PointInPolygon.{is_point_in_polygon}
use runner_io.Services.RemovePoints.{
  point_of, scan_polygons, is_before_entry, note_entry, note_entries, is_cut,
}

module _ {ℓ} {F : Type ℓ} ⦃f : Float64 F⦄ where
  abbrev pub inside_any : CoordinateStruct F → List (PolygonData F) → Bool
  inside_any point [] = false
  inside_any point (p ∷ ps) = is_point_in_polygon point p.coords || inside_any point ps

  pub scan_polygons-found :
      (point : CoordinateStruct F) (ps : List (PolygonData F)) (found : Bool) (t : Time)
      → (scan_polygons point ps found t).0 ≡ (found || inside_any point ps)
  unfolding scan_polygons
  scan_polygons-found point [] found t = ground arith
  scan_polygons-found point (p ∷ ps) found t =
      let inside = is_point_in_polygon point p.coords in
      ground (
        arith,
        scan_polygons-found point ps (found || inside)
            (if inside && after p.time t then p.time else t),
      )

  pub scan_polygons-le :
      (point : CoordinateStruct F) (ps : List (PolygonData F)) (found : Bool) (t : Time)
      → t ≤ℤ (scan_polygons point ps found t).1
  unfolding scan_polygons
  scan_polygons-le point [] found t = omega arith
  scan_polygons-le point (p ∷ ps) found t =
      let inside = is_point_in_polygon point p.coords in
      ground (
        arith,
        scan_polygons-le point ps (found || inside)
            (if inside && after p.time t then p.time else t),
      )

  module _ (ps : List (PolygonData F)) where
    -- What one round leaves of the entry of a runner.
    pub lookup-note_entry :
        (line : LiveLinesData F) (entries : Map Time) (s : String)
        → lookup s (note_entry ps line entries) ≡ (
            if str_eq line.sender s
              && not (is_before_entry line.time (lookup line.sender entries))
              && inside_any (point_of line) ps
            then some (scan_polygons (point_of line) ps false line.time).1
            else lookup s entries)
    unfolding note_entry
    lookup-note_entry line entries s =
        let max_time = (scan_polygons (point_of line) ps false line.time).1 in
        ground (
          arith,
          scan_polygons-found (point_of line) ps false line.time,
          lookup-insert line.sender s max_time entries,
        )

    cut_mono :
        (line : LiveLinesData F) (entries : Map Time) (s : String) (t : Time)
        → is_cut t (lookup s entries) ≡ true
        → is_cut t (lookup s (note_entry ps line entries)) ≡ true
    cut_mono line entries s t h =
        rw (lookup-note_entry line entries s) (
          ground (arith, eq_iff line.sender s, scan_polygons-le (point_of line) ps false line.time))

    cut_here :
        (line : LiveLinesData F) (entries : Map Time)
        → inside_any (point_of line) ps ≡ true
        → is_cut line.time (lookup line.sender (note_entry ps line entries)) ≡ true
    cut_here line entries h = rw (lookup-note_entry line entries line.sender) (
        ground
          (arith, str_eq_refl line.sender, scan_polygons-le (point_of line) ps false line.time))

    -- A point that the entry of its runner reaches stays reached.
    pub note_entries_mono :
        (lines : List (LiveLinesData F)) (entries : Map Time) (s : String) (t : Time)
        → is_cut t (lookup s entries) ≡ true
        → is_cut t (lookup s (note_entries ps lines entries)) ≡ true
    unfolding note_entries
    note_entries_mono [] entries s t h = h
    note_entries_mono (line ∷ lines) entries s t h =
        note_entries_mono lines (note_entry ps line entries) s t (cut_mono line entries s t h)

    -- The entries reach every point inside a polygon.
    pub note_entries-reach :
        (lines : List (LiveLinesData F)) (entries : Map Time)
        → All
            (λ line.
              inside_any (point_of line) ps ≡ true
              → is_cut line.time (lookup line.sender (note_entries ps lines entries)) ≡ true)
            lines
    unfolding note_entries
    note_entries-reach [] entries = tt
    note_entries-reach (line ∷ lines) entries = (
      λ h.
          note_entries_mono lines (note_entry ps line entries) line.sender line.time
            (cut_here line entries h),
      note_entries-reach lines (note_entry ps line entries),
    )

    -- A runner with no point inside a polygon has no entry.
    pub note_entries-none :
        (s : String) (lines : List (LiveLinesData F)) (entries : Map Time)
        → All (λ line. str_eq line.sender s ≡ true → inside_any (point_of line) ps ≡ false) lines
        → lookup s (note_entries ps lines entries) ≡ lookup s entries
    unfolding note_entries
    note_entries-none s [] entries h = refl
    note_entries-none s (line ∷ lines) entries h =
        note_entries-none s lines (note_entry ps line entries) h.1
        ∙ rw (lookup-note_entry line entries s) (ground arith)
