-- ===== src/Services/RemovePoints/Outside.antt =====
-- What `removePointsFromLiveLinesData` keeps and what it removes.
use mathlib.Core.Bool.{not}
use runner_io.Common.{
  ◌≡◌, refl, Bool, true, false, List, [], ◌∷◌, String, str_eq, eq_iff, arith, Bool-cases, inl, inr,
  All, All-map, All-combine, delete_func,
}
use runner_io.Common.Int.{◌≤ℤ◌}
use runner_io.Common.Map.{Map, lookup}
use runner_io.Common.Membership.{
  All-of_mem, mem-delete_func, mem_of_mem-delete_func, delete_func-All, delete_func-spared,
}
use mathlib.Core.List.{Mem}
use runner_io.Float64.{Float64}
use runner_io.GoTime.{Time}
use runner_io.Dto.Schema.{CoordinateStruct, LiveLinesData, PolygonData}
use runner_io.Services.PointInPolygon.{is_point_in_polygon}
use runner_io.Services.RemovePoints.{
  point_of, note_entries, is_cut, keep_later, remove_points_from_live_lines_data,
}
use runner_io.Services.RemovePoints.Entries.{inside_any, note_entries-reach, note_entries-none}

module _ {ℓ} {F : Type ℓ} where
  abbrev pub cut_of : Map Time → LiveLinesData F → Bool
  cut_of entries line = is_cut line.time (lookup line.sender entries)

module _ {ℓ} {F : Type ℓ} ⦃f : Float64 F⦄ where
  -- The second loop deletes the points that their entries reach.
  keep_later-eq-delete_func :
      (entries : Map Time) (lines : List (LiveLinesData F))
      → keep_later entries lines ≡ delete_func lines (cut_of entries)
  unfolding keep_later delete_func
  keep_later-eq-delete_func entries [] = refl
  keep_later-eq-delete_func entries (line ∷ lines) =
      ground (arith, keep_later-eq-delete_func entries lines)

  -- The point lies in none of the polygons.
  abbrev pub IsOutside : List (PolygonData F) → CoordinateStruct F → Type 0
  IsOutside ps point = All (λ p. is_point_in_polygon point p.coords ≡ false) ps

  IsOutside-of_inside_any :
      (point : CoordinateStruct F) (ps : List (PolygonData F))
      → inside_any point ps ≡ false
      → IsOutside ps point
  IsOutside-of_inside_any point [] h = tt
  IsOutside-of_inside_any point (p ∷ ps) h =
      (ground arith, IsOutside-of_inside_any point ps (ground arith))

  inside_any_of_IsOutside :
      (point : CoordinateStruct F) (ps : List (PolygonData F))
      → IsOutside ps point
      → inside_any point ps ≡ false
  inside_any_of_IsOutside point [] h = refl
  inside_any_of_IsOutside point (p ∷ ps) h = rw h.0 (inside_any_of_IsOutside point ps h.1)

  module _ (lines : List (LiveLinesData F)) (ps : List (PolygonData F)) where
    abbrev final_entries : Map Time
    final_entries = note_entries ps lines []

    spared :
        (l : LiveLinesData F)
        → (inside_any (point_of l) ps ≡ true → cut_of final_entries l ≡ true)
        → cut_of final_entries l ≡ false
        → IsOutside ps (point_of l)
    spared l reached kept =
        IsOutside-of_inside_any (point_of l) ps (elim (Bool-cases (inside_any (point_of l) ps)) [
          | inr out ↦ out
          | inl inside ↦ let cut = reached inside in cc
        ])

    -- No live line that is left lies inside one of the polygons, whatever the times of the two.
    pub remove_points_from_live_lines_data-IsOutside :
        All (λ l. IsOutside ps (point_of l)) (remove_points_from_live_lines_data lines ps)
    unfolding remove_points_from_live_lines_data
    remove_points_from_live_lines_data-IsOutside =
        let Reached = λ (l : LiveLinesData F).
          inside_any (point_of l) ps ≡ true → cut_of final_entries l ≡ true in
        rw (keep_later-eq-delete_func final_entries lines) (
          All-combine Reached (λ l. cut_of final_entries l ≡ false) (λ l. IsOutside ps (point_of l))
            spared (delete_func lines (cut_of final_entries))
            (delete_func-All Reached (cut_of final_entries) lines (note_entries-reach ps lines []))
            (delete_func-spared (cut_of final_entries) lines))

    -- With a point that is left, all points of its runner that are not earlier are left.
    pub remove_points_from_live_lines_data-later :
        (l m : LiveLinesData F)
        → Mem l (remove_points_from_live_lines_data lines ps)
        → Mem m lines
        → l.sender ≡ m.sender
        → l.time ≤ℤ m.time
        → Mem m (remove_points_from_live_lines_data lines ps)
    unfolding remove_points_from_live_lines_data
    remove_points_from_live_lines_data-later l m kept old same later =
        let same_list = keep_later-eq-delete_func final_entries lines in
        let spared_l =
          (mem_of_mem-delete_func (cut_of final_entries) lines (rw same_list at kept)).1 in
        let spared_m : cut_of final_entries m ≡ false = ground arith in
        rw same_list (mem-delete_func (cut_of final_entries) lines old spared_m)

  -- The points of one runner, in order.
  abbrev pub points_of : String → List (LiveLinesData F) → List (LiveLinesData F)
  points_of s lines = delete_func lines λ l. not (str_eq l.sender s)

  delete_func-points_of :
      (del : LiveLinesData F → Bool) (s : String) (lines : List (LiveLinesData F))
      → All (λ l. str_eq l.sender s ≡ true → del l ≡ false) lines
      → points_of s (delete_func lines del) ≡ points_of s lines
  unfolding delete_func
  delete_func-points_of del s [] h = refl
  delete_func-points_of del s (l ∷ lines) h = ground (arith, delete_func-points_of del s lines h.1)

  -- A runner with no point inside a polygon keeps all points, in order.
  pub remove_points_from_live_lines_data-untouched :
      (lines : List (LiveLinesData F)) (ps : List (PolygonData F)) (s : String)
      → All (λ l. l.sender ≡ s → IsOutside ps (point_of l)) lines
      → points_of s (remove_points_from_live_lines_data lines ps) ≡ points_of s lines
  unfolding remove_points_from_live_lines_data lookup
  remove_points_from_live_lines_data-untouched lines ps s h =
      let entries = note_entries ps lines [] in
      let no_entry = note_entries-none ps s lines [] (
        All-map (λ l. l.sender ≡ s → IsOutside ps (point_of l))
          (λ l. str_eq l.sender s ≡ true → inside_any (point_of l) ps ≡ false)
          (λ l out e. inside_any_of_IsOutside (point_of l) ps (out ((eq_iff l.sender s).0 e))) lines
          h) in
      rw (keep_later-eq-delete_func entries lines) (
        delete_func-points_of (cut_of entries) s lines (
          All-of_mem (λ l. str_eq l.sender s ≡ true → cut_of entries l ≡ false) lines
            (λ l m e. ground (arith, eq_iff l.sender s))))
