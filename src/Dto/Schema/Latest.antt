-- ===== src/Dto/Schema/Latest.antt =====
-- `ToPolygonData` returns on every list but the empty one, with the latest time of the list.
use mathlib.Core.List.{Mem, mem-cons_self, mem-cons_of_mem}
use runner_io.Common.{
  ◌≡◌, refl, ◌⊎◌, inl, inr, ◌∙◌, List, [], ◌∷◌, map, some, arith, if◌then◌else◌, Bool-cases, All,
}
use runner_io.Common.Int.{◌≤ℤ◌}
use runner_io.GoTime.{Time, after}
use runner_io.Dto.Schema.{
  LiveLinesData, PolygonData, to_coordinate, last_time, later_of, to_polygon_data,
}

module _ {ℓ} {F : Type ℓ} where
  last_time-Mem :
      (l : LiveLinesData F) (ls : List (LiveLinesData F))
      → (m : LiveLinesData F) × (last_time (l ∷ ls) ≡ some m.time) × Mem m (l ∷ ls)
  unfolding last_time
  last_time-Mem l [] = (l, refl, mem-cons_self)
  last_time-Mem l (n ∷ ls) = let (m, e, mem) = last_time-Mem n ls in (m, e, mem-cons_of_mem l mem)

  later_of-le :
      (t : Time) (ls : List (LiveLinesData F))
      → (t ≤ℤ later_of t ls) × All (λ l. l.time ≤ℤ later_of t ls) ls
  unfolding later_of
  later_of-le t [] = (omega arith, tt)
  later_of-le t (l ∷ ls) =
      let next = if after l.time t then l.time else t in
      let (up, rest) = later_of-le next ls in
      let (old, new) = bounds in (omega arith, (omega arith, rest))
    where
      bounds :
          (t ≤ℤ (if after l.time t then l.time else t))
          × (l.time ≤ℤ (if after l.time t then l.time else t))
      bounds = ground arith

  -- The time that is returned is the one that the loop began with, or that of an element.
  later_of-Mem :
      (t : Time) (ls : List (LiveLinesData F))
      → (later_of t ls ≡ t) ⊎ ((m : LiveLinesData F) × (later_of t ls ≡ m.time) × Mem m ls)
  unfolding later_of
  later_of-Mem t [] = inl refl
  later_of-Mem t (l ∷ ls) = elim (later_of-Mem (if after l.time t then l.time else t) ls) [
    | inr (m, e, mem) ↦ inr (m, e, mem-cons_of_mem l mem)
    | inl e ↦ elim (Bool-cases (after l.time t)) [
      | inl later ↦ inr (l, e ∙ rw later refl, mem-cons_self)
      | inr earlier ↦ inl (e ∙ rw earlier refl)
    ]
  ]

  -- The polygon has the points of all lines in their order, the first one's sender for its
  -- runner, and the latest of the times: no line is later, and one has it.
  pub to_polygon_data_lem :
      (l : LiveLinesData F) (ls : List (LiveLinesData F))
      → (p : PolygonData F) × (to_polygon_data (l ∷ ls) ≡ some p)
        × (p.coords ≡ map to_coordinate (l ∷ ls))
        × (p.runner ≡ l.sender)
        × All (λ m. m.time ≤ℤ p.time) (l ∷ ls)
        × ((m : LiveLinesData F) × (p.time ≡ m.time) × Mem m (l ∷ ls))
  unfolding to_polygon_data
  to_polygon_data_lem l ls =
      let (last, e, mem) = last_time-Mem l ls in
      let time = later_of last.time (l ∷ ls) in
      (
        record { coords = map to_coordinate (l ∷ ls); runner = l.sender; time = time },
        rw (e, to_polygon_data),
        refl,
        refl,
        (later_of-le last.time (l ∷ ls)).1,
        elim (later_of-Mem last.time (l ∷ ls)) [ inl same ↦ (last, same, mem) | inr found ↦ found ],
      )
