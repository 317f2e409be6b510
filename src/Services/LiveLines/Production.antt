-- ===== src/Services/LiveLines/Production.antt =====
-- The rule for a cycle under the configuration of `RunProcessorOnGroup`, on lines in the order that
-- `segregatePointsByUser` puts them in.
use runner_io.Common.{◌≡◌, refl, true, false, List, [], ◌∷◌, arith, All, All-map}
use runner_io.Common.Int.{pos, ◌≤ℤ◌, ◌<ℤ◌}
use runner_io.Common.Map.{Map}
use runner_io.Common.Sort.{less, Ascending, IsWeakOrder, sort_func-Ascending}
use runner_io.Float64.{Float64, IsSigned, delta}
use runner_io.GoTime.{sub_time, seconds, sub_time_nonpos, seconds-IsNonpos}
use runner_io.Dto.Schema.{LiveLinesData}
use runner_io.Services.Distance.{RunProcessorConfig, group_config, last_of, ends_meet, is_cycle}
use runner_io.Services.LiveLines.{
  compare_oldest, group_lines, sort_entries, segregate_points_by_user, add_cycles,
  create_user_polygons_map,
}

module _ {ℓ} {F : Type ℓ} where
  pub compare_oldest-IsWeakOrder : IsWeakOrder (compare_oldest {F = F})
  compare_oldest-IsWeakOrder = ground arith

  -- The entries are in order of time.
  abbrev pub AreAscending : Map (List (LiveLinesData F)) → Type ℓ
  AreAscending m = All (λ e. Ascending compare_oldest e.1) m

  sort_entries-AreAscending : (m : Map (List (LiveLinesData F))) → AreAscending (sort_entries m)
  unfolding sort_entries
  sort_entries-AreAscending [] = tt
  sort_entries-AreAscending ((s, lines) ∷ m) = (
    sort_func-Ascending compare_oldest compare_oldest-IsWeakOrder lines,
    sort_entries-AreAscending m,
  )

  first_le_last :
      (l m : LiveLinesData F) (ls : List (LiveLinesData F))
      → All (λ y. less compare_oldest y l ≡ false) (m ∷ ls)
      → l.time ≤ℤ (last_of m ls).time
  first_le_last l m [] h = ground arith
  first_le_last l m (n ∷ ls) h = first_le_last l n ls h.1

module _ {ℓ} {F : Type ℓ} ⦃f : Float64 F⦄ (laws : IsSigned F) (config : RunProcessorConfig F) where
  -- Where signs are as in IEEE 754: with the check of the seconds switched on, for a positive
  -- number of them, a list in order of time is no cycle: the code subtracts the last time from
  -- the first.
  pub is_cycle_of_Ascending :
      config.do_seconds_for_cycle_check ≡ true
      → pos 0 <ℤ config.num_seconds_for_cycle
      → (lines : List (LiveLinesData F)) → Ascending compare_oldest lines
      → is_cycle lines config ≡ false
  unfolding is_cycle ends_meet
  is_cycle_of_Ascending on positive [] a = refl
  is_cycle_of_Ascending on positive (l ∷ []) a = refl
  is_cycle_of_Ascending on positive (l ∷ m ∷ ls) a =
      let d = sub_time l.time (last_of m ls).time in
      let early =
        laws.nonpos_lt (seconds d) (f.sub (f.of_int config.num_seconds_for_cycle) delta)
          (seconds-IsNonpos laws d (sub_time_nonpos l.time _ (first_le_last l m ls a.0)))
          (laws.delta_small config.num_seconds_for_cycle positive) in
      rw (on, early)

  add_cycles-none :
      (polygons : Map (List (List (LiveLinesData F)))) (m : Map (List (LiveLinesData F)))
      → All (λ e. is_cycle e.1 config ≡ false) m
      → add_cycles config polygons m ≡ polygons
  unfolding add_cycles
  add_cycles-none polygons [] h = refl
  add_cycles-none polygons ((s, lines) ∷ m) h = rw h.0 (add_cycles-none polygons m h.1)

module _ {ℓ} {F : Type ℓ} ⦃f : Float64 F⦄ (laws : IsSigned F) where
  -- Where signs are as in IEEE 754: under the configuration of `RunProcessorOnGroup` no live
  -- lines ever make a polygon.
  pub create_user_polygons_map-none :
      (lines : List (LiveLinesData F))
      → create_user_polygons_map group_config (segregate_points_by_user lines) ≡ []
  unfolding create_user_polygons_map segregate_points_by_user group_config
  create_user_polygons_map-none lines =
      let entries = sort_entries (group_lines [] lines) in
      add_cycles-none laws group_config [] entries (
        All-map (λ e. Ascending compare_oldest e.1) (λ e. is_cycle e.1 group_config ≡ false)
          (λ e. is_cycle_of_Ascending laws group_config refl (omega arith) e.1) entries
          (sort_entries-AreAscending (group_lines [] lines)))
