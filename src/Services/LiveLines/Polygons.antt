-- ===== src/Services/LiveLines/Polygons.antt =====
-- The polygons that the users' cycles make: `ToPolygonData` is only called on lines that are there.
use mathlib.Core.List.{Perm}
use mathlib.Core.List.Perm
use runner_io.Common.{
  ◌≡◌, refl, Bool, true, false, List, [], ◌∷◌, ◌++◌, some, String, Bool-cases, Option-cases, inl,
  inr, All, or_nil,
}
use runner_io.Common.Map.{Map, lookup, insert, insert-All, lookup-All}
use runner_io.Common.Membership.{All-of_mem, mem-All}
use runner_io.Float64.{Float64}
use runner_io.Dto.Schema.{LiveLinesData, PolygonData}
use runner_io.Dto.Schema.Latest.{to_polygon_data_lem}
use runner_io.Services.Distance.{RunProcessorConfig, is_cycle}
use runner_io.Services.LiveLines.{
  to_polygons, all_polygons, add_polygons_to_new_polygon_array, add_cycles,
  create_user_polygons_map,
}

module _ {ℓ} {F : Type ℓ} where
  -- No list of lines is empty.
  abbrev all_there : List (List (LiveLinesData F)) → Bool
  all_there [] = true
  all_there ([] ∷ rest) = false
  all_there ((l ∷ ls) ∷ rest) = all_there rest

  abbrev pub AreThere : Map (List (List (LiveLinesData F))) → Type 0
  AreThere m = All (λ e. all_there e.1 ≡ true) m

  pub AreThere-perm :
      (m n : Map (List (List (LiveLinesData F)))) → Perm m n → AreThere n → AreThere m
  AreThere-perm m n p h =
      All-of_mem (λ e. all_there e.1 ≡ true) m
        (λ e mem. mem-All (λ e. all_there e.1 ≡ true) (λ e. hlevel) n h ((Perm.mem_iff p).0 mem))

  to_polygons-total :
      (lines : List (List (LiveLinesData F)))
      → all_there lines ≡ true
      → (ps : List (PolygonData F)) × (to_polygons lines ≡ some ps)
  unfolding to_polygons
  to_polygons-total [] h = ([], refl)
  to_polygons-total ([] ∷ rest) h = cc
  to_polygons-total ((l ∷ ls) ∷ rest) h =
      let made = to_polygon_data_lem l ls in
      let (ps, others) = to_polygons-total rest h in (made.0 ∷ ps, rw (made.1, others))

  all_polygons-total :
      (m : Map (List (List (LiveLinesData F))))
      → AreThere m
      → (ps : List (PolygonData F)) × (all_polygons m ≡ some ps)
  unfolding all_polygons
  all_polygons-total [] h = ([], refl)
  all_polygons-total ((user, lines) ∷ m) h =
      let (ps, made) = to_polygons-total lines h.0 in
      let (qs, others) = all_polygons-total m h.1 in (ps ++ qs, rw (made, others))

  pub add_polygons_to_new_polygon_array-total :
      (polygon_data : List (PolygonData F)) (m : Map (List (List (LiveLinesData F))))
      → AreThere m
      → (ps : List (PolygonData F)) × (add_polygons_to_new_polygon_array polygon_data m
          ≡ some (polygon_data ++ ps))
  unfolding add_polygons_to_new_polygon_array
  add_polygons_to_new_polygon_array-total polygon_data m h =
      let (ps, made) = all_polygons-total m h in (ps, rw made)

  or_nil-there :
      (user : String) (m : Map (List (List (LiveLinesData F))))
      → AreThere m
      → all_there (or_nil (lookup user m)) ≡ true
  or_nil-there user m h = elim (Option-cases (lookup user m)) [
    | inl new ↦ rw new
    | inr (old, found) ↦ rw found (lookup-All (λ k v. all_there v ≡ true) user m h found)
  ]

  all_there-snoc :
      (old : List (List (LiveLinesData F))) (l : LiveLinesData F) (ls : List (LiveLinesData F))
      → all_there old ≡ true
      → all_there (old ++ (l ∷ ls) ∷ []) ≡ true
  all_there-snoc [] l ls h = refl
  all_there-snoc ([] ∷ old) l ls h = cc
  all_there-snoc ((m ∷ ms) ∷ old) l ls h = all_there-snoc old l ls h

module _ {ℓ} {F : Type ℓ} ⦃f : Float64 F⦄ (config : RunProcessorConfig F) where
  is_cycle-cons :
      (lines : List (LiveLinesData F))
      → is_cycle lines config ≡ true
      → (old : List (List (LiveLinesData F))) → all_there old ≡ true
      → all_there (old ++ lines ∷ []) ≡ true
  unfolding is_cycle
  is_cycle-cons [] e old h = cc
  is_cycle-cons (l ∷ ls) e old h = all_there-snoc old l ls h

  add_cycles-AreThere :
      (polygons : Map (List (List (LiveLinesData F)))) (m : Map (List (LiveLinesData F)))
      → AreThere polygons
      → AreThere (add_cycles config polygons m)
  unfolding add_cycles
  add_cycles-AreThere polygons [] h = h
  add_cycles-AreThere polygons ((user, lines) ∷ m) h = elim (Bool-cases (is_cycle lines config)) [
    | inr open_line ↦ rw open_line (add_cycles-AreThere polygons m h)
    | inl cycle ↦ rw cycle (
        add_cycles-AreThere (insert user (or_nil (lookup user polygons) ++ lines ∷ []) polygons) m (
          insert-All (λ k v. all_there v ≡ true) user (or_nil (lookup user polygons) ++ lines ∷ [])
            polygons
            (is_cycle-cons lines cycle (or_nil (lookup user polygons))
              (or_nil-there user polygons h))
            h))
  ]

  pub create_user_polygons_map-AreThere :
      (m : Map (List (LiveLinesData F))) → AreThere (create_user_polygons_map config m)
  unfolding create_user_polygons_map
  create_user_polygons_map-AreThere m = add_cycles-AreThere [] m tt
