-- ===== src/Services/CleanPolygons/Runners.antt =====
-- `cleanPolygons` always returns, and neither loses nor invents a runner.
use mathlib.Core.List.{Mem, Mem-prop, Perm, mem-map_of_mem}
use mathlib.Core.List.Perm
use runner_io.Common.{
  ◌≡◌, List, [], ◌∷◌, some, String, str_eq, Bool-cases, Option-cases, inl, inr, All, All-map,
}
use runner_io.Common.Map.{Map, lookup, insert, keys, lookup-insert, mem-keys, str_eq_refl}
use runner_io.Common.Membership.{All-of_mem, mem-All}
use runner_io.Common.Sort.{sort_func, sort_func-perm}
use runner_io.Float64.{Float64, IsComparable}
use runner_io.Dto.Schema.{PolygonData}
use runner_io.Services.CleanPolygons.{
  compare_string, compare_latest, place, merge_one, merge_all, merged_list, clean_polygons,
}
use runner_io.Services.CleanPolygons.Filed.{
  merge_one-new, merge_one-old, AreFiled, merge_all-AreFiled, list_runners-known, list_runners-mem,
}
use runner_io.Services.CleanPolygons.Eaten.{runners, eat_all-total}

module _ {ℓ} {F : Type ℓ} ⦃f : Float64 F⦄ where
  -- A runner with an entry keeps one.
  abbrev HasEntry : String → Map (List (PolygonData F)) → Type ℓ
  HasEntry s m = (old : List (PolygonData F)) × (lookup s m ≡ some old)

  insert-HasEntry :
      (k s : String) (v : List (PolygonData F)) (m : Map (List (PolygonData F)))
      → HasEntry s m
      → HasEntry s (insert k v m)
  insert-HasEntry k s v m (old, e) = elim (Bool-cases (str_eq k s)) [
    | inl same ↦ (v, rw (lookup-insert k s v m, same))
    | inr other ↦ (old, rw (lookup-insert k s v m, other) e)
  ]

  insert-HasEntry_self :
      (k : String) (v : List (PolygonData F)) (m : Map (List (PolygonData F)))
      → HasEntry k (insert k v m)
  insert-HasEntry_self k v m = (v, rw (lookup-insert k k v m, str_eq_refl k))

  merge_one-HasEntry :
      (m : Map (List (PolygonData F))) (p : PolygonData F)
      → HasEntry p.runner (merge_one m p)
        × ((s : String) → HasEntry s m → HasEntry s (merge_one m p))
  merge_one-HasEntry m p = elim (Option-cases (lookup p.runner m)) [
    | inl new ↦
        rw (merge_one-new m p new)
          (insert-HasEntry_self p.runner (p ∷ []) m, λ s. insert-HasEntry p.runner s (p ∷ []) m)
    | inr (old, found) ↦ rw (merge_one-old m p old found) (
      insert-HasEntry_self p.runner (place p old) m,
      λ s. insert-HasEntry p.runner s (place p old) m,
    )
  ]

  merge_all-keeps :
      (s : String) (m : Map (List (PolygonData F))) (ps : List (PolygonData F))
      → HasEntry s m
      → HasEntry s (merge_all m ps)
  unfolding merge_all
  merge_all-keeps s m [] h = h
  merge_all-keeps s m (p ∷ ps) h =
      merge_all-keeps s (merge_one m p) ps ((merge_one-HasEntry m p).1 s h)

  merge_all-HasEntry :
      (m : Map (List (PolygonData F))) (ps : List (PolygonData F))
      → All (λ p. HasEntry p.runner (merge_all m ps)) ps
  unfolding merge_all
  merge_all-HasEntry m [] = tt
  merge_all-HasEntry m (p ∷ ps) = (
    merge_all-keeps p.runner (merge_one m p) ps (merge_one-HasEntry m p).0,
    merge_all-HasEntry (merge_one m p) ps,
  )

  All-runners {κ} :
      (P : String → Type κ) (ps : List (PolygonData F))
      → All (λ p. P p.runner) ps
      → All P (runners ps)
  All-runners P [] h = tt
  All-runners P (p ∷ ps) h = (h.0, All-runners P ps h.1)

  listed :
      (names : List String) (entries : Map (List (PolygonData F)))
      → AreFiled names entries
      → (s : String) → HasEntry s entries
      → Mem s (runners (merged_list entries))
  unfolding merged_list
  listed names entries filed s (old, found) =
      list_runners-mem names s (sort_func compare_string (keys entries)) entries filed found
        ((Perm.mem_iff (sort_func-perm compare_string (keys entries))).1 (mem-keys s entries found))

  -- Where the comparisons follow IEEE 754, `cleanPolygons` always returns. Each polygon that it
  -- returns is of a runner of the input, and each runner of the input has a polygon among those
  -- that it returns.
  pub clean_polygons-runners :
      (laws : IsComparable F) (ps : List (PolygonData F))
      → (rs : List (PolygonData F)) × (clean_polygons ps ≡ some rs)
        × All (λ p. Mem p.runner (runners ps)) rs
        × All (λ p. Mem p.runner (runners rs)) ps
  unfolding clean_polygons merged_list
  clean_polygons-runners laws ps =
      let sorted = sort_func compare_latest ps in
      let (cleaned, eaten, names) = eat_all-total laws [] sorted in
      let entries = merge_all [] cleaned in
      let same_runners : Perm (runners cleaned) (runners ps) =
        rw names (Perm.map (λ (p : PolygonData F). p.runner) (sort_func-perm compare_latest ps)) in
      let known =
        All-of_mem (λ p. Mem p.runner (runners ps)) cleaned
          (λ p m. (Perm.mem_iff same_runners).0 (mem-map_of_mem (λ q. q.runner) m)) in
      let filed = merge_all-AreFiled (runners ps) [] cleaned known tt in
      (
        merged_list entries,
        rw eaten,
        list_runners-known (runners ps) (sort_func compare_string (keys entries)) entries filed,
        All-of_mem (λ p. Mem p.runner (runners (merged_list entries))) ps
            (λ p m.
              mem-All (λ s. Mem s (runners (merged_list entries))) (λ s. Mem-prop) (runners cleaned)
                (All-runners (λ s. Mem s (runners (merged_list entries))) cleaned
                  (All-map (λ p. HasEntry p.runner entries)
                    (λ p. Mem p.runner (runners (merged_list entries)))
                    (λ p. listed (runners ps) entries filed p.runner) cleaned
                    (merge_all-HasEntry [] cleaned)))
                ((Perm.mem_iff same_runners).1 (mem-map_of_mem (λ q. q.runner) m))),
      )
