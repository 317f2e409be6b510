-- ===== src/Services/CleanPolygons/Filed.antt =====
-- The merging rounds of `cleanPolygons`: what an entry of the map holds.
use mathlib.Core.Path.{subst}
use mathlib.Core.Logic.Or
use mathlib.Core.List.{
  Mem, Mem-prop, mem-cons, mem-cons_self, mem-append_left, mem-append_right, not-mem-nil,
  map-append,
}
use runner_io.Common.{
  ◌≡◌, ◌≢◌, refl, sym, List, [], ◌∷◌, Option, none, some, String, arith, Bool-cases, Option-cases,
  inl, inr, All, All-append, All-map, or_nil,
}
use runner_io.Common.Map.{Map, lookup, insert, insert-All, lookup-All}
use runner_io.Float64.{Float64}
use runner_io.Dto.Schema.{CoordinateStruct, PolygonData}
use runner_io.Services.MergePolygons.{merge_points, merge_polygons}
use runner_io.Services.CleanPolygons.{place, merge_one, merge_all, entry_of, list_runners}
use runner_io.Services.CleanPolygons.Eaten.{runners}

module _ {ℓ} {F : Type ℓ} ⦃f : Float64 F⦄ where
  merge_points-runner :
      (p1 p2 : PolygonData F) (qs rs : List (CoordinateStruct F))
      → (merge_points p1 p2 qs rs).0.runner ≡ p1.runner
  unfolding merge_points
  merge_points-runner p1 p2 qs [] = refl
  merge_points-runner p1 p2 [] (b ∷ rs) = refl
  merge_points-runner p1 p2 (a ∷ qs) (b ∷ rs) = refl

  pub merge_polygons-runner : (p1 p2 : PolygonData F) → (merge_polygons p1 p2).0.runner ≡ p1.runner
  unfolding merge_polygons
  merge_polygons-runner p1 p2 = merge_points-runner p1 p2 _ _

  module _ {κ} (P : String → Type κ) where
    place-All :
        (p : PolygonData F) (ps : List (PolygonData F))
        → P p.runner
        → All (λ q. P q.runner) ps
        → All (λ q. P q.runner) (place p ps)
    unfolding place
    place-All p [] h hs = (h, tt)
    place-All p (d ∷ ps) h hs = elim (Bool-cases (merge_polygons p d).1) [
      | inl merged ↦ rw merged (subst P (sym (merge_polygons-runner p d)) h, hs.1)
      | inr apart ↦ rw apart (hs.0, place-All p ps h hs.1)
    ]

  place-ne-nil : (p : PolygonData F) (ps : List (PolygonData F)) → place p ps ≢ []
  unfolding place
  place-ne-nil p [] e = cc
  place-ne-nil p (d ∷ ps) e = ground arith

  pub merge_one-new :
      (m : Map (List (PolygonData F))) (p : PolygonData F)
      → lookup p.runner m ≡ none
      → merge_one m p ≡ insert p.runner (p ∷ []) m
  unfolding merge_one
  merge_one-new m p e = ground arith

  pub merge_one-old :
      (m : Map (List (PolygonData F))) (p : PolygonData F) (old : List (PolygonData F))
      → lookup p.runner m ≡ some old
      → merge_one m p ≡ insert p.runner (place p old) m
  unfolding merge_one
  merge_one-old m p old e = ground arith

  entry_of-found :
      (k : String) (m : Map (List (PolygonData F))) (old : List (PolygonData F))
      → lookup k m ≡ some old
      → entry_of k m ≡ old
  entry_of-found k m old e = ground arith

  entry_of-All {κ} :
      (P : PolygonData F → Type κ) (k : String) (m : Map (List (PolygonData F)))
      → ((old : List (PolygonData F)) → lookup k m ≡ some old → All P old)
      → All P (entry_of k m)
  entry_of-All P k m h = go (lookup k m) refl
    where
      go : (found : Option (List (PolygonData F))) → lookup k m ≡ found → All P (or_nil found)
      go none e = tt
      go (some old) e = h old e

  module _ (names : List String) where
    -- An entry holds polygons of its runner, at least one, and the runner is one of the names.
    abbrev pub IsFiled : String → List (PolygonData F) → Type ℓ
    IsFiled k ps = All (λ p. (p.runner ≡ k) × Mem p.runner names) ps × (ps ≢ [])

    abbrev pub AreFiled : Map (List (PolygonData F)) → Type ℓ
    AreFiled m = All (λ e. IsFiled e.0 e.1) m

    merge_one-AreFiled :
        (m : Map (List (PolygonData F))) (p : PolygonData F)
        → Mem p.runner names
        → AreFiled m
        → AreFiled (merge_one m p)
    merge_one-AreFiled m p known h = elim (Option-cases (lookup p.runner m)) [
      | inl new ↦
          rw (merge_one-new m p new)
            (insert-All IsFiled p.runner (p ∷ []) m (((refl, known), tt), λ e. cc) h)
      | inr (old, found) ↦ rw (merge_one-old m p old found) (
          insert-All IsFiled p.runner (place p old) m
            (
              place-All (λ r. (r ≡ p.runner) × Mem r names) p old (refl, known)
                  (lookup-All IsFiled p.runner m h found).0,
              place-ne-nil p old,
            )
            h)
    ]

    pub merge_all-AreFiled :
        (m : Map (List (PolygonData F))) (ps : List (PolygonData F))
        → All (λ p. Mem p.runner names) ps
        → AreFiled m
        → AreFiled (merge_all m ps)
    unfolding merge_all
    merge_all-AreFiled m [] known h = h
    merge_all-AreFiled m (p ∷ ps) known h =
        merge_all-AreFiled (merge_one m p) ps known.1 (merge_one-AreFiled m p known.0 h)

    -- So each polygon of the list has one of the names for its runner.
    pub list_runners-known :
        (ks : List String) (m : Map (List (PolygonData F)))
        → AreFiled m
        → All (λ p. Mem p.runner names) (list_runners ks m)
    unfolding list_runners
    list_runners-known [] m h = tt
    list_runners-known (k ∷ ks) m h =
        All-append (λ p. Mem p.runner names) (entry_of k m) (list_runners ks m)
          (entry_of-All (λ p. Mem p.runner names) k m
            (λ old found.
              All-map (λ p. (p.runner ≡ k) × Mem p.runner names) (λ p. Mem p.runner names)
                (λ p q. q.1) old (lookup-All IsFiled k m h found).0))
          (list_runners-known ks m h)

    mem-runners : (k : String) (ps : List (PolygonData F)) → IsFiled k ps → Mem k (runners ps)
    mem-runners k [] h = absurd (h.1 refl)
    mem-runners k (p ∷ ps) h = rw (sym h.0.0.0) mem-cons_self

    -- And each runner with an entry, whose name is listed, has a polygon.
    pub list_runners-mem :
        (k : String) (ks : List String) (m : Map (List (PolygonData F)))
        {old : List (PolygonData F)}
        → AreFiled m
        → lookup k m ≡ some old
        → Mem k ks
        → Mem k (runners (list_runners ks m))
    unfolding list_runners
    list_runners-mem k [] m h found mem = absurd (not-mem-nil mem)
    list_runners-mem k (j ∷ ks) m {old} h found mem =
        rw (map-append (λ (p : PolygonData F). p.runner) (entry_of j m) (list_runners ks m)) (
          Or.elim Mem-prop (mem-cons.0 mem)
            (λ same. mem-append_left {s = runners (entry_of j m)} (runners (list_runners ks m)) (
              rw (entry_of-found j m old (subst (λ i. lookup i m ≡ some old) same found))
                (mem-runners k old (lookup-All IsFiled k m h found))))
            (λ later.
              mem-append_right (runners (entry_of j m)) (list_runners-mem k ks m h found later)))
