-- ===== src/Services/SortPoints/Permutation.antt =====
-- `sortPointsByDistance` ends after at most one round for each point, and rearranges its points.
use mathlib.Core.List.{Perm}
use mathlib.Core.List.Perm
use mathlib.Core.Option.{some-injective}
use runner_io.Common.{
  ℕ, zero, suc, ◌≤◌, ◌≡◌, refl, sym, ap, ◌∙◌, subst, ◌⊎◌, inl, inr, Bool, true, false, List, [],
  ◌∷◌, none, some, length, get_elem?, set, replicate, arith, Option-cases, All,
}
use runner_io.Float64.{Float64}
use runner_io.Dto.Schema.{CoordinateStruct}
use runner_io.Services.SortPoints.{far_away, nearest, visit, sort_points_by_distance}
use runner_io.Services.SortPoints.Order.{
  unvisited, IsOpen, unvisited-set, length-unvisited-set, nearest-IsOpen, IsWithin, nearest-finds,
}

module _ {ℓ} {A : Type ℓ} where
  All-get_elem? {κ} :
      (P : A → Type κ) (xs : List A) (i : ℕ) {a : A} → All P xs → get_elem? xs i ≡ some a → P a
  All-get_elem? P [] i h e = cc
  All-get_elem? P (x ∷ xs) zero h e = rw (sym (some-injective _ _ e)) h.0
  All-get_elem? P (x ∷ xs) (suc i) h e = All-get_elem? P xs i h.1 e

  length-nil : (xs : List A) → length xs ≤ 0 → xs ≡ []
  length-nil [] h = refl
  length-nil (x ∷ xs) h = absurd (omega arith)

module _ {ℓ} {F : Type ℓ} ⦃f : Float64 F⦄ where
  -- One round of the outer loop that finds a point.
  visit-step :
      (fuel : ℕ) (ps : List (CoordinateStruct F)) (vs : List Bool) (start q : CoordinateStruct F)
      (p : ℕ)
      → (nearest start 0 ps vs (far_away, none)).1 ≡ some p
      → get_elem? ps p ≡ some q
      → visit (suc fuel) ps vs start ≡ q ∷ visit fuel ps (set vs p true) q
  unfolding visit
  visit-step fuel ps vs start q p e g = ground arith

  visit-stop :
      (fuel : ℕ) (ps : List (CoordinateStruct F)) (vs : List Bool) (start : CoordinateStruct F)
      → (nearest start 0 ps vs (far_away, none)).1 ≡ none
      → visit (suc fuel) ps vs start ≡ []
  unfolding visit
  visit-stop fuel ps vs start e = ground arith

  -- A round that finds a point: what it is, and the state that the next round begins with.
  visit-found :
      (ps : List (CoordinateStruct F)) (vs : List Bool) (start : CoordinateStruct F)
      → ((nearest start 0 ps vs (far_away, none)).1 ≡ none)
        ⊎ ((p : ℕ) × (q : CoordinateStruct F) × ((nearest start 0 ps vs (far_away, none)).1
              ≡ some p)
            × IsOpen ps vs p q)
  visit-found ps vs start = elim (Option-cases ((nearest start 0 ps vs (far_away, none)).1)) [
    | inl e ↦ inl e
    | inr (p, e) ↦ let (q, open_at, _) = nearest-IsOpen start ps vs e in inr (p, q, e, open_at)
  ]

  -- Once there is a round for each unvisited point, more fuel changes nothing.
  visit-fuel :
      (fuel : ℕ) (ps : List (CoordinateStruct F)) (vs : List Bool) (start : CoordinateStruct F)
      → length (unvisited ps vs) ≤ fuel
      → visit (suc fuel) ps vs start ≡ visit fuel ps vs start
  unfolding visit
  visit-fuel zero ps vs start h = elim (visit-found ps vs start) [
    | inl e ↦ visit-stop zero ps vs start e
    | inr (p, q, e, o) ↦ absurd (omega (arith, length-unvisited-set ps vs p q o))
  ]
  visit-fuel (suc fuel) ps vs start h = elim (visit-found ps vs start) [
    | inl e ↦ visit-stop (suc fuel) ps vs start e ∙ sym (visit-stop fuel ps vs start e)
    | inr (p, q, e, o) ↦
        visit-step (suc fuel) ps vs start q p e o.0
        ∙ ap (◌∷◌ q)
            (visit-fuel fuel ps (set vs p true) q (omega (arith, length-unvisited-set ps vs p q o)))
        ∙ sym (visit-step fuel ps vs start q p e o.0)
  ]

  visit-All {κ} :
      (P : CoordinateStruct F → Type κ) (fuel : ℕ) (ps : List (CoordinateStruct F)) (vs : List Bool)
      (start : CoordinateStruct F)
      → All P ps
      → All P (visit fuel ps vs start)
  unfolding visit
  visit-All P zero ps vs start h = tt
  visit-All P (suc fuel) ps vs start h = elim (visit-found ps vs start) [
    | inl e ↦ rw (visit-stop fuel ps vs start e) tt
    | inr (p, q, e, o) ↦
        rw (visit-step fuel ps vs start q p e o.0)
          (All-get_elem? P ps p h o.0, visit-All P fuel ps (set vs p true) q h)
  ]

  -- Any two of the points are nearer than the bound that the loop starts from.
  abbrev pub AreWithin : List (CoordinateStruct F) → Type 0
  AreWithin ps = All (λ a. All (IsWithin a) ps) ps

  visit-perm :
      (fuel : ℕ) (ps : List (CoordinateStruct F)) (vs : List Bool) (start : CoordinateStruct F)
      → length (unvisited ps vs) ≤ fuel
      → AreWithin ps
      → All (IsWithin start) ps
      → Perm (visit fuel ps vs start) (unvisited ps vs)
  unfolding visit
  visit-perm zero ps vs start h w ws = rw (length-nil (unvisited ps vs) h) (Perm.refl [])
  visit-perm (suc fuel) ps vs start h w ws = elim (visit-found ps vs start) [
    | inl e ↦ rw (visit-stop fuel ps vs start e, nearest-finds start 0 ps vs ws e) (Perm.refl [])
    | inr (p, q, e, o) ↦
        let rest =
          visit-perm fuel ps (set vs p true) q (omega (arith, length-unvisited-set ps vs p q o)) w
            (All-get_elem? (λ a. All (IsWithin a) ps) ps p w o.0) in
        rw (visit-step fuel ps vs start q p e o.0)
          (Perm.trans (Perm.cons q rest) (unvisited-set ps vs p q o))
  ]

  unvisited-fresh :
      (ps : List (CoordinateStruct F)) → unvisited ps (replicate (length ps) false) ≡ ps
  unvisited-fresh [] = refl
  unvisited-fresh (p ∷ ps) = ap (◌∷◌ p) (unvisited-fresh ps)

  -- Points that lie within the bound of one another are rearranged: none is lost, none is doubled.
  pub sort_points_by_distance-perm :
      (ps : List (CoordinateStruct F)) → AreWithin ps → Perm (sort_points_by_distance ps) ps
  unfolding sort_points_by_distance
  sort_points_by_distance-perm [] w = Perm.refl _
  sort_points_by_distance-perm (a ∷ []) w = Perm.refl _
  sort_points_by_distance-perm (a ∷ b ∷ []) w = Perm.refl _
  sort_points_by_distance-perm (a ∷ b ∷ c ∷ ps) w =
      let fresh = unvisited-fresh (b ∷ c ∷ ps) in
      Perm.cons a (
        subst (Perm _) fresh (
          visit-perm (length (a ∷ b ∷ c ∷ ps)) (a ∷ b ∷ c ∷ ps)
            (true ∷ replicate (length (b ∷ c ∷ ps)) false) a (omega (arith, ap length fresh)) w
            w.0))

  -- Whatever the distances, each point of the result is one of the points.
  pub sort_points_by_distance-All {κ} :
      (P : CoordinateStruct F → Type κ) (ps : List (CoordinateStruct F))
      → All P ps
      → All P (sort_points_by_distance ps)
  unfolding sort_points_by_distance
  sort_points_by_distance-All P [] h = h
  sort_points_by_distance-All P (a ∷ []) h = h
  sort_points_by_distance-All P (a ∷ b ∷ []) h = h
  sort_points_by_distance-All P (a ∷ b ∷ c ∷ ps) h = (
    h.0,
    visit-All P (length (a ∷ b ∷ c ∷ ps)) (a ∷ b ∷ c ∷ ps)
        (true ∷ replicate (length (b ∷ c ∷ ps)) false) a h,
  )
