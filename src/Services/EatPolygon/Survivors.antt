-- ===== src/Services/EatPolygon/Survivors.antt =====
-- What `eatPolygon` leaves of the eaten polygon.
use mathlib.Core.List.{Mem, Perm}
use mathlib.Core.List.Perm
use runner_io.Common.{
  ℕ, ◌≡◌, refl, sym, subst, ◌⊎◌, inl, inr, true, false, not, List, [], ◌∷◌, Option, none, some,
  get_elem?-lt, arith, All, All-combine,
}
use runner_io.Common.Membership.{All-of_mem, mem_of_mem-delete_func}
use runner_io.Float64.{Float64, IsComparable}
use runner_io.GoTime.{zero_time}
use runner_io.Dto.Schema.{CoordinateStruct, PolygonData}
use runner_io.Services.PointInPolygon.{is_point_in_polygon}
use runner_io.Services.PointsInPolygon.{get_points_in_polygon}
use runner_io.Services.PointsInPolygon.Boundary.{
  points_inside, get_points_in_polygon-perm, get_points_in_polygon-IsBeforeRun,
}
use runner_io.Services.EatPolygon.{splice, remove_points, towards, eat_points, eat_polygon}
use runner_io.Services.EatPolygon.Remove.{
  splice-All, towards-All, remove_points-All, IsApart, remove_points-IsApart, outside_of_IsApart,
}

module _ {ℓ} {F : Type ℓ} ⦃f : Float64 F⦄ where
  -- A point of p1 outside p2, or a point of p2 inside p1.
  abbrev pub Survives :
      List (CoordinateStruct F) → List (CoordinateStruct F) → CoordinateStruct F → Type ℓ
  Survives p1 p2 c =
      (Mem c p1 × (is_point_in_polygon c p2 ≡ false))
      ⊎ (Mem c p2 × (is_point_in_polygon c p1 ≡ true))

  -- The two outcomes: p1 as it was, where one of the polygons has no point inside the other, or a new
  -- polygon of the same runner, with the zero time, made of survivors.
  abbrev pub IsEaten : PolygonData F → PolygonData F → PolygonData F → Type ℓ
  IsEaten p1 p2 r =
      ((r ≡ p1)
        × ((points_inside p1.coords p2.coords ≡ []) ⊎ (points_inside p2.coords p1.coords ≡ [])))
      ⊎ ((r.time ≡ zero_time)
          × (r.runner ≡ p1.runner)
          × All (Survives p1.coords p2.coords) r.coords)

  inside_of_mem :
      (p1 p2 : List (CoordinateStruct F)) (c : CoordinateStruct F)
      → Mem c (get_points_in_polygon p1 p2).0
      → Mem c p1 × (is_point_in_polygon c p2 ≡ true)
  inside_of_mem p1 p2 c m =
      let (old, kept) =
        mem_of_mem-delete_func (λ p. not (is_point_in_polygon p p2)) p1
          ((Perm.mem_iff (get_points_in_polygon-perm p1 p2)).0 m) in
      (old, ground arith)

  pub none_inside :
      (p1 p2 : List (CoordinateStruct F))
      → (get_points_in_polygon p1 p2).0 ≡ []
      → points_inside p1 p2 ≡ []
  none_inside p1 p2 e =
      sym (
        Perm.nil-eq
          (subst (λ l. Perm l (points_inside p1 p2)) e (get_points_in_polygon-perm p1 p2)))

  module _ (laws : IsComparable F) (p1 p2 : PolygonData F) where
    -- A point of either kind, before the points inside p2 are removed.
    abbrev IsCandidate : CoordinateStruct F → Type ℓ
    IsCandidate c = Mem c p1.coords ⊎ (Mem c p2.coords × (is_point_in_polygon c p1.coords ≡ true))

    survives :
        (c : CoordinateStruct F)
        → IsCandidate c
        → IsApart (get_points_in_polygon p1.coords p2.coords).0 c
        → Survives p1.coords p2.coords c
    survives c (inl m) apart = inl (m, outside_of_IsApart laws p1.coords p2.coords c m apart)
    survives c (inr inside) apart = inr inside

    remove_points-Survives :
        (coords : List (CoordinateStruct F))
        → All IsCandidate coords
        → All
            (Survives p1.coords p2.coords)
            (remove_points (get_points_in_polygon p1.coords p2.coords).0 coords)
    remove_points-Survives coords h =
        let in_p2 = (get_points_in_polygon p1.coords p2.coords).0 in
        All-combine IsCandidate (IsApart in_p2) (Survives p1.coords p2.coords) survives
          (remove_points in_p2 coords) (remove_points-All IsCandidate in_p2 coords h)
          (remove_points-IsApart in_p2 coords)

    eat_points-IsEaten :
        (in_p2 : List (CoordinateStruct F)) (last : Option ℕ) (in_p1 : List (CoordinateStruct F))
        → (get_points_in_polygon p1.coords p2.coords).0 ≡ in_p2
        → (get_points_in_polygon p1.coords p2.coords).1 ≡ last
        → (get_points_in_polygon p2.coords p1.coords).0 ≡ in_p1
        → (r : PolygonData F) × (eat_points p1 in_p2 last in_p1 ≡ some r) × IsEaten p1 p2 r
    unfolding eat_points
    eat_points-IsEaten [] last in_p1 e2 el e1 =
        (p1, refl, inl (refl, inl (none_inside p1.coords p2.coords e2)))
    eat_points-IsEaten (a ∷ in_p2) last [] e2 el e1 =
        (p1, refl, inl (refl, inr (none_inside p2.coords p1.coords e1)))
    eat_points-IsEaten (a ∷ in_p2) none (b ∷ in_p1) e2 el e1 = (
      _,
      refl,
      inr (
        refl,
        refl,
        subst (λ l. All (Survives p1.coords p2.coords) (remove_points l [])) e2
            (remove_points-Survives [] tt),
      ),
    )
    eat_points-IsEaten (a ∷ in_p2) (some last) (b ∷ in_p1) e2 el e1 =
        let before = get_points_in_polygon-IsBeforeRun p1.coords p2.coords el in
        let (at, found) = get_elem?-lt p1.coords last before.0 in
        let added = towards at b in_p1 in
        let coords = splice 0 last p1.coords added in
        let extra : All IsCandidate added = towards-All IsCandidate at b in_p1 (
          subst (All IsCandidate) e1
            (All-of_mem IsCandidate _ (λ c m. inr (inside_of_mem p2.coords p1.coords c m)))) in
        let candidates =
          splice-All IsCandidate 0 last p1.coords added (All-of_mem IsCandidate _ (λ c m. inl m))
            extra in
        (
          _,
          rw (found, eat_points),
          inr (
            refl,
            refl,
            subst (λ l. All (Survives p1.coords p2.coords) (remove_points l coords)) e2
                (remove_points-Survives coords candidates),
          ),
        )

    pub eat_polygon-IsEaten : (r : PolygonData F) × (eat_polygon p1 p2 ≡ some r) × IsEaten p1 p2 r
    unfolding eat_polygon
    eat_polygon-IsEaten = eat_points-IsEaten _ _ _ refl refl refl
