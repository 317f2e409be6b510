-- ===== src/Services/PointsInPolygon/Boundary.antt =====
-- What `getPointsInPolygon` returns: the points of P1 inside P2, and the place before a run of them.
use mathlib.Core.List.{Perm}
use mathlib.Core.List.Perm
use mathlib.Core.Option.{some-injective}
use native.Mathlib.Nat.{mod-eq_of_lt, mod-eq-sub-mod}
use runner_io.Common.{
  ℕ, zero, suc, ◌+◌, ◌-◌, ◌%◌, ◌<◌, ◌≡◌, ◌≢◌, refl, sym, ◌∙◌, subst, inl, inr, Bool, true, false,
  List, [], ◌∷◌, some, not, ◌==◌, length, contains_func, delete_func, arith, Bool-cases,
}
use runner_io.Common.Sort.{sort_func-perm}
use runner_io.Float64.{Float64}
use runner_io.Dto.Schema.{CoordinateStruct}
use runner_io.Services.PointInPolygon.{is_point_in_polygon}
use runner_io.Services.PointsInPolygon.{
  collect_inside, compare_norm, with_last, get_points_in_polygon,
}
use runner_io.Services.PointsInPolygon.StepBack.{next_index, has_index, IsStop, step_back-IsStop}

module _ {ℓ} {F : Type ℓ} ⦃f : Float64 F⦄ where
  -- Whether index `k` of P1 holds a point inside P2.
  abbrev pub inside_at : List (CoordinateStruct F) → List (CoordinateStruct F) → ℕ → Bool
  inside_at [] p2 k = false
  inside_at (p ∷ p1) p2 zero = is_point_in_polygon p p2
  inside_at (p ∷ p1) p2 (suc k) = inside_at p1 p2 k

  -- The points of P1 inside P2, in order.
  abbrev pub points_inside :
      List (CoordinateStruct F) → List (CoordinateStruct F) → List (CoordinateStruct F)
  points_inside p1 p2 = delete_func p1 λ p. not (is_point_in_polygon p p2)

  module _ (p2 : List (CoordinateStruct F)) where
    collect_inside-points :
        (idx : ℕ) (p1 : List (CoordinateStruct F))
        → (collect_inside idx p1 p2).0 ≡ points_inside p1 p2
    unfolding collect_inside delete_func
    collect_inside-points idx [] = refl
    collect_inside-points idx (p ∷ p1) = ground (arith, collect_inside-points (suc idx) p1)

    has_index_below :
        (idx k : ℕ) (p1 : List (CoordinateStruct F))
        → k < idx
        → has_index (collect_inside idx p1 p2).1 k ≡ false
    unfolding collect_inside contains_func
    has_index_below idx k [] h = refl
    has_index_below idx k (p ∷ p1) h = ground (arith, has_index_below (suc idx) k p1)

    has_index-collect_inside :
        (idx d k : ℕ) (p1 : List (CoordinateStruct F))
        → k ≡ idx + d
        → has_index (collect_inside idx p1 p2).1 k ≡ inside_at p1 p2 d
    unfolding collect_inside contains_func
    has_index-collect_inside idx d k [] e = refl
    has_index-collect_inside idx zero k (p ∷ p1) e = ground (arith, has_index_below (suc idx) k p1)
    has_index-collect_inside idx (suc d) k (p ∷ p1) e =
        ground (arith, has_index-collect_inside (suc idx) d k p1)

    length-collect_inside-le :
        (idx : ℕ) (p1 : List (CoordinateStruct F))
        → length (collect_inside idx p1 p2).1 < suc (length p1)
    unfolding collect_inside
    length-collect_inside-le idx [] = omega arith
    length-collect_inside-le idx (p ∷ p1) = ground (arith, length-collect_inside-le (suc idx) p1)

    length-collect_inside :
        (idx : ℕ) (p1 : List (CoordinateStruct F))
        → length (collect_inside idx p1 p2).1 ≡ length (collect_inside idx p1 p2).0
    unfolding collect_inside
    length-collect_inside idx [] = refl
    length-collect_inside idx (p ∷ p1) = ground (arith, length-collect_inside (suc idx) p1)

    outside_exists :
        (idx : ℕ) (p1 : List (CoordinateStruct F))
        → length (collect_inside idx p1 p2).1 ≢ length p1
        → (m : ℕ) × (m < length p1) × (inside_at p1 p2 m ≡ false)
    unfolding collect_inside
    outside_exists idx [] h = absurd (h refl)
    outside_exists idx (p ∷ p1) h = elim (Bool-cases (is_point_in_polygon p p2)) [
      | inr out ↦ (0, omega arith, out)
      | inl inside ↦
          let (m, m_lt, out) = outside_exists (suc idx) p1 (λ e. h (rw inside (omega arith))) in
          (suc m, omega arith, out)
    ]

    inside_at-lt :
        (p1 : List (CoordinateStruct F)) (k : ℕ) → inside_at p1 p2 k ≡ true → k < length p1
    inside_at-lt [] k h = cc
    inside_at-lt (p ∷ p1) zero h = omega arith
    inside_at-lt (p ∷ p1) (suc k) h = omega (arith, inside_at-lt p1 k h)

start_lem : (i n : ℕ) → i < n → ((i + n - 1) % n < n) × (next_index n ((i + n - 1) % n) ≡ i)
start_lem zero n h =
    let e : (0 + n - 1) % n ≡ n - 1 =
      rw (mod-eq_of_lt {n = 0 + n - 1} {m = n} (omega arith)) (omega arith) in
    rw e (ground arith)
start_lem (suc i) n h =
    let e : (suc i + n - 1) % n ≡ i = grind (arith, mod-eq-sub-mod, mod-eq_of_lt) in
    rw e (ground arith)

IsStop-next :
    (idxs : List ℕ) (n last i r : ℕ)
    → next_index n last ≡ i
    → has_index idxs i ≡ true
    → IsStop idxs n last r
    → has_index idxs (next_index n r) ≡ true
IsStop-next idxs n last i r e h (lt, free, inl same) = rw (same, e) h
IsStop-next idxs n last i r e h (lt, free, inr next) = next

has_index-head : (i : ℕ) (idxs : List ℕ) → has_index (i ∷ idxs) i ≡ true
unfolding contains_func
has_index-head i idxs = ground arith

module _ {ℓ} {F : Type ℓ} ⦃f : Float64 F⦄ (p1 p2 : List (CoordinateStruct F)) where
  -- An index before a run: it is of a point of P1 outside P2, and the next one around P1 is inside.
  abbrev pub IsBeforeRun : ℕ → Type 0
  IsBeforeRun r =
      (r < length p1)
      × (inside_at p1 p2 r ≡ false)
      × (inside_at p1 p2 (next_index (length p1) r) ≡ true)

  with_last-IsBeforeRun :
      (points : List (CoordinateStruct F)) (idxs : List ℕ)
      → ((k : ℕ) → has_index idxs k ≡ inside_at p1 p2 k)
      → (length idxs ≢ length p1 → (m : ℕ) × (m < length p1) × (inside_at p1 p2 m ≡ false))
      → {r : ℕ} → (with_last p1 points idxs).1 ≡ some r
      → IsBeforeRun r
  with_last-IsBeforeRun points [] same outside e = cc
  with_last-IsBeforeRun points (i ∷ idxs) same outside {r} e =
      elim (Bool-cases (length (i ∷ idxs) == length p1)) [
        | inl all ↦ ground arith
        | inr some_out ↦
            let n = length p1 in
            let head_taken = has_index-head i idxs in
            let i_lt = inside_at-lt p2 p1 i (sym (same i) ∙ head_taken) in
            let (start_lt, behind) = start_lem i n i_lt in
            let (m, m_lt, out) = outside (λ all. ground arith) in
            let stop =
              step_back-IsStop (i ∷ idxs) n m m_lt (same m ∙ out) n ((i + n - 1) % n) start_lt
                (ground arith) in
            let next = IsStop-next (i ∷ idxs) n ((i + n - 1) % n) i _ behind head_taken stop in
            subst IsBeforeRun (some-injective _ _ (rw some_out at e))
              (stop.0, sym (same _) ∙ stop.1, sym (same _) ∙ next)
      ]

  -- The index that `getPointsInPolygon` returns is that of a point of P1 outside P2, whose next point
  -- around P1 is inside.
  pub get_points_in_polygon-IsBeforeRun :
      {r : ℕ} → (get_points_in_polygon p1 p2).1 ≡ some r → IsBeforeRun r
  unfolding get_points_in_polygon
  get_points_in_polygon-IsBeforeRun e =
      with_last-IsBeforeRun (collect_inside 0 p1 p2).0 (collect_inside 0 p1 p2).1
        (λ k. has_index-collect_inside p2 0 k k p1 (omega arith)) (outside_exists p2 0 p1) e

  with_last-perm :
      (points : List (CoordinateStruct F)) (idxs : List ℕ)
      → length idxs ≡ length points
      → Perm (with_last p1 points idxs).0 points
  with_last-perm [] [] e = Perm.refl []
  with_last-perm (p ∷ points) [] e = absurd (omega arith)
  with_last-perm points (i ∷ idxs) e = elim (Bool-cases (length (i ∷ idxs) == length p1)) [
    | inl all ↦ rw all (Perm.refl points)
    | inr some_out ↦ rw some_out (sort_func-perm compare_norm points)
  ]

  -- The points that it returns are those of P1 inside P2, each as often as it stands in P1.
  pub get_points_in_polygon-perm : Perm (get_points_in_polygon p1 p2).0 (points_inside p1 p2)
  unfolding get_points_in_polygon
  get_points_in_polygon-perm =
      subst (Perm (get_points_in_polygon p1 p2).0) (collect_inside-points p2 0 p1) (
        with_last-perm (collect_inside 0 p1 p2).0 (collect_inside 0 p1 p2).1
          (length-collect_inside p2 0 p1))
