-- ===== src/Services/EatPolygon/Remove.antt =====
-- The loops of `eatPolygon`, and removing points from coordinates.
use mathlib.Core.List.{Mem}
use mathlib.Core.List.Perm
use runner_io.Common.{
  ℕ, suc, ◌≡◌, inl, inr, false, not, List, [], ◌∷◌, ◌==◌, delete_func, Bool-cases, All, All-append,
  All-reverse, All-combine,
}
use runner_io.Common.Membership.{
  All-of_mem, mem-All, mem-delete_func, delete_func-All, delete_func-spared,
}
use runner_io.Float64.{Float64, IsComparable}
use runner_io.Dto.Schema.{CoordinateStruct}
use runner_io.Services.Distance.{distance}
use runner_io.Services.PointInPolygon.{same_point, is_point_in_polygon}
use runner_io.Services.PointInPolygon.Numbers.{is_point_in_polygon-same}
use runner_io.Services.PointsInPolygon.{get_points_in_polygon}
use runner_io.Services.PointsInPolygon.Boundary.{get_points_in_polygon-perm}
use runner_io.Services.EatPolygon.{splice, remove_points, last_coord, towards}

module _ {ℓ κ} {F : Type ℓ} ⦃f : Float64 F⦄ (P : CoordinateStruct F → Type κ) where
  pub splice-All :
      (idx last : ℕ) (coords extra : List (CoordinateStruct F))
      → All P coords
      → All P extra
      → All P (splice idx last coords extra)
  unfolding splice
  splice-All idx last [] extra h k = tt
  splice-All idx last (c ∷ coords) extra h k =
      let rest = splice-All (suc idx) last coords extra h.1 k in
      elim (Bool-cases (idx == last)) [
        | inl here ↦ rw here (h.0, All-append P extra _ k rest)
        | inr elsewhere ↦ rw elsewhere (h.0, rest)
      ]

  pub towards-All :
      (at first : CoordinateStruct F) (rest : List (CoordinateStruct F))
      → All P (first ∷ rest)
      → All P (towards at first rest)
  unfolding towards
  towards-All at first rest h =
      let last = last_coord first rest in
      elim (Bool-cases
        (f.lt (distance last.x last.y at.x at.y) (distance first.x first.y at.x at.y))) [
          | inl turned ↦ rw turned (All-reverse P (first ∷ rest) h)
          | inr kept ↦ rw kept h
        ]

  pub remove_points-All :
      (points coords : List (CoordinateStruct F))
      → All P coords
      → All P (remove_points points coords)
  unfolding remove_points
  remove_points-All [] coords h = h
  remove_points-All (q ∷ points) coords h =
      remove_points-All points (delete_func coords (λ p. same_point q p))
        (delete_func-All P (λ p. same_point q p) coords h)

module _ {ℓ} {F : Type ℓ} ⦃f : Float64 F⦄ where
  -- `c` is none of the points.
  abbrev pub IsApart : List (CoordinateStruct F) → CoordinateStruct F → Type 0
  IsApart points c = All (λ q. same_point q c ≡ false) points

  pub remove_points-IsApart :
      (points coords : List (CoordinateStruct F))
      → All (IsApart points) (remove_points points coords)
  unfolding remove_points
  remove_points-IsApart [] coords = All-of_mem (IsApart []) coords (λ c m. tt)
  remove_points-IsApart (q ∷ points) coords =
      let left = delete_func coords (λ p. same_point q p) in
      All-combine (λ c. same_point q c ≡ false) (IsApart points) (IsApart (q ∷ points))
        (λ c h k. (h, k)) (remove_points points left)
        (remove_points-All (λ c. same_point q c ≡ false) points left
          (delete_func-spared (λ p. same_point q p) coords))
        (remove_points-IsApart points left)

  -- A point of P1 that is none of the points of P1 inside P2 is outside P2.
  pub outside_of_IsApart :
      (laws : IsComparable F) (p1 p2 : List (CoordinateStruct F)) (c : CoordinateStruct F)
      → Mem c p1
      → IsApart (get_points_in_polygon p1 p2).0 c
      → is_point_in_polygon c p2 ≡ false
  outside_of_IsApart laws p1 p2 c m apart = elim (Bool-cases (is_point_in_polygon c p2)) [
    | inr out ↦ out
    | inl inside ↦
        let found =
          (Perm.mem_iff (get_points_in_polygon-perm p1 p2)).1
            (mem-delete_func (λ p. not (is_point_in_polygon p p2)) p1 m (rw inside)) in
        let differs = mem-All (λ q. same_point q c ≡ false) (λ q. hlevel) _ apart found in
        let same = is_point_in_polygon-same laws c p2 inside in cc
  ]
