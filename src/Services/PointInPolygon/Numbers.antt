-- ===== src/Services/PointInPolygon/Numbers.antt =====
-- A point that `isPointInPolygon` accepts has numbers for coordinates: neither is NaN.
use runner_io.Common.{◌≡◌, true, false, List, [], ◌∷◌, arith, contains_func}
use runner_io.Float64.{Float64, IsComparable}
use runner_io.Dto.Schema.{CoordinateStruct}
use runner_io.Services.PointInPolygon.{
  same_point, crosses, next_vertex, ray_cast, is_point_in_polygon,
}

module _ {ℓ} {F : Type ℓ} ⦃f : Float64 F⦄ (laws : IsComparable F) (point : CoordinateStruct F) where
  contains-same :
      (ps : List (CoordinateStruct F))
      → contains_func ps (λ p. same_point p point) ≡ true
      → same_point point point ≡ true
  unfolding contains_func
  contains-same [] h = cc
  contains-same (p ∷ ps) h =
      ground
        (arith, laws.eq_refl_of_eq p.x point.x, laws.eq_refl_of_eq p.y point.y, contains-same ps)

  crosses-same :
      (p pj : CoordinateStruct F) → crosses point p pj ≡ true → same_point point point ≡ true
  unfolding crosses
  crosses-same p pj h = grind (arith, laws.eq_refl_left)

  ray_cast-same :
      (first : CoordinateStruct F) (ps : List (CoordinateStruct F))
      → ray_cast point first ps false ≡ true
      → same_point point point ≡ true
  unfolding ray_cast
  ray_cast-same first [] h = cc
  ray_cast-same first (p ∷ ps) h =
      ground (arith, crosses-same p (next_vertex first ps), ray_cast-same first ps)

  pub is_point_in_polygon-same :
      (ps : List (CoordinateStruct F))
      → is_point_in_polygon point ps ≡ true
      → same_point point point ≡ true
  unfolding is_point_in_polygon
  is_point_in_polygon-same [] h = cc
  is_point_in_polygon-same (p ∷ ps) h =
      ground (arith, contains-same (p ∷ ps), ray_cast-same p (p ∷ ps))
