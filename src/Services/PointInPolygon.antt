-- ===== src/Services/PointInPolygon.antt =====
-- internal/services/utils.go: `isPointInPolygon`.
pub mod Numbers
use mathlib.Core.Bool.{xor}
use runner_io.Common.{
  ◌≡◌, Bool, true, false, not, ◌&&◌, List, [], ◌∷◌, if◌then◌else◌, arith, contains_func,
}
use runner_io.Float64.{Float64, IsComparable}
use runner_io.Dto.Schema.{CoordinateStruct}

module _ {ℓ} {F : Type ℓ} ⦃f : Float64 F⦄ where
  -- `p.X == q.X && p.Y == q.Y`
  abbrev pub same_point : CoordinateStruct F → CoordinateStruct F → Bool
  same_point p q = f.eq p.x q.x && f.eq p.y q.y

  -- The condition in the loop: the edge from `p` to `pj` crosses the ray from `point`.
  unfoldable pub crosses : CoordinateStruct F → CoordinateStruct F → CoordinateStruct F → Bool
  unfolding xor
  crosses point p pj =
      xor (f.lt point.y p.y) (f.lt point.y pj.y)
      && f.lt point.x
          (f.add (f.div (f.mul (f.sub pj.x p.x) (f.sub point.y p.y)) (f.sub pj.y p.y)) p.x)

  -- `polygon[j]`, where `j` is the next index, or 0 behind the last.
  abbrev pub next_vertex : CoordinateStruct F → List (CoordinateStruct F) → CoordinateStruct F
  next_vertex first [] = first
  next_vertex first (p ∷ ps) = p

  -- The loop over the vertices, `first` being `polygon[0]`.
  unfoldable pub ray_cast :
      CoordinateStruct F → CoordinateStruct F → List (CoordinateStruct F) → Bool → Bool
  unfolding crosses
  ray_cast point first [] inside = inside
  ray_cast point first (p ∷ ps) inside =
      ray_cast point first ps
        (if crosses point p (next_vertex first ps) then not inside else inside)

  abbrev pub cast_from : CoordinateStruct F → List (CoordinateStruct F) → Bool
  cast_from point [] = false
  cast_from point (p ∷ ps) = ray_cast point p (p ∷ ps) false

  unfoldable pub is_point_in_polygon : CoordinateStruct F → List (CoordinateStruct F) → Bool
  unfolding ray_cast contains_func
  is_point_in_polygon point polygon =
      if contains_func polygon (λ p. same_point p point) then true else cast_from point polygon
