-- ===== src/Services/SortPoints.antt =====
-- internal/services/utils.go: `sortPointsByDistance`.
pub mod Order
pub mod Permutation
pub mod Nearest
use runner_io.Common.{
  ℕ, zero, suc, Bool, true, false, List, [], ◌∷◌, Option, none, some, if◌then◌else◌, length,
  get_elem?, set, replicate,
}
use runner_io.Float64.{Float64}
use runner_io.Dto.Schema.{CoordinateStruct}
use runner_io.Services.Distance.{distance}

-- `minDistance` and `p`, where `none` is -1
abbrev pub Best {ℓ} : Type ℓ → Type ℓ
Best F = F × Option ℕ

module _ {ℓ} {F : Type ℓ} ⦃f : Float64 F⦄ where
  -- The bound that `minDistance` starts from, 1e9 + 7.
  abbrev pub far_away : F
  far_away = f.literal 1_000_000_007 0

  abbrev pub closer : F → ℕ → Best F → Best F
  closer d i best = if f.lt d best.0 then (d, some i) else best

  abbrev pub metres : CoordinateStruct F → CoordinateStruct F → F
  metres start point = distance start.x start.y point.x point.y

  -- The inner loop, from index `i` on.
  unfoldable pub nearest :
      CoordinateStruct F → ℕ → List (CoordinateStruct F) → List Bool → Best F → Best F
  nearest start i (point ∷ points) (seen ∷ visited) best =
      nearest start (suc i) points visited
        (if seen then best else closer (metres start point) i best)
  nearest start i _ _ best = best

  -- The outer loop. `start` is the last of the sorted points, and what is returned comes behind
  -- it. The fuel is the number of rounds left.
  unfoldable pub visit :
      ℕ → List (CoordinateStruct F) → List Bool → CoordinateStruct F → List (CoordinateStruct F)
  unfolding nearest
  visit zero points visited start = []
  visit (suc fuel) points visited start =
      elim ((nearest start 0 points visited (far_away, none)).1) [
        | none ↦ []
        | some p ↦ elim (get_elem? points p) [
          | none ↦ []
          | some point ↦ point ∷ visit fuel points (set visited p true) point
        ]
      ]

  unfoldable pub sort_points_by_distance : List (CoordinateStruct F) → List (CoordinateStruct F)
  unfolding visit
  sort_points_by_distance (a ∷ b ∷ c ∷ ps) =
      a
      ∷ visit (length (a ∷ b ∷ c ∷ ps)) (a ∷ b ∷ c ∷ ps)
          (true ∷ replicate (length (b ∷ c ∷ ps)) false) a
  sort_points_by_distance points = points
