-- ===== src/Services/SortPoints/Nearest.antt =====
-- The inner loop of `sortPointsByDistance` finds a nearest unvisited point.
use runner_io.Common.{ℕ, suc, ◌≡◌, subst, Bool, true, false, List, [], ◌∷◌, none, some, arith, All}
use runner_io.Float64.{Float64, IsOrdered}
use runner_io.Dto.Schema.{CoordinateStruct}
use runner_io.Services.SortPoints.{Best, far_away, closer, metres, nearest}
use runner_io.Services.SortPoints.Order.{unvisited, IsOpen, nearest-IsOpen}

module _ {ℓ} {F : Type ℓ} ⦃f : Float64 F⦄ (laws : IsOrdered F) (start : CoordinateStruct F) where
  -- `d` is not further than what was best before.
  not_further :
      (i : ℕ) (ps : List (CoordinateStruct F)) (vs : List Bool) (best : Best F) (d : F)
      → f.lt d best.0 ≡ false
      → f.lt d (nearest start i ps vs best).0 ≡ false
  unfolding nearest
  not_further i [] vs best d h = h
  not_further i (p ∷ ps) [] best d h = h
  not_further i (p ∷ ps) (true ∷ vs) best d h = not_further (suc i) ps vs best d h
  not_further i (p ∷ ps) (false ∷ vs) best d h =
      not_further (suc i) ps vs (closer (metres start p) i best) d
        (ground (arith, laws.lt_trans d (metres start p) best.0))

  not_further-closer : (i : ℕ) (best : Best F) (d : F) → f.lt d (closer d i best).0 ≡ false
  not_further-closer i best d = ground (arith, laws.lt_asymm d d)

  -- No unvisited point is nearer to the start than the distance that the inner loop ends with.
  none_nearer :
      (i : ℕ) (ps : List (CoordinateStruct F)) (vs : List Bool) (best : Best F)
      → All (λ q. f.lt (metres start q) (nearest start i ps vs best).0 ≡ false) (unvisited ps vs)
  unfolding nearest
  none_nearer i [] vs best = tt
  none_nearer i (p ∷ ps) [] best = tt
  none_nearer i (p ∷ ps) (true ∷ vs) best = none_nearer (suc i) ps vs best
  none_nearer i (p ∷ ps) (false ∷ vs) best = (
    not_further (suc i) ps vs (closer (metres start p) i best) (metres start p)
        (not_further-closer i best (metres start p)),
    none_nearer (suc i) ps vs (closer (metres start p) i best),
  )

  -- For an order of numbers as in IEEE 754: where the inner loop of a round returns an index, it
  -- is that of an unvisited point, and no unvisited point is nearer to the start.
  pub nearest_lem :
      (ps : List (CoordinateStruct F)) (vs : List Bool) {p : ℕ}
      → (nearest start 0 ps vs (far_away, none)).1 ≡ some p
      → (q : CoordinateStruct F) × IsOpen ps vs p q
        × All (λ r. f.lt (metres start r) (metres start q) ≡ false) (unvisited ps vs)
  nearest_lem ps vs e =
      let (q, open_at, found) = nearest-IsOpen start ps vs e in
      (
        q,
        open_at,
        subst (λ d. All (λ r. f.lt (metres start r) d ≡ false) (unvisited ps vs)) found
            (none_nearer 0 ps vs (far_away, none)),
      )
