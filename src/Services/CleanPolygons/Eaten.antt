-- ===== src/Services/CleanPolygons/Eaten.antt =====
-- The eating rounds of `cleanPolygons`: they always end, and change no runner.
use runner_io.Common.{
  ◌≡◌, refl, ap, ◌∙◌, List, [], ◌∷◌, ◌++◌, map, some, String, str_eq, Bool-cases, inl, inr,
}
use mathlib.Core.Path.{ap₂}
use mathlib.Core.List.{append_assoc, append-nil}
use runner_io.Float64.{Float64, IsComparable}
use runner_io.Dto.Schema.{PolygonData}
use runner_io.Services.EatPolygon.Survivors.{eat_polygon-IsEaten, IsEaten}
use runner_io.Services.CleanPolygons.{eat_by, eat_all}

module _ {ℓ} {F : Type ℓ} where
  abbrev pub runners : List (PolygonData F) → List String
  runners = map λ p. p.runner

module _ {ℓ} {F : Type ℓ} ⦃f : Float64 F⦄ (laws : IsComparable F) where
  IsEaten-runner : (p1 p2 r : PolygonData F) → IsEaten p1 p2 r → r.runner ≡ p1.runner
  IsEaten-runner p1 p2 r (inl h) = ap (λ p. p.runner) h.0
  IsEaten-runner p1 p2 r (inr h) = h.1

  eat_by-total :
      (polygon : PolygonData F) (cleaned : List (PolygonData F))
      → (r : PolygonData F) × (eat_by polygon cleaned ≡ some r) × (r.runner ≡ polygon.runner)
  unfolding eat_by
  eat_by-total polygon [] = (polygon, refl, refl)
  eat_by-total polygon (c ∷ cleaned) = elim (Bool-cases (str_eq polygon.runner c.runner)) [
    | inl own ↦ rw own (eat_by-total polygon cleaned)
    | inr other ↦
        let (p, eaten, kind) = eat_polygon-IsEaten laws polygon c in
        let (r, rest, same) = eat_by-total p cleaned in
        (r, rw (other, eaten) rest, same ∙ IsEaten-runner polygon c p kind)
  ]

  pub eat_all-total :
      (cleaned polygons : List (PolygonData F))
      → (rs : List (PolygonData F)) × (eat_all cleaned polygons ≡ some (cleaned ++ rs))
        × (runners rs ≡ runners polygons)
  unfolding eat_all
  eat_all-total cleaned [] = ([], rw (append-nil cleaned), refl)
  eat_all-total cleaned (polygon ∷ polygons) =
      let (p, eaten, same) = eat_by-total polygon cleaned in
      let (rs, rest, names) = eat_all-total (cleaned ++ p ∷ []) polygons in
      (p ∷ rs, rw eaten (rest ∙ ap some (append_assoc cleaned (p ∷ []) rs)), ap₂ ◌∷◌ same names)
