-- ===== src/Services/Area/Totals.antt =====
-- The area of a user is the sum over the user's polygons, in order.
use mathlib.Core.Bool.{not}
use runner_io.Common.{
  ◌≡◌, refl, ◌∙◌, List, [], ◌∷◌, Option, none, some, String, str_eq, eq_iff, if◌then◌else◌, arith,
  Bool-cases, Option-cases, inl, inr, delete_func,
}
use runner_io.Common.Map.{Map, lookup, lookup-insert}
use runner_io.Common.Result.{ok}
use runner_io.Float64.{Float64}
use runner_io.Dto.Schema.{PolygonData}
use runner_io.Services.Area.{get_polygon_area, add_area, add_areas, area_processor}

module _ {ℓ} {F : Type ℓ} ⦃f : Float64 F⦄ where
  abbrev pub polygons_of : String → List (PolygonData F) → List (PolygonData F)
  polygons_of s ps = delete_func ps λ p. not (str_eq p.runner s)

  -- A sum of areas that begins with `total`, or, where that is `none`, with the first area.
  abbrev pub plus_area : Option F → F → F
  plus_area none area = area
  plus_area (some total) area = f.add total area

  abbrev pub sum_areas : Option F → List (PolygonData F) → Option F
  sum_areas total [] = total
  sum_areas total (p ∷ ps) = sum_areas (some (plus_area total (get_polygon_area p.coords))) ps

  lookup-add_area :
      (s : String) (areas : Map F) (p : PolygonData F)
      → lookup s (add_area areas p) ≡ (
          if str_eq p.runner s
          then some (plus_area (lookup s areas) (get_polygon_area p.coords))
          else lookup s areas)
  unfolding add_area
  lookup-add_area s areas p =
      let area = get_polygon_area p.coords in
      elim (Option-cases (lookup p.runner areas)) [
        | inl new ↦ ground (arith, eq_iff p.runner s, lookup-insert p.runner s area areas)
        | inr (old, found) ↦
            ground (arith, eq_iff p.runner s, lookup-insert p.runner s (f.add old area) areas)
      ]

  lookup-add_areas :
      (s : String) (areas : Map F) (ps : List (PolygonData F))
      → lookup s (add_areas areas ps) ≡ sum_areas (lookup s areas) (polygons_of s ps)
  unfolding add_areas delete_func
  lookup-add_areas s areas [] = refl
  lookup-add_areas s areas (p ∷ ps) =
      lookup-add_areas s (add_area areas p) ps ∙ elim (Bool-cases (str_eq p.runner s)) [
        | inl same ↦ rw (lookup-add_area s areas p, same)
        | inr other ↦ rw (lookup-add_area s areas p, other)
      ]

  -- On polygons that were read, `AreaProcessor` returns a map in which the area of a user is the
  -- sum of the areas of the user's polygons, added in their order; a user with no polygon has no
  -- entry.
  pub area_processor_lem {κ} :
      {E : Type κ} (ps : List (PolygonData F))
      → (areas : Map F) × (area_processor {E = E} (ok ps) ≡ ok areas)
        × ((s : String) → lookup s areas ≡ sum_areas none (polygons_of s ps))
  unfolding area_processor lookup
  area_processor_lem ps = (add_areas [] ps, refl, λ s. lookup-add_areas s [] ps)
