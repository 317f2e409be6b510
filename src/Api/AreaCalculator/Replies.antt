-- ===== src/Api/AreaCalculator/Replies.antt =====
-- What the handler for areas replies, from the documents on.
use runner_io.Common.{◌≡◌, List, [], ◌∷◌, ◌++◌, none, some, String, ◌>>=◌}
use runner_io.Common.Map.{Map, lookup}
use runner_io.Common.Result.{Result, ok, err}
use runner_io.Float64.{Float64}
use runner_io.Dto.Schema.{PolygonData}
use runner_io.Services.RunProcessor.{Bson, read_all}
use runner_io.Services.Area.Totals.{sum_areas, polygons_of}
use runner_io.Api.AreaCalculator.{Told, aborted_with_error, json, error_of, areas_of, fail_if_error}

module _ {D J F : Type 0} ⦃f : Float64 F⦄ (mongo : Bson D J F) where
  -- The polygons of the documents that can be read.
  abbrev pub polygons_in : List D → List (PolygonData F)
  polygons_in ds = read_all (λ d. mongo.to_json d >>= mongo.polygon) ds

  -- One call of `JSON` with the areas of the users, or, where the documents cannot be found, a status
  -- 500 and behind it a call with the nil map.
  abbrev pub Answers : Result String (List D) → List (Told F) → Type 0
  Answers (err e) told = told ≡ aborted_with_error 500 ∷ json 202 none ∷ []
  Answers (ok ds) told =
      (areas : Map F) × (told ≡ json 202 (some areas) ∷ [])
      × ((s : String) → lookup s areas ≡ sum_areas none (polygons_of s (polygons_in ds)))

  tells : Result String (Map F) → List (Told F)
  unfolding fail_if_error
  tells r = fail_if_error (error_of r) 500 ++ json 202 (areas_of r) ∷ []
