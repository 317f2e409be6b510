-- ===== src/Api/AreaCalculator.antt =====
-- internal/api/runner_group/area_calculator_group_handler.go. What the handler tells gin's context is a
-- list of calls, in their order.
pub mod Replies
use runner_io.Common.{ℕ, List, [], ◌∷◌, ◌++◌, Option, none, some, String}
use runner_io.Common.Map.{Map}
use runner_io.Common.Result.{Result, ok, err}
use runner_io.Float64.{Float64}
use runner_io.Services.Area.{area_processor}
use runner_io.Services.RunProcessor.{Bson, get_polygon_data_from_mongo}

-- `AbortWithError` with a status, and `JSON` with a status and a map; `none` is the nil map.
pub data Told (F : Type 0) : Type 0 where
  aborted_with_error : ℕ → Told F
  json : ℕ → Option (Map F) → Told F

module _ {F : Type 0} where
  abbrev pub error_of : Result String (Map F) → Option String
  error_of (ok areas) = none
  error_of (err e) = some e

  abbrev pub areas_of : Result String (Map F) → Option (Map F)
  areas_of (ok areas) = some areas
  areas_of (err e) = none

  -- FailIfError of internal/utils/misc.go, which does not end the handler.
  unfoldable pub fail_if_error : Option String → ℕ → List (Told F)
  fail_if_error none status = []
  fail_if_error (some e) status = aborted_with_error status ∷ []

module _ {D J F : Type 0} ⦃f : Float64 F⦄ (mongo : Bson D J F) where
  -- AreaProcessor of internal/services/area.go, with its read.
  unfoldable pub group_areas : String → Result String (Map F)
  unfolding area_processor get_polygon_data_from_mongo
  group_areas code = area_processor (get_polygon_data_from_mongo mongo code)

  unfoldable pub area_calculator_group_handler : String → List (Told F)
  unfolding group_areas fail_if_error
  area_calculator_group_handler code =
      fail_if_error (error_of (group_areas code)) 500 ++ json 202 (areas_of (group_areas code)) ∷ []
