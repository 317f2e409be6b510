-- ===== src/Services/RunProcessor.antt =====
-- `getData` of internal/services/utils.go and `RunProcessorOnGroup` of run_processor.go. The MongoDB
-- and bson calls, encoding/json and the RabbitMQ client are parameters.
pub mod Delivery
use runner_io.Common.{true, List, [], ◌∷◌, Option, none, some, String, ◌>>=◌}
use runner_io.Common.Map.{Map}
use runner_io.Common.Result.{Result, ok, err}
use runner_io.Float64.{Float64}
use runner_io.Dto.Schema.{LiveLinesData, PolygonData, RunnerResponse}
use runner_io.Services.Distance.{group_config}
use runner_io.Services.ProcessData.{process_data}
use runner_io.Amqp.{Channel, publish_with_context}

abbrev pub runner_live_lines_collection : String
runner_live_lines_collection = "runner_live_lines"

abbrev pub runner_polygon_collection : String
runner_polygon_collection = "runner_polygon"

-- The calls on documents: `D` is a raw document, `J` its extended JSON.
pub record Bson (D J : Type 0) (F : Type 0) : Type 0 where
  -- the collection, the field and its value
  pub find : String → String → String → Result String (List D)
  -- `cursor.Decode` and `bson.MarshalExtJSON`
  pub to_json : D → Option J
  -- `bson.UnmarshalExtJSON`, of the field `data`
  pub live_line : J → Option (LiveLinesData F)
  pub polygon : J → Option (PolygonData F)

module _ {D A : Type 0} (read : D → Option A) where
  abbrev pub append_read : Option A → List A → List A
  append_read none rest = rest
  append_read (some a) rest = a ∷ rest

  -- The loop over the cursor: a document that cannot be read is passed over.
  unfoldable pub read_all : List D → List A
  read_all [] = []
  read_all (d ∷ ds) = append_read (read d) (read_all ds)

  unfoldable pub get_data : Result String (List D) → Result String (List A)
  unfolding read_all
  get_data (err e) = err e
  get_data (ok ds) = ok (read_all ds)

module _ {D J F : Type 0} (mongo : Bson D J F) where
  unfoldable pub get_live_lines_data_from_mongo : String → Result String (List (LiveLinesData F))
  unfolding get_data
  get_live_lines_data_from_mongo group_code =
      get_data (λ d. mongo.to_json d >>= mongo.live_line)
        (mongo.find runner_live_lines_collection "group_code" group_code)

  unfoldable pub get_polygon_data_from_mongo : String → Result String (List (PolygonData F))
  unfolding get_data
  get_polygon_data_from_mongo group_code =
      get_data (λ d. mongo.to_json d >>= mongo.polygon)
        (mongo.find runner_polygon_collection "group_code" group_code)

module _ {B S : Type 0} (c : Channel B S) where
  -- What is returned, `some` being an error, and the broker. The error of the publication is dropped.
  unfoldable pub publish_response : String → Option B → S → Option String × S
  unfolding publish_with_context
  publish_response group_code none s = (some "Failed to marshal data", s)
  publish_response group_code (some body) s =
      (none, (publish_with_context c body group_code true s).0)

module _ {F : Type 0} where
  abbrev pub response : List (LiveLinesData F) × List (PolygonData F) → RunnerResponse F
  response processed = record { polygons = processed.1; live_lines = processed.0 }

module _ {D J F B S : Type 0} ⦃f : Float64 F⦄ (mongo : Bson D J F)
    (marshal : RunnerResponse F → Option B) (c : Channel B S)
    (range_order : Map (List (List (LiveLinesData F))) → Map (List (List (LiveLinesData F)))) where
  -- Behind the reads; `none` is a panic.
  unfoldable pub run_on :
      String
      → Result String (List (LiveLinesData F))
      → Result String (List (PolygonData F))
      → S
      → Option (Option String × S)
  unfolding process_data publish_response group_config
  run_on group_code (err e) polygons s = some (some "Failed to get live lines data from mongo", s)
  run_on group_code (ok lines) (err e) s = some (some "Failed to get polygon data from mongo", s)
  run_on group_code (ok lines) (ok polygons) s =
      process_data range_order lines polygons group_config >>= λ processed.
      some (publish_response c group_code (marshal (response processed)) s)

  unfoldable pub run_processor_on_group : String → S → Option (Option String × S)
  unfolding run_on get_live_lines_data_from_mongo get_polygon_data_from_mongo
  run_processor_on_group group_code s =
      run_on group_code (get_live_lines_data_from_mongo mongo group_code)
        (get_polygon_data_from_mongo mongo group_code) s
