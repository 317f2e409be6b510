-- ===== src/Services/Consumer.antt =====
-- internal/services/live_lines.go: PersistAuditData, on the messages that the channel delivers.
pub mod Acks
use runner_io.Common.{List, [], ◌∷◌, ◌++◌, Option, none, some, ◌>>=◌}
use runner_io.Common.Map.{Map}
use runner_io.Common.{String}
use runner_io.Float64.{Float64}
use runner_io.Dto.Schema.{LiveLinesData, PolygonData, RunnerResponse}
use runner_io.Services.RunProcessor.{
  Bson, get_live_lines_data_from_mongo, get_polygon_data_from_mongo, run_on, run_processor_on_group,
}
use runner_io.Amqp.{Call, Channel}

-- When the one goroutine inserts: before the reads of the other one, between them, or behind them.
pub data Turn : Type 0 where
  before : Turn
  between : Turn
  behind : Turn

-- What the consumer keeps: the variable `data`, the database, the broker, and the messages that it has
-- called `Ack` for, each with the error that the call reported.
pub record Consumer (M F DB S : Type 0) : Type 0 where
  pub line : LiveLinesData F
  pub database : DB
  pub broker : S
  pub acks : List (M × Option String)

-- The calls of the libraries: `json.Unmarshal` into the variable, `InsertOne`, the calls of
-- `RunProcessorOnGroup` in a state of the database, and `Ack`. `M` is a message.
pub record Calls (M D J F B DB S : Type 0) : Type 0 where
  pub unmarshal : M → LiveLinesData F → LiveLinesData F × Option String
  pub insert_one : LiveLinesData F → DB → DB × Option String
  pub mongo : DB → Bson D J F
  pub marshal : RunnerResponse F → Option B
  pub channel : Channel B S
  pub ack : M → Call S

module _ {M D J F B DB S : Type 0} ⦃f : Float64 F⦄ (calls : Calls M D J F B DB S)
    (range_order : Map (List (List (LiveLinesData F))) → Map (List (List (LiveLinesData F)))) where
  -- The goroutine that inserts; its error is only logged.
  unfoldable pub insert_line : Consumer M F DB S → Consumer M F DB S
  insert_line k = record {
    line = k.line;
    database = (calls.insert_one k.line k.database).0;
    broker = k.broker;
    acks = k.acks;
  }

  abbrev pub with_broker_of : Consumer M F DB S → Option String × S → Consumer M F DB S
  with_broker_of k r = record { line = k.line; database = k.database; broker = r.1; acks = k.acks }

  -- The goroutine that runs the processor; what it returns is dropped. `none` is a panic.
  unfoldable pub run_group : Consumer M F DB S → Option (Consumer M F DB S)
  unfolding run_processor_on_group
  run_group k =
      run_processor_on_group (calls.mongo k.database) calls.marshal calls.channel range_order
        k.line.group_code k.broker
      >>= λ r. some (with_broker_of k r)

  -- The insertion comes between the two reads of `RunProcessorOnGroup`.
  unfoldable pub run_around : Consumer M F DB S → Option (Consumer M F DB S)
  unfolding run_on insert_line get_live_lines_data_from_mongo get_polygon_data_from_mongo
  run_around k =
      let inserted = insert_line k in
      run_on (calls.mongo k.database) calls.marshal calls.channel range_order k.line.group_code
        (get_live_lines_data_from_mongo (calls.mongo k.database) k.line.group_code)
        (get_polygon_data_from_mongo (calls.mongo inserted.database) k.line.group_code) k.broker
      >>= λ r. some (with_broker_of inserted r)

  -- Both goroutines.
  unfoldable pub run_both : Turn → Consumer M F DB S → Option (Consumer M F DB S)
  unfolding insert_line run_group run_around
  run_both before k = run_group (insert_line k)
  run_both between k = run_around k
  run_both behind k = run_group k >>= λ k'. some (insert_line k')

  -- `Ack`; an error of it is only logged.
  abbrev pub acked_by : M → Consumer M F DB S → Consumer M F DB S
  acked_by d k =
      let (s, e) = calls.ack d k.broker in
      record { line = k.line; database = k.database; broker = s; acks = k.acks ++ (d, e) ∷ [] }

  abbrev pub with_line : LiveLinesData F → Consumer M F DB S → Consumer M F DB S
  with_line l k = record { line = l; database = k.database; broker = k.broker; acks = k.acks }

  -- Behind the unmarshalling of a message: one with an error is passed over.
  unfoldable pub on_line : M → Turn → Option String → Consumer M F DB S → Option (Consumer M F DB S)
  unfolding run_both
  on_line d turn (some e) k = some k
  on_line d turn none k = run_both turn k >>= λ k'. some (acked_by d k')

  unfoldable pub on_message : M → Turn → Consumer M F DB S → Option (Consumer M F DB S)
  unfolding on_line
  on_message d turn k = let (l, e) = calls.unmarshal d k.line in on_line d turn e (with_line l k)

  -- The loop over the messages, each with the turn of its insertion.
  unfoldable pub persist_audit_data :
      List (M × Turn) → Consumer M F DB S → Option (Consumer M F DB S)
  unfolding on_message
  persist_audit_data [] k = some k
  persist_audit_data ((d, turn) ∷ messages) k =
      on_message d turn k >>= λ k'. persist_audit_data messages k'
