-- ===== src/Examples/Flow.antt =====
-- One point on its way into the database, on a broker in memory and a database without polygons.
use mathlib.Core.List.Perm
use runner_io.Common.{
  ◌≡◌, ◌≢◌, refl, List, [], ◌∷◌, ◌++◌, none, some, String, str_eq, eq_iff, arith, if◌then◌else◌,
}
use runner_io.Common.Result.{ok, err}
use runner_io.Float64.Fixed.{Fixed, fixed_float, Fixed-IsComparable}
use runner_io.Dto.Schema.{LiveLinesData, to_runner_live_lines_schema}
use runner_io.Amqp.{live_lines_queue_name}
use runner_io.Amqp.Delivery.{publication_requests}
use runner_io.Api.PutOnQueue.{round}
use runner_io.Services.RunProcessor.{Bson}
use runner_io.Services.Consumer.{between, Consumer, Calls, on_message}
use runner_io.Flow.{sent_line-inserted}
use runner_io.Examples.{line}
use runner_io.Examples.Broker.{
  Broker, empty_broker, memory_channel, memory-IsSending, small_json, request_of, start, frame,
  fine,
}

abbrev sent : LiveLinesData Fixed
sent = to_runner_live_lines_schema (request_of "runners") "ann"

abbrev lines_only :
    List (LiveLinesData Fixed) → Bson (LiveLinesData Fixed) (LiveLinesData Fixed) Fixed
lines_only database = record {
  find = λ collection field value.
      if str_eq collection "runner_polygon" then err "no connection" else ok database;
  to_json = λ d. some d;
  live_line = λ d. some d;
  polygon = λ d. none;
}

-- A message is read as a line of its sender.
abbrev reading_calls :
    Calls String
      (LiveLinesData Fixed)
      (LiveLinesData Fixed)
      Fixed
      String
      (List (LiveLinesData Fixed))
      Broker
reading_calls = record {
  unmarshal = λ d l. (to_runner_live_lines_schema (request_of "runners") d, none);
  insert_one = λ l database. (database ++ l ∷ [], none);
  mongo = lines_only;
  marshal = λ r. some "response";
  channel = memory_channel;
  ack = λ d s. (s, none);
}

abbrev waiting : Consumer String Fixed (List (LiveLinesData Fixed)) Broker
waiting = record { line = line "" 0 0 0; database = []; broker = empty_broker; acks = [] }

some_group : (request_of "runners").group_code ≢ ""
some_group e = ground (arith, eq_iff "runners" "")

sent_line-inserted_example :
    (body : String) × ((round small_json memory_channel "ann"
        (frame "runners")
        start).0.broker.requests
      ≡ publication_requests live_lines_queue_name body)
    × (l' : Consumer String Fixed (List (LiveLinesData Fixed)) Broker) × (on_message reading_calls
          (λ m. m)
          body
          between
          waiting
        ≡ some l')
    × (l'.database ≡ sent ∷ [])
unfolding to_runner_live_lines_schema
sent_line-inserted_example =
    sent_line-inserted small_json memory_channel memory-IsSending reading_calls (λ m. m)
      (λ m. Perm.refl m) Fixed-IsComparable "ann" (frame "runners") start (request_of "runners")
      between waiting refl some_group (fine "ann" empty_broker) refl
