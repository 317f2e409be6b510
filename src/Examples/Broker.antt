-- ===== src/Examples/Broker.antt =====
-- A broker in memory that the laws hold of, and runs of the live lines handler on it.
use runner_io.Common.{
  ◌≡◌, refl, true, List, [], ◌∷◌, ◌++◌, Option, none, some, String, str_eq, eq_iff, if◌then◌else◌,
  All, All-append, arith,
}
use runner_io.Common.Int.{pos}
use runner_io.Float64.Fixed.{Fixed}
use runner_io.Dto.Schema.{RunnerLiveLinesSchemaRequest, to_runner_live_lines_schema}
use mathlib.Core.List.{Mem}
use mathlib.Core.List.Perm
use runner_io.Common.{◌⊎◌, inl, inr}
use runner_io.Common.Map.{Map}
use runner_io.Common.Result.{ok}
use runner_io.Dto.Schema.{LiveLinesData, PolygonData, RunnerResponse}
use runner_io.Float64.Fixed.{fixed_float, Fixed-IsComparable}
use runner_io.Services.RemovePoints.{point_of}
use runner_io.Services.RemovePoints.Outside.{IsOutside}
use runner_io.Services.CleanPolygons.Eaten.{runners}
use runner_io.Services.RunProcessor.{
  Bson, get_live_lines_data_from_mongo, get_polygon_data_from_mongo, run_processor_on_group,
}
use runner_io.Services.RunProcessor.Delivery.{IsDelivered, run_processor_on_group_lem}
use runner_io.Examples.{line, large}
use runner_io.Ws.AuditClients.{PersistAuditDataClient}
use runner_io.Amqp.{
  new_amqp_config, Channel, publish_with_context, declare_and_bind_queue, live_lines_queue_name,
}
use runner_io.Common.Exit.{returned, ◌>>=◌}
use runner_io.Config.{get_dot_env_variable}
use runner_io.Amqp.Connect.{connect, default_amqp_config, default_amqp_config-sent, HasSent}
use runner_io.Amqp.Delivery.{
  Request, exchange_declared, queue_declared, queue_bound, published, IsSending,
  publication_requests, publish_with_context_lem,
}
use runner_io.Api.PutOnQueue.{Json, Frame, Connection, round}
use runner_io.Api.PutOnQueue.Upgrade.{UserDecoder, put_on_queue, put_on_queue-IsKept}
use runner_io.Api.PutOnQueue.Audit.{publication, IsKept, round-repeats}

-- The broker keeps the requests that it is sent.
pub record Broker : Type 0 where
  pub requests : List (Request String)

abbrev pub send : Request String → Broker → Broker × Option String
send r s = (record { requests = s.requests ++ r ∷ [] }, none)

abbrev pub memory_channel : Channel String Broker
memory_channel = record {
  exchange_declare = λ e nw. send (exchange_declared e nw);
  queue_declare = λ q nw. send (queue_declared q nw);
  queue_bind = λ q k e nw. send (queue_bound q k e nw);
  publish = λ e k m b. send (published e k m b);
}

abbrev pub memory-IsSending : IsSending memory_channel
memory-IsSending = record {
  sent = λ s. s.requests;
  exchange-sent = λ e nw s fine. refl;
  declare-sent = λ q nw s fine. refl;
  bind-sent = λ q k e nw s fine. refl;
  publish-sent = λ e k m b s fine. refl;
}

abbrev pub empty_broker : Broker
empty_broker = record { requests = [] }

abbrev pub request_of : String → RunnerLiveLinesSchemaRequest Fixed
request_of group = record { x = some (pos 1); y = some (pos 2); time = pos 3; group_code = group }

-- A message is a group; "{" does not parse. A line is written as its sender.
abbrev pub small_json : Json String Fixed
small_json = record {
  unmarshal =
      λ message r. if str_eq message "{" then (r, some "syntax") else (request_of message, none);
  marshal = λ l. (l.sender, none);
}

abbrev pub start : Connection Fixed Broker
start = record {
  request_data = request_of "runners";
  manager = [];
  broker = empty_broker;
  statuses = [];
}

abbrev pub frame : String → Frame String
frame message = record { message = message; reply_is_written = true }

abbrev client : PersistAuditDataClient
client = record { conn = 1; sub = "ann" }

-- All the messages that were published are from "ann".
abbrev IsBy : Request String → Type 0
IsBy (published e k m b) = b ≡ "ann"
IsBy (exchange_declared e nw) = Unit
IsBy (queue_declared q nw) = Unit
IsBy (queue_bound q k e nw) = Unit

abbrev IsFromAnn : Broker → Type 0
IsFromAnn s = All IsBy s.requests

pub fine :
    (b : String) (s : Broker)
    → (publish_with_context memory_channel b live_lines_queue_name true s).1 ≡ none
unfolding publish_with_context declare_and_bind_queue
fine b s = refl

IsFromAnn-IsKept : IsKept small_json memory_channel "ann" IsFromAnn
IsFromAnn-IsKept line s sender group all =
    rw
      (publish_with_context_lem memory_channel memory-IsSending line.sender live_lines_queue_name s
        (fine line.sender s))
      (All-append _ s.requests (publication_requests live_lines_queue_name line.sender) all
        (tt, (tt, (sender, tt))))

-- The header is the user's name here.
abbrev user_of : UserDecoder
user_of header =
    (record { nickname = ""; name = header; picture = ""; updated_at = ""; sub = header }, none)

put_on_queue-IsKept_example :
    IsFromAnn
      (put_on_queue small_json memory_channel user_of 1 "ann"
        (some (frame "runners" ∷ frame "{" ∷ frame "" ∷ []))
        start).0.broker
put_on_queue-IsKept_example =
    put_on_queue-IsKept small_json memory_channel user_of IsFromAnn 1 "ann"
      (some (frame "runners" ∷ frame "{" ∷ frame "" ∷ [])) start IsFromAnn-IsKept tt

round-repeats_example :
    (round small_json memory_channel "ann" (frame "{") start).0.broker
    ≡ publication small_json memory_channel "ann"
        (to_runner_live_lines_schema (request_of "runners") "ann")
        empty_broker
round-repeats_example =
    round-repeats small_json memory_channel "ann" (frame "{") start "syntax" refl
      (λ e. ground (arith, eq_iff "runners" ""))

-- Documents that are the data themselves.
abbrev small_mongo :
    Bson (LiveLinesData Fixed ⊎ PolygonData Fixed) (LiveLinesData Fixed ⊎ PolygonData Fixed) Fixed
small_mongo = record {
  find = λ collection field value.
      if str_eq collection "runner_polygon"
      then ok (inr large ∷ [])
      else ok (inl (line "bob" 7 7 6) ∷ []);
  to_json = λ d. some d;
  live_line = λ d. elim d [ inl l ↦ some l | inr p ↦ none ];
  polygon = λ d. elim d [ inl l ↦ none | inr p ↦ some p ];
}

abbrev small_marshal : RunnerResponse Fixed → Option String
small_marshal r = some "response"

abbrev in_place : Map (List (List (LiveLinesData Fixed))) → Map (List (List (LiveLinesData Fixed)))
in_place m = m

run_processor_on_group_lem_example :
    (r : RunnerResponse Fixed) × (result : Option String × Broker) × (run_processor_on_group
        small_mongo small_marshal memory_channel in_place "runners" empty_broker
      ≡ some result)
    × IsDelivered small_mongo small_marshal memory_channel in_place
        (λ m. Perm.refl m)
        Fixed-IsComparable
        memory-IsSending
        "runners"
        (small_marshal r)
        empty_broker
        result
    × All (λ l. IsOutside r.polygons (point_of l)) r.live_lines
    × All (λ p. Mem p.runner (runners r.polygons)) (large ∷ [])
unfolding get_live_lines_data_from_mongo get_polygon_data_from_mongo
run_processor_on_group_lem_example =
    run_processor_on_group_lem small_mongo small_marshal memory_channel in_place (λ m. Perm.refl m)
      Fixed-IsComparable memory-IsSending "runners" (line "bob" 7 7 6 ∷ []) (large ∷ [])
      empty_broker refl refl

-- The broker at the start of the server.
abbrev started : Broker
started = (new_amqp_config memory_channel empty_broker).0

started_run :
    default_amqp_config memory_channel
      (λ host. some empty_broker)
      (λ s. some s)
      (some (λ key. "amqp://localhost"))
    ≡ returned started
unfolding default_amqp_config connect get_dot_env_variable ◌>>=◌ new_amqp_config
started_run = refl

default_amqp_config-sent_example :
    HasSent memory_channel (λ host. some empty_broker) (λ s. some s) memory-IsSending started
default_amqp_config-sent_example =
    default_amqp_config-sent memory_channel (λ host. some empty_broker) (λ s. some s)
      memory-IsSending (some (λ key. "amqp://localhost")) started started_run
