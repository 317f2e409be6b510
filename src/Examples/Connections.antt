-- ===== src/Examples/Connections.antt =====
-- Two users send points at the same time.
use runner_io.Common.{◌≢◌, refl, [], ◌∷◌, eq_iff, arith, All}
use runner_io.Float64.Fixed.{Fixed}
use runner_io.Dto.Schema.{to_runner_live_lines_schema}
use runner_io.Ws.AuditClients.{PersistAuditDataClient, new_persist_audit_data_manager_map, add, get}
use runner_io.Api.PutOnQueue.{Connection, read_message, publish_line}
use runner_io.Api.PutOnQueue.Connections.{
  reading, published, found, Running, Server, connection, in_phase, clients, started, Reach, here,
  later, connects, publishes, looks_up,
}
use runner_io.Api.PutOnQueue.Replies.{AreOpen, RepliesTo, Reach-RepliesTo}
use runner_io.Examples.Broker.{Broker, empty_broker, memory_channel, small_json, request_of}

abbrev ann : PersistAuditDataClient
ann = record { conn = 1; sub = "ann" }

abbrev bob : PersistAuditDataClient
bob = record { conn = 2; sub = "bob" }

abbrev idle : PersistAuditDataClient → Running Fixed
idle client = record {
  client = client;
  request_data = request_of "";
  statuses = [];
  phase = reading;
}

abbrev both : Server Fixed Broker
both = record {
  manager = add "ann" ann (add "bob" bob new_persist_audit_data_manager_map);
  broker = empty_broker;
  running = idle ann ∷ idle bob ∷ [];
}

abbrev heard : Connection Fixed Broker
heard = read_message small_json memory_channel "ann" "runners" (connection both (idle ann))

abbrev sent : Connection Fixed Broker
sent =
    publish_line small_json memory_channel "ann"
      (to_runner_live_lines_schema heard.request_data "ann") heard

abbrev behind : Server Fixed Broker
behind = record {
  manager = both.manager;
  broker = sent.broker;
  running = in_phase ann sent published ∷ idle bob ∷ [];
}

abbrev answering : Server Fixed Broker
answering = record {
  manager = both.manager;
  broker = sent.broker;
  running =
      in_phase ann (connection behind (in_phase ann sent published))
        (found (get "ann" both.manager))
      ∷ idle bob
      ∷ [];
}

some_group : heard.request_data.group_code ≢ ""
unfolding read_message
some_group e = ground (arith, eq_iff "runners" "")

run : Reach small_json memory_channel (request_of "") (started empty_broker) answering
run =
    later
      (later (later (later here (connects (started empty_broker) bob [])) (connects _ ann [])) (
        publishes both [] (idle ann) (idle bob ∷ []) "runners" heard refl refl refl some_group sent
          refl))
      (looks_up behind [] (in_phase ann sent published) (idle bob ∷ []) refl refl)

Reach-RepliesTo_example :
    AreOpen (clients answering.running) answering.manager
    × All (λ r. RepliesTo r.phase r.client.sub) answering.running
Reach-RepliesTo_example =
    Reach-RepliesTo small_json memory_channel (request_of "") empty_broker answering run
