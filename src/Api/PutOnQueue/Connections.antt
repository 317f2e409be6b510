-- ===== src/Api/PutOnQueue/Connections.antt =====
-- The handlers of persist_audit_data_handler.go that run at the same time, one for each connection, on
-- one manager and one broker.
use runner_io.Common.{ℕ, Bool, ◌≡◌, ◌≢◌, List, [], ◌∷◌, ◌++◌, Option, map}
use runner_io.Dto.Schema.{RunnerLiveLinesSchemaRequest, to_runner_live_lines_schema}
use runner_io.Ws.AuditClients.{
  PersistAuditDataClient, PersistAuditDataManagerMap, new_persist_audit_data_manager_map, add, get,
  remove_client,
}
use runner_io.Amqp.{Channel}
use runner_io.Api.PutOnQueue.{Json, Connection, read_message, publish_line, reply}

-- Where a handler is in its loop: before a read, behind a publication, or with the client that it replies
-- to.
pub data Phase : Type 0 where
  reading : Phase
  published : Phase
  found : Option PersistAuditDataClient → Phase

pub record Running (F : Type 0) : Type 0 where
  pub client : PersistAuditDataClient
  pub request_data : RunnerLiveLinesSchemaRequest F
  pub statuses : List ℕ
  pub phase : Phase

pub record Server (F S : Type 0) : Type 0 where
  pub manager : PersistAuditDataManagerMap
  pub broker : S
  pub running : List (Running F)

abbrev pub clients : {F : Type 0} → List (Running F) → List PersistAuditDataClient
clients = map λ r. r.client

module _ {F S : Type 0} where
  -- What a handler sees.
  abbrev pub connection : Server F S → Running F → Connection F S
  connection v r = record {
    request_data = r.request_data;
    manager = v.manager;
    broker = v.broker;
    statuses = r.statuses;
  }

  abbrev pub in_phase : PersistAuditDataClient → Connection F S → Phase → Running F
  in_phase client k phase = record {
    client = client;
    request_data = k.request_data;
    statuses = k.statuses;
    phase = phase;
  }

  abbrev pub started : S → Server F S
  started s = record { manager = new_persist_audit_data_manager_map; broker = s; running = [] }

-- A handler reads and publishes, gets the client for the reply, and replies; between these, others run.
-- It ends where its read fails, where a request has no group, and where a call panics, as a write on a
-- connection that was not upgraded does; `blank` is the zero value that `requestData` begins with.
pub data Step {B F S : Type 0} (json : Json B F) (c : Channel B S)
    (blank : RunnerLiveLinesSchemaRequest F) : Server F S → Server F S → Type 0 where
  connects :
      (v : Server F S) (client : PersistAuditDataClient) (statuses : List ℕ)
      → Step json c blank v (record v {
        manager = add client.sub client v.manager;
        running =
            record { client = client; request_data = blank; statuses = statuses; phase = reading }
            ∷ v.running;
      })
  publishes :
      (v : Server F S) (before : List (Running F)) (r : Running F) (after : List (Running F))
      (message : B) (k : Connection F S)
      → v.running ≡ before ++ r ∷ after
      → r.phase ≡ reading
      → k ≡ read_message json c r.client.sub message (connection v r)
      → k.request_data.group_code ≢ ""
      → (k' : Connection F S)
      → k'
        ≡ publish_line json c r.client.sub
            (to_runner_live_lines_schema k.request_data r.client.sub)
            k
      → Step json c blank v (record v {
        broker = k'.broker;
        running = before ++ in_phase r.client k' published ∷ after;
      })
  looks_up :
      (v : Server F S) (before : List (Running F)) (r : Running F) (after : List (Running F))
      → v.running ≡ before ++ r ∷ after
      → r.phase ≡ published
      → Step json c blank v (record v {
        running =
            before
            ++ in_phase r.client (connection v r) (found (get r.client.sub v.manager)) ∷ after;
      })
  replies :
      (v : Server F S) (before : List (Running F)) (r : Running F) (after : List (Running F))
      (o : Option PersistAuditDataClient) (written : Bool)
      → v.running ≡ before ++ r ∷ after
      → r.phase ≡ found o
      → Step json c blank v (record v {
        manager = (reply o written (connection v r)).manager;
        running = before ++ in_phase r.client (reply o written (connection v r)) reading ∷ after;
      })
  leaves :
      (v : Server F S) (before : List (Running F)) (r : Running F) (after : List (Running F))
      → v.running ≡ before ++ r ∷ after
      → Step json c blank v
          (record v { manager = remove_client r.client v.manager; running = before ++ after })

pub data Reach {B F S : Type 0} (json : Json B F) (c : Channel B S)
    (blank : RunnerLiveLinesSchemaRequest F) (v : Server F S) : Server F S → Type 0 where
  here : Reach json c blank v v
  later :
      {w x : Server F S} → Reach json c blank v w → Step json c blank w x → Reach json c blank v x
