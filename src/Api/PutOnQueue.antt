-- ===== src/Api/PutOnQueue.antt =====
-- internal/api/runner_ws_group/persist_audit_data_handler.go, from the upgraded connection on. The
-- encoding/json calls and the RabbitMQ client are parameters. The frames are those that the
-- connection gives before its read fails, each with whether the write of the reply succeeds.
pub mod Audit
pub mod Upgrade
pub mod Connections
pub mod Replies
use runner_io.Common.{
  ℕ, Bool, true, false, List, [], ◌∷◌, ◌++◌, Option, none, some, String, str_eq, if◌then◌else◌,
}
use runner_io.Dto.Schema.{RunnerLiveLinesSchemaRequest, LiveLinesData, to_runner_live_lines_schema}
use runner_io.Ws.AuditClients.{
  PersistAuditDataClient, PersistAuditDataManagerMap, add, get, remove_client,
}
use runner_io.Amqp.{Call, Channel, publish_with_context, live_lines_queue_name}

-- `json.Unmarshal` into a variable, and `json.Marshal`: each with an error, where there is one.
pub record Json (B : Type 0) (F : Type 0) : Type 0 where
  pub unmarshal :
      B → RunnerLiveLinesSchemaRequest F → RunnerLiveLinesSchemaRequest F × Option String
  pub marshal : LiveLinesData F → B × Option String

pub record Frame (B : Type 0) : Type 0 where
  pub message : B
  pub reply_is_written : Bool

-- What the handler keeps from frame to frame: the variable `requestData`, the manager, the
-- broker, and the statuses that it gave to the request.
pub record Connection (F : Type 0) (S : Type 0) : Type 0 where
  pub request_data : RunnerLiveLinesSchemaRequest F
  pub manager : PersistAuditDataManagerMap
  pub broker : S
  pub statuses : List ℕ

module _ {F S : Type 0} where
  abbrev pub with_request : RunnerLiveLinesSchemaRequest F → Connection F S → Connection F S
  with_request r k = record {
    request_data = r;
    manager = k.manager;
    broker = k.broker;
    statuses = k.statuses;
  }

  abbrev pub with_broker : S → Connection F S → Connection F S
  with_broker s k = record {
    request_data = k.request_data;
    manager = k.manager;
    broker = s;
    statuses = k.statuses;
  }

  abbrev pub with_manager : PersistAuditDataManagerMap → Connection F S → Connection F S
  with_manager m k = record {
    request_data = k.request_data;
    manager = m;
    broker = k.broker;
    statuses = k.statuses;
  }

  abbrev pub with_status : ℕ → Connection F S → Connection F S
  with_status status k = record {
    request_data = k.request_data;
    manager = k.manager;
    broker = k.broker;
    statuses = k.statuses ++ status ∷ [];
  }

  -- FailIfError of internal/utils/misc.go: it records the status and does not end the handler.
  unfoldable pub fail_if_error : Option String → ℕ → Connection F S → Connection F S
  fail_if_error none status k = k
  fail_if_error (some e) status k = with_status status k

  -- The reply goes to the client that the manager has for the sender.
  unfoldable pub reply : Option PersistAuditDataClient → Bool → Connection F S → Connection F S
  unfolding remove_client
  reply none written k = k
  reply (some client) true k = with_status 200 k
  reply (some client) false k = with_status 200 (with_manager (remove_client client k.manager) k)

module _ {B F S : Type 0} (json : Json B F) (c : Channel B S) (sub : String) where
  -- `json.Unmarshal(message, &requestData)` and its check.
  unfoldable pub read_message : B → Connection F S → Connection F S
  unfolding fail_if_error
  read_message message k =
      let (r, e) = json.unmarshal message k.request_data in fail_if_error e 400 (with_request r k)

  -- Marshalling and publishing, and their checks.
  unfoldable pub publish_line : LiveLinesData F → Connection F S → Connection F S
  unfolding fail_if_error publish_with_context
  publish_line line k =
      let (body, e) = json.marshal line in
      let marshalled = fail_if_error e 500 k in
      let (s, e') = publish_with_context c body live_lines_queue_name true marshalled.broker in
      fail_if_error e' 500 (with_broker s marshalled)

  -- The rest of a round after the message is read; `false` where the handler returns.
  unfoldable pub answer : Bool → Connection F S → Connection F S × Bool
  unfolding publish_line reply get to_runner_live_lines_schema
  answer written k = if str_eq k.request_data.group_code "" then (with_status 400 k, false) else (
    let published = publish_line (to_runner_live_lines_schema k.request_data sub) k in
        reply (get sub published.manager) written published,
    true,
  )

  unfoldable pub round : Frame B → Connection F S → Connection F S × Bool
  unfolding read_message answer
  round frame k = answer frame.reply_is_written (read_message frame.message k)

  abbrev pub unless_returned :
      (Connection F S → Connection F S) → Connection F S × Bool → Connection F S
  unless_returned rest (k, false) = k
  unless_returned rest (k, true) = rest k

  -- The loop, until the read fails or the handler returns.
  unfoldable pub rounds : List (Frame B) → Connection F S → Connection F S
  unfolding round
  rounds [] k = k
  rounds (frame ∷ frames) k = unless_returned (rounds frames) (round frame k)

  -- The handler: the client is added at first and removed when it returns.
  unfoldable pub persist_audit_data_handler :
      PersistAuditDataClient → List (Frame B) → Connection F S → Connection F S
  unfolding rounds add remove_client
  persist_audit_data_handler client frames k =
      let ended = rounds frames (with_manager (add sub client k.manager) k) in
      with_manager (remove_client client ended.manager) ended
