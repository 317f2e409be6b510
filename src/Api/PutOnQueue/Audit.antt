-- ===== src/Api/PutOnQueue/Audit.antt =====
-- What the live lines handler publishes, whatever the frames of a connection are.
use runner_io.Common.{
  ℕ, ◌≡◌, ◌≢◌, refl, ap, ◌∙◌, Bool, true, false, List, [], ◌∷◌, Option, none, some, String, str_eq,
  eq_iff, arith, Bool-cases, inl, inr,
}
use runner_io.Dto.Schema.{LiveLinesData, to_runner_live_lines_schema}
use runner_io.Ws.AuditClients.{PersistAuditDataClient, add, get}
use runner_io.Amqp.{Channel, publish_with_context, live_lines_queue_name}
use runner_io.Api.PutOnQueue.{
  Json, Frame, Connection, with_manager, fail_if_error, reply, read_message, publish_line, answer,
  round, unless_returned, rounds, persist_audit_data_handler,
}

module _ {F S : Type 0} where
  pub fail_if_error-broker :
      (e : Option String) (status : ℕ) (k : Connection F S)
      → (fail_if_error e status k).broker ≡ k.broker
  unfolding fail_if_error
  fail_if_error-broker none status k = refl
  fail_if_error-broker (some e) status k = refl

  fail_if_error-request_data :
      (e : Option String) (status : ℕ) (k : Connection F S)
      → (fail_if_error e status k).request_data ≡ k.request_data
  unfolding fail_if_error
  fail_if_error-request_data none status k = refl
  fail_if_error-request_data (some e) status k = refl

  reply-broker :
      (o : Option PersistAuditDataClient) (written : Bool) (k : Connection F S)
      → (reply o written k).broker ≡ k.broker
  unfolding reply
  reply-broker none written k = refl
  reply-broker (some client) true k = refl
  reply-broker (some client) false k = refl

module _ {B F S : Type 0} (json : Json B F) (c : Channel B S) (sub : String) where
  -- The call of the RabbitMQ client for a line.
  abbrev pub publication : LiveLinesData F → S → S
  publication line s =
      (publish_with_context c ((json.marshal line).0) live_lines_queue_name true s).0

  publish_line-broker :
      (line : LiveLinesData F) (k : Connection F S)
      → (publish_line json c sub line k).broker ≡ publication line k.broker
  unfolding publish_line
  publish_line-broker line k =
      rw (fail_if_error-broker ((json.marshal line).1) 500 k) (fail_if_error-broker _ 500 _)

  pub read_message-broker :
      (message : B) (k : Connection F S) → (read_message json c sub message k).broker ≡ k.broker
  unfolding read_message
  read_message-broker message k = fail_if_error-broker _ 400 _

  -- A property of the broker that every publication of a line with this sender and a group keeps.
  abbrev pub IsKept : (S → Type 0) → Type 0
  IsKept P =
      (line : LiveLinesData F) (s : S)
      → line.sender ≡ sub
      → line.group_code ≢ ""
      → P s
      → P (publication line s)

  pub answer-broker :
      (written : Bool) (k : Connection F S)
      → k.request_data.group_code ≢ ""
      → (answer json c sub written k).0.broker
        ≡ publication (to_runner_live_lines_schema k.request_data sub) k.broker
  unfolding answer
  answer-broker written k group = elim (Bool-cases (str_eq k.request_data.group_code "")) [
    | inl empty ↦ ground (arith, eq_iff k.request_data.group_code "")
    | inr here ↦ rw here (
        let line = to_runner_live_lines_schema k.request_data sub in
        let published = publish_line json c sub line k in
        reply-broker (get sub published.manager) written published ∙ publish_line-broker line k)
  ]

  answer-IsKept :
      (P : S → Type 0)
      → IsKept P
      → (written : Bool) (k : Connection F S) → P k.broker
      → P ((answer json c sub written k).0.broker)
  unfolding answer to_runner_live_lines_schema
  answer-IsKept P kept written k p = elim (Bool-cases (str_eq k.request_data.group_code "")) [
    | inl empty ↦ rw empty p
    | inr group ↦
        let some_group : k.request_data.group_code ≢ "" =
          λ empty. ground (arith, eq_iff k.request_data.group_code "") in
        rw (answer-broker written k some_group)
          (kept (to_runner_live_lines_schema k.request_data sub) k.broker refl some_group p)
  ]

  unless_returned-IsKept :
      (P : S → Type 0) (rest : Connection F S → Connection F S) (r : Connection F S × Bool)
      → P r.0.broker
      → ((k : Connection F S) → P k.broker → P ((rest k).broker))
      → P ((unless_returned json c sub rest r).broker)
  unless_returned-IsKept P rest (k, false) p keeps = p
  unless_returned-IsKept P rest (k, true) p keeps = keeps k p

  round-IsKept :
      (P : S → Type 0)
      → IsKept P
      → (frame : Frame B) (k : Connection F S) → P k.broker
      → P ((round json c sub frame k).0.broker)
  unfolding round
  round-IsKept P kept frame k p =
      answer-IsKept P kept frame.reply_is_written (read_message json c sub frame.message k)
        (rw (read_message-broker frame.message k) p)

  rounds-IsKept :
      (P : S → Type 0)
      → IsKept P
      → (frames : List (Frame B)) (k : Connection F S) → P k.broker
      → P ((rounds json c sub frames k).broker)
  unfolding rounds
  rounds-IsKept P kept [] k p = p
  rounds-IsKept P kept (frame ∷ frames) k p =
      unless_returned-IsKept P (rounds json c sub frames) (round json c sub frame k)
        (round-IsKept P kept frame k p) (rounds-IsKept P kept frames)

  -- Whatever frames a connection sends, also malformed ones, what is true of the broker and stays
  -- true with every publication of a line that has the user of the connection as its sender and a
  -- group, is true when the connection ends: the handler publishes nothing else, and only on the
  -- live lines queue.
  pub persist_audit_data_handler-IsKept :
      (P : S → Type 0)
      → IsKept P
      → (client : PersistAuditDataClient) (frames : List (Frame B)) (k : Connection F S)
      → P k.broker
      → P ((persist_audit_data_handler json c sub client frames k).broker)
  unfolding persist_audit_data_handler
  persist_audit_data_handler-IsKept P kept client frames k p =
      rounds-IsKept P kept frames (with_manager (add sub client k.manager) k) p

  pub read_message-request_data :
      (message : B) (k : Connection F S)
      → (read_message json c sub message k).request_data ≡ (json.unmarshal message k.request_data).0
  unfolding read_message
  read_message-request_data message k = fail_if_error-request_data _ 400 _

  -- A message that does not parse, and leaves the variable as it is, publishes the line of the
  -- message before it once more, where that has a group.
  pub round-repeats :
      (frame : Frame B) (k : Connection F S) (e : String)
      → json.unmarshal frame.message k.request_data ≡ (k.request_data, some e)
      → k.request_data.group_code ≢ ""
      → (round json c sub frame k).0.broker
        ≡ publication (to_runner_live_lines_schema k.request_data sub) k.broker
  unfolding round
  round-repeats frame k e malformed group =
      let same : (read_message json c sub frame.message k).request_data ≡ k.request_data =
        read_message-request_data frame.message k ∙ ap (λ r. r.0) malformed in
      let read = read_message json c sub frame.message k in
      answer-broker frame.reply_is_written read (rw same group)
      ∙ rw (same, read_message-broker frame.message k) refl
