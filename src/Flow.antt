-- ===== src/Flow.antt =====
-- The way of a point through the program: PersistAuditDataGroupHandler puts it on the queue for live lines,
-- and PersistAuditData takes it from there into the database.
use mathlib.Core.List.{Perm}
use runner_io.Common.{◌≡◌, ◌≢◌, refl, ap, ◌∙◌, true, List, ◌++◌, none, some, String}
use runner_io.Common.Map.{Map}
use runner_io.Float64.{Float64, IsComparable}
use runner_io.Dto.Schema.{LiveLinesData, RunnerLiveLinesSchemaRequest, to_runner_live_lines_schema}
use runner_io.Amqp.{Channel, publish_with_context, live_lines_queue_name}
use runner_io.Amqp.Delivery.{IsSending, publication_requests, publish_with_context_lem}
use runner_io.Api.PutOnQueue.{Json, Frame, Connection, read_message, round}
use runner_io.Api.PutOnQueue.Audit.{
  publication, answer-broker, read_message-broker, read_message-request_data,
}
use runner_io.Services.Consumer.Acks.{run_both-inserted}
use runner_io.Services.Consumer.{Turn, Consumer, Calls, acked_by, with_line, on_line, on_message}

-- What the consumer does with a message whose line it can read.
module _ {M D J F B DB S : Type 0} ⦃f : Float64 F⦄ (calls : Calls M D J F B DB S)
    (range_order : Map (List (List (LiveLinesData F))) → Map (List (List (LiveLinesData F))))
    (order_perm : (m : Map (List (List (LiveLinesData F)))) → Perm (range_order m) m)
    (laws : IsComparable F) where
  on_message-database :
      (d : M) (turn : Turn) (k : Consumer M F DB S) (line : LiveLinesData F)
      → calls.unmarshal d k.line ≡ (line, none)
      → (k' : Consumer M F DB S) × (on_message calls range_order d turn k ≡ some k')
        × (k'.database ≡ (calls.insert_one line k.database).0)
  unfolding on_message on_line
  on_message-database d turn k line read =
      let (k', ran, database, acks) =
        run_both-inserted calls range_order order_perm laws turn
          (with_line calls range_order line k) in
      (acked_by calls range_order d k', rw (read, ran) refl, database)

module _ {B D J F DB S : Type 0} ⦃f : Float64 F⦄ (json : Json B F) (c : Channel B S)
    (b : IsSending c) (calls : Calls B D J F B DB S)
    (range_order : Map (List (List (LiveLinesData F))) → Map (List (List (LiveLinesData F))))
    (order_perm : (m : Map (List (List (LiveLinesData F)))) → Perm (range_order m) m)
    (laws : IsComparable F) where
  -- The line that a request of a user stands for.
  abbrev line_of : String → RunnerLiveLinesSchemaRequest F → LiveLinesData F
  line_of sub r = to_runner_live_lines_schema r sub

  round-broker :
      (sub : String) (frame : Frame B) (k : Connection F S) (r : RunnerLiveLinesSchemaRequest F)
      → json.unmarshal frame.message k.request_data ≡ (r, none)
      → r.group_code ≢ ""
      → (round json c sub frame k).0.broker ≡ publication json c sub (line_of sub r) k.broker
  unfolding round
  round-broker sub frame k r parsed group =
      let same : (read_message json c sub frame.message k).request_data ≡ r =
        read_message-request_data json c sub frame.message k ∙ ap (λ p. p.0) parsed in
      answer-broker json c sub frame.reply_is_written (read_message json c sub frame.message k)
        (rw same group)
      ∙ rw (same, read_message-broker json c sub frame.message k) refl

  -- Where the comparisons follow IEEE 754 and a call of the RabbitMQ client that reports no error has sent its
  -- request: for a frame that parses, with a group, and whose publication reports no error, the handler
  -- has sent the declaration and the binding of the queue for live lines and one message to it, in this
  -- order, whether the reply is written or not. Where that message comes to the consumer and parses back
  -- to its line, the consumer inserts into the database, once, the line of that request with the user of
  -- the connection as its sender, whenever the goroutine that inserts gets its turn, and whether the
  -- processor fails or not.
  pub sent_line-inserted :
      (sub : String) (frame : Frame B) (k : Connection F S) (r : RunnerLiveLinesSchemaRequest F)
      (turn : Turn) (l : Consumer B F DB S)
      → json.unmarshal frame.message k.request_data ≡ (r, none)
      → r.group_code ≢ ""
      → (publish_with_context c
          ((json.marshal (line_of sub r)).0)
          live_lines_queue_name
          true
          k.broker).1
        ≡ none
      → calls.unmarshal ((json.marshal (line_of sub r)).0) l.line ≡ (line_of sub r, none)
      → (body : B) × (b.sent (round json c sub frame k).0.broker
          ≡ b.sent k.broker ++ publication_requests live_lines_queue_name body)
        × (l' : Consumer B F DB S) × (on_message calls range_order body turn l ≡ some l')
        × (l'.database ≡ (calls.insert_one (line_of sub r) l.database).0)
  sent_line-inserted sub frame k r turn l parsed group fine back =
      let (l', ran, inserted) =
        on_message-database calls range_order order_perm laws _ turn l (line_of sub r) back in
      (
        (json.marshal (line_of sub r)).0,
        rw (round-broker sub frame k r parsed group) (
            publish_with_context_lem c b ((json.marshal (line_of sub r)).0) live_lines_queue_name
              k.broker fine),
        l',
        ran,
        inserted,
      )
