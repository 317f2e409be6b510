-- ===== src/Amqp.antt =====
-- internal/config/amqp/config.go. The calls of the RabbitMQ client are a parameter: each takes
-- the state of the broker to a new one and an error, where there is one.
pub mod Delivery
pub mod Connect
use runner_io.Common.{Bool, true, false, Option, none, some, String}
use runner_io.Common.Result.{Result, ok, err}

abbrev pub exchange_name : String
exchange_name = "runner"

abbrev pub live_lines_queue_name : String
live_lines_queue_name = "live_lines"

-- A call of the client, on the state `S` of the broker.
abbrev pub Call : Type 0 → Type 0
Call S = S → S × Option String

pub record Channel (B : Type 0) (S : Type 0) : Type 0 where
  -- the name, and `noWait`: whether the client returns before the server answers
  pub exchange_declare : String → Bool → Call S
  pub queue_declare : String → Bool → Call S
  -- the queue, the routing key and the exchange, and `noWait`
  pub queue_bind : String → String → String → Bool → Call S
  -- the exchange, the routing key, `mandatory` and the body
  pub publish : String → String → Bool → B → Call S

module _ {S : Type 0} where
  abbrev pub carry_on : Call S → S × Option String → S × Option String
  carry_on next (s, none) = next s
  carry_on next (s, some e) = (s, some e)

  -- A call, and the next one where the first reports no error.
  abbrev pub ◌then◌ : Call S → Call S → Call S
  (first then next) s = carry_on next (first s)

  infixr 5 ◌then◌

module _ {B S : Type 0} (c : Channel B S) where
  -- The connected part of NewAmqpConfig, up to the first error.
  unfoldable pub new_amqp_config : Call S
  new_amqp_config =
      c.exchange_declare exchange_name false
      then c.queue_declare live_lines_queue_name true
      then c.queue_bind live_lines_queue_name live_lines_queue_name exchange_name true

  unfoldable pub declare_and_bind_queue : String → String → Call S
  declare_and_bind_queue queue_name routing_key =
      c.queue_declare queue_name true then c.queue_bind routing_key routing_key exchange_name true

  unfoldable pub publish_with_context : B → String → Bool → Call S
  unfolding declare_and_bind_queue
  publish_with_context body routing_key true =
      declare_and_bind_queue routing_key routing_key
      then c.publish exchange_name routing_key true body
  publish_with_context body routing_key false = c.publish exchange_name routing_key true body
