-- ===== src/Amqp/Connect.antt =====
-- The start of internal/config/amqp/config.go: the connection, and the configuration that the server begins
-- with. The connection and its channel are parameters; `none` is their error.
use runner_io.Common.{◌≡◌, refl, ap, ◌∙◌, true, false, [], ◌∷◌, ◌++◌, Option, none, some, String}
use runner_io.Common.Exit.{
  Exit, panicked, returned, ◌>>=◌, Ensures, Ensures->>=, panics, returns, of_Ensures,
}
use runner_io.Config.{Environment, get_dot_env_variable}
use runner_io.Amqp.{
  Channel, exchange_name, live_lines_queue_name, new_amqp_config, declare_and_bind_queue,
}
use runner_io.Amqp.Delivery.{
  IsSending, exchange_declared, queue_declared, queue_bound, then-none, declare_and_bind_queue-sent,
}
use mathlib.Core.List.{append_assoc}

module _ {B S : Type 0} (c : Channel B S) (dial : String → Option S)
    (open_channel : S → Option S) where
  -- Behind the call that opens the channel.
  abbrev pub configure : Option S → S → S × Option String
  configure none s = (s, some "Failed to open channel")
  configure (some opened) s = new_amqp_config c opened

  abbrev pub on_connection : Option S → Exit (S × Option String)
  on_connection none = panicked
  on_connection (some s) = returned (configure (open_channel s) s)

  -- NewAmqpConfig
  unfoldable pub connect : String → Exit (S × Option String)
  unfolding new_amqp_config
  connect host = on_connection (dial host)

  abbrev pub unless_failed : S × Option String → Exit S
  unless_failed (s, none) = returned s
  unless_failed (s, some e) = panicked

  -- DefaultAmqpConfig
  unfoldable pub default_amqp_config : Environment → Exit S
  unfolding connect get_dot_env_variable
  default_amqp_config env =
      get_dot_env_variable "RABBITMQ_HOST" env >>= λ host. connect host >>= unless_failed

  module _ (sending : IsSending c) where
    -- What the channel of the configuration has sent since it was opened.
    abbrev pub HasSent : S → Type 0
    HasSent s =
        (host : String) × (connected : S) × (opened : S) × (dial host ≡ some connected)
        × (open_channel connected ≡ some opened)
        × (sending.sent s
            ≡ sending.sent opened
              ++ exchange_declared exchange_name false
                ∷ queue_declared live_lines_queue_name true
                ∷ queue_bound live_lines_queue_name live_lines_queue_name exchange_name true
                ∷ [])

    new_amqp_config-sent :
        (s : S)
        → (new_amqp_config c s).1 ≡ none
        → sending.sent (new_amqp_config c s).0
          ≡ sending.sent s
            ++ exchange_declared exchange_name false
              ∷ queue_declared live_lines_queue_name true
              ∷ queue_bound live_lines_queue_name live_lines_queue_name exchange_name true
              ∷ []
    unfolding new_amqp_config declare_and_bind_queue
    new_amqp_config-sent s fine =
        let (declared, then_bound) =
          then-none (c.exchange_declare exchange_name false)
            (declare_and_bind_queue c live_lines_queue_name live_lines_queue_name) s fine in
        rw then_bound (
          declare_and_bind_queue-sent c sending live_lines_queue_name _ (rw then_bound at fine)
          ∙ ap
              (λ rs.
                rs
                ++ queue_declared live_lines_queue_name true
                  ∷ queue_bound live_lines_queue_name live_lines_queue_name exchange_name true
                  ∷ [])
              (sending.exchange-sent exchange_name false s declared)
          ∙ append_assoc (sending.sent s) (exchange_declared exchange_name false ∷ []) _)

    fine_or_panics :
        (P : S → Type 0) (r : S × Option String)
        → (r.1 ≡ none → P r.0)
        → Ensures P (unless_failed r)
    fine_or_panics P (s, none) h = returns s (h refl)
    fine_or_panics P (s, some e) h = panics

    configured :
        (host : String) (s : S) (o : Option S)
        → dial host ≡ some s
        → open_channel s ≡ o
        → Ensures HasSent (unless_failed (configure o s))
    configured host s none dialled opens = panics
    configured host s (some opened) dialled opens =
        fine_or_panics HasSent _
          λ fine. (host, s, opened, dialled, opens, new_amqp_config-sent opened fine)

    connected :
        (host : String) (o : Option S)
        → dial host ≡ o
        → Ensures HasSent (on_connection o >>= unless_failed)
    unfolding ◌>>=◌
    connected host none dialled = panics
    connected host (some s) dialled = configured host s (open_channel s) dialled refl

    connect-Ensures : (host : String) → Ensures HasSent (connect host >>= unless_failed)
    unfolding connect
    connect-Ensures host = connected host (dial host) refl

    -- Where DefaultAmqpConfig returns, its channel belongs to a connection that was dialled, and has sent,
    -- since it was opened, the declaration of the exchange, that of the queue for live lines and the
    -- binding of this queue to its own name, in this order and nothing else.
    pub default_amqp_config-sent :
        (env : Environment) (s : S) → default_amqp_config env ≡ returned s → HasSent s
    unfolding default_amqp_config
    default_amqp_config-sent env s started =
        of_Ensures {P = HasSent} started (Ensures->>= _ _ λ host got. connect-Ensures host)
