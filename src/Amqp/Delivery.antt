-- ===== src/Amqp/Delivery.antt =====
-- What the calls of the RabbitMQ client send. A call that reports no error has sent its request; whether the
-- server has got it, the program does not learn, since it declares with `noWait` and publishes without
-- confirmations.
use runner_io.Common.{
  ◌≡◌, refl, ◌∙◌, ap, Bool, true, List, [], ◌∷◌, ◌++◌, Option, none, some, String,
}
use mathlib.Core.List.{append_assoc}
use runner_io.Amqp.{
  Call, Channel, ◌then◌, carry_on, exchange_name, declare_and_bind_queue, publish_with_context,
}

-- A request on the channel, with the arguments of its call.
pub data Request (B : Type 0) : Type 0 where
  exchange_declared : String → Bool → Request B
  queue_declared : String → Bool → Request B
  queue_bound : String → String → String → Bool → Request B
  published : String → String → Bool → B → Request B

-- The requests that a channel has sent, in their order.
pub record IsSending {B S : Type 0} (c : Channel B S) : Type 0 where
  pub sent : S → List (Request B)
  pub exchange-sent :
      (e : String) (no_wait : Bool) (s : S)
      → (c.exchange_declare e no_wait s).1 ≡ none
      → sent ((c.exchange_declare e no_wait s).0) ≡ sent s ++ exchange_declared e no_wait ∷ []
  pub declare-sent :
      (q : String) (no_wait : Bool) (s : S)
      → (c.queue_declare q no_wait s).1 ≡ none
      → sent ((c.queue_declare q no_wait s).0) ≡ sent s ++ queue_declared q no_wait ∷ []
  pub bind-sent :
      (q k e : String) (no_wait : Bool) (s : S)
      → (c.queue_bind q k e no_wait s).1 ≡ none
      → sent ((c.queue_bind q k e no_wait s).0) ≡ sent s ++ queue_bound q k e no_wait ∷ []
  pub publish-sent :
      (e k : String) (mandatory : Bool) (body : B) (s : S)
      → (c.publish e k mandatory body s).1 ≡ none
      → sent ((c.publish e k mandatory body s).0) ≡ sent s ++ published e k mandatory body ∷ []

module _ {S : Type 0} where
  carry_on-none :
      (next : Call S) (r : S × Option String)
      → (carry_on next r).1 ≡ none
      → (r.1 ≡ none) × (carry_on next r ≡ next r.0)
  carry_on-none next (s, none) fine = (refl, refl)
  carry_on-none next (s, some e) fine = cc

  -- Both calls of a pair report no error where the pair reports none.
  pub then-none :
      (first next : Call S) (s : S)
      → ((first then next) s).1 ≡ none
      → ((first s).1 ≡ none) × ((first then next) s ≡ next ((first s).0))
  then-none first next s fine = carry_on-none next (first s) fine

-- The requests of a publication that declares the queue of its key first.
abbrev pub publication_requests : {B : Type 0} → String → B → List (Request B)
publication_requests key body =
    queue_declared key true
    ∷ queue_bound key key exchange_name true
    ∷ published exchange_name key true body
    ∷ []

module _ {B S : Type 0} (c : Channel B S) (b : IsSending c) where
  pub declare_and_bind_queue-sent :
      (key : String) (s : S)
      → (declare_and_bind_queue c key key s).1 ≡ none
      → b.sent ((declare_and_bind_queue c key key s).0)
        ≡ b.sent s ++ queue_declared key true ∷ queue_bound key key exchange_name true ∷ []
  unfolding declare_and_bind_queue
  declare_and_bind_queue-sent key s fine =
      let (declared, then_bound) =
        then-none (c.queue_declare key true) (c.queue_bind key key exchange_name true) s fine in
      rw then_bound (
        b.bind-sent key key exchange_name true _ (rw then_bound at fine)
        ∙ ap (λ rs. rs ++ queue_bound key key exchange_name true ∷ [])
            (b.declare-sent key true s declared)
        ∙ append_assoc (b.sent s) (queue_declared key true ∷ [])
            (queue_bound key key exchange_name true ∷ []))

  -- A publication that declares its queue and reports no error has sent the declaration, the binding and the
  -- message, in this order.
  pub publish_with_context_lem :
      (body : B) (key : String) (s : S)
      → (publish_with_context c body key true s).1 ≡ none
      → b.sent ((publish_with_context c body key true s).0)
        ≡ b.sent s ++ publication_requests key body
  unfolding publish_with_context
  publish_with_context_lem body key s fine =
      let (ready, then_published) =
        then-none (declare_and_bind_queue c key key) (c.publish exchange_name key true body) s
          fine in
      rw then_published (
        b.publish-sent exchange_name key true body _ (rw then_published at fine)
        ∙ ap (λ rs. rs ++ published exchange_name key true body ∷ [])
            (declare_and_bind_queue-sent key s ready)
        ∙ append_assoc (b.sent s)
            (queue_declared key true ∷ queue_bound key key exchange_name true ∷ [])
            (published exchange_name key true body ∷ []))
