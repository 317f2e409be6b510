-- ===== src/Api/EatQueue/Handler.antt =====
-- `Handler` of internal/api/runner_ws_group/eat_processor_queue_handler.go, but for its consumer.
use runner_io.Common.{
  ℕ, suc, ◌≡◌, ◌↔◌, refl, Bool, true, false, List, [], ◌∷◌, ◌++◌, Option, none, some, String, arith,
  eq_iff,
}
use runner_io.Ws.GroupClients.{GroupCodeDataClientManagerMap, add, remove_client}
use runner_io.Ws.GroupClients.Laws.{connections, connections-add, connections-remove_client}
use runner_io.Amqp.{Channel, declare_and_bind_queue}

-- The manager, the broker, and the statuses that the request was given.
pub record Served (S : Type 0) : Type 0 where
  pub manager : GroupCodeDataClientManagerMap
  pub broker : S
  pub statuses : List ℕ

-- `FailIfError` records the status and does not end the handler.
abbrev pub note_failure : Option String → ℕ → List ℕ → List ℕ
note_failure none status statuses = statuses
note_failure (some e) status statuses = statuses ++ status ∷ []

module _ {B S : Type 0} (c : Channel B S) (group_code : String) (client : ℕ) where
  -- Up to the read loop: the errors of the upgrade and of the header are noted, and the client is added.
  unfoldable pub join_room :
      Option String → Option String → GroupCodeDataClientManagerMap → S → Served S
  unfolding add declare_and_bind_queue
  join_room upgrade_error header_error manager broker =
      let (s, e) = declare_and_bind_queue c group_code group_code broker in
      record {
        manager = add group_code client manager;
        broker = s;
        statuses =
            note_failure e 500 (note_failure header_error 500 (note_failure upgrade_error 500 []));
      }

  -- Without a connection `ReadMessage` panics.
  abbrev pub read_panics : Option String → Bool
  read_panics none = false
  read_panics (some e) = true

  -- The handler, and whether it ends in a panic. `meanwhile` is what the other connections and the consumers
  -- do to the manager until the read loop ends or panics; the deferred call runs in both cases.
  unfoldable pub eat_processor_queue_handler :
      (GroupCodeDataClientManagerMap → GroupCodeDataClientManagerMap)
      → Option String
      → Option String
      → GroupCodeDataClientManagerMap
      → S
      → Served S × Bool
  unfolding join_room remove_client
  eat_processor_queue_handler meanwhile upgrade_error header_error manager broker =
      let joined = join_room upgrade_error header_error manager broker in
      (
        record joined { manager = remove_client group_code client (meanwhile joined.manager) },
        read_panics upgrade_error,
      )

  read_panics_iff :
      (upgrade_error : Option String) → (read_panics upgrade_error ≡ false) ↔ (upgrade_error ≡ none)
  read_panics_iff none = (λ e. refl, λ e. refl)
  read_panics_iff (some e) = (λ e. cc, λ e. cc)

  -- Before the handler reads, its client is in the group once more than before, whatever errors the
  -- upgrade, the header and the queue report. The handler panics if and only if the upgrade failed, where
  -- there is no connection to read from. However it ends, the deferred call has run, and the client is
  -- in the group as often as before, where what happens meanwhile leaves this client's connections as
  -- they are.
  pub eat_processor_queue_handler-connections :
      (meanwhile : GroupCodeDataClientManagerMap → GroupCodeDataClientManagerMap)
      (upgrade_error header_error : Option String) (manager : GroupCodeDataClientManagerMap)
      (broker : S)
      → ((m : GroupCodeDataClientManagerMap)
          → connections (meanwhile m) group_code client ≡ connections m group_code client)
      → (connections (join_room upgrade_error header_error manager broker).manager group_code client
          ≡ suc (connections manager group_code client))
        × (((eat_processor_queue_handler meanwhile upgrade_error header_error manager broker).1
              ≡ false)
            ↔ (upgrade_error ≡ none))
        × (connections
              (eat_processor_queue_handler meanwhile upgrade_error header_error manager
                broker).0.manager
              group_code
              client
            ≡ connections manager group_code client)
  unfolding eat_processor_queue_handler join_room
  eat_processor_queue_handler-connections meanwhile upgrade_error header_error manager broker kept =
      (
        ground (
          arith,
          eq_iff group_code group_code,
          connections-add group_code group_code client client manager,
        ),
        read_panics_iff upgrade_error,
        ground (
          arith,
          eq_iff group_code group_code,
          connections-add group_code group_code client client manager,
          kept (add group_code client manager),
          connections-remove_client group_code group_code client client
              (meanwhile (add group_code client manager)),
        ),
      )
