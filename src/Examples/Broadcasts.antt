-- ===== src/Examples/Broadcasts.antt =====
-- Broadcasts to the clients of a group, with an array that has a spare cell and one that has none.
use runner_io.Common.{
  ◌⊎◌, ◌↔◌, false, Option, All, suc, String, ℕ, ◌+◌, ◌-◌, ◌≤◌, ◌≡◌, refl, List, [], ◌∷◌, none, some,
  length, arith,
}
use runner_io.Common.Map.{lookup}
use runner_io.Ws.GroupClients.{GroupCodeDataClientManagerMap, add, get, remove_client}
use runner_io.Ws.GroupSlices.{Cells, Slice, Store, add_slice, remove_client_slice, append_one}
use runner_io.Ws.GroupSlices.Refinement.{IsView, methods-IsView}
use runner_io.Api.EatQueue.{
  Broadcast, begin, on_delivery, start, wrote, joins, Reach, here, later, IsDone,
}
use runner_io.Amqp.{Channel}
use runner_io.Ws.GroupClients.Laws.{connections}
use runner_io.Api.EatQueue.Handler.{
  join_room, eat_processor_queue_handler, eat_processor_queue_handler-connections,
}
use runner_io.Api.EatQueue.Consumer.{Consumes, acks, waits, quiet, IsOver}
use runner_io.Api.EatQueue.Listener.{
  refused, delivered, Listens, stops, again, all_broadcasts, Listens-acked,
}
use runner_io.Api.EatQueue.Safety.{broadcast_lem}
use runner_io.Api.EatQueue.Runs.{broadcast-skips}
use runner_io.Api.EatQueue.Order.{IsCalm}
use runner_io.Api.EatQueue.Writes.{on_delivery-written}
use runner_io.Common.Bag.{of_list}
use runner_io.Ws.GroupClients.Members.{members}

abbrev room : ℕ → ℕ
room n = n

-- Three clients, and a cell that is free.
abbrev arrays : List Cells
arrays = (some 4 ∷ some 5 ∷ some 6 ∷ none ∷ []) ∷ []

abbrev three : Slice
three = record { array = 0; len = 3 }

abbrev clients : GroupCodeDataClientManagerMap
clients = ("abc", 4 ∷ 5 ∷ 6 ∷ []) ∷ []

abbrev store : Store
store = record { arrays = arrays; entry = some three }

store-IsView : IsView store (lookup "abc" clients)
unfolding IsView lookup
store-IsView = (0, none ∷ [], refl, refl)

methods-IsView_example :
    IsView (add_slice room 7 store) (lookup "abc" (add "abc" 7 clients))
    × IsView (remove_client_slice 7 store) (lookup "abc" (remove_client "abc" 7 clients))
methods-IsView_example = methods-IsView room "abc" 7 clients store store-IsView

abbrev one_started : Broadcast
one_started = record (begin arrays three) { index = 1; started = 4 ∷ []; running = 4 ∷ [] }

run_one : Reach room (begin arrays three) one_started
run_one = later here (start (begin arrays three) 4 (omega arith) refl)

broadcast_lem_example :
    (one_started.index ≤ one_started.total)
    × (length one_started.started ≡ one_started.index)
    × (one_started.counter ≡ length one_started.running + (one_started.total - one_started.index))
broadcast_lem_example =
    broadcast_lem room arrays three one_started ((4, refl), ((5, refl), ((6, refl), tt))) run_one

-- The client 5 is passed over, and 6 gets the message twice.
broadcast-skips_example :
    (d : Broadcast) × Reach room (begin arrays three) d × IsDone d × (d.started ≡ 4 ∷ 6 ∷ 6 ∷ [])
broadcast-skips_example = broadcast-skips room arrays 0 4 5 6 [] (none ∷ []) refl

-- One client, and another one that joins while the message goes out.
abbrev single : Store
single = record { arrays = (some 4 ∷ []) ∷ []; entry = some (record { array = 0; len = 1 }) }

abbrev begun : Broadcast
begun = begin single.arrays (record { array = 0; len = 1 })

abbrev joined : Broadcast
joined = record begun { store = add_slice room 9 single }

abbrev sent : Broadcast
sent = record joined { index = 1; started = 4 ∷ []; written = 4 ∷ []; counter = 0 }

run_single : Reach room begun sent
unfolding add_slice append_one
run_single =
    later (later (later here (joins begun 9)) (start joined 4 (omega arith) refl))
      (wrote (record joined { index = 1; started = 4 ∷ []; running = 4 ∷ [] }) [] 4 [] 0 refl refl)

run_single-IsCalm : IsCalm run_single
unfolding run_single
run_single-IsCalm = (((tt, tt), tt), tt)

on_delivery-written_example :
    (sent.started ≡ 4 ∷ []) × (of_list sent.written ≡ members "abc" (("abc", 4 ∷ []) ∷ []))
unfolding on_delivery get lookup IsView
on_delivery-written_example =
    on_delivery-written room "abc" (("abc", 4 ∷ []) ∷ []) single (4 ∷ []) begun sent
      (0, [], refl, refl) refl refl run_single run_single-IsCalm (refl, refl)

-- A broker that takes everything.
abbrev still : Channel String ℕ
still = record {
  exchange_declare = λ exchange nw s. (s, none);
  queue_declare = λ queue nw s. (suc s, none);
  queue_bind = λ queue key exchange nw s. (s, some "closed");
  publish = λ exchange key mandatory body s. (s, none);
}

eat_processor_queue_handler-connections_example :
    (connections (join_room still "abc" 5 none (some "syntax") clients 0).manager "abc" 5
      ≡ suc (connections clients "abc" 5))
    × (((eat_processor_queue_handler still "abc" 5 (λ m. m) none (some "syntax") clients 0).1
          ≡ false)
        ↔ (◌≡◌ {A = Option String} none none))
    × (connections
          (eat_processor_queue_handler still "abc" 5
            (λ m. m)
            none
            (some "syntax")
            clients
            0).0.manager
          "abc"
          5
        ≡ connections clients "abc" 5)
eat_processor_queue_handler-connections_example =
    eat_processor_queue_handler-connections still "abc" 5 (λ m. m) none (some "syntax") clients 0
      (λ m. refl)

-- A message that is sent while a client joins, with a call of `Ack` that fails, and then nothing more.
abbrev calls : List (String × Option String)
calls = ("hello", some "closed") ∷ []

abbrev run_consumer : Consumes {M = String} room single ("hello" ∷ []) sent.store calls
unfolding on_delivery
run_consumer =
    acks single "hello" [] begun sent sent.store sent.store (some "closed") [] refl run_single
      (refl, refl) (quiet sent.store) (waits sent.store)

-- Then the channel is closed, and the next call of `Consume` fails.
abbrev run_listener :
    Listens {M = String} room single (delivered ("hello" ∷ []) ∷ refused ∷ []) sent.store calls
run_listener =
    again single ("hello" ∷ []) (refused ∷ []) sent.store sent.store sent.store calls []
      run_consumer refl (quiet sent.store) (stops sent.store [])

Listens-acked_example :
    ((rest : List String) × ("hello" ∷ [] ≡ "hello" ∷ rest)
      × ((rest ≡ []) ⊎ (sent.store.entry ≡ none)))
    × (length (all_broadcasts run_listener) ≡ 1)
    × All IsOver (all_broadcasts run_listener)
Listens-acked_example =
    Listens-acked room single (delivered ("hello" ∷ []) ∷ refused ∷ []) sent.store calls
      run_listener ((4, refl), tt)
