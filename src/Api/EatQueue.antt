-- ===== src/Api/EatQueue.antt =====
-- The broadcast of a message to the clients of a group, in internal/api/runner_ws_group/
-- eat_processor_queue_handler.go: the loop that starts a goroutine for each client, the goroutines, and
-- the other connections of the group, which join and leave under the same manager.
mod Cells
mod Stores
mod Joins
pub mod Safety
pub mod Runs
pub mod Order
pub mod Writes
pub mod Handler
pub mod Consumer
pub mod Listener
use runner_io.Common.{ℕ, suc, ◌<◌, ◌≡◌, List, [], ◌∷◌, ◌++◌, Option, none, some, get_elem?}
use runner_io.Ws.GroupSlices.{Slice, Store, array_at, add_slice, remove_client_slice}

-- The loop ranges over the slice that `Get` returned: `total` and `array` are those of that moment, and
-- the cells are read when the loop comes to them. `started` are the clients that the goroutines have
-- got, `running` those whose goroutine has not ended, `written` and `dropped` those whose write succeeded or
-- failed, in the order in which the goroutines ended, and `counter` is the WaitGroup's.
pub record Broadcast : Type 0 where
  pub store : Store
  pub array : ℕ
  pub total : ℕ
  pub index : ℕ
  pub started : List ℕ
  pub running : List ℕ
  pub written : List ℕ
  pub dropped : List ℕ
  pub counter : ℕ

-- `Get`, and `wg.Add(len(clients))`.
abbrev pub begin : List (List (Option ℕ)) → Slice → Broadcast
begin arrays s = record {
  store = record { arrays = arrays; entry = some s };
  array = s.array;
  total = s.len;
  index = 0;
  started = [];
  running = [];
  written = [];
  dropped = [];
  counter = s.len;
}

-- What the consumer does with a message: `none` where the group has no entry, and the goroutine of the
-- consumer ends without an acknowledgement.
abbrev pub broadcast_to : List (List (Option ℕ)) → Option Slice → Option Broadcast
broadcast_to arrays none = none
broadcast_to arrays (some s) = some (begin arrays s)

unfoldable pub on_delivery : Store → Option Broadcast
on_delivery st = broadcast_to st.arrays st.entry

-- `spare` is the runtime's choice of room for `append`. `wg.Done` panics on a counter of 0, so a goroutine
-- ends only with another one. A goroutine whose write failed calls `RemoveClient` and then `Done`: other
-- steps between the two are runs with `leaves` in their place and the goroutine's end later.
pub data Step (spare : ℕ → ℕ) : Broadcast → Broadcast → Type 0 where
  start :
      (b : Broadcast) (client : ℕ)
      → b.index < b.total
      → get_elem? (array_at b.store.arrays b.array) b.index ≡ some (some client)
      → Step spare b (record b {
        index = suc b.index;
        started = b.started ++ client ∷ [];
        running = client ∷ b.running;
      })
  wrote :
      (b : Broadcast) (before : List ℕ) (client : ℕ) (after : List ℕ) (n : ℕ)
      → b.running ≡ before ++ client ∷ after
      → b.counter ≡ suc n
      → Step spare b
          (record b { running = before ++ after; written = b.written ++ client ∷ []; counter = n })
  failed :
      (b : Broadcast) (before : List ℕ) (client : ℕ) (after : List ℕ) (n : ℕ)
      → b.running ≡ before ++ client ∷ after
      → b.counter ≡ suc n
      → Step spare b (record b {
        store = remove_client_slice client b.store;
        running = before ++ after;
        dropped = b.dropped ++ client ∷ [];
        counter = n;
      })
  joins :
      (b : Broadcast) (client : ℕ)
      → Step spare b (record b { store = add_slice spare client b.store })
  leaves :
      (b : Broadcast) (client : ℕ)
      → Step spare b (record b { store = remove_client_slice client b.store })

pub data Reach (spare : ℕ → ℕ) (b : Broadcast) : Broadcast → Type 0 where
  here : Reach spare b b
  later : {c d : Broadcast} → Reach spare b c → Step spare c d → Reach spare b d

-- `wg.Wait()` returns, behind the loop.
abbrev pub IsDone : Broadcast → Type 0
IsDone b = (b.index ≡ b.total) × (b.counter ≡ 0)
