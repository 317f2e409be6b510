-- ===== src/Api/EatQueue/Consumer.antt =====
-- The consumer of a group's queue: the loop over the messages, each with its broadcast and its
-- acknowledgement.
use runner_io.Common.{
  ℕ, ◌≡◌, refl, sym, ap, subst, ◌⊎◌, inl, inr, ◌+◌, map, List, [], ◌∷◌, ◌++◌, Option, none, some,
  String, length, All, arith,
}
use runner_io.Common.Bag.{count}
use runner_io.Ws.GroupSlices.{Cells, Slice, Store, add_slice, remove_client_slice}
use runner_io.Api.EatQueue.{Broadcast, begin, broadcast_to, on_delivery, Reach, IsDone}
use runner_io.Api.EatQueue.Safety.{begin-IsSound, Reach-IsSound, broadcast_lem}
use runner_io.Api.EatQueue.Order.{some_begin}
use runner_io.Api.EatQueue.Writes.{no_length, broadcast-IsSettled}
use runner_io.Api.EatQueue.Stores.{EntryIsFilled, add_slice-IsKept, remove_client_slice-IsKept}

-- What the group's other connections do between two messages.
pub data Between (spare : ℕ → ℕ) : Store → Store → Type 0 where
  quiet : (st : Store) → Between spare st st
  joined :
      (st st' : Store) (client : ℕ)
      → Between spare st st'
      → Between spare st (add_slice spare client st')
  left :
      (st st' : Store) (client : ℕ)
      → Between spare st st'
      → Between spare st (remove_client_slice client st')

-- From a store, the messages lead to a store, with these calls of `Ack`, each with the message and the error
-- that the call reports; the error is only logged. A message for a group without clients ends the
-- consumer; that a broadcast is over, `Wait` tells.
pub data Consumes {M : Type 0} (spare : ℕ → ℕ)
    : Store → List M → Store → List (M × Option String) → Type 0 where
  waits : (st : Store) → Consumes spare st [] st []
  ends :
      (st : Store) (message : M) (messages : List M)
      → on_delivery st ≡ none
      → Consumes spare st (message ∷ messages) st []
  acks :
      (st : Store) (message : M) (messages : List M) (b d : Broadcast) (next last : Store)
      (error : Option String) (calls : List (M × Option String))
      → on_delivery st ≡ some b
      → Reach spare b d
      → IsDone d
      → Between spare d.store next
      → Consumes spare next messages last calls
      → Consumes spare st (message ∷ messages) last ((message, error) ∷ calls)

-- The messages that `Ack` is called for.
abbrev pub called : {M : Type 0} → List (M × Option String) → List M
called calls = map (λ a. a.0) calls

-- The broadcasts at the calls of `Ack`.
abbrev pub broadcasts :
    {M : Type 0} {spare : ℕ → ℕ} {st : Store} {messages : List M} {last : Store}
    {calls : List (M × Option String)}
    → Consumes spare st messages last calls
    → List Broadcast
broadcasts (waits st) = []
broadcasts (ends st message messages e) = []
broadcasts (acks st message messages b d next last error calls e run done between more) =
    d ∷ broadcasts more

-- As many goroutines as the slice had clients have been started, none of them runs, and for each its client
-- was written to or the write failed.
abbrev pub IsOver : Broadcast → Type 0
IsOver d =
    (d.running ≡ [])
    × (length d.started ≡ d.total)
    × ((c : ℕ) → count c d.started ≡ count c d.written + count c d.dropped)

entry-on_delivery : (st : Store) → on_delivery st ≡ none → st.entry ≡ none
unfolding on_delivery
entry-on_delivery st e = go st.arrays st.entry e
  where
    go :
        (arrays : List (List (Option ℕ))) (o : Option Slice)
        → broadcast_to arrays o ≡ none
        → o ≡ none
    go arrays none e = refl
    go arrays (some s) e = cc

module _ (spare : ℕ → ℕ) where
  pub Between-EntryIsFilled :
      {st st' : Store}
      → Between spare st st'
      → EntryIsFilled st.arrays st.entry
      → EntryIsFilled st'.arrays st'.entry
  Between-EntryIsFilled (quiet st) filled = filled
  Between-EntryIsFilled (joined st st' client between) filled =
      (add_slice-IsKept spare client st' (Between-EntryIsFilled between filled)).entry
  Between-EntryIsFilled (left st st' client between) filled =
      (remove_client_slice-IsKept client st' (Between-EntryIsFilled between filled)).entry

  -- A broadcast that is done is over, and leaves no nil.
  done-IsOver :
      (arrays : List Cells) (o : Option Slice) (b d : Broadcast)
      → broadcast_to arrays o ≡ some b
      → Reach spare b d
      → IsDone d
      → EntryIsFilled arrays o
      → IsOver d × EntryIsFilled d.store.arrays d.store.entry
  done-IsOver arrays none b d e run done filled = cc
  done-IsOver arrays (some s) b d e run done filled =
      let begun : Reach spare (begin arrays s) d =
        subst (λ b. Reach spare b d) (sym (some_begin e)) run in
      let known = broadcast_lem spare arrays s d filled begun in
      (
        (
          no_length spare d.running (omega (arith, known.2, done.0, done.1)),
          omega (arith, known.1, done.0),
          broadcast-IsSettled spare arrays s d filled begun done,
        ),
        (Reach-IsSound spare (begin-IsSound spare arrays s filled) begun).entry,
      )

module _ {M : Type 0} (spare : ℕ → ℕ) where
  -- `Ack` is called for a first part of the messages, in their order; and one is left only where the group
  -- had no client when it came.
  pub Consumes-acked :
      {st : Store} {messages : List M} {last : Store} {calls : List (M × Option String)}
      → Consumes spare st messages last calls
      → (rest : List M) × (messages ≡ called calls ++ rest) × ((rest ≡ []) ⊎ (last.entry ≡ none))
  Consumes-acked (waits st) = ([], refl, inl refl)
  Consumes-acked (ends st message messages e) =
      (message ∷ messages, refl, inr (entry-on_delivery st e))
  Consumes-acked (acks st message messages b d next last error calls e run done between more) =
      let (rest, same, why) = Consumes-acked more in (rest, ap (λ ms. message ∷ ms) same, why)

  pub Consumes-IsOver :
      {st last : Store} {messages : List M} {calls : List (M × Option String)}
      → (run : Consumes spare st messages last calls) → EntryIsFilled st.arrays st.entry
      → (length (broadcasts run) ≡ length calls)
        × All IsOver (broadcasts run)
        × EntryIsFilled last.arrays last.entry
  unfolding on_delivery
  Consumes-IsOver (waits st) filled = (refl, tt, filled)
  Consumes-IsOver (ends st message messages e) filled = (refl, tt, filled)
  Consumes-IsOver (acks st message messages b d next last error calls e run done between more)
        filled =
      let (over, kept) = done-IsOver spare st.arrays st.entry b d e run done filled in
      let (len, rest, there) = Consumes-IsOver more (Between-EntryIsFilled spare between kept) in
      (omega (arith, len), (over, rest), there)
