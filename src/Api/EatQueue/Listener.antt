-- ===== src/Api/EatQueue/Listener.antt =====
-- The goroutine of the consumer as a whole: it registers with RabbitMQ, gets through the messages that the
-- channel gives, and registers again when the channel is closed.
use mathlib.Core.List.{append_assoc, map-append}
use runner_io.Common.{
  ℕ, ◌≡◌, refl, sym, ap, ◌∙◌, ◌⊎◌, inl, inr, ◌<◌, List, [], ◌∷◌, ◌++◌, Option, none, String, length,
  length-append, All, All-append, arith,
}
use runner_io.Ws.GroupSlices.{Store}
use runner_io.Api.EatQueue.{Broadcast}
use runner_io.Api.EatQueue.Stores.{EntryIsFilled}
use runner_io.Api.EatQueue.Consumer.{
  Between, Consumes, called, broadcasts, IsOver, Consumes-acked, Consumes-IsOver,
  Between-EntryIsFilled,
}

-- A call of `Consume`: its error, or the messages that come until the channel is closed.
pub data Session {ℓ} (M : Type ℓ) : Type ℓ where
  refused : Session M
  delivered : List M → Session M

-- From a store, these calls of `Consume` lead to a store, with these calls of `Ack`. The goroutine ends with
-- a call that is refused and behind a message whose group has no client, and otherwise goes on with the
-- next call.
pub data Listens {M : Type 0} (spare : ℕ → ℕ)
    : Store → List (Session M) → Store → List (M × Option String) → Type 0 where
  open_end : (st : Store) → Listens spare st [] st []
  stops : (st : Store) (sessions : List (Session M)) → Listens spare st (refused ∷ sessions) st []
  returns :
      (st : Store) (came : List M) (message : M) (messages : List M) (sessions : List (Session M))
      (last : Store) (calls : List (M × Option String))
      → Consumes spare st came last calls
      → came ≡ called calls ++ message ∷ messages
      → Listens spare st (delivered came ∷ sessions) last calls
  again :
      (st : Store) (came : List M) (sessions : List (Session M)) (next next' last : Store)
      (calls more : List (M × Option String))
      → Consumes spare st came next calls
      → came ≡ called calls
      → Between spare next next'
      → Listens spare next' sessions last more
      → Listens spare st (delivered came ∷ sessions) last (calls ++ more)

-- The messages up to the first call that is refused.
abbrev pub messages_of {ℓ} : {M : Type ℓ} → List (Session M) → List M
messages_of [] = []
messages_of (refused ∷ sessions) = []
messages_of (delivered messages ∷ sessions) = messages ++ messages_of sessions

-- The broadcasts at the calls of `Ack`, in all sessions.
abbrev pub all_broadcasts :
    {M : Type 0} {spare : ℕ → ℕ} {st last : Store} {sessions : List (Session M)}
    {calls : List (M × Option String)}
    → Listens spare st sessions last calls
    → List Broadcast
all_broadcasts (open_end st) = []
all_broadcasts (stops st sessions) = []
all_broadcasts (returns st came message messages sessions last calls run same) = broadcasts run
all_broadcasts (again st came sessions next next' last calls more run same between rest) =
    broadcasts run ++ all_broadcasts rest

not_all :
    {M : Type 0} {E : Type 0} (came acked : List M) (message : M) (messages : List M)
    → came ≡ acked ++ message ∷ messages
    → (rest : List M) × (came ≡ acked ++ rest) × ((rest ≡ []) ⊎ E)
    → E
not_all came acked message messages left ([], same, why) =
    let never : 0 < 0 = omega (
      arith,
      ap length left,
      ap length same,
      length-append acked (message ∷ messages),
      length-append acked [],
    ) in
    elim never [ ]
not_all came acked message messages left (m ∷ rest, same, inl e) = cc
not_all came acked message messages left (m ∷ rest, same, inr e) = e

module _ {M : Type 0} (spare : ℕ → ℕ) where
  Listens-called :
      {st last : Store} {sessions : List (Session M)} {calls : List (M × Option String)}
      → Listens spare st sessions last calls
      → (rest : List M) × (messages_of sessions ≡ called calls ++ rest)
        × ((rest ≡ []) ⊎ (last.entry ≡ none))
  Listens-called (open_end st) = ([], refl, inl refl)
  Listens-called (stops st sessions) = ([], refl, inl refl)
  Listens-called (returns st came message messages sessions last calls run same) = (
    message ∷ messages ++ messages_of sessions,
    ap (λ ms. ms ++ messages_of sessions) same
        ∙ append_assoc (called calls) (message ∷ messages) (messages_of sessions),
    inr (not_all came (called calls) message messages same (Consumes-acked spare run)),
  )
  Listens-called (again st came sessions next next' last calls more run same between listens) =
      let (rest, whole, why) = Listens-called listens in
      (
        rest,
        rw (same, whole, map-append (λ a. a.0) calls more)
            (sym (append_assoc (called calls) (called more) rest)),
        why,
      )

  Listens-IsOver :
      {st last : Store} {sessions : List (Session M)} {calls : List (M × Option String)}
      → (run : Listens spare st sessions last calls) → EntryIsFilled st.arrays st.entry
      → (length (all_broadcasts run) ≡ length calls) × All IsOver (all_broadcasts run)
  Listens-IsOver (open_end st) filled = (refl, tt)
  Listens-IsOver (stops st sessions) filled = (refl, tt)
  Listens-IsOver (returns st came message messages sessions last calls run same) filled =
      let (len, over, kept) = Consumes-IsOver spare run filled in (len, over)
  Listens-IsOver (again st came sessions next next' last calls more run same between listens)
        filled =
      let (len, over, kept) = Consumes-IsOver spare run filled in
      let (len', over') = Listens-IsOver listens (Between-EntryIsFilled spare between kept) in
      (
        omega (
          arith,
          len,
          len',
          length-append (broadcasts run) (all_broadcasts listens),
          length-append calls more,
        ),
        All-append IsOver (broadcasts run) (all_broadcasts listens) over over',
      )

  -- From a group whose slice has no nil: of all the messages that come while the goroutine is registered,
  -- in all its sessions, `Ack` is called for a first part, in their order and once each, and for each of
  -- them when its broadcast is over: as many goroutines as the slice had clients have been started, none
  -- of them runs, and for each the write to its client has succeeded or failed; all this whatever errors
  -- the calls of `Ack` report. A message is left only where the group has no client any more.
  pub Listens-acked :
      (st : Store) (sessions : List (Session M)) (last : Store) (calls : List (M × Option String))
      → (run : Listens spare st sessions last calls) → EntryIsFilled st.arrays st.entry
      → ((rest : List M) × (messages_of sessions ≡ called calls ++ rest)
          × ((rest ≡ []) ⊎ (last.entry ≡ none)))
        × (length (all_broadcasts run) ≡ length calls)
        × All IsOver (all_broadcasts run)
  Listens-acked st sessions last calls run filled =
      let (len, over) = Listens-IsOver run filled in (Listens-called run, len, over)
