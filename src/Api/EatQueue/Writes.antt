-- ===== src/Api/EatQueue/Writes.antt =====
-- What the goroutines have written when the broadcast is done.
use runner_io.Common.{
  ℕ, subst, String, ◌≡◌, refl, ap, ◌+◌, List, [], ◌∷◌, ◌++◌, length, arith, some,
}
use runner_io.Common.Bag.{count, count-append, of_list, ext, times}
use runner_io.Ws.GroupSlices.{Cells, Slice, Store, array_at}
use runner_io.Ws.GroupSlices.Cells.{filled}
use runner_io.Ws.GroupSlices.Refinement.{IsView}
use runner_io.Ws.GroupClients.{GroupCodeDataClientManagerMap, get}
use runner_io.Ws.GroupClients.Members.{members}
use runner_io.Api.EatQueue.{
  Broadcast, on_delivery, begin, Step, start, wrote, failed, joins, leaves, Reach, here, later,
  IsDone,
}
use runner_io.Api.EatQueue.Cells.{IsFilled, IsFilled-filled}
use runner_io.Api.EatQueue.Safety.{broadcast_lem}
use runner_io.Api.EatQueue.Order.{IsCalm, broadcast-started, seen, begun_broadcast}

-- Every goroutine that has been started runs, has written or has failed to.
abbrev IsSettled : Broadcast → Type 0
IsSettled b =
    (c : ℕ) → count c b.started ≡ count c b.running + count c b.written + count c b.dropped

count-moved :
    (c d : ℕ) (running before after ends : List ℕ)
    → running ≡ before ++ d ∷ after
    → count c running + count c ends ≡ count c (before ++ after) + count c (ends ++ d ∷ [])
count-moved c d running before after ends e = omega (
  arith,
  ap (count c) e,
  count-append c before (d ∷ after),
  count-append c before after,
  count-append c ends (d ∷ []),
)

module _ (spare : ℕ → ℕ) where
  Step-IsSettled : {b d : Broadcast} → Step spare b d → IsSettled b → IsSettled d
  Step-IsSettled (start b d lt e) s c = omega (arith, s c, count-append c b.started (d ∷ []))
  Step-IsSettled (wrote b before d after n r e) s c =
      omega (arith, s c, count-moved c d b.running before after b.written r)
  Step-IsSettled (failed b before d after n r e) s c =
      omega (arith, s c, count-moved c d b.running before after b.dropped r)
  Step-IsSettled (joins b d) s c = s c
  Step-IsSettled (leaves b d) s c = s c

  Reach-IsSettled : {b d : Broadcast} → Reach spare b d → IsSettled b → IsSettled d
  Reach-IsSettled here s = s
  Reach-IsSettled (later r step) s = Step-IsSettled step (Reach-IsSettled r s)

  pub no_length : (xs : List ℕ) → length xs ≡ 0 → xs ≡ []
  no_length [] e = refl
  no_length (x ∷ xs) e = cc

  -- When a broadcast of a slice without a nil is done, each client was written to, or its write failed,
  -- as often as the loop has started a goroutine for it, whoever joins or leaves meanwhile.
  pub broadcast-IsSettled :
      (arrays : List Cells) (s : Slice) (b : Broadcast)
      → IsFilled s.len (array_at arrays s.array)
      → Reach spare (begin arrays s) b
      → IsDone b
      → (c : ℕ) → count c b.started ≡ count c b.written + count c b.dropped
  broadcast-IsSettled arrays s b h r done c =
      let known = broadcast_lem spare arrays s b h r in
      let none_run = no_length b.running (omega (arith, known.2, done.0, done.1)) in
      omega (arith, Reach-IsSettled r (λ c. omega arith) c, ap (count c) none_run)

  calm-dropped : {b d : Broadcast} (r : Reach spare b d) → IsCalm r → d.dropped ≡ b.dropped
  calm-dropped here calm = refl
  calm-dropped (later r (start b c lt e)) calm = calm-dropped r calm.0
  calm-dropped (later r (wrote b xs c ys n e k)) calm = calm-dropped r calm.0
  calm-dropped (later r (failed b xs c ys n e k)) calm = cc
  calm-dropped (later r (joins b c)) calm = calm-dropped r calm.0
  calm-dropped (later r (leaves b c)) calm = cc

  broadcast-written :
      (arrays : List Cells) (a : ℕ) (xs : List ℕ) (rest : Cells) (b : Broadcast)
      → array_at arrays a ≡ filled xs rest
      → (r : Reach spare (begin arrays (record { array = a; len = length xs })) b) → IsCalm r
      → IsDone b
      → (b.started ≡ xs) × (b.dropped ≡ []) × (of_list b.written ≡ of_list xs)
  unfolding times
  broadcast-written arrays a xs rest b h r calm done =
      let started = broadcast-started spare xs arrays a rest b h r calm done in
      let dropped = calm-dropped r calm in
      let settled = broadcast-IsSettled arrays _ b (rw h (IsFilled-filled xs rest)) r done in
      (
        started,
        dropped,
        ext _ _ λ c. omega (arith, settled c, ap (count c) started, ap (count c) dropped),
      )

-- Where the entry on the arrays is that of the manager's map: a message goes to the clients that
-- the manager has for the group. If no write fails and no connection leaves until the broadcast is
-- done, the loop has started one goroutine for each of them, in their order, and they have written
-- to the members of the group, to each as often as it is one, in whatever order; all this whoever joins
-- meanwhile and wherever `append` puts them.
pub on_delivery-written :
    (spare : ℕ → ℕ) (key : String) (m : GroupCodeDataClientManagerMap) (st : Store) (xs : List ℕ)
    (b d : Broadcast)
    → IsView st (get key m)
    → get key m ≡ some xs
    → on_delivery st ≡ some b
    → (r : Reach spare b d) → IsCalm r
    → IsDone d
    → (d.started ≡ xs) × (of_list d.written ≡ members key m)
unfolding members
on_delivery-written spare key m st xs b d view found delivered r calm done =
    let (a, rest, e, h) = seen st xs (rw found at view) in
    let (started, dropped, written) =
      subst
        (λ b.
          (r : Reach spare b d)
          → IsCalm r
          → IsDone d
          → (d.started ≡ xs) × (d.dropped ≡ []) × (of_list d.written ≡ of_list xs))
        (begun_broadcast st _ b e delivered) (broadcast-written spare st.arrays a xs rest d h) r
        calm done in
    (started, rw found written)
