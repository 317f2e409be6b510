-- ===== src/Api/EatQueue/Runs.antt =====
-- What the loop starts goroutines for, while clients leave.
use mathlib.Core.List.{append-nil, append_assoc}
use runner_io.Common.{
  ==_iff, ℕ, suc, ◌≡◌, refl, ap, sym, ◌∙◌, ◌+◌, List, [], ◌∷◌, ◌++◌, some, length, length-append,
  arith, get_elem?,
}
use runner_io.Ws.GroupSlices.{Cells, array_at, remove_client_slice, close_gap}
use runner_io.Ws.GroupSlices.Cells.{filled-append, filled, last_of, move_down-filled, array_at-set}
use runner_io.Api.EatQueue.{Broadcast, begin, start, wrote, failed, Reach, here, later, IsDone}

pub get_elem?-filled :
    (xs : List ℕ) (c : ℕ) (ys : List ℕ) (rest : Cells)
    → get_elem? (filled (xs ++ c ∷ ys) rest) (length xs) ≡ some (some c)
get_elem?-filled [] c ys rest = refl
get_elem?-filled (x ∷ xs) c ys rest = get_elem?-filled xs c ys rest

-- Seen from one state on, the loop has started these too, and is at its end.
record Started (spare : ℕ → ℕ) (b c : Broadcast) (clients : List ℕ) : Type 0 where
  end : Broadcast
  reached : Reach spare b end
  started : end.started ≡ c.started ++ clients
  index : end.index ≡ end.total
  running : length end.running ≡ length c.running + length clients
  counter : end.counter ≡ c.counter

module _ (spare : ℕ → ℕ) where
  -- The loop runs on from an index to its end, over cells that nobody touches meanwhile.
  start_all :
      (b c : Broadcast) (before clients : List ℕ) (rest : Cells)
      → Reach spare b c
      → array_at c.store.arrays c.array ≡ filled (before ++ clients) rest
      → c.index ≡ length before
      → c.total ≡ c.index + length clients
      → Started spare b c clients
  start_all b c before [] rest r h i t = record {
    end = c;
    reached = r;
    started = sym (append-nil c.started);
    index = omega (arith, t);
    running = omega arith;
    counter = refl;
  }
  start_all b c before (x ∷ clients) rest r h i t =
      let found : get_elem? (array_at c.store.arrays c.array) c.index ≡ some (some x) =
        rw (h, i) (get_elem?-filled before x clients rest) in
      let all =
        start_all b _ (before ++ x ∷ []) clients rest (later r (start c x (omega (arith, t)) found))
          (rw (append_assoc before (x ∷ []) clients) h)
          (omega (arith, i, length-append before (x ∷ []))) (omega (arith, t)) in
      record {
        end = all.end;
        reached = all.reached;
        started = all.started ∙ append_assoc c.started (x ∷ []) clients;
        index = all.index;
        running = omega (arith, all.running);
        counter = all.counter;
      }

  -- All goroutines that run write, and end.
  finish_all :
      (b c : Broadcast) (running : List ℕ)
      → Reach spare b c
      → c.running ≡ running
      → c.counter ≡ length running
      → (d : Broadcast) × Reach spare b d
        × (d.counter ≡ 0)
        × (d.index ≡ c.index)
        × (d.total ≡ c.total)
        × (d.started ≡ c.started)
  finish_all b c [] r e k = (c, r, k, refl, refl, refl)
  finish_all b c (x ∷ running) r e k =
      finish_all b _ running (later r (wrote c [] x running (length running) e k)) refl refl

  closed_gap :
      (x y : ℕ) (clients : List ℕ) (rest : Cells)
      → close_gap x (suc (suc (length clients))) (filled (x ∷ y ∷ clients) rest)
        ≡ some (filled (y ∷ clients) (some (last_of y clients) ∷ rest))
  unfolding close_gap
  closed_gap x y clients rest =
      rw ((==_iff x x).1 refl) (ap some (move_down-filled x (y ∷ clients) rest))

  -- The store behind the first client's failure.
  array-first_leaves :
      (arrays : List Cells) (a x y : ℕ) (clients : List ℕ) (rest : Cells)
      → array_at arrays a ≡ filled (x ∷ y ∷ clients) rest
      → array_at
          (remove_client_slice x (record {
            arrays = arrays;
            entry = some (record { array = a; len = suc (suc (length clients)) });
          })).arrays
          a
        ≡ filled ((y ∷ clients) ++ last_of y clients ∷ []) rest
  unfolding remove_client_slice
  array-first_leaves arrays a x y clients rest h =
      rw (h, closed_gap x y clients rest)
        (array_at-set arrays a _ (omega (arith, ap length h))
          ∙ filled-append (y ∷ clients) (last_of y clients) rest)

  -- The run in which the first client's write fails before the loop goes on.
  broadcast-shifts :
      (arrays : List Cells) (a x y : ℕ) (clients : List ℕ) (rest : Cells)
      → array_at arrays a ≡ filled (x ∷ y ∷ clients) rest
      → (d : Broadcast) × Reach spare
          (begin arrays (record { array = a; len = suc (suc (length clients)) }))
          d
        × IsDone d
        × (d.started ≡ x ∷ clients ++ last_of y clients ∷ [])
  broadcast-shifts arrays a x y clients rest h =
      let b = begin arrays (record { array = a; len = suc (suc (length clients)) }) in
      let first : Reach spare b _ = later here (start b x (omega arith) (rw h refl)) in
      let left : Reach spare b _ = later first (failed _ [] x [] _ refl refl) in
      let all =
        start_all b _ (y ∷ []) (clients ++ last_of y clients ∷ []) rest left
          (array-first_leaves arrays a x y clients rest h) refl
          (omega (arith, length-append clients (last_of y clients ∷ []))) in
      let done =
        finish_all b all.end all.end.running all.reached refl (
          omega
            (arith, all.running, all.counter, length-append clients (last_of y clients ∷ []))) in
      (done.0, done.1, (done.3 ∙ all.index ∙ sym done.4, done.2), done.5 ∙ all.started)

  -- For a slice of three clients or more there is a run to the end in which the loop starts
  -- goroutines for the first client, for those from the third one on, and for the last one again,
  -- so that the position of the second is passed over: the first write fails before the loop goes
  -- on, and takes that client out of the array that the loop still reads.
  pub broadcast-skips :
      (arrays : List Cells) (a x y z : ℕ) (clients : List ℕ) (rest : Cells)
      → array_at arrays a ≡ filled (x ∷ y ∷ z ∷ clients) rest
      → (d : Broadcast) × Reach spare
          (begin arrays (record { array = a; len = suc (suc (suc (length clients))) }))
          d
        × IsDone d
        × (d.started ≡ x ∷ z ∷ clients ++ last_of z clients ∷ [])
  broadcast-skips arrays a x y z clients rest h = broadcast-shifts arrays a x y (z ∷ clients) rest h
