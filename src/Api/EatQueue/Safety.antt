-- ===== src/Api/EatQueue/Safety.antt =====
-- The bookkeeping of the broadcast, and that it never stops before its end.
use runner_io.Common.{
  ℕ, suc, ◌≡◌, refl, ◌≤◌, ◌+◌, ◌-◌, ap, List, [], ◌∷◌, ◌++◌, length, length-append, arith,
}
use runner_io.Ws.GroupSlices.{Cells, Slice, array_at}
use runner_io.Api.EatQueue.{
  Broadcast, begin, Step, start, wrote, failed, joins, leaves, Reach, here, later,
}
use runner_io.Api.EatQueue.Cells.{IsFilled}
use runner_io.Api.EatQueue.Stores.{EntryIsFilled, add_slice-IsKept, remove_client_slice-IsKept}

-- A store whose entry and ranged slice have no nil, and the counts of the loop and of the WaitGroup.
pub record IsSound (b : Broadcast) : Type 0 where
  pub entry : EntryIsFilled b.store.arrays b.store.entry
  ranged : IsFilled b.total (array_at b.store.arrays b.array)
  within : b.index ≤ b.total
  noted : length b.started ≡ b.index
  counted : b.counter + b.index ≡ length b.running + b.total

module _ (spare : ℕ → ℕ) where
  length-middle :
      (xs : List ℕ) (c : ℕ) (ys : List ℕ) → length (xs ++ c ∷ ys) ≡ suc (length (xs ++ ys))
  length-middle [] c ys = refl
  length-middle (x ∷ xs) c ys = omega (arith, length-middle xs c ys)

  -- `wg.Done` at the end of a goroutine.
  ended :
      (running before : List ℕ) (c : ℕ) (after : List ℕ) (counter n i t : ℕ)
      → running ≡ before ++ c ∷ after
      → counter ≡ suc n
      → counter + i ≡ length running + t
      → n + i ≡ length (before ++ after) + t
  ended running before c after counter n i t r e h =
      omega (arith, ap length r, length-middle before c after, e, h)

  Step-IsSound : {b d : Broadcast} → Step spare b d → IsSound b → IsSound d
  Step-IsSound (start b c lt e) s = record {
    entry = s.entry;
    ranged = s.ranged;
    within = omega (arith, lt);
    noted = omega (arith, length-append b.started (c ∷ []), s.noted);
    counted = omega (arith, s.counted);
  }
  Step-IsSound (wrote b before c after n r e) s = record {
    entry = s.entry;
    ranged = s.ranged;
    within = s.within;
    noted = s.noted;
    counted = ended b.running before c after b.counter n b.index b.total r e s.counted;
  }
  Step-IsSound (failed b before c after n r e) s =
      let kept = remove_client_slice-IsKept c b.store s.entry in
      record {
        entry = kept.entry;
        ranged = kept.others b.total b.array s.ranged;
        within = s.within;
        noted = s.noted;
        counted = ended b.running before c after b.counter n b.index b.total r e s.counted;
      }
  Step-IsSound (joins b c) s =
      let kept = add_slice-IsKept spare c b.store s.entry in
      record {
        entry = kept.entry;
        ranged = kept.others b.total b.array s.ranged;
        within = s.within;
        noted = s.noted;
        counted = s.counted;
      }
  Step-IsSound (leaves b c) s =
      let kept = remove_client_slice-IsKept c b.store s.entry in
      record {
        entry = kept.entry;
        ranged = kept.others b.total b.array s.ranged;
        within = s.within;
        noted = s.noted;
        counted = s.counted;
      }

  pub begin-IsSound :
      (arrays : List Cells) (s : Slice)
      → IsFilled s.len (array_at arrays s.array)
      → IsSound (begin arrays s)
  begin-IsSound arrays s h = record {
    entry = h;
    ranged = h;
    within = omega arith;
    noted = refl;
    counted = omega arith;
  }

  pub Reach-IsSound : {b d : Broadcast} → IsSound b → Reach spare b d → IsSound d
  Reach-IsSound s here = s
  Reach-IsSound s (later r step) = Step-IsSound step (Reach-IsSound s r)

  -- For a slice without a nil, and whoever joins, leaves or cannot be written to in the meantime:
  -- the loop starts no more goroutines than there were clients in the slice that it began with,
  -- one for each index that it has passed, and the counter of the WaitGroup is the number of the
  -- goroutines that run and of those to come.
  pub broadcast_lem :
      (arrays : List Cells) (s : Slice) (b : Broadcast)
      → IsFilled s.len (array_at arrays s.array)
      → Reach spare (begin arrays s) b
      → (b.index ≤ b.total)
        × (length b.started ≡ b.index)
        × (b.counter ≡ length b.running + (b.total - b.index))
  broadcast_lem arrays s b h r =
      let sound = Reach-IsSound (begin-IsSound arrays s h) r in
      (sound.within, sound.noted, omega (arith, sound.within, sound.counted))

  -- What the loop and its goroutines have still to do.
  abbrev pub work : Broadcast → ℕ
  work b = (b.total - b.index) + b.counter
