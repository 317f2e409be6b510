-- ===== src/Api/EatQueue/Stores.antt =====
-- No operation on a group's slice puts a nil below the length of a slice on the same arrays.
use runner_io.Common.{
  ℕ, zero, suc, Bool-cases, inl, inr, ltb, ltb→lt, List, Option, none, some, length, set, arith,
}
use runner_io.Ws.GroupSlices.{
  Cells, Slice, Store, array_at, slice_of, entry_or_none, less_one, closed, append_one, add_slice,
  close_gap, remove_from, remove_client_slice,
}
use runner_io.Ws.GroupSlices.Cells.{array_at-new, array_at-set}
use runner_io.Api.EatQueue.Cells.{
  IsFilled, IsFilledBoth, IsFilled-set, IsFilled-set-end, IsFilled-front, IsFilled-less,
  IsFilled-close_gap, array_at-set-IsFilled, array_at-new-IsFilled,
}

abbrev pub EntryIsFilled : List Cells → Option Slice → Type 0
EntryIsFilled arrays none = Unit
EntryIsFilled arrays (some s) = IsFilled s.len (array_at arrays s.array)

-- The entry is filled again, and so is every slice that was.
pub record IsKept (arrays : List Cells) (st : Store) : Type 0 where
  pub entry : EntryIsFilled st.arrays st.entry
  pub others : (n a : ℕ) → IsFilled n (array_at arrays a) → IsFilled n (array_at st.arrays a)

append_one-IsKept :
    (spare : ℕ → ℕ) (c : ℕ) (s : Slice) (arrays : List Cells)
    → IsFilled s.len (array_at arrays s.array)
    → IsKept arrays (append_one spare c s arrays)
unfolding append_one
append_one-IsKept spare c s arrays h =
    elim (Bool-cases (ltb s.len (length (array_at arrays s.array)))) [
      | inl e ↦ rw e (record {
        entry =
            rw
              (array_at-set arrays s.array (set (array_at arrays s.array) s.len (some c))
                (ground (arith, e)))
              (IsFilled-set-end s.len (array_at arrays s.array) c h (ltb→lt _ _ e));
        others = λ n a g. array_at-set-IsFilled n arrays s.array _ a g (IsFilled-set n s.len _ c);
      })
      | inr e ↦ rw e (record {
        entry = rw (array_at-new arrays) (IsFilled-front s.len (array_at arrays s.array) c _ h);
        others = λ n a g. array_at-new-IsFilled n arrays _ a g;
      })
    ]

slice_of-IsFilled :
    (st : Store)
    → EntryIsFilled st.arrays st.entry
    → IsFilled (slice_of st).len (array_at st.arrays (slice_of st).array)
slice_of-IsFilled st h = go st.arrays st.entry h
  where
    go :
        (arrays : List Cells) (o : Option Slice)
        → EntryIsFilled arrays o
        → IsFilled
            (slice_of (record { arrays = arrays; entry = o })).len
            (array_at arrays (slice_of (record { arrays = arrays; entry = o })).array)
    go arrays none h = tt
    go arrays (some s) h = h

pub add_slice-IsKept :
    (spare : ℕ → ℕ) (c : ℕ) (st : Store)
    → EntryIsFilled st.arrays st.entry
    → IsKept st.arrays (add_slice spare c st)
unfolding add_slice
add_slice-IsKept spare c st h =
    append_one-IsKept spare c (slice_of st) st.arrays (slice_of-IsFilled st h)

entry_or_none-IsFilled :
    (a n : ℕ) (arrays : List Cells)
    → IsFilled n (array_at arrays a)
    → EntryIsFilled arrays (entry_or_none a n)
entry_or_none-IsFilled a zero arrays h = tt
entry_or_none-IsFilled a (suc n) arrays h = h

less_one-IsFilled : (n : ℕ) (cells : Cells) → IsFilled n cells → IsFilled (less_one n) cells
less_one-IsFilled zero cells h = tt
less_one-IsFilled (suc n) cells h = IsFilled-less n cells h

closed-IsKept :
    (s : Slice) (arrays : List Cells) (o : Option Cells)
    → IsFilled s.len (array_at arrays s.array)
    → ((n : ℕ) → IsFilled n (array_at arrays s.array) → IsFilledBoth n o)
    → IsKept arrays (closed s arrays o)
closed-IsKept s arrays none h f = record {
  entry = entry_or_none-IsFilled s.array s.len arrays h;
  others = λ n a g. g;
}
closed-IsKept s arrays (some cells) h f = record {
  entry = entry_or_none-IsFilled s.array (less_one s.len) (set arrays s.array cells) (
      less_one-IsFilled s.len _
        (array_at-set-IsFilled s.len arrays s.array cells s.array h (f s.len)));
  others = λ n a g. array_at-set-IsFilled n arrays s.array cells a g (f n);
}

pub remove_client_slice-IsKept :
    (c : ℕ) (st : Store)
    → EntryIsFilled st.arrays st.entry
    → IsKept st.arrays (remove_client_slice c st)
unfolding remove_client_slice
remove_client_slice-IsKept c st h = go st.arrays st.entry h
  where
    go :
        (arrays : List Cells) (o : Option Slice)
        → EntryIsFilled arrays o
        → IsKept arrays (remove_from c o arrays)
    go arrays none h = record { entry = tt; others = λ n a g. g }
    go arrays (some s) h =
        closed-IsKept s arrays (close_gap c s.len (array_at arrays s.array)) h
          (λ n g. IsFilled-close_gap c n s.len (array_at arrays s.array) g h)
