-- ===== src/Ws/GroupSlices/Refinement.antt =====
-- The methods on slices do what those of Ws/GroupClients.antt do on lists.
use runner_io.Common.{
  ℕ, suc, ◌+◌, ◌≡◌, refl, ap, sym, ◌∙◌, List, [], ◌∷◌, ◌++◌, Option, none, some, length, arith,
  length-append, set, replicate, or_nil, String, eq_iff, Option-cases, inl, inr, ltb, true, false,
}
use runner_io.Common.Map.{lookup, lookup-insert, lookup-delete}
use runner_io.Ws.GroupClients.{
  GroupCodeDataClientManagerMap, add, take_out, drop_if_empty, remove_client,
}
use runner_io.Ws.GroupSlices.{
  Cells, Slice, Store, array_at, append_one, add_slice, entry_or_none, less_one, closed,
  remove_client_slice,
}
use runner_io.Ws.GroupSlices.Cells.{
  filled, length-filled, front-filled, set-filled, filled-append, Closes, close_gap-Closes,
  array_at-set, array_at-new, array_at-end,
}

-- The entry holds these clients, in the first cells of its array.
unfoldable pub IsView : Store → Option (List ℕ) → Type 0
IsView st none = st.entry ≡ none
IsView st (some clients) =
    (a : ℕ) × (rest : Cells) × (st.entry ≡ some (record { array = a; len = length clients }))
    × (array_at st.arrays a ≡ filled clients rest)

abbrev slice : ℕ → List ℕ → Slice
slice a clients = record { array = a; len = length clients }

abbrev pub if_some : List ℕ → Option (List ℕ)
if_some [] = none
if_some (x ∷ xs) = some (x ∷ xs)

room :
    (a : ℕ) (arrays : List Cells) (xs : List ℕ) (rest : Cells)
    → array_at arrays a ≡ filled xs rest
    → length (array_at arrays a) ≡ length xs + length rest
room a arrays xs rest h = ap length h ∙ length-filled xs rest

full :
    (a : ℕ) (arrays : List Cells) (xs : List ℕ)
    → array_at arrays a ≡ filled xs []
    → ltb (length xs) (length (array_at arrays a)) ≡ false
full a arrays xs h = ground (arith, room a arrays xs [] h)

not_full :
    (a : ℕ) (arrays : List Cells) (xs : List ℕ) (y : Option ℕ) (rest : Cells)
    → array_at arrays a ≡ filled xs (y ∷ rest)
    → ltb (length xs) (length (array_at arrays a)) ≡ true
not_full a arrays xs y rest h = ground (arith, room a arrays xs (y ∷ rest) h)

slice-append :
    (a c : ℕ) (xs : List ℕ)
    → some (record { array = a; len = suc (length xs) }) ≡ some (slice a (xs ++ c ∷ []))
slice-append a c xs =
    ap (λ n. some (record { array = a; len = n })) (omega (arith, length-append xs (c ∷ [])))

append_one-IsView :
    (spare : ℕ → ℕ) (c a : ℕ) (arrays : List Cells) (xs : List ℕ) (rest : Cells)
    → array_at arrays a ≡ filled xs rest
    → IsView (append_one spare c (slice a xs) arrays) (some (xs ++ c ∷ []))
unfolding append_one IsView
append_one-IsView spare c a arrays xs [] h = rw (full a arrays xs h) (
  length arrays,
  replicate (spare (length xs)) none,
  slice-append (length arrays) c xs,
  array_at-new arrays _
      ∙ rw (h, front-filled xs []) (filled-append xs c (replicate (spare (length xs)) none)),
)
append_one-IsView spare c a arrays xs (y ∷ rest) h = rw (not_full a arrays xs y rest h) (
  a,
  rest,
  slice-append a c xs,
  array_at-set arrays a _ (omega (arith, room a arrays xs (y ∷ rest) h))
      ∙ rw h (set-filled xs y rest c),
)

entry_or_none-IsView :
    (a n : ℕ) (arrays : List Cells) (taken : List ℕ) (rest : Cells)
    → n ≡ length taken
    → array_at arrays a ≡ filled taken rest
    → IsView (record { arrays = arrays; entry = entry_or_none a n }) (if_some taken)
unfolding IsView
entry_or_none-IsView a n arrays [] rest e h = ap (entry_or_none a) e
entry_or_none-IsView a n arrays (x ∷ taken) rest e h = (a, rest, ap (entry_or_none a) e, h)

close-IsView :
    (a : ℕ) (arrays : List Cells) (xs taken : List ℕ) (rest : Cells) (o : Option Cells)
    → array_at arrays a ≡ filled xs rest
    → Closes taken xs rest o
    → IsView (closed (slice a xs) arrays o) (if_some taken)
unfolding IsView
close-IsView a arrays xs taken rest none h t =
    entry_or_none-IsView a (length xs) arrays taken rest (ap length (sym t))
      (h ∙ ap (λ ys. filled ys rest) (sym t))
close-IsView a arrays xs taken rest (some cells) h (y, e, l) =
    entry_or_none-IsView a (less_one (length xs)) (set arrays a cells) taken (some y ∷ rest)
      (ap less_one l) (array_at-set arrays a cells (omega (arith, room a arrays xs rest h, l)) ∙ e)

-- The arrays of a group without an entry.
nil_slice-IsView :
    (spare : ℕ → ℕ) (c : ℕ) (st : Store)
    → st.entry ≡ none
    → IsView (add_slice spare c st) (some (c ∷ []))
unfolding add_slice
nil_slice-IsView spare c st e =
    rw e (append_one-IsView spare c (length st.arrays) st.arrays [] [] (array_at-end st.arrays))

add_slice-IsView :
    (spare : ℕ → ℕ) (c : ℕ) (st : Store) (o : Option (List ℕ))
    → IsView st o
    → IsView (add_slice spare c st) (some (or_nil o ++ c ∷ []))
unfolding add_slice IsView
add_slice-IsView spare c st none e = nil_slice-IsView spare c st e
add_slice-IsView spare c st (some xs) (a, rest, e, h) =
    rw e (append_one-IsView spare c a st.arrays xs rest h)

-- What `RemoveClient` makes of an entry.
abbrev pub without : ℕ → Option (List ℕ) → Option (List ℕ)
without c none = none
without c (some xs) = if_some (take_out c xs)

remove_client_slice-IsView :
    (c : ℕ) (st : Store) (o : Option (List ℕ))
    → IsView st o
    → IsView (remove_client_slice c st) (without c o)
unfolding remove_client_slice IsView
remove_client_slice-IsView c st none e = rw e refl
remove_client_slice-IsView c st (some xs) (a, rest, e, h) =
    rw (e, h) (close-IsView a st.arrays xs (take_out c xs) rest _ h (close_gap-Closes c xs rest))

lookup-add :
    (key : String) (c : ℕ) (m : GroupCodeDataClientManagerMap)
    → lookup key (add key c m) ≡ some (or_nil (lookup key m) ++ c ∷ [])
unfolding add
lookup-add key c m =
    ground (arith, eq_iff key key, lookup-insert key key (or_nil (lookup key m) ++ c ∷ []) m)

lookup-drop :
    (key : String) (xs : List ℕ) (m : GroupCodeDataClientManagerMap)
    → lookup key (drop_if_empty key xs m) ≡ if_some xs
unfolding drop_if_empty
lookup-drop key [] m = ground (arith, eq_iff key key, lookup-delete key key m)
lookup-drop key (x ∷ xs) m = ground (arith, eq_iff key key, lookup-insert key key (x ∷ xs) m)

lookup-remove_client :
    (key : String) (c : ℕ) (m : GroupCodeDataClientManagerMap)
    → lookup key (remove_client key c m) ≡ without c (lookup key m)
unfolding remove_client
lookup-remove_client key c m = elim (Option-cases (lookup key m)) [
  | inl new ↦ rw (remove_client, new) new
  | inr (old, found) ↦ rw (remove_client, found) (lookup-drop key (take_out c old) m)
]

-- Where the entry of a group on the arrays is that of the map, it is so after `Add` and after
-- `RemoveClient` of the same client, for any spare room that `append` chooses.
pub methods-IsView :
    (spare : ℕ → ℕ) (key : String) (c : ℕ) (m : GroupCodeDataClientManagerMap) (st : Store)
    → IsView st (lookup key m)
    → IsView (add_slice spare c st) (lookup key (add key c m))
      × IsView (remove_client_slice c st) (lookup key (remove_client key c m))
methods-IsView spare key c m st h = (
  rw (lookup-add key c m) (add_slice-IsView spare c st (lookup key m) h),
  rw (lookup-remove_client key c m) (remove_client_slice-IsView c st (lookup key m) h),
)
