-- ===== src/Ws/GroupClients/Laws.antt =====
-- The manager of the clients of a group against a bag of clients for each group.
use runner_io.Common.{
  ℕ, ◌+◌, ◌-◌, ◌≡◌, ◌≢◌, ◌&&◌, List, [], ◌∷◌, ◌++◌, some, String, str_eq, eq_iff, if◌then◌else◌,
  ◌==◌, or_nil, arith, Option-cases, inl, inr,
}
use runner_io.Common.Bag.{count, count-append}
use runner_io.Common.Map.{lookup, lookup-insert, lookup-delete}
use runner_io.Ws.GroupClients.{
  GroupCodeDataClientManagerMap, add, remove, take_out, drop_if_empty, remove_client,
}

-- How often a client is in a group.
abbrev pub connections : GroupCodeDataClientManagerMap → String → ℕ → ℕ
connections m key c = count c (or_nil (lookup key m))

-- No entry is empty.
abbrev pub IsTidy : GroupCodeDataClientManagerMap → Type 0
IsTidy m = (key : String) → lookup key m ≢ some []

count-take_out :
    (c d : ℕ) (xs : List ℕ) → count d (take_out c xs) ≡ count d xs - (if c == d then 1 else 0)
unfolding take_out
count-take_out c d [] = ground arith
count-take_out c d (x ∷ xs) = ground (arith, count-take_out c d xs)

lookup-drop_if_empty :
    (key j : String) (xs : List ℕ) (m : GroupCodeDataClientManagerMap)
    → or_nil (lookup j (drop_if_empty key xs m))
      ≡ (if str_eq key j then xs else or_nil (lookup j m))
unfolding drop_if_empty
lookup-drop_if_empty key j [] m = ground (arith, lookup-delete key j m)
lookup-drop_if_empty key j (x ∷ xs) m = ground (arith, lookup-insert key j (x ∷ xs) m)

-- `Add` connects the client once more to the group, and changes nothing else.
pub connections-add :
    (key j : String) (c d : ℕ) (m : GroupCodeDataClientManagerMap)
    → connections (add key c m) j d ≡ connections m j d + (if str_eq key j && c == d then 1 else 0)
unfolding add
connections-add key j c d m = ground (
  arith,
  eq_iff key j,
  lookup-insert key j (or_nil (lookup key m) ++ c ∷ []) m,
  count-append d (or_nil (lookup key m)) (c ∷ []),
)

-- `RemoveClient` disconnects the client once from the group, where it is connected, and changes
-- nothing else.
pub connections-remove_client :
    (key j : String) (c d : ℕ) (m : GroupCodeDataClientManagerMap)
    → connections (remove_client key c m) j d
      ≡ connections m j d - (if str_eq key j && c == d then 1 else 0)
unfolding remove_client
connections-remove_client key j c d m = elim (Option-cases (lookup key m)) [
  | inl new ↦ ground (arith, eq_iff key j)
  | inr (old, found) ↦
      ground
        (arith, eq_iff key j, lookup-drop_if_empty key j (take_out c old) m, count-take_out c d old)
]

append-ne-nil : (xs : List ℕ) (c : ℕ) → xs ++ c ∷ [] ≢ []
append-ne-nil [] c e = cc
append-ne-nil (x ∷ xs) c e = cc

drop_if_empty-IsTidy :
    (key : String) (xs : List ℕ) (m : GroupCodeDataClientManagerMap)
    → IsTidy m
    → IsTidy (drop_if_empty key xs m)
unfolding drop_if_empty
drop_if_empty-IsTidy key [] m tidy j e = ground (arith, lookup-delete key j m, tidy j)
drop_if_empty-IsTidy key (x ∷ xs) m tidy j e =
    ground (arith, lookup-insert key j (x ∷ xs) m, tidy j)

remove_client-IsTidy :
    (key : String) (c : ℕ) (m : GroupCodeDataClientManagerMap)
    → IsTidy m
    → IsTidy (remove_client key c m)
unfolding remove_client lookup
remove_client-IsTidy key c m tidy = elim (Option-cases (lookup key m)) [
  | inl new ↦ rw (new, remove_client) tidy
  | inr (old, found) ↦ rw (found, remove_client) (drop_if_empty-IsTidy key (take_out c old) m tidy)
]

-- No method leaves a group without clients in the map.
pub methods-IsTidy :
    (key : String) (c : ℕ) (m : GroupCodeDataClientManagerMap)
    → IsTidy m
    → IsTidy (add key c m) × IsTidy (remove key m) × IsTidy (remove_client key c m)
unfolding add remove
methods-IsTidy key c m tidy = (
  λ j e. ground (
    arith,
    lookup-insert key j (or_nil (lookup key m) ++ c ∷ []) m,
    append-ne-nil (or_nil (lookup key m)) c,
    tidy j,
  ),
  λ j e. ground (arith, lookup-delete key j m, tidy j),
  remove_client-IsTidy key c m tidy,
)
