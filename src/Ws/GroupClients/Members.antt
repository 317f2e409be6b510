-- ===== src/Ws/GroupClients/Members.antt =====
-- The clients of a group as a bag: the order in which the manager keeps them is forgotten.
use runner_io.Common.{ℕ, ◌≡◌, Bool-cases, inl, inr, String, str_eq, if◌then◌else◌, or_nil, arith}
use runner_io.Common.Bag.{Bag, of_list, times, ext, put}
use runner_io.Ws.GroupClients.{GroupCodeDataClientManagerMap, get, add, remove_client}
use runner_io.Ws.GroupClients.Laws.{connections-add, connections-remove_client}

-- A group without an entry has no members.
unfoldable pub members : String → GroupCodeDataClientManagerMap → Bag
unfolding get
members key m = of_list (or_nil (get key m))

members-add :
    (key j : String) (c : ℕ) (m : GroupCodeDataClientManagerMap)
    → members j (add key c m) ≡ (if str_eq key j then put c (members j m) else members j m)
unfolding members times put
members-add key j c m = elim (Bool-cases (str_eq key j)) [
  | inl e ↦ rw e (ext _ _ λ d. ground (arith, connections-add key j c d m, e))
  | inr e ↦ rw e (ext _ _ λ d. ground (arith, connections-add key j c d m, e))
]

members-remove_client-add :
    (key j : String) (c : ℕ) (m : GroupCodeDataClientManagerMap)
    → members j (remove_client key c (add key c m)) ≡ members j m
unfolding members times
members-remove_client-add key j c m = ext _ _ λ d.
    ground (arith, connections-remove_client key j c d (add key c m), connections-add key j c d m)

-- `Add` puts the client once more among the members of its group and leaves the other groups as they
-- are. A `RemoveClient` of the client behind it gives every group its members back, though the order
-- of the clients may have changed.
pub methods-members :
    (key j : String) (c : ℕ) (m : GroupCodeDataClientManagerMap)
    → (members j (add key c m) ≡ (if str_eq key j then put c (members j m) else members j m))
      × (members j (remove_client key c (add key c m)) ≡ members j m)
methods-members key j c m = (members-add key j c m, members-remove_client-add key j c m)
