-- ===== src/Ws/GroupClients.antt =====
-- internal/dto/ws/group_code_data.go. A client is a pointer, here a number.
pub mod Laws
pub mod Members
use runner_io.Common.{
  ℕ, Bool, List, [], ◌∷◌, ◌++◌, Option, none, some, String, if◌then◌else◌, ◌==◌, or_nil, length,
}
use runner_io.Common.Map.{Map, lookup, insert, delete}

abbrev pub GroupCodeDataClientManagerMap : Type 0
GroupCodeDataClientManagerMap = Map (List ℕ)

unfoldable pub new_group_code_data_client_manager_map : GroupCodeDataClientManagerMap
new_group_code_data_client_manager_map = []

unfoldable pub add : String → ℕ → GroupCodeDataClientManagerMap → GroupCodeDataClientManagerMap
unfolding lookup insert
add key client m = insert key (or_nil (lookup key m) ++ client ∷ []) m

unfoldable pub remove : String → GroupCodeDataClientManagerMap → GroupCodeDataClientManagerMap
unfolding delete
remove key m = delete key m

unfoldable pub get : String → GroupCodeDataClientManagerMap → Option (List ℕ)
unfolding lookup
get key m = lookup key m

-- The loop: the first occurrence of the client is taken out.
unfoldable pub take_out : ℕ → List ℕ → List ℕ
take_out client [] = []
take_out client (c ∷ clients) = if c == client then clients else c ∷ take_out client clients

-- The end of the method: a group with no client loses its entry.
unfoldable pub drop_if_empty :
    String → List ℕ → GroupCodeDataClientManagerMap → GroupCodeDataClientManagerMap
unfolding delete insert
drop_if_empty key [] m = delete key m
drop_if_empty key (c ∷ clients) m = insert key (c ∷ clients) m

unfoldable pub remove_client :
    String → ℕ → GroupCodeDataClientManagerMap → GroupCodeDataClientManagerMap
unfolding lookup take_out drop_if_empty
remove_client key client m = elim (lookup key m) [
  | none ↦ m
  | some clients ↦ drop_if_empty key (take_out client clients) m
]
