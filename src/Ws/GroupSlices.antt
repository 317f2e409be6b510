-- ===== src/Ws/GroupSlices.antt =====
-- The entry of one group in internal/dto/ws/group_code_data.go with the arrays behind its slices: `append`
-- writes into the array that it is given, where that has room. A client is a pointer, here a number.
pub mod Cells
pub mod Refinement
use runner_io.Common.{
  ℕ, zero, suc, ◌+◌, Bool, false, List, [], ◌∷◌, ◌++◌, Option, none, some, if◌then◌else◌, ◌==◌, ltb,
  or_nil, length, get_elem?, set, replicate,
}

-- A cell is `none` where it is nil.
abbrev pub Cells : Type 0
Cells = List (Option ℕ)

-- A slice from the start of an array, which a number names.
pub record Slice : Type 0 where
  pub array : ℕ
  pub len : ℕ

-- The arrays, and the entry of the group in the map.
pub record Store : Type 0 where
  pub arrays : List Cells
  pub entry : Option Slice

abbrev pub array_at : List Cells → ℕ → Cells
array_at arrays a = or_nil (get_elem? arrays a)

-- The first cells of an array.
abbrev pub front : ℕ → Cells → Cells
front zero cells = []
front (suc n) [] = []
front (suc n) (x ∷ cells) = x ∷ front n cells

-- A missing entry reads as the nil slice, which has no array.
abbrev pub slice_of : Store → Slice
slice_of st = elim st.entry [ none ↦ record { array = length st.arrays; len = 0 } | some s ↦ s ]

-- `append` of one client: in place where the array has room, otherwise in a new array, with as many
-- spare cells as the runtime chooses.
unfoldable pub append_one : (ℕ → ℕ) → ℕ → Slice → List Cells → Store
append_one spare client s arrays =
    if ltb s.len (length (array_at arrays s.array))
    then (record {
      arrays = set arrays s.array (set (array_at arrays s.array) s.len (some client));
      entry = some (record s { len = suc s.len });
    })
    else (record {
      arrays =
          arrays
          ++ (front s.len (array_at arrays s.array) ++ some client ∷ replicate (spare s.len) none)
            ∷ [];
      entry = some (record { array = length arrays; len = suc s.len });
    })

unfoldable pub add_slice : (ℕ → ℕ) → ℕ → Store → Store
unfolding append_one
add_slice spare client st = append_one spare client (slice_of st) st.arrays

-- `append(clients[:i], clients[i+1:]...)` from the cell of `i` on: that many cells behind it move down
-- by one, and the last of them stays where it was too.
abbrev pub move_down : ℕ → Cells → Cells
move_down zero cells = cells
move_down (suc n) [] = []
move_down (suc n) (x ∷ []) = x ∷ []
move_down (suc n) (x ∷ y ∷ cells) = y ∷ move_down n (y ∷ cells)

abbrev pub is_client : ℕ → Option ℕ → Bool
is_client client none = false
is_client client (some c) = c == client

abbrev pub behind : Option ℕ → Option Cells → Option Cells
behind x none = none
behind x (some cells) = some (x ∷ cells)

-- The loop of `RemoveClient` over a slice of this length: the array afterwards, where it has the client.
unfoldable pub close_gap : ℕ → ℕ → Cells → Option Cells
close_gap client zero cells = none
close_gap client (suc n) [] = none
close_gap client (suc n) (x ∷ cells) =
    let rest = close_gap client n cells in
    if is_client client x then some (move_down n (x ∷ cells)) else behind x rest

-- A slice that is one shorter is put into the map, but an empty one is taken out.
abbrev pub entry_or_none : ℕ → ℕ → Option Slice
entry_or_none a zero = none
entry_or_none a (suc n) = some (record { array = a; len = suc n })

abbrev pub less_one : ℕ → ℕ
less_one zero = zero
less_one (suc n) = n

abbrev pub closed : Slice → List Cells → Option Cells → Store
closed s arrays none = record { arrays = arrays; entry = entry_or_none s.array s.len }
closed s arrays (some cells) = record {
  arrays = set arrays s.array cells;
  entry = entry_or_none s.array (less_one s.len);
}

abbrev pub remove_from : ℕ → Option Slice → List Cells → Store
remove_from client none arrays = record { arrays = arrays; entry = none }
remove_from client (some s) arrays =
    closed s arrays (close_gap client s.len (array_at arrays s.array))

unfoldable pub remove_client_slice : ℕ → Store → Store
unfolding close_gap
remove_client_slice client st = remove_from client st.entry st.arrays
