-- ===== src/Api/EatQueue/Joins.antt =====
-- The cells of a broadcast's clients, while other clients join the group.
use runner_io.Common.{
  ℕ, zero, suc, ◌≡◌, refl, ap, ◌≤◌, List, [], ◌∷◌, ◌++◌, some, length, arith, set, Bool-cases, ltb,
  inl, inr,
}
use runner_io.Ws.GroupSlices.{Cells, Slice, Store, array_at, append_one, add_slice}
use runner_io.Ws.GroupSlices.Cells.{filled, array_at-end}

-- The clients are in the first cells.
abbrev pub Holds : List ℕ → Cells → Type 0
Holds xs cells = (rest : Cells) × (cells ≡ filled xs rest)

set-Holds :
    (xs : List ℕ) (cells : Cells) (i c : ℕ)
    → length xs ≤ i
    → Holds xs cells
    → Holds xs (set cells i (some c))
set-Holds [] cells i c le h = (_, refl)
set-Holds (x ∷ xs) cells zero c le h = elim le [ ]
set-Holds (x ∷ xs) cells (suc i) c le (rest, e) =
    let found = set-Holds xs (filled xs rest) i c (omega (arith, le)) (rest, refl) in
    (found.0, rw e (ap (λ ys. some x ∷ ys) found.1))

array_at-set-Holds :
    (xs : List ℕ) (arrays : List Cells) (a : ℕ) (cells : Cells) (b : ℕ)
    → Holds xs (array_at arrays b)
    → (a ≡ b → Holds xs (array_at arrays a) → Holds xs cells)
    → Holds xs (array_at (set arrays a cells) b)
array_at-set-Holds xs [] a cells b h f = h
array_at-set-Holds xs (x ∷ arrays) zero cells zero h f = f refl h
array_at-set-Holds xs (x ∷ arrays) zero cells (suc b) h f = h
array_at-set-Holds xs (x ∷ arrays) (suc a) cells zero h f = h
array_at-set-Holds xs (x ∷ arrays) (suc a) cells (suc b) h f =
    array_at-set-Holds xs arrays a cells b h (λ e. f (ap suc e))

array_at-new-Holds :
    (xs : List ℕ) (arrays : List Cells) (cells : Cells) (b : ℕ)
    → Holds xs (array_at arrays b)
    → Holds xs (array_at (arrays ++ cells ∷ []) b)
array_at-new-Holds [] [] cells b h = (_, refl)
array_at-new-Holds (x ∷ xs) [] cells b h = cc
array_at-new-Holds xs (y ∷ arrays) cells zero h = h
array_at-new-Holds xs (y ∷ arrays) cells (suc b) h = array_at-new-Holds xs arrays cells b h

-- What a store keeps while clients join.
pub record IsBeyond (xs : List ℕ) (array : ℕ) (st : Store) : Type 0 where
  pub cells : Holds xs (array_at st.arrays array)
  pub slice : Slice
  pub entry : st.entry ≡ some slice
  pub beyond : slice.array ≡ array → length xs ≤ slice.len

Holds-nil : (xs : List ℕ) → Holds xs [] → length xs ≡ 0
Holds-nil [] h = refl
Holds-nil (x ∷ xs) h = cc

append_one-IsBeyond :
    (spare : ℕ → ℕ) (c : ℕ) (s : Slice) (arrays : List Cells) (xs : List ℕ) (array : ℕ)
    → Holds xs (array_at arrays array)
    → (s.array ≡ array → length xs ≤ s.len)
    → IsBeyond xs array (append_one spare c s arrays)
unfolding append_one
append_one-IsBeyond spare c s arrays xs array h beyond =
    elim (Bool-cases (ltb s.len (length (array_at arrays s.array)))) [
      | inl e ↦ rw e (record {
        cells =
            array_at-set-Holds xs arrays s.array _ array h
              (λ same g. set-Holds xs _ s.len c (beyond same) g);
        slice = record s { len = suc s.len };
        entry = refl;
        beyond = λ same. omega (arith, beyond same);
      })
      | inr e ↦ rw e (record {
        cells = array_at-new-Holds xs arrays _ array h;
        slice = record { array = length arrays; len = suc s.len };
        entry = refl;
        beyond = λ same. omega (arith, Holds-nil xs (rw (← same, array_at-end arrays) at h));
      })
    ]

pub add_slice-IsBeyond :
    (spare : ℕ → ℕ) (c : ℕ) (st : Store) (xs : List ℕ) (array : ℕ)
    → IsBeyond xs array st
    → IsBeyond xs array (add_slice spare c st)
unfolding add_slice
add_slice-IsBeyond spare c st xs array h =
    rw h.entry (append_one-IsBeyond spare c h.slice st.arrays xs array h.cells h.beyond)
