-- ===== src/Api/EatQueue/Cells.antt =====
-- Cells that are not nil, under the operations on slices.
use runner_io.Common.{
  ℕ, zero, suc, ◌≡◌, refl, ◌<◌, Bool, true, false, if◌then◌else◌, List, [], ◌∷◌, ◌++◌, Option, none,
  some, length, set, get_elem?, arith,
}
use runner_io.Ws.GroupSlices.Cells.{filled}
use runner_io.Ws.GroupSlices.{Cells, front, array_at, move_down, close_gap, is_client, behind}

-- The first cells are there, and none of them is nil.
abbrev pub IsFilled : ℕ → Cells → Type 0
IsFilled zero cells = Unit
IsFilled (suc n) [] = zero ≡ suc n
IsFilled (suc n) (x ∷ cells) = ((c : ℕ) × (x ≡ some c)) × IsFilled n cells

abbrev pub IsFilledBoth : ℕ → Option Cells → Type 0
IsFilledBoth n none = Unit
IsFilledBoth n (some cells) = IsFilled n cells

pub IsFilled-get_elem? :
    (n i : ℕ) (cells : Cells)
    → IsFilled n cells
    → i < n
    → (c : ℕ) × (get_elem? cells i ≡ some (some c))
IsFilled-get_elem? zero i cells h lt = elim lt [ ]
IsFilled-get_elem? (suc n) i [] h lt = cc
IsFilled-get_elem? (suc n) zero (x ∷ cells) h lt = (h.0.0, rw h.0.1 refl)
IsFilled-get_elem? (suc n) (suc i) (x ∷ cells) h lt =
    IsFilled-get_elem? n i cells h.1 (omega (arith, lt))

pub IsFilled-set :
    (n i : ℕ) (cells : Cells) (c : ℕ) → IsFilled n cells → IsFilled n (set cells i (some c))
IsFilled-set zero i cells c h = tt
IsFilled-set (suc n) i [] c h = h
IsFilled-set (suc n) zero (x ∷ cells) c h = ((c, refl), h.1)
IsFilled-set (suc n) (suc i) (x ∷ cells) c h = (h.0, IsFilled-set n i cells c h.1)

pub IsFilled-set-end :
    (n : ℕ) (cells : Cells) (c : ℕ)
    → IsFilled n cells
    → n < length cells
    → IsFilled (suc n) (set cells n (some c))
IsFilled-set-end n [] c h lt = elim lt [ ]
IsFilled-set-end zero (x ∷ cells) c h lt = ((c, refl), tt)
IsFilled-set-end (suc n) (x ∷ cells) c h lt =
    (h.0, IsFilled-set-end n cells c h.1 (omega (arith, lt)))

pub IsFilled-front :
    (n : ℕ) (cells : Cells) (c : ℕ) (rest : Cells)
    → IsFilled n cells
    → IsFilled (suc n) (front n cells ++ some c ∷ rest)
IsFilled-front zero cells c rest h = ((c, refl), tt)
IsFilled-front (suc n) [] c rest h = cc
IsFilled-front (suc n) (x ∷ cells) c rest h = (h.0, IsFilled-front n cells c rest h.1)

pub IsFilled-less : (n : ℕ) (cells : Cells) → IsFilled (suc n) cells → IsFilled n cells
IsFilled-less zero cells h = tt
IsFilled-less (suc n) [] h = cc
IsFilled-less (suc n) (x ∷ cells) h = (h.0, IsFilled-less n cells h.1)

IsFilled-move_down :
    (n k : ℕ) (cells : Cells)
    → IsFilled n cells
    → IsFilled (suc k) cells
    → IsFilled n (move_down k cells)
IsFilled-move_down n zero cells h f = h
IsFilled-move_down n (suc k) [] h f = h
IsFilled-move_down n (suc k) (x ∷ []) h f = h
IsFilled-move_down zero (suc k) (x ∷ y ∷ cells) h f = tt
IsFilled-move_down (suc n) (suc k) (x ∷ y ∷ cells) h f =
    (f.1.0, IsFilled-move_down n k (y ∷ cells) h.1 f.1)

IsFilledBoth-if :
    (n : ℕ) (b : Bool) (cells : Cells) (o : Option Cells)
    → IsFilled n cells
    → IsFilledBoth n o
    → IsFilledBoth n (if b then some cells else o)
IsFilledBoth-if n true cells o h g = h
IsFilledBoth-if n false cells o h g = g

IsFilledBoth-behind :
    (n : ℕ) (x : Option ℕ) (cells : Cells) (o : Option Cells)
    → IsFilled n (x ∷ cells)
    → ((k : ℕ) → IsFilled k cells → IsFilledBoth k o)
    → IsFilledBoth n (behind x o)
IsFilledBoth-behind n x cells none h g = tt
IsFilledBoth-behind zero x cells (some rest) h g = tt
IsFilledBoth-behind (suc n) x cells (some rest) h g = (h.0, g n h.1)

pub IsFilled-close_gap :
    (c n m : ℕ) (cells : Cells)
    → IsFilled n cells
    → IsFilled m cells
    → IsFilledBoth n (close_gap c m cells)
unfolding close_gap
IsFilled-close_gap c n zero cells h f = tt
IsFilled-close_gap c n (suc m) [] h f = tt
IsFilled-close_gap c n (suc m) (x ∷ cells) h f =
    IsFilledBoth-if n (is_client c x) _ _ (IsFilled-move_down n m (x ∷ cells) h f) (
      IsFilledBoth-behind n x cells (close_gap c m cells) h
        (λ k g. IsFilled-close_gap c k m cells g f.1))

-- Arrays: one is written with cells that are filled where its own were, and one is new.
pub array_at-set-IsFilled :
    (n : ℕ) (arrays : List Cells) (a : ℕ) (cells : Cells) (b : ℕ)
    → IsFilled n (array_at arrays b)
    → (IsFilled n (array_at arrays a) → IsFilled n cells)
    → IsFilled n (array_at (set arrays a cells) b)
array_at-set-IsFilled n [] a cells b h f = h
array_at-set-IsFilled n (x ∷ arrays) zero cells zero h f = f h
array_at-set-IsFilled n (x ∷ arrays) zero cells (suc b) h f = h
array_at-set-IsFilled n (x ∷ arrays) (suc a) cells zero h f = h
array_at-set-IsFilled n (x ∷ arrays) (suc a) cells (suc b) h f =
    array_at-set-IsFilled n arrays a cells b h f

IsFilled-nil : (n : ℕ) (cells : Cells) → IsFilled n [] → IsFilled n cells
IsFilled-nil zero cells h = tt
IsFilled-nil (suc n) cells h = cc

pub array_at-new-IsFilled :
    (n : ℕ) (arrays : List Cells) (cells : Cells) (b : ℕ)
    → IsFilled n (array_at arrays b)
    → IsFilled n (array_at (arrays ++ cells ∷ []) b)
array_at-new-IsFilled n [] cells b h = IsFilled-nil n _ h
array_at-new-IsFilled n (x ∷ arrays) cells zero h = h
array_at-new-IsFilled n (x ∷ arrays) cells (suc b) h = array_at-new-IsFilled n arrays cells b h

pub IsFilled-filled : (xs : List ℕ) (rest : Cells) → IsFilled (length xs) (filled xs rest)
IsFilled-filled [] rest = tt
IsFilled-filled (x ∷ xs) rest = ((x, refl), IsFilled-filled xs rest)
