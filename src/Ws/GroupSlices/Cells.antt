-- ===== src/Ws/GroupSlices/Cells.antt =====
-- The cells of an array whose first ones are clients.
use runner_io.Common.{
  ℕ, zero, suc, ◌+◌, ◌<◌, ◌≡◌, refl, ap, Bool, true, false, List, [], ◌∷◌, ◌++◌, map, Option, none,
  some, length, arith, set, ◌==◌, if◌then◌else◌,
}
use runner_io.Ws.GroupClients.{take_out}
use runner_io.Ws.GroupSlices.{Cells, front, array_at, behind, move_down, close_gap}

-- The clients, and what is behind them in the array.
abbrev pub filled : List ℕ → Cells → Cells
filled clients rest = map some clients ++ rest

pub length-filled : (xs : List ℕ) (rest : Cells) → length (filled xs rest) ≡ length xs + length rest
length-filled [] rest = omega arith
length-filled (x ∷ xs) rest = omega (arith, length-filled xs rest)

pub front-filled : (xs : List ℕ) (rest : Cells) → front (length xs) (filled xs rest) ≡ map some xs
front-filled [] rest = refl
front-filled (x ∷ xs) rest = ap (λ cells. some x ∷ cells) (front-filled xs rest)

-- A write into the first cell behind the clients.
pub set-filled :
    (xs : List ℕ) (y : Option ℕ) (rest : Cells) (c : ℕ)
    → set (filled xs (y ∷ rest)) (length xs) (some c) ≡ filled (xs ++ c ∷ []) rest
set-filled [] y rest c = refl
set-filled (x ∷ xs) y rest c = ap (λ cells. some x ∷ cells) (set-filled xs y rest c)

pub filled-append :
    (xs : List ℕ) (c : ℕ) (rest : Cells) → map some xs ++ some c ∷ rest ≡ filled (xs ++ c ∷ []) rest
filled-append [] c rest = refl
filled-append (x ∷ xs) c rest = ap (λ cells. some x ∷ cells) (filled-append xs c rest)

abbrev pub last_of : ℕ → List ℕ → ℕ
last_of x [] = x
last_of x (y ∷ ys) = last_of y ys

pub move_down-filled :
    (x : ℕ) (xs : List ℕ) (rest : Cells)
    → move_down (length xs) (filled (x ∷ xs) rest) ≡ filled xs (some (last_of x xs) ∷ rest)
move_down-filled x [] rest = refl
move_down-filled x (y ∷ ys) rest = ap (λ cells. some y ∷ cells) (move_down-filled y ys rest)

-- What the loop of `RemoveClient` makes of the clients, `taken` being those that stay: one less in the
-- slice and one more cell behind it; or nothing, where the client is not there.
abbrev pub Closes : List ℕ → List ℕ → Cells → Option Cells → Type 0
Closes taken xs rest none = taken ≡ xs
Closes taken xs rest (some cells) =
    (y : ℕ) × (cells ≡ filled taken (some y ∷ rest)) × (length xs ≡ suc (length taken))

Closes-step :
    (b : Bool) (x : ℕ) (xs taken : List ℕ) (rest : Cells) (o : Option Cells)
    → Closes taken xs rest o
    → Closes
        (if b then xs else x ∷ taken)
        (x ∷ xs)
        rest
        (if b then some (move_down (length xs) (filled (x ∷ xs) rest)) else behind (some x) o)
Closes-step true x xs taken rest o h = (last_of x xs, move_down-filled x xs rest, refl)
Closes-step false x xs taken rest none h = ap (λ ys. x ∷ ys) h
Closes-step false x xs taken rest (some cells) (y, h, l) = (y, ap (λ ys. some x ∷ ys) h, ap suc l)

pub close_gap-Closes :
    (c : ℕ) (xs : List ℕ) (rest : Cells)
    → Closes (take_out c xs) xs rest (close_gap c (length xs) (filled xs rest))
unfolding take_out close_gap
close_gap-Closes c [] rest = refl
close_gap-Closes c (x ∷ xs) rest =
    Closes-step (x == c) x xs (take_out c xs) rest (close_gap c (length xs) (filled xs rest))
      (close_gap-Closes c xs rest)

-- Arrays that are written, and new ones.
pub array_at-set :
    (arrays : List Cells) (a : ℕ) (cells : Cells)
    → 0 < length (array_at arrays a)
    → array_at (set arrays a cells) a ≡ cells
array_at-set [] a cells h = elim h [ ]
array_at-set (x ∷ arrays) zero cells h = refl
array_at-set (x ∷ arrays) (suc a) cells h = array_at-set arrays a cells h

pub array_at-new :
    (arrays : List Cells) (cells : Cells) → array_at (arrays ++ cells ∷ []) (length arrays) ≡ cells
array_at-new [] cells = refl
array_at-new (x ∷ arrays) cells = array_at-new arrays cells

pub array_at-end : (arrays : List Cells) → array_at arrays (length arrays) ≡ []
array_at-end [] = refl
array_at-end (x ∷ arrays) = array_at-end arrays
