-- ===== src/Common/Bag.antt =====
-- Lists of numbers up to order.
use mathlib.Core.Quot
use mathlib.Core.Quot.{Quot, Quot-set}
use runner_io.Common.{ℕ, ◌+◌, ◌≡◌, List, [], ◌∷◌, ◌++◌, if◌then◌else◌, ◌==◌, arith}

abbrev pub count : ℕ → List ℕ → ℕ
count c [] = 0
count c (d ∷ xs) = (if d == c then 1 else 0) + count c xs

pub count-append : (c : ℕ) (xs ys : List ℕ) → count c (xs ++ ys) ≡ count c xs + count c ys
count-append c [] ys = omega arith
count-append c (x ∷ xs) ys = omega (arith, count-append c xs ys)

-- The same numbers, as often each.
abbrev pub SameItems : List ℕ → List ℕ → Type 0
SameItems xs ys = (c : ℕ) → count c xs ≡ count c ys

abbrev pub Bag : Type 0
Bag = Quot SameItems

abbrev pub of_list : List ℕ → Bag
of_list = Quot.mk

-- How often a number is in the bag.
unfoldable pub times : ℕ → Bag → ℕ
times c = Quot.lift (hlevel) (count c) λ xs ys h. h c

pub ext : (x y : Bag) → ((c : ℕ) → times c x ≡ times c y) → x ≡ y
unfolding times
ext = Quot.ind (λ _. hlevel Quot-set) λ xs. Quot.ind (λ _. hlevel Quot-set) λ ys. Quot.sound

-- One more of the number.
unfoldable pub put : ℕ → Bag → Bag
put c = Quot.lift Quot-set (λ xs. of_list (c ∷ xs)) λ xs ys h. Quot.sound λ d. omega (arith, h d)
