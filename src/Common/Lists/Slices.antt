-- ===== src/Common/Lists/Slices.antt =====
-- What the program uses of Go's package slices, beside sorting.
use mathlib.Core.Path.{◌≡◌, refl}
use mathlib.Core.Bool.{Bool, false, ◌||◌}
use mathlib.Core.List.{List, [], ◌∷◌, ◌++◌}
use native.Mathlib.Omega.{arith}
use runner_io.Common.Tests.{if◌then◌else◌}

module _ {ℓ} {A : Type ℓ} where
  -- `slices.ContainsFunc`
  unfoldable pub contains_func : List A → (A → Bool) → Bool
  contains_func [] f = false
  contains_func (x ∷ xs) f = f x || contains_func xs f

  -- `slices.DeleteFunc`
  unfoldable pub delete_func : List A → (A → Bool) → List A
  delete_func [] del = []
  delete_func (x ∷ xs) del = let rest = delete_func xs del in if del x then rest else x ∷ rest

  pub delete_func-append :
      (xs ys : List A) (del : A → Bool)
      → delete_func (xs ++ ys) del ≡ delete_func xs del ++ delete_func ys del
  unfolding delete_func
  delete_func-append [] ys del = refl
  delete_func-append (x ∷ xs) ys del = ground (arith, delete_func-append xs ys del)
