-- ===== src/Common/Sort.antt =====
-- `slices.SortFunc`. Up to twelve elements Go sorts by insertion, which is what stands here.
use runner_io.Common.{
  ◌≡◌, Bool, true, false, List, [], ◌∷◌, ◌++◌, reverse, if◌then◌else◌, All, All-append, All-reverse,
  All-map, Bool-cases, inl, inr,
}
use runner_io.Common.Int.{ℤ, pos, ltb_ℤ}
use mathlib.Core.List.{Perm, append-nil, reverse-append, reverse_perm, perm_middle}
use mathlib.Core.List.Perm

module _ {ℓ} {A : Type ℓ} (cmp : A → A → ℤ) where
  -- `cmp(a, b) < 0`
  abbrev pub less : A → A → Bool
  less a b = ltb_ℤ (cmp a b) (pos 0)

  -- The inner loop: `x` moves towards the front of the sorted part, which stands reversed, past each
  -- element that it is less than.
  pub insert_back : A → List A → List A
  insert_back x [] = x ∷ []
  insert_back x (y ∷ ys) = if less x y then y ∷ insert_back x ys else x ∷ y ∷ ys

  -- The outer loop.
  pub sort_onto : List A → List A → List A
  sort_onto acc [] = reverse acc
  sort_onto acc (x ∷ xs) = sort_onto (insert_back x acc) xs

  unfoldable pub sort_func : List A → List A
  unfolding sort_onto insert_back
  sort_func = sort_onto []

  insert_back-perm : (x : A) (ys : List A) → Perm (insert_back x ys) (x ∷ ys)
  unfolding insert_back
  insert_back-perm x [] = Perm.refl _
  insert_back-perm x (y ∷ ys) = elim (Bool-cases (less x y)) [
    | inl e ↦ rw e (Perm.trans (Perm.cons y (insert_back-perm x ys)) (Perm.swap x y ys))
    | inr e ↦ rw e (Perm.refl _)
  ]

  sort_onto-perm : (acc xs : List A) → Perm (sort_onto acc xs) (acc ++ xs)
  unfolding sort_onto
  sort_onto-perm acc [] = rw (append-nil acc) (reverse_perm acc)
  sort_onto-perm acc (x ∷ xs) =
      Perm.trans (sort_onto-perm (insert_back x acc) xs) (
        Perm.trans (Perm.append_right xs (insert_back-perm x acc)) (Perm.symm (perm_middle acc xs)))

  -- Sorting loses and adds nothing.
  pub sort_func-perm : (xs : List A) → Perm (sort_func xs) xs
  unfolding sort_func
  sort_func-perm xs = sort_onto-perm [] xs

  pub insert_back-All {κ} :
      (P : A → Type κ) (x : A) (ys : List A) → P x → All P ys → All P (insert_back x ys)
  unfolding insert_back
  insert_back-All P x [] p q = (p, tt)
  insert_back-All P x (y ∷ ys) p q = elim (Bool-cases (less x y)) [
    | inl e ↦ rw e (q.0, insert_back-All P x ys p q.1)
    | inr e ↦ rw e (p, q)
  ]

  sort_onto-All {κ} :
      (P : A → Type κ) (acc xs : List A) → All P acc → All P xs → All P (sort_onto acc xs)
  unfolding sort_onto
  sort_onto-All P acc [] p q = All-reverse P acc p
  sort_onto-All P acc (x ∷ xs) p q =
      sort_onto-All P (insert_back x acc) xs (insert_back-All P x acc q.0 p) q.1

  pub sort_func-All {κ} : (P : A → Type κ) (xs : List A) → All P xs → All P (sort_func xs)
  unfolding sort_func
  sort_func-All P xs q = sort_onto-All P [] xs tt q

  -- No element is less than an earlier one.
  abbrev pub Ascending : List A → Type ℓ
  Ascending [] = Unit
  Ascending (x ∷ xs) = All (λ y. less y x ≡ false) xs × Ascending xs

  -- What the package asks of the comparison: a strict weak ordering.
  pub record IsWeakOrder : Type ℓ where
    pub asymm : (a b : A) → less a b ≡ true → less b a ≡ false
    pub neg_trans : (a b c : A) → less a b ≡ false → less b c ≡ false → less a c ≡ false

  abbrev Descending : List A → Type ℓ
  Descending [] = Unit
  Descending (x ∷ xs) = All (λ y. less x y ≡ false) xs × Descending xs

  module _ (order : IsWeakOrder) where
    insert_back-Descending : (x : A) (ys : List A) → Descending ys → Descending (insert_back x ys)
    unfolding insert_back
    insert_back-Descending x [] d = (tt, tt)
    insert_back-Descending x (y ∷ ys) d = elim (Bool-cases (less x y)) [
      | inl e ↦ rw e (
        insert_back-All (λ z. less y z ≡ false) x ys (order.asymm x y e) d.0,
        insert_back-Descending x ys d.1,
      )
      | inr e ↦ rw e (
        (
          e,
          All-map (λ z. less y z ≡ false) (λ z. less x z ≡ false) (λ z. order.neg_trans x y z e) ys
              d.0,
        ),
        d,
      )
    ]

  Ascending-snoc :
      (y : A) (xs : List A)
      → Ascending xs
      → All (λ a. less y a ≡ false) xs
      → Ascending (xs ++ y ∷ [])
  Ascending-snoc y [] a h = (tt, tt)
  Ascending-snoc y (x ∷ xs) a h =
      (All-append (λ z. less z x ≡ false) xs (y ∷ []) a.0 (h.0, tt), Ascending-snoc y xs a.1 h.1)

  Ascending-reverse : (ys : List A) → Descending ys → Ascending (reverse ys)
  Ascending-reverse [] d = tt
  Ascending-reverse (y ∷ ys) d = rw (reverse-append (y ∷ []) ys) (
      Ascending-snoc y (reverse ys) (Ascending-reverse ys d.1)
        (All-reverse (λ z. less y z ≡ false) ys d.0))

  module _ (order : IsWeakOrder) where
    sort_onto-Ascending : (acc xs : List A) → Descending acc → Ascending (sort_onto acc xs)
    unfolding sort_onto
    sort_onto-Ascending acc [] d = Ascending-reverse acc d
    sort_onto-Ascending acc (x ∷ xs) d =
        sort_onto-Ascending (insert_back x acc) xs (insert_back-Descending order x acc d)

    -- Under a strict weak ordering the result is in order.
    pub sort_func-Ascending : (xs : List A) → Ascending (sort_func xs)
    unfolding sort_func
    sort_func-Ascending xs = sort_onto-Ascending [] xs tt
