-- ===== src/Common/Membership.antt =====
-- The library's membership against `All`, deletion and indices.
use mathlib.Core.Path.{◌≡◌}
use mathlib.Core.Bool.{Bool, false}
use mathlib.Core.Logic.{inl, inr}
use mathlib.Core.Logic.Or
use mathlib.Core.List.{
  List, [], ◌∷◌, Mem, Mem-prop, mem-cons, mem-cons_self, mem-cons_of_mem, not-mem-nil,
}
use runner_io.Common.{All, delete_func, Bool-cases}

module _ {ℓ} {A : Type ℓ} where
  pub All-of_mem {κ} : (P : A → Type κ) (xs : List A) → ((a : A) → Mem a xs → P a) → All P xs
  All-of_mem P [] h = tt
  All-of_mem P (x ∷ xs) h = (h x mem-cons_self, All-of_mem P xs (λ a m. h a (mem-cons_of_mem x m)))

  pub mem-All {κ} :
      (P : A → Type κ)
      → ((a : A) → IsProp (P a))
      → (xs : List A) {a : A} → All P xs
      → Mem a xs
      → P a
  mem-All P prop [] h m = absurd (not-mem-nil m)
  mem-All P prop (x ∷ xs) {a} h m =
      Or.elim (prop a) (mem-cons.0 m) (λ e. rw e h.0) (mem-All P prop xs h.1)

  pub mem-delete_func :
      (del : A → Bool) (xs : List A) {a : A} → Mem a xs → del a ≡ false → Mem a (delete_func xs del)
  unfolding delete_func
  mem-delete_func del [] m e = m
  mem-delete_func del (x ∷ xs) {a} m e = elim (Bool-cases (del x)) [
    | inl gone ↦
        rw gone (Or.elim Mem-prop (mem-cons.0 m) (λ same. cc) (λ r. mem-delete_func del xs r e))
    | inr kept ↦ rw kept (
        Or.elim Mem-prop (mem-cons.0 m) (λ same. rw same mem-cons_self)
          (λ r. mem-cons_of_mem x (mem-delete_func del xs r e)))
  ]

  pub mem_of_mem-delete_func :
      (del : A → Bool) (xs : List A) {a : A}
      → Mem a (delete_func xs del)
      → Mem a xs × (del a ≡ false)
  unfolding delete_func
  mem_of_mem-delete_func del [] m = absurd (not-mem-nil m)
  mem_of_mem-delete_func del (x ∷ xs) {a} m = elim (Bool-cases (del x)) [
    | inl gone ↦
        let (old, kept) = mem_of_mem-delete_func del xs (rw gone at m) in
        (mem-cons_of_mem x old, kept)
    | inr kept ↦
        Or.elim (hlevel Mem-prop) (mem-cons.0 (rw kept at m))
          (λ same. rw same (mem-cons_self, kept))
          (λ r.
            let (old, stays) = mem_of_mem-delete_func del xs r in (mem-cons_of_mem x old, stays))
  ]

  pub delete_func-All {κ} :
      (P : A → Type κ) (del : A → Bool) (xs : List A) → All P xs → All P (delete_func xs del)
  unfolding delete_func
  delete_func-All P del [] h = tt
  delete_func-All P del (x ∷ xs) h = elim (Bool-cases (del x)) [
    | inl gone ↦ rw gone (delete_func-All P del xs h.1)
    | inr kept ↦ rw kept (h.0, delete_func-All P del xs h.1)
  ]

  -- What is left is what the test spares.
  pub delete_func-spared :
      (del : A → Bool) (xs : List A) → All (λ a. del a ≡ false) (delete_func xs del)
  unfolding delete_func
  delete_func-spared del [] = tt
  delete_func-spared del (x ∷ xs) = elim (Bool-cases (del x)) [
    | inl gone ↦ rw gone (delete_func-spared del xs)
    | inr kept ↦ rw kept (kept, delete_func-spared del xs)
  ]
