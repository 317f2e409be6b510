-- ===== src/Common/Map.antt =====
-- A Go map with string keys, as an association list. The order of the entries is the order in which
-- `range` meets them.
use runner_io.Common.{
  ◌≡◌, refl, true, false, Option, none, some, List, [], ◌∷◌, map, String, str_eq, eq_iff, arith,
  if◌then◌else◌, All, Bool-cases, inl, inr, subst,
}
use mathlib.Core.List.{Mem, mem-cons_self, mem-cons_of_mem}
use mathlib.Core.Option.{some-injective}

abbrev pub Map {ℓ} : Type ℓ → Type ℓ
Map V = List (String × V)

module _ {ℓ} {V : Type ℓ} where
  -- `m[k]`, with the second result of `v, ok := m[k]`
  unfoldable pub lookup : String → Map V → Option V
  lookup key [] = none
  lookup key ((other, value) ∷ entries) =
      if str_eq other key then some value else lookup key entries

  -- `m[k] = v`
  unfoldable pub insert : String → V → Map V → Map V
  insert key value [] = (key, value) ∷ []
  insert key value ((other, old) ∷ entries) =
      if str_eq other key then (key, value) ∷ entries else (other, old) ∷ insert key value entries

  -- `delete(m, k)`
  unfoldable pub delete : String → Map V → Map V
  delete key [] = []
  delete key ((other, old) ∷ entries) =
      if str_eq other key then delete key entries else (other, old) ∷ delete key entries

  abbrev pub keys : Map V → List String
  keys = map λ e. e.0

  pub lookup-insert :
      (key other : String) (value : V) (entries : Map V)
      → lookup other (insert key value entries)
        ≡ (if str_eq key other then some value else lookup other entries)
  unfolding lookup insert
  lookup-insert key other value [] = refl
  lookup-insert key other value ((name, old) ∷ entries) = ground (
    arith,
    lookup-insert key other value entries,
    eq_iff name key,
    eq_iff name other,
    eq_iff key other,
  )

  pub lookup-delete :
      (key other : String) (entries : Map V)
      → lookup other (delete key entries)
        ≡ (if str_eq key other then none else lookup other entries)
  unfolding lookup delete
  lookup-delete key other [] = ground arith
  lookup-delete key other ((name, old) ∷ entries) =
      ground (
        arith,
        eq_iff key other,
        eq_iff name key,
        eq_iff name other,
        lookup-delete key other entries,
      )

  -- What holds of all entries holds of the entry that is found.
  pub lookup-All {κ} :
      (P : String → V → Type κ) (k : String) (m : Map V) {v : V}
      → All (λ e. P e.0 e.1) m
      → lookup k m ≡ some v
      → P k v
  unfolding lookup
  lookup-All P k [] h e = cc
  lookup-All P k ((j, w) ∷ m) {v} h e = elim (Bool-cases (str_eq j k)) [
    | inl same ↦
        subst (λ i. P i v) ((eq_iff j k).0 same)
          (subst (P j) (some-injective _ _ (rw same at e)) h.0)
    | inr other ↦ lookup-All P k m h.1 (rw other at e)
  ]

  pub insert-All {κ} :
      (P : String → V → Type κ) (k : String) (v : V) (m : Map V)
      → P k v
      → All (λ e. P e.0 e.1) m
      → All (λ e. P e.0 e.1) (insert k v m)
  unfolding insert
  insert-All P k v [] p h = (p, tt)
  insert-All P k v ((j, w) ∷ m) p h = elim (Bool-cases (str_eq j k)) [
    | inl same ↦ rw same (p, h.1)
    | inr other ↦ rw other (h.0, insert-All P k v m p h.1)
  ]

  pub delete-All {κ μ} :
      (P : String → V → Type κ) (Q : String → V → Type μ) (k : String) (m : Map V)
      → ((j : String) (v : V) → str_eq j k ≡ false → P j v → Q j v)
      → All (λ e. P e.0 e.1) m
      → All (λ e. Q e.0 e.1) (delete k m)
  unfolding delete
  delete-All P Q k [] f h = tt
  delete-All P Q k ((j, v) ∷ m) f h = elim (Bool-cases (str_eq j k)) [
    | inl same ↦ rw same (delete-All P Q k m f h.1)
    | inr other ↦ rw other (f j v other h.0, delete-All P Q k m f h.1)
  ]

  -- A key that is found is one of the keys.
  pub mem-keys : (k : String) (m : Map V) {v : V} → lookup k m ≡ some v → Mem k (keys m)
  unfolding lookup
  mem-keys k [] e = cc
  mem-keys k ((j, w) ∷ m) e = elim (Bool-cases (str_eq j k)) [
    | inl same ↦ rw ((eq_iff j k).0 same) mem-cons_self
    | inr other ↦ mem-cons_of_mem j (mem-keys k m (rw other at e))
  ]

pub str_eq_refl : (s : String) → str_eq s s ≡ true
str_eq_refl s = (eq_iff s s).1 refl
