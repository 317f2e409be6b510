-- ===== src/Services/PointsInPolygon/StepBack.antt =====
-- The backwards search of `getPointsInPolygon`: it ends within one round for each point of the
-- polygon, at the place just before a run of indices.
use runner_io.Common.{
  ℕ, zero, suc, ◌+◌, ◌-◌, ◌<◌, ◌≡◌, refl, sym, subst, ◌⊎◌, inl, inr, Bool, true, false, List,
  if◌then◌else◌, ◌==◌, leb, contains_func, arith, Bool-cases,
}
use runner_io.Services.PointsInPolygon.{step_back}

-- The index behind `i`, around the end.
abbrev pub next_index : ℕ → ℕ → ℕ
next_index n i = if suc i == n then 0 else suc i

abbrev pub has_index : List ℕ → ℕ → Bool
has_index idxs k = contains_func idxs (λ i. i == k)

-- How many steps back lead from `last` to `m`.
abbrev pub gap : ℕ → ℕ → ℕ → ℕ
gap n last m = if leb m last then last - m else last + n - m

abbrev pub IsStop : List ℕ → ℕ → ℕ → ℕ → Type 0
IsStop idxs n last r =
    (r < n) × (has_index idxs r ≡ false) × ((r ≡ last) ⊎ (has_index idxs (next_index n r) ≡ true))

module _ (idxs : List ℕ) (n m : ℕ) (m_lt : m < n) (free : has_index idxs m ≡ false) where
  before-gap :
      (last : ℕ)
      → last < n
      → has_index idxs last ≡ true
      → let last' = if last == 0 then n - 1 else last - 1 in
        (last' < n) × (suc (gap n last' m) ≡ gap n last m) × (next_index n last' ≡ last)
  before-gap last h taken = elim (Bool-cases (last == m)) [
    | inl same ↦ absurd (let e : last ≡ m = ground arith in cc)
    | inr other ↦ ground arith
  ]

  behind-taken :
      (last back r : ℕ)
      → next_index n back ≡ last
      → has_index idxs last ≡ true
      → (r ≡ back) ⊎ (has_index idxs (next_index n r) ≡ true)
      → has_index idxs (next_index n r) ≡ true
  behind-taken last back r e taken (inl same) =
      subst (λ i. has_index idxs (next_index n i) ≡ true) (sym same)
        (subst (λ i. has_index idxs i ≡ true) (sym e) taken)
  behind-taken last back r e taken (inr next) = next

  -- With one round for each index, the search ends at a free place: where it began, or just before a
  -- taken one.
  pub step_back-IsStop :
      (fuel last : ℕ)
      → last < n
      → gap n last m < fuel
      → IsStop idxs n last (step_back fuel idxs n last)
  unfolding step_back
  step_back-IsStop zero last h g = elim g [ ]
  step_back-IsStop (suc fuel) last h g = elim (Bool-cases (has_index idxs last)) [
    | inr stop ↦ rw stop (h, stop, inl refl)
    | inl taken ↦
        let back : ℕ = if last == 0 then n - 1 else last - 1 in
        let (inside, shorter, behind) = before-gap last h taken in
        let (r_lt, r_free, why) = step_back-IsStop fuel back inside (omega arith) in
        rw taken
          (r_lt, r_free, inr (behind-taken last back (step_back fuel idxs n back) behind taken why))
  ]
