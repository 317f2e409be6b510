-- ===== src/Services/SortPoints/Order.antt =====
-- `sortPointsByDistance` rearranges its points, and its rounds are enough.
use mathlib.Core.List.{Perm}
use mathlib.Core.List.Perm
use mathlib.Core.Option.{some-injective}
use runner_io.Common.{
  ℕ, zero, suc, ◌+◌, ◌≡◌, refl, sym, ap, ◌∙◌, subst, ◌⊎◌, inl, inr, Bool, true, false, List, [],
  ◌∷◌, none, some, if◌then◌else◌, length, get_elem?, set, arith, Bool-cases, All,
}
use runner_io.Float64.{Float64}
use runner_io.Dto.Schema.{CoordinateStruct}
use runner_io.Services.SortPoints.{Best, far_away, closer, metres, nearest}

module _ {ℓ} {F : Type ℓ} ⦃f : Float64 F⦄ where
  -- The points that are not visited yet, in order.
  abbrev pub unvisited : List (CoordinateStruct F) → List Bool → List (CoordinateStruct F)
  unvisited (p ∷ ps) (seen ∷ vs) = if seen then unvisited ps vs else p ∷ unvisited ps vs
  unvisited _ _ = []

  -- Index `p` holds an unvisited point.
  abbrev pub IsOpen : List (CoordinateStruct F) → List Bool → ℕ → CoordinateStruct F → Type ℓ
  IsOpen ps vs p q = (get_elem? ps p ≡ some q) × (get_elem? vs p ≡ some false)

  -- Marking an unvisited point takes it out of the unvisited ones.
  pub unvisited-set :
      (ps : List (CoordinateStruct F)) (vs : List Bool) (p : ℕ) (q : CoordinateStruct F)
      → IsOpen ps vs p q
      → Perm (q ∷ unvisited ps (set vs p true)) (unvisited ps vs)
  unvisited-set [] vs p q o = cc (o.0)
  unvisited-set (a ∷ ps) [] p q o = cc (o.1)
  unvisited-set (a ∷ ps) (v ∷ vs) zero q o =
      rw (some-injective _ _ o.1, some-injective _ _ o.0) (Perm.refl _)
  unvisited-set (a ∷ ps) (true ∷ vs) (suc p) q o = unvisited-set ps vs p q o
  unvisited-set (a ∷ ps) (false ∷ vs) (suc p) q o =
      Perm.trans (Perm.swap a q _) (Perm.cons a (unvisited-set ps vs p q o))

  pub length-unvisited-set :
      (ps : List (CoordinateStruct F)) (vs : List Bool) (p : ℕ) (q : CoordinateStruct F)
      → IsOpen ps vs p q
      → suc (length (unvisited ps (set vs p true))) ≡ length (unvisited ps vs)
  length-unvisited-set [] vs p q o = cc (o.0)
  length-unvisited-set (a ∷ ps) [] p q o = cc (o.1)
  length-unvisited-set (a ∷ ps) (v ∷ vs) zero q o = rw (some-injective _ _ o.1)
  length-unvisited-set (a ∷ ps) (true ∷ vs) (suc p) q o = length-unvisited-set ps vs p q o
  length-unvisited-set (a ∷ ps) (false ∷ vs) (suc p) q o = ap suc (length-unvisited-set ps vs p q o)

  module _ (start : CoordinateStruct F) where
    -- What the inner loop has found: what it began with, or an index with an unvisited point.
    abbrev Found : List (CoordinateStruct F) → List Bool → ℕ → Best F → Best F → Type ℓ
    Found ps vs i best found =
        (found ≡ best)
        ⊎ ((d : ℕ) × (q : CoordinateStruct F) × (found ≡ (metres start q, some (i + d)))
            × IsOpen ps vs d q)

    Found-later :
        (p : CoordinateStruct F) (ps : List (CoordinateStruct F)) (seen : Bool) (vs : List Bool)
        (i : ℕ) (best found : Best F)
        → Found ps vs (suc i) (if seen then best else closer (metres start p) i best) found
        → Found (p ∷ ps) (seen ∷ vs) i best found
    Found-later p ps seen vs i best found (inr (d, q, e, o)) =
        inr (suc d, q, e ∙ ap (λ k. (metres start q, some k)) (omega arith), o)
    Found-later p ps true vs i best found (inl e) = inl e
    Found-later p ps false vs i best found (inl e) =
        elim (Bool-cases (f.lt (metres start p) best.0)) [
          | inl nearer ↦ inr (
            0,
            p,
            (rw nearer at e) ∙ ap (λ k. (metres start p, some k)) (omega arith),
            (refl, refl),
          )
          | inr further ↦ inl (rw further at e)
        ]

    nearest-Found :
        (i : ℕ) (ps : List (CoordinateStruct F)) (vs : List Bool) (best : Best F)
        → Found ps vs i best (nearest start i ps vs best)
    unfolding nearest
    nearest-Found i [] vs best = inl refl
    nearest-Found i (p ∷ ps) [] best = inl refl
    nearest-Found i (p ∷ ps) (seen ∷ vs) best =
        Found-later p ps seen vs i best _
          (nearest-Found (suc i) ps vs (if seen then best else closer (metres start p) i best))

    -- An index that the inner loop finds is that of an unvisited point, at the distance found.
    pub nearest-IsOpen :
        (ps : List (CoordinateStruct F)) (vs : List Bool) {p : ℕ}
        → (nearest start 0 ps vs (far_away, none)).1 ≡ some p
        → (q : CoordinateStruct F) × IsOpen ps vs p q
          × ((nearest start 0 ps vs (far_away, none)).0 ≡ metres start q)
    nearest-IsOpen ps vs {p} e = pick (nearest-Found 0 ps vs (far_away, none))
      where
        pick :
            Found ps vs 0 (far_away, none) (nearest start 0 ps vs (far_away, none))
            → (q : CoordinateStruct F) × IsOpen ps vs p q
              × ((nearest start 0 ps vs (far_away, none)).0 ≡ metres start q)
        pick (inl none_found) = cc (ap (λ b. b.1) none_found)
        pick (inr (d, q, found, o)) =
            let same : d ≡ p =
              some-injective _ _ (ap some (omega arith) ∙ sym (ap (λ b. b.1) found) ∙ e) in
            (q, subst (λ k. IsOpen ps vs k q) same o, ap (λ b. b.0) found)

    -- Nearer than the bound that the loop starts from.
    abbrev pub IsWithin : CoordinateStruct F → Type 0
    IsWithin p = f.lt (metres start p) far_away ≡ true

    nearest-keeps :
        (i : ℕ) (ps : List (CoordinateStruct F)) (vs : List Bool) (best : Best F)
        → (best.1 ≡ none → ⊥)
        → (nearest start i ps vs best).1 ≡ none
        → ⊥
    unfolding nearest
    nearest-keeps i [] vs best h = h
    nearest-keeps i (p ∷ ps) [] best h = h
    nearest-keeps i (p ∷ ps) (seen ∷ vs) best h =
        nearest-keeps (suc i) ps vs (if seen then best else closer (metres start p) i best)
          (ground arith)

    pub nearest-finds :
        (i : ℕ) (ps : List (CoordinateStruct F)) (vs : List Bool)
        → All IsWithin ps
        → (nearest start i ps vs (far_away, none)).1 ≡ none
        → unvisited ps vs ≡ []
    unfolding nearest
    nearest-finds i [] vs w e = refl
    nearest-finds i (p ∷ ps) [] w e = refl
    nearest-finds i (p ∷ ps) (true ∷ vs) w e = nearest-finds (suc i) ps vs w.1 e
    nearest-finds i (p ∷ ps) (false ∷ vs) w e =
        let nearer : closer (metres start p) i (far_away, none) ≡ (metres start p, some i) =
          rw w.0 in
        absurd (
          nearest-keeps (suc i) ps vs (metres start p, some i) (λ h. cc)
            (subst (λ b. (nearest start (suc i) ps vs b).1 ≡ none) nearer e))
