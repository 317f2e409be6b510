-- ===== src/Api/Groups/Owners.antt =====
-- What holds of the groups whenever requests run at the same time.
use runner_io.Common.{
  ◌≡◌, refl, sym, ap, ◌∙◌, Bool, List, [], ◌∷◌, ◌++◌, Option, some, String, All, Bool-cases, inl,
  inr,
}
use runner_io.Dto.Schema.{RunnerGroupSchema}
use runner_io.Api.Groups.{with_members}
use runner_io.Api.Groups.Members.{first_match, set_first, AreSound}

-- The owner is the first of the members.
abbrev pub LeadsWith : String → List String → Type 0
LeadsWith owner members = (rest : List String) × (members ≡ owner ∷ rest)

-- At most 16 members, none of them twice, and the owner first.
abbrev pub IsFit : RunnerGroupSchema → Type 0
IsFit g = AreSound g.members × LeadsWith g.owner g.members

pub All-taken {ℓ κ} :
    {A : Type ℓ} (P : A → Type κ) (xs : List A) (y : A) (ys : List A)
    → All P (xs ++ y ∷ ys)
    → P y × All P (xs ++ ys)
All-taken P [] y ys all = all
All-taken P (x ∷ xs) y ys all = let found = All-taken P xs y ys all.1 in (found.0, (all.0, found.1))

-- A matching document stays the first where documents are put behind it, and keeps its owner where the
-- members of one are set.
pub first_match-append :
    (test : RunnerGroupSchema → Bool) (ds es : List RunnerGroupSchema) (g : RunnerGroupSchema)
    → first_match test ds ≡ some g
    → first_match test (ds ++ es) ≡ some g
first_match-append test [] es g found = cc
first_match-append test (d ∷ ds) es g found = elim (Bool-cases (test d)) [
  | inl at ↦ rw at (rw at at found)
  | inr further ↦ rw further (first_match-append test ds es g (rw further at found))
]

owner_same :
    {a b : RunnerGroupSchema}
    → ◌≡◌ {A = Option RunnerGroupSchema} (some a) (some b)
    → a.owner ≡ b.owner
owner_same e = cc

pub first_match-set_first :
    (test set : RunnerGroupSchema → Bool) (members : List String) (ds : List RunnerGroupSchema)
    (g : RunnerGroupSchema)
    → ((d : RunnerGroupSchema) → test (with_members members d) ≡ test d)
    → first_match test ds ≡ some g
    → (h : RunnerGroupSchema) × (first_match test (set_first set members ds) ≡ some h)
      × (h.owner ≡ g.owner)
first_match-set_first test set members [] g keeps found = cc
first_match-set_first test set members (d ∷ ds) g keeps found = elim (Bool-cases (test d)) [
  | inl at ↦ elim (Bool-cases (set d)) [
    | inl e ↦ (with_members members d, rw (e, keeps d, at) refl, owner_same (rw at at found))
    | inr e ↦ (d, rw (e, at) refl, owner_same (rw at at found))
  ]
  | inr further ↦ elim (Bool-cases (set d)) [
    | inl e ↦ (g, rw (e, keeps d, further) (rw further at found), refl)
    | inr e ↦
        let (h, k, same) =
          first_match-set_first test set members ds g keeps (rw further at found) in
        (h, rw (e, further) k, same)
  ]
]

pub set_first-IsFit :
    (test : RunnerGroupSchema → Bool) (members : List String) (ds : List RunnerGroupSchema)
    (g : RunnerGroupSchema)
    → AreSound members
    → first_match test ds ≡ some g
    → LeadsWith g.owner members
    → All IsFit ds
    → All IsFit (set_first test members ds)
set_first-IsFit test members [] g sound found leads all = tt
set_first-IsFit test members (d ∷ ds) g sound found leads all = elim (Bool-cases (test d)) [
  | inl at ↦ rw at (
    (sound, (leads.0, leads.1 ∙ ap (λ o. o ∷ leads.0) (sym (owner_same (rw at at found))))),
    all.1,
  )
  | inr further ↦
      rw further (all.0, set_first-IsFit test members ds g sound (rw further at found) leads all.1)
]
