-- ===== src/Api/Groups/Members.antt =====
-- The members of the groups of a collection, on what the driver documents.
use runner_io.Common.{
  ◌≤◌, ◌≡◌, ◌≢◌, refl, subst, Bool, true, false, not, ◌&&◌, ◌||◌, ◌+◌, eq_iff, List, [], ◌∷◌, ◌++◌,
  Option, none, some, String, str_eq, if◌then◌else◌, length, contains_func, All, arith, Bool-cases,
  inl, inr,
}
use runner_io.Common.Result.{ok}
use runner_io.Dto.Schema.{RunnerGroupSchema}
use runner_io.Api.Groups.{GroupCollection, joining, with_members, check_group, max_group_members}

abbrev pub is_value : String → Option String → Bool
is_value v none = false
is_value v (some w) = str_eq v w

-- The first document that the test accepts.
abbrev pub first_match :
    (RunnerGroupSchema → Bool) → List RunnerGroupSchema → Option RunnerGroupSchema
first_match test [] = none
first_match test (d ∷ ds) = if test d then some d else first_match test ds

-- The first document that the test accepts has its members set.
abbrev pub set_first :
    (RunnerGroupSchema → Bool) → List String → List RunnerGroupSchema → List RunnerGroupSchema
set_first test members [] = []
set_first test members (d ∷ ds) =
    if test d then with_members members d ∷ ds else d ∷ set_first test members ds

-- What the driver documents of its calls: the collection is a list of documents, a filter of one
-- field stands for the first document with that value, and `$set` of the members leaves the code.
pub record IsCollection {S : Type 0} (c : GroupCollection S) : Type 0 where
  pub documents : S → List RunnerGroupSchema
  -- the value of a field of a document, where it has one
  pub field_of : String → RunnerGroupSchema → Option String
  pub find-first :
      (k v : String) (s : S) (d : RunnerGroupSchema)
      → c.find_one k v s ≡ ok d
      → first_match (λ g. is_value v (field_of k g)) (documents s) ≡ some d
  pub insert-last :
      (d : RunnerGroupSchema) (s s' : S)
      → c.insert_one d s ≡ some s'
      → documents s' ≡ documents s ++ d ∷ []
  pub update-first :
      (k v : String) (members : List String) (s s' : S)
      → c.update_one k v members s ≡ some s'
      → documents s' ≡ set_first (λ g. is_value v (field_of k g)) members (documents s)
  pub keeps_code :
      (members : List String) (d : RunnerGroupSchema)
      → field_of "code" (with_members members d) ≡ field_of "code" d

abbrev pub distinct : List String → Bool
distinct [] = true
distinct (x ∷ xs) = not (contains_func xs (str_eq x)) && distinct xs

-- At most `MAX_GROUP_MEMBERS` members, and none of them twice.
abbrev pub AreSound : List String → Type 0
AreSound members = (length members ≤ max_group_members) × (distinct members ≡ true)

abbrev pub IsSound : RunnerGroupSchema → Type 0
IsSound g = AreSound g.members

contains_func-append :
    (xs : List String) (x y : String)
    → contains_func (xs ++ y ∷ []) (str_eq x) ≡ contains_func xs (str_eq x) || str_eq x y
unfolding contains_func
contains_func-append [] x y = ground arith
contains_func-append (z ∷ xs) x y = ground (arith, contains_func-append xs x y)

distinct-append :
    (xs : List String) (y : String)
    → distinct xs ≡ true
    → contains_func xs (str_eq y) ≡ false
    → distinct (xs ++ y ∷ []) ≡ true
unfolding contains_func
distinct-append [] y d new = refl
distinct-append (x ∷ xs) y d new =
    ground (arith, contains_func-append xs x y, distinct-append xs y, eq_iff x y, eq_iff y x)

length-append_one : (xs : List String) (y : String) → length (xs ++ y ∷ []) ≡ length xs + 1
length-append_one [] y = refl
length-append_one (x ∷ xs) y = ground (arith, length-append_one xs y)

pub check_group-joining :
    (sub : String) (g : RunnerGroupSchema) (members : List String)
    → check_group sub (ok g) ≡ joining members
    → (members ≡ g.members ++ sub ∷ [])
      × (contains_func g.members (str_eq sub) ≡ false)
      × (length g.members ≢ max_group_members)
unfolding check_group
check_group-joining sub g members found = (ground arith, ground arith, λ full. ground arith)

pub check_group-AreSound :
    (sub : String) (g : RunnerGroupSchema) (members : List String)
    → IsSound g
    → check_group sub (ok g) ≡ joining members
    → AreSound members
check_group-AreSound sub g members (few, once) found =
    let (same, new, room) = check_group-joining sub g members found in
    rw same (omega (arith, length-append_one g.members sub), distinct-append g.members sub once new)

some_same : {a b : RunnerGroupSchema} → ◌≡◌ {A = Option RunnerGroupSchema} (some a) (some b) → a ≡ b
some_same e = cc

pub first_match-All :
    (P : RunnerGroupSchema → Type 0) (test : RunnerGroupSchema → Bool) (ds : List RunnerGroupSchema)
    (d : RunnerGroupSchema)
    → All P ds
    → first_match test ds ≡ some d
    → P d
first_match-All P test [] d all found = cc
first_match-All P test (e ∷ ds) d all found = elim (Bool-cases (test e)) [
  | inl at ↦ subst P (some_same (rw at at found)) all.0
  | inr further ↦ first_match-All P test ds d all.1 (rw further at found)
]

pub set_first-AreSound :
    (test : RunnerGroupSchema → Bool) (members : List String) (ds : List RunnerGroupSchema)
    → AreSound members
    → All IsSound ds
    → All IsSound (set_first test members ds)
set_first-AreSound test members [] sound all = tt
set_first-AreSound test members (d ∷ ds) sound all = elim (Bool-cases (test d)) [
  | inl here ↦ rw here (sound, all.1)
  | inr further ↦ rw further (all.0, set_first-AreSound test members ds sound all.1)
]
