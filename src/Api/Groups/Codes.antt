-- ===== src/Api/Groups/Codes.antt =====
-- Group codes: how one is chosen, and what the filter on the field `code` finds.
use runner_io.Common.{
  ◌≡◌, ◌≢◌, refl, ◌∙◌, Bool, false, List, [], ◌∷◌, ◌++◌, Option, none, some, String, All,
}
use runner_io.Common.Result.{Result, ok, err}
use runner_io.Dto.Schema.{RunnerGroupSchema}
use runner_io.Api.Groups.{
  GroupCollection, FindError, no_documents, failed, aborted, check_group, join_read, join_write,
  join_runner_group, create_code, next_code,
}
use runner_io.Api.Groups.Members.{is_value, first_match, IsCollection}

module _ {S : Type 0} (c : GroupCollection S) where
  -- A code that the loop passes over: the driver does not report that no document has it.
  abbrev IsPassed : S → String → Type 0
  IsPassed s code = c.find_one "code" code s ≢ err no_documents

  passes :
      (found : Result FindError RunnerGroupSchema) (code : String) (rest : Option String)
      → found ≢ err no_documents
      → next_code found code rest ≡ rest
  unfolding next_code
  passes (ok g) code rest passed = refl
  passes (err no_documents) code rest passed = absurd (passed refl)
  passes (err failed) code rest passed = refl

  -- CreateCode passes over the candidates until the driver reports that no document has one, and
  -- returns that one: neither an existing code nor one whose lookup failed.
  pub create_code_lem :
      (passed : List String) (code : String) (more : List String) (s : S)
      → All (IsPassed s) passed
      → c.find_one "code" code s ≡ err no_documents
      → create_code c (passed ++ code ∷ more) s ≡ some code
  unfolding create_code next_code
  create_code_lem [] code more s all free = rw free refl
  create_code_lem (p ∷ passed) code more s all free =
      passes _ p _ all.0 ∙ create_code_lem passed code more s all.1 free

  first_match-none :
      (test : RunnerGroupSchema → Bool) (ds : List RunnerGroupSchema)
      → ((g : RunnerGroupSchema) → test g ≡ false)
      → first_match test ds ≡ none
  first_match-none test [] never = refl
  first_match-none test (g ∷ ds) never = rw (never g) (first_match-none test ds never)

  settles :
      (found : Result FindError RunnerGroupSchema) (code sub : String) (s : S)
      → ((g : RunnerGroupSchema) → found ≢ ok g)
      → join_write c code (check_group sub found) s ≡ (aborted 500, s)
  unfolding join_write check_group
  settles (ok g) code sub s missing = absurd (missing g refl)
  settles (err e) code sub s missing = refl

  -- A lookup by a field that no document has finds nothing.
  pub never_found :
      (d : IsCollection c)
      → ((g : RunnerGroupSchema) → d.field_of "code" g ≡ none)
      → (code : String) (s : S) (g : RunnerGroupSchema) → c.find_one "code" code s ≢ ok g
  never_found d absent code s g found =
      let first = d.find-first "code" code s g found in
      let never =
        first_match-none (λ h. is_value code (d.field_of "code" h)) (d.documents s)
          (λ h. rw (absent h) refl) in
      cc

  -- On a collection as the driver documents it: where no document has a field named `code`,
  -- nobody joins a group: every request ends with status 500 and changes nothing.
  pub join_runner_group-aborted :
      (d : IsCollection c)
      → ((g : RunnerGroupSchema) → d.field_of "code" g ≡ none)
      → (code : String) (header : Option String) (s : S)
      → join_runner_group c code header s ≡ (aborted 500, s)
  unfolding join_runner_group join_read
  join_runner_group-aborted d absent code none s = refl
  join_runner_group-aborted d absent code (some sub) s =
      settles _ code sub s (never_found d absent code s)
