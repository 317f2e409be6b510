-- ===== src/Examples/Requests.antt =====
-- A collection and a broker that the laws hold of, and runs of the handlers on them.
use runner_io.Common.{
  ◌≡◌, refl, List, [], ◌∷◌, ◌++◌, Option, none, some, String, str_eq, if◌then◌else◌,
}
use runner_io.Common.Int.{pos}
use runner_io.Common.Result.{Result, ok, err}
use runner_io.Dto.Schema.{RunnerGroupSchema}
use runner_io.Api.Groups.{GroupCollection, FindError, no_documents, aborted, join_runner_group}
use runner_io.Api.Groups.Members.{is_value, first_match, set_first, IsCollection}
use runner_io.Api.Groups.Codes.{join_runner_group-aborted}

-- The value of a field, under a choice of the name of the field of the code.
abbrev field_value : String → String → RunnerGroupSchema → Option String
field_value code_field k g = if str_eq k code_field then some g.group_code else none

abbrev found_or_missing : Option RunnerGroupSchema → Result FindError RunnerGroupSchema
found_or_missing none = err no_documents
found_or_missing (some g) = ok g

-- A collection in memory that never fails.
abbrev pub memory : String → GroupCollection (List RunnerGroupSchema)
memory code_field = record {
  find_one =
      λ k v s. found_or_missing (first_match (λ g. is_value v (field_value code_field k g)) s);
  insert_one = λ g s. some (s ++ g ∷ []);
  update_one =
      λ k v members s. some (set_first (λ g. is_value v (field_value code_field k g)) members s);
}

pub found_or_missing-ok :
    (o : Option RunnerGroupSchema) (g : RunnerGroupSchema) → found_or_missing o ≡ ok g → o ≡ some g
found_or_missing-ok none g found = cc
found_or_missing-ok (some h) g found = cc

pub some-same :
    (a b : List RunnerGroupSchema)
    → ◌≡◌ {A = Option (List RunnerGroupSchema)} (some a) (some b)
    → b ≡ a
some-same a b same = cc

abbrev pub memory-IsCollection : (code_field : String) → IsCollection (memory code_field)
memory-IsCollection code_field = record {
  documents = λ s. s;
  field_of = field_value code_field;
  find-first = λ k v s d found. found_or_missing-ok _ d found;
  insert-last = λ d s s' wrote. some-same _ s' wrote;
  update-first = λ k v members s s' wrote. some-same _ s' wrote;
  keeps_code = λ members d. refl;
}

abbrev some_group : RunnerGroupSchema
some_group = record {
  group_name = "morning";
  group_code = "abc";
  created_at = pos 1;
  members = "ann" ∷ [];
  owner = "ann";
}

abbrev pub some_groups : List RunnerGroupSchema
some_groups = some_group ∷ []

-- The driver spells the field of the code in lower case, without a tag.
join_runner_group-aborted_example :
    join_runner_group (memory "groupcode") "abc" (some "bob") some_groups
    ≡ (aborted 500, some_groups)
join_runner_group-aborted_example =
    join_runner_group-aborted (memory "groupcode") (memory-IsCollection "groupcode") (λ g. refl)
      "abc" (some "bob") some_groups
