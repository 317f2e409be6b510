-- ===== src/Api/Groups.antt =====
-- internal/api/runner_group, the handlers that create and join a group, and CreateCode of
-- internal/utils/misc.go. The MongoDB collection is a parameter, as are the codes that the random
-- generator gives and the parsing of the request.
pub mod Members
pub mod Joins
pub mod Codes
pub mod Requests
pub mod Owners
pub mod Interleaved
pub mod Create
pub mod Behind
pub mod RandomCode
use runner_io.Common.{
  ℕ, Bool, List, [], ◌∷◌, ◌++◌, Option, none, some, String, if◌then◌else◌, ◌==◌, length, str_eq,
  contains_func,
}
use runner_io.Common.Int.{ℤ}
use runner_io.Common.Result.{Result, ok, err}
use runner_io.Dto.Schema.{RunnerGroupSchema}

abbrev pub max_group_members : ℕ
max_group_members = 16

-- What the driver reports: that no document matches, or something else.
pub data FindError : Type 0 where
  no_documents : FindError
  failed : FindError

-- The calls of the driver that the handlers make, on the state `S` of the collection.
pub record GroupCollection (S : Type 0) : Type 0 where
  -- a field and its value
  pub find_one : String → String → S → Result FindError RunnerGroupSchema
  pub insert_one : RunnerGroupSchema → S → Option S
  -- a field and its value, and the new members
  pub update_one : String → String → List String → S → Option S

pub data Reply : Type 0 where
  aborted : ℕ → Reply
  replied : ℕ → String → Reply

abbrev pub with_members : List String → RunnerGroupSchema → RunnerGroupSchema
with_members members g = record {
  group_name = g.group_name;
  group_code = g.group_code;
  created_at = g.created_at;
  members = members;
  owner = g.owner;
}

-- What the handler has after its reads: a reply, or the members to write.
pub data Checked : Type 0 where
  settled : Reply → Checked
  joining : List String → Checked

unfoldable pub check_group : String → Result FindError RunnerGroupSchema → Checked
unfolding contains_func
check_group sub (err e) = settled (aborted 500)
check_group sub (ok g) =
    if contains_func g.members (str_eq sub)
    then settled (replied 200 "You are already a member of this group")
    else if length g.members == max_group_members
    then settled (replied 200 "Group is full")
    else joining (g.members ++ sub ∷ [])

-- One round of the loop of CreateCode: what it does with what the driver reports.
unfoldable pub next_code :
    Result FindError RunnerGroupSchema → String → Option String → Option String
next_code (ok g) code rest = rest
next_code (err no_documents) code rest = some code
next_code (err failed) code rest = rest

unfoldable pub new_group : String → String → ℤ → String → RunnerGroupSchema
new_group sub name now code = record {
  group_name = name;
  group_code = code;
  created_at = now;
  members = sub ∷ [];
  owner = sub;
}

module _ {S : Type 0} (c : GroupCollection S) where
  -- The reading half of JoinRunnerGroupHandler.Handler.
  unfoldable pub join_read : String → String → S → Checked
  unfolding check_group
  join_read code sub s = check_group sub (c.find_one "code" code s)

  unfoldable updated : S → Option S → Reply × S
  updated s none = (aborted 500, s)
  updated s (some s') = (replied 200 "Joined group successfully", s')

  -- The writing half.
  unfoldable pub join_write : String → Checked → S → Reply × S
  unfolding updated
  join_write code (settled reply) s = (reply, s)
  join_write code (joining members) s = updated s (c.update_one "code" code members s)

  -- The whole handler; `none` for a header that does not parse.
  unfoldable pub join_runner_group : String → Option String → S → Reply × S
  unfolding join_read join_write
  join_runner_group code none s = (aborted 500, s)
  join_runner_group code (some sub) s = join_write code (join_read code sub s) s

  -- CreateCode: `none` for a loop that has not found a free code with the candidates so far.
  unfoldable pub create_code : List String → S → Option String
  unfolding next_code
  create_code [] s = none
  create_code (code ∷ codes) s =
      let rest = create_code codes s in next_code (c.find_one "code" code s) code rest

  unfoldable pub inserted : S → Option S → Reply × S
  inserted s none = (aborted 500, s)
  inserted s (some s') = (replied 201 "Group created successfully", s')

  -- CreateRunnerGroupHandler.Handler, with the code that CreateCode has found; `none` for a header or
  -- a body that does not parse.
  unfoldable pub create_runner_group : Option String → Option String → ℤ → String → S → Reply × S
  unfolding inserted new_group
  create_runner_group none body now code s = (aborted 500, s)
  create_runner_group (some sub) none now code s = (aborted 400, s)
  create_runner_group (some sub) (some name) now code s =
      inserted s (c.insert_one (new_group sub name now code) s)
