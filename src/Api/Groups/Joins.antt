-- ===== src/Api/Groups/Joins.antt =====
-- JoinRunnerGroupHandler when other requests run between its read and its write.
use runner_io.Common.{
  ◌≡◌, refl, List, [], ◌∷◌, Option, none, some, String, All, All-append, arith, contains_func,
}
use runner_io.Common.Result.{Result, ok, err}
use runner_io.Common.Int.{ℤ}
use runner_io.Dto.Schema.{RunnerGroupSchema}
use runner_io.Api.Groups.{
  GroupCollection, FindError, Checked, settled, joining, check_group, join_read, join_write,
  updated, create_runner_group, inserted, new_group,
}
use runner_io.Api.Groups.Members.{
  IsCollection, AreSound, IsSound, first_match-All, check_group-AreSound, set_first-AreSound,
}

module _ {S : Type 0} (c : GroupCollection S) (d : IsCollection c) where
  read-AreSound :
      (sub : String) (found : Result FindError RunnerGroupSchema) (members : List String)
      → ((g : RunnerGroupSchema) → found ≡ ok g → IsSound g)
      → check_group sub found ≡ joining members
      → AreSound members
  unfolding check_group
  read-AreSound sub (err e) members sound joined = cc
  read-AreSound sub (ok g) members sound joined =
      check_group-AreSound sub g members (sound g refl) joined

  updated-documents :
      (code : String) (members : List String) (s : S) (o : Option S)
      → c.update_one "code" code members s ≡ o
      → AreSound members
      → All IsSound (d.documents s)
      → All IsSound (d.documents ((updated c s o).1))
  unfolding updated
  updated-documents code members s none wrote sound all = all
  updated-documents code members s (some s') wrote sound all =
      rw (d.update-first "code" code members s s' wrote)
        (set_first-AreSound _ members (d.documents s) sound all)

  write-AreSound :
      (code : String) (checked : Checked) (s : S)
      → ((members : List String) → checked ≡ joining members → AreSound members)
      → All IsSound (d.documents s)
      → All IsSound (d.documents ((join_write c code checked s).1))
  unfolding join_write
  write-AreSound code (settled reply) s sound all = all
  write-AreSound code (joining members) s sound all =
      updated-documents code members s _ refl (sound members refl) all

  -- On a collection as the driver documents it: a member that joins on what was read in an
  -- earlier state of the collection, whatever other requests did since, leaves every group with
  -- at most 16 members and none of them twice, where all groups were so at the read and are so at
  -- the write.
  pub join_write-AreSound :
      (code sub : String) (before now : S)
      → All IsSound (d.documents before)
      → All IsSound (d.documents now)
      → All IsSound (d.documents ((join_write c code (join_read c code sub before) now).1))
  unfolding join_read
  join_write-AreSound code sub before now all_before all_now =
      write-AreSound code (join_read c code sub before) now
        (λ members joined.
          read-AreSound sub (c.find_one "code" code before) members
            (λ g found.
              first_match-All IsSound _ (d.documents before) g all_before
                (d.find-first "code" code before g found))
            joined)
        all_now

  inserted-documents :
      (g : RunnerGroupSchema) (s : S) (o : Option S)
      → c.insert_one g s ≡ o
      → IsSound g
      → All IsSound (d.documents s)
      → All IsSound (d.documents ((inserted c s o).1))
  unfolding inserted
  inserted-documents g s none wrote sound all = all
  inserted-documents g s (some s') wrote sound all =
      rw (d.insert-last g s s' wrote) (All-append IsSound (d.documents s) (g ∷ []) all (sound, tt))

  -- On a collection as the driver documents it: CreateRunnerGroup, on each of its branches,
  -- leaves every group with at most 16 members and none of them twice, where all groups were so.
  pub create_runner_group-AreSound :
      (header body : Option String) (now : ℤ) (code : String) (s : S)
      → All IsSound (d.documents s)
      → All IsSound (d.documents ((create_runner_group c header body now code s).1))
  unfolding create_runner_group new_group contains_func
  create_runner_group-AreSound none body now code s all = all
  create_runner_group-AreSound (some sub) none now code s all = all
  create_runner_group-AreSound (some sub) (some name) now code s all =
      inserted-documents (new_group sub name now code) s _ refl (omega arith, refl) all
