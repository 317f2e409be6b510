-- ===== src/Examples/Groups.antt =====
-- Requests on groups: some that run at the same time, the creation of a group with candidates, and the
-- handlers behind the middleware.
use runner_io.Common.{
  ◌≡◌, refl, List, [], ◌∷◌, Option, none, some, String, All, arith, contains_func,
}
use runner_io.Common.Int.{ℤ, pos}
use runner_io.Common.Map.{lookup}
use runner_io.Common.Exit.{returned}
use runner_io.Dto.Schema.{RunnerGroupSchema}
use runner_io.Api.Groups.{join_read, join_write, check_group, joining, join_runner_group, new_group}
use runner_io.Api.Groups.Requests.{Requests, idle, Reach, here, later, reads, writes, chooses}
use runner_io.Api.Groups.Owners.{IsFit}
use runner_io.Api.Groups.Interleaved.{Reach-IsFit}
use runner_io.Api.Groups.Create.{create_group}
use runner_io.Api.Groups.Behind.{sub_of, join_route, create_route, group_routes-user}
use runner_io.Auth.UserInfo.Identity.{Passed}
use runner_io.Examples.Requests.{memory, memory-IsCollection, some_groups}
use runner_io.Examples.Tokens
use runner_io.Examples.Tokens.{echo, settings, passed_headers, middleware_run}

some_groups-IsFit : All IsFit some_groups
unfolding contains_func
some_groups-IsFit = (((omega arith, refl), ([], refl)), tt)

-- Bob and Cat read the group before either writes; between the two, Dan creates a group.
abbrev both_wait : Requests (List RunnerGroupSchema)
both_wait = record {
  collection = some_groups;
  joins = ("abc", "ann" ∷ "cat" ∷ []) ∷ ("abc", "ann" ∷ "bob" ∷ []) ∷ [];
  creates = new_group "dan" "evening" (pos 2) "def" ∷ [];
}

run_both : Reach (memory "code") (idle some_groups) both_wait
unfolding join_read check_group contains_func
run_both =
    later
      (later (later here (reads (idle some_groups) "abc" "bob" ("ann" ∷ "bob" ∷ []) refl))
        (reads _ "abc" "cat" ("ann" ∷ "cat" ∷ []) refl))
      (chooses _ "dan" "evening" "def" (pos 2) refl)

Reach-IsFit_example :
    All IsFit ((join_write (memory "code") "abc" (joining ("ann" ∷ "cat" ∷ [])) some_groups).1)
Reach-IsFit_example =
    Reach-IsFit (memory "code") (memory-IsCollection "code") some_groups _ some_groups-IsFit (
      later run_both
        (writes both_wait [] "abc" ("ann" ∷ "cat" ∷ []) (("abc", "ann" ∷ "bob" ∷ []) ∷ []) refl))

group_routes-user_example :
    (passed : Passed echo
      (Tokens.memory "ann")
      (settings "read:all")
      []
      none
      (passed_headers "read:all" [])
      (some "read:all"))
    × ((code : String) (t : List RunnerGroupSchema)
        → join_route echo (Tokens.memory "ann") (settings "read:all") (memory "code") code [] none t
          ≡ returned (
            join_runner_group (memory "code") code (sub_of (echo.user_data_of passed.user_json)) t,
            some "read:all",
          ))
    × ((body : Option String) (now : ℤ) (codes : List String) (t : List RunnerGroupSchema)
        → create_route echo
            (Tokens.memory "ann")
            (settings "read:all")
            (memory "code")
            body
            now
            codes
            []
            none
            t
          ≡ returned (
            create_group
                (memory "code")
                (sub_of (echo.user_data_of passed.user_json))
                body
                now
                codes
                t,
            some "read:all",
          ))
unfolding lookup
group_routes-user_example =
    group_routes-user echo (Tokens.memory "ann") (settings "read:all") (memory "code") []
      (passed_headers "read:all" []) none (some "read:all") middleware_run
