-- ===== src/Api/Groups/Create.antt =====
-- CreateRunnerGroupHandler.Handler of internal/api/runner_group/create_runner_group_handler.go as a whole,
-- with the candidates that GenerateRandomString gives CreateCode.
use runner_io.Common.{List, Option, none, some, String}
use runner_io.Common.Result.{Result}
use runner_io.Common.Int.{ℤ}
use runner_io.Api.Groups.{GroupCollection, Reply, aborted, create_code, create_runner_group}

module _ {S : Type 0} (c : GroupCollection S) where
  abbrev with_code : String → String → ℤ → S → Option String → Option (Reply × S)
  with_code sub name now s none = none
  with_code sub name now s (some code) =
      some (create_runner_group c (some sub) (some name) now code s)

  -- `none` while CreateCode has not found a code among the candidates.
  unfoldable pub create_group :
      Option String → Option String → ℤ → List String → S → Option (Reply × S)
  unfolding create_runner_group create_code
  create_group none body now codes s = some (aborted 500, s)
  create_group (some sub) none now codes s = some (aborted 400, s)
  create_group (some sub) (some name) now codes s = with_code sub name now s (create_code c codes s)
