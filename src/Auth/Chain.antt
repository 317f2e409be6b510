-- ===== src/Auth/Chain.antt =====
-- internal/api/health_check/auth_health_check_handler.go: the route that asks for a permission, with the
-- chain of middlewares in front of it. `check_jwt` stands for the library's check of the token: the status
-- that it rejects a request with, or `none`.
pub mod Verdicts
use runner_io.Common.{
  ℕ, Bool, true, false, if◌then◌else◌, ◌≡◌, refl, ◌∙◌, ap, List, [], ◌∷◌, Option, none, some,
  String,
}
use runner_io.Common.Map.{lookup}
use runner_io.Common.Exit.{Exit, exited, returned, ◌>>=◌}
use runner_io.Dto.Auth.{UserData, UserPermission}
use runner_io.Auth.Permissions.{Verdict, next, abort, validate_permissions}
use runner_io.Auth.Requests.{Net}
use runner_io.Auth.UserInfo.{Headers, Settings, Services, get_header, user_info_middleware}

-- What is written to the client: the status of an abort, and the JSON of the handler.
pub data Reply : Type 0 where
  rejected : ℕ → Reply
  aborted_with_json : ℕ → Reply
  json : UserData → Reply

-- The handler. Behind `AbortWithError` it goes on to `ctx.JSON`, with what was decoded before the error.
unfoldable pub auth_health_check : Option UserData → Reply
auth_health_check none = aborted_with_json 500
auth_health_check (some user) = json user

-- What the middlewares behind `ValidatePermissions` decide for its verdict.
abbrev pub behind_permissions : Verdict → Option UserData → Reply
behind_permissions next user = auth_health_check user
behind_permissions (abort status) user = rejected status

module _ {R S : Type 0} (net : Net R S) (services : Services S) (settings : Settings) where
  -- The chain behind the check of the token.
  abbrev pub behind_jwt : Option ℕ → Headers → S → Exit (Reply × S)
  behind_jwt (some status) headers s = returned (rejected status, s)
  behind_jwt none headers s = user_info_middleware net services settings headers s >>= λ passed.
      returned (
        behind_permissions
            (validate_permissions ("read:all" ∷ [])
              (net.permissions_of (get_header "userPermissions" passed.0)))
            (net.user_data_of (get_header "userData" passed.0)),
        passed.1,
      )

  unfoldable pub auth_health_check_route : (Headers → Option ℕ) → Headers → S → Exit (Reply × S)
  unfolding user_info_middleware get_header validate_permissions auth_health_check
  auth_health_check_route check_jwt headers s = behind_jwt (check_jwt headers) headers s
