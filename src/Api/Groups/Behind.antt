-- ===== src/Api/Groups/Behind.antt =====
-- The handlers of internal/api/runner_group behind the middleware of their group, UserInfoMiddleware.
use runner_io.Common.{◌≡◌, refl, List, Option, none, some, String}
use runner_io.Common.Int.{ℤ}
use runner_io.Common.Map.{lookup}
use runner_io.Common.Exit.{Exit, returned, ◌>>=◌, returned->>=}
use runner_io.Dto.Auth.{UserData}
use runner_io.Auth.Requests.{Net}
use runner_io.Auth.UserInfo.{Headers, Settings, Services, get_header, user_info_middleware}
use runner_io.Auth.UserInfo.Identity.{or_else, Passed, user_info_middleware-get_header}
use runner_io.Api.Groups.{GroupCollection, Reply, join_runner_group}
use runner_io.Api.Groups.Create.{create_group}

-- `json.Unmarshal` of the header, and the `sub` that the handlers take from it.
abbrev pub sub_of : Option UserData → Option String
sub_of none = none
sub_of (some user) = some user.sub

module _ {R S G : Type 0} (net : Net R S) (services : Services S) (settings : Settings)
    (c : GroupCollection G) where
  unfoldable pub join_route : String → Headers → S → G → Exit ((Reply × G) × S)
  unfolding user_info_middleware get_header join_runner_group
  join_route code headers s t = user_info_middleware net services settings headers s >>= λ passed.
      returned (
        join_runner_group c code (sub_of (net.user_data_of (get_header "userData" passed.0))) t,
        passed.1,
      )

  unfoldable pub create_route :
      Option String → ℤ → List String → Headers → S → G → Exit (Option (Reply × G) × S)
  unfolding user_info_middleware get_header create_group
  create_route body now codes headers s t =
      user_info_middleware net services settings headers s >>= λ passed. returned (
        create_group c (sub_of (net.user_data_of (get_header "userData" passed.0))) body now codes
            t,
        passed.1,
      )

  -- A request whose middleware calls the handler: the handler joins or creates a group for the user of
  -- the client's own header "userData" where it has sent one, and only otherwise for the user
  -- that Auth0 has for the token, whose JSON `passed` has.
  pub group_routes-user :
      (headers headers' : Headers) (s s' : S)
      → user_info_middleware net services settings headers s ≡ returned (headers', s')
      → (passed : Passed net services settings headers s headers' s') × ((code : String) (t : G)
          → join_route code headers s t
            ≡ returned (
              join_runner_group c code
                  (sub_of (net.user_data_of (or_else (lookup "userData" headers) passed.user_json)))
                  t,
              s',
            ))
        × ((body : Option String) (now : ℤ) (codes : List String) (t : G)
            → create_route body now codes headers s t
              ≡ returned (
                create_group c
                    (sub_of
                      (net.user_data_of (or_else (lookup "userData" headers) passed.user_json)))
                    body
                    now
                    codes
                    t,
                s',
              ))
  unfolding join_route create_route
  group_routes-user headers headers' s s' done =
      let (passed, user, permissions) =
        user_info_middleware-get_header net services settings headers s headers' s' done in
      (
        passed,
        λ code t. rw (done, returned->>= {A = Headers × S} (headers', s'), user) refl,
        λ body now codes t. rw (done, returned->>= {A = Headers × S} (headers', s'), user) refl,
      )
