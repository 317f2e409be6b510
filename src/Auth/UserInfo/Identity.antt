-- ===== src/Auth/UserInfo/Identity.antt =====
-- Whose data the handlers behind the user info middleware read.
use runner_io.Common.{
  ◌≡◌, refl, ap, ◌∙◌, List, [], ◌∷◌, Option, none, some, String, str_eq, if◌then◌else◌, arith,
  eq_iff,
}
use runner_io.Common.Map.{lookup}
use runner_io.Common.Exit.{returned, Ensures, Ensures->>=, Ensures-or_exit, returns, of_Ensures}
use runner_io.Dto.Auth.{UserData, UserPermission}
use runner_io.Auth.Requests.{Net}
use runner_io.Auth.UserInfo.{
  Headers, add_header, get_header, Settings, Services, fetch_user, access_token, fetch_permissions,
  user_info_middleware,
}

-- A value, or another one where there is none.
abbrev pub or_else : Option String → String → String
or_else none other = other
or_else (some value) other = value

pub lookup-add_header :
    (k key value : String) (headers : Headers)
    → lookup k (add_header key value headers)
      ≡ (if str_eq key k then some (or_else (lookup k headers) value) else lookup k headers)
unfolding lookup
lookup-add_header k key value [] = ground (arith, eq_iff key k)
lookup-add_header k key value ((j, v) ∷ headers) =
    ground (arith, eq_iff j k, eq_iff key k, lookup-add_header k key value headers)

-- What is read of two keys that are added to the headers.
get_header-first :
    (v w : String) (headers : Headers)
    → get_header "userData" (add_header "userPermissions" w (add_header "userData" v headers))
      ≡ or_else (lookup "userData" headers) v
unfolding get_header
get_header-first v w headers =
    rw
      (
        lookup-add_header "userData" "userPermissions" w (add_header "userData" v headers),
        lookup-add_header "userData" "userData" v headers,
      )
      refl

get_header-second :
    (v w : String) (headers : Headers)
    → get_header "userPermissions"
        (add_header "userPermissions" w (add_header "userData" v headers))
      ≡ or_else (lookup "userPermissions" headers) w
unfolding get_header
get_header-second v w headers =
    rw
      (
        lookup-add_header "userPermissions" "userPermissions" w (add_header "userData" v headers),
        lookup-add_header "userPermissions" "userData" v headers,
      )
      refl

module _ {R S : Type 0} (net : Net R S) (services : Services S) (settings : Settings) where
  -- What a request that passed the middleware went through.
  pub record Passed (headers : Headers) (s : S) (headers' : Headers) (s' : S) : Type 0 where
    pub user : UserData
    pub permissions : List UserPermission
    pub user_json : String
    pub permissions_json : String
    pub permission_url : String
    pub token : String
    pub mgmt_audience_api : String
    pub mgmt_token_url : String
    pub asked : S
    pub tokened : S
    pub user_fetched : fetch_user net services settings headers s ≡ returned (user, asked)
    pub token_used :
        access_token net services settings mgmt_audience_api mgmt_token_url asked
        ≡ returned (token, tokened)
    pub permissions_fetched :
        fetch_permissions net services settings permission_url token tokened
        ≡ returned (permissions, s')
    pub user_written : services.json_of_user user ≡ some user_json
    pub permissions_written : services.json_of_permissions permissions ≡ some permissions_json
    pub headers_added :
        headers'
        ≡ add_header "userPermissions" permissions_json (add_header "userData" user_json headers)

  middleware-Ensures :
      (headers : Headers) (s : S)
      → Ensures
          (λ r. Passed headers s r.0 r.1)
          (user_info_middleware net services settings headers s)
  unfolding user_info_middleware
  middleware-Ensures headers s = Ensures-or_exit _ _ λ api joined_api.
      Ensures-or_exit _ _ λ token_url joined_token_url.
        Ensures-or_exit _ _ λ users_url joined_users_url. Ensures->>= _ _ λ user fetched.
          Ensures-or_exit _ _ λ user_json written. Ensures->>= _ _ λ token used.
            Ensures-or_exit _ _ λ permission_url joined. Ensures->>= _ _ λ permissions allowed.
              Ensures-or_exit _ _ λ permissions_json noted. returns _ (record {
                user = user.0;
                permissions = permissions.0;
                user_json = user_json;
                permissions_json = permissions_json;
                permission_url = permission_url;
                token = token.0;
                mgmt_audience_api = api;
                mgmt_token_url = token_url;
                asked = user.1;
                tokened = token.1;
                user_fetched = fetched;
                token_used = used;
                permissions_fetched = allowed;
                user_written = written;
                permissions_written = noted;
                headers_added = refl;
              })

  pub user_info_middleware-Passed :
      {headers : Headers} {s : S} {headers' : Headers} {s' : S}
      → user_info_middleware net services settings headers s ≡ returned (headers', s')
      → Passed headers s headers' s'
  user_info_middleware-Passed {headers} {s} done =
      of_Ensures {P = λ r. Passed headers s r.0 r.1} done (middleware-Ensures headers s)

  -- The handlers behind read the client's own "userData" and "userPermissions" where it sent them; only
  -- without them they read the JSON of the user and of the permissions that Auth0 returned.
  pub user_info_middleware-get_header :
      (headers : Headers) (s : S) (headers' : Headers) (s' : S)
      → user_info_middleware net services settings headers s ≡ returned (headers', s')
      → (passed : Passed headers s headers' s') × (get_header "userData" headers'
          ≡ or_else (lookup "userData" headers) passed.user_json)
        × (get_header "userPermissions" headers'
            ≡ or_else (lookup "userPermissions" headers) passed.permissions_json)
  user_info_middleware-get_header headers s headers' s' done =
      let passed = user_info_middleware-Passed done in
      (
        passed,
        ap (get_header "userData") passed.headers_added
            ∙ get_header-first passed.user_json passed.permissions_json headers,
        ap (get_header "userPermissions") passed.headers_added
            ∙ get_header-second passed.user_json passed.permissions_json headers,
      )
