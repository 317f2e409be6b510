-- ===== src/Auth/UserInfo.antt =====
-- `UserInfoMiddleware` of internal/middlewares/auth/auth.go, with Redis and the token extractor as
-- parameters too.
pub mod Identity
pub mod Cache
pub mod Refusal
use runner_io.Common.{List, [], ◌∷◌, ◌++◌, Option, none, some, String}
use runner_io.Common.Map.{Map, lookup}
use runner_io.Common.Exit.{Exit, exited, panicked, returned, ◌>>=◌, or_exit}
use runner_io.Dto.Auth.{UserData, MgmtPostResponse, UserPermission}
use runner_io.Auth.Requests.{Net, get_user_info, get_mgmt_post_response, get_user_permissions}

-- The headers of a request: `Header.Add` puts a value behind those that the key has, and `GetHeader`
-- reads the first one, or the empty text. net/http spells the keys alike; here they stand as in the
-- code.
abbrev pub Headers : Type 0
Headers = Map String

abbrev pub add_header : String → String → Headers → Headers
add_header key value headers = headers ++ (key, value) ∷ []

abbrev pub or_empty : Option String → String
or_empty none = ""
or_empty (some value) = value

unfoldable pub get_header : String → Headers → String
unfolding lookup
get_header key headers = or_empty (lookup key headers)

-- The environment that the middleware reads when it is made.
pub record Settings : Type 0 where
  pub mgmt_audience : String
  pub mgmt_client_id : String
  pub mgmt_client_secret : String
  pub authority : String

-- More of the libraries: `jwtmiddleware.AuthHeaderTokenExtractor`, `url.Parse` and `String` of the
-- result, encoding/json, and the entry of Redis for the access token.
pub record Services (S : Type 0) : Type 0 where
  pub extract_token : Headers → Option String
  pub parse_url : String → Option String
  pub json_of_user : UserData → Option String
  pub json_of_permissions : List UserPermission → Option String
  pub cached_token : S → Option String
  pub cache_token : String → S → S

module _ {R S : Type 0} (net : Net R S) (services : Services S) (settings : Settings) where
  -- Where the cache has no token: one is asked for, and put into the cache.
  abbrev pub keep_token : Option MgmtPostResponse × S → Exit (String × S)
  keep_token (none, s) = exited
  keep_token (some response, s) =
      returned (response.access_token, services.cache_token response.access_token s)

  abbrev pub use_token : String → String → Option String → S → Exit (String × S)
  use_token mgmt_audience_api mgmt_token_url (some cached) s = returned (cached, s)
  use_token mgmt_audience_api mgmt_token_url none s =
      get_mgmt_post_response net settings.mgmt_client_id settings.mgmt_client_secret
        mgmt_audience_api mgmt_token_url s
      >>= keep_token

  unfoldable pub access_token : String → String → S → Exit (String × S)
  unfolding get_mgmt_post_response
  access_token mgmt_audience_api mgmt_token_url s =
      use_token mgmt_audience_api mgmt_token_url (services.cached_token s) s

  -- The user behind the token of the request, and the state behind the call.
  unfoldable pub fetch_user : Headers → S → Exit (UserData × S)
  unfolding get_user_info
  fetch_user headers s = or_exit (services.extract_token headers) >>= λ token.
      or_exit (services.parse_url settings.authority) >>= λ issuer_url.
      get_user_info net issuer_url token s >>= λ answer.
      or_exit answer.0 >>= λ user. returned (user, answer.1)

  unfoldable pub fetch_permissions : String → String → S → Exit (List UserPermission × S)
  unfolding get_user_permissions
  fetch_permissions mgmt_permission_url token s =
      get_user_permissions net mgmt_permission_url token s >>= λ answer.
      or_exit answer.0 >>= λ permissions. returned (permissions, answer.1)

  -- The handler: `returned` is the call of `c.Next()` with the headers that it has put on the request.
  unfoldable pub user_info_middleware : Headers → S → Exit (Headers × S)
  unfolding fetch_user access_token fetch_permissions
  user_info_middleware headers s =
      or_exit (net.join_path settings.mgmt_audience ("/api/v2/" ∷ [])) >>= λ mgmt_audience_api.
      or_exit (net.join_path settings.mgmt_audience ("/oauth/token" ∷ [])) >>= λ mgmt_token_url.
      or_exit (net.join_path settings.mgmt_audience ("/api/v2/users/" ∷ [])) >>= λ users_url.
      fetch_user headers s >>= λ fetched. or_exit (services.json_of_user fetched.0) >>= λ user_json.
      access_token mgmt_audience_api mgmt_token_url fetched.1 >>= λ token.
      or_exit (net.join_path users_url (fetched.0.sub ∷ "/permissions" ∷ [])) >>= λ permission_url.
      fetch_permissions permission_url token.0 token.1 >>= λ permissions.
      or_exit (services.json_of_permissions permissions.0) >>= λ permissions_json. returned (
        add_header "userPermissions" permissions_json (add_header "userData" user_json headers),
        permissions.1,
      )
