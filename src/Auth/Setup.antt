-- ===== src/Auth/Setup.antt =====
-- How the middlewares of internal/middlewares/auth/auth.go are made from the environment: AuthMiddleware,
-- the settings of UserInfoMiddleware, and NewAuthHealthCheckHandler, which makes both.
use runner_io.Common.{◌≡◌, refl, ℕ, List, [], ◌∷◌, Option, some, String}
use runner_io.Common.Exit.{Exit, returned, ◌>>=◌, or_exit}
use runner_io.Config.{Environment, get_dot_env_variable}
use runner_io.Auth.Requests.{Net}
use runner_io.Auth.UserInfo.{Headers, Settings, Services}
use runner_io.Auth.Chain.{Reply, auth_health_check_route}

-- `url.Parse`, `validator.New` with the keys of the issuer and RS256, and the check of a request's token by
-- the library's middleware: the status that it rejects the request with, or `none`.
pub record JwtLibrary (U V : Type 0) : Type 0 where
  pub parse_url : String → Option U
  -- the issuer's URL, the issuer and the audiences
  pub new_validator : U → String → List String → Option V
  pub check_jwt : V → Headers → Option ℕ

module _ {U V : Type 0} (library : JwtLibrary U V) where
  -- `log.Fatal` ends the process where the URL or the validator is refused.
  unfoldable pub auth_middleware : Environment → Exit (Headers → Option ℕ)
  unfolding get_dot_env_variable
  auth_middleware env = get_dot_env_variable "AUTH0_AUDIENCE" env >>= λ audience.
      get_dot_env_variable "AUTH0_AUTHORITY" env >>= λ authority.
      or_exit (library.parse_url authority) >>= λ issuer_url.
      or_exit (library.new_validator issuer_url authority (audience ∷ [])) >>= λ validator.
      returned (library.check_jwt validator)

unfoldable pub user_info_settings : Environment → Exit Settings
unfolding get_dot_env_variable
user_info_settings env = get_dot_env_variable "MGMT_AUTH0_AUDIENCE" env >>= λ mgmt_audience.
    get_dot_env_variable "MGMT_AUTH0_CLIENT_ID" env >>= λ mgmt_client_id.
    get_dot_env_variable "MGMT_AUTH0_CLIENT_SECRET" env >>= λ mgmt_client_secret.
    get_dot_env_variable "AUTH0_AUTHORITY" env >>= λ authority. returned (record {
      mgmt_audience = mgmt_audience;
      mgmt_client_id = mgmt_client_id;
      mgmt_client_secret = mgmt_client_secret;
      authority = authority;
    })

module _ {R S U V : Type 0} (library : JwtLibrary U V) (net : Net R S) (services : Services S) where
  -- The handler with its middlewares, once for all requests.
  unfoldable pub new_auth_health_check_handler : Environment → Exit (Headers → S → Exit (Reply × S))
  unfolding auth_middleware user_info_settings auth_health_check_route
  new_auth_health_check_handler env = auth_middleware library env >>= λ check_jwt.
      user_info_settings env >>= λ settings.
      returned (auth_health_check_route net services settings check_jwt)

  settings_from : (String → String) → Settings
  settings_from getenv = record {
    mgmt_audience = getenv "MGMT_AUTH0_AUDIENCE";
    mgmt_client_id = getenv "MGMT_AUTH0_CLIENT_ID";
    mgmt_client_secret = getenv "MGMT_AUTH0_CLIENT_SECRET";
    authority = getenv "AUTH0_AUTHORITY";
  }

  -- Where the environment can be read and the library takes the authority and the audience, the route is
  -- made with the check of that validator and the settings that the environment has.
  new_auth_health_check_handler_lem :
      (getenv : String → String) (url : U) (validator : V)
      → library.parse_url (getenv "AUTH0_AUTHORITY") ≡ some url
      → library.new_validator url (getenv "AUTH0_AUTHORITY") (getenv "AUTH0_AUDIENCE" ∷ [])
        ≡ some validator
      → new_auth_health_check_handler (some getenv)
        ≡ returned (
            auth_health_check_route net services
              (settings_from getenv)
              (library.check_jwt validator))
  unfolding new_auth_health_check_handler auth_middleware user_info_settings get_dot_env_variable
      ◌>>=◌ settings_from
  new_auth_health_check_handler_lem getenv url validator parsed made = rw (parsed, made) refl
