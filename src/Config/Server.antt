-- ===== src/Config/Server.antt =====
-- internal/config/server/config.go. The configuration for CORS is the library's, with `AllowOrigins` set.
use runner_io.Common.{List, [], ◌∷◌, String, str_append, str_eq, if◌then◌else◌}
use runner_io.Common.Exit.{Exit, exited, returned, ◌>>=◌}
use runner_io.Config.{Environment, get_dot_env_variable, is_mode}

pub record Config (C : Type 0) : Type 0 where
  pub port : String
  pub gin_mode : String
  pub cors : C

-- An option that may end the process.
abbrev pub ConfigOption : Type 0 → Type 0
ConfigOption C = Config C → Exit (Config C)

-- The port that the environment gives to the server that it names.
abbrev pub port_of : (String → String) → String
port_of getenv =
    if str_eq (getenv "SERVER") "service"
    then getenv "SERVER_SERVICE_PORT"
    else getenv "SERVER_ENGINE_PORT"

module _ {C : Type 0} where
  unfoldable pub apply_options : List (ConfigOption C) → Config C → Exit (Config C)
  apply_options [] config = returned config
  apply_options (option ∷ options) config = option config >>= apply_options options

  -- `unset` is the zero value of the library's configuration.
  unfoldable pub new_server_config : C → List (ConfigOption C) → Exit (Config C)
  unfolding apply_options
  new_server_config unset options =
      apply_options options (record { port = ""; gin_mode = ""; cors = unset })

  abbrev pub with_port : String → ConfigOption C
  with_port port c = returned (record c { port = port })

  unfoldable pub with_gin_mode : String → ConfigOption C
  with_gin_mode gin_mode c =
      if is_mode gin_mode then returned (record c { gin_mode = gin_mode }) else exited

  abbrev pub with_cors : C → ConfigOption C
  with_cors config c = returned (record c { cors = config })

  abbrev pub with_cors_hosts : (List String → C → C) → List String → ConfigOption C
  with_cors_hosts allow_origins hosts c = returned (record c { cors = allow_origins hosts c.cors })

  -- `cors_default` is the library's `DefaultConfig`.
  unfoldable pub default : (List String → C → C) → C → C → Environment → Exit (Config C)
  unfolding new_server_config with_gin_mode get_dot_env_variable
  default allow_origins unset cors_default env = get_dot_env_variable "SERVER_PORT" env >>= λ port.
      get_dot_env_variable "ENV" env >>= λ gin_mode.
      get_dot_env_variable "SERVER_HOST" env >>= λ host.
      get_dot_env_variable "SERVER_PORT" env >>= λ host_port. new_server_config unset (
        with_port port
        ∷ with_gin_mode gin_mode
        ∷ with_cors cors_default
        ∷ with_cors_hosts allow_origins (str_append host host_port ∷ [])
        ∷ [])
