-- ===== src/Config.antt =====
-- internal/utils/dotenv.go: the variables of the environment.
pub mod Mongodb
pub mod Server
pub mod Redis
use runner_io.Common.{Bool, true, false, ◌||◌, Option, none, some, String, str_eq, if◌then◌else◌}
use runner_io.Common.Exit.{Exit, exited, panicked, returned, ◌>>=◌}

-- `os.Getenv`, behind `godotenv.Load`; `none` is the error of the latter.
abbrev pub Environment : Type 0
Environment = Option (String → String)

abbrev pub is_mode : String → Bool
is_mode value = str_eq value "debug" || str_eq value "release" || str_eq value "test"

-- `log.Fatalf` ends the process before the error is returned.
unfoldable pub validate_env_variable : String → Exit Bool
validate_env_variable value = if is_mode value then returned true else exited

abbrev pub is_server : String → Bool
is_server value = str_eq value "service" || str_eq value "engine"

-- The port of the one of the two servers that `SERVER` names.
unfoldable pub server_port : (String → String) → Exit String
server_port getenv =
    if is_server (getenv "SERVER")
    then (if str_eq (getenv "SERVER") "service"
        then returned (getenv "SERVER_SERVICE_PORT")
        else returned (getenv "SERVER_ENGINE_PORT"))
    else exited

abbrev pub checked_mode : Bool → String → Exit String
checked_mode true value = validate_env_variable value >>= λ ok. returned value
checked_mode false value = returned value

abbrev pub port_or : Bool → (String → String) → String → Exit String
port_or true getenv value = server_port getenv
port_or false getenv value = returned value

unfoldable pub get_dot_env_variable : String → Environment → Exit String
unfolding validate_env_variable server_port
get_dot_env_variable key none = panicked
get_dot_env_variable key (some getenv) = checked_mode (str_eq key "ENV") (getenv key) >>= λ value.
    port_or (str_eq key "SERVER_PORT") getenv value
