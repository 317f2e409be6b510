-- ===== src/Start/Logging.antt =====
-- StructuredLogger of internal/middlewares/log/log.go and NewProduction of internal/utils/log.go.
use runner_io.Common.{ℕ, String, str_eq, str_append, if◌then◌else◌}
use runner_io.Common.Int.{ℤ}
use runner_io.Common.Exit.{Exit, returned, ◌>>=◌}
use runner_io.GoTime.{Time, sub_time}
use runner_io.Config.{Environment, get_dot_env_variable}

-- What the middleware reads of a request before it is handled, and behind it of the reply.
pub record Request : Type 0 where
  pub path : String
  pub raw_query : String
  pub client_ip : String
  pub method : String
  pub user_agent : String

pub record Handled : Type 0 where
  pub status : ℕ
  -- the errors of the private type, as one text
  pub errors : String

pub record RequestDetails : Type 0 where
  pub client_id : String
  pub method : String
  pub status_code : ℕ
  pub path : String
  pub latency : ℤ
  pub error_message : String
  pub user_agent : String

unfoldable pub logged_path : String → String → String
logged_path path raw = if str_eq raw "" then path else str_append (str_append path "?") raw

-- `next` is `c.Next()`, the handlers behind, on what the program keeps.
unfoldable pub structured_logger {ℓ} :
    {W : Type ℓ} → (Request → W → Handled × W) → Time → Time → Request → W → RequestDetails × W
unfolding logged_path sub_time
structured_logger next start stop request w =
    let (handled, w') = next request w in
    (
      record {
        client_id = request.client_ip;
        method = request.method;
        status_code = handled.status;
        path = logged_path request.path request.raw_query;
        latency = sub_time stop start;
        error_message = handled.errors;
        user_agent = request.user_agent;
      },
      w',
    )

-- The loggers of zap.
pub data Logger : Type 0 where
  production : Logger
  development : Logger

unfoldable pub new_production : Environment → Exit Logger
unfolding get_dot_env_variable
new_production env = get_dot_env_variable "ENV" env >>= λ mode. returned (
    if str_eq mode "release"
    then production
    else if str_eq mode "debug"
    then development
    else development)
