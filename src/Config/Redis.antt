-- ===== src/Config/Redis.antt =====
-- internal/config/redis/config.go. The client of Redis is a parameter.
use runner_io.Common.{
  ℕ, ◌≡◌, refl, List, [], ◌∷◌, some, String, str_append, ap, sym, ◌∙◌, Bool, true, false,
  if◌then◌else◌,
}
use runner_io.Common.Exit.{returned-injective, Exit, exited, returned, ◌>>=◌}
use runner_io.Config.{Environment, get_dot_env_variable}
use runner_io.Config.Mongodb.{apply_all}

pub record RedisConfig : Type 0 where
  pub host : String
  pub port : String
  pub password : String
  pub db : ℕ

-- `redis.Options`
pub record Options : Type 0 where
  pub addr : String
  pub password : String
  pub db : ℕ

unfoldable pub new_redis_config : List (RedisConfig → RedisConfig) → Environment → Exit RedisConfig
unfolding get_dot_env_variable apply_all
new_redis_config options env = get_dot_env_variable "REDIS_HOST" env >>= λ host.
    get_dot_env_variable "REDIS_PORT" env >>= λ port.
    get_dot_env_variable "REDIS_PASSWORD" env >>= λ password.
    returned (apply_all options (record { host = host; port = port; password = password; db = 0 }))

abbrev pub with_redis_db : ℕ → RedisConfig → RedisConfig
with_redis_db db c = record c { db = db }

unfoldable pub default_redis_config_for_auth : Environment → Exit RedisConfig
unfolding new_redis_config
default_redis_config_for_auth = new_redis_config (with_redis_db 0 ∷ [])

abbrev pub options_of : RedisConfig → Options
options_of config = record {
  addr = str_append config.host (str_append ":" config.port);
  password = config.password;
  db = config.db;
}

-- The client, for which its options stand here; `ping` tells whether the data base answers it.
unfoldable pub new_redis_client : (Options → Bool) → RedisConfig → Exit Options
new_redis_client ping config =
    if ping (options_of config) then returned (options_of config) else exited

client_of :
    (b : Bool) (options client : Options)
    → (if b then returned options else exited) ≡ returned client
    → (client ≡ options) × (b ≡ true)
client_of true options client e = (sym (returned-injective e), refl)
client_of false options client e = cc

-- The client for the tokens: it is given out only where the data base with the number 0 at the address
-- of the environment has answered.
client_for_auth :
    (ping : Options → Bool) (getenv : String → String) (client : Options)
    → (default_redis_config_for_auth (some getenv) >>= new_redis_client ping) ≡ returned client
    → (client ≡ record {
      addr = str_append (getenv "REDIS_HOST") (str_append ":" (getenv "REDIS_PORT"));
      password = getenv "REDIS_PASSWORD";
      db = 0;
    })
      × (ping client ≡ true)
unfolding default_redis_config_for_auth new_redis_config get_dot_env_variable apply_all
    new_redis_client ◌>>=◌
client_for_auth ping getenv client done =
    let found = client_of _ _ client done in (found.0, ap ping found.0 ∙ found.1)
