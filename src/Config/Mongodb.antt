-- ===== src/Config/Mongodb.antt =====
-- internal/config/mongodb/config.go and internal/config/redis: the addresses of the data bases.
use text.Mathlib.TextLemmas.{append_assoc}
use runner_io.Common.{
  refl, some, Bool, true, false, if◌then◌else◌, Option, ◌≡◌, sym, ◌∙◌, ap, List, [], ◌∷◌, String,
  str_append,
}
use runner_io.Common.Exit.{
  Exit, exited, returned, ◌>>=◌, or_exit, Ensures, exits, returns, Ensures-or_exit,
}
use runner_io.Config.{Environment, get_dot_env_variable}

pub record Config : Type 0 where
  pub user_name : String
  pub password : String
  pub host : String
  pub port : String

-- The options are applied from left to right.
unfoldable pub apply_all {ℓ} : {A : Type ℓ} → List (A → A) → A → A
apply_all [] config = config
apply_all (option ∷ options) config = apply_all options (option config)

unfoldable pub new_config : List (Config → Config) → Config
unfolding apply_all
new_config options =
    apply_all options (record { user_name = ""; password = ""; host = ""; port = "" })

abbrev pub with_user_name : String → Config → Config
with_user_name user_name c = record c { user_name = user_name }

abbrev pub with_password : String → Config → Config
with_password password c = record c { password = password }

abbrev pub with_host : String → Config → Config
with_host host c = record c { host = host }

abbrev pub with_port : String → Config → Config
with_port port c = record c { port = port }

unfoldable pub default_config : Environment → Exit Config
unfolding new_config get_dot_env_variable
default_config env = get_dot_env_variable "MONGO_INITDB_ROOT_USERNAME" env >>= λ user_name.
    get_dot_env_variable "MONGO_INITDB_ROOT_PASSWORD" env >>= λ password.
    get_dot_env_variable "MONGO_HOST" env >>= λ host.
    get_dot_env_variable "ME_CONFIG_MONGODB_PORT" env >>= λ port. returned (
      new_config
        (with_user_name user_name ∷ with_password password ∷ with_host host ∷ with_port port ∷ []))

infixr 6 ◌&◌
abbrev ◌&◌ : String → String → String
a & b = str_append a b

unfoldable pub get_uri : Config → String
get_uri c = "mongodb://" & c.user_name & ":" & c.password & "@" & c.host & ":" & c.port & "/"

-- `mongo.Connect` and `Ping` are parameters; an error of either ends the process.
unfoldable pub connect {ℓ} : {C : Type ℓ} → (String → Option C) → (C → Bool) → Config → Exit C
unfolding get_uri
connect open_client ping config = or_exit (open_client (get_uri config)) >>= λ client.
    if ping client then returned client else exited

answered {ℓ κ} :
    {C : Type ℓ} (P : C → Type κ) (b : Bool) (client : C)
    → (b ≡ true → P client)
    → Ensures P (if b then returned client else exited)
answered P true client h = returns client (h refl)
answered P false client h = exits

-- A client is given out only where it was opened at the URI of the configuration, and answered.
connect-Ensures {ℓ} :
    {C : Type ℓ} (open_client : String → Option C) (ping : C → Bool) (config : Config)
    → Ensures
        (λ c. (open_client (get_uri config) ≡ some c) × (ping c ≡ true))
        (connect open_client ping config)
unfolding connect
connect-Ensures open_client ping config = Ensures-or_exit _ _ λ client opened.
    answered (λ c. (open_client (get_uri config) ≡ some c) × (ping c ≡ true)) (ping client) client
      (λ e. (opened, e))

-- The fields are put into the URI as they are: a password with an "@" in it gives the URI of another
-- configuration, whose host begins behind that "@".
get_uri-same :
    (user_name password more host port : String)
    → get_uri (record {
      user_name = user_name;
      password = password & "@" & more;
      host = host;
      port = port;
    })
      ≡ get_uri (record {
        user_name = user_name;
        password = password;
        host = more & "@" & host;
        port = port;
      })
unfolding get_uri
get_uri-same user_name password more host port =
    let behind = ":" & port & "/" in
    ap (λ s. "mongodb://" & user_name & ":" & s)
      (append_assoc password ("@" & more) ("@" & host & behind)
        ∙ ap (λ s. password & s)
            (append_assoc "@" more ("@" & host & behind)
              ∙ ap (λ s. "@" & s)
                  (sym (ap (λ s. more & s) (append_assoc "@" host behind))
                    ∙ sym (append_assoc more ("@" & host) behind))))
