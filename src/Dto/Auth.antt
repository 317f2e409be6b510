-- ===== src/Dto/Auth.antt =====
-- internal/dto/auth.go and claims.go.
use runner_io.Common.{
  ℕ, Bool, true, false, List, [], ◌∷◌, String, str_eq, if◌then◌else◌, contains_func,
}

pub record UserData : Type 0 where
  pub nickname : String
  pub name : String
  pub picture : String
  pub updated_at : String
  pub sub : String

pub record MgmtPostRequest : Type 0 where
  pub client_id : String
  pub client_secret : String
  pub audience : String
  pub grant_type : String

pub record MgmtPostResponse : Type 0 where
  pub access_token : String
  pub expires_in : ℕ
  pub scope : String
  pub token_type : String

pub record Source : Type 0 where
  pub source_id : String
  pub source_name : String
  pub source_type : String

pub record UserPermission : Type 0 where
  pub permission_name : String
  pub description : String
  pub resource_server_name : String
  pub resource_server_id : String
  pub sources : List Source

unfoldable pub new_mgmt_post_request : String → String → String → MgmtPostRequest
new_mgmt_post_request client_id client_secret audience = record {
  client_id = client_id;
  client_secret = client_secret;
  audience = audience;
  grant_type = "client_credentials";
}

pub record CustomClaims : Type 0 where
  pub permissions : List String

-- The loop of `HasPermissions`.
unfoldable pub has_each : List String → List String → Bool
unfolding contains_func
has_each permissions [] = true
has_each permissions (scope ∷ expected) =
    let rest = has_each permissions expected in
    if contains_func permissions (λ p. str_eq p scope) then rest else false

unfoldable pub has_permissions : CustomClaims → List String → Bool
unfolding has_each
has_permissions c [] = false
has_permissions c (scope ∷ expected) = has_each c.permissions (scope ∷ expected)
