-- ===== src/Auth/Chain/Verdicts.antt =====
-- What the route that asks for "read:all" answers, through the middlewares in front of it.
use runner_io.Common.{
  ℕ, ◌≡◌, refl, ◌∙◌, Bool, true, false, List, [], ◌∷◌, Option, none, some, String, if◌then◌else◌,
}
use runner_io.Common.Map.{lookup}
use runner_io.Common.Exit.{returned, Ensures, Ensures->>=, returns, of_Ensures}
use runner_io.Dto.Auth.{UserData, UserPermission, has_permissions}
use runner_io.Auth.Permissions.{next, abort, validate_permissions}
use runner_io.Auth.Permissions.Laws.{names, validate_permissions-eq-has_permissions}
use runner_io.Auth.Requests.{Net}
use runner_io.Auth.Chain.{
  Reply, json, rejected, behind_permissions, auth_health_check, auth_health_check_route,
}
use runner_io.Auth.UserInfo.{Headers, Settings, Services, get_header, user_info_middleware}
use runner_io.Auth.UserInfo.Identity.{or_else, Passed, user_info_middleware-get_header}

if_behind :
    (granted : Bool) (user : UserData)
    → behind_permissions (if granted then next else abort 401) (some user)
      ≡ (if granted then json user else rejected 401)
unfolding auth_health_check
if_behind true user = refl
if_behind false user = refl

-- encoding/json reads back what it wrote.
pub record IsJson {R S : Type 0} (net : Net R S) (services : Services S) : Type 0 where
  pub user_back :
      (user : UserData) (text : String)
      → services.json_of_user user ≡ some text
      → net.user_data_of text ≡ some user
  pub permissions_back :
      (permissions : List UserPermission) (text : String)
      → services.json_of_permissions permissions ≡ some text
      → net.permissions_of text ≡ some permissions

-- What a header that the client sent decodes to, or else the value that was fetched.
abbrev pub client_or {ℓ} : {A : Type ℓ} → (String → Option A) → Option String → A → Option A
client_or decode none fetched = some fetched
client_or decode (some text) fetched = decode text

decode-or_else {ℓ} :
    {A : Type ℓ} (decode : String → Option A) (sent : Option String) (text : String) (fetched : A)
    → decode text ≡ some fetched
    → decode (or_else sent text) ≡ client_or decode sent fetched
decode-or_else decode none text fetched back = back
decode-or_else decode (some forged) text fetched back = refl

module _ {R S : Type 0} (net : Net R S) (services : Services S) (settings : Settings)
    (law : IsJson net services) where
  -- The answer for a permission list and a user, as `none` where they cannot be read.
  abbrev pub answer : Option (List UserPermission) → Option UserData → Reply
  answer permissions user =
      behind_permissions (validate_permissions ("read:all" ∷ []) permissions) user

  Answered : Headers → S → Reply → S → Type 0
  Answered headers s reply s' =
      (headers' : Headers) × (passed : Passed net services settings headers s headers' s') × (reply
        ≡ answer
            (client_or net.permissions_of (lookup "userPermissions" headers) passed.permissions)
            (client_or net.user_data_of (lookup "userData" headers) passed.user))

  passed-Answered :
      (headers : Headers) (s : S) (headers' : Headers) (s' : S)
      → user_info_middleware net services settings headers s ≡ returned (headers', s')
      → Answered headers s
          (answer
            (net.permissions_of (get_header "userPermissions" headers'))
            (net.user_data_of (get_header "userData" headers')))
          s'
  unfolding Answered
  passed-Answered headers s headers' s' done =
      let found =
        user_info_middleware-get_header net services settings headers s headers' s' done in
      let passed = found.0 in
      (
        headers',
        passed,
        rw
            (
              found.1,
              found.2,
              decode-or_else net.permissions_of (lookup "userPermissions" headers)
                  passed.permissions_json passed.permissions
                  (law.permissions_back passed.permissions passed.permissions_json
                    passed.permissions_written),
              decode-or_else net.user_data_of (lookup "userData" headers) passed.user_json
                  passed.user (law.user_back passed.user passed.user_json passed.user_written),
            )
            refl,
      )

  route-Ensures :
      (check_jwt : Headers → Option ℕ) (headers : Headers) (s : S)
      → check_jwt headers ≡ none
      → Ensures
          (λ r. Answered headers s r.0 r.1)
          (auth_health_check_route net services settings check_jwt headers s)
  unfolding auth_health_check_route
  route-Ensures check_jwt headers s checked = rw checked (
      Ensures->>= (user_info_middleware net services settings headers s) _
        λ passed done. returns _ (passed-Answered headers s passed.0 passed.1 done))

  -- Where JSON is read back as it was written: a request with a token that the library accepts,
  -- when it is answered, is answered on the "userPermissions" and the "userData" that the client
  -- itself sent, whatever Auth0 says; only for a header that is missing the user's own permissions
  -- or data are taken.
  pub auth_health_check_route_lem :
      (check_jwt : Headers → Option ℕ) (headers : Headers) (s : S) (reply : Reply) (s' : S)
      → check_jwt headers ≡ none
      → auth_health_check_route net services settings check_jwt headers s ≡ returned (reply, s')
      → (headers' : Headers) × (passed : Passed net services settings headers s headers' s')
        × (reply
            ≡ answer
                (client_or net.permissions_of (lookup "userPermissions" headers) passed.permissions)
                (client_or net.user_data_of (lookup "userData" headers) passed.user))
  unfolding Answered
  auth_health_check_route_lem check_jwt headers s reply s' checked done =
      of_Ensures {P = λ r. Answered headers s r.0 r.1} done
        (route-Ensures check_jwt headers s checked)

  -- The answer to a user with these permissions.
  pub answer_to : List UserPermission → UserData → Reply
  answer_to permissions user =
      if has_permissions (record { permissions = names permissions }) ("read:all" ∷ [])
      then json user
      else rejected 401

  answer-eq-answer_to :
      (permissions : List UserPermission) (user : UserData)
      → answer (some permissions) (some user) ≡ answer_to permissions user
  unfolding answer_to auth_health_check
  answer-eq-answer_to permissions user =
      rw (validate_permissions-eq-has_permissions permissions "read:all" []) (
        if_behind (has_permissions (record { permissions = names permissions }) ("read:all" ∷ []))
          user)

  -- Where JSON is read back as it was written: a request with a token that the library accepts and
  -- with neither header, when it is answered, is answered with the user's own data where
  -- "read:all" is among the permissions that Auth0 returned, and with 401 where it is not.
  pub auth_health_check_route-honest :
      (check_jwt : Headers → Option ℕ) (headers : Headers) (s : S) (reply : Reply) (s' : S)
      → check_jwt headers ≡ none
      → lookup "userPermissions" headers ≡ none
      → lookup "userData" headers ≡ none
      → auth_health_check_route net services settings check_jwt headers s ≡ returned (reply, s')
      → (headers' : Headers) × (passed : Passed net services settings headers s headers' s')
        × (reply ≡ answer_to passed.permissions passed.user)
  auth_health_check_route-honest check_jwt headers s reply s' checked no_list no_user done =
      let found = auth_health_check_route_lem check_jwt headers s reply s' checked done in
      (
        found.0,
        found.1,
        rw (no_list, no_user) at found.2 ∙ answer-eq-answer_to found.1.permissions found.1.user,
      )
