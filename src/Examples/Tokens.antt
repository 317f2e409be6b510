-- ===== src/Examples/Tokens.antt =====
-- A network and a cache in memory that the laws hold of, and runs of the user info middleware on them.
-- The texts stand for JSON: a user is its name, and a list of permissions is one permission's name.
use runner_io.Common.{
  ◌≡◌, refl, Bool, false, ◌&&◌, List, [], ◌∷◌, Option, none, some, String, str_eq, if◌then◌else◌,
  arith, eq_iff,
}
use runner_io.Common.Map.{lookup}
use runner_io.Common.Exit.{exited, returned, ◌>>=◌}
use runner_io.Dto.Auth.{UserData, UserPermission, Source, new_mgmt_post_request}
use runner_io.Auth.Permissions.{validate_permissions, none_found, mark_found, mark_all, all_found}
use runner_io.Auth.Requests.{
  Net, get_user_info, read_response, get_mgmt_post_response, get_user_permissions,
}
use runner_io.Auth.UserInfo.{
  Headers, add_header, fetch_user, access_token, fetch_permissions, Settings, Services, get_header,
  user_info_middleware,
}
use runner_io.Auth.UserInfo.Identity.{or_else, Passed}
use runner_io.Auth.UserInfo.Cache.{IsCache, user_info_middleware-cached_token}
use runner_io.Auth.UserInfo.Refusal.{Refuses, user_info_middleware-refused}
use runner_io.Auth.Chain.{json, rejected, auth_health_check, auth_health_check_route}
use runner_io.Auth.Chain.Verdicts.{
  IsJson, client_or, answer, answer_to, auth_health_check_route_lem, auth_health_check_route-honest,
}

abbrev named : String → UserData
named text = record { nickname = text; name = text; picture = text; updated_at = text; sub = text }

abbrev allowed : String → UserPermission
allowed text = record {
  permission_name = text;
  description = text;
  resource_server_name = text;
  resource_server_id = text;
  sources = [];
}

-- Every URL is answered with itself.
abbrev pub echo : Net String (Option String)
echo = record {
  join_path = λ base parts. some base;
  new_request =
      λ method url body. some (record { method = method; url = url; headers = []; body = body });
  send = λ req s. (some req.url, s);
  read_all = λ answer. some answer;
  user_data_of = λ text. some (named text);
  response_of =
      λ text. some (record { access_token = text; expires_in = 1; scope = ""; token_type = "" });
  permissions_of = λ text. some (allowed text ∷ []);
  json_of_request = λ request. some request.client_id;
}

abbrev is_named : UserData → Bool
is_named u =
    str_eq u.nickname u.name
    && str_eq u.picture u.name
    && str_eq u.updated_at u.name
    && str_eq u.sub u.name

abbrev is_allowed : UserPermission → List Source → Bool
is_allowed p [] =
    str_eq p.description p.permission_name
    && str_eq p.resource_server_name p.permission_name
    && str_eq p.resource_server_id p.permission_name
is_allowed p (source ∷ sources) = false

abbrev write_permissions : List UserPermission → Option String
write_permissions (p ∷ []) = if is_allowed p p.sources then some p.permission_name else none
write_permissions _ = none

abbrev pub memory : String → Services (Option String)
memory issuer = record {
  extract_token = λ headers. some "token";
  parse_url = λ authority. some issuer;
  json_of_user = λ u. if is_named u then some u.name else none;
  json_of_permissions = write_permissions;
  cached_token = λ s. s;
  cache_token = λ token s. some token;
}

memory-IsCache : IsCache echo (memory "ann")
memory-IsCache = record { reads = λ token s. refl; kept = λ req s. refl }

abbrev user : String → String → String → String → String → UserData
user a b c d e = record { nickname = a; name = b; picture = c; updated_at = d; sub = e }

read_back :
    (a b c d e text : String)
    → (if is_named (user a b c d e) then some b else none) ≡ some text
    → some (named text) ≡ some (user a b c d e)
read_back a b c d e text h = ground (arith, eq_iff a b, eq_iff c b, eq_iff d b, eq_iff e b)

permission : String → String → String → String → List Source → UserPermission
permission a b c d sources = record {
  permission_name = a;
  description = b;
  resource_server_name = c;
  resource_server_id = d;
  sources = sources;
}

list_back :
    (a b c d : String) (sources : List Source) (text : String)
    → (if is_allowed (permission a b c d sources) sources then some a else none) ≡ some text
    → some (allowed text ∷ []) ≡ some (permission a b c d sources ∷ [])
unfolding permission
list_back a b c d [] text h = ground (arith, eq_iff b a, eq_iff c a, eq_iff d a)
list_back a b c d (source ∷ sources) text h = cc

write-back :
    (ps : List UserPermission) (text : String)
    → write_permissions ps ≡ some text
    → some (allowed text ∷ []) ≡ some ps
unfolding permission
write-back [] text h = cc
write-back (p ∷ []) text h =
    list_back p.permission_name p.description p.resource_server_name p.resource_server_id p.sources
      text h
write-back (p ∷ q ∷ ps) text h = cc

memory-IsJson : (issuer : String) → IsJson echo (memory issuer)
memory-IsJson issuer = record {
  user_back = λ u text h. read_back u.nickname u.name u.picture u.updated_at u.sub text h;
  permissions_back = write-back;
}

-- The user's own permission is the audience here, since the URL of the permissions begins with it.
abbrev pub settings : String → Settings
settings audience = record {
  mgmt_audience = audience;
  mgmt_client_id = "id";
  mgmt_client_secret = "secret";
  authority = "https://issuer";
}

abbrev pub passed_headers : String → Headers → Headers
passed_headers audience headers =
    add_header "userPermissions" audience (add_header "userData" "ann" headers)

pub middleware_run :
    user_info_middleware echo (memory "ann") (settings "read:all") [] none
    ≡ returned (passed_headers "read:all" [], some "read:all")
unfolding user_info_middleware fetch_user get_user_info read_response access_token
    get_mgmt_post_response fetch_permissions get_user_permissions new_mgmt_post_request ◌>>=◌
middleware_run = refl

user_info_middleware-cached_token_example :
    (passed : Passed echo
      (memory "ann")
      (settings "read:all")
      []
      none
      (passed_headers "read:all" [])
      (some "read:all"))
    × (some "read:all" ≡ some passed.token)
    × (or_else none passed.token ≡ passed.token)
user_info_middleware-cached_token_example =
    user_info_middleware-cached_token echo (memory "ann") memory-IsCache (settings "read:all") []
      none (passed_headers "read:all" []) (some "read:all") middleware_run

-- The same network, where no body is the JSON of a user.
abbrev refusing : Net String (Option String)
refusing = record echo { user_data_of = λ text. none }

refusing-Refuses : (token : String) (s : Option String) → Refuses refusing token s
unfolding Refuses
refusing-Refuses token s req response body arrived read = refl

user_info_middleware-refused_example :
    user_info_middleware refusing (memory "ann") (settings "read:all") [] none ≡ exited
user_info_middleware-refused_example =
    user_info_middleware-refused refusing (memory "ann") (settings "read:all") [] none
      (λ token extracted. refusing-Refuses token none)

abbrev forged : Headers
forged = ("userPermissions", "read:all") ∷ []

forged_run :
    auth_health_check_route echo (memory "ann") (settings "nothing") (λ headers. none) forged none
    ≡ returned (json (named "ann"), some "nothing")
unfolding auth_health_check_route user_info_middleware fetch_user get_user_info read_response
    access_token get_mgmt_post_response fetch_permissions get_user_permissions new_mgmt_post_request
    ◌>>=◌ validate_permissions get_header auth_health_check mark_all mark_found none_found all_found
forged_run = refl

-- A user with the permission "nothing" says that it has "read:all".
auth_health_check_route_lem_example :
    (headers' : Headers) × (passed : Passed echo
      (memory "ann")
      (settings "nothing")
      forged
      none
      headers'
      (some "nothing"))
    × (json (named "ann")
        ≡ answer echo
            (memory "ann")
            (settings "nothing")
            (memory-IsJson "ann")
            (client_or echo.permissions_of (lookup "userPermissions" forged) passed.permissions)
            (client_or echo.user_data_of (lookup "userData" forged) passed.user))
auth_health_check_route_lem_example =
    auth_health_check_route_lem echo (memory "ann") (settings "nothing") (memory-IsJson "ann")
      (λ headers. none) forged none (json (named "ann")) (some "nothing") refl forged_run

honest_run :
    auth_health_check_route echo (memory "ann") (settings "nothing") (λ headers. none) [] none
    ≡ returned (rejected 401, some "nothing")
unfolding auth_health_check_route user_info_middleware fetch_user get_user_info read_response
    access_token get_mgmt_post_response fetch_permissions get_user_permissions new_mgmt_post_request
    ◌>>=◌ validate_permissions get_header auth_health_check mark_all mark_found none_found all_found
honest_run = refl

auth_health_check_route-honest_example :
    (headers' : Headers) × (passed : Passed echo
      (memory "ann")
      (settings "nothing")
      []
      none
      headers'
      (some "nothing"))
    × (rejected 401
        ≡ answer_to echo
            (memory "ann")
            (settings "nothing")
            (memory-IsJson "ann")
            passed.permissions
            passed.user)
unfolding lookup
auth_health_check_route-honest_example =
    auth_health_check_route-honest echo (memory "ann") (settings "nothing") (memory-IsJson "ann")
      (λ headers. none) [] none (rejected 401) (some "nothing") refl refl refl honest_run
