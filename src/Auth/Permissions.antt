-- ===== src/Auth/Permissions.antt =====
-- `ValidatePermissions`: the permissions that a route asks for, against those in the user's header.
pub mod Laws
use runner_io.Common.{
  ℕ, Bool, true, false, List, [], ◌∷◌, Option, none, some, String, str_eq, if◌then◌else◌,
}
use runner_io.Dto.Auth.{UserPermission}

-- How the middleware ends: the request goes on to the next handler, or is aborted with a status.
pub data Verdict : Type 0 where
  next : Verdict
  abort : ℕ → Verdict

-- `foundPermission`, all `false`.
unfoldable pub none_found : List String → List Bool
none_found [] = []
none_found (e ∷ expected) = false ∷ none_found expected

-- The inner loop, for one permission of the user.
unfoldable pub mark_found : UserPermission → List String → List Bool → List Bool
mark_found permission (e ∷ expected) (found ∷ flags) =
    (if str_eq permission.permission_name e then true else found)
    ∷ mark_found permission expected flags
mark_found permission _ flags = flags

-- The outer loop.
unfoldable pub mark_all : List UserPermission → List String → List Bool → List Bool
unfolding mark_found
mark_all [] expected flags = flags
mark_all (permission ∷ permissions) expected flags =
    mark_all permissions expected (mark_found permission expected flags)

-- The loop that stops at the first permission that was not found.
unfoldable pub all_found : List Bool → Bool
all_found [] = true
all_found (found ∷ flags) = let rest = all_found flags in if found then rest else false

-- `header` is what `json.Unmarshal` makes of the header, `none` being its error.
unfoldable pub validate_permissions : List String → Option (List UserPermission) → Verdict
unfolding none_found mark_all all_found
validate_permissions expected none = abort 500
validate_permissions expected (some permissions) =
    if all_found (mark_all permissions expected (none_found expected)) then next else abort 401
