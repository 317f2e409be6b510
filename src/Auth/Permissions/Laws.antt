-- ===== src/Auth/Permissions/Laws.antt =====
-- The flags of `ValidatePermissions` against the search of `HasPermissions`.
use runner_io.Common.{
  ◌≡◌, refl, sym, ◌∙◌, Bool, false, ◌||◌, List, [], ◌∷◌, map, some, String, str_eq, if◌then◌else◌,
  arith, contains_func,
}
use runner_io.Dto.Auth.{UserPermission, CustomClaims, has_each, has_permissions}
use runner_io.Auth.Permissions.{
  next, abort, none_found, mark_found, mark_all, all_found, validate_permissions,
}

abbrev pub names : List UserPermission → List String
names = map λ p. p.permission_name

-- The flags behind the outer loop: each says whether it was set or the user has the permission.
abbrev flags_of : List UserPermission → List String → List Bool → List Bool
flags_of ps (e ∷ expected) (found ∷ flags) =
    (found || contains_func (names ps) (λ p. str_eq p e)) ∷ flags_of ps expected flags
flags_of ps _ flags = flags

flags_of-nil : (expected : List String) (flags : List Bool) → flags_of [] expected flags ≡ flags
unfolding contains_func
flags_of-nil [] flags = refl
flags_of-nil (e ∷ expected) [] = refl
flags_of-nil (e ∷ expected) (found ∷ flags) = ground (arith, flags_of-nil expected flags)

flags_of-cons :
    (p : UserPermission) (ps : List UserPermission) (expected : List String) (flags : List Bool)
    → flags_of ps expected (mark_found p expected flags) ≡ flags_of (p ∷ ps) expected flags
unfolding mark_found contains_func
flags_of-cons p ps [] flags = refl
flags_of-cons p ps (e ∷ expected) [] = refl
flags_of-cons p ps (e ∷ expected) (found ∷ flags) =
    ground (arith, flags_of-cons p ps expected flags)

mark_all-eq-flags_of :
    (ps : List UserPermission) (expected : List String) (flags : List Bool)
    → mark_all ps expected flags ≡ flags_of ps expected flags
unfolding mark_all
mark_all-eq-flags_of [] expected flags = sym (flags_of-nil expected flags)
mark_all-eq-flags_of (p ∷ ps) expected flags =
    mark_all-eq-flags_of ps expected (mark_found p expected flags)
    ∙ flags_of-cons p ps expected flags

all_found-flags_of :
    (ps : List UserPermission) (expected : List String)
    → all_found (flags_of ps expected (none_found expected)) ≡ has_each (names ps) expected
unfolding all_found none_found has_each
all_found-flags_of ps [] = refl
all_found-flags_of ps (e ∷ expected) = ground (arith, all_found-flags_of ps expected)

-- On a header that can be read, and for at least one expected permission, the middleware passes
-- the request on exactly where `HasPermissions` holds of the names in the header; otherwise it
-- answers 401.
pub validate_permissions-eq-has_permissions :
    (ps : List UserPermission) (e : String) (expected : List String)
    → validate_permissions (e ∷ expected) (some ps) ≡ (
        if has_permissions (record { permissions = names ps }) (e ∷ expected)
        then next
        else abort 401)
unfolding validate_permissions has_permissions
validate_permissions-eq-has_permissions ps e expected = rw (
  mark_all-eq-flags_of ps (e ∷ expected) (none_found (e ∷ expected)),
  all_found-flags_of ps (e ∷ expected),
)

-- Where no permission is expected the two differ: the middleware passes every readable header on, and
-- `HasPermissions` refuses everybody.
pub no_permissions_expected :
    (ps : List UserPermission) (c : CustomClaims)
    → (validate_permissions [] (some ps) ≡ next) × (has_permissions c [] ≡ false)
unfolding validate_permissions has_permissions none_found all_found
no_permissions_expected ps c = (rw (mark_all-eq-flags_of ps [] []), refl)
