-- ===== src/Api/Routes/Guards.antt =====
-- The routes that the server has, against what the groups describe.
use runner_io.Common.{
  ◌≡◌, refl, ◌↔◌, ◌⊎◌, inl, inr, zero, Bool, true, false, ◌||◌, List, [], ◌∷◌, ◌++◌, str_eq,
  if◌then◌else◌, All, All-append,
}
use runner_io.Api.Routes.Description.{
  Middleware, auth, user_info, validate_permissions, RouteHandler, ServerGroup,
}
use runner_io.Api.Routes.{
  health_check_group, runner_group, runner_ws_group, Route, route_of, new_route, new_routes_of,
  new_group, register, new_routes,
}

-- The methods that the switch knows.
abbrev pub is_known : RouteHandler → Bool
is_known h = str_eq h.request_method "GET" || str_eq h.request_method "POST"

module _ {κ} (P : Route → Type κ) where
  -- Every route that the groups describe with a known method has the property.
  abbrev pub Described : ServerGroup → List RouteHandler → Type κ
  Described g = All (λ h. is_known h ≡ true → P (route_of g h))

  All-parts : (xs ys : List Route) → All P (xs ++ ys) → All P xs × All P ys
  All-parts [] ys h = (tt, h)
  All-parts (x ∷ xs) ys h = let rest = All-parts xs ys h.1 in ((h.0, rest.0), rest.1)

  of_tests :
      (get post : Bool) (r : Route)
      → All P (if get then r ∷ [] else if post then r ∷ [] else []) ↔ ((get || post) ≡ true → P r)
  of_tests true post r = (λ h e. h.0, λ h. (h refl, tt))
  of_tests false true r = (λ h e. h.0, λ h. (h refl, tt))
  of_tests false false r = (λ h e. cc, λ h. tt)

  new_route-All :
      (g : ServerGroup) (h : RouteHandler)
      → All P (new_route g h) ↔ (is_known h ≡ true → P (route_of g h))
  unfolding new_route
  new_route-All g h =
      of_tests (str_eq h.request_method "GET") (str_eq h.request_method "POST") (route_of g h)

  new_routes_of-All :
      (g : ServerGroup) (handlers : List RouteHandler)
      → All P (new_routes_of g handlers) ↔ Described g handlers
  unfolding new_routes_of
  new_routes_of-All g [] = (λ h. tt, λ h. tt)
  new_routes_of-All g (h ∷ handlers) =
      let first = new_route-All g h in
      let rest = new_routes_of-All g handlers in
      (
        λ all.
            let parts = All-parts (new_route g h) (new_routes_of g handlers) all in
            (first.0 parts.0, rest.0 parts.1),
        λ all. All-append P _ _ (first.1 all.0) (rest.1 all.1),
      )

  -- The registered routes are exactly those that the groups' handlers describe with the method GET or
  -- POST, each behind the middlewares of its group and then its own: a property holds of all of the one
  -- where it holds of all of the other.
  register-All :
      (groups : List ServerGroup)
      → All P (register groups) ↔ All (λ g. Described g g.route_handlers) groups
  unfolding register new_group
  register-All [] = (λ h. tt, λ h. tt)
  register-All (g ∷ groups) =
      let first = new_routes_of-All g g.route_handlers in
      let rest = register-All groups in
      (
        λ all.
            let parts = All-parts (new_group g) (register groups) all in
            (first.0 parts.0, rest.0 parts.1),
        λ all. All-append P _ _ (first.1 all.0) (rest.1 all.1),
      )

-- A route that is open to everybody, or that has the user info in front of its handler.
abbrev pub HasUserInfo : List Middleware → Type 0
HasUserInfo [] = zero ≡ 1
HasUserInfo (auth ∷ chain) = HasUserInfo chain
HasUserInfo (user_info ∷ chain) = Unit
HasUserInfo (validate_permissions names ∷ chain) = HasUserInfo chain

abbrev pub IsGuarded : Route → Type 0
IsGuarded r = (r.pattern ≡ "/healthcheck") ⊎ HasUserInfo r.chain

-- All routes but the health check stand behind `UserInfoMiddleware`.
new_routes-IsGuarded : All IsGuarded new_routes
unfolding new_routes
new_routes-IsGuarded =
    (register-All IsGuarded (health_check_group ∷ runner_group ∷ runner_ws_group ∷ [])).1 (
      (λ e. inl refl, (λ e. inr tt, tt)),
      ((λ e. inr tt, (λ e. inr tt, tt)), ((λ e. inr tt, (λ e. inr tt, tt)), tt)),
    )
