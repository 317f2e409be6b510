-- ===== src/Api/Routes.antt =====
-- internal/api/routes.go, the three group.go, and what each handler says of its route. What a handler
-- does stands in the other files; here it is a name.
pub mod Description
mod HealthCheck
mod AuthHealthCheck
mod CreateRunnerGroup
mod JoinRunnerGroup
mod PutOnQueue
mod EatProcessorQueue
mod AreaCalculator
pub mod Guards
use runner_io.Common.{
  ◌↔◌, ◌||◌, ◌≡◌, refl, Bool, true, false, List, [], ◌∷◌, ◌++◌, String, str_eq, if◌then◌else◌, All,
  All-append, map,
}
use runner_io.Api.Routes.Description.{Middleware, user_info, Handler, RouteHandler, ServerGroup}

-- A route as gin has it: the middlewares of its group come first.
pub record Route : Type 0 where
  pub method : String
  pub group : String
  pub pattern : String
  pub chain : List Middleware
  pub handler : Handler

abbrev pub route_of : ServerGroup → RouteHandler → Route
route_of g h = record {
  method = h.request_method;
  group = g.group;
  pattern = h.pattern;
  chain = g.middlewares ++ h.middlewares;
  handler = h.handler;
}

-- Only two methods are known to the switch; another one registers nothing.
unfoldable pub new_route : ServerGroup → RouteHandler → List Route
new_route g h =
    if str_eq h.request_method "GET"
    then route_of g h ∷ []
    else if str_eq h.request_method "POST"
    then route_of g h ∷ []
    else []

unfoldable pub new_routes_of : ServerGroup → List RouteHandler → List Route
unfolding new_route
new_routes_of g [] = []
new_routes_of g (h ∷ handlers) = new_route g h ++ new_routes_of g handlers

unfoldable pub new_group : ServerGroup → List Route
unfolding new_routes_of
new_group g = new_routes_of g g.route_handlers

unfoldable pub register : List ServerGroup → List Route
unfolding new_group
register [] = []
register (g ∷ groups) = new_group g ++ register groups

abbrev pub health_check_group : ServerGroup
health_check_group = record {
  group = "/healthcheck";
  route_handlers = HealthCheck.handler ∷ AuthHealthCheck.handler ∷ [];
  middlewares = [];
}

abbrev pub runner_group : ServerGroup
runner_group = record {
  group = "/runner";
  route_handlers = CreateRunnerGroup.handler ∷ JoinRunnerGroup.handler ∷ [];
  middlewares = user_info ∷ [];
}

abbrev pub runner_ws_group : ServerGroup
runner_ws_group = record {
  group = "/ws";
  route_handlers = PutOnQueue.handler ∷ EatProcessorQueue.handler ∷ [];
  middlewares = user_info ∷ [];
}

unfoldable pub new_routes : List Route
unfolding register
new_routes = register (health_check_group ∷ runner_group ∷ runner_ws_group ∷ [])
