-- ===== src/Api/Routes/AuthHealthCheck.antt =====
-- What AuthHealthCheckHandler says of its route, in internal/api/health_check/
-- auth_health_check_handler.go.
use runner_io.Common.{List, [], ◌∷◌, String}
use runner_io.Api.Routes.Description.{
  Middleware, auth, user_info, validate_permissions, auth_health_check, RouteHandler,
}

abbrev pub pattern : String
pattern = "/authHealthcheck"

abbrev pub request_method : String
request_method = "GET"

abbrev pub middlewares : List Middleware
middlewares = auth ∷ user_info ∷ validate_permissions ("read:all" ∷ []) ∷ []

abbrev pub handler : RouteHandler
handler = record {
  pattern = pattern;
  handler = auth_health_check;
  request_method = request_method;
  middlewares = middlewares;
}
