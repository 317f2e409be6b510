-- ===== src/Api/Routes/HealthCheck.antt =====
-- What HealthCheckHandler says of its route, in internal/api/health_check/
-- health_check_handler.go.
use runner_io.Common.{List, [], String}
use runner_io.Api.Routes.Description.{Middleware, health_check, RouteHandler}

abbrev pub pattern : String
pattern = "/healthcheck"

abbrev pub request_method : String
request_method = "GET"

abbrev pub middlewares : List Middleware
middlewares = []

abbrev pub handler : RouteHandler
handler = record {
  pattern = pattern;
  handler = health_check;
  request_method = request_method;
  middlewares = middlewares;
}
