-- ===== src/Api/Routes/CreateRunnerGroup.antt =====
-- What CreateRunnerGroupHandler says of its route, in internal/api/runner_group/
-- create_runner_group_handler.go.
use runner_io.Common.{List, [], String}
use runner_io.Api.Routes.Description.{Middleware, create_runner_group, RouteHandler}

abbrev pub pattern : String
pattern = "/createRunnerGroup"

abbrev pub request_method : String
request_method = "POST"

abbrev pub middlewares : List Middleware
middlewares = []

abbrev pub handler : RouteHandler
handler = record {
  pattern = pattern;
  handler = create_runner_group;
  request_method = request_method;
  middlewares = middlewares;
}
