-- ===== src/Api/Routes/JoinRunnerGroup.antt =====
-- What JoinRunnerGroupHandler says of its route, in internal/api/runner_group/
-- join_runner_group_handler.go.
use runner_io.Common.{List, [], String}
use runner_io.Api.Routes.Description.{Middleware, join_runner_group, RouteHandler}

abbrev pub pattern : String
pattern = "/joinRunnerGroup/:groupCode"

abbrev pub request_method : String
request_method = "GET"

abbrev pub middlewares : List Middleware
middlewares = []

abbrev pub handler : RouteHandler
handler = record {
  pattern = pattern;
  handler = join_runner_group;
  request_method = request_method;
  middlewares = middlewares;
}
