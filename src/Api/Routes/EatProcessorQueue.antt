-- ===== src/Api/Routes/EatProcessorQueue.antt =====
-- What EatProcessorQueueHandler says of its route, in internal/api/runner_ws_group/
-- eat_processor_queue_handler.go.
use runner_io.Common.{List, [], String}
use runner_io.Api.Routes.Description.{Middleware, eat_processor_queue, RouteHandler}

abbrev pub pattern : String
pattern = "/eatProcessorQueue/:groupCode"

abbrev pub request_method : String
request_method = "GET"

abbrev pub middlewares : List Middleware
middlewares = []

abbrev pub handler : RouteHandler
handler = record {
  pattern = pattern;
  handler = eat_processor_queue;
  request_method = request_method;
  middlewares = middlewares;
}
