-- ===== src/Api/Routes/PutOnQueue.antt =====
-- What PersistAuditDataGroupHandler says of its route, in internal/api/runner_ws_group/
-- persist_audit_data_handler.go.
use runner_io.Common.{List, [], String}
use runner_io.Api.Routes.Description.{Middleware, put_on_queue, RouteHandler}

abbrev pub pattern : String
pattern = "/putOnQueueGroup/"

abbrev pub request_method : String
request_method = "GET"

abbrev pub middlewares : List Middleware
middlewares = []

abbrev pub handler : RouteHandler
handler = record {
  pattern = pattern;
  handler = put_on_queue;
  request_method = request_method;
  middlewares = middlewares;
}
