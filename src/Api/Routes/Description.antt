-- ===== src/Api/Routes/Description.antt =====
-- What a handler and a group say of themselves, in internal/interface.
use runner_io.Common.{List, String}

-- The middlewares of internal/middlewares/auth/auth.go.
pub data Middleware : Type 0 where
  auth : Middleware
  user_info : Middleware
  validate_permissions : List String → Middleware

pub data Handler : Type 0 where
  health_check : Handler
  auth_health_check : Handler
  create_runner_group : Handler
  join_runner_group : Handler
  put_on_queue : Handler
  eat_processor_queue : Handler

-- `HandlerInterface` and `ServerGroupInterface`
pub record RouteHandler : Type 0 where
  pub pattern : String
  pub handler : Handler
  pub request_method : String
  pub middlewares : List Middleware

pub record ServerGroup : Type 0 where
  pub group : String
  pub route_handlers : List RouteHandler
  pub middlewares : List Middleware
