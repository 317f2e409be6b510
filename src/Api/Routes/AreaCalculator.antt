-- ===== src/Api/Routes/AreaCalculator.antt =====
-- What AreaCalculatorGroupHandler of internal/api/runner_group/area_calculator_group_handler.go says of its
-- route, under the names that it uses: `Method` is not the method `RequestMethod` that a handler has.
use runner_io.Common.{List, [], String}
use runner_io.Api.Routes.Description.{Middleware, RouteHandler}
use runner_io.Api.Routes.CreateRunnerGroup

abbrev pub pattern : String
pattern = "/area/:groupCode"

abbrev pub method : String
method = "GET"

abbrev pub middlewares : List Middleware
middlewares = []

-- The constructor makes the handler that creates groups.
abbrev pub new_area_calculator_group_handler : RouteHandler
new_area_calculator_group_handler = CreateRunnerGroup.handler
