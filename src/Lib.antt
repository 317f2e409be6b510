-- ===== src/Lib.antt =====
-- Verification of RunnerIO, the server of a game in which runners claim the areas that they run
-- around.
--
-- The program. A runner's phone sends points over a web socket (internal/api/runner_ws_group); they
-- go through a RabbitMQ queue (internal/config/amqp) into MongoDB, and the processor
-- (internal/services) forms polygons from the points of a group, cuts and merges the polygons of its
-- runners, and drops the points that other polygons have passed over. Groups are created and joined
-- over HTTP (internal/api/runner_group), behind a permission check (internal/middlewares/auth).
--
-- The files.
--   Common and its children: Go's slices, maps (association lists), sorting and errors.
--   Float64, Float64/Fixed: float64 as a parameter with the laws that theorems need as records, and
--     numbers with twelve decimals as an instance of it, which runs.
--   GoTime: package time, an instant being a number of nanoseconds.
--   Dto/Schema, Dto/Auth: internal/dto/schema, internal/dto/auth.go and claims.go.
--   Services/Distance: distance and IsCycle of internal/services/utils.go, run_processor_config.go.
--   Services/PointInPolygon, PointsInPolygon, SortPoints: isPointInPolygon, getPointsInPolygon and
--     sortPointsByDistance of utils.go.
--   Services/EatPolygon, MergePolygons, CleanPolygons, RemovePoints, ProcessData: eatPolygon,
--     mergePolygons, cleanPolygons, removePointsFromLiveLinesData and processData of
--     run_processor.go.
--   Services/RunProcessor: getData of utils.go and RunProcessorOnGroup. Services/Consumer:
--     PersistAuditData of live_lines.go, with the orders of the calls of its two goroutines.
--   Services/LiveLines: run_processor_helper.go. Services/Area: area.go.
--   Ws/GroupClients, Ws/AuditClients: internal/dto/ws. Ws/GroupSlices: the entry of one group there with
--     the arrays behind its slices.
--   Auth/Requests: internal/utils/req.go. Auth/UserInfo and Auth/Permissions: UserInfoMiddleware and
--     ValidatePermissions of internal/middlewares/auth/auth.go, and Auth/Setup how they are made.
--     Auth/Chain: the handler of internal/api/health_check/auth_health_check_handler.go behind its
--     middlewares.
--   Config and its children: internal/utils/dotenv.go and internal/config/mongodb, redis and server.
--   Amqp: internal/config/amqp/config.go.
--   Api/Groups: internal/api/runner_group and CreateCode of internal/utils/misc.go; below it Requests has
--     requests that run at the same time, Create the creation of a group with its code, RandomCode
--     GenerateRandomString, and Behind the handlers behind their middleware.
--   Api/AreaCalculator: area_calculator_group_handler.go of internal/api/runner_group.
--   Api/PutOnQueue: persist_audit_data_handler.go of internal/api/runner_ws_group and FailIfError
--     of internal/utils/misc.go.
--     Its Connections has the handlers of all connections at the same time.
--   Api/EatQueue: eat_processor_queue_handler.go of internal/api/runner_ws_group.
--   Api/Routes: internal/api/routes.go, the group.go of each group and, below it, what each handler says of
--     its route.
--   Start, Start/Logging: newServerEngine of internal/fx/server_module.go, what the two main.go of cmd/app
--     invoke, internal/middlewares/log/log.go and internal/utils/log.go.
--   Flow: the way of a point from Api/PutOnQueue through Amqp and Services/Consumer into the database.
--   Examples and its children: runs on concrete data.
-- A component's definitions stand in the file that has its name, one function for each function or
-- loop of the source, and its theorems in the files below it.
--
-- Conventions. A slice is a list, and nil and the empty slice are both []. The index -1 is `none`. A
-- panic is `none` of an `Option`. A map is an association list; where the order of `range` can be
-- seen, it is the parameter `range_order`, any rearrangement. `slices.SortFunc` is insertion sort;
-- the theorems use that it rearranges, and puts in order where the comparison is a weak order. Calls
-- of MongoDB, RabbitMQ, Redis, net/http and encoding/json are records of functions, and IsCollection,
-- IsSending, IsParsing, IsCache and IsJson say what is documented of them. A call of the RabbitMQ client
-- that reports no error has sent its request; that the server has got it is nowhere assumed. `log.Fatal` is `exited` of an
-- `Exit`, and a panic beside it `panicked`. A request that runs beside others is cut where it reads and
-- writes; the broadcast of Api/EatQueue, the connections of Api/PutOnQueue and the requests of Api/Groups
-- are step relations, and `Reach` their runs.
--
-- Fuel. `step_back` has as much fuel as P1 has points: one of them is outside P2 there, and the index
-- meets it within a turn. `visit` has as much fuel as there are points, and each round but the last
-- visits a new one. Both bounds are proved to be enough, in StepBack and in Permutation. `create_code`
-- takes the candidates as a list, since the loop of the source has no bound.
--
-- Not modelled: interleavings inside one call of a library, the types that nothing uses, and the
-- order in which fx makes the parts of the program.
pub mod Config
pub mod Common
pub mod Float64
pub mod GoTime
pub mod Dto
pub mod Services
pub mod Ws
pub mod Auth
pub mod Amqp
pub mod Api
pub mod Start
pub mod Flow
pub mod Examples
