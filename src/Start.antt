-- ===== src/Start.antt =====
-- The start of the server: newServerEngine of internal/fx/server_module.go, and main.go of cmd/app/service
-- and of cmd/app/engine. The configuration for CORS and `gin.Engine.Run` are the libraries'.
pub mod Logging
use runner_io.Common.{
  ◌≡◌, refl, ◌*◌, Bool, true, List, [], ◌∷◌, ◌++◌, Option, none, some, String, map,
}
use runner_io.Common.Int.{ℤ, pos}
use runner_io.Common.Map.{Map}
use runner_io.Float64.{Float64}
use runner_io.Dto.Schema.{LiveLinesData}
use runner_io.Config.Server.{Config}
use runner_io.Api.Routes.Description.{Middleware}
use runner_io.Api.Routes.{Route, new_routes}
use runner_io.Services.Consumer.{Calls, Consumer, Turn, persist_audit_data}

-- The fields of `cors.Config` that are set, on the value that `DefaultConfig` gives.
pub record CorsFields (C : Type 0) : Type 0 where
  pub default_config : C
  pub allow_all_origins : Bool → C → C
  pub allow_methods : List String → C → C
  pub allow_headers : List String → C → C
  pub expose_headers : List String → C → C
  pub allow_credentials : Bool → C → C
  -- in nanoseconds
  pub max_age : ℤ → C → C

-- The middlewares of the whole server; the first two are those of `gin.Default`.
pub data EngineMiddleware (C : Type 0) : Type 0 where
  gin_logger : EngineMiddleware C
  recovery : EngineMiddleware C
  cors : C → EngineMiddleware C
  structured_logger : EngineMiddleware C

-- Each route is registered when all the middlewares are there, and runs behind them.
pub record Engine (C : Type 0) : Type 0 where
  pub gin_mode : String
  pub middlewares : List (EngineMiddleware C)
  pub routes : List Route

module _ {C : Type 0} (fields : CorsFields C) where
  abbrev pub cors_config : C
  cors_config = fields.max_age (pos (12 * 3_600_000_000_000)) (
      fields.allow_credentials true (
        fields.expose_headers ("Content-Length" ∷ []) (
          fields.allow_headers
            ("Origin" ∷ "Content-Type" ∷ "Authorization" ∷ "Accept" ∷ "User-Agent" ∷ "Cache-Control"
              ∷ "Pragma" ∷ [])
            (fields.allow_methods ("POST" ∷ "GET" ∷ "PUT" ∷ "OPTIONS" ∷ [])
              (fields.allow_all_origins true fields.default_config)))))

  unfoldable pub new_server_engine : Config C → Engine C
  unfolding new_routes
  new_server_engine config = record {
    gin_mode = config.gin_mode;
    middlewares = gin_logger ∷ recovery ∷ cors cors_config ∷ structured_logger ∷ recovery ∷ [];
    routes = new_routes;
  }

  -- The allowed origins of the configuration, which are the host and the port of the environment, change
  -- nothing: the engine lets all origins in.
  new_server_engine-cors :
      (config : Config C) (origins : C)
      → new_server_engine (record config { cors = origins }) ≡ new_server_engine config
  unfolding new_server_engine
  new_server_engine-cors config origins = refl

-- `Invoke` of the service: `Run` with the port, and its error in the log.
module _ {C W : Type 0} (run : String → Engine C → W → Option String × W) where
  abbrev pub logged_error : Option String × W → List String × W
  logged_error (none, w) = ([], w)
  logged_error (some e, w) = (e ∷ [], w)

  unfoldable pub invoke_service : Engine C → Config C → W → List String × W
  invoke_service server config w = logged_error (run config.port server w)

-- `Invoke` of the engine: the consumer of the live lines.
module _ {M D J F B DB S : Type 0} ⦃f : Float64 F⦄ (calls : Calls M D J F B DB S)
    (range_order : Map (List (List (LiveLinesData F))) → Map (List (List (LiveLinesData F)))) where
  unfoldable pub invoke_engine :
      List (M × Turn) → Consumer M F DB S → List String × Option (Consumer M F DB S)
  unfolding persist_audit_data
  invoke_engine messages k =
      ("Starting Audit Consumer" ∷ [], persist_audit_data calls range_order messages k)
