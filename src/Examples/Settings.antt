-- ===== src/Examples/Settings.antt =====
-- An environment for the server.
use runner_io.Common.{String, str_eq, if◌then◌else◌}

abbrev getenv : String → String
getenv key =
    if str_eq key "SERVER"
    then "engine"
    else if str_eq key "ENV"
    then "release"
    else if str_eq key "SERVER_ENGINE_PORT"
    then ":6969"
    else "http://localhost"
