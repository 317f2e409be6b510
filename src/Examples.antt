-- ===== src/Examples.antt =====
-- Data of the runs below: a large square of one runner, a small later one of another runner over its
-- corner, and live lines around them.
mod Polygons
mod Lines
mod Requests
mod Groups
mod Connections
mod Flow
mod Broker
mod Deliveries
mod Clients
mod Tokens
mod Broadcasts
mod Settings
use runner_io.Common.{ℕ, ◌*◌, Bool, true, List, [], ◌∷◌, some, String}
use runner_io.Common.Int.{pos}
use runner_io.Float64.Fixed.{Fixed, fixed_float, one}
use runner_io.Dto.Schema.{CoordinateStruct, PolygonData, LiveLinesData}
use runner_io.Services.Distance.{RunProcessorConfig}

abbrev pub coordinate : ℕ → ℕ → ℕ → CoordinateStruct Fixed
coordinate x y t = record { x = some (pos (x * one)); y = some (pos (y * one)); time = pos t }

abbrev pub line : String → ℕ → ℕ → ℕ → LiveLinesData Fixed
line sender x y t = record {
  x = some (pos (x * one));
  y = some (pos (y * one));
  time = pos t;
  sender = sender;
  group_code = "runners";
}

abbrev pub square : String → ℕ → ℕ → ℕ → PolygonData Fixed
square runner low high t = record {
  coords =
      coordinate low low t
      ∷ coordinate high low t
      ∷ coordinate high high t
      ∷ coordinate low high t
      ∷ [];
  runner = runner;
  time = pos t;
}

abbrev pub large : PolygonData Fixed
large = square "ann" 0 4 10

abbrev pub corner : PolygonData Fixed
corner = square "bob" 3 6 20

abbrev pub far : PolygonData Fixed
far = square "ann" 8 9 30

abbrev pub some_polygons : List (PolygonData Fixed)
some_polygons = large ∷ corner ∷ far ∷ []

abbrev pub some_lines : List (LiveLinesData Fixed)
some_lines = line "ann" 1 2 5 ∷ line "bob" 7 7 6 ∷ line "ann" 7 2 40 ∷ line "ann" 7 1 20 ∷ []

-- A configuration without the check of the seconds, on the plane.
abbrev pub plane_config : RunProcessorConfig Fixed
plane_config = record {
  distance_func = λ a b c d.
      fixed_float.add (fixed_float.abs (fixed_float.sub a c))
        (fixed_float.abs (fixed_float.sub b d));
  num_seconds_for_cycle = pos 10;
  do_seconds_for_cycle_check = true;
  meters_threshold_for_cycle = some (pos one);
}
