-- ===== src/Dto/Schema.antt =====
-- internal/dto/schema: the points that runners send, the polygons that the processor forms, and their
-- conversions.
pub mod Latest
use runner_io.Common.{List, [], ◌∷◌, map, Option, none, some, String, if◌then◌else◌}
use runner_io.Common.Int.{ℤ}
use runner_io.GoTime.{Time, after, unix_milli}

pub record CoordinateStruct {ℓ} (F : Type ℓ) : Type ℓ where
  pub x : F
  pub y : F
  pub time : Time

pub record PolygonData {ℓ} (F : Type ℓ) : Type ℓ where
  pub coords : List (CoordinateStruct F)
  pub runner : String
  pub time : Time

pub record LiveLinesData {ℓ} (F : Type ℓ) : Type ℓ where
  pub x : F
  pub y : F
  pub time : Time
  pub sender : String
  pub group_code : String

pub record RunnerLiveLinesSchemaRequest {ℓ} (F : Type ℓ) : Type ℓ where
  pub x : F
  pub y : F
  -- an int64 of milliseconds
  pub time : ℤ
  pub group_code : String

pub record RunnerResponse {ℓ} (F : Type ℓ) : Type ℓ where
  pub polygons : List (PolygonData F)
  pub live_lines : List (LiveLinesData F)

pub record RunnerGroupSchema : Type 0 where
  pub group_name : String
  pub group_code : String
  pub created_at : ℤ
  pub members : List String
  pub owner : String

module _ {ℓ} {F : Type ℓ} where
  unfoldable pub to_runner_live_lines_schema :
      RunnerLiveLinesSchemaRequest F → String → LiveLinesData F
  unfolding unix_milli
  to_runner_live_lines_schema r sender = record {
    x = r.x;
    y = r.y;
    time = unix_milli r.time;
    sender = sender;
    group_code = r.group_code;
  }

  abbrev pub to_coordinate : LiveLinesData F → CoordinateStruct F
  to_coordinate l = record { x = l.x; y = l.y; time = l.time }

  -- The time of the last element, `none` where the index is out of range.
  unfoldable pub last_time : List (LiveLinesData F) → Option Time
  last_time [] = none
  last_time (l ∷ []) = some l.time
  last_time (l ∷ m ∷ ls) = last_time (m ∷ ls)

  -- The loop: the coordinates, and the latest time met.
  unfoldable pub later_of : Time → List (LiveLinesData F) → Time
  later_of max_time [] = max_time
  later_of max_time (l ∷ ls) = later_of (if after l.time max_time then l.time else max_time) ls

  -- `none` is the panic on an empty slice.
  unfoldable pub to_polygon_data : List (LiveLinesData F) → Option (PolygonData F)
  unfolding later_of last_time
  to_polygon_data [] = none
  to_polygon_data (l ∷ ls) = elim (last_time (l ∷ ls)) [
    | none ↦ none
    | some max_time ↦ some (record {
      coords = map to_coordinate (l ∷ ls);
      runner = l.sender;
      time = later_of max_time (l ∷ ls);
    })
  ]
