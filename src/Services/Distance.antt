-- ===== src/Services/Distance.antt =====
-- internal/services/utils.go: `distance` and `IsCycle`; run_processor_config.go.
use runner_io.Common.{Bool, true, false, ◌&&◌, List, [], ◌∷◌, if◌then◌else◌}
use runner_io.Common.Int.{ℤ, pos}
use runner_io.Float64.{Float64, delta, pi}
use runner_io.GoTime.{sub_time, seconds}
use runner_io.Dto.Schema.{LiveLinesData}

module _ {ℓ} {F : Type ℓ} ⦃f : Float64 F⦄ where
  -- The great circle distance in metres.
  unfoldable pub distance : F → F → F → F → F
  distance lat1 lng1 lat2 lng2 =
      let radlat1 = f.div (f.mul pi lat1) (f.literal 180 0) in
      let radlat2 = f.div (f.mul pi lat2) (f.literal 180 0) in
      let theta = f.sub lng1 lng2 in
      let radtheta = f.div (f.mul pi theta) (f.literal 180 0) in
      let cosine =
        f.add (f.mul (f.sin radlat1) (f.sin radlat2))
          (f.mul (f.mul (f.cos radlat1) (f.cos radlat2)) (f.cos radtheta)) in
      let capped = if f.lt (f.literal 1 0) cosine then f.literal 1 0 else cosine in
      let degrees = f.div (f.mul (f.acos capped) (f.literal 180 0)) pi in
      let miles = f.mul (f.mul degrees (f.literal 60 0)) (f.literal 11515 4) in
      f.mul (f.mul miles (f.literal 1609344 6)) (f.literal 1000 0)

pub record RunProcessorConfig {ℓ} (F : Type ℓ) : Type ℓ where
  pub distance_func : F → F → F → F → F
  pub do_seconds_for_cycle_check : Bool
  pub num_seconds_for_cycle : ℤ
  pub meters_threshold_for_cycle : F

module _ {ℓ} {F : Type ℓ} where
  -- The last of a list with `l` at its head.
  abbrev pub last_of : LiveLinesData F → List (LiveLinesData F) → LiveLinesData F
  last_of l [] = l
  last_of l (m ∷ ls) = last_of m ls

module _ {ℓ} {F : Type ℓ} ⦃f : Float64 F⦄ where
  unfoldable pub new_run_processor_config :
      (F → F → F → F → F) → Bool → ℤ → F → RunProcessorConfig F
  new_run_processor_config distance_func check num_seconds meters = record {
    distance_func = distance_func;
    do_seconds_for_cycle_check = check;
    num_seconds_for_cycle = num_seconds;
    meters_threshold_for_cycle = meters;
  }

  -- The literal in `RunProcessorOnGroup`.
  unfoldable pub group_config : RunProcessorConfig F
  unfolding distance
  group_config = record {
    distance_func = distance;
    num_seconds_for_cycle = pos 10;
    do_seconds_for_cycle_check = true;
    meters_threshold_for_cycle = f.literal 1 0;
  }

  -- The rules for the two ends of a list of two points or more.
  unfoldable pub ends_meet : LiveLinesData F → LiveLinesData F → RunProcessorConfig F → Bool
  unfolding sub_time seconds
  ends_meet first last config =
      if config.do_seconds_for_cycle_check
        && f.lt (seconds (sub_time first.time last.time))
            (f.sub (f.of_int config.num_seconds_for_cycle) delta)
      then false
      else if f.lt (f.sub config.meters_threshold_for_cycle delta)
          (config.distance_func first.x first.y last.x last.y)
      then false
      else true

  unfoldable pub is_cycle : List (LiveLinesData F) → RunProcessorConfig F → Bool
  unfolding ends_meet
  is_cycle [] config = false
  is_cycle (l ∷ []) config = false
  is_cycle (l ∷ m ∷ ls) config = ends_meet l (last_of m ls) config
