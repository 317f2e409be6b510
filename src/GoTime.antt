-- ===== src/GoTime.antt =====
-- What the program uses of Go's package time. An instant is the whole number of nanoseconds since the
-- zero `time.Time`, the first of January of the year 1.
use runner_io.Common.{◌^◌, ◌-◌, Bool, if◌then◌else◌, arith}
use runner_io.Common.Int.{
  ℤ, pos, negsuc, ltb_ℤ, ◌-ℤ◌, ◌+ℤ◌, ◌*ℤ◌, quot, rem, ◌≤ℤ◌, -ℤ_parts, quot_nonpos, rem_nonpos,
}
use runner_io.Float64.{Float64, IsSigned, IsNonpos}

abbrev pub Time : Type 0
Time = ℤ

-- The zero value of a `time.Time`.
abbrev pub zero_time : Time
zero_time = pos 0

-- `t.Before(u)`, `t.After(u)` and `t.Compare(u)`
abbrev pub before : Time → Time → Bool
before t u = ltb_ℤ t u

abbrev pub after : Time → Time → Bool
after t u = ltb_ℤ u t

abbrev pub compare_time : Time → Time → ℤ
compare_time t u = if ltb_ℤ t u then negsuc 0 else if ltb_ℤ u t then pos 1 else pos 0

-- `time.UnixMilli(ms)`
unfoldable pub unix_milli : ℤ → Time
unfolding ◌+ℤ◌ ◌*ℤ◌
unix_milli ms = (ms +ℤ pos 62_135_596_800_000) *ℤ pos 1_000_000

-- `t.Sub(u)`: an int64 of nanoseconds, which stops at the bounds of the type.
unfoldable pub sub_time : Time → Time → ℤ
unfolding ◌-ℤ◌
sub_time t u =
    let d = t -ℤ u in
    if ltb_ℤ (pos (2 ^ 63 - 1)) d
    then pos (2 ^ 63 - 1)
    else if ltb_ℤ d (negsuc (2 ^ 63 - 1))
    then negsuc (2 ^ 63 - 1)
    else d

-- `d.Seconds()`
unfoldable pub seconds {ℓ} : {F : Type ℓ} ⦃f : Float64 F⦄ → ℤ → F
unfolding quot rem
seconds ⦃f⦄ d =
    f.add (f.of_int (quot d 1_000_000_000))
      (f.div (f.of_int (rem d 1_000_000_000)) (f.literal 1_000_000_000 0))

pub sub_time_nonpos : (t u : Time) → t ≤ℤ u → sub_time t u ≤ℤ pos 0
unfolding sub_time
sub_time_nonpos t u h = ground (arith, -ℤ_parts t u)

pub seconds-IsNonpos {ℓ} :
    {F : Type ℓ} ⦃f : Float64 F⦄ (laws : IsSigned F) (d : ℤ)
    → d ≤ℤ pos 0
    → IsNonpos {F = F} (seconds d)
unfolding seconds
seconds-IsNonpos laws d h =
    laws.add_nonpos _ _ (laws.of_int_nonpos _ (quot_nonpos d _ h))
      (laws.div_nonpos _ (laws.of_int_nonpos _ (rem_nonpos d _ h)))
