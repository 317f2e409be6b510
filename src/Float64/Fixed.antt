-- ===== src/Float64/Fixed.antt =====
-- Numbers with twelve decimals, and NaN, as an instance of `Float64`: the laws can be met, and the
-- program can be run on inputs. The trigonometric functions are short polynomials.
use runner_io.Common.{
  ℕ, ◌*◌, ◌^◌, ◌/◌, ◌≡◌, Bool, true, false, inl, inr, Option, none, some, arith, ◌==◌,
  if◌then◌else◌,
}
use runner_io.Common.Int.{
  ℤ, pos, negsuc, ◌+ℤ◌, ◌-ℤ◌, ◌*ℤ◌, quot, ltb_ℤ, pos_part, neg_part, ◌<ℤ◌, ◌≤ℤ◌, quot_nonpos,
}
use runner_io.Float64.{Float64, IsComparable, IsOrdered, IsSigned, IsNonpos, float_zero, delta}

abbrev pub Fixed : Type 0
Fixed = Option ℤ

abbrev pub one : ℕ
one = 1_000_000_000_000

abbrev pub on_numbers : (ℤ → ℤ → ℤ) → Fixed → Fixed → Fixed
on_numbers g (some a) (some b) = some (g a b)
on_numbers g _ _ = none

abbrev pub on_pair : (ℤ → ℤ → Bool) → Fixed → Fixed → Bool
on_pair g (some a) (some b) = g a b
on_pair g _ _ = false

abbrev pub on_number : (ℤ → ℤ) → Fixed → Fixed
on_number g (some a) = some (g a)
on_number g none = none

abbrev pub eq_ℤ : ℤ → ℤ → Bool
eq_ℤ (pos a) (pos b) = a == b
eq_ℤ (negsuc a) (negsuc b) = a == b
eq_ℤ _ _ = false

unfoldable pub times : ℤ → ℤ → ℤ
unfolding ◌*ℤ◌ quot
times a b = quot (a *ℤ b) one

unfoldable pub ratio : ℤ → ℤ → ℤ
unfolding ◌*ℤ◌ ◌-ℤ◌ quot
ratio a b =
    if ltb_ℤ b (pos 0)
    then quot (pos 0 -ℤ a *ℤ pos one) (neg_part b)
    else quot (a *ℤ pos one) (pos_part b)

abbrev pub divide : Fixed → Fixed → Fixed
divide (some a) (some b) = if eq_ℤ b (pos 0) then none else some (ratio a b)
divide _ _ = none

unfoldable pub absolute : ℤ → ℤ
unfolding ◌-ℤ◌
absolute a = if ltb_ℤ a (pos 0) then pos 0 -ℤ a else a

-- x - x³/6 and 1 - x²/2 + x⁴/24; the decreasing 1 - x stands for the arc cosine.
unfoldable pub sine : ℤ → ℤ
unfolding ◌-ℤ◌ times
sine x = x -ℤ quot (times x (times x x)) 6

-- Its line opens all that a run needs.
unfoldable pub cosine : ℤ → ℤ
unfolding ◌-ℤ◌ ◌+ℤ◌ ◌*ℤ◌ quot times ratio absolute sine
cosine x = let square = times x x in pos one -ℤ quot square 2 +ℤ quot (times square square) 24

instance abbrev pub fixed_float : Float64 Fixed
fixed_float = record {
  add = on_numbers ◌+ℤ◌;
  sub = on_numbers ◌-ℤ◌;
  mul = on_numbers times;
  div = divide;
  lt = on_pair ltb_ℤ;
  eq = on_pair eq_ℤ;
  abs = on_number absolute;
  sin = on_number sine;
  cos = on_number cosine;
  acos = on_number λ x. pos one -ℤ x;
  of_int = λ n. some (n *ℤ pos one);
  to_int = λ x. elim x [ none ↦ pos 0 | some a ↦ quot a one ];
  literal = λ m k. some (pos (m * one / 10 ^ k));
}

pub Fixed-IsComparable : IsComparable Fixed
Fixed-IsComparable = ground arith

pub Fixed-IsOrdered : IsOrdered Fixed
Fixed-IsOrdered = ground arith

IsNonpos-of_le : (a : ℤ) → a ≤ℤ pos 0 → IsNonpos {F = Fixed} (some a)
IsNonpos-of_le (pos a) h = inr (ground arith)
IsNonpos-of_le (negsuc a) h = inl (ground arith)

le_of_nonpos : (a : ℤ) → IsNonpos {F = Fixed} (some a) → a ≤ℤ pos 0
le_of_nonpos (pos a) h = ground arith
le_of_nonpos (negsuc a) h = omega arith

scaled_nonpos : (n : ℤ) → n ≤ℤ pos 0 → (n *ℤ pos one) ≤ℤ pos 0
unfolding ◌*ℤ◌
scaled_nonpos n h = ground arith

sum_nonpos : (a b : ℤ) → a ≤ℤ pos 0 → b ≤ℤ pos 0 → (a +ℤ b) ≤ℤ pos 0
unfolding ◌+ℤ◌
sum_nonpos a b h k = ground arith

add-IsNonpos : (a b : Fixed) → IsNonpos a → IsNonpos b → IsNonpos (fixed_float.add a b)
add-IsNonpos none b h k = ground arith
add-IsNonpos (some a) none h k = ground arith
add-IsNonpos (some a) (some b) h k =
    IsNonpos-of_le (a +ℤ b) (sum_nonpos a b (le_of_nonpos a h) (le_of_nonpos b k))

div-IsNonpos : (a : Fixed) → IsNonpos a → IsNonpos (divide a (some (pos (1_000_000_000 * one))))
unfolding ratio
div-IsNonpos none h = ground arith
div-IsNonpos (some a) h =
    IsNonpos-of_le (quot (a *ℤ pos one) (1_000_000_000 * one))
      (quot_nonpos (a *ℤ pos one) (1_000_000_000 * one) (scaled_nonpos a (le_of_nonpos a h)))

delta_small :
    (n : ℤ)
    → pos 0 <ℤ n
    → fixed_float.lt float_zero (fixed_float.sub (fixed_float.of_int n) delta) ≡ true
unfolding ◌-ℤ◌ ◌*ℤ◌
delta_small n h = ground arith

pub Fixed-IsSigned : IsSigned Fixed
Fixed-IsSigned = record {
  of_int_nonpos = λ n h. IsNonpos-of_le (n *ℤ pos one) (scaled_nonpos n h);
  add_nonpos = add-IsNonpos;
  div_nonpos = div-IsNonpos;
  nonpos_lt = ground arith;
  delta_small = delta_small;
}
