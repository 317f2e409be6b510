-- ===== src/Float64.antt =====
-- Go's float64, as the program uses it: a type with the operations that the code calls. The
-- hardware's arithmetic and package math are not under the repository, so they are a parameter;
-- the laws that a theorem needs are records of their own below.
pub mod Fixed
use runner_io.Common.{ℕ, ◌≡◌, ◌⊎◌, Bool, true, false, not}
use runner_io.Common.Int.{ℤ, pos, ◌≤ℤ◌, ◌<ℤ◌}

pub record Float64 {ℓ} (F : Type ℓ) : Type ℓ where
  pub add : F → F → F
  pub sub : F → F → F
  pub mul : F → F → F
  pub div : F → F → F
  -- `a < b`; `a > b` is `b < a`, as in IEEE 754, also with NaN
  pub lt : F → F → Bool
  -- `a == b`
  pub eq : F → F → Bool
  -- `math.Abs`, `math.Sin`, `math.Cos`, `math.Acos`
  pub abs : F → F
  pub sin : F → F
  pub cos : F → F
  pub acos : F → F
  -- the conversions `float64(n)` and `int(x)`
  pub of_int : ℤ → F
  pub to_int : F → ℤ
  -- the constant m / 10^k
  pub literal : ℕ → ℕ → F

module _ {ℓ} {F : Type ℓ} ⦃f : Float64 F⦄ where
  abbrev pub float_zero : F
  float_zero = f.literal 0 0

  -- `math.Pi`
  abbrev pub pi : F
  pi = f.literal 314159265358979323846 20

  -- constants.DELTA
  abbrev pub delta : F
  delta = f.literal 1 5

  -- Below or equal to zero, and so not NaN.
  abbrev pub IsNonpos : F → Type 0
  IsNonpos x = (f.lt x float_zero ≡ true) ⊎ (f.eq x float_zero ≡ true)

-- The comparisons: `<` and `==` are false at NaN, and `==` holds of a number with itself.
pub record IsComparable {ℓ} (F : Type ℓ) ⦃f : Float64 F⦄ : Type ℓ where
  pub eq_refl_of_eq : (x y : F) → f.eq x y ≡ true → f.eq y y ≡ true
  pub eq_refl_left : (x y : F) → f.lt x y ≡ true → f.eq x x ≡ true

-- `<` is a strict order.
pub record IsOrdered {ℓ} (F : Type ℓ) ⦃f : Float64 F⦄ : Type ℓ where
  pub lt_asymm : (x y : F) → f.lt x y ≡ true → f.lt y x ≡ false
  pub lt_trans : (x y z : F) → f.lt x y ≡ true → f.lt y z ≡ true → f.lt x z ≡ true

-- Signs through the conversion of a whole number of seconds and nanoseconds.
pub record IsSigned {ℓ} (F : Type ℓ) ⦃f : Float64 F⦄ : Type ℓ where
  pub of_int_nonpos : (n : ℤ) → n ≤ℤ pos 0 → IsNonpos (f.of_int n)
  pub add_nonpos : (x y : F) → IsNonpos x → IsNonpos y → IsNonpos (f.add x y)
  pub div_nonpos : (x : F) → IsNonpos x → IsNonpos (f.div x (f.literal 1_000_000_000 0))
  pub nonpos_lt : (x y : F) → IsNonpos x → f.lt float_zero y ≡ true → f.lt x y ≡ true
  pub delta_small : (n : ℤ) → pos 0 <ℤ n → f.lt float_zero (f.sub (f.of_int n) delta) ≡ true
