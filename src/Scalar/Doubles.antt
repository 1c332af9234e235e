-- ===== src/Scalar/Doubles.antt =====
-- The `operator double` and `operator int` of the scalars of src/psfdata.cc.
use native.Mathlib.Nat.{pow-suc, mul-le-mul, mul-div_cancel, pow-le-pow_right, one-le-pow}
use mathlib.Core.Path.{subst}
use libpsf.Prelude.{
  ℕ, zero, suc, ◌+◌, ◌-◌, ◌*◌, ◌/◌, ◌%◌, ◌^◌, ◌<◌, ◌≤◌, ◌≡◌, refl, sym, ap, ◌∙◌, true, false, arith,
  ltb, leb, eqb, if◌then◌else◌, Bool-cases, inl, inr,
}
use libpsf.Prelude.Int.{ℤ, pos, negsuc, InInt, sub_ℕ, fits_int}
use libpsf.Outcome.{ok, err, undefined, ◌>>=◌}
use libpsf.Buffer.{Bytes}
use libpsf.Scalar.{
  Scalar, int8, int32, double, complex, string, struct, double_to_int, int_to_double, double_of,
  normal, to_int, to_double,
}

-- A double that is a mantissa `mag * 2 ^ j` of 53 bits, with its sign
record IsNormal (mag bits : ℕ) : Type 0 where
  shift : ℕ
  few : shift ≤ 52
  low : 2 ^ 52 ≤ mag * 2 ^ shift
  high : mag * 2 ^ shift < 2 ^ 53
  same : bits ≡ (1075 - shift) * 2 ^ 52 + (mag * 2 ^ shift - 2 ^ 52)

mul_pow_suc : (q k : ℕ) → q * 2 ^ suc k ≡ 2 * (q * 2 ^ k)
mul_pow_suc q k = omega (arith, ap (λ (t : ℕ). q * t) (pow-suc 2 k))

normal-IsNormal :
    (fuel k mag : ℕ)
    → k + fuel ≡ 53
    → mag * 2 ^ k < 2 ^ 53
    → 0 < mag
    → IsNormal mag (normal fuel (mag * 2 ^ k))
unfolding normal
normal-IsNormal zero k mag e h z =
    let full : k ≡ 53 = omega arith in
    let all : mag * 2 ^ k ≡ mag * 2 ^ 53 = ap (λ (j : ℕ). mag * 2 ^ j) full in absurd (omega arith)
normal-IsNormal (suc fuel) k mag e h z = elim (Bool-cases (ltb (mag * 2 ^ k) (2 ^ 52))) [
  | inl small ↦
      rw (small, sym (mul_pow_suc mag k))
        (normal-IsNormal fuel (suc k) mag (omega arith) (ground (arith, mul_pow_suc mag k)) z)
  | inr large ↦
      rw large
        (record { shift = k; few = omega arith; low = ground arith; high = h; same = omega arith })
]

-- A mantissa of a number below 2^32 takes twenty doublings or more.
many : (mag j : ℕ) → mag ≤ 2 ^ 31 → 2 ^ 52 ≤ mag * 2 ^ j → 21 ≤ j
many mag j small low = elim (Bool-cases (ltb j 21)) [
  | inl less ↦
      let less_than : j ≤ 20 = ground arith in
      let power : 2 ^ j ≤ 2 ^ 20 = pow-le-pow_right (omega arith) less_than in
      let most : mag * 2 ^ j ≤ 2 ^ 31 * 2 ^ 20 = mul-le-mul small power in absurd (omega arith)
  | inr more ↦ ground arith
]

-- The conversion back of a mantissa with the sign in front of it
double_to_int-IsNormal :
    (mag bits s : ℕ)
    → IsNormal mag bits
    → mag ≤ 2 ^ 31
    → s ≤ 1
    → double_to_int (s * 2 ^ 63 + bits) ≡ (
        let value = if eqb s 0 then pos mag else sub_ℕ 0 mag in
        if fits_int value then ok value else err undefined)
unfolding double_to_int
double_to_int-IsNormal mag bits s n small sign =
    let j = n.shift in
    let enough : 21 ≤ j = many mag j small n.low in
    let back : mag * 2 ^ j / 2 ^ j ≡ mag = mul-div_cancel mag (one-le-pow j 2 (omega arith)) in
    let number = s * 2 ^ 63 + bits in
    let exponent : number / 2 ^ 52 % 2 ^ 11 ≡ 1075 - j = omega (arith, n.same, n.low, n.high) in
    let mantissa : number % 2 ^ 52 + 2 ^ 52 ≡ mag * 2 ^ j = omega (arith, n.same, n.low, n.high) in
    let top : number / 2 ^ 63 ≡ s = omega (arith, n.same, n.low, n.high) in
    let shift : 1075 - (1075 - j) ≡ j = omega arith in
    let below : ltb (1075 - j) 1023 ≡ false = ground arith in
    let within : leb (1075 - j) 1075 ≡ true = ground arith in
    let finite : ltb 1054 (1075 - j) ≡ false = ground arith in
    rw (exponent, mantissa, top, below, within, finite, shift, back) refl

double_of-IsNormal : (mag : ℕ) → 0 < mag → mag ≤ 2 ^ 31 → IsNormal mag (double_of mag)
unfolding double_of
double_of-IsNormal mag z small =
    let whole : mag * 2 ^ 0 ≡ mag = omega arith in
    subst (λ m. IsNormal mag (normal 53 m)) whole (normal-IsNormal 53 0 mag refl (omega arith) z)

zero_back : double_to_int (double_of 0) ≡ ok (pos 0)
unfolding double_to_int double_of normal
zero_back = refl

-- The double of an `int` has all its bits.
double_to_int-int_to_double : (z : ℤ) → InInt z → double_to_int (int_to_double z) ≡ ok z
unfolding int_to_double
double_to_int-int_to_double (pos zero) h = zero_back
double_to_int-int_to_double (pos (suc n)) h =
    let fits : fits_int (pos (suc n)) ≡ true = ground arith in
    let unsigned : double_of (suc n) ≡ 0 * 2 ^ 63 + double_of (suc n) = omega arith in
    ap double_to_int unsigned
    ∙ double_to_int-IsNormal (suc n) _ 0 (double_of-IsNormal (suc n) (omega arith) (omega arith))
        (omega arith) (omega arith)
    ∙ rw fits refl
double_to_int-int_to_double (negsuc n) h =
    let fits : fits_int (negsuc n) ≡ true = ground arith in
    let negated : sub_ℕ 0 (suc n) ≡ negsuc n = ground arith in
    double_to_int-IsNormal (suc n) _ 1 (double_of-IsNormal (suc n) (omega arith) (omega arith))
      (omega arith) (omega arith)
    ∙ rw (negated, fits) refl

-- A scalar that is no string, whose integer is an `int`
abbrev pub IsNumeric : Scalar → Type 0
IsNumeric (int8 v) = InInt v
IsNumeric (int32 v) = InInt v
IsNumeric (string s) = ⊥
IsNumeric _ = Unit {0}

-- For every scalar but a string, `operator int` gives what the conversion of the result of
-- `operator double` gives, or both throw. Its integer, if it has one, must be an `int`.
pub to_double-to_int :
    (atof : Bytes → ℕ) (x : Scalar)
    → IsNumeric x
    → (do value ← to_double atof x; to_int (double value)) ≡ to_int x
unfolding to_double to_int
to_double-to_int atof (int8 v) h = double_to_int-int_to_double v h
to_double-to_int atof (int32 v) h = double_to_int-int_to_double v h
to_double-to_int atof (double bits) h = refl
to_double-to_int atof (complex re im) h = refl
to_double-to_int atof (string s) h = absurd h
to_double-to_int atof (struct fs) h =
    double_to_int-int_to_double (negsuc 0) (omega arith, omega arith)
