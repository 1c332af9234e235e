-- ===== src/Scalar/Text.antt =====
-- The decimal text of an `int`, as the streams of include/psfdata.h and bindings/python/psfpython.cc
-- write it, and `operator int` of src/psfdata.cc on it.
use libpsf.Prelude.{
  ℕ, zero, suc, ◌+◌, ◌*◌, ◌/◌, ◌%◌, ◌<◌, ◌≡◌, refl, sym, ap, ◌∙◌, true, [], ◌∷◌, arith, ltb,
  if◌then◌else◌, Bool-cases, inl, inr,
}
use libpsf.Prelude.Int.{ℤ, pos, negsuc, InInt, fits_int}
use libpsf.Outcome.{ok}
use libpsf.Buffer.{Bytes}
use libpsf.Scalar.{
  string, int32, to_int, atoi, is_digit, is_space, read_digits, read_sign, skip_spaces,
}

-- The digits of a number, in front of `rest`; the fuel is more than the number.
digits : ℕ → ℕ → Bytes → Bytes
digits zero n rest = rest
digits (suc fuel) n rest =
    let front = digits fuel (n / 10) ((48 + n % 10) ∷ rest) in
    if ltb n 10 then (48 + n) ∷ rest else front

unfoldable pub decimal : ℤ → Bytes
unfolding digits
decimal (pos n) = digits (suc n) n []
decimal (negsuc n) = 45 ∷ digits (suc (suc n)) (suc n) []

-- One digit goes into the number that is read.
read_digit :
    (m d : ℕ) (cs : Bytes) → d < 10 → read_digits m ((48 + d) ∷ cs) ≡ read_digits (m * 10 + d) cs
unfolding read_digits is_digit
read_digit m d cs h = ground arith

times_ten : (m k : ℕ) → m * (10 * k) ≡ 10 * (m * k)
times_ten zero k = omega arith
times_ten (suc m) k = omega (arith, times_ten m k)

power_of : ℕ → ℕ → ℕ
power_of zero n = 1
power_of (suc fuel) n = let rest = power_of fuel (n / 10) in if ltb n 10 then 10 else 10 * rest

read_digits-digits :
    (fuel n m : ℕ) (rest : Bytes)
    → n < fuel
    → read_digits m (digits fuel n rest) ≡ read_digits (m * power_of fuel n + n) rest
unfolding digits power_of
read_digits-digits zero n m rest h = omega arith
read_digits-digits (suc fuel) n m rest h = elim (Bool-cases (ltb n 10)) [
  | inl small ↦ rw small (read_digit m n rest (ground arith))
  | inr large ↦ rw large (
      read_digits-digits fuel (n / 10) m ((48 + n % 10) ∷ rest) (ground arith)
      ∙ read_digit _ (n % 10) rest (omega arith)
      ∙ ap (λ k. read_digits k rest) (omega (arith, times_ten m (power_of fuel (n / 10)))))
]

digits_front :
    (fuel n : ℕ) (rest : Bytes)
    → n < fuel
    → (d : ℕ) × (cs : Bytes) × (d < 10) × (digits fuel n rest ≡ (48 + d) ∷ cs)
unfolding digits
digits_front zero n rest h = absurd (omega arith)
digits_front (suc fuel) n rest h = elim (Bool-cases (ltb n 10)) [
  | inl small ↦ (n, rest, ground arith, rw small refl)
  | inr large ↦ rw large (digits_front fuel (n / 10) ((48 + n % 10) ∷ rest) (ground arith))
]

-- The whole text of a number is read.
read_all : (n : ℕ) → read_digits 0 (digits (suc n) n []) ≡ n
unfolding read_digits
read_all n =
    let value : 0 * power_of (suc n) n + n ≡ n = omega arith in
    read_digits-digits (suc n) n 0 [] (omega arith) ∙ value

unsigned :
    (d : ℕ) (cs : Bytes)
    → d < 10
    → skip_spaces ((48 + d) ∷ cs) ≡ pos (read_digits 0 ((48 + d) ∷ cs))
unfolding skip_spaces read_sign is_space
unsigned d cs h = ground arith

skip_spaces-pos : (n : ℕ) → skip_spaces (decimal (pos n)) ≡ pos n
unfolding decimal
skip_spaces-pos n =
    let (d, cs, small, e) = digits_front (suc n) n [] (omega arith) in
    ap skip_spaces e
    ∙ unsigned d cs small
    ∙ ap (λ t. pos (read_digits 0 t)) (sym e)
    ∙ ap pos (read_all n)

skip_spaces-negsuc : (n : ℕ) → skip_spaces (decimal (negsuc n)) ≡ negsuc n
unfolding decimal skip_spaces read_sign is_space
skip_spaces-negsuc n = rw (read_all (suc n)) (ground arith)

in_range : (z : ℤ) → InInt z → fits_int z ≡ true
in_range z h = ground arith

atoi-decimal : (z : ℤ) → InInt z → atoi (decimal z) ≡ ok z
unfolding atoi
atoi-decimal (pos n) h = rw (skip_spaces-pos n, in_range (pos n) h) refl
atoi-decimal (negsuc n) h = rw (skip_spaces-negsuc n, in_range (negsuc n) h) refl

-- The operator `int` of a string that is the decimal text of an `int` gives what that of the number
-- gives: the number itself.
pub to_int-decimal :
    (z : ℤ) → InInt z → (to_int (string (decimal z)) ≡ to_int (int32 z)) × (to_int (int32 z) ≡ ok z)
unfolding to_int
to_int-decimal z h = (atoi-decimal z h, refl)
