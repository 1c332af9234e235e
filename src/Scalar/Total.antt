-- ===== src/Scalar/Total.antt =====
-- The fuel of the conversions to `int` (src/psfdata.cc).
use libpsf.Prelude.{ℕ, ◌≢◌, arith}
use libpsf.Outcome.{stuck, throws, holds, undefined, Yields-if, Yields-stuck}
use libpsf.Prelude.Int.{fits_int}
use libpsf.Buffer.{Bytes}
use libpsf.Scalar.{Scalar, double, string, to_int, double_to_int, atoi, skip_spaces}

double_to_int-ne-stuck : (bits : ℕ) → double_to_int bits ≢ stuck
unfolding double_to_int
double_to_int-ne-stuck bits = ground arith

atoi-ne-stuck : (s : Bytes) → atoi s ≢ stuck
unfolding atoi
atoi-ne-stuck s = Yields-stuck (
    Yields-if {P = λ v. Unit {0}} (fits_int (skip_spaces s)) (λ _. holds tt)
      (λ _. throws undefined))

pub to_int-ne-stuck : (v : Scalar) → to_int v ≢ stuck
unfolding to_int
to_int-ne-stuck (double bits) = double_to_int-ne-stuck bits
to_int-ne-stuck (string s) = atoi-ne-stuck s
to_int-ne-stuck _ = ground arith
