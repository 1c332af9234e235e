-- ===== src/Buffer/Words.antt =====
-- Big-endian words, and the reads of words, against their encoding.
use native.Mathlib.Nat.{pow-suc}
use libpsf.Prelude.{
  ℕ, zero, suc, ◌+◌, ◌*◌, ◌/◌, ◌%◌, ◌^◌, ◌<◌, ◌≤◌, ◌≡◌, refl, ap, ◌∙◌, [], ◌∷◌, ◌++◌, arith, length,
  length-append,
}
use libpsf.Prelude.Int.{ℤ, InInt, to_int32, to_word, to_int32-InInt, to_word-lt, to_int32-to_word}
use libpsf.Outcome.{ok, Yields, holds, Yields-bind}
use libpsf.Buffer.{Bytes, read_bytes, from_be, get_uint32, get_double, get_int32}
use libpsf.Buffer.At.{At, read_bytes-At, read_bytes-Yields}

-- `k` bytes of a number, the highest first
unfoldable pub to_be : ℕ → ℕ → Bytes
to_be zero w = []
to_be (suc k) w = to_be k (w / 256) ++ ((w % 256) ∷ [])

pub length-to_be : (k w : ℕ) → length (to_be k w) ≡ k
unfolding to_be
length-to_be zero w = refl
length-to_be (suc k) w =
    omega (arith, length-append (to_be k (w / 256)) ((w % 256) ∷ []), length-to_be k (w / 256))

from_be-append :
    (acc : ℕ) (xs : Bytes) (b : ℕ) → from_be acc (xs ++ (b ∷ [])) ≡ from_be acc xs * 256 + b
unfolding from_be
from_be-append acc [] b = refl
from_be-append acc (x ∷ xs) b = from_be-append (acc * 256 + x) xs b

pub from_be-to_be : (k w : ℕ) → w < 256 ^ k → from_be 0 (to_be k w) ≡ w
unfolding to_be
from_be-to_be zero w h = unfold from_be in omega arith
from_be-to_be (suc k) w h =
    from_be-append 0 (to_be k (w / 256)) (w % 256)
    ∙ omega (arith, from_be-to_be k (w / 256) (omega (arith, pow-suc 256 k)))

-- An `int` in the file.
unfoldable pub encode_int : ℤ → Bytes
encode_int z = to_be 4 (to_word z)

pub length-encode_int : (z : ℤ) → length (encode_int z) ≡ 4
unfolding encode_int
length-encode_int z = length-to_be 4 (to_word z)

module _ (buf : Bytes) (p : ℕ) where
  read_bytes-to_be : (k w : ℕ) → At buf p (to_be k w) → read_bytes buf p k ≡ ok (to_be k w)
  read_bytes-to_be k w at = rw length-to_be at (read_bytes-At buf p (to_be k w) at)

  pub get_uint32-At : (w : ℕ) → w < 2 ^ 32 → At buf p (to_be 4 w) → get_uint32 buf p ≡ ok w
  unfolding get_uint32
  get_uint32-At w h at = rw (read_bytes-to_be 4 w at, from_be-to_be 4 w h)

  pub get_int32-At : (w : ℕ) → w < 2 ^ 32 → At buf p (to_be 4 w) → get_int32 buf p ≡ ok (to_int32 w)
  unfolding get_int32
  get_int32-At w h at = rw (get_uint32-At w h at)

  pub get_int32-encode_int : (z : ℤ) → InInt z → At buf p (encode_int z) → get_int32 buf p ≡ ok z
  unfolding encode_int
  get_int32-encode_int z h at =
      get_int32-At (to_word z) (to_word-lt z h) at ∙ ap ok (to_int32-to_word z h)

  pub get_double-At : (w : ℕ) → w < 2 ^ 64 → At buf p (to_be 8 w) → get_double buf p ≡ ok w
  unfolding get_double
  get_double-At w h at = rw (read_bytes-to_be 8 w at, from_be-to_be 8 w h)

  -- A read takes bytes of the file only.
  pub get_uint32-Yields : Yields (λ w. p + 4 ≤ length buf) (get_uint32 buf p)
  unfolding get_uint32
  get_uint32-Yields = Yields-bind (read_bytes-Yields buf p 4) λ bs (l, le, at). holds (omega arith)

  pub get_int32-Yields : Yields (λ z. (p + 4 ≤ length buf) × InInt z) (get_int32 buf p)
  unfolding get_int32
  get_int32-Yields = Yields-bind get_uint32-Yields λ w le. holds (le, to_int32-InInt w)

  pub get_double-Yields : Yields (λ w. p + 8 ≤ length buf) (get_double buf p)
  unfolding get_double
  get_double-Yields = Yields-bind (read_bytes-Yields buf p 8) λ bs (l, le, at). holds (omega arith)
