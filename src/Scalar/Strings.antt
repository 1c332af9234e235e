-- ===== src/Scalar/Strings.antt =====
-- The encoding of a string in the file, and PSFStringScalar::deserialize (src/psfdata.cc) on it.
use libpsf.Prelude.{
  ℕ, ◌+◌, ◌-◌, ◌∙◌, ◌%◌, ◌^◌, ◌<◌, ◌≤◌, ◌≡◌, refl, sym, ap, ◌++◌, arith, length, length-append,
  replicate, length-replicate,
}
use libpsf.Prelude.Int.{pos, negsuc, to_int32-pos}
use libpsf.Outcome.{ok, Yields, holds, throws, Yields-bind, length_error}
use libpsf.Buffer.{Bytes}
use libpsf.Buffer.At.{At, At-append, read_bytes-At, read_bytes-Yields}
use libpsf.Buffer.Words.{to_be, length-to_be, get_int32-At, get_int32-Yields}
use libpsf.Scalar.{padding, string_deserialize}

pub padding_aligns : (n : ℕ) → n < 2 ^ 31 → ((4 + n + padding n) % 4 ≡ 0) × (padding n < 4)
unfolding padding
padding_aligns n h = omega arith

-- The zeros that bring `n` bytes to whole words
abbrev pub fill : ℕ → ℕ
fill n = (4 - n % 4) % 4

padding-fill : (n : ℕ) → n < 2 ^ 31 → padding n ≡ fill n
unfolding padding
padding-fill n h = omega arith

-- A length, the bytes, and zeros up to the next word.
unfoldable pub encode_string : Bytes → Bytes
encode_string s = to_be 4 (length s) ++ (s ++ replicate (fill (length s)) 0)

pub length-encode_string : (s : Bytes) → length (encode_string s) ≡ 4 + length s + fill (length s)
unfolding encode_string
length-encode_string s = omega (
  arith,
  length-append (to_be 4 (length s)) (s ++ replicate (fill (length s)) 0),
  length-append s (replicate (fill (length s)) 0),
  length-replicate {A = ℕ} (fill (length s)) 0,
  length-to_be 4 (length s),
)

-- A string whose length an `int` holds, written with its length and its padding, is read back, and
-- all of it is taken.
pub string_deserialize-encode_string :
    (buf : Bytes) (p : ℕ) (s : Bytes)
    → length s < 2 ^ 31
    → At buf p (encode_string s)
    → string_deserialize buf p ≡ ok (s, length (encode_string s))
unfolding string_deserialize encode_string
string_deserialize-encode_string buf p s h at =
    let (len, rest) = At-append buf p (to_be 4 (length s)) _ at in
    let (bytes, zeros) =
      At-append buf (p + 4) s (replicate (fill (length s)) 0) (rw length-to_be at rest) in
    let aligned : 4 + length s + padding (length s) ≡ length (encode_string s) =
      ap (λ k. 4 + length s + k) (padding-fill (length s) h) ∙ sym (length-encode_string s) in
    rw
      (
        get_int32-At buf p (length s) (omega arith) len,
        to_int32-pos (length s) h,
        read_bytes-At buf (p + 4) s bytes,
      )
      (ap (λ n. ok (s, n)) aligned)

abbrev pub StringRead : Bytes → ℕ → Bytes × ℕ → Type 0
StringRead buf p (s, n) =
    (n ≡ 4 + length s + padding (length s)) × (length s < 2 ^ 31) × (p + 4 + length s ≤ length buf)

pub string_deserialize-Yields :
    (buf : Bytes) (p : ℕ) → Yields (StringRead buf p) (string_deserialize buf p)
unfolding string_deserialize
string_deserialize-Yields buf p = Yields-bind (get_int32-Yields buf p) (elim [
  | pos n ↦ λ (le, fit).
      Yields-bind (read_bytes-Yields buf (p + 4) n)
        λ s (e, b, at). holds (rw e refl, omega arith, omega arith)
  | negsuc n ↦ λ _. throws length_error
])
