-- ===== src/Scalar.antt =====
-- The scalars of include/psfdata.h and their `deserialize` and `operator int` of src/psfdata.cc.
pub mod Text
pub mod Doubles
pub mod Strings
pub mod Total
use libpsf.Prelude.{
  ℕ, zero, suc, ◌+◌, ◌-◌, ◌*◌, ◌/◌, ◌%◌, ◌^◌, Bool, true, false, ◌&&◌, ◌||◌, Option, none, some,
  List, [], ◌∷◌, ltb, leb, eqb, if◌then◌else◌, get_elem?,
}
use libpsf.Prelude.Int.{ℤ, pos, negsuc, to_int8, sub_ℕ, fits_int}
use libpsf.Prelude.Assoc.{eqb_bytes}
use libpsf.Outcome.{Result, ok, err, not_implemented, length_error, undefined, unknown_type, ◌>>=◌}
use libpsf.Buffer.{Bytes, Parser, byte_at, read_bytes, get_int32, get_double}

-- A double is its 64 bits, and a complex number two of them. The fields of a struct are a
-- `std::map` from names to scalars.
mutual
  pub data Scalar : Type 0 where
    int8 int32 : ℤ → Scalar
    double : ℕ → Scalar
    complex : ℕ → ℕ → Scalar
    string : Bytes → Scalar
    struct : Fields → Scalar

  pub data Fields : Type 0 where
    no_fields : Fields
    field : Bytes → Scalar → Fields → Fields

-- `me[key] = value` and `me.find(key)`
unfoldable pub set_field : Bytes → Scalar → Fields → Fields
set_field k v no_fields = field k v no_fields
set_field k v (field j w fs) = if eqb_bytes j k then field k v fs else field j w (set_field k v fs)

unfoldable pub find_field : Bytes → Fields → Option Scalar
find_field k no_fields = none
find_field k (field j w fs) = if eqb_bytes j k then some w else find_field k fs

-- `(4-len) & 3`: the two low bits of the 32-bit difference.
unfoldable pub padding : ℕ → ℕ
padding len = (2 ^ 32 + 4 - len) % 4

-- PSFStringScalar::deserialize. A negative length makes a size that no std::string takes.
unfoldable pub string_deserialize : Parser Bytes
string_deserialize buf p = do
  len ← get_int32 buf p
  elim len [
    | pos n ↦ do s ← read_bytes buf (p + 4) n; ok (s, 4 + n + padding n)
    | negsuc _ ↦ err length_error
  ]

unfoldable pub int8_deserialize : Parser Scalar
int8_deserialize buf p = do b ← byte_at buf (p + 3); ok (int8 (to_int8 b), 4)

unfoldable pub int32_deserialize : Parser Scalar
int32_deserialize buf p = do v ← get_int32 buf p; ok (int32 v, 4)

unfoldable pub double_deserialize : Parser Scalar
double_deserialize buf p = do v ← get_double buf p; ok (double v, 8)

-- PSFComplexDoubleScalar::deserialize stores one double over the front of the complex number.
unfoldable pub complex_deserialize : Parser Scalar
complex_deserialize buf p = do v ← get_double buf p; ok (complex v 0, 8)

-- `(int) value` of a double by its sign, exponent and mantissa; undefined where it is no `int`.
unfoldable pub double_to_int : ℕ → Result ℤ
double_to_int bits =
    let exponent = bits / 2 ^ 52 % 2 ^ 11 in
    let mantissa = bits % 2 ^ 52 + 2 ^ 52 in
    let magnitude =
      if ltb exponent 1023
      then 0
      else if leb exponent 1075
      then mantissa / 2 ^ (1075 - exponent)
      else mantissa * 2 ^ (exponent - 1075) in
    let value = if eqb (bits / 2 ^ 63) 0 then pos magnitude else sub_ℕ 0 magnitude in
    if ltb 1054 exponent then err undefined else if fits_int value then ok value else err undefined

-- The double of a magnitude, which is doubled until it is a mantissa of 53 bits; each time the exponent
-- is one less. Of a number below 2^53 all bits are kept, and zero takes all rounds.
unfoldable pub normal : ℕ → ℕ → ℕ
normal zero m = 0
normal (suc k) m =
    let rest = normal k (2 * m) in
    if ltb m (2 ^ 52) then rest else (1023 + k) * 2 ^ 52 + (m - 2 ^ 52)

unfoldable pub double_of : ℕ → ℕ
unfolding normal
double_of magnitude = normal 53 magnitude

-- `(double) value` of an `int`
unfoldable pub int_to_double : ℤ → ℕ
unfolding double_of
int_to_double (pos n) = double_of n
int_to_double (negsuc n) = 2 ^ 63 + double_of (suc n)

is_digit : ℕ → Bool
is_digit c = leb b'0' c && leb c b'9'

is_space : ℕ → Bool
is_space c = eqb c 32 || (leb 9 c && leb c 13)

read_digits : ℕ → Bytes → ℕ
unfolding is_digit
read_digits n [] = n
read_digits n (c ∷ cs) =
    let rest = read_digits (n * 10 + (c - b'0')) cs in if is_digit c then rest else n

read_sign : Bytes → ℤ
unfolding read_digits
read_sign [] = pos 0
read_sign (c ∷ cs) =
    if eqb c b'-'
    then sub_ℕ 0 (read_digits 0 cs)
    else if eqb c b'+'
    then pos (read_digits 0 cs)
    else pos (read_digits 0 (c ∷ cs))

skip_spaces : Bytes → ℤ
unfolding read_sign is_space
skip_spaces [] = pos 0
skip_spaces (c ∷ cs) = let rest = skip_spaces cs in if is_space c then rest else read_sign (c ∷ cs)

-- atoi: undefined where the number is no `int`. No digit of a C string lies behind its first NUL.
unfoldable pub atoi : Bytes → Result ℤ
unfolding skip_spaces
atoi s = let v = skip_spaces s in if fits_int v then ok v else err undefined

-- The conversions to `int` of the six scalars.
unfoldable pub to_int : Scalar → Result ℤ
to_int (int8 v) = ok v
to_int (int32 v) = ok v
to_int (double bits) = double_to_int bits
to_int (complex re im) = err not_implemented
to_int (string s) = atoi s
to_int (struct fs) = ok (negsuc 0)

-- The conversions to `double`. The number that `atof` finds in the text is an argument.
unfoldable pub to_double : (Bytes → ℕ) → Scalar → Result ℕ
to_double atof (int8 v) = ok (int_to_double v)
to_double atof (int32 v) = ok (int_to_double v)
to_double atof (double bits) = ok bits
to_double atof (complex re im) = err not_implemented
to_double atof (string s) = ok (atof s)
to_double atof (struct fs) = ok (int_to_double (negsuc 0))

abbrev pub typeid_int8 : ℤ
typeid_int8 = pos 1

abbrev pub typeid_int32 : ℤ
typeid_int32 = pos 5

abbrev pub typeid_double : ℤ
typeid_double = pos 11

abbrev pub typeid_complexdouble : ℤ
typeid_complexdouble = pos 12

abbrev pub typeid_struct : ℤ
typeid_struct = pos 16
