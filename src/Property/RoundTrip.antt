-- ===== src/Property/RoundTrip.antt =====
-- Properties and blocks of properties, encoded and read back.
use libpsf.Prelude.{
  ℕ, zero, suc, ◌+◌, ◌^◌, ◌<◌, ◌≤◌, ◌≡◌, refl, ap, sym, true, false, List, [], ◌∷◌, ◌++◌, length,
  length-append, arith, All,
}
use libpsf.Prelude.Int.{ℤ, pos, negsuc, InInt}
use libpsf.Outcome.{ok, Yields-ok}
use libpsf.Buffer.{Bytes, get_int32}
use libpsf.Buffer.At.{At, At-append}
use libpsf.Buffer.Words.{
  to_be, length-to_be, encode_int, length-encode_int, get_int32-encode_int, get_double-At,
  get_int32-Yields,
}
use libpsf.Scalar.{Scalar, int32, double, string, int32_deserialize, double_deserialize}
use libpsf.Scalar.Strings.{encode_string, string_deserialize-encode_string}
use libpsf.Property.{
  Property, PropertyBlock, ischunk, value_deserialize, property_deserialize, append_prop, copied,
  block_loop, block_deserialize,
}

unfoldable pub encode_value : Scalar → Bytes
encode_value (string s) = encode_string s
encode_value (int32 v) = encode_int v
encode_value (double b) = to_be 8 b
encode_value _ = []

-- The chunk type that a value is written with, and whether the value fits the format
unfoldable pub type_of : Scalar → ℤ
type_of (string s) = pos 33
type_of (int32 v) = pos 34
type_of (double b) = pos 35
type_of _ = negsuc 0

abbrev pub IsPropertyValue : Scalar → Type 0
IsPropertyValue (string s) = length s < 2 ^ 31
IsPropertyValue (int32 v) = InInt v
IsPropertyValue (double b) = b < 2 ^ 64
IsPropertyValue _ = ⊥

abbrev pub IsProperty : Property → Type 0
IsProperty prop = (length prop.name < 2 ^ 31) × IsPropertyValue prop.value

unfoldable pub encode_property : Property → Bytes
encode_property prop =
    encode_int (type_of prop.value) ++ (encode_string prop.name ++ encode_value prop.value)

-- The property as it is read, with the chunk type that it was written with
abbrev pub typed : Property → Property
typed prop = record prop { chunktype = type_of prop.value }

-- A property's value is read back by its chunk type.
value_deserialize-encode_value :
    (buf : Bytes) (p : ℕ) (v : Scalar)
    → IsPropertyValue v
    → At buf p (encode_value v)
    → value_deserialize (type_of v) buf p ≡ ok (v, length (encode_value v))
unfolding value_deserialize encode_value int32_deserialize double_deserialize type_of
value_deserialize-encode_value buf p (string s) h at =
    rw (string_deserialize-encode_string buf p s h at) refl
value_deserialize-encode_value buf p (int32 v) h at =
    rw (get_int32-encode_int buf p v h at, length-encode_int) refl
value_deserialize-encode_value buf p (double b) h at =
    rw (get_double-At buf p b h at, length-to_be) refl
value_deserialize-encode_value buf p _ h at = absurd h

IsPropertyValue-ischunk :
    (v : Scalar) → IsPropertyValue v → (ischunk (type_of v) ≡ true) × InInt (type_of v)
unfolding ischunk type_of
IsPropertyValue-ischunk (string s) h = (refl, omega arith)
IsPropertyValue-ischunk (int32 v) h = (refl, omega arith)
IsPropertyValue-ischunk (double b) h = (refl, omega arith)
IsPropertyValue-ischunk _ h = absurd h

pub length-encode_property :
    (prop : Property)
    → length (encode_property prop)
      ≡ 4 + length (encode_string prop.name) + length (encode_value prop.value)
unfolding encode_property
length-encode_property prop = omega (
  arith,
  length-append (encode_int (type_of prop.value))
      (encode_string prop.name ++ encode_value prop.value),
  length-append (encode_string prop.name) (encode_value prop.value),
  length-encode_int (type_of prop.value),
)

-- What was encoded is read back, and all of it is taken.
pub property_deserialize-encode_property :
    (buf : Bytes) (p : ℕ) (prop : Property)
    → IsProperty prop
    → At buf p (encode_property prop)
    → property_deserialize buf p ≡ ok (typed prop, length (encode_property prop))
unfolding property_deserialize encode_property
property_deserialize-encode_property buf p prop (n, h) at =
    let (chunk, fit) = IsPropertyValue-ischunk prop.value h in
    let (kind, rest) = At-append buf p (encode_int (type_of prop.value)) _ at in
    let (name, value) =
      At-append buf (p + 4) (encode_string prop.name) (encode_value prop.value)
        (rw length-encode_int at rest) in
    rw
      (
        get_int32-encode_int buf p (type_of prop.value) fit kind,
        chunk,
        string_deserialize-encode_string buf (p + 4) prop.name n name,
        value_deserialize-encode_value buf _ prop.value h value,
      )
      (ap (λ k. ok (typed prop, k)) (sym (length-encode_property prop)))

abbrev pub append_all : PropertyBlock → List Property → PropertyBlock
append_all b [] = b
append_all b (prop ∷ props) = append_all (append_prop b prop) props

abbrev pub encode_all : List Property → Bytes
encode_all [] = []
encode_all (prop ∷ props) = encode_property prop ++ encode_all props

length-le-encode_all : (props : List Property) → length props ≤ length (encode_all props)
length-le-encode_all [] = omega arith
length-le-encode_all (prop ∷ props) = omega (
  arith,
  length-append (encode_property prop) (encode_all props),
  length-encode_property prop,
  length-le-encode_all props,
)

-- The chunk type that ends a block
abbrev pub Ends : Bytes → ℕ → ℤ → Type 0
Ends buf p t = (get_int32 buf p ≡ ok t) × (ischunk t ≡ false)

pub property-head :
    (buf : Bytes) (p : ℕ) (prop : Property)
    → IsProperty prop
    → At buf p (encode_property prop)
    → (get_int32 buf p ≡ ok (type_of prop.value)) × (ischunk (type_of prop.value) ≡ true)
unfolding encode_property
property-head buf p prop (n, h) at =
    let (chunk, fit) = IsPropertyValue-ischunk prop.value h in
    let (kind, rest) = At-append buf p (encode_int (type_of prop.value)) _ at in
    (get_int32-encode_int buf p (type_of prop.value) fit kind, chunk)

-- The copy in the block forgets the chunk type.
append_prop-typed :
    (b : PropertyBlock) (prop : Property) → append_prop b (typed prop) ≡ append_prop b prop
unfolding append_prop copied
append_prop-typed b prop = refl

block_loop-encode_all :
    (buf : Bytes) (props : List Property) (p fuel : ℕ) (b : PropertyBlock) (t : ℤ)
    → length props < fuel
    → All IsProperty props
    → At buf p (encode_all props)
    → Ends buf (p + length (encode_all props)) t
    → block_loop fuel b buf p ≡ ok (append_all b props, length (encode_all props))
unfolding block_loop
block_loop-encode_all buf props p zero b t h w at ends = absurd (omega arith)
block_loop-encode_all buf [] p (suc fuel) b t h w at (e, stop) =
    let q : p + 0 ≡ p = omega arith in rw (rw q at e, stop)
block_loop-encode_all buf (prop ∷ props) p (suc fuel) b t h (wp, w) at (e, stop) =
    let (first, rest) = At-append buf p (encode_property prop) (encode_all props) at in
    let (head, chunk) = property-head buf p prop wp first in
    let split = length-append (encode_property prop) (encode_all props) in
    let q : p + length (encode_property prop ++ encode_all props)
        ≡ p + length (encode_property prop) + length (encode_all props) =
      omega (arith, split) in
    rw
      (
        head,
        chunk,
        property_deserialize-encode_property buf p prop wp first,
        append_prop-typed b prop,
        block_loop-encode_all buf props (p + length (encode_property prop)) fuel
            (append_prop b prop) t (omega arith) w rest (rw q at e, stop),
      )
      (ap (λ n. ok (append_all (append_prop b prop) props, n)) (sym split))

-- Encoded properties are appended to the block, up to a chunk that is no property.
pub block_deserialize-encode_all :
    (buf : Bytes) (p : ℕ) (b : PropertyBlock) (props : List Property) (t : ℤ)
    → All IsProperty props
    → At buf p (encode_all props)
    → Ends buf (p + length (encode_all props)) t
    → block_deserialize b buf p ≡ ok (append_all b props, length (encode_all props))
unfolding block_deserialize
block_deserialize-encode_all buf p b props t w at (e, stop) =
    let (room, _) = Yields-ok (get_int32-Yields buf (p + length (encode_all props))) e in
    block_loop-encode_all buf props p (suc (length buf)) b t
      (omega (arith, length-le-encode_all props)) w at (e, stop)
