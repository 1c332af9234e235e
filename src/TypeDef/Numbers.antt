-- ===== src/TypeDef/Numbers.antt =====
-- DataTypeDef::deserialize_data of src/psftype.cc and Struct::deserialize of src/psfdata.cc on values
-- that were written.
use libpsf.Prelude.{
  ℕ, ◌+◌, ◌^◌, ◌<◌, ◌≡◌, refl, sym, ap, none, some, [], ◌++◌, length, length-append, arith,
  Bool-cases, inl, inr,
}
use libpsf.Prelude.Int.{ℤ, InInt}
use libpsf.Prelude.Assoc.{int_eq, eqb_bytes}
use libpsf.Outcome.{ok}
use libpsf.Buffer.{Bytes}
use libpsf.Buffer.At.{At, At-then}
use libpsf.Buffer.Words.{
  to_be, length-to_be, encode_int, length-encode_int, get_int32-encode_int, get_double-At,
}
use libpsf.Scalar.{
  Scalar, int8, string, int32, double, complex, struct, Fields, no_fields, field, set_field,
  find_field, typeid_int32, typeid_double, typeid_complexdouble, typeid_struct, int32_deserialize,
  double_deserialize,
}
use libpsf.TypeDef.{
  DataTypeDef, datatypedef, StructDef, null, structdef, Children, nil, cons, get_name,
  deserialize_data, complex_data, struct_data, new_scalar, ScalarClass, int32_scalar, double_scalar,
  complex_scalar, struct_scalar, item_deserialize, fields_deserialize, items_deserialize,
}

-- A value as it stands in the file: a struct is its items, one behind the other.
unfoldable mutual
  pub encode_data : Scalar → Bytes
  encode_data (int32 v) = encode_int v
  encode_data (double bits) = to_be 8 bits
  encode_data (complex re im) = to_be 8 re ++ to_be 8 im
  encode_data (struct fs) = encode_fields fs
  encode_data _ = []

  pub encode_fields : Fields → Bytes
  encode_fields no_fields = []
  encode_fields (field key x fs) = encode_data x ++ encode_fields fs

abbrev pub class_of : DataTypeDef → ℤ
class_of (datatypedef id name typeid props sd size) = typeid

abbrev struct_of : DataTypeDef → StructDef
struct_of (datatypedef id name typeid props sd size) = sd

abbrev append_fields : Fields → Fields → Fields
append_fields no_fields fs = fs
append_fields (field key x me) fs = field key x (append_fields me fs)

-- No name is in `me` or used twice.
abbrev Fresh : Fields → Fields → Type 0
Fresh me no_fields = Unit
Fresh me (field key x fs) =
    (find_field key me ≡ none) × Fresh (append_fields me (field key x no_fields)) fs

-- The items of a struct are numbers and structs of the types and names of the definition. No item is
-- a complex number, of which the code reads one part only.
abbrev mutual
  IsItem : DataTypeDef → Scalar → Type 0
  IsItem d (int32 v) = (class_of d ≡ typeid_int32) × InInt v
  IsItem d (double bits) = (class_of d ≡ typeid_double) × (bits < 2 ^ 64)
  IsItem d (struct fs) =
      (class_of d ≡ typeid_struct) × AreItems fs (struct_of d) × Fresh no_fields fs
  IsItem d _ = ⊥

  AreItems : Fields → StructDef → Type 0
  AreItems no_fields (structdef nil size) = Unit
  AreItems (field key x fs) (structdef (cons d ds) size) =
      (get_name d ≡ key) × IsItem d x × AreItems fs (structdef ds size)
  AreItems _ _ = ⊥

-- The type is that of the value, which fits the format.
abbrev pub IsData : DataTypeDef → Scalar → Type 0
IsData d (complex re im) = (class_of d ≡ typeid_complexdouble) × (re < 2 ^ 64) × (im < 2 ^ 64)
IsData d x = IsItem d x

set_field-fresh :
    (key : Bytes) (x : Scalar) (me : Fields)
    → find_field key me ≡ none
    → set_field key x me ≡ append_fields me (field key x no_fields)
unfolding set_field find_field
set_field-fresh key x no_fields h = refl
set_field-fresh key x (field j w me) h = elim (Bool-cases (eqb_bytes j key)) [
  | inl same ↦ absurd (let found : some w ≡ none = rw same at h in cc)
  | inr other ↦ rw other (ap (field j w) (set_field-fresh key x me (rw other at h)))
]

append_fields_assoc :
    (me : Fields) (key : Bytes) (x : Scalar) (fs : Fields)
    → append_fields (append_fields me (field key x no_fields)) fs
      ≡ append_fields me (field key x fs)
append_fields_assoc no_fields key x fs = refl
append_fields_assoc (field j w me) key x fs = ap (field j w) (append_fields_assoc me key x fs)

append_fields-no_fields : (me : Fields) → append_fields me no_fields ≡ me
append_fields-no_fields no_fields = refl
append_fields-no_fields (field j w me) = ap (field j w) (append_fields-no_fields me)

mutual
  unfolding item_deserialize encode_data new_scalar int32_deserialize double_deserialize

  item_deserialize-encode_data :
      (x : Scalar) (d : DataTypeDef) (buf : Bytes) (p : ℕ)
      → IsItem d x
      → At buf p (encode_data x)
      → item_deserialize d buf p ≡ ok (x, length (encode_data x))
  item_deserialize-encode_data (int32 v) (datatypedef id name typeid props sd size) buf p (e, fit)
        at =
      rw (e, get_int32-encode_int buf p v fit at, length-encode_int)
  item_deserialize-encode_data (double bits) (datatypedef id name typeid props sd size) buf p
        (e, fit) at =
      rw (e, get_double-At buf p bits fit at, length-to_be)
  item_deserialize-encode_data (struct fs) (datatypedef id name typeid props sd size) buf p
        (e, fit, fresh) at =
      rw (e, fields_deserialize-encode_fields fs sd buf p fit fresh at) refl
  item_deserialize-encode_data _ d buf p h at = absurd h

  fields_deserialize-encode_fields :
      (fs : Fields) (sd : StructDef) (buf : Bytes) (p : ℕ)
      → AreItems fs sd
      → Fresh no_fields fs
      → At buf p (encode_fields fs)
      → fields_deserialize sd buf p ≡ ok (fs, length (encode_fields fs))
  fields_deserialize-encode_fields no_fields null buf p fit fresh at = absurd fit
  fields_deserialize-encode_fields (field key x fs) null buf p fit fresh at = absurd fit
  fields_deserialize-encode_fields no_fields (structdef ds size) buf p fit fresh at =
      items_deserialize-encode_fields no_fields ds size no_fields buf p fit fresh at
  fields_deserialize-encode_fields (field key x fs) (structdef ds size) buf p fit fresh at =
      items_deserialize-encode_fields (field key x fs) ds size no_fields buf p fit fresh at

  items_deserialize-encode_fields :
      (fs : Fields) (ds : Children) (size : ℕ) (me : Fields) (buf : Bytes) (p : ℕ)
      → AreItems fs (structdef ds size)
      → Fresh me fs
      → At buf p (encode_fields fs)
      → items_deserialize ds me buf p ≡ ok (append_fields me fs, length (encode_fields fs))
  items_deserialize-encode_fields no_fields nil size me buf p fit fresh at =
      ap (λ fs. ok (fs, 0)) (sym (append_fields-no_fields me))
  items_deserialize-encode_fields no_fields (cons d ds) size me buf p fit fresh at = absurd fit
  items_deserialize-encode_fields (field key x fs) nil size me buf p fit fresh at = absurd fit
  items_deserialize-encode_fields (field key x fs) (cons d ds) size me buf p (name, item, fit)
        (new, fresh) at =
      let (here, behind) = At-then buf p (encode_data x) (encode_fields fs) _ at refl in
      rw
        (
          item_deserialize-encode_data x d buf p item here,
          name,
          set_field-fresh key x me new,
          items_deserialize-encode_fields fs ds size (append_fields me (field key x no_fields)) buf
              (p + length (encode_data x)) fit fresh behind,
          append_fields_assoc me key x fs,
        )
        (ap (λ n. ok (append_fields me (field key x fs), n))
          (sym (length-append (encode_data x) (encode_fields fs))))

-- A number, or a struct of numbers and structs with distinct names, is read back by its type, and all
-- of it is taken.
pub deserialize_data-encode_data :
    (d : DataTypeDef) (x : Scalar) (buf : Bytes) (p : ℕ)
    → IsData d x
    → At buf p (encode_data x)
    → deserialize_data d buf p ≡ ok (x, length (encode_data x))
unfolding deserialize_data encode_data int32_deserialize double_deserialize complex_data struct_data
deserialize_data-encode_data (datatypedef id name typeid props sd size) (int32 v) buf p (e, fit)
      at =
    rw (e, get_int32-encode_int buf p v fit at, length-encode_int)
deserialize_data-encode_data (datatypedef id name typeid props sd size) (double bits) buf p (e, fit)
      at =
    rw (e, get_double-At buf p bits fit at, length-to_be)
deserialize_data-encode_data (datatypedef id name typeid props sd size) (complex re im) buf p
      (e, fit, fit') at =
    let (first, second) =
      At-then buf p (to_be 8 re) (to_be 8 im) (p + 8) at (omega (arith, length-to_be 8 re)) in
    let both : 16 ≡ length (to_be 8 re ++ to_be 8 im) =
      omega
        (arith, length-append (to_be 8 re) (to_be 8 im), length-to_be 8 re, length-to_be 8 im) in
    rw (e, get_double-At buf p re fit first, get_double-At buf (p + 8) im fit' second)
      (ap (λ n. ok (complex re im, n)) both)
deserialize_data-encode_data (datatypedef id name typeid props sd size) (struct fs) buf p
      (e, fit, fresh) at =
    rw (e, fields_deserialize-encode_fields fs sd buf p fit fresh at) refl
deserialize_data-encode_data d (int8 v) buf p h at = absurd h
deserialize_data-encode_data d (string s) buf p h at = absurd h

-- The class of the type is made.
pub new_scalar-IsData :
    (d : DataTypeDef) (x : Scalar)
    → IsData d x
    → (cls : ScalarClass) × (new_scalar (class_of d) ≡ ok cls)
unfolding new_scalar
new_scalar-IsData d (int32 v) (e, fit) = (int32_scalar, rw e refl)
new_scalar-IsData d (double bits) (e, fit) = (double_scalar, rw e refl)
new_scalar-IsData d (complex re im) (e, fit, fit') = (complex_scalar, rw e refl)
new_scalar-IsData d (struct fs) (e, fit, fresh) = (struct_scalar, rw e refl)
new_scalar-IsData d (int8 v) h = absurd h
new_scalar-IsData d (string s) h = absurd h
