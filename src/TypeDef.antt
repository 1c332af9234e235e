-- ===== src/TypeDef.antt =====
-- DataTypeDef of src/psftype.cc and StructDef of src/psfstruct.cc: the types of the file, and the
-- values of a type that `deserialize_data` and Struct::deserialize of src/psfdata.cc read.
pub mod Encode
pub mod Fuel
pub mod Values
pub mod RoundTrip
pub mod Numbers
use libpsf.Prelude.{ℕ, zero, suc, ◌+◌, ◌*◌, Option, none, some, length, if◌then◌else◌}
use libpsf.Prelude.Int.{ℤ, pos}
use libpsf.Prelude.Assoc.{◌==◌, int_eq}
use libpsf.Outcome.{Result, ok, err, stuck, incorrect_chunk, unknown_type, undefined, ◌>>=◌}
use libpsf.Buffer.{Bytes, Parser, get_int32, get_double}
use libpsf.Scalar.{
  Scalar, complex, struct, Fields, no_fields, set_field, string_deserialize, int8_deserialize,
  int32_deserialize, double_deserialize, complex_deserialize, typeid_int8, typeid_int32,
  typeid_double, typeid_complexdouble, typeid_struct,
}
use libpsf.Chunk.{chunk_deserialize, Factory, deserialize_child}
use libpsf.Property.{PropertyBlock, empty_block, block_deserialize}

-- The fields m_id, m_name, m_datatypeid, m_properties, m_structdef and _datasize; a StructDef is
-- its children and its _datasize, and `null` the pointer to none.
mutual
  pub data DataTypeDef : Type 0 where
    datatypedef : ℤ → Bytes → ℤ → PropertyBlock → StructDef → ℕ → DataTypeDef

  pub data StructDef : Type 0 where
    null : StructDef
    structdef : Children → ℕ → StructDef

  pub data Children : Type 0 where
    nil : Children
    cons : DataTypeDef → Children → Children

abbrev pub get_id : DataTypeDef → ℤ
get_id (datatypedef id name typeid props sd size) = id

abbrev pub get_name : DataTypeDef → Bytes
get_name (datatypedef id name typeid props sd size) = name

abbrev pub get_properties : DataTypeDef → PropertyBlock
get_properties (datatypedef id name typeid props sd size) = props

abbrev pub datasize : DataTypeDef → ℕ
datasize (datatypedef id name typeid props sd size) = size

unfoldable pub psfdata_size : ℤ → Result ℕ
psfdata_size typeid =
    if typeid == typeid_int8
    then ok 4
    else if typeid == typeid_int32
    then ok 4
    else if typeid == typeid_double
    then ok 8
    else if typeid == typeid_complexdouble
    then ok 16
    else err (unknown_type typeid)

-- StructDef::child_factory: 18 ends the struct.
unfoldable pub struct_factory : Parser DataTypeDef → Factory DataTypeDef
struct_factory def t =
    if t == pos 16 then ok (some def) else if t == pos 18 then ok none else err (incorrect_chunk t)

-- The branch on m_datatypeid: the struct that follows, or no struct, and the size.
unfoldable pub sized_part :
    (Bytes → ℕ → Result (Children × ℕ × ℕ)) → ℤ → Bytes → ℕ → Result (StructDef × ℕ × ℕ)
sized_part read_struct typeid buf p =
    if typeid == typeid_struct
    then (do (children, size, m) ← read_struct buf p; ok (structdef children size, size, m))
    else (do size ← psfdata_size typeid; ok (null, size, 0))

-- The two classes call one another, one level of nesting deeper at each call: on fuel. The loop
-- over the children of a struct gives them with the sum of their sizes.
unfoldable mutual
  pub def_deserialize : ℕ → Parser DataTypeDef
  def_deserialize zero buf p = stuck
  def_deserialize (suc fuel) buf p = do
    chunk ← chunk_deserialize (pos 16) buf p
    id ← get_int32 buf (p + 4)
    (name, n) ← string_deserialize buf (p + 8)
    arraytype ← get_int32 buf (p + 8 + n)
    typeid ← get_int32 buf (p + 12 + n)
    (sd, size, m) ← sized_part (struct_deserialize fuel) typeid buf (p + 16 + n)
    (props, k) ← block_deserialize empty_block buf (p + 16 + n + m)
    ok (datatypedef id name typeid props sd size, 16 + n + m + k)

  pub struct_deserialize : ℕ → Bytes → ℕ → Result (Children × ℕ × ℕ)
  struct_deserialize zero buf p = stuck
  struct_deserialize (suc fuel) buf p = do
    (child, n) ← deserialize_child (struct_factory (def_deserialize fuel)) buf p
    elim child [
      | none ↦ ok (nil, 0, n)
      | some d ↦ do
        (children, size, m) ← struct_deserialize fuel buf (p + n)
        ok (cons d children, datasize d + size, n + m)
    ]

-- DataTypeDef::deserialize. A level of nesting takes sixteen bytes and more of the file.
unfoldable pub deserialize : Parser DataTypeDef
unfolding def_deserialize
deserialize buf p = def_deserialize (2 * length buf + 1) buf p

-- The classes of scalars that `new_scalar` makes.
pub data ScalarClass : Type 0 where
  int8_scalar int32_scalar double_scalar complex_scalar struct_scalar : ScalarClass

unfoldable pub new_scalar : ℤ → Result ScalarClass
new_scalar typeid =
    if typeid == typeid_int8
    then ok int8_scalar
    else if typeid == typeid_int32
    then ok int32_scalar
    else if typeid == typeid_double
    then ok double_scalar
    else if typeid == typeid_complexdouble
    then ok complex_scalar
    else if typeid == typeid_struct
    then ok struct_scalar
    else err (unknown_type typeid)

-- Struct::deserialize: each item is made by its definition's `new_scalar` and reads itself. The
-- struct of an item has that item's m_structdef.
unfoldable mutual
  pub item_deserialize : DataTypeDef → Parser Scalar
  item_deserialize (datatypedef id name typeid props sd size) buf p = do
    cls ← new_scalar typeid
    elim cls [
      | int8_scalar ↦ int8_deserialize buf p
      | int32_scalar ↦ int32_deserialize buf p
      | double_scalar ↦ double_deserialize buf p
      | complex_scalar ↦ complex_deserialize buf p
      | struct_scalar ↦ do (fs, n) ← fields_deserialize sd buf p; ok (struct fs, n)
    ]

  pub fields_deserialize : StructDef → Parser Fields
  fields_deserialize null buf p = err undefined
  fields_deserialize (structdef children size) buf p = items_deserialize children no_fields buf p

  pub items_deserialize : Children → Fields → Parser Fields
  items_deserialize nil me buf p = ok (me, 0)
  items_deserialize (cons d ds) me buf p = do
    (v, n) ← item_deserialize d buf p
    (fs, m) ← items_deserialize ds (set_field (get_name d) v me) buf (p + n)
    ok (fs, n + m)

unfoldable pub complex_data : Parser Scalar
complex_data buf p = do re ← get_double buf p; im ← get_double buf (p + 8); ok (complex re im, 16)

unfoldable pub struct_data : StructDef → Parser Scalar
struct_data sd buf p = do (fs, n) ← fields_deserialize sd buf p; ok (struct fs, n)

-- DataTypeDef::deserialize_data, into a value that the same definition made.
unfoldable pub deserialize_data : DataTypeDef → Parser Scalar
unfolding complex_data struct_data
deserialize_data (datatypedef id name typeid props sd size) buf p =
    if typeid == typeid_int8
    then int8_deserialize buf p
    else if typeid == typeid_int32
    then int32_deserialize buf p
    else if typeid == typeid_double
    then double_deserialize buf p
    else if typeid == typeid_complexdouble
    then complex_data buf p
    else if typeid == typeid_struct
    then struct_data sd buf p
    else err (unknown_type typeid)
