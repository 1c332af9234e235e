-- ===== src/NonSweep.antt =====
-- NonSweepValue and ValueSectionNonSweep of src/psfnonsweepvalue.cc.
pub mod Total
pub mod RoundTrip
use libpsf.Prelude.{ℕ, ◌+◌, Option, none, some, List, if◌then◌else◌}
use libpsf.Prelude.Int.{ℤ, pos, negsuc}
use libpsf.Prelude.Assoc.{◌==◌, int_eq}
use libpsf.Outcome.{Result, ok, err, incorrect_chunk, undefined, or_throw, ◌>>=◌}
use libpsf.Buffer.{Bytes, Parser, get_int32}
use libpsf.Scalar.{Scalar, string_deserialize}
use libpsf.Chunk.{Factory, chunk_deserialize}
use libpsf.Property.{PropertyBlock, empty_block, block_deserialize}
use libpsf.TypeDef
use libpsf.TypeDef.{DataTypeDef, datatypedef, new_scalar, deserialize_data}
use libpsf.Container.{Indexed, indexed_deserialize, get_child_by_id, get_child_by_name}
use libpsf.Trace.{TypeSection}

pub record NonSweepValue : Type 0 where
  pub id : ℤ
  pub name : Bytes
  pub valuetypeid : ℤ
  pub value : Scalar
  pub properties : PropertyBlock

abbrev typeid_of : DataTypeDef → ℤ
typeid_of (datatypedef id name typeid props sd size) = typeid

-- The class takes any chunk type, since it does not set its own.
unfoldable pub value_deserialize : Option TypeSection → Parser NonSweepValue
value_deserialize types buf p = do
  chunk ← chunk_deserialize (negsuc 0) buf p
  id ← get_int32 buf (p + 4)
  (name, n) ← string_deserialize buf (p + 8)
  valuetypeid ← get_int32 buf (p + 8 + n)
  section ← or_throw types undefined
  def ← get_child_by_id section valuetypeid
  cls ← new_scalar (typeid_of def)
  (value, m) ← deserialize_data def buf (p + 12 + n)
  (props, k) ← block_deserialize empty_block buf (p + 12 + n + m)
  ok (
    record { id = id; name = name; valuetypeid = valuetypeid; value = value; properties = props },
    12 + n + m + k,
  )

unfoldable pub nonsweep_factory : Option TypeSection → Factory NonSweepValue
nonsweep_factory types t =
    if t == pos 16 then ok (some (value_deserialize types)) else err (incorrect_chunk t)

abbrev pub ValueSectionNonSweep : Type 0
ValueSectionNonSweep = Indexed NonSweepValue

-- NonSweepValue has no get_id of its own: every value has the id -1.
unfoldable pub nonsweep_deserialize :
    Option TypeSection → Bytes → ℕ → ℕ → Result (ValueSectionNonSweep × ℤ)
nonsweep_deserialize types =
    indexed_deserialize (λ v. negsuc 0) (λ v. v.name) (negsuc 0) 2 (nonsweep_factory types)

unfoldable pub get_value : ValueSectionNonSweep → Bytes → Result Scalar
get_value s name = do v ← get_child_by_name s name; ok v.value

unfoldable pub get_value_properties : ValueSectionNonSweep → Bytes → Result PropertyBlock
get_value_properties s name = do v ← get_child_by_name s name; ok v.properties
