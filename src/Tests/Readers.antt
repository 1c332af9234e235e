-- ===== src/Tests/Readers.antt =====
-- Types, properties and strings that are encoded and read back.
use libpsf.Prelude.{ℕ, ◌+◌, ◌*◌, ◌^◌, ◌<◌, All, ◌≡◌, refl, none, List, [], ◌∷◌, ◌++◌, length, arith}
use libpsf.Prelude.Int.{pos, to_int32, to_word, InInt}
use libpsf.Outcome.{ok, Yields, or_throw, property_not_found}
use libpsf.Buffer.{Bytes, codes, get_int32, get_uint32, read_bytes, from_be}
use libpsf.Buffer.At.{At, At-whole}
use libpsf.Buffer.Words.{to_be, encode_int}
use libpsf.Scalar.{padding, string_deserialize}
use libpsf.Scalar.Strings.{encode_string, string_deserialize-encode_string}
use libpsf.Property.{Property, PropertyBlock, empty_block, find, block_deserialize, ischunk}
use libpsf.Property.RoundTrip.{
  IsProperty, type_of, append_all, encode_all, encode_property, encode_value, Ends,
  block_deserialize-encode_all,
}
use libpsf.Property.Lookup.{
  find-block_deserialize, block_deserialize-AreAppended, AreAppended, last_value,
}
use libpsf.Property.Fuel.{block_deserialize-Yields, Extends}
use libpsf.TypeDef
use libpsf.TypeDef.{
  DataTypeDef, datatypedef, null, structdef, nil, cons, psfdata_size, datasize, deserialize_data,
}
use libpsf.TypeDef.Encode.{encode_def, IsEncodable}
use libpsf.TypeDef.RoundTrip.{deserialize-encode_def}
use libpsf.TypeDef.Fuel.{IsSized, DefRead}
use libpsf.TypeDef.Fuel
use libpsf.TypeDef.Values.{deserialize_data-Yields, data_complexes}
use libpsf.Samples.{word, int_prop, text_prop}

-- A struct of a double and of a complex number
abbrev point_type : DataTypeDef
point_type =
    datatypedef (pos 3) (codes "point") (pos 16) empty_block
      (structdef
        (cons (datatypedef (pos 1) (codes "x") (pos 11) empty_block null 8)
          (cons (datatypedef (pos 2) (codes "z") (pos 12) empty_block null 16) nil))
        24)
      24

abbrev types_file : Bytes
types_file = encode_def point_type ++ word 18

small : (n : ℕ) → n < 2 ^ 31 → InInt (pos n)
small n h = (h, omega arith)

encodable : IsEncodable point_type
unfolding psfdata_size
encodable = (
  small 3 (omega arith),
  omega arith,
  small 16 (omega arith),
  (tt, refl),
  (
    refl,
    refl,
    (
      (small 1 (omega arith), omega arith, small 11 (omega arith), (tt, refl), refl),
      (
        16,
        refl,
        (
          (small 2 (omega arith), omega arith, small 12 (omega arith), (tt, refl), refl),
          (0, refl, refl),
        ),
      ),
    ),
  ),
)

at_types : At types_file 0 (encode_def point_type)
at_types = At-whole [] (encode_def point_type) (word 18)

ends : Ends types_file (0 + length (encode_def point_type)) (pos 18)
unfolding ischunk encode_def encode_string encode_int to_word to_be get_int32 get_uint32 read_bytes
    from_be to_int32 padding
ends = (refl, refl)

deserialize-encode_def_example :
    TypeDef.deserialize types_file 0 ≡ ok (point_type, length (encode_def point_type))
deserialize-encode_def_example =
    deserialize-encode_def point_type types_file 0 (pos 18) encodable at_types ends

sized : IsSized point_type
unfolding psfdata_size
sized = (refl, refl, (refl, (16, refl, (refl, (0, refl, refl)))))

deserialize_data-Yields_example :
    Yields
      (λ (v, n). n + 8 * data_complexes point_type ≡ datasize point_type)
      (deserialize_data point_type (to_be 8 1 ++ (to_be 8 2 ++ to_be 8 3)) 0)
deserialize_data-Yields_example =
    deserialize_data-Yields point_type (to_be 8 1 ++ (to_be 8 2 ++ to_be 8 3)) 0 sized

deserialize-Yields_example : Yields (DefRead types_file 0) (TypeDef.deserialize types_file 0)
deserialize-Yields_example = Fuel.deserialize-Yields types_file 0

abbrev props : List Property
props = int_prop (codes "n") (pos 7) ∷ (text_prop (codes "key") (codes "node") ∷ [])

abbrev block_file : Bytes
block_file = encode_all props ++ word 18

are_properties : All IsProperty props
are_properties = ((omega arith, small 7 (omega arith)), ((omega arith, omega arith), tt))

at_props : At block_file 0 (encode_all props)
at_props = At-whole [] (encode_all props) (word 18)

props_end : Ends block_file (0 + length (encode_all props)) (pos 18)
unfolding ischunk type_of encode_property encode_value encode_string encode_int to_word to_be
    get_int32 get_uint32 read_bytes from_be to_int32 padding
props_end = (refl, refl)

block_deserialize-AreAppended_example :
    (c : PropertyBlock) × AreAppended empty_block props c
    × (block_deserialize empty_block block_file 0 ≡ ok (c, length (encode_all props)))
block_deserialize-AreAppended_example =
    block_deserialize-AreAppended block_file 0 empty_block props (pos 18) are_properties at_props
      props_end

block_read :
    block_deserialize empty_block block_file 0
    ≡ ok (append_all empty_block props, length (encode_all props))
block_read =
    block_deserialize-encode_all block_file 0 empty_block props (pos 18) are_properties at_props
      props_end

find-block_deserialize_example :
    find (append_all empty_block props) (codes "key")
    ≡ or_throw
        (last_value (codes "key") none (append_all empty_block props).proplist)
        property_not_found
find-block_deserialize_example =
    find-block_deserialize block_file 0 (codes "key") {n = length (encode_all props)} block_read

block_deserialize-Yields_example :
    Yields (Extends block_file 0 empty_block) (block_deserialize empty_block block_file 0)
block_deserialize-Yields_example = block_deserialize-Yields empty_block block_file 0

string_file : At (encode_string (codes "time") ++ word 1) 0 (encode_string (codes "time"))
string_file = At-whole [] (encode_string (codes "time")) (word 1)

string_deserialize-encode_string_example :
    string_deserialize (encode_string (codes "time") ++ word 1) 0
    ≡ ok (codes "time", length (encode_string (codes "time")))
string_deserialize-encode_string_example =
    string_deserialize-encode_string (encode_string (codes "time") ++ word 1) 0 (codes "time")
      (omega arith) string_file
