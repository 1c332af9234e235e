-- ===== src/Tests/Bindings.antt =====
-- The Python bindings on small values.
use libpsf.Prelude.{◌≡◌, refl, true, false, some, none, List, [], ◌∷◌, arith}
use libpsf.Prelude.Int.{pos, negsuc}
use libpsf.Prelude.Assoc.{bytes_eq}
use libpsf.Outcome.{ok, ◌>>=◌}
use libpsf.Buffer.{Bytes, codes}
use libpsf.Scalar.{
  Scalar, int8, int32, double, string, struct, no_fields, field, int_to_double, double_of, normal,
  to_double, to_int,
}
use libpsf.Scalar.Doubles.{to_double-to_int}
use libpsf.Scalar.Text.{decimal, to_int-decimal}
use libpsf.TypeDef.{null}
use libpsf.Vector.{Vector, VectorStruct}
use libpsf.Python.{
  Converted, c_string, scalar_to_python, struct_objects, set_items, place, map_order, propmap_items,
  propmap_to_python, doubles, first_at, vector_to_numpyarray, vectorstruct_items,
  vectorstruct_to_python,
}
use libpsf.Python.Scalars.{IsConvertible, ObjectIff, scalar_to_python-ObjectIff}
use libpsf.Python.Dicts.{Holds, propmap_to_python-Holds, last_entry}
use libpsf.Python.Order.{InMapOrder}
use libpsf.Python.Vectors.{
  IsOwned, vector_to_numpyarray-IsOwned, array_value, vectorstruct_to_python-Holds,
  vector_to_numpyarray-AreDicts, AreDicts,
}
use libpsf.Python.{py_get_header_properties}
use libpsf.Python.Methods.{py_get_header_properties-Holds}
use libpsf.Prelude.{◌++◌, map}
use libpsf.Scalar.{Fields}
use libpsf.Python.{structs}
use libpsf.Prelude.Int.{to_int32}
use libpsf.Prelude.Assoc.{insert}
use libpsf.Buffer.{get_int32, get_uint32, read_bytes, from_be}
use libpsf.Buffer.Words.{to_be}
use libpsf.Scalar.{string_deserialize, padding, int32_deserialize}
use libpsf.Chunk.{chunk_deserialize, deserialize_child}
use libpsf.Property.{Property, PropertyBlock, property_deserialize, ischunk, append_prop, copied}
use libpsf.Property.Lookup.{last_value}
use libpsf.Container.{simple_deserialize, children_loop}
use libpsf.Trace.{header_factory, header_deserialize}
use libpsf.File
use libpsf.File.{new_file}
use libpsf.DataSet
use libpsf.DataSet.{DataSet}
use libpsf.Samples.{int_prop, word}
use libpsf.Tests.Interpreter.{
  PyValue, py_float, py_int, py_dict, py_doubles, item, no_items, py_values, values_of, interpreter,
  dict_laws,
}

to_int-decimal_example :
    (to_int (string (decimal (negsuc 41))) ≡ to_int (int32 (negsuc 41)))
    × (to_int (int32 (negsuc 41)) ≡ ok (negsuc 41))
to_int-decimal_example = to_int-decimal (negsuc 41) (omega arith, omega arith)

-- The doubles of 1 and -3 are 0x3FF0000000000000 and 0xC008000000000000.
one_double : int_to_double (pos 1) ≡ 4607182418800017408
unfolding int_to_double double_of normal
one_double = refl

minus_three_double : int_to_double (negsuc 2) ≡ 13837309855095848960
unfolding int_to_double double_of normal
minus_three_double = refl

to_double-to_int_example :
    (do value ← to_double (λ s. 0) (int32 (negsuc 41)); to_int (double value))
    ≡ to_int (int32 (negsuc 41))
to_double-to_int_example = to_double-to_int (λ s. 0) (int32 (negsuc 41)) (omega arith, omega arith)

-- A struct with a number that the interpreter does not take
abbrev mixed : Scalar
mixed = struct (field (codes "a") (double 7) (field (codes "b") (int8 (pos 3)) no_fields))

scalar_to_python-ObjectIff_example :
    ObjectIff (IsConvertible mixed) (scalar_to_python interpreter mixed)
scalar_to_python-ObjectIff_example = scalar_to_python-ObjectIff interpreter mixed

abbrev props : List (Bytes × Scalar)
props = (codes "a", double 7) ∷ ((codes "b", int32 (pos 3)) ∷ [])

abbrev props_dict : PyValue
props_dict = py_dict (item (codes "b") (py_int (pos 3)) (item (codes "a") (py_float 7) no_items))

made_dict : propmap_to_python interpreter props ≡ ok props_dict
unfolding propmap_to_python map_order place propmap_items scalar_to_python c_string
made_dict = refl

propmap_to_python-Holds_example :
    Holds interpreter dict_laws
      (scalar_to_python interpreter)
      props_dict
      (λ name. last_entry name none (map_order props))
propmap_to_python-Holds_example =
    propmap_to_python-Holds interpreter dict_laws props props_dict made_dict

abbrev volts : Vector
volts = record { init = double 0; definition = null; values = double 1 ∷ (double 2 ∷ []) }

abbrev volts_array : Converted interpreter
volts_array = record { object = some (py_doubles (1 ∷ (2 ∷ []))); shared = true; deleted = false }

made_array : vector_to_numpyarray interpreter (some volts) false ≡ ok volts_array
unfolding vector_to_numpyarray doubles first_at
made_array = refl

vector_to_numpyarray-IsOwned_example : IsOwned interpreter (some volts) false volts_array
vector_to_numpyarray-IsOwned_example =
    vector_to_numpyarray-IsOwned interpreter (some volts) false volts_array made_array

abbrev columns : VectorStruct
columns = record { vectors = (codes "re", volts) ∷ []; n = 2 }

abbrev columns_dict : PyValue
columns_dict = py_dict (item (codes "re") (py_doubles (1 ∷ (2 ∷ []))) no_items)

made_columns : vectorstruct_to_python interpreter columns ≡ ok columns_dict
unfolding vectorstruct_to_python map_order place vectorstruct_items vector_to_numpyarray doubles
    first_at c_string
made_columns = refl

vectorstruct_to_python-Holds_example :
    (order : List (Bytes × Vector)) × InMapOrder order columns.vectors
    × Holds interpreter dict_laws
        (array_value interpreter)
        columns_dict
        (λ name. last_entry name none order)
vectorstruct_to_python-Holds_example =
    vectorstruct_to_python-Holds interpreter dict_laws columns columns_dict made_columns

-- A header with one property, and a data set that has read it
abbrev sweeps_prop : Property
sweeps_prop = int_prop (codes "PSF sweeps") (pos 1)

-- The copy of it that the header keeps
abbrev read_prop : Property
read_prop = record sweeps_prop { chunktype = negsuc 0 }

abbrev header_bytes : Bytes
header_bytes =
    word 21 ++ (word 32 ++ (word 34 ++ (word 10 ++ (codes "PSF sweeps" ++ (0 ∷ (0 ∷ word 1))))))

abbrev header : PropertyBlock
header = record { proplist = read_prop ∷ []; propmap = (codes "PSF sweeps", int32 (pos 1)) ∷ [] }

header_read : header_deserialize header_bytes 0 0 ≡ ok (header, 32)
unfolding copied header_deserialize header_factory simple_deserialize children_loop
    chunk_deserialize deserialize_child get_int32 get_uint32 read_bytes from_be to_be to_int32
    property_deserialize ischunk string_deserialize padding int32_deserialize append_prop insert
header_read = refl

abbrev set : DataSet
set = record {
  psf = record (new_file (codes "op")) { header = some header; is_open = true };
  filename = codes "op";
  invertstruct = false;
  is_open = true;
}

abbrev header_dict : PyValue
header_dict = py_dict (item (codes "PSF sweeps") (py_int (pos 1)) no_items)

header_made : py_get_header_properties interpreter set ≡ ok header_dict
unfolding py_get_header_properties DataSet.get_header_properties File.get_header_properties
    DataSet.verify_open propmap_to_python map_order place propmap_items scalar_to_python c_string
    new_file
header_made = refl

has_header : set.psf.header ≡ some header
unfolding new_file
has_header = refl

plain_name : c_string sweeps_prop.name ≡ sweeps_prop.name
unfolding c_string
plain_name = refl

py_get_header_properties-Holds_example :
    Holds interpreter dict_laws
      (scalar_to_python interpreter)
      header_dict
      (λ name. last_value name none (read_prop ∷ []))
py_get_header_properties-Holds_example =
    py_get_header_properties-Holds interpreter dict_laws set header header_bytes 0 0 32 header_dict
      has_header header_read (plain_name, tt) header_made

-- A vector of one struct
abbrev fields : Fields
fields = field (codes "gm") (double 5) no_fields

abbrev structs_array : Converted interpreter
structs_array = record {
  object = some (py_values (values_of (py_dict (item (codes "gm") (py_float 5) no_items) ∷ [])));
  shared = false;
  deleted = true;
}

made_structs :
    vector_to_numpyarray interpreter
      (some
        (record { init = struct no_fields; definition = null; values = map struct (fields ∷ []) }))
      true
    ≡ ok structs_array
unfolding vector_to_numpyarray structs struct_objects place set_items scalar_to_python c_string
made_structs = refl

vector_to_numpyarray-AreDicts_example :
    (os : List PyValue) × (structs_array.object ≡ some (py_values (values_of os)))
    × AreDicts interpreter dict_laws os (fields ∷ [])
vector_to_numpyarray-AreDicts_example =
    vector_to_numpyarray-AreDicts interpreter dict_laws null no_fields (fields ∷ []) true
      structs_array made_structs
