-- ===== src/Python.antt =====
-- The conversions of bindings/python/psfpython.cc, and the methods of its class PSFDataSet. The
-- interpreter with NumPy is a parameter: its objects, and what it makes of a number, a C string, a
-- list, a dictionary and the elements of an array.
pub mod Scalars
pub mod Dicts
pub mod Order
pub mod Vectors
pub mod Methods
pub mod Written
use libpsf.Prelude.{
  ℕ, Bool, true, false, ◌&&◌, ◌||◌, ltb, Option, none, some, List, [], ◌∷◌, ◌++◌, map, eqb,
  if◌then◌else◌,
}
use libpsf.Prelude.Int.{ℤ}
use libpsf.Outcome.{
  Error, incorrect_chunk, unknown_type, not_found, file_open_error, not_implemented, undefined,
  out_of_range, Result, ok, err, ◌>>=◌, or_throw,
}
use libpsf.Buffer.{Bytes, codes}
use libpsf.Scalar.{Scalar, int8, int32, double, complex, string, struct, Fields, no_fields, field}
use libpsf.Scalar.Text.{decimal}
use libpsf.Vector.{Vector, VectorStruct}
use libpsf.DataSet
use libpsf.DataSet.{DataSet, Signal, null_signal, scalar, vector, vectors}

-- `dict_set_item` gives the dictionary after the call. A key is an object.
pub record Interpreter : Type 1 where
  pub Object : Type 0
  pub py_none : Object
  pub float_from_double : ℕ → Object
  pub int_from_long : ℤ → Object
  pub string_from_string : Bytes → Object
  pub list_of : List Object → Object
  pub dict_new : Object
  pub dict_set_item : Object → Object → Object → Object
  pub double_array : List ℕ → Object
  pub cdouble_array : List (ℕ × ℕ) → Object
  pub object_array : List Object → Object

-- `s.c_str()`, as the interpreter reads it: up to the first NUL
unfoldable pub c_string : Bytes → Bytes
c_string [] = []
c_string (c ∷ cs) = let rest = c_string cs in if eqb c 0 then [] else c ∷ rest

-- The order of the keys of a `std::map` of strings, and its iteration
pub less_bytes : Bytes → Bytes → Bool
less_bytes [] [] = false
less_bytes [] (y ∷ ys) = true
less_bytes (x ∷ xs) [] = false
less_bytes (x ∷ xs) (y ∷ ys) = ltb x y || (eqb x y && less_bytes xs ys)

unfoldable pub place {ℓ} : {V : Type ℓ} → Bytes → V → List (Bytes × V) → List (Bytes × V)
unfolding less_bytes
place k v [] = (k, v) ∷ []
place k v ((j, w) ∷ xs) =
    let rest = place k v xs in if less_bytes j k then (j, w) ∷ rest else (k, v) ∷ ((j, w) ∷ xs)

unfoldable pub map_order {ℓ} : {V : Type ℓ} → List (Bytes × V) → List (Bytes × V)
unfolding place
map_order [] = []
map_order ((k, v) ∷ xs) = place k v (map_order xs)

module _ (I : Interpreter) where
  abbrev Object : Type 0
  Object = I.Object

  -- PyDict_SetItem for each item, in order
  unfoldable pub set_items : List (Bytes × Object) → Object → Object
  set_items [] dict = dict
  set_items ((key, value) ∷ items) dict =
      set_items items (I.dict_set_item dict (I.string_from_string (c_string key)) value)

  unfoldable mutual
    unfolding place

    -- psfscalar_to_python
    pub scalar_to_python : Scalar → Result Object
    scalar_to_python (double bits) = ok (I.float_from_double bits)
    scalar_to_python (int32 v) = ok (I.int_from_long v)
    scalar_to_python (string s) = ok (I.string_from_string (c_string s))
    scalar_to_python (struct fs) = do items ← struct_objects fs; ok (set_items items I.dict_new)
    scalar_to_python (int8 v) = err not_implemented
    scalar_to_python (complex re im) = err not_implemented

    -- The loop of Struct_to_python::convert: the objects of the fields, in the order of the keys. All
    -- fields that do not convert throw the same.
    pub struct_objects : Fields → Result (List (Bytes × Object))
    struct_objects no_fields = ok []
    struct_objects (field key x fs) = do
      value ← scalar_to_python x
      items ← struct_objects fs
      ok (place key value items)

  -- PropertyMap_to_python::convert
  unfoldable pub propmap_items : List (Bytes × Scalar) → Object → Result Object
  propmap_items [] dict = ok dict
  propmap_items ((key, x) ∷ props) dict = do
    value ← scalar_to_python x
    propmap_items props (I.dict_set_item dict (I.string_from_string (c_string key)) value)

  unfoldable pub propmap_to_python : List (Bytes × Scalar) → Result Object
  propmap_to_python props = propmap_items (map_order props) I.dict_new

  -- What psfvector_to_numpyarray leaves: the object, or a null pointer; whether the array's data is
  -- the vector's own, and whether the vector was deleted.
  pub record Converted : Type 0 where
    pub object : Option Object
    pub shared : Bool
    pub deleted : Bool

  -- The elements of a vector, read as those of its class
  unfoldable pub doubles : List Scalar → Result (List ℕ)
  doubles [] = ok []
  doubles (double bits ∷ xs) = do rest ← doubles xs; ok (bits ∷ rest)
  doubles (_ ∷ xs) = err undefined

  unfoldable pub cdoubles : List Scalar → Result (List (ℕ × ℕ))
  cdoubles [] = ok []
  cdoubles (complex re im ∷ xs) = do rest ← cdoubles xs; ok ((re, im) ∷ rest)
  cdoubles (_ ∷ xs) = err undefined

  unfoldable pub structs : List Scalar → Result (List Object)
  structs [] = ok []
  structs (struct fs ∷ xs) = do
    items ← struct_objects fs
    rest ← structs xs
    ok (set_items items I.dict_new ∷ rest)
  structs (_ ∷ xs) = err undefined

  -- `&v->at(0)` throws where the vector is empty.
  unfoldable pub first_at : List Scalar → Result Scalar
  first_at [] = err out_of_range
  first_at (x ∷ xs) = ok x

  -- psfvector_to_numpyarray. A vector of another class leaves a null pointer.
  unfoldable pub vector_to_numpyarray : Option Vector → Bool → Result Converted
  vector_to_numpyarray none copy =
      ok (record { object = some I.py_none; shared = false; deleted = false })
  vector_to_numpyarray (some vec) copy = elim vec.init [
    | double bits ↦ do
      at ← first_at vec.values
      xs ← doubles vec.values
      ok (record {
        object = some (I.double_array xs);
        shared = if copy then false else true;
        deleted = copy;
      })
    | complex re im ↦ do
      at ← first_at vec.values
      xs ← cdoubles vec.values
      ok (record {
        object = some (I.cdouble_array xs);
        shared = if copy then false else true;
        deleted = copy;
      })
    | struct fs ↦ do
      xs ← structs vec.values
      ok (record { object = some (I.object_array xs); shared = false; deleted = true })
    | _ ↦ ok (record { object = none; shared = false; deleted = copy })
  ]

  -- vectorstruct_to_python; the dictionary takes no null pointer for a value.
  unfoldable pub vectorstruct_items : List (Bytes × Vector) → Object → Result Object
  vectorstruct_items [] dict = ok dict
  vectorstruct_items ((key, vec) ∷ vs) dict = do
    array ← vector_to_numpyarray (some vec) true
    value ← or_throw array.object undefined
    vectorstruct_items vs (I.dict_set_item dict (I.string_from_string (c_string key)) value)

  unfoldable pub vectorstruct_to_python : VectorStruct → Result Object
  vectorstruct_to_python vs = vectorstruct_items (map_order vs.vectors) I.dict_new

  -- PSFBase_to_numpyarray::convert
  unfoldable pub base_to_python : Signal → Result (Option Object)
  base_to_python null_signal = ok (some I.py_none)
  base_to_python (scalar x) = do o ← scalar_to_python x; ok (some o)
  base_to_python (vector vec) = do c ← vector_to_numpyarray (some vec) true; ok c.object
  base_to_python (vectors vs) = do o ← vectorstruct_to_python vs; ok (some o)

  -- The methods of the class: a call of PSFDataSet, and the conversion of what it returns
  unfoldable pub py_get_signal : DataSet → Bytes → Result (Option Object)
  py_get_signal d name = do s ← DataSet.get_signal d name; base_to_python s

  unfoldable pub py_get_sweep_values : DataSet → Result (Option Object)
  py_get_sweep_values d = do
    vec ← DataSet.get_sweep_values d
    c ← vector_to_numpyarray vec false
    ok c.object

  unfoldable pub py_get_header_properties : DataSet → Result Object
  py_get_header_properties d = do props ← DataSet.get_header_properties d; propmap_to_python props

  unfoldable pub py_get_signal_properties : DataSet → Bytes → Result Object
  py_get_signal_properties d name = do
    props ← DataSet.get_signal_properties d name
    propmap_to_python props

  -- VecToList<std::string>, whose strings are converted whole
  unfoldable pub py_get_signal_names : DataSet → Result Object
  py_get_signal_names d = do
    names ← DataSet.get_signal_names d
    ok (I.list_of (map I.string_from_string names))

  unfoldable pub py_get_sweep_param_names : DataSet → Result Object
  py_get_sweep_param_names d = do
    names ← DataSet.get_sweep_param_names d
    ok (I.list_of (map I.string_from_string names))

-- The exceptions of the interpreter that the translators raise
pub data PyException : Type 0 where
  runtime_error io_error : Bytes → PyException

-- The translators that the module registers; another exception has none.
unfoldable pub translate_exception : Error → Option PyException
translate_exception (incorrect_chunk t) =
    some (runtime_error (codes "Incorrect chunk " ++ decimal t))
translate_exception (unknown_type t) = some (runtime_error (codes "Unknown type " ++ decimal t))
translate_exception not_found = some (runtime_error (codes "Signal not found"))
translate_exception file_open_error = some (io_error (codes "File open error"))
translate_exception _ = none
