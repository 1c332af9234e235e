-- ===== src/Vector.antt =====
-- PSFVectorT and VectorStruct of include/psfdata.h and src/psfdata.cc. A vector has the class of its
-- initial value. Only an int8 vector does not state that value, which is then unspecified: 0 here.
pub mod Total
pub mod Fill
pub mod Transpose
pub mod Typed
use libpsf.Prelude.{
  ℕ, zero, suc, ◌+◌, ◌-◌, Bool, true, false, Option, none, some, List, [], ◌∷◌, ◌++◌, length,
  get_elem?, set, replicate, take, leb, ltb, if◌then◌else◌,
}
use libpsf.Prelude.Int.{ℤ, pos, negsuc}
use libpsf.Prelude.Assoc.{◌==◌, int_eq, bytes_eq, insert}
use libpsf.Outcome.{
  Result, ok, err, unknown_type, undefined, bad_cast, out_of_range, length_error, or_throw, ◌>>=◌,
}
use libpsf.Buffer.{Bytes}
use libpsf.Scalar.{
  Scalar, int8, int32, double, complex, string, struct, Fields, no_fields, find_field, typeid_int8,
  typeid_int32, typeid_double, typeid_complexdouble, typeid_struct,
}
use libpsf.TypeDef.{
  DataTypeDef, datatypedef, StructDef, null, structdef, Children, nil, cons, get_name,
}

-- `definition` is the struct definition of a StructVector's initial value.
pub record Vector : Type 0 where
  pub init : Scalar
  pub definition : StructDef
  pub values : List Scalar

abbrev vector_of : Scalar → StructDef → Vector
vector_of init sd = record { init = init; definition = sd; values = [] }

-- DataTypeDef::new_vector
unfoldable pub new_vector : DataTypeDef → Result Vector
new_vector (datatypedef id name typeid props sd size) =
    if typeid == typeid_int8
    then ok (vector_of (int8 (pos 0)) null)
    else if typeid == typeid_int32
    then ok (vector_of (int32 (pos 0)) null)
    else if typeid == typeid_double
    then ok (vector_of (double 0) null)
    else if typeid == typeid_complexdouble
    then ok (vector_of (complex 0 0) null)
    else if typeid == typeid_struct
    then ok (vector_of (struct no_fields) sd)
    else err (unknown_type typeid)

-- std::vector::resize with the initial value; a negative `int` makes a size that is too long.
unfoldable pub resize : Vector → ℤ → Result Vector
resize v (pos n) =
    let extra = replicate (n - length v.values) v.init in
    ok
      (record v { values = if leb n (length v.values) then take n v.values else v.values ++ extra })
resize v (negsuc n) = err length_error

-- `*ptr_at(i) = x`
unfoldable pub store_at : Vector → ℕ → Scalar → Result Vector
store_at v i x =
    if ltb i (length v.values)
    then ok (record v { values = set v.values i x })
    else err out_of_range

-- extend, whose cast wants a vector of the same class
abbrev pub same_class : Scalar → Scalar → Bool
same_class (int8 a) (int8 b) = true
same_class (int32 a) (int32 b) = true
same_class (double a) (double b) = true
same_class (complex a b) (complex c d) = true
same_class (string a) (string b) = true
same_class (struct a) (struct b) = true
same_class _ _ = false

unfoldable pub extend : Vector → Vector → Result Vector
extend v w =
    if same_class v.init w.init
    then ok (record v { values = v.values ++ w.values })
    else err bad_cast

-- assign_scalar: a cast, and then `operator[]`, which checks no bound.
unfoldable pub assign_scalar : Vector → ℕ → Scalar → Result Vector
assign_scalar v i x =
    if same_class v.init x
    then (if ltb i (length v.values)
        then ok (record v { values = set v.values i x })
        else err undefined)
    else err bad_cast

-- A vector for each item of a struct, and their length.
pub record VectorStruct : Type 0 where
  pub vectors : List (Bytes × Vector)
  pub n : ℕ

init_from_structdef : Children → List (Bytes × Vector) → Result (List (Bytes × Vector))
init_from_structdef nil m = ok m
init_from_structdef (cons d ds) m = do
  v ← new_vector d
  init_from_structdef ds (insert (get_name d) v m)

-- The element of a StructVector is a struct, whose item the iterator of `find` gives.
field_of : Bytes → Scalar → Result Scalar
field_of key (struct fs) = or_throw (find_field key fs) undefined
field_of key _ = err bad_cast

assign_fields : Bytes → ℕ → List Scalar → Vector → Result Vector
unfolding field_of
assign_fields key j [] v = ok v
assign_fields key j (s ∷ ss) v = do
  x ← field_of key s
  v' ← assign_scalar v j x
  assign_fields key (j + 1) ss v'

copy_vectors : List Scalar → List (Bytes × Vector) → Result (List (Bytes × Vector))
unfolding assign_fields
copy_vectors structs [] = ok []
copy_vectors structs ((key, v) ∷ m) = do
  v₁ ← resize v (pos (length structs))
  v₂ ← assign_fields key 0 structs v₁
  rest ← copy_vectors structs m
  ok ((key, v₂) ∷ rest)

-- VectorStruct(const StructVector &)
unfoldable pub vector_struct : Vector → Result VectorStruct
unfolding init_from_structdef copy_vectors
vector_struct sv = elim sv.definition [
  | null ↦ err undefined
  | structdef children size ↦ do
    m ← init_from_structdef children []
    m' ← copy_vectors sv.values m
    ok (record { vectors = m'; n = length sv.values })
]
