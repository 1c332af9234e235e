-- ===== src/Python/Scalars.antt =====
-- psfscalar_to_python of bindings/python/psfpython.cc: the scalars that the interpreter takes.
use libpsf.Prelude.{List, [], ◌∷◌}
use libpsf.Outcome.{Result, ok, err, not_implemented, ◌>>=◌}
use libpsf.Buffer.{Bytes}
use libpsf.Scalar.{Scalar, int8, int32, double, complex, string, struct, Fields, no_fields, field}
use libpsf.Python.{Interpreter, scalar_to_python, struct_objects, set_items, place}

-- No int8 and no complex number, at any depth
abbrev mutual
  pub IsConvertible : Scalar → Type 0
  IsConvertible (int8 v) = ⊥
  IsConvertible (int32 v) = Unit
  IsConvertible (double bits) = Unit
  IsConvertible (complex re im) = ⊥
  IsConvertible (string s) = Unit
  IsConvertible (struct fs) = AreConvertible fs

  pub AreConvertible : Fields → Type 0
  AreConvertible no_fields = Unit
  AreConvertible (field key x fs) = IsConvertible x × AreConvertible fs

-- An object where `P` holds, and NotImplemented where it does not
pub data ObjectIff {ℓ} (P : Type 0) {A : Type ℓ} : Result A → Type ℓ where
  object_made : P → (o : A) → ObjectIff P (ok o)
  refused : ¬ P → ObjectIff P (err not_implemented)

module _ (I : Interpreter) where
  ObjectIff-bind :
      {A B : Type 0} {P Q : Type 0} {r : Result A} {next : A → Result B}
      → ObjectIff P r
      → ((o : A) → ObjectIff Q (next o))
      → ObjectIff (P × Q) (r >>= next)
  ObjectIff-bind {B} {P} {Q} (object_made p o) h = both (h o)
    where
      both : {r : Result B} → ObjectIff Q r → ObjectIff (P × Q) r
      both (object_made q o) = object_made (p, q) o
      both (refused n) = refused (λ (p, q). n q)
  ObjectIff-bind (refused n) h = refused (λ (p, q). n p)

  ObjectIff-map :
      {A B : Type 0} {P : Type 0} {r : Result A} (f : A → B)
      → ObjectIff P r
      → ObjectIff P (do a ← r; ok (f a))
  ObjectIff-map f (object_made p o) = object_made p (f o)
  ObjectIff-map f (refused n) = refused n

  mutual
    unfolding scalar_to_python struct_objects

    scalar_ObjectIff : (x : Scalar) → ObjectIff (IsConvertible x) (scalar_to_python I x)
    scalar_ObjectIff (int8 v) = refused (λ h. absurd h)
    scalar_ObjectIff (int32 v) = object_made tt (I.int_from_long v)
    scalar_ObjectIff (double bits) = object_made tt (I.float_from_double bits)
    scalar_ObjectIff (complex re im) = refused (λ h. absurd h)
    scalar_ObjectIff (string s) = object_made tt _
    scalar_ObjectIff (struct fs) =
        ObjectIff-map (λ items. set_items I items I.dict_new) (fields_ObjectIff fs)

    fields_ObjectIff : (fs : Fields) → ObjectIff (AreConvertible fs) (struct_objects I fs)
    fields_ObjectIff no_fields = object_made tt []
    fields_ObjectIff (field key x fs) =
        ObjectIff-bind (scalar_ObjectIff x) (λ o. ObjectIff-map (place key o) (fields_ObjectIff fs))

  -- A scalar becomes an object exactly where it is no int8 and no complex number, nor a struct that
  -- holds one at any depth; any other scalar throws NotImplemented.
  pub scalar_to_python-ObjectIff : (x : Scalar) → ObjectIff (IsConvertible x) (scalar_to_python I x)
  scalar_to_python-ObjectIff x = scalar_ObjectIff x

  -- The fields of a struct, as the entries of its map
  abbrev pub entries : Fields → List (Bytes × Scalar)
  entries no_fields = []
  entries (field key x fs) = (key, x) ∷ entries fs
