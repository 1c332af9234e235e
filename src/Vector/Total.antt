-- ===== src/Vector/Total.antt =====
-- The fuel of the operations on vectors (include/psfdata.h, src/psfdata.cc).
use libpsf.Prelude.{ℕ, ◌+◌, List, All, [], ◌∷◌, length, ltb, Bool-cases, inl, inr}
use libpsf.Prelude.Int.{pos}
use libpsf.Prelude.Assoc.{◌==◌, bytes_eq, insert}
use libpsf.Outcome.{
  undefined, bad_cast, Yields, holds, throws, Yields-bind, Yields-if, Yields-or_throw,
}
use libpsf.Buffer.{Bytes}
use libpsf.Scalar.{Scalar, struct, find_field}
use libpsf.TypeDef.{DataTypeDef, StructDef, null, structdef, Children, nil, cons, get_name}
use libpsf.Trace.Total.{Any}
use libpsf.Vector.Typed.{IsOf, new_vector-IsOf, resize-IsOf, set-IsOf}
use libpsf.Vector.{
  Vector, assign_scalar, same_class, vector_struct, init_from_structdef, field_of, assign_fields,
  copy_vectors,
}

-- Every vector of the map is made by a type, and has values of its own class.
abbrev pub AreMade : List (Bytes × Vector) → Type 0
AreMade = All (λ (key, v). (d : DataTypeDef) × IsOf d v)

insert-AreMade :
    (key : Bytes) (v : Vector) (m : List (Bytes × Vector)) (d : DataTypeDef)
    → IsOf d v
    → AreMade m
    → AreMade (insert key v m)
unfolding insert
insert-AreMade key v [] d h hs = ((d, h), tt)
insert-AreMade key v ((k, w) ∷ m) d h (hw, hs) = elim (Bool-cases (k == key)) [
  | inl same ↦ rw same ((d, h), hs)
  | inr other ↦ rw other (hw, insert-AreMade key v m d h hs)
]

assign_scalar-Yields :
    (d : DataTypeDef) (v : Vector) (i : ℕ) (x : Scalar)
    → IsOf d v
    → Yields (IsOf d) (assign_scalar v i x)
unfolding assign_scalar
assign_scalar-Yields d v i x h =
    Yields-if (same_class v.init x)
      (λ c.
        Yields-if (ltb i (length v.values)) (λ _. holds (set-IsOf d v i x h c))
          (λ _. throws undefined))
      (λ _. throws bad_cast)

init_from_structdef-Yields :
    (ds : Children) (m : List (Bytes × Vector))
    → AreMade m
    → Yields AreMade (init_from_structdef ds m)
unfolding init_from_structdef
init_from_structdef-Yields nil m h = holds h
init_from_structdef-Yields (cons d ds) m h = Yields-bind (new_vector-IsOf d) λ v made.
    init_from_structdef-Yields ds (insert (get_name d) v m)
      (insert-AreMade (get_name d) v m d made h)

field_of-Yields : (key : Bytes) (x : Scalar) → Yields Any (field_of key x)
unfolding field_of
field_of-Yields key (struct fs) = Yields-or_throw (find_field key fs) undefined (λ _ _. tt)
field_of-Yields key _ = throws bad_cast

assign_fields-Yields :
    (d : DataTypeDef) (key : Bytes) (j : ℕ) (ss : List Scalar) (v : Vector)
    → IsOf d v
    → Yields (IsOf d) (assign_fields key j ss v)
unfolding assign_fields
assign_fields-Yields d key j [] v h = holds h
assign_fields-Yields d key j (s ∷ ss) v h = Yields-bind (field_of-Yields key s) λ x _.
    Yields-bind (assign_scalar-Yields d v j x h)
      λ v' made. assign_fields-Yields d key (j + 1) ss v' made

copy_vectors-Yields :
    (structs : List Scalar) (m : List (Bytes × Vector))
    → AreMade m
    → Yields AreMade (copy_vectors structs m)
unfolding copy_vectors
copy_vectors-Yields structs [] h = holds tt
copy_vectors-Yields structs ((key, v) ∷ m) ((d, made), h) =
    Yields-bind (resize-IsOf d v (pos (length structs)) made) λ v₁ made₁.
      Yields-bind (assign_fields-Yields d key 0 structs v₁ made₁) λ v₂ made₂.
        Yields-bind (copy_vectors-Yields structs m h) λ rest all. holds ((d, made₂), all)

vector_struct_of :
    (sd : StructDef) (init : Scalar) (values : List Scalar)
    → Yields
        (λ vs. AreMade vs.vectors)
        (vector_struct (record { init = init; definition = sd; values = values }))
unfolding vector_struct
vector_struct_of null init values = throws undefined
vector_struct_of (structdef children size) init values =
    Yields-bind (init_from_structdef-Yields children [] tt)
      λ m h. Yields-bind (copy_vectors-Yields values m h) λ m' all. holds all

pub vector_struct-Yields : (v : Vector) → Yields (λ vs. AreMade vs.vectors) (vector_struct v)
vector_struct-Yields v = vector_struct_of v.definition v.init v.values
