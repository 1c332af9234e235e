-- ===== src/Vector/Typed.antt =====
-- The class of a vector's values (include/psfdata.h, src/psftype.cc): the vector that a type makes
-- holds values as that type reads them.
use libpsf.Prelude.{
  ℕ, zero, suc, ◌+◌, ◌*◌, ◌-◌, ◌≡◌, refl, sym, Bool, true, false, List, [], ◌∷◌, ◌++◌, All, length,
  set, replicate, take, leb, ltb, arith, if◌then◌else◌,
}
use libpsf.Prelude.Int.{ℤ, pos, negsuc, to_int8}
use libpsf.Prelude.Assoc.{int_eq}
use libpsf.Outcome.{
  ok, out_of_range, length_error, Yields, holds, throws, Yields-of, Yields-if, Yields-eq,
  Yields-weaken, >>=-ok,
}
use libpsf.Buffer.{Bytes, byte_at, get_int32, get_double}
use libpsf.Scalar.{
  Scalar, int8, int32, double, complex, string, struct, no_fields, int8_deserialize,
  int32_deserialize, double_deserialize,
}
use libpsf.TypeDef.{
  DataTypeDef, datatypedef, StructDef, datasize, fields_deserialize, complex_data, struct_data,
  deserialize_data,
}
use libpsf.TypeDef.Fuel.{IsSized}
use libpsf.TypeDef.Values.{data_complexes, deserialize_data-Yields}
use libpsf.Vector.Fill.{new_vector-empty}
use mathlib.Core.Path.{subst}
use libpsf.Vector.{Vector, vector_of, new_vector, resize, store_at, same_class}

-- A value of the class of the vector, as the cast to that class would find
abbrev pub IsClass : Vector → Scalar → Type 0
IsClass v x = same_class v.init x ≡ true

abbrev pub IsUniform : Vector → Type 0
IsUniform v = All (IsClass v) v.values

-- A vector that the type makes, with values of its own class only
pub record IsOf (d : DataTypeDef) (v : Vector) : Type 0 where
  pub made : new_vector d ≡ ok (vector_of v.init v.definition)
  pub uniform : IsUniform v

module _ (P : Scalar → Type 0) where
  All-append : (xs ys : List Scalar) → All P xs → All P ys → All P (xs ++ ys)
  All-append [] ys _ h = h
  All-append (x ∷ xs) ys (p, ps) h = (p, All-append xs ys ps h)

  All-take : (n : ℕ) (xs : List Scalar) → All P xs → All P (take n xs)
  All-take zero xs h = tt
  All-take (suc n) [] h = tt
  All-take (suc n) (x ∷ xs) (p, ps) = (p, All-take n xs ps)

  All-replicate : (n : ℕ) (x : Scalar) → P x → All P (replicate n x)
  All-replicate zero x p = tt
  All-replicate (suc n) x p = (p, All-replicate n x p)

  All-set : (xs : List Scalar) (i : ℕ) (x : Scalar) → All P xs → P x → All P (set xs i x)
  All-set [] i x h p = tt
  All-set (y ∷ ys) zero x (q, qs) p = (p, qs)
  All-set (y ∷ ys) (suc i) x (q, qs) p = (q, All-set ys i x qs p)

same_class_refl : (x : Scalar) → same_class x x ≡ true
same_class_refl (int8 a) = refl
same_class_refl (int32 a) = refl
same_class_refl (double a) = refl
same_class_refl (complex a b) = refl
same_class_refl (string a) = refl
same_class_refl (struct a) = refl

pub new_vector-IsOf : (d : DataTypeDef) → Yields (IsOf d) (new_vector d)
new_vector-IsOf (datatypedef id name typeid props sd size) =
    Yields-of _ (unfold new_vector in ground arith) λ v e. record {
      made = unfold new_vector in ground arith;
      uniform = subst (All (IsClass v)) (sym (new_vector-empty _ v e)) tt;
    }

module _ (d : DataTypeDef) where
  pub resize-IsOf : (v : Vector) (n : ℤ) → IsOf d v → Yields (IsOf d) (resize v n)
  unfolding resize
  resize-IsOf v (negsuc n) h = throws length_error
  resize-IsOf v (pos n) h =
      holds (record { made = h.made; uniform = sized (leb n (length v.values)) })
    where
      extended : All (IsClass v) (v.values ++ replicate (n - length v.values) v.init)
      extended =
          All-append (IsClass v) v.values _ h.uniform
            (All-replicate (IsClass v) (n - length v.values) v.init (same_class_refl v.init))

      sized :
          (shorter : Bool)
          → All (IsClass v) (
              if shorter
              then take n v.values
              else v.values ++ replicate (n - length v.values) v.init)
      sized true = All-take (IsClass v) n v.values h.uniform
      sized false = extended

  pub set-IsOf :
      (v : Vector) (i : ℕ) (x : Scalar)
      → IsOf d v
      → IsClass v x
      → IsOf d (record v { values = set v.values i x })
  set-IsOf v i x h c = record {
    made = h.made;
    uniform = All-set (IsClass v) v.values i x h.uniform c;
  }

  pub store_at-IsOf :
      (v : Vector) (i : ℕ) (x : Scalar) → IsOf d v → IsClass v x → Yields (IsOf d) (store_at v i x)
  unfolding store_at
  store_at-IsOf v i x h c =
      Yields-if (ltb i (length v.values)) (λ _. holds (set-IsOf v i x h c))
        (λ _. throws out_of_range)

module _ (buf : Bytes) (p : ℕ) (x : Scalar) (n : ℕ) where
  int8-class : int8_deserialize buf p ≡ ok (x, n) → same_class (int8 (pos 0)) x ≡ true
  unfolding int8_deserialize
  int8-class ran =
      let (b, _, e) = >>=-ok (byte_at buf (p + 3)) _ ran in
      let same : x ≡ int8 (to_int8 b) = cc in rw same refl

  int32-class : int32_deserialize buf p ≡ ok (x, n) → same_class (int32 (pos 0)) x ≡ true
  unfolding int32_deserialize
  int32-class ran =
      let (b, _, e) = >>=-ok (get_int32 buf p) _ ran in let same : x ≡ int32 b = cc in rw same refl

  double-class : double_deserialize buf p ≡ ok (x, n) → same_class (double 0) x ≡ true
  unfolding double_deserialize
  double-class ran =
      let (b, _, e) = >>=-ok (get_double buf p) _ ran in
      let same : x ≡ double b = cc in rw same refl

  complex-class : complex_data buf p ≡ ok (x, n) → same_class (complex 0 0) x ≡ true
  unfolding complex_data
  complex-class ran =
      let (re, _, e) = >>=-ok (get_double buf p) _ ran in
      let (im, _, e') = >>=-ok (get_double buf (p + 8)) _ e in
      let same : x ≡ complex re im = cc in rw same refl

  struct-class :
      (sd : StructDef) → struct_data sd buf p ≡ ok (x, n) → same_class (struct no_fields) x ≡ true
  unfolding struct_data
  struct-class sd ran =
      let ((fs, m), _, e) = >>=-ok (fields_deserialize sd buf p) _ ran in
      let same : x ≡ struct fs = cc in rw same refl

  deserialize_data-class :
      (d : DataTypeDef) (w : Vector)
      → new_vector d ≡ ok w
      → deserialize_data d buf p ≡ ok (x, n)
      → same_class w.init x ≡ true
  unfolding new_vector deserialize_data
  deserialize_data-class (datatypedef id name typeid props sd size) w made ran =
      ground (arith, int8-class, int32-class, double-class, complex-class, struct-class sd)

-- The value that a type reads, of the class of the vectors that the type makes.
pub deserialize_data-IsClass :
    (d : DataTypeDef) (v : Vector) (buf : Bytes) (p : ℕ)
    → IsSized d
    → IsOf d v
    → Yields
        (λ (x, n). IsClass v x × (n + 8 * data_complexes d ≡ datasize d))
        (deserialize_data d buf p)
deserialize_data-IsClass d v buf p sized h =
    Yields-weaken (Yields-eq (deserialize_data-Yields d buf p sized))
      λ (x, n) (size, ran). (deserialize_data-class buf p x n d _ h.made ran, size)
