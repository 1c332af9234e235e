-- ===== src/Python/Vectors.antt =====
-- psfvector_to_numpyarray and vectorstruct_to_python of bindings/python/psfpython.cc: the arrays, who
-- owns their memory, and the dictionary of arrays.
use libpsf.Prelude.{
  ℕ, ◌≡◌, refl, ap, ◌∙◌, ◌≢◌, Bool, true, false, Option, none, some, List, [], ◌∷◌, map,
  if◌then◌else◌,
}
use mathlib.Core.Path.{subst}
use libpsf.Outcome.{Result, ok, undefined, or_throw, ◌>>=◌, >>=-ok}
use libpsf.Buffer.{Bytes}
use libpsf.Scalar.{Scalar, int8, int32, double, complex, string, struct, Fields}
use libpsf.TypeDef.{StructDef}
use libpsf.Vector.{Vector, VectorStruct}
use libpsf.Python.{
  Interpreter, Converted, scalar_to_python, struct_objects, set_items, map_order, doubles, cdoubles,
  structs, first_at, vector_to_numpyarray, vectorstruct_items, vectorstruct_to_python,
}
use libpsf.Python.Scalars.{entries}
use libpsf.Python.Order.{InMapOrder, map_order-InMapOrder}
use libpsf.Python.Dicts.{struct-Holds, DictLaws, Holds, Holds-set, new-Holds, last_entry}

module _ (I : Interpreter) where
  -- An array on the vector's memory has a vector that is not deleted; `copy` gives an array with
  -- memory of its own, and deletes the vector.
  pub record IsOwned (vec : Option Vector) (copy : Bool) (c : Converted I) : Type 0 where
    pub alive : c.shared ≡ true → c.deleted ≡ false
    pub own : copy ≡ true → c.shared ≡ false
    pub freed : copy ≡ true → vec ≢ none → c.deleted ≡ true

  -- What the double and the complex vectors leave
  plain-IsOwned :
      (vec : Option Vector) (copy : Bool) (o : Option I.Object)
      → IsOwned vec copy
          (record { object = o; shared = if copy then false else true; deleted = copy })
  plain-IsOwned vec true o = record { alive = λ h. cc; own = λ h. refl; freed = λ h n. refl }
  plain-IsOwned vec false o = record { alive = λ h. refl; own = λ h. cc; freed = λ h n. cc }

  null-IsOwned :
      (vec : Option Vector) (copy deleted : Bool) (o : Option I.Object)
      → (copy ≡ true → vec ≢ none → deleted ≡ true)
      → IsOwned vec copy (record { object = o; shared = false; deleted = deleted })
  null-IsOwned vec copy deleted o h = record { alive = λ e. cc; own = λ e. refl; freed = h }

  -- No array is left on the memory of a vector that was deleted; with `copy` the array has memory of
  -- its own and the vector, if there is one, is deleted, whatever its class is.
  pub vector_to_numpyarray-IsOwned :
      (vec : Option Vector) (copy : Bool) (c : Converted I)
      → vector_to_numpyarray I vec copy ≡ ok c
      → IsOwned vec copy c
  unfolding vector_to_numpyarray
  vector_to_numpyarray-IsOwned none copy c e =
      subst (IsOwned none copy) (cc)
        (null-IsOwned none copy false (some I.py_none) (λ h n. absurd (n refl)))
  vector_to_numpyarray-IsOwned (some vec) copy c e = classes vec.init vec.definition vec.values e
    where
      classes :
          (init : Scalar) (definition : StructDef) (values : List Scalar)
          → vector_to_numpyarray I
              (some (record { init = init; definition = definition; values = values }))
              copy
            ≡ ok c
          → IsOwned (some vec) copy c
      classes (double bits) sd xs e =
          let (first, at, e₁) = >>=-ok (first_at I xs) _ e in
          let (bs, read, e₂) = >>=-ok (doubles I xs) _ e₁ in
          subst (IsOwned (some vec) copy) (cc)
            (plain-IsOwned (some vec) copy (some (I.double_array bs)))
      classes (complex re im) sd xs e =
          let (first, at, e₁) = >>=-ok (first_at I xs) _ e in
          let (bs, read, e₂) = >>=-ok (cdoubles I xs) _ e₁ in
          subst (IsOwned (some vec) copy) (cc)
            (plain-IsOwned (some vec) copy (some (I.cdouble_array bs)))
      classes (struct fs) sd xs e =
          let (os, read, e₁) = >>=-ok (structs I xs) _ e in
          subst (IsOwned (some vec) copy) (cc)
            (null-IsOwned (some vec) copy true (some (I.object_array os)) (λ h n. refl))
      classes (int8 v) sd xs e =
          subst (IsOwned (some vec) copy) (cc) (null-IsOwned (some vec) copy copy none (λ h n. h))
      classes (int32 v) sd xs e =
          subst (IsOwned (some vec) copy) (cc) (null-IsOwned (some vec) copy copy none (λ h n. h))
      classes (string v) sd xs e =
          subst (IsOwned (some vec) copy) (cc) (null-IsOwned (some vec) copy copy none (λ h n. h))

  doubles-map : (bs : List ℕ) → doubles I (map double bs) ≡ ok bs
  unfolding doubles
  doubles-map [] = refl
  doubles-map (b ∷ bs) = rw (doubles-map bs) refl

  abbrev pub complex_of : ℕ × ℕ → Scalar
  complex_of (re, im) = complex re im

  cdoubles-map : (zs : List (ℕ × ℕ)) → cdoubles I (map complex_of zs) ≡ ok zs
  unfolding cdoubles
  cdoubles-map [] = refl
  cdoubles-map ((re, im) ∷ zs) = rw (cdoubles-map zs) refl

  -- The array of a vector of at least one double or complex number holds the numbers, in order.
  pub vector_to_numpyarray-numbers :
      (sd : StructDef) (copy : Bool) (b₀ b : ℕ) (bs : List ℕ) (z₀ z : ℕ × ℕ) (zs : List (ℕ × ℕ))
      → (vector_to_numpyarray I
            (some (record { init = double b₀; definition = sd; values = map double (b ∷ bs) }))
            copy
          ≡ ok (record {
            object = some (I.double_array (b ∷ bs));
            shared = if copy then false else true;
            deleted = copy;
          }))
        × (vector_to_numpyarray I
              (some (record {
                init = complex_of z₀;
                definition = sd;
                values = map complex_of (z ∷ zs);
              }))
              copy
            ≡ ok (record {
              object = some (I.cdouble_array (z ∷ zs));
              shared = if copy then false else true;
              deleted = copy;
            }))
  unfolding vector_to_numpyarray first_at
  vector_to_numpyarray-numbers sd copy b₀ b bs (re₀, im₀) (re, im) zs =
      (rw (doubles-map (b ∷ bs)) refl, rw (cdoubles-map ((re, im) ∷ zs)) refl)

  -- One object after the other holds the fields of the structs.
  abbrev pub AreDicts : DictLaws I → List I.Object → List Fields → Type 0
  AreDicts L [] [] = Unit
  AreDicts L (o ∷ os) (fs ∷ fss) =
      Holds I L (scalar_to_python I) o (λ name. last_entry name none (map_order (entries I fs)))
      × AreDicts L os fss
  AreDicts L _ _ = ⊥

  structs-AreDicts :
      (L : DictLaws I) (fss : List Fields) (os : List I.Object)
      → structs I (map struct fss) ≡ ok os
      → AreDicts L os fss
  unfolding structs
  structs-AreDicts L [] [] e = tt
  structs-AreDicts L [] (o ∷ os) e = cc
  structs-AreDicts L (fs ∷ fss) os e =
      let (items, made, e₁) = >>=-ok (struct_objects I fs) _ e in
      let (rest, others, e₂) = >>=-ok (structs I (map struct fss)) _ e₁ in
      let same : set_items I items I.dict_new ∷ rest ≡ os = cc in
      subst (λ l. AreDicts L l (fs ∷ fss)) same
        (struct-Holds I L fs items made, structs-AreDicts L fss rest others)

  -- The array of a vector of structs holds a dictionary for each struct, in order, with the fields of
  -- the struct; of fields whose names agree up to their first NUL, the last in the order of the keys.
  pub vector_to_numpyarray-AreDicts :
      (L : DictLaws I) (sd : StructDef) (init : Fields) (fss : List Fields) (copy : Bool)
      (c : Converted I)
      → vector_to_numpyarray I
          (some (record { init = struct init; definition = sd; values = map struct fss }))
          copy
        ≡ ok c
      → (os : List I.Object) × (c.object ≡ some (I.object_array os)) × AreDicts L os fss
  unfolding vector_to_numpyarray
  vector_to_numpyarray-AreDicts L sd init fss copy c e =
      let (os, read, e₁) = >>=-ok (structs I (map struct fss)) _ e in
      let same : c ≡ record { object = some (I.object_array os); shared = false; deleted = true } =
        cc in
      (os, ap (λ (k : Converted I). k.object) same, structs-AreDicts L fss os read)

  -- What a VectorStruct gives for a vector: its array; a null pointer is no value of a dictionary.
  unfoldable pub array_value : Vector → Result I.Object
  array_value vec = do
    array ← vector_to_numpyarray I (some vec) true
    or_throw array.object undefined

  array_value-of :
      (vec : Vector) (c : Converted I) (value : I.Object)
      → vector_to_numpyarray I (some vec) true ≡ ok c
      → or_throw c.object undefined ≡ ok value
      → array_value vec ≡ ok value
  unfolding array_value
  array_value-of vec c value made e = ap (λ r. r >>= (λ k. or_throw k.object undefined)) made ∙ e

  vectorstruct_items-Holds :
      (L : DictLaws I) (vs : List (Bytes × Vector)) (dict out : I.Object)
      (last : Bytes → Option Vector)
      → Holds I L array_value dict last
      → vectorstruct_items I vs dict ≡ ok out
      → Holds I L array_value out (λ name. last_entry name (last name) vs)
  unfolding vectorstruct_items last_entry
  vectorstruct_items-Holds L [] dict out last h e = subst (λ d. Holds I L array_value d last) (cc) h
  vectorstruct_items-Holds L ((key, vec) ∷ vs) dict out last h e =
      let (c, made, e₁) = >>=-ok (vector_to_numpyarray I (some vec) true) _ e in
      let (value, some_value, run) = >>=-ok (or_throw c.object undefined) _ e₁ in
      vectorstruct_items-Holds L vs _ out _
        (Holds-set I L key vec value h (array_value-of vec c value made some_value)) run

  -- The dictionary of a VectorStruct has under each name the array of the vector of that name, the
  -- last one in the order of the keys if names agree up to their first NUL, and nothing where there is
  -- none. The order of the keys is sorted, and has the entries of the VectorStruct.
  pub vectorstruct_to_python-Holds :
      (L : DictLaws I) (vs : VectorStruct) (dict : I.Object)
      → vectorstruct_to_python I vs ≡ ok dict
      → (order : List (Bytes × Vector)) × InMapOrder order vs.vectors
        × Holds I L array_value dict (λ name. last_entry name none order)
  unfolding vectorstruct_to_python
  vectorstruct_to_python-Holds L vs dict e = (
    map_order vs.vectors,
    map_order-InMapOrder vs.vectors,
    vectorstruct_items-Holds L (map_order vs.vectors) I.dict_new dict (λ name. none)
        (new-Holds I L array_value) e,
  )
