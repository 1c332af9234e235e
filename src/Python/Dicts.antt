-- ===== src/Python/Dicts.antt =====
-- The dictionaries that bindings/python/psfpython.cc makes of a property map, of a struct and of a
-- VectorStruct. What the interpreter promises of a dictionary is a record of laws.
use libpsf.Prelude.{
  ◌≡◌, refl, Option, none, some, List, [], ◌∷◌, if◌then◌else◌, Bool-cases, inl, inr,
}
use mathlib.Core.Path.{subst}
use libpsf.Prelude.Assoc.{◌==◌, bytes_eq}
use libpsf.Outcome.{Result, ok, >>=-ok}
use libpsf.Buffer.{Bytes}
use libpsf.Scalar.{Scalar, Fields, no_fields, field}
use libpsf.Python.{
  Interpreter, c_string, scalar_to_python, less_bytes, place, map_order, set_items, struct_objects,
  propmap_items, propmap_to_python,
}
use libpsf.Python.Scalars.{entries}

-- PyDict_New and PyDict_SetItem, as documented: a dictionary finds the value that was set last under
-- a string.
pub record DictLaws (I : Interpreter) : Type 1 where
  pub IsDict : I.Object → Type 0
  pub find_item : I.Object → Bytes → Option I.Object
  pub new_IsDict : IsDict I.dict_new
  pub set_IsDict : (d k v : I.Object) → IsDict d → IsDict (I.dict_set_item d k v)
  pub find_new : (k : Bytes) → find_item I.dict_new k ≡ none
  pub find_set :
      (d v : I.Object) (k wanted : Bytes)
      → IsDict d
      → find_item (I.dict_set_item d (I.string_from_string k) v) wanted
        ≡ (if k == wanted then some v else find_item d wanted)

-- The value of the last entry whose name the interpreter reads as `name`, or `old`
unfoldable pub last_entry {ℓ} : {V : Type ℓ} → Bytes → Option V → List (Bytes × V) → Option V
last_entry name old [] = old
last_entry name old ((key, x) ∷ xs) =
    last_entry name (if c_string key == name then some x else old) xs

module _ (I : Interpreter) (L : DictLaws I) where
  -- The object, if there is one, is what the value becomes.
  abbrev pub Matches {ℓ} :
      {V : Type ℓ} → (V → Result I.Object) → Option I.Object → Option V → Type 0
  Matches convert none none = Unit
  Matches convert (some o) (some x) = convert x ≡ ok o
  Matches convert _ _ = ⊥

  -- A dictionary of the interpreter that finds under every name what `last` gives for it
  pub record Holds {ℓ} {V : Type ℓ} (convert : V → Result I.Object) (dict : I.Object)
      (last : Bytes → Option V) : Type 0 where
    pub is_dict : L.IsDict dict
    pub finds : (name : Bytes) → Matches convert (L.find_item dict name) (last name)

  -- One entry is set.
  pub Holds-set {ℓ} :
      {V : Type ℓ} {convert : V → Result I.Object} {dict : I.Object} {last : Bytes → Option V}
      (key : Bytes) (x : V) (value : I.Object)
      → Holds convert dict last
      → convert x ≡ ok value
      → Holds convert
          (I.dict_set_item dict (I.string_from_string (c_string key)) value)
          (λ name. if c_string key == name then some x else last name)
  Holds-set {convert} {dict} {last} key x value h e = record {
    is_dict = L.set_IsDict dict (I.string_from_string (c_string key)) value h.is_dict;
    finds = λ name. rw (L.find_set dict value (c_string key) name h.is_dict) (chosen name);
  }
    where
      chosen :
          (name : Bytes)
          → Matches convert
              (if c_string key == name then some value else L.find_item dict name)
              (if c_string key == name then some x else last name)
      chosen name = elim (Bool-cases (c_string key == name)) [
        | inl same ↦ rw same e
        | inr other ↦ rw other (h.finds name)
      ]

  pub new-Holds {ℓ} :
      {V : Type ℓ} (convert : V → Result I.Object) → Holds convert I.dict_new (λ name. none)
  new-Holds convert = record { is_dict = L.new_IsDict; finds = λ name. rw (L.find_new name) tt }

  pub propmap_items-Holds :
      (props : List (Bytes × Scalar)) (dict out : I.Object) (last : Bytes → Option Scalar)
      → Holds (scalar_to_python I) dict last
      → propmap_items I props dict ≡ ok out
      → Holds (scalar_to_python I) out (λ name. last_entry name (last name) props)
  unfolding propmap_items last_entry
  propmap_items-Holds [] dict out last h e = subst (λ d. Holds (scalar_to_python I) d last) (cc) h
  propmap_items-Holds ((key, x) ∷ props) dict out last h e =
      let (value, made, run) = >>=-ok (scalar_to_python I x) _ e in
      propmap_items-Holds props _ out _ (Holds-set key x value h made) run

  -- The dictionary of a property map has under each name the value of the map's last entry, in the
  -- order of the keys, whose name, read up to its first NUL, is that one, and nothing where there is
  -- none.
  pub propmap_to_python-Holds :
      (props : List (Bytes × Scalar)) (dict : I.Object)
      → propmap_to_python I props ≡ ok dict
      → Holds (scalar_to_python I) dict (λ name. last_entry name none (map_order props))
  unfolding propmap_to_python
  propmap_to_python-Holds props dict e =
      propmap_items-Holds (map_order props) I.dict_new dict (λ name. none)
        (new-Holds (scalar_to_python I)) e

  -- The items are the entries, converted, in the same order.
  AreConverted : List (Bytes × Scalar) → List (Bytes × I.Object) → Type 0
  AreConverted [] [] = Unit
  AreConverted ((k, x) ∷ xs) ((j, o) ∷ os) =
      (k ≡ j) × (scalar_to_python I x ≡ ok o) × AreConverted xs os
  AreConverted _ _ = ⊥

  place-AreConverted :
      (k : Bytes) (x : Scalar) (o : I.Object) (xs : List (Bytes × Scalar))
      (os : List (Bytes × I.Object))
      → scalar_to_python I x ≡ ok o
      → AreConverted xs os
      → AreConverted (place k x xs) (place k o os)
  unfolding place AreConverted
  place-AreConverted k x o [] [] e h = (refl, e, tt)
  place-AreConverted k x o ((j, y) ∷ xs) ((j', p) ∷ os) e (same, made, h) =
      subst (λ n. AreConverted (place k x ((j, y) ∷ xs)) (place k o ((n, p) ∷ os))) same
        (elim (Bool-cases (less_bytes j k)) [
          | inl before ↦ rw before (refl, made, place-AreConverted k x o xs os e h)
          | inr behind ↦ rw behind (refl, e, (refl, made, h))
        ])
  place-AreConverted k x o [] (p ∷ os) e h = absurd h
  place-AreConverted k x o (y ∷ xs) [] e h = absurd h

  struct_objects-AreConverted :
      (fs : Fields) (items : List (Bytes × I.Object))
      → struct_objects I fs ≡ ok items
      → AreConverted (map_order (entries I fs)) items
  unfolding struct_objects map_order AreConverted
  struct_objects-AreConverted no_fields items e =
      let same : [] ≡ items = cc in subst (AreConverted []) same tt
  struct_objects-AreConverted (field key x fs) items e =
      let (o, made, e₁) = >>=-ok (scalar_to_python I x) _ e in
      let (rest, others, e₂) = >>=-ok (struct_objects I fs) _ e₁ in
      let same : place key o rest ≡ items = cc in
      subst (AreConverted (map_order (entries I (field key x fs)))) same (
        place-AreConverted key x o (map_order (entries I fs)) rest made
          (struct_objects-AreConverted fs rest others))

  set_items-Holds :
      (xs : List (Bytes × Scalar)) (items : List (Bytes × I.Object)) (dict : I.Object)
      (last : Bytes → Option Scalar)
      → AreConverted xs items
      → Holds (scalar_to_python I) dict last
      → Holds (scalar_to_python I) (set_items I items dict) (λ name. last_entry name (last name) xs)
  unfolding set_items last_entry AreConverted
  set_items-Holds [] [] dict last c h = h
  set_items-Holds ((k, x) ∷ xs) ((j, o) ∷ items) dict last (same, made, c) h =
      set_items-Holds xs items _ _ c (
        subst
          (λ n.
            Holds (scalar_to_python I) (I.dict_set_item dict (I.string_from_string (c_string n)) o)
              (λ name. if c_string k == name then some x else last name))
          same (Holds-set k x o h made))
  set_items-Holds [] (o ∷ items) dict last c h = absurd c
  set_items-Holds (x ∷ xs) [] dict last c h = absurd c

  -- The dictionary of a struct has its fields: under each name the value of the last field, in the
  -- order of the keys, whose name, read up to its first NUL, is that one, converted, and nothing where
  -- there is none.
  pub struct-Holds :
      (fs : Fields) (items : List (Bytes × I.Object))
      → struct_objects I fs ≡ ok items
      → Holds
          (scalar_to_python I)
          (set_items I items I.dict_new)
          (λ name. last_entry name none (map_order (entries I fs)))
  struct-Holds fs items e =
      set_items-Holds (map_order (entries I fs)) items I.dict_new (λ name. none)
        (struct_objects-AreConverted fs items e) (new-Holds (scalar_to_python I))
