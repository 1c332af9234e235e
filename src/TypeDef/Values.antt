-- ===== src/TypeDef/Values.antt =====
-- How many bytes the values of a type take, against the size that the type states.
use libpsf.Prelude.{ℕ, ◌+◌, ◌*◌, ◌≡◌, refl, ◌⊎◌, inl, inr, get_elem?, arith, if◌then◌else◌}
use libpsf.Prelude.Int.{ℤ}
use libpsf.Prelude.Assoc.{◌==◌, int_eq, eqb_ℤ_iff}
use libpsf.Outcome.{ok, undefined, Yields, holds, Yields-bind, Yields-or_throw, Yields-weaken}
use libpsf.Buffer.{Bytes, byte_at}
use libpsf.Buffer.Words.{get_int32-Yields, get_double-Yields}
use libpsf.Scalar.{
  Fields, int8_deserialize, int32_deserialize, double_deserialize, complex_deserialize, set_field,
  no_fields, typeid_int8, typeid_int32, typeid_double, typeid_complexdouble,
}
use libpsf.Property.{PropertyBlock}
use libpsf.TypeDef.{
  DataTypeDef, datatypedef, StructDef, null, structdef, Children, nil, cons, datasize, get_name,
  psfdata_size, new_scalar, item_deserialize, items_deserialize, deserialize_data, complex_data,
}
use libpsf.TypeDef.Fuel.{IsSized, IsSizedAll}

-- The complex numbers among the items of a struct, at any depth.
abbrev mutual
  pub item_complexes : DataTypeDef → ℕ
  item_complexes (datatypedef id name typeid props sd size) =
      if typeid == typeid_complexdouble then 1 else struct_complexes sd

  pub struct_complexes : StructDef → ℕ
  struct_complexes null = 0
  struct_complexes (structdef children size) = all_complexes children

  pub all_complexes : Children → ℕ
  all_complexes nil = 0
  all_complexes (cons d ds) = item_complexes d + all_complexes ds

size_cases :
    (typeid : ℤ) (size : ℕ)
    → psfdata_size typeid ≡ ok size
    → (typeid ≡ typeid_int8) × (size ≡ 4)
      ⊎ (typeid ≡ typeid_int32) × (size ≡ 4)
      ⊎ (typeid ≡ typeid_double) × (size ≡ 8)
      ⊎ (typeid ≡ typeid_complexdouble) × (size ≡ 16)
unfolding psfdata_size
size_cases typeid size h = ground (
  arith,
  eqb_ℤ_iff typeid typeid_int8,
  eqb_ℤ_iff typeid typeid_int32,
  eqb_ℤ_iff typeid typeid_double,
  eqb_ℤ_iff typeid typeid_complexdouble,
)

module _ (buf : Bytes) (p : ℕ) where
  int8-Yields : Yields (λ (v, n). n ≡ 4) (int8_deserialize buf p)
  unfolding int8_deserialize byte_at
  int8-Yields =
      Yields-bind (Yields-or_throw (get_elem? buf (p + 3)) undefined (λ b e. e)) λ b e. holds refl

  int32-Yields : Yields (λ (v, n). n ≡ 4) (int32_deserialize buf p)
  unfolding int32_deserialize
  int32-Yields = Yields-bind (get_int32-Yields buf p) λ v _. holds refl

  double-Yields : Yields (λ (v, n). n ≡ 8) (double_deserialize buf p)
  unfolding double_deserialize
  double-Yields = Yields-bind (get_double-Yields buf p) λ v _. holds refl

  complex-Yields : Yields (λ (v, n). n ≡ 8) (complex_deserialize buf p)
  unfolding complex_deserialize
  complex-Yields = Yields-bind (get_double-Yields buf p) λ v _. holds refl

  complex_data-Yields : Yields (λ (v, n). n ≡ 16) (complex_data buf p)
  unfolding complex_data
  complex_data-Yields =
      Yields-bind (get_double-Yields buf p)
        λ re _. Yields-bind (get_double-Yields buf (p + 8)) λ im _. holds refl

-- The sizes that `n` bytes account for, but for eight bytes of each of `k` complex numbers.
abbrev Takes {ℓ} : {A : Type ℓ} → ℕ → ℕ → A × ℕ → Type 0
Takes size k (v, n) = n + 8 * k ≡ size

-- An item that is no struct.
simple_item :
    (typeid : ℤ) (size : ℕ) (id : ℤ) (name : Bytes) (props : PropertyBlock) (buf : Bytes) (p : ℕ)
    → psfdata_size typeid ≡ ok size
    → let d = datatypedef id name typeid props null size in
      Yields (Takes size (item_complexes d)) (item_deserialize d buf p)
unfolding item_deserialize new_scalar
simple_item typeid size id name props buf p h = elim (size_cases typeid size h) [
  | inl (e, s) ↦ rw (e, s) (Yields-weaken (int8-Yields buf p) (λ _ t. omega arith))
  | inr (inl (e, s)) ↦ rw (e, s) (Yields-weaken (int32-Yields buf p) (λ _ t. omega arith))
  | inr (inr (inl (e, s))) ↦ rw (e, s) (Yields-weaken (double-Yields buf p) (λ _ t. omega arith))
  | inr (inr (inr (e, s))) ↦ rw (e, s) (Yields-weaken (complex-Yields buf p) (λ _ t. omega arith))
]

mutual
  unfolding item_deserialize new_scalar

  item_deserialize-Yields :
      (d : DataTypeDef) (buf : Bytes) (p : ℕ)
      → IsSized d
      → Yields (Takes (datasize d) (item_complexes d)) (item_deserialize d buf p)
  item_deserialize-Yields (datatypedef id name typeid props null size) buf p h =
      simple_item typeid size id name props buf p h
  item_deserialize-Yields (datatypedef id name typeid props (structdef children sum) size) buf p
        (e, s, h) =
      rw (e, s)
        (Yields-bind (items_deserialize-Yields children no_fields sum buf p h)
          λ (fs, n) t. holds (omega arith))

  items_deserialize-Yields :
      (ds : Children) (me : Fields) (size : ℕ) (buf : Bytes) (p : ℕ)
      → IsSizedAll ds size
      → Yields (Takes size (all_complexes ds)) (items_deserialize ds me buf p)
  items_deserialize-Yields nil me size buf p h = holds (omega arith)
  items_deserialize-Yields (cons d ds) me size buf p (hd, (rest, e, hs)) =
      Yields-bind (item_deserialize-Yields d buf p hd) λ (v, n) t.
        Yields-bind (items_deserialize-Yields ds (set_field (get_name d) v me) rest buf (p + n) hs)
          λ (fs, m) t'. holds (omega arith)

-- The complex numbers of a value that `deserialize_data` reads: those inside of a struct.
abbrev pub data_complexes : DataTypeDef → ℕ
data_complexes (datatypedef id name typeid props sd size) = struct_complexes sd

-- DataTypeDef::deserialize_data ends, and where it does not throw it takes the size that the type
-- states, but for eight bytes of each complex number inside of a struct, which Struct::deserialize
-- reads as one double. The stored sizes must be those of the parts.
pub deserialize_data-Yields :
    (d : DataTypeDef) (buf : Bytes) (p : ℕ)
    → IsSized d
    → Yields (λ (v, n). n + 8 * data_complexes d ≡ datasize d) (deserialize_data d buf p)
unfolding deserialize_data
deserialize_data-Yields (datatypedef id name typeid props null size) buf p h =
    elim (size_cases typeid size h) [
      | inl (e, s) ↦ rw (e, s) (Yields-weaken (int8-Yields buf p) (λ _ t. omega arith))
      | inr (inl (e, s)) ↦ rw (e, s) (Yields-weaken (int32-Yields buf p) (λ _ t. omega arith))
      | inr (inr (inl (e, s))) ↦
          rw (e, s) (Yields-weaken (double-Yields buf p) (λ _ t. omega arith))
      | inr (inr (inr (e, s))) ↦
          rw (e, s) (Yields-weaken (complex_data-Yields buf p) (λ _ t. omega arith))
    ]
deserialize_data-Yields (datatypedef id name typeid props (structdef children sum) size) buf p
      (e, s, h) =
    rw (e, s)
      (unfold item_deserialize in
        Yields-bind (items_deserialize-Yields children no_fields sum buf p h)
          λ (fs, n) t. holds (omega arith))
