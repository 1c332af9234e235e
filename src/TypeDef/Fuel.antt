-- ===== src/TypeDef/Fuel.antt =====
-- The fuel of DataTypeDef::deserialize (src/psftype.cc), and the sizes of the types that it reads.
use libpsf.Prelude.{ℕ, zero, suc, ◌+◌, ◌*◌, ◌<◌, ◌≤◌, ◌≡◌, refl, Option, none, some, length, arith}
use libpsf.Prelude.Int.{ℤ, pos}
use libpsf.Prelude.Assoc.{◌==◌, int_eq, eqb_ℤ_iff}
use libpsf.Outcome.{
  ok, incorrect_chunk, ◌>>=◌, Yields, holds, throws, Yields-of, Yields-bind, Yields-if,
}
use libpsf.Buffer.{Bytes, Parser}
use libpsf.Buffer.Words.{get_int32-Yields}
use libpsf.Scalar.{typeid_struct}
use libpsf.Scalar.Strings.{string_deserialize-Yields}
use libpsf.Chunk.Laws.{ChildRead, Allows, chunk_deserialize-Yields, deserialize_child-Yields}
use libpsf.Property.{empty_block}
use libpsf.Property.Fuel.{block_deserialize-Yields}
use libpsf.TypeDef.{
  DataTypeDef, datatypedef, StructDef, null, structdef, Children, nil, cons, datasize, psfdata_size,
  struct_factory, sized_part, def_deserialize, struct_deserialize, deserialize,
}

-- The stored sizes are those of the types: of a struct, the sum over its children.
abbrev mutual
  pub IsSized : DataTypeDef → Type 0
  IsSized (datatypedef id name typeid props sd size) = IsSizedStruct sd typeid size

  pub IsSizedStruct : StructDef → ℤ → ℕ → Type 0
  IsSizedStruct null typeid size = psfdata_size typeid ≡ ok size
  IsSizedStruct (structdef children sum) typeid size =
      (typeid ≡ typeid_struct) × (size ≡ sum) × IsSizedAll children sum

  pub IsSizedAll : Children → ℕ → Type 0
  IsSizedAll nil size = size ≡ 0
  IsSizedAll (cons d ds) size =
      IsSized d × ((rest : ℕ) × (size ≡ datasize d + rest) × IsSizedAll ds rest)

psfdata_size-Yields :
    (typeid : ℤ)
    → Yields (λ size. (psfdata_size typeid ≡ ok size) × (size ≤ 16)) (psfdata_size typeid)
psfdata_size-Yields typeid =
    Yields-of (psfdata_size typeid) (unfold psfdata_size in ground arith)
      λ size e. (e, unfold psfdata_size in ground arith)

-- What a type takes of the file, its size among it.
abbrev pub DefRead : Bytes → ℕ → DataTypeDef × ℕ → Type 0
DefRead buf p (d, n) = IsSized d × (datasize d ≤ n) × (20 ≤ n) × (p + 4 ≤ length buf)

abbrev StructRead : Children × ℕ × ℕ → Type 0
StructRead (children, size, n) = IsSizedAll children size × (size ≤ n)

struct_factory-Yields :
    (parse : Parser DataTypeDef) (buf : Bytes) (p : ℕ)
    → (p + 4 ≤ length buf → Yields (DefRead buf p) (parse buf p))
    → (t : ℤ) → Yields (Allows (DefRead buf p) buf p) (struct_factory parse t)
unfolding struct_factory
struct_factory-Yields parse buf p h t =
    Yields-if (t == pos 16) (λ _. holds h)
      λ _. Yields-if (t == pos 18) (λ _. holds tt) (λ _. throws (incorrect_chunk t))

-- One round of the loop over the children, behind the child.
struct_round :
    (buf : Bytes) (p fuel : ℕ) (child : Option DataTypeDef) (n : ℕ)
    → ChildRead (DefRead buf p) buf p (child, n)
    → ((m : ℕ) → 20 ≤ m → Yields StructRead (struct_deserialize fuel buf (p + m)))
    → Yields StructRead (elim child [
      | none ↦ ok (nil, 0, n)
      | some d ↦ do
        (children, size, m) ← struct_deserialize fuel buf (p + n)
        ok (cons d children, datasize d + size, n + m)
    ])
unfolding struct_deserialize
struct_round buf p fuel none n h rest = holds (refl, omega arith)
struct_round buf p fuel (some d) n (sized, small, big, le) rest =
    Yields-bind (rest n big)
      λ (children, size, m) (sized', small'). holds ((sized, (size, refl, sized')), omega arith)

mutual
  unfolding def_deserialize sized_part

  def_deserialize-Yields :
      (fuel : ℕ) (buf : Bytes) (p : ℕ)
      → 2 * length buf < 2 * p + fuel
      → 0 < fuel
      → Yields (DefRead buf p) (def_deserialize fuel buf p)
  def_deserialize-Yields zero buf p h z = absurd (omega arith)
  def_deserialize-Yields (suc fuel) buf p h z =
      Yields-bind (chunk_deserialize-Yields (pos 16) buf p) λ _ (_, le).
        Yields-bind (get_int32-Yields buf (p + 4)) λ id _.
          Yields-bind (string_deserialize-Yields buf (p + 8)) λ (name, n) (e, _, _).
            Yields-bind (get_int32-Yields buf (p + 8 + n)) λ _ _.
              Yields-bind (get_int32-Yields buf (p + 12 + n)) λ typeid (room, _).
                Yields-bind
                  {P = λ ((sd, size, m) : StructDef × ℕ × ℕ).
                    IsSizedStruct sd typeid size × (size ≤ 16 + m)}
                  (Yields-if (typeid == typeid_struct)
                    (λ is_struct.
                      Yields-bind
                        (struct_deserialize-Yields fuel buf (p + 16 + n) (omega arith)
                          (omega arith))
                        λ (children, size, m) (sized, small).
                          holds (((eqb_ℤ_iff _ _).0 is_struct, refl, sized), omega arith))
                    (λ _.
                      Yields-bind (psfdata_size-Yields typeid)
                        λ size (same, small). holds (same, omega arith)))
                  λ (sd, size, m) (sized, small).
                    Yields-bind (block_deserialize-Yields empty_block buf (p + 16 + n + m))
                      λ (props, k) _. holds (sized, omega arith, omega arith, le)

  struct_deserialize-Yields :
      (fuel : ℕ) (buf : Bytes) (p : ℕ)
      → 2 * length buf + 1 < 2 * p + fuel
      → 0 < fuel
      → Yields StructRead (struct_deserialize fuel buf p)
  struct_deserialize-Yields zero buf p h z = absurd (omega arith)
  struct_deserialize-Yields (suc fuel) buf p h z =
      Yields-bind
        (deserialize_child-Yields (DefRead buf p) buf p (struct_factory (def_deserialize fuel)) (
          struct_factory-Yields (def_deserialize fuel) buf p
            (λ le. def_deserialize-Yields fuel buf p (omega arith) (omega arith))))
        λ (child, n) (read, le).
          struct_round buf p fuel child n read
            (λ m big. struct_deserialize-Yields fuel buf (p + m) (omega arith) (omega arith))

-- Reading a type never runs out of fuel. Where it does not throw, the size that is stored is the sum of
-- the sizes of the parts, and is at most the number of bytes that the type took of the file.
pub deserialize-Yields : (buf : Bytes) (p : ℕ) → Yields (DefRead buf p) (deserialize buf p)
unfolding deserialize
deserialize-Yields buf p =
    def_deserialize-Yields (2 * length buf + 1) buf p (omega arith) (omega arith)
