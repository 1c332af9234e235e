-- ===== src/Trace/Total.antt =====
-- The fuel of the header, type, sweep and trace sections, and the sizes of the types that they read.
use libpsf.Prelude.{ℕ, zero, suc, ◌+◌, ◌≤◌, ◌≡◌, refl, Option, none, some, List, [], ◌∷◌, arith}
use libpsf.Prelude.Int.{ℤ, pos}
use libpsf.Prelude.Assoc.{◌==◌, int_eq, bytes_eq, lookup, insert}
use libpsf.Outcome.{
  incorrect_chunk, undefined, Yields, holds, throws, Yields-bind, Yields-if, Yields-weaken,
  Yields-or_throw, add_int-Yields,
}
use libpsf.Buffer.{Bytes}
use libpsf.Buffer.Words.{get_int32-Yields}
use libpsf.Scalar.Strings.{string_deserialize-Yields}
use libpsf.Chunk.Laws.{Allows, chunk_deserialize-Yields, deserialize_child-Yields}
use libpsf.Property.{Property, ischunk, empty_block}
use libpsf.Property.Fuel.{property_deserialize-Yields, block_deserialize-Yields}
use libpsf.TypeDef
use libpsf.TypeDef.{DataTypeDef}
use libpsf.TypeDef.Fuel.{IsSized, deserialize-Yields}
use libpsf.Container.{section_type, get_child_by_id}
use libpsf.Container.Index.{IsIndexed, All-last_with}
use libpsf.Container.Fuel.{Child, simple_deserialize-Yields, indexed_deserialize-Yields}
use libpsf.Trace.{
  header_factory, header_deserialize, append_children, type_factory, TypeSection,
  type_section_deserialize, DataTypeRef, ref_deserialize, get_datatype, sweep_factory,
  sweep_section_deserialize, GroupDef, group_factory, group_loop, rounds_of, group_deserialize,
  fill_loop, fill_offsetmap, Trace, trace_id, trace_name, trace_factory, trace_section_deserialize,
}

abbrev pub Any {ℓ} : {A : Type ℓ} → A → Type 0
Any a = Unit {0}

header_factory-Allows :
    (buf : Bytes) (p : ℕ) (t : ℤ)
    → Yields (Allows (Child {C = Property} Any) buf p) (header_factory t)
unfolding header_factory
header_factory-Allows buf p t =
    Yields-if (ischunk t)
      (λ _. holds λ _.
        Yields-weaken (property_deserialize-Yields buf p) (λ (prop, n) (big, _). (tt, omega arith)))
      (λ _. Yields-if (t == pos 1) (λ _. holds tt) (λ _. throws (incorrect_chunk t)))

pub header_deserialize-Yields :
    (buf : Bytes) (start abspos : ℕ)
    → Yields
        (λ (b, n). (cs : List Property) × (b ≡ append_children empty_block cs))
        (header_deserialize buf start abspos)
unfolding header_deserialize
header_deserialize-Yields buf start abspos =
    Yields-bind
      (simple_deserialize-Yields Any header_factory buf start abspos (header_factory-Allows buf))
      λ (cs, n) _. holds (cs, refl)

type_factory-Allows :
    (buf : Bytes) (p : ℕ) (t : ℤ) → Yields (Allows (Child IsSized) buf p) (type_factory t)
unfolding type_factory
type_factory-Allows buf p t =
    Yields-if (t == pos 16)
      (λ _. holds λ _.
        Yields-weaken (deserialize-Yields buf p)
          (λ (d, n) (sized, _, big, _). (sized, omega arith)))
      (λ _. throws (incorrect_chunk t))

-- Every type that the section finds by an id has the size that its parts have.
abbrev pub TypesSized : Option TypeSection → Type 0
TypesSized none = Unit
TypesSized (some s) = (id : ℤ) (d : DataTypeDef) → lookup id s.idmap ≡ some d → IsSized d

pub type_section_deserialize-Yields :
    (buf : Bytes) (start abspos : ℕ)
    → Yields (λ (s, r). TypesSized (some s)) (type_section_deserialize buf start abspos)
unfolding type_section_deserialize
type_section_deserialize-Yields buf start abspos =
    Yields-weaken
      (indexed_deserialize-Yields IsSized type_factory buf start abspos (type_factory-Allows buf)
        TypeDef.get_id TypeDef.get_name section_type 2)
      λ (s, r) (sized, indexed) id d found.
        All-last_with TypeDef.get_id IsSized id none s.children sized (λ c no. absurd (cc)) d
          (rw indexed.by_id at found)

pub get_datatype-Yields :
    (types : Option TypeSection) (r : DataTypeRef)
    → TypesSized types
    → Yields IsSized (get_datatype types r)
unfolding get_datatype get_child_by_id
get_datatype-Yields none r h = throws undefined
get_datatype-Yields (some s) r h =
    Yields-or_throw (lookup r.datatypeid s.idmap) undefined (h r.datatypeid)

pub ref_deserialize-Yields :
    (buf : Bytes) (p : ℕ) → Yields (λ (r, n). 16 ≤ n) (ref_deserialize buf p)
unfolding ref_deserialize
ref_deserialize-Yields buf p = Yields-bind (chunk_deserialize-Yields (pos 16) buf p) λ _ _.
    Yields-bind (get_int32-Yields buf (p + 4)) λ id _.
      Yields-bind (string_deserialize-Yields buf (p + 8)) λ (name, n) (e, _, _).
        Yields-bind (get_int32-Yields buf (p + 8 + n)) λ typeid _.
          Yields-bind (block_deserialize-Yields empty_block buf (p + 12 + n))
            λ (props, k) _. holds (omega arith)

ref-Child : (buf : Bytes) (p : ℕ) → Yields (Child {C = DataTypeRef} Any) (ref_deserialize buf p)
ref-Child buf p = Yields-weaken (ref_deserialize-Yields buf p) (λ (r, n) big. (tt, omega arith))

sweep_factory-Allows :
    (buf : Bytes) (p : ℕ) (t : ℤ)
    → Yields (Allows (Child {C = DataTypeRef} Any) buf p) (sweep_factory t)
unfolding sweep_factory
sweep_factory-Allows buf p t =
    Yields-if (t == pos 16) (λ _. holds λ _. ref-Child buf p)
      (λ _. Yields-if (t == pos 3) (λ _. holds tt) (λ _. throws (incorrect_chunk t)))

pub sweep_section_deserialize-Yields :
    (buf : Bytes) (start abspos : ℕ) → Yields Any (sweep_section_deserialize buf start abspos)
unfolding sweep_section_deserialize
sweep_section_deserialize-Yields buf start abspos =
    Yields-weaken
      (simple_deserialize-Yields Any sweep_factory buf start abspos (sweep_factory-Allows buf))
      λ _ _. tt

group_factory-Allows :
    (buf : Bytes) (p : ℕ) (t : ℤ)
    → Yields (Allows (Child {C = DataTypeRef} Any) buf p) (group_factory t)
unfolding group_factory
group_factory-Allows buf p t =
    Yields-if (t == pos 16) (λ _. holds λ _. ref-Child buf p) (λ _. throws (incorrect_chunk t))

group_loop-Yields :
    (rounds i : ℕ) (names : List (Bytes × ℕ)) (buf : Bytes) (p : ℕ)
    → Yields Any (group_loop rounds i names buf p)
unfolding group_loop
group_loop-Yields zero i names buf p = holds tt
group_loop-Yields (suc rounds) i names buf p =
    Yields-bind
      (deserialize_child-Yields (Child Any) buf p group_factory (group_factory-Allows buf p))
      λ (child, n) _. Yields-bind {P = Any} (Yields-or_throw child undefined (λ _ _. tt)) λ c _.
        Yields-bind (group_loop-Yields rounds (i + 1) (insert c.name i names) buf (p + n))
          λ _ _. holds tt

group_deserialize-Yields :
    (buf : Bytes) (p : ℕ) → Yields (λ (g, n). 4 ≤ n) (group_deserialize buf p)
unfolding group_deserialize
group_deserialize-Yields buf p = Yields-bind (chunk_deserialize-Yields (pos 17) buf p) λ _ _.
    Yields-bind (get_int32-Yields buf (p + 4)) λ id _.
      Yields-bind (string_deserialize-Yields buf (p + 8)) λ (name, n) _.
        Yields-bind (get_int32-Yields buf (p + 8 + n)) λ count _.
          Yields-bind (group_loop-Yields (rounds_of count) 0 [] buf (p + 12 + n))
            λ (cs, names, m) _. holds (omega arith)

trace_factory-Allows :
    (buf : Bytes) (p : ℕ) (t : ℤ) → Yields (Allows (Child {C = Trace} Any) buf p) (trace_factory t)
unfolding trace_factory
trace_factory-Allows buf p t =
    Yields-if (t == pos 16)
      (λ _.
        holds λ _. Yields-bind (ref_deserialize-Yields buf p) λ (r, n) big. holds (tt, omega arith))
      λ _.
        Yields-if (t == pos 17)
          (λ _.
            holds λ _. Yields-bind (group_deserialize-Yields buf p) λ (g, n) big. holds (tt, big))
          (λ _. throws (incorrect_chunk t))

pub trace_section_deserialize-Yields :
    (buf : Bytes) (start abspos : ℕ)
    → Yields
        (λ (s, r). IsIndexed trace_id trace_name s)
        (trace_section_deserialize buf start abspos)
unfolding trace_section_deserialize
trace_section_deserialize-Yields buf start abspos =
    Yields-weaken
      (indexed_deserialize-Yields Any trace_factory buf start abspos (trace_factory-Allows buf)
        trace_id trace_name section_type 4)
      λ (s, r) (_, indexed). indexed

module _ (types : Option TypeSection) (sized : TypesSized types) where
  fill_loop-Yields :
      (windowsize : ℤ) (m : List (ℤ × ℤ)) (offset : ℤ) (rs : List DataTypeRef)
      → Yields Any (fill_loop types windowsize m offset rs)
  unfolding fill_loop
  fill_loop-Yields windowsize m offset [] = holds tt
  fill_loop-Yields windowsize m offset (r ∷ rs) =
      Yields-bind {P = Any}
        (Yields-if (windowsize == pos 0)
          (λ _. Yields-bind (get_datatype-Yields types r sized) λ d _. holds tt) (λ _. holds tt))
        λ step _.
          Yields-bind (add_int-Yields offset step)
            λ offset' _. fill_loop-Yields windowsize (insert r.id offset m) offset' rs

  pub fill_offsetmap-Yields :
      (g : GroupDef) (m : List (ℤ × ℤ)) (windowsize start : ℤ)
      → Yields Any (fill_offsetmap types g m windowsize start)
  unfolding fill_offsetmap
  fill_offsetmap-Yields g m windowsize start =
      Yields-bind (fill_loop-Yields windowsize m start g.children) λ _ _. holds tt
