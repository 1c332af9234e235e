-- ===== src/Trace.antt =====
-- The type, header and sweep sections of src/psfsections.cc, DataTypeRef of src/psftype.cc,
-- GroupDef of src/psfgroup.cc and TraceSection of src/psftrace.cc.
pub mod Header
pub mod Lookup
pub mod Offsets
pub mod RoundTrip
pub mod Written
pub mod Codings
pub mod Sections
pub mod Total
use libpsf.Prelude.{
  ℕ, zero, suc, ◌+◌, Bool, Option, none, some, List, [], ◌∷◌, ◌++◌, map, get_elem?, if◌then◌else◌,
}
use libpsf.Prelude.Int.{ℤ, pos, negsuc, ◌-ℤ◌}
use libpsf.Prelude.Assoc.{◌==◌, int_eq, bytes_eq, lookup, insert}
use libpsf.Outcome.{
  Error, Result, ok, err, stuck, incorrect_chunk, not_found, undefined, bad_cast, out_of_range,
  or_throw, add_int, ◌>>=◌,
}
use libpsf.Buffer.{Bytes, Parser, get_int32}
use libpsf.Scalar.{Scalar, string_deserialize}
use libpsf.Chunk.{Factory, chunk_deserialize, deserialize_child}
use libpsf.Property
use libpsf.Property.{Property, PropertyBlock, empty_block, block_deserialize, append_prop}
use libpsf.TypeDef
use libpsf.TypeDef.{DataTypeDef}
use libpsf.Container.{
  Indexed, simple_deserialize, indexed_deserialize, section_type, get_child_by_id,
  get_child_by_name, get_child_index,
}

-- HeaderSection: its children are properties, which are appended to a block.
unfoldable pub header_factory : Factory Property
header_factory t =
    if Property.ischunk t
    then ok (some Property.property_deserialize)
    else if t == pos 1
    then ok none
    else err (incorrect_chunk t)

abbrev append_children : PropertyBlock → List Property → PropertyBlock
append_children b [] = b
append_children b (c ∷ cs) = append_children (append_prop b c) cs

unfoldable pub header_deserialize : Bytes → ℕ → ℕ → Result (PropertyBlock × ℕ)
header_deserialize buf start abspos = do
  (cs, n) ← simple_deserialize header_factory buf start abspos
  ok (append_children empty_block cs, n)

-- TypeSection
unfoldable pub type_factory : Factory DataTypeDef
type_factory t = if t == pos 16 then ok (some TypeDef.deserialize) else err (incorrect_chunk t)

abbrev pub TypeSection : Type 0
TypeSection = Indexed DataTypeDef

unfoldable pub type_section_deserialize : Bytes → ℕ → ℕ → Result (TypeSection × ℤ)
type_section_deserialize =
    indexed_deserialize TypeDef.get_id TypeDef.get_name section_type 2 type_factory

pub record DataTypeRef : Type 0 where
  pub id : ℤ
  pub name : Bytes
  pub datatypeid : ℤ
  pub properties : PropertyBlock

unfoldable pub ref_deserialize : Parser DataTypeRef
ref_deserialize buf p = do
  chunk ← chunk_deserialize (pos 16) buf p
  id ← get_int32 buf (p + 4)
  (name, n) ← string_deserialize buf (p + 8)
  datatypeid ← get_int32 buf (p + 8 + n)
  (props, k) ← block_deserialize empty_block buf (p + 12 + n)
  ok (record { id = id; name = name; datatypeid = datatypeid; properties = props }, 12 + n + k)

-- get_datatype and get_def, through the file's type section, which may be missing
unfoldable pub get_datatype : Option TypeSection → DataTypeRef → Result DataTypeDef
get_datatype types r = do section ← or_throw types undefined; get_child_by_id section r.datatypeid

-- SweepSection
unfoldable pub sweep_factory : Factory DataTypeRef
sweep_factory t =
    if t == pos 16
    then ok (some ref_deserialize)
    else if t == pos 3
    then ok none
    else err (incorrect_chunk t)

unfoldable pub sweep_section_deserialize : Bytes → ℕ → ℕ → Result (List DataTypeRef × ℕ)
sweep_section_deserialize = simple_deserialize sweep_factory

pub record GroupDef : Type 0 where
  pub id : ℤ
  pub name : Bytes
  pub nchildren : ℤ
  pub children : List DataTypeRef
  pub indexmap : List (ℤ × ℕ)
  pub namemap : List (Bytes × ℕ)

unfoldable pub group_factory : Factory DataTypeRef
group_factory t = if t == pos 16 then ok (some ref_deserialize) else err (incorrect_chunk t)

-- The rounds that are left, the place of the next child and the names so far. A missing child
-- would be a null pointer.
group_loop : ℕ → ℕ → List (Bytes × ℕ) → Bytes → ℕ → Result (List DataTypeRef × List (Bytes × ℕ) × ℕ)
group_loop zero i names buf p = ok ([], names, 0)
group_loop (suc rounds) i names buf p = do
  (child, n) ← deserialize_child group_factory buf p
  c ← or_throw child undefined
  (cs, names', m) ← group_loop rounds (i + 1) (insert c.name i names) buf (p + n)
  ok (c ∷ cs, names', n + m)

unfoldable pub index_by_id : ℕ → List DataTypeRef → List (ℤ × ℕ) → List (ℤ × ℕ)
index_by_id i [] m = m
index_by_id i (c ∷ cs) m = index_by_id (i + 1) cs (insert c.id i m)

-- `i < m_nchildren` holds in no round for a negative count.
abbrev rounds_of : ℤ → ℕ
rounds_of (pos n) = n
rounds_of (negsuc n) = 0

unfoldable pub group_deserialize : Parser GroupDef
unfolding group_loop
group_deserialize buf p = do
  chunk ← chunk_deserialize (pos 17) buf p
  id ← get_int32 buf (p + 4)
  (name, n) ← string_deserialize buf (p + 8)
  nchildren ← get_int32 buf (p + 8 + n)
  (cs, names, m) ← group_loop (rounds_of nchildren) 0 [] buf (p + 12 + n)
  ok (
    record {
      id = id;
      name = name;
      nchildren = nchildren;
      children = cs;
      indexmap = index_by_id 0 cs [];
      namemap = names;
    },
    12 + n + m,
  )

unfoldable pub group_child_index : GroupDef → Bytes → Result ℕ
group_child_index g name = or_throw (lookup name g.namemap) not_found

unfoldable pub group_child : GroupDef → Bytes → Result DataTypeRef
group_child g name = do i ← group_child_index g name; or_throw (get_elem? g.children i) out_of_range

-- fill_offsetmap from `offset` on: the map and the offset behind the group. A window size other
-- than 0 stands in place of each child's data size.
unfoldable pub fill_loop :
    Option TypeSection → ℤ → List (ℤ × ℤ) → ℤ → List DataTypeRef → Result (List (ℤ × ℤ) × ℤ)
fill_loop types windowsize offsetmap offset [] = ok (offsetmap, offset)
fill_loop types windowsize offsetmap offset (r ∷ rs) = do
  step ←
      (if windowsize == pos 0
        then (do def ← get_datatype types r; ok (pos (TypeDef.datasize def)))
        else ok windowsize)
  offset' ← add_int offset step
  fill_loop types windowsize (insert r.id offset offsetmap) offset' rs

unfoldable pub fill_offsetmap :
    Option TypeSection → GroupDef → List (ℤ × ℤ) → ℤ → ℤ → Result (List (ℤ × ℤ) × ℤ)
unfolding fill_loop
fill_offsetmap types g offsetmap windowsize startoffset = do
  (m, offset) ← fill_loop types windowsize offsetmap startoffset g.children
  ok (m, offset -ℤ startoffset)

-- The children of a trace section: a trace, or a group of traces. A group has no id of its own.
pub data Trace : Type 0 where
  ref : DataTypeRef → Trace
  group : GroupDef → Trace

abbrev pub trace_id : Trace → ℤ
trace_id (ref r) = r.id
trace_id (group g) = negsuc 0

abbrev pub trace_name : Trace → Bytes
trace_name (ref r) = r.name
trace_name (group g) = g.name

ref_trace : Parser Trace
ref_trace buf p = do (r, n) ← ref_deserialize buf p; ok (ref r, n)

group_trace : Parser Trace
group_trace buf p = do (g, n) ← group_deserialize buf p; ok (group g, n)

unfoldable pub trace_factory : Factory Trace
unfolding ref_trace group_trace
trace_factory t =
    if t == pos 16
    then ok (some ref_trace)
    else if t == pos 17
    then ok (some group_trace)
    else err (incorrect_chunk t)

abbrev pub TraceSection : Type 0
TraceSection = Indexed Trace

unfoldable pub trace_section_deserialize : Bytes → ℕ → ℕ → Result (TraceSection × ℤ)
trace_section_deserialize = indexed_deserialize trace_id trace_name section_type 4 trace_factory

-- TraceSection::get_names: a group gives the names of its children.
unfoldable pub trace_names : List Trace → List Bytes
trace_names [] = []
trace_names (ref r ∷ ts) = r.name ∷ trace_names ts
trace_names (group g ∷ ts) = map (λ r. r.name) g.children ++ trace_names ts

as_ref : Trace → Result DataTypeRef
as_ref (ref r) = ok r
as_ref (group g) = err bad_cast

-- the search of the groups, whose first one returns or throws
search_groups : Bytes → List Trace → Result DataTypeRef
search_groups name [] = err not_found
search_groups name (ref r ∷ ts) = search_groups name ts
search_groups name (group g ∷ ts) = group_child g name

-- The handler of NotFound, around the lookup and the cast of the section's own child.
abbrev catch_not_found : Result DataTypeRef → Result DataTypeRef → Result DataTypeRef
catch_not_found (err Error.not_found) handler = handler
catch_not_found r handler = r

unfoldable pub get_trace_by_name : TraceSection → Bytes → Result DataTypeRef
unfolding as_ref search_groups
get_trace_by_name s name =
    catch_not_found (do t ← get_child_by_name s name; as_ref t) (search_groups name s.children)

-- get_traceindex_by_name: the place of a trace, or the places of every group and of the trace in
-- it, where each group must have it.
group_places : Bytes → ℕ → List Trace → Result (List ℤ)
group_places name i [] = ok []
group_places name i (ref r ∷ ts) = group_places name (i + 1) ts
group_places name i (group g ∷ ts) = do
  j ← group_child_index g name
  rest ← group_places name (i + 1) ts
  ok (pos i ∷ (pos j ∷ rest))

unfoldable pub get_traceindex_by_name : TraceSection → Bytes → Result (List ℤ)
unfolding group_places
get_traceindex_by_name s name =
    let i = get_child_index s name in
    if i == negsuc 0 then group_places name 0 s.children else ok (i ∷ [])

-- `at` of a vector throws out_of_range at a negative place too.
at_place {ℓ} : {A : Type ℓ} → List A → ℤ → Result A
at_place xs (pos i) = or_throw (get_elem? xs i) out_of_range
at_place xs (negsuc i) = err out_of_range

as_group : Trace → Result GroupDef
as_group (ref r) = err bad_cast
as_group (group g) = ok g

-- get_trace_by_index; `idx[1]` of an index of no elements is undefined, as is `idx[0]`.
unfoldable pub get_trace_by_index : TraceSection → List ℤ → Result DataTypeRef
unfolding at_place as_ref as_group
get_trace_by_index s [] = err undefined
get_trace_by_index s (i ∷ []) = do t ← at_place s.children i; as_ref t
get_trace_by_index s (i ∷ (j ∷ rest)) = do
  t ← at_place s.children i
  g ← as_group t
  at_place g.children j
