-- ===== src/Trace/RoundTrip.antt =====
-- DataTypeRef of src/psftype.cc and GroupDef of src/psfgroup.cc, encoded and read back.
use libpsf.Prelude.{
  ℕ, ◌+◌, ◌-◌, ◌^◌, ◌<◌, ◌≡◌, refl, sym, ap, ◌∙◌, List, [], ◌∷◌, ◌++◌, All, length, length-append,
  arith,
}
use mathlib.Core.Path.{subst}
use libpsf.Prelude.Int.{ℤ, pos, InInt}
use libpsf.Prelude.Assoc.{insert, int_eq, bytes_eq}
use libpsf.Outcome.{ok}
use libpsf.Buffer.{Bytes, get_int32}
use libpsf.Buffer.At.{At, At-then}
use libpsf.Buffer.Words.{encode_int, length-encode_int, get_int32-encode_int}
use libpsf.Scalar.Strings.{encode_string, string_deserialize-encode_string}
use libpsf.Chunk.{deserialize_child}
use libpsf.Chunk.Laws.{chunk_deserialize-encode_int}
use libpsf.Property.{empty_block, ischunk}
use libpsf.Property.RoundTrip.{encode_all, Ends, block_deserialize-encode_all}
use libpsf.TypeDef.Encode.{IsBlock}
use libpsf.Container.RoundTrip.{ChildrenAt, length-ChildrenAt}
use libpsf.Container.Encoded.{Coding, encode_each, ChildrenAt-encode_each}
use libpsf.Trace.{
  DataTypeRef, ref_deserialize, GroupDef, group_factory, group_loop, index_by_id, rounds_of,
  group_deserialize,
}

unfoldable pub encode_ref : DataTypeRef → Bytes
encode_ref r =
    encode_int (pos 16)
    ++ (encode_int r.id
        ++ (encode_string r.name ++ (encode_int r.datatypeid ++ encode_all r.properties.proplist)))

-- The fields fit the format.
abbrev pub IsRef : DataTypeRef → Type 0
IsRef r = InInt r.id × (length r.name < 2 ^ 31) × InInt r.datatypeid × IsBlock r.properties

pub length-encode_ref :
    (r : DataTypeRef)
    → length (encode_ref r)
      ≡ 12 + length (encode_string r.name) + length (encode_all r.properties.proplist)
unfolding encode_ref
length-encode_ref r =
    let block = encode_all r.properties.proplist in
    let b = encode_int r.datatypeid ++ block in
    let c = encode_string r.name ++ b in
    omega (
      arith,
      length-append (encode_int (pos 16)) (encode_int r.id ++ c),
      length-append (encode_int r.id) c,
      length-append (encode_string r.name) b,
      length-append (encode_int r.datatypeid) block,
      length-encode_int (pos 16),
      length-encode_int r.id,
      length-encode_int r.datatypeid,
    )

pub ref-head :
    (r : DataTypeRef) (buf : Bytes) (p : ℕ)
    → At buf p (encode_ref r)
    → get_int32 buf p ≡ ok (pos 16)
unfolding encode_ref
ref-head r buf p at =
    let (kind, rest) = At-then buf p (encode_int (pos 16)) _ _ at refl in
    get_int32-encode_int buf p (pos 16) (omega arith) kind

-- A reference in the file is read back, up to a chunk that is no property.
pub ref_deserialize-encode_ref :
    (r : DataTypeRef) (buf : Bytes) (p : ℕ) (t : ℤ)
    → IsRef r
    → At buf p (encode_ref r)
    → Ends buf (p + length (encode_ref r)) t
    → ref_deserialize buf p ≡ ok (r, length (encode_ref r))
unfolding ref_deserialize encode_ref
ref_deserialize-encode_ref r buf p t (iid, iname, ity, (ps, same)) at (e, stop) =
    let n = length (encode_string r.name) in
    let (kind, at₁) =
      At-then buf p (encode_int (pos 16)) _ (p + 4) at
        (omega (arith, length-encode_int (pos 16))) in
    let (ident, at₂) =
      At-then buf (p + 4) (encode_int r.id) _ (p + 8) at₁ (omega (arith, length-encode_int r.id)) in
    let (title, at₃) = At-then buf (p + 8) (encode_string r.name) _ (p + 8 + n) at₂ refl in
    let (class, block) =
      At-then buf (p + 8 + n) (encode_int r.datatypeid) _ (p + 12 + n) at₃
        (omega (arith, length-encode_int r.datatypeid)) in
    let behind : p + length (encode_ref r)
        ≡ p + 12 + n + length (encode_all r.properties.proplist) =
      omega (arith, length-encode_ref r) in
    rw
      (
        chunk_deserialize-encode_int buf p (pos 16) (omega arith) kind,
        get_int32-encode_int buf (p + 4) r.id iid ident,
        string_deserialize-encode_string buf (p + 8) r.name iname title,
        get_int32-encode_int buf (p + 8 + n) r.datatypeid ity class,
        block_deserialize-encode_all buf (p + 12 + n) empty_block r.properties.proplist t ps block
            (rw behind at e, stop),
        same,
      )
      (ap (λ k. ok (r, k)) (sym (length-encode_ref r)))

pub group-Coding : (buf : Bytes) → Coding group_factory encode_ref IsRef buf
unfolding deserialize_child group_factory ischunk
group-Coding buf = record {
  reads = λ r p t fit at ends.
      rw (ref-head r buf p at, ref_deserialize-encode_ref r buf p t fit at ends) refl;
  begins = λ r p at. (pos 16, (ref-head r buf p at, refl));
  takes = λ r. omega (arith, length-encode_ref r);
}

-- The map of names that the loop over a group's children fills
unfoldable pub name_places : ℕ → List DataTypeRef → List (Bytes × ℕ) → List (Bytes × ℕ)
name_places i [] names = names
name_places i (c ∷ cs) names = name_places (i + 1) cs (insert c.name i names)

group_loop-ChildrenAt :
    (buf : Bytes) (cs : List DataTypeRef) (i : ℕ) (names : List (Bytes × ℕ)) (p m : ℕ)
    → ChildrenAt group_factory buf cs p (p + m)
    → group_loop (length cs) i names buf p ≡ ok (cs, name_places i cs names, m)
unfolding group_loop name_places
group_loop-ChildrenAt buf [] i names p m at = ap (λ k. ok ([], names, k)) (omega arith)
group_loop-ChildrenAt buf (c ∷ cs) i names p m (n, some_bytes, read, at) =
    let le = length-ChildrenAt group_factory buf cs (p + n) (p + m) at in
    let e : p + m ≡ p + n + (m - n) = omega arith in
    rw
      (
        read,
        group_loop-ChildrenAt buf cs (i + 1) (insert c.name i names) (p + n) (m - n) (rw e at at),
      )
      (ap (λ k. ok (c ∷ cs, name_places (i + 1) cs (insert c.name i names), k)) (omega arith))

unfoldable pub encode_group : GroupDef → Bytes
encode_group g =
    encode_int (pos 17)
    ++ (encode_int g.id
        ++ (encode_string g.name ++ (encode_int g.nchildren ++ encode_each encode_ref g.children)))

-- The fields fit the format, and the maps are those of the children.
pub record IsGroup (g : GroupDef) : Type 0 where
  pub ident : InInt g.id
  pub title : length g.name < 2 ^ 31
  pub count : g.nchildren ≡ pos (length g.children)
  pub few : length g.children < 2 ^ 31
  pub members : All IsRef g.children
  pub indexed : g.indexmap ≡ index_by_id 0 g.children []
  pub named : g.namemap ≡ name_places 0 g.children []

length-encode_group :
    (g : GroupDef)
    → length (encode_group g)
      ≡ 12 + length (encode_string g.name) + length (encode_each encode_ref g.children)
unfolding encode_group
length-encode_group g =
    let cs = encode_each encode_ref g.children in
    let b = encode_int g.nchildren ++ cs in
    let c = encode_string g.name ++ b in
    omega (
      arith,
      length-append (encode_int (pos 17)) (encode_int g.id ++ c),
      length-append (encode_int g.id) c,
      length-append (encode_string g.name) b,
      length-append (encode_int g.nchildren) cs,
      length-encode_int (pos 17),
      length-encode_int g.id,
      length-encode_int g.nchildren,
    )

pub group-head :
    (g : GroupDef) (buf : Bytes) (p : ℕ) → At buf p (encode_group g) → get_int32 buf p ≡ ok (pos 17)
unfolding encode_group
group-head g buf p at =
    let (kind, rest) = At-then buf p (encode_int (pos 17)) _ _ at refl in
    get_int32-encode_int buf p (pos 17) (omega arith) kind

pub length-encode_group_pos : (g : GroupDef) → 0 < length (encode_group g)
length-encode_group_pos g = omega (arith, length-encode_group g)

-- A group in the file is read back, with its children and its maps, up to a chunk that is no
-- property.
pub group_deserialize-encode_group :
    (g : GroupDef) (buf : Bytes) (p : ℕ) (t : ℤ)
    → IsGroup g
    → At buf p (encode_group g)
    → Ends buf (p + length (encode_group g)) t
    → group_deserialize buf p ≡ ok (g, length (encode_group g))
unfolding group_deserialize encode_group
group_deserialize-encode_group g buf p t fit at ends =
    let n = length (encode_string g.name) in
    let m = length (encode_each encode_ref g.children) in
    let (kind, at₁) =
      At-then buf p (encode_int (pos 17)) _ (p + 4) at
        (omega (arith, length-encode_int (pos 17))) in
    let (ident, at₂) =
      At-then buf (p + 4) (encode_int g.id) _ (p + 8) at₁ (omega (arith, length-encode_int g.id)) in
    let (title, at₃) = At-then buf (p + 8) (encode_string g.name) _ (p + 8 + n) at₂ refl in
    let (count, children) =
      At-then buf (p + 8 + n) (encode_int g.nchildren) _ (p + 12 + n) at₃
        (omega (arith, length-encode_int g.nchildren)) in
    let behind : p + length (encode_group g) ≡ p + 12 + n + m =
      omega (arith, length-encode_group g) in
    let found =
      ChildrenAt-encode_each group_factory encode_ref IsRef buf (group-Coding buf) g.children
        (p + 12 + n) (p + 12 + n + m) t fit.members children refl (rw behind at ends) in
    let loop : group_loop (rounds_of g.nchildren) 0 [] buf (p + 12 + n)
        ≡ ok (g.children, name_places 0 g.children [], m) =
      ap (λ k. group_loop (rounds_of k) 0 [] buf (p + 12 + n)) fit.count
      ∙ group_loop-ChildrenAt buf g.children 0 [] (p + 12 + n) m found in
    let int : InInt g.nchildren = subst InInt (sym fit.count) (fit.few, omega arith) in
    let made : record {
      id = g.id;
      name = g.name;
      nchildren = g.nchildren;
      children = g.children;
      indexmap = index_by_id 0 g.children [];
      namemap = name_places 0 g.children [];
    }
        ≡ g =
      λ i. record g { indexmap = sym fit.indexed i; namemap = sym fit.named i } in
    rw
      (
        chunk_deserialize-encode_int buf p (pos 17) (omega arith) kind,
        get_int32-encode_int buf (p + 4) g.id fit.ident ident,
        string_deserialize-encode_string buf (p + 8) g.name fit.title title,
        get_int32-encode_int buf (p + 8 + n) g.nchildren int count,
        loop,
      )
      (λ i. ok (made i, sym (length-encode_group g) i))
