-- ===== src/Container.antt =====
-- SimpleContainer of src/psfcontainer.cc and IndexedContainer of src/psfindexedcontainer.cc, over
-- the class `C` of the children. A section starts at the position `start`, where the file offset is
-- `abspos`; `off` is `buf-startbuf`.
pub mod Index
pub mod Lookup
pub mod Fuel
pub mod RoundTrip
pub mod Encoded
use libpsf.Prelude.{
  ℕ, zero, suc, ◌+◌, ◌-◌, ◌*◌, ◌/◌, ◌%◌, ◌^◌, Bool, true, false, Option, none, some, List, [], ◌∷◌,
  map, length, ltb, eqb, get_elem?, if◌then◌else◌,
}
use libpsf.Prelude.Int.{ℤ, pos, negsuc, to_int32}
use libpsf.Prelude.Assoc.{lookup, insert, int_eq, bytes_eq}
use libpsf.Outcome.{
  Result, ok, err, stuck, undefined, not_found, assert_failed, out_of_range, or_throw, ◌>>=◌,
}
use libpsf.Buffer.{Bytes, Parser, get_int32, get_uint32}
use libpsf.Chunk.{Factory, chunk_deserialize, deserialize_child}

abbrev pub section_type : ℤ
section_type = pos 21

module _ {ℓ} {C : Type ℓ} (factory : Factory C) (buf : Bytes) (start abspos : ℕ) where
  -- while(abspos + (buf-startbuf) < endpos), up to an end marker
  unfoldable pub children_loop : ℕ → ℕ → ℕ → Result (List C × ℕ)
  children_loop zero endpos off = stuck
  children_loop (suc fuel) endpos off = elim (ltb (abspos + off) endpos) [
    | false ↦ ok ([], off)
    | true ↦ do
      (child, n) ← deserialize_child factory buf (start + off)
      elim child [
        | none ↦ ok ([], off + n)
        | some c ↦ do (cs, o) ← children_loop fuel endpos (off + n); ok (c ∷ cs, o)
      ]
  ]

  -- A child takes a word and more, so a round for each byte of the file is enough.
  unfoldable pub simple_deserialize : Result (List C × ℕ)
  simple_deserialize = do
    n ← chunk_deserialize section_type buf start
    endpos ← get_uint32 buf (start + 4)
    children_loop (suc (length buf)) endpos 8

-- The reads of one entry of an index, and of all entries
read_entry : ℕ → Bytes → ℕ → Result (Unit {0})
read_entry zero buf p = ok tt
read_entry (suc words) buf p = do w ← get_int32 buf p; read_entry words buf (p + 4)

read_entries : ℕ → ℕ → Bytes → ℕ → Result (Unit {0})
unfolding read_entry
read_entries zero words buf p = ok tt
read_entries (suc rounds) words buf p = do
  u ← read_entry words buf p
  read_entries rounds words buf (p + 4 * words)

-- Index::deserialize, with two words to an entry, and TraceIndex::deserialize, with four. The
-- entries are read and dropped.
unfoldable pub index_deserialize : ℕ → Bytes → ℕ → Result ℕ
unfolding read_entries
index_deserialize words buf p = do
  n ← chunk_deserialize (pos 19) buf p
  size ← get_uint32 buf (p + 4)
  u ← read_entries ((size + 4 * words - 1) / (4 * words)) words buf (p + 8)
  ok (8 + size)

-- `idmap` has the children themselves, `namemap` their places.
pub record Indexed {ℓ} (C : Type ℓ) : Type ℓ where
  pub children : List C
  pub idmap : List (ℤ × C)
  pub namemap : List (Bytes × ℕ)

module _ {ℓ} {C : Type ℓ} (get_id : C → ℤ) (get_name : C → Bytes) where
  -- the loop that fills the maps, from place `i` on
  unfoldable pub fill_idmap : List C → List (ℤ × C) → List (ℤ × C)
  fill_idmap [] m = m
  fill_idmap (c ∷ cs) m = fill_idmap cs (insert (get_id c) c m)

  unfoldable pub fill_namemap : ℕ → List C → List (Bytes × ℕ) → List (Bytes × ℕ)
  fill_namemap i [] m = m
  fill_namemap i (c ∷ cs) m = fill_namemap (i + 1) cs (insert (get_name c) i m)

  unfoldable pub make_indexed : List C → Indexed C
  unfolding fill_idmap fill_namemap
  make_indexed cs = record {
    children = cs;
    idmap = fill_idmap cs [];
    namemap = fill_namemap 0 cs [];
  }

  -- IndexedContainer::deserialize; the result is the container and the `int` that is returned.
  -- `chunktype` is the type that the class expects and `words` the size of an index entry.
  unfoldable pub indexed_deserialize : ℤ → ℕ → Factory C → Bytes → ℕ → ℕ → Result (Indexed C × ℤ)
  indexed_deserialize chunktype words factory buf start abspos = do
    n ← chunk_deserialize chunktype buf start
    endpos ← get_uint32 buf (start + 4)
    subtype ← get_uint32 buf (start + 8)
    if eqb subtype 22
        then (do
          subendpos ← get_uint32 buf (start + 12)
          (cs, off) ← children_loop factory buf start abspos (suc (length buf)) subendpos 16
          m ← index_deserialize words buf (start + off)
          ok (make_indexed cs, to_int32 ((endpos + 2 ^ 32 - abspos) % 2 ^ 32)))
        else err assert_failed

module _ {ℓ} {C : Type ℓ} where
  -- get_child(int): the iterator at the end is dereferenced where there is no such id.
  unfoldable pub get_child_by_id : Indexed C → ℤ → Result C
  get_child_by_id s id = or_throw (lookup id s.idmap) undefined

  unfoldable pub get_child_by_name : Indexed C → Bytes → Result C
  get_child_by_name s name = do
    i ← or_throw (lookup name s.namemap) not_found
    or_throw (get_elem? s.children i) out_of_range

  unfoldable pub get_child_index : Indexed C → Bytes → ℤ
  get_child_index s name = elim (lookup name s.namemap) [ none ↦ negsuc 0 | some i ↦ pos i ]

  -- Container::get_names
  unfoldable pub get_names : (C → Bytes) → List C → List Bytes
  get_names get_name cs = map get_name cs
