-- ===== src/Container/RoundTrip.antt =====
-- A section in the file, as SimpleContainer::deserialize of src/psfcontainer.cc and
-- IndexedContainer::deserialize of src/psfindexedcontainer.cc read it back. A section starts at the
-- file offset that its table entry states.
use libpsf.Prelude.{
  ℕ, zero, suc, ◌+◌, ◌-◌, ◌*◌, ◌/◌, ◌%◌, ◌^◌, ◌<◌, ◌≤◌, ◌≡◌, refl, sym, ap, ◌∙◌, false, none, some,
  List, [], ◌∷◌, ◌++◌, length, arith, ltb, lt→ltb,
}
use mathlib.Core.Path.{subst}
use libpsf.Prelude.Int.{ℤ, pos, to_int32, to_int32-pos}
use libpsf.Outcome.{ok}
use libpsf.Buffer.{Bytes, get_int32, get_uint32}
use libpsf.Buffer.At.{At, At-then}
use libpsf.Buffer.Words.{to_be, length-to_be, get_uint32-At, encode_int, length-encode_int}
use libpsf.Chunk.{Factory, chunk_deserialize, deserialize_child}
use libpsf.Chunk.Laws.{chunk_deserialize-encode_int}
use libpsf.Prelude.{get_elem?}
use libpsf.Buffer.{read_bytes, from_be}
use libpsf.Container.{
  section_type, children_loop, simple_deserialize, read_entry, read_entries, index_deserialize,
  make_indexed, indexed_deserialize,
}

not_lt : (a b : ℕ) → b ≤ a → ltb a b ≡ false
not_lt a b h = ground arith

module _ {C : Type 0} (factory : Factory C) (buf : Bytes) where
  -- The children stand one behind the other from `p` on, the last one up to `q`.
  abbrev pub ChildrenAt : List C → ℕ → ℕ → Type 0
  ChildrenAt [] p q = p ≡ q
  ChildrenAt (c ∷ cs) p q =
      (n : ℕ) × (0 < n)
      × (deserialize_child factory buf p ≡ ok (some c, n))
      × ChildrenAt cs (p + n) q

  pub length-ChildrenAt : (cs : List C) (p q : ℕ) → ChildrenAt cs p q → p + length cs ≤ q
  length-ChildrenAt [] p q h = omega arith
  length-ChildrenAt (c ∷ cs) p q (n, some_bytes, read, h) =
      omega (arith, length-ChildrenAt cs (p + n) q h)

  children_loop-ChildrenAt :
      (cs : List C) (start off off' fuel : ℕ)
      → length cs < fuel
      → ChildrenAt cs (start + off) (start + off')
      → children_loop factory buf start start fuel (start + off') off ≡ ok (cs, off')
  unfolding children_loop
  children_loop-ChildrenAt cs start off off' zero h at = absurd (omega arith)
  children_loop-ChildrenAt [] start off off' (suc fuel) h at =
      rw (children_loop, not_lt (start + off) (start + off') (omega arith))
        (ap (λ n. ok ([], n)) (omega arith))
  children_loop-ChildrenAt (c ∷ cs) start off off' (suc fuel) h (n, some_bytes, read, at) =
      let le = length-ChildrenAt cs (start + off + n) (start + off') at in
      let e : start + off + n ≡ start + (off + n) = omega arith in
      rw
        (
          children_loop,
          lt→ltb (start + off) (start + off') (omega arith),
          read,
          children_loop-ChildrenAt cs start (off + n) off' fuel (omega arith) (rw e at at),
        )
        refl

  children_loop-MarkedAt :
      (cs : List C) (start off off' end fuel : ℕ)
      → length cs < fuel
      → start + off' < end
      → ChildrenAt cs (start + off) (start + off')
      → deserialize_child factory buf (start + off') ≡ ok (none, 4)
      → children_loop factory buf start start fuel end off ≡ ok (cs, off' + 4)
  unfolding children_loop
  children_loop-MarkedAt cs start off off' end zero h inside at mark = absurd (omega arith)
  children_loop-MarkedAt [] start off off' end (suc fuel) h inside at mark =
      let same : off' ≡ off = omega arith in
      let here : deserialize_child factory buf (start + off) ≡ ok (none, 4) =
        subst (λ o. deserialize_child factory buf (start + o) ≡ ok (none, 4)) same mark in
      rw (children_loop, lt→ltb (start + off) end (omega arith), here)
        (ap (λ n. ok ([], n + 4)) (sym same))
  children_loop-MarkedAt (c ∷ cs) start off off' end (suc fuel) h inside (n, some_bytes, read, at)
        mark =
      let le = length-ChildrenAt cs (start + off + n) (start + off') at in
      let e : start + off + n ≡ start + (off + n) = omega arith in
      rw
        (
          children_loop,
          lt→ltb (start + off) end (omega arith),
          read,
          children_loop-MarkedAt cs start (off + n) off' end fuel (omega arith) inside (rw e at at)
              mark,
        )
        refl

  -- A section with its chunk type, the position behind it, its children, and the end marker.
  pub simple_deserialize-MarkedAt :
      (cs : List C) (start size : ℕ)
      → start + (12 + size) < 2 ^ 32
      → start + (12 + size) ≤ length buf
      → At buf start (encode_int section_type ++ to_be 4 (start + (12 + size)))
      → ChildrenAt cs (start + 8) (start + (8 + size))
      → deserialize_child factory buf (start + (8 + size)) ≡ ok (none, 4)
      → simple_deserialize factory buf start start ≡ ok (cs, 12 + size)
  unfolding simple_deserialize
  simple_deserialize-MarkedAt cs start size word room at children mark =
      let (kind, end) =
        At-then buf start (encode_int section_type) _ (start + 4) at
          (omega (arith, length-encode_int section_type)) in
      let total : 8 + size + 4 ≡ 12 + size = omega arith in
      rw
        (
          chunk_deserialize-encode_int buf start section_type (omega arith) kind,
          get_uint32-At buf (start + 4) (start + (12 + size)) word end,
        )
        (children_loop-MarkedAt cs start 8 (8 + size) (start + (12 + size)) (suc (length buf))
            (omega (arith, length-ChildrenAt cs (start + 8) (start + (8 + size)) children))
            (omega arith) children mark
          ∙ ap (λ n. ok (cs, n)) total)

-- The head of an indexed section with its children of `size` bytes, and an index of `index`
-- bytes and a word behind them
abbrev pub indexed_head : ℕ → ℕ → ℕ → Bytes
indexed_head start size index =
    encode_int section_type
    ++ (to_be 4 (start + (28 + size + index)) ++ (to_be 4 22 ++ to_be 4 (start + (16 + size))))

-- The reads inside of the file
get_elem?-room : (xs : Bytes) (i : ℕ) → i < length xs → (a : ℕ) × (get_elem? xs i ≡ some a)
get_elem?-room [] i h = absurd (omega arith)
get_elem?-room (x ∷ xs) zero h = (x, refl)
get_elem?-room (x ∷ xs) (suc i) h = get_elem?-room xs i (omega arith)

module _ (buf : Bytes) where
  read_bytes-room : (p n : ℕ) → p + n ≤ length buf → (bs : Bytes) × (read_bytes buf p n ≡ ok bs)
  unfolding read_bytes
  read_bytes-room p zero h = ([], refl)
  read_bytes-room p (suc n) h =
      let (b, first) = get_elem?-room buf p (omega arith) in
      let (bs, rest) = read_bytes-room (p + 1) n (omega arith) in (b ∷ bs, rw (first, rest) refl)

  get_int32-room : (p : ℕ) → p + 4 ≤ length buf → (z : ℤ) × (get_int32 buf p ≡ ok z)
  unfolding get_int32 get_uint32
  get_int32-room p h =
      let (bs, read) = read_bytes-room p 4 h in (to_int32 (from_be 0 bs), rw read refl)

  read_entry-room : (words p : ℕ) → p + 4 * words ≤ length buf → read_entry words buf p ≡ ok tt
  unfolding read_entry
  read_entry-room zero p h = refl
  read_entry-room (suc words) p h =
      let (z, read) = get_int32-room p (omega arith) in
      rw (read, read_entry-room words (p + 4) (omega arith)) refl

  read_entries-room :
      (rounds words p : ℕ)
      → p + rounds * (4 * words) ≤ length buf
      → read_entries rounds words buf p ≡ ok tt
  unfolding read_entries
  read_entries-room zero words p h = refl
  read_entries-room (suc rounds) words p h =
      rw
        (
          read_entry-room words p (omega arith),
          read_entries-room rounds words (p + 4 * words) (omega arith),
        )
        refl

  -- An index of `rounds` entries is passed over.
  index_deserialize-At :
      (words rounds size p : ℕ)
      → (size + 4 * words - 1) / (4 * words) ≡ rounds
      → size < 2 ^ 32
      → p + 8 + rounds * (4 * words) ≤ length buf
      → At buf p (encode_int (pos 19) ++ to_be 4 size)
      → index_deserialize words buf p ≡ ok (8 + size)
  unfolding index_deserialize
  index_deserialize-At words rounds size p whole small room at =
      let (kind, word) =
        At-then buf p (encode_int (pos 19)) _ (p + 4) at
          (omega (arith, length-encode_int (pos 19))) in
      rw
        (
          chunk_deserialize-encode_int buf p (pos 19) (omega arith) kind,
          get_uint32-At buf (p + 4) size small word,
          whole,
          read_entries-room rounds words (p + 8) room,
        )
        refl

  module _ {C : Type 0} (get_id : C → ℤ) (get_name : C → Bytes) (factory : Factory C) where
    pub indexed_deserialize-ChildrenAt :
        (chunktype : ℤ) (words rounds : ℕ) (cs : List C) (start size entries : ℕ)
        → chunk_deserialize chunktype buf start ≡ ok 4
        → (entries + 4 * words - 1) / (4 * words) ≡ rounds
        → entries ≡ rounds * (4 * words)
        → start + (28 + size + entries) < 2 ^ 31
        → start + (28 + size + entries) ≤ length buf
        → At buf start (indexed_head start size entries)
        → ChildrenAt factory buf cs (start + 16) (start + (16 + size))
        → At buf (start + (16 + size)) (encode_int (pos 19) ++ to_be 4 entries)
        → indexed_deserialize get_id get_name chunktype words factory buf start start
          ≡ ok (make_indexed get_id get_name cs, pos (28 + size + entries))
    unfolding indexed_deserialize
    indexed_deserialize-ChildrenAt chunktype words rounds cs start size entries accepted count whole
          word room at children index =
        let total = 28 + size + entries in
        let (kind, at₁) =
          At-then buf start (encode_int section_type) _ (start + 4) at
            (omega (arith, length-encode_int section_type)) in
        let (end, at₂) =
          At-then buf (start + 4) (to_be 4 (start + total)) _ (start + 8) at₁
            (omega (arith, length-to_be 4 (start + total))) in
        let (sub, subend) =
          At-then buf (start + 8) (to_be 4 22) _ (start + 12) at₂
            (omega (arith, length-to_be 4 22)) in
        let le = length-ChildrenAt factory buf cs (start + 16) (start + (16 + size)) children in
        rw
          (
            accepted,
            get_uint32-At buf (start + 4) (start + total) (omega arith) end,
            get_uint32-At buf (start + 8) 22 (omega arith) sub,
            get_uint32-At buf (start + 12) (start + (16 + size)) (omega arith) subend,
            children_loop-ChildrenAt factory buf cs start 16 (16 + size) (suc (length buf))
                (omega arith) children,
            index_deserialize-At words rounds entries (start + (16 + size)) count (omega arith)
                (omega arith) index,
          )
          (let back : (start + total + 2 ^ 32 - start) % 2 ^ 32 ≡ total = omega arith in
            rw (back, to_int32-pos total (omega arith)) refl)
