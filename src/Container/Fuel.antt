-- ===== src/Container/Fuel.antt =====
-- The fuel of the loops over the children of a section (src/psfcontainer.cc), and what they read.
use libpsf.Prelude.{
  ℕ, zero, suc, ◌+◌, ◌*◌, ◌-◌, ◌/◌, ◌<◌, ◌≤◌, Bool-cases, inl, inr, Option, none, some, List, [],
  ◌∷◌, All, length, ltb, eqb, arith,
}
use libpsf.Prelude.Int.{ℤ, pos}
use libpsf.Outcome.{ok, assert_failed, ◌>>=◌, Yields, holds, throws, Yields-bind, Yields-if}
use libpsf.Buffer.{Bytes}
use libpsf.Buffer.Words.{get_int32-Yields, get_uint32-Yields}
use libpsf.Chunk.{Factory}
use libpsf.Chunk.Laws.{ChildRead, Allows, chunk_deserialize-Yields, deserialize_child-Yields}
use libpsf.Container.{
  section_type, children_loop, simple_deserialize, index_deserialize, read_entries, read_entry,
  make_indexed, indexed_deserialize,
}
use libpsf.Container.Index.{IsIndexed, make_indexed-IsIndexed}

-- A child takes a word at least.
abbrev pub Child {ℓ} : {C : Type ℓ} → (C → Type 0) → C × ℕ → Type 0
Child Q (c, n) = Q c × (4 ≤ n)

module _ {ℓ} {C : Type ℓ} (Q : C → Type 0) (factory : Factory C) (buf : Bytes) (start abspos : ℕ)
    (allows : (p : ℕ) (t : ℤ) → Yields (Allows (Child Q) buf p) (factory t)) where
  abbrev ChildrenRead : ℕ → List C × ℕ → Type 0
  ChildrenRead off (cs, o) = All Q cs × (off ≤ o)

  -- one round, behind the child
  children_round :
      (fuel endpos off : ℕ) (child : Option C) (n : ℕ)
      → ChildRead (Child Q) buf (start + off) (child, n)
      → ((m : ℕ)
          → 4 ≤ m
          → Yields
              (ChildrenRead (off + m))
              (children_loop factory buf start abspos fuel endpos (off + m)))
      → Yields (ChildrenRead off) (elim child [
        | none ↦ ok ([], off + n)
        | some c ↦ do
          (cs, o) ← children_loop factory buf start abspos fuel endpos (off + n)
          ok (c ∷ cs, o)
      ])
  children_round fuel endpos off none n h rest = holds (tt, omega arith)
  children_round fuel endpos off (some c) n (q, big) rest =
      Yields-bind (rest n big) λ (cs, o) (qs, le). holds ((q, qs), omega arith)

  pub children_loop-Yields :
      (fuel endpos off : ℕ)
      → length buf < start + off + fuel
      → 0 < fuel
      → Yields (ChildrenRead off) (children_loop factory buf start abspos fuel endpos off)
  unfolding children_loop
  children_loop-Yields zero endpos off h z = absurd (omega arith)
  children_loop-Yields (suc fuel) endpos off h z = elim (Bool-cases (ltb (abspos + off) endpos)) [
    | inr done ↦ rw (done, children_loop) (holds (tt, omega arith))
    | inl more ↦
        rw (more, children_loop)
          (Yields-bind
            (deserialize_child-Yields (Child Q) buf (start + off) factory (allows (start + off)))
            λ (child, n) (read, le).
              children_round fuel endpos off child n read
                (λ m big. children_loop-Yields fuel endpos (off + m) (omega arith) (omega arith)))
  ]

  -- A section is read within the fuel, and `Q` holds of its children.
  pub simple_deserialize-Yields :
      Yields (λ (cs, o). All Q cs × (8 ≤ o)) (simple_deserialize factory buf start abspos)
  unfolding simple_deserialize
  simple_deserialize-Yields =
      Yields-bind (chunk_deserialize-Yields section_type buf start) λ n (_, le).
        Yields-bind (get_uint32-Yields buf (start + 4))
          λ endpos _. children_loop-Yields (suc (length buf)) endpos 8 (omega arith) (omega arith)

read_entry-Yields :
    (words : ℕ) (buf : Bytes) (p : ℕ) → Yields (λ u. Unit {0}) (read_entry words buf p)
unfolding read_entry
read_entry-Yields zero buf p = holds tt
read_entry-Yields (suc words) buf p =
    Yields-bind (get_int32-Yields buf p) λ w _. read_entry-Yields words buf (p + 4)

read_entries-Yields :
    (rounds words : ℕ) (buf : Bytes) (p : ℕ)
    → Yields (λ u. Unit {0}) (read_entries rounds words buf p)
unfolding read_entries
read_entries-Yields zero words buf p = holds tt
read_entries-Yields (suc rounds) words buf p =
    Yields-bind (read_entry-Yields words buf p)
      λ u _. read_entries-Yields rounds words buf (p + 4 * words)

pub index_deserialize-Yields :
    (words : ℕ) (buf : Bytes) (p : ℕ) → Yields (λ n. 8 ≤ n) (index_deserialize words buf p)
unfolding index_deserialize
index_deserialize-Yields words buf p = Yields-bind (chunk_deserialize-Yields (pos 19) buf p) λ n _.
    Yields-bind (get_uint32-Yields buf (p + 4)) λ size _.
      Yields-bind (read_entries-Yields ((size + 4 * words - 1) / (4 * words)) words buf (p + 8))
        λ u _. holds (omega arith)

module _ {ℓ} {C : Type ℓ} (Q : C → Type 0) (factory : Factory C) (buf : Bytes) (start abspos : ℕ)
    (allows : (p : ℕ) (t : ℤ) → Yields (Allows (Child Q) buf p) (factory t)) (get_id : C → ℤ)
    (get_name : C → Bytes) (chunktype : ℤ) (words : ℕ) where
  -- So is a section with an index, and the children are found by the maps.
  pub indexed_deserialize-Yields :
      Yields
        (λ (s, r). All Q s.children × IsIndexed get_id get_name s)
        (indexed_deserialize get_id get_name chunktype words factory buf start abspos)
  unfolding indexed_deserialize
  indexed_deserialize-Yields =
      Yields-bind (chunk_deserialize-Yields chunktype buf start) λ n (_, le).
        Yields-bind (get_uint32-Yields buf (start + 4)) λ endpos _.
          Yields-bind (get_uint32-Yields buf (start + 8)) λ subtype _.
            Yields-if (eqb subtype 22)
              (λ _. Yields-bind (get_uint32-Yields buf (start + 12)) λ subendpos _.
                Yields-bind
                  (children_loop-Yields Q factory buf start abspos allows (suc (length buf))
                    subendpos 16 (omega arith) (omega arith))
                  λ (cs, off) (qs, _).
                    Yields-bind (index_deserialize-Yields words buf (start + off)) λ m _.
                      holds (unfold make_indexed in qs, make_indexed-IsIndexed get_id get_name cs))
              (λ _. throws assert_failed)
