-- ===== src/Trace/Offsets.antt =====
-- GroupDef::fill_offsetmap (src/psfgroup.cc) outside of windows.
use libpsf.Prelude.{ℕ, ◌+◌, ◌^◌, ◌<◌, ◌≡◌, ap, Option, List, [], ◌∷◌, arith}
use libpsf.Prelude.Int.{ℤ, pos, ◌-ℤ◌}
use libpsf.Prelude.Assoc.{insert, int_eq}
use libpsf.Outcome.{ok, add_int}
use libpsf.TypeDef
use libpsf.TypeDef.{DataTypeDef}
use libpsf.Trace.{TypeSection, DataTypeRef, GroupDef, get_datatype, fill_loop, fill_offsetmap}

pub add_int-pos : (a b : ℕ) → a + b < 2 ^ 31 → add_int (pos a) (pos b) ≡ ok (pos (a + b))
unfolding add_int
add_int-pos a b h = ground arith

-- `m[k] = v` for each pair, from the first on
abbrev pub insert_all : List (ℤ × ℕ) → List (ℤ × ℤ) → List (ℤ × ℤ)
insert_all [] m = m
insert_all ((k, v) ∷ kvs) m = insert_all kvs (insert k (pos v) m)

-- The members of a group, each with the bytes that its value takes
abbrev pub Members : Option TypeSection → List DataTypeRef → List (ℤ × ℕ) → Type 0
Members types [] [] = Unit
Members types (r ∷ rs) ((id, n) ∷ ms) =
    ((id ≡ r.id) × ((d : DataTypeDef) × (get_datatype types r ≡ ok d) × (n ≡ TypeDef.datasize d)))
    × Members types rs ms
Members types _ _ = ⊥

abbrev pub member_offsets : ℕ → List (ℤ × ℕ) → List (ℤ × ℕ)
member_offsets a [] = []
member_offsets a ((id, n) ∷ ms) = (id, a) ∷ member_offsets (a + n) ms

abbrev pub total : List (ℤ × ℕ) → ℕ
total [] = 0
total ((id, n) ∷ ms) = n + total ms

fill_loop-Members :
    (types : Option TypeSection) (rs : List DataTypeRef) (ms : List (ℤ × ℕ)) (m : List (ℤ × ℤ))
    (a : ℕ)
    → Members types rs ms
    → a + total ms < 2 ^ 31
    → fill_loop types (pos 0) m (pos a) rs
      ≡ ok (insert_all (member_offsets a ms) m, pos (a + total ms))
unfolding fill_loop
fill_loop-Members types [] [] m a h lt = ap (λ k. ok (m, pos k)) (omega arith)
fill_loop-Members types [] (x ∷ ms) m a h lt = absurd h
fill_loop-Members types (r ∷ rs) [] m a h lt = absurd h
fill_loop-Members types (r ∷ rs) ((id, n) ∷ ms) m a ((e, (d, t, size)), h) lt =
    rw
      (
        t,
        ← size,
        ← e,
        add_int-pos a n (omega arith),
        fill_loop-Members types rs ms (insert id (pos a) m) (a + n) h (omega arith),
      )
      (ap (λ k. ok (insert_all (member_offsets (a + n) ms) (insert id (pos a) m), pos k))
        (omega arith))

sub-start : (a n : ℕ) → pos (a + n) -ℤ pos a ≡ pos n
sub-start a n = ground arith

-- The traces of a group get the offsets one behind the other from the start on, and the size of
-- the group is the sum of theirs.
pub fill_offsetmap-Members :
    (types : Option TypeSection) (g : GroupDef) (ms : List (ℤ × ℕ)) (m : List (ℤ × ℤ)) (a : ℕ)
    → Members types g.children ms
    → a + total ms < 2 ^ 31
    → fill_offsetmap types g m (pos 0) (pos a)
      ≡ ok (insert_all (member_offsets a ms) m, pos (total ms))
unfolding fill_offsetmap
fill_offsetmap-Members types g ms m a h lt =
    rw (fill_loop-Members types g.children ms m a h lt, sub-start a (total ms))
