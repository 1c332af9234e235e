-- ===== src/Sweep/Offsets.antt =====
-- ValueSectionSweep::_create_valueoffsetmap outside of windows: where in a point the value of each
-- trace stands.
use libpsf.Prelude.{ℕ, ◌+◌, ◌^◌, ◌<◌, ◌≡◌, ap, Bool, true, false, Option, List, [], ◌∷◌, arith}
use libpsf.Prelude.Int.{ℤ, pos}
use libpsf.Prelude.Assoc.{insert, int_eq}
use libpsf.Outcome.{ok}
use libpsf.Buffer.{codes}
use libpsf.Scalar.{Scalar}
use libpsf.Property.{find}
use libpsf.TypeDef
use libpsf.TypeDef.{DataTypeDef}
use libpsf.Trace.{TypeSection, Trace, ref, group, get_datatype}
use libpsf.Trace.Offsets.{
  add_int-pos, insert_all, Members, member_offsets, total, fill_offsetmap-Members,
}
use libpsf.Sweep.{Layout, is_sweep_key, advance, place_trace, plain_layout}

-- What a trace takes in a point: nothing for a trace of the sweep itself, a chunk with a value, or
-- a chunk with the values of a group.
pub data Part : Type 0 where
  sweep : Part
  value : ℤ → ℕ → Part
  values : List (ℤ × ℕ) → Part

abbrev Keyed : DataTypeDef → Bool → Type 0
Keyed d b =
    (key : Scalar) × (find (TypeDef.get_properties d) (codes "key") ≡ ok key)
    × (is_sweep_key key ≡ b)

abbrev pub IsPart : Option TypeSection → Trace → Part → Type 0
IsPart types (ref r) sweep = (d : DataTypeDef) × (get_datatype types r ≡ ok d) × Keyed d true
IsPart types (ref r) (value id n) =
    (id ≡ r.id)
    × ((d : DataTypeDef) × (get_datatype types r ≡ ok d) × Keyed d false × (n ≡ TypeDef.datasize d))
IsPart types (ref r) (values ms) = ⊥
IsPart types (group g) (values ms) = Members types g.children ms
IsPart types (group g) _ = ⊥

abbrev pub AreParts : Option TypeSection → List Trace → List Part → Type 0
AreParts types [] [] = Unit
AreParts types (t ∷ ts) (p ∷ ps) = IsPart types t p × AreParts types ts ps
AreParts types _ _ = ⊥

abbrev pub width : Part → ℕ
width sweep = 0
width (value id n) = 8 + n
width (values ms) = 8 + total ms

abbrev pub widths : List Part → ℕ
widths [] = 0
widths (p ∷ ps) = width p + widths ps

-- Each value stands behind the parts before it and the eight bytes of its own chunk.
abbrev pub part_offsets : ℕ → Part → List (ℤ × ℕ)
part_offsets a sweep = []
part_offsets a (value id n) = (id, a + 8) ∷ []
part_offsets a (values ms) = member_offsets (a + 8) ms

abbrev pub insert_parts : ℕ → List Part → List (ℤ × ℤ) → List (ℤ × ℤ)
insert_parts a [] m = m
insert_parts a (p ∷ ps) m = insert_parts (a + width p) ps (insert_all (part_offsets a p) m)

abbrev pub layout_at : List (ℤ × ℤ) → ℕ → Layout
layout_at m a = record { offsetmap = m; valuesize = pos a; valueoffset = pos a }

advance-layout_at :
    (m m' : List (ℤ × ℤ)) (a n : ℕ)
    → a + n < 2 ^ 31
    → advance (layout_at m a) m' (pos n) ≡ ok (layout_at m' (a + n))
unfolding advance
advance-layout_at m m' a n lt = rw (add_int-pos a n lt)

place_trace-IsPart :
    (types : Option TypeSection) (t : Trace) (p : Part) (m : List (ℤ × ℤ)) (a : ℕ)
    → IsPart types t p
    → a + width p < 2 ^ 31
    → place_trace types t (layout_at m a)
      ≡ ok (layout_at (insert_all (part_offsets a p) m) (a + width p))
unfolding place_trace
place_trace-IsPart types (ref r) sweep m a (d, t, (key, f, k)) lt =
    rw (t, f, k) (ap (λ n. ok (layout_at m n)) (omega arith))
place_trace-IsPart types (ref r) (value id n) m a (e, (d, t, (key, f, k), size)) lt = rw (
  t,
  f,
  k,
  add_int-pos a 8 (omega arith),
  ← size,
  ← e,
  add_int-pos 8 n (omega arith),
  advance-layout_at m (insert id (pos (a + 8)) m) a (8 + n) (omega arith),
)
place_trace-IsPart types (group g) (values ms) m a h lt = rw (
  add_int-pos a 8 (omega arith),
  fill_offsetmap-Members types g ms m (a + 8) h (omega arith),
  add_int-pos 8 (total ms) (omega arith),
  advance-layout_at m (insert_all (member_offsets (a + 8) ms) m) a (8 + total ms) (omega arith),
)
place_trace-IsPart types (ref r) (values ms) m a h lt = absurd h
place_trace-IsPart types (group g) sweep m a h lt = absurd h
place_trace-IsPart types (group g) (value id n) m a h lt = absurd h

-- Each trace gets its offset in a point: behind the parts before it and the eight bytes of its
-- chunk, the traces of a group one behind the other, while a trace of the sweep itself takes
-- nothing. The size of a point is the sum of the parts, if an `int` holds it.
pub plain_layout-AreParts :
    (types : Option TypeSection) (ts : List Trace) (ps : List Part) (m : List (ℤ × ℤ)) (a : ℕ)
    → AreParts types ts ps
    → a + widths ps < 2 ^ 31
    → plain_layout types ts (layout_at m a) ≡ ok (layout_at (insert_parts a ps m) (a + widths ps))
unfolding plain_layout
plain_layout-AreParts types [] [] m a h lt = ap (λ n. ok (layout_at m n)) (omega arith)
plain_layout-AreParts types [] (p ∷ ps) m a h lt = absurd h
plain_layout-AreParts types (t ∷ ts) [] m a h lt = absurd h
plain_layout-AreParts types (t ∷ ts) (p ∷ ps) m a (h, hs) lt =
    rw
      (
        place_trace-IsPart types t p m a h (omega arith),
        plain_layout-AreParts types ts ps (insert_all (part_offsets a p) m) (a + width p) hs
            (omega arith),
      )
      (ap (λ n. ok (layout_at (insert_parts (a + width p) ps (insert_all (part_offsets a p) m)) n))
        (omega arith))
