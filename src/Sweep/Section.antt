-- ===== src/Sweep/Section.antt =====
-- The fuel of the constructor and of `deserialize` of ValueSectionSweep (src/psfsweepvalue.cc).
use libpsf.Prelude.{ℕ, ◌+◌, ◌≡◌, Bool, true, false, Option, List, [], ◌∷◌, arith}
use libpsf.Prelude.Int.{ℤ, pos, ◌+ℤ◌}
use libpsf.Prelude.Assoc.{int_eq, bytes_eq, lookup, insert}
use libpsf.Outcome.{
  ok, incorrect_chunk, undefined, property_not_found, Yields, holds, throws, Yields-bind, Yields-if,
  Yields-of, Yields-stuck, Yields-or_throw, add_int-Yields,
}
use libpsf.Buffer.{Bytes, codes, seek}
use libpsf.Buffer.Words.{get_uint32-Yields}
use libpsf.Scalar.{to_int}
use libpsf.Scalar.Total.{to_int-ne-stuck}
use libpsf.Chunk.Laws.{chunk_deserialize-Yields}
use libpsf.Property.{PropertyBlock, find, hasprop}
use libpsf.TypeDef
use libpsf.TypeDef.{DataTypeDef}
use libpsf.Container.{section_type}
use libpsf.Trace.{Trace, ref, group, TypeSection}
use libpsf.Trace.Total.{Any, TypesSized, get_datatype-Yields, fill_offsetmap-Yields}
use libpsf.Sweep.{
  Sections, Layout, int_property, is_sweep_key, window_size_key, empty_layout, advance,
  window_layout, place_trace, plain_layout, create_valueoffsetmap, sweep_values_deserialize,
}

pub seek-Yields : (p : ℕ) (d : ℤ) → Yields (λ q. pos q ≡ pos p +ℤ d) (seek p d)
seek-Yields p d =
    Yields-of (seek p d) (unfold seek in ground arith) (λ q e. unfold seek in ground arith)

pub find-ne-stuck : (props : PropertyBlock) (key : Bytes) → Yields Any (find props key)
unfolding find
find-ne-stuck props key = Yields-or_throw (lookup key props.propmap) property_not_found (λ _ _. tt)

pub int_property-Yields :
    (props : PropertyBlock) (key : Bytes)
    → Yields (λ v. int_property props key ≡ ok v) (int_property props key)
int_property-Yields props key =
    Yields-of (int_property props key)
      (unfold int_property in
        Yields-stuck (
          Yields-bind (find-ne-stuck props key)
            λ v _. Yields-of {P = Any} (to_int v) (to_int-ne-stuck v) (λ z e. tt)))
      (λ v e. e)

advance-Yields : (l : Layout) (m : List (ℤ × ℤ)) (size : ℤ) → Yields Any (advance l m size)
unfolding advance
advance-Yields l m size =
    Yields-bind (add_int-Yields l.valuesize size)
      λ a _. Yields-bind (add_int-Yields l.valueoffset size) λ b _. holds tt

module _ (types : Option TypeSection) (sized : TypesSized types) where
  window_layout-Yields :
      (windowsize : ℤ) (ts : List Trace) (l : Layout)
      → Yields Any (window_layout types windowsize ts l)
  unfolding window_layout
  window_layout-Yields windowsize [] l = holds tt
  window_layout-Yields windowsize (ref r ∷ ts) l = throws (incorrect_chunk (pos 16))
  window_layout-Yields windowsize (group g ∷ ts) l =
      Yields-bind (fill_offsetmap-Yields types sized g l.offsetmap windowsize l.valueoffset)
        λ (m, size) _.
          Yields-bind (advance-Yields l m size) λ l' _. window_layout-Yields windowsize ts l'

  place_trace-Yields : (t : Trace) (l : Layout) → Yields Any (place_trace types t l)
  unfolding place_trace
  place_trace-Yields (ref r) l = Yields-bind (get_datatype-Yields types r sized) λ d _.
      Yields-bind (find-ne-stuck (TypeDef.get_properties d) (codes "key")) λ key _.
        Yields-if (is_sweep_key key) (λ _. holds tt)
          λ _. Yields-bind (add_int-Yields l.valueoffset (pos 8)) λ offset _.
            Yields-bind (add_int-Yields (pos 8) (pos (TypeDef.datasize d)))
              λ size _. advance-Yields l (insert r.id offset l.offsetmap) size
  place_trace-Yields (group g) l = Yields-bind (add_int-Yields l.valueoffset (pos 8)) λ offset _.
      Yields-bind (fill_offsetmap-Yields types sized g l.offsetmap (pos 0) offset)
        λ (m, child) _. Yields-bind (add_int-Yields (pos 8) child) λ size _. advance-Yields l m size

  plain_layout-Yields : (ts : List Trace) (l : Layout) → Yields Any (plain_layout types ts l)
  unfolding plain_layout
  plain_layout-Yields [] l = holds tt
  plain_layout-Yields (t ∷ ts) l =
      Yields-bind (place_trace-Yields t l) λ l' _. plain_layout-Yields ts l'

-- The constructor and `deserialize` of the section
pub sweep_values_deserialize-Yields :
    (s : Sections) (buf : Bytes) (start abspos : ℕ)
    → TypesSized s.types
    → Yields Any (sweep_values_deserialize s buf start abspos)
unfolding sweep_values_deserialize
sweep_values_deserialize-Yields s buf start abspos sized =
    Yields-bind (chunk_deserialize-Yields section_type buf start) λ _ _.
      Yields-bind (get_uint32-Yields buf (start + 4)) λ endpos _.
        Yields-bind {P = Any}
          (Yields-if (hasprop s.header window_size_key)
            (λ _.
              Yields-bind (chunk_deserialize-Yields (pos 20) buf (start + 8))
                λ _ _. Yields-bind (get_uint32-Yields buf (start + 8 + 4)) λ size _. holds tt)
            (λ _. holds tt))
          λ pad _.
            Yields-bind (layout-Yields (hasprop s.header window_size_key))
              λ l _. Yields-bind (seek-Yields (start + 8) pad) λ valuebuf _. holds tt
  where
    layout-Yields : (windowed : Bool) → Yields Any (create_valueoffsetmap s windowed)
    layout-Yields true = Yields-bind (int_property-Yields s.header window_size_key) λ windowsize _.
        Yields-bind {P = Any} (Yields-or_throw s.traces undefined (λ _ _. tt))
          λ ts _. window_layout-Yields s.types sized windowsize ts.children empty_layout
    layout-Yields false =
        Yields-bind {P = Any} (Yields-or_throw s.traces undefined (λ _ _. tt))
          λ ts _. plain_layout-Yields s.types sized ts.children empty_layout
