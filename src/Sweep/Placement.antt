-- ===== src/Sweep/Placement.antt =====
-- ValueSectionSweep::_create_valueoffsetmap of src/psfsweepvalue.cc: where in a point, or in a
-- window, the value of each trace stands.
use libpsf.Prelude.{Bool, true, false, Option, List, [], ◌∷◌, if◌then◌else◌}
use libpsf.Prelude.Int.{ℤ, pos}
use libpsf.Prelude.Assoc.{int_eq, bytes_eq, eqb_bytes, insert}
use libpsf.Outcome.{Result, ok, err, incorrect_chunk, undefined, or_throw, add_int, ◌>>=◌}
use libpsf.Buffer.{Bytes, codes}
use libpsf.Scalar.{Scalar, string, to_int}
use libpsf.Property.{PropertyBlock, find}
use libpsf.TypeDef
use libpsf.TypeDef.{DataTypeDef, deserialize_data}
use libpsf.Trace.{
  TypeSection, TraceSection, DataTypeRef, Trace, ref, group, get_datatype, fill_offsetmap,
}

-- The sections that a value section reads through its PSFFile; a section may be missing.
pub record Sections : Type 0 where
  pub header : PropertyBlock
  pub types : Option TypeSection
  pub sweeps : Option (List DataTypeRef)
  pub traces : Option TraceSection

abbrev pub window_size_key : Bytes
window_size_key = codes "PSF window size"

abbrev pub traces_key : Bytes
traces_key = codes "PSF traces"

abbrev pub sweep_points_key : Bytes
sweep_points_key = codes "PSF sweep points"

-- `int v = properties.find(key)`
unfoldable pub int_property : PropertyBlock → Bytes → Result ℤ
int_property props key = do v ← find props key; to_int v

-- `"sweep" == find("key").tostring()`: no number is printed so.
unfoldable pub is_sweep_key : Scalar → Bool
is_sweep_key (string s) = eqb_bytes s (codes "sweep")
is_sweep_key _ = false

-- The variables of _create_valueoffsetmap: m_offsetmap, m_valuesize and valueoffset
pub record Layout : Type 0 where
  pub offsetmap : List (ℤ × ℤ)
  pub valuesize : ℤ
  pub valueoffset : ℤ

abbrev pub empty_layout : Layout
empty_layout = record { offsetmap = []; valuesize = pos 0; valueoffset = pos 0 }

unfoldable pub advance : Layout → List (ℤ × ℤ) → ℤ → Result Layout
advance l m size = do
  valuesize ← add_int l.valuesize size
  valueoffset ← add_int l.valueoffset size
  ok (record { offsetmap = m; valuesize = valuesize; valueoffset = valueoffset })

unfoldable pub window_layout : Option TypeSection → ℤ → List Trace → Layout → Result Layout
unfolding advance
window_layout types windowsize [] l = ok l
window_layout types windowsize (ref r ∷ ts) l = err (incorrect_chunk (pos 16))
window_layout types windowsize (group g ∷ ts) l = do
  (m, size) ← fill_offsetmap types g l.offsetmap windowsize l.valueoffset
  l' ← advance l m size
  window_layout types windowsize ts l'

-- The step over one trace outside of windows. A trace of the sweep itself has no values.
unfoldable pub place_trace : Option TypeSection → Trace → Layout → Result Layout
unfolding advance
place_trace types (ref r) l = do
  def ← get_datatype types r
  key ← find (TypeDef.get_properties def) (codes "key")
  if is_sweep_key key then ok l else (do
    offset ← add_int l.valueoffset (pos 8)
    size ← add_int (pos 8) (pos (TypeDef.datasize def))
    advance l (insert r.id offset l.offsetmap) size)
place_trace types (group g) l = do
  offset ← add_int l.valueoffset (pos 8)
  (m, child) ← fill_offsetmap types g l.offsetmap (pos 0) offset
  size ← add_int (pos 8) child
  advance l m size

unfoldable pub plain_layout : Option TypeSection → List Trace → Layout → Result Layout
unfolding place_trace
plain_layout types [] l = ok l
plain_layout types (t ∷ ts) l = do l' ← place_trace types t l; plain_layout types ts l'

unfoldable pub create_valueoffsetmap : Sections → Bool → Result Layout
unfolding window_layout plain_layout
create_valueoffsetmap s true = do
  windowsize ← int_property s.header window_size_key
  traces ← or_throw s.traces undefined
  window_layout s.types windowsize traces.children empty_layout
create_valueoffsetmap s false = do
  traces ← or_throw s.traces undefined
  plain_layout s.types traces.children empty_layout
