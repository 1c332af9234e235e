-- ===== src/Sweep.antt =====
-- ValueSectionSweep, SweepValueSimple and SweepValueWindowed of src/psfsweepvalue.cc, with the
-- ZeroPad of src/psfinternal.h. `windowoffset` is passed along by the code and never read.
pub mod Typed
pub mod Placement
pub mod Offsets
pub mod Written
pub mod Points
pub mod Windows
pub mod Section
pub mod Total
pub use libpsf.Sweep.Placement.{Sections, Layout}
unfoldable pub use libpsf.Sweep.Placement.{
  window_size_key, traces_key, sweep_points_key, int_property, is_sweep_key, empty_layout, advance,
  window_layout, place_trace, plain_layout, create_valueoffsetmap,
}
use libpsf.Prelude.{
  ℕ, zero, suc, ◌+◌, ◌-◌, ◌%◌, ◌^◌, Bool, true, false, Option, none, some, List, [], ◌∷◌, ◌++◌,
  length, if◌then◌else◌,
}
use libpsf.Prelude.Int.{ℤ, pos, negsuc, ◌+ℤ◌, sub_ℕ, leb_ℤ, to_int32}
use libpsf.Prelude.Assoc.{◌==◌, int_eq, bytes_eq, eqb_bytes, lookup, insert}
use libpsf.Outcome.{
  Result, ok, err, stuck, incorrect_chunk, undefined, out_of_range, assert_failed, or_throw,
  add_int, mul_int, sub_int, ◌>>=◌,
}
use libpsf.Buffer.{Bytes, codes, get_int32, get_uint32, seek}
use libpsf.Scalar.{Scalar, string, to_int}
use libpsf.Chunk.{chunk_deserialize}
use libpsf.Property.{PropertyBlock, find, hasprop}
use libpsf.TypeDef
use libpsf.TypeDef.{DataTypeDef, deserialize_data}
use libpsf.Container.{Indexed, section_type}
use libpsf.Trace.{
  TypeSection, TraceSection, DataTypeRef, GroupDef, Trace, ref, group, get_datatype, fill_offsetmap,
  get_trace_by_name,
}
use libpsf.Vector.{Vector, new_vector, resize, store_at}

pub record ValueSectionSweep : Type 0 where
  pub windowed : Bool
  pub valuesize : ℤ
  pub offsetmap : List (ℤ × ℤ)
  pub valuebuf : ℕ
  pub endbuf : ℤ

-- ZeroPad::deserialize returns an `int`, which is negative for a very long pad.
unfoldable pub zeropad_deserialize : Bytes → ℕ → Result ℤ
zeropad_deserialize buf p = do
  n ← chunk_deserialize (pos 20) buf p
  size ← get_uint32 buf (p + 4)
  ok (to_int32 ((8 + size) % 2 ^ 32))

-- The constructor and `deserialize`
unfoldable pub sweep_values_deserialize : Sections → Bytes → ℕ → ℕ → Result ValueSectionSweep
unfolding create_valueoffsetmap zeropad_deserialize
sweep_values_deserialize s buf start abspos = do
  let windowed = hasprop s.header window_size_key
  n ← chunk_deserialize section_type buf start
  endpos ← get_uint32 buf (start + 4)
  pad ← (if windowed then zeropad_deserialize buf (start + 8) else ok (pos 0))
  layout ← create_valueoffsetmap s windowed
  valuebuf ← seek (start + 8) pad
  ok (record {
    windowed = windowed;
    valuesize = layout.valuesize;
    offsetmap = layout.offsetmap;
    valuebuf = valuebuf;
    endbuf = sub_ℕ (start + endpos) abspos;
  })

unfoldable pub get_valueoffset : ValueSectionSweep → ℤ → Result ℤ
get_valueoffset v id = or_throw (lookup id v.offsetmap) undefined

-- A SweepValue: a vector for each trace of the filter, and the parameter's vector.
pub record SweepValue : Type 0 where
  pub vectors : List Vector
  pub paramvalues : Vector

module _ (s : Sections) (v : ValueSectionSweep) (buf : Bytes) where
  -- `psf->get_sweep_section()[0]`
  pub paramtype : Result DataTypeRef
  paramtype = do
    sweeps ← or_throw s.sweeps undefined
    elim sweeps [ [] ↦ err undefined | r ∷ rs ↦ ok r ]

  pub make_vectors : List DataTypeRef → ℤ → Result (List Vector)
  make_vectors [] n = ok []
  make_vectors (r ∷ rs) n = do
    def ← get_datatype s.types r
    new ← new_vector def
    vec ← resize new n
    vecs ← make_vectors rs n
    ok (vec ∷ vecs)

  -- The value of each trace of the filter at point `i`, from the values at `valuebuf`
  unfoldable pub read_traces : List DataTypeRef → List Vector → ℕ → ℕ → Result (List Vector)
  read_traces [] vecs i valuebuf = ok vecs
  read_traces (r ∷ rs) [] i valuebuf = err out_of_range
  read_traces (r ∷ rs) (vec ∷ vecs) i valuebuf = do
    offset ← get_valueoffset v r.id
    p ← seek valuebuf offset
    def ← get_datatype s.types r
    (x, n) ← deserialize_data def buf p
    vec' ← store_at vec i x
    vecs' ← read_traces rs vecs i valuebuf
    ok (vec' ∷ vecs')

  -- The rounds that are left, the point and its position; the position behind the points.
  unfoldable pub point_loop :
      DataTypeRef
      → DataTypeDef
      → List DataTypeRef
      → ℕ
      → ℕ
      → ℕ
      → SweepValue
      → Result (SweepValue × ℕ)
  point_loop param def filter zero i p sv = ok (sv, p)
  point_loop param def filter (suc rounds) i p sv = do
    chunk ← chunk_deserialize (pos 16) buf p
    paramtypeid ← get_int32 buf (p + 4)
    if paramtypeid == param.id
        then (do
          (x, n) ← deserialize_data def buf (p + 8)
          params ← store_at sv.paramvalues i x
          vecs ← read_traces filter sv.vectors i (p + 8 + n)
          next ← seek (p + 8 + n) v.valuesize
          point_loop param def filter rounds (i + 1) next
              (record { vectors = vecs; paramvalues = params }))
        else err assert_failed

  -- SweepValueSimple::deserialize, of a value whose parameter vector is new. A negative number of
  -- points has failed in `resize`.
  abbrev count_of : ℤ → ℕ
  count_of (pos n) = n
  count_of (negsuc n) = 0

  unfoldable pub simple_values : List DataTypeRef → ℤ → Result SweepValue
  unfolding point_loop paramtype make_vectors read_traces
  simple_values filter n = do
    vecs ← make_vectors filter n
    param ← paramtype
    def ← get_datatype s.types param
    new ← new_vector def
    params ← resize new n
    (sv, p) ←
        point_loop param def filter (count_of n) 0 v.valuebuf
          (record { vectors = vecs; paramvalues = params })
    ok sv

  -- `n` values of one type from `p` on into the places from `j` on; the position behind them.
  unfoldable pub read_run : DataTypeDef → ℕ → ℕ → ℕ → Vector → Result (Vector × ℕ)
  read_run def zero j p vec = ok (vec, p)
  read_run def (suc n) j p vec = do
    (x, m) ← deserialize_data def buf p
    vec' ← store_at vec j x
    read_run def n (j + 1) (p + m) vec'

  -- The `n` values of each trace of the filter stand at the end of the trace's window.
  unfoldable pub window_traces :
      ℤ → List DataTypeRef → List Vector → ℕ → ℕ → ℕ → Result (List Vector)
  unfolding read_run
  window_traces windowsize [] vecs i n valuebuf = ok vecs
  window_traces windowsize (r ∷ rs) [] i n valuebuf = err undefined
  window_traces windowsize (r ∷ rs) (vec ∷ vecs) i n valuebuf = do
    offset ← get_valueoffset v r.id
    def ← get_datatype s.types r
    used ← mul_int (pos n) (pos (TypeDef.datasize def))
    skip ← sub_int windowsize used
    p ← seek valuebuf (offset +ℤ skip)
    (vec', q) ← read_run def n i p vec
    vecs' ← window_traces windowsize rs vecs i n valuebuf
    ok (vec' ∷ vecs')

  -- for(int i=0; i < *totaln; i += n), a window in each round
  unfoldable pub window_loop :
      ℤ → ℤ → DataTypeDef → List DataTypeRef → ℤ → ℕ → ℕ → ℕ → SweepValue → Result (SweepValue × ℕ)
  window_loop windowsize ntraces def filter totaln zero i p sv = stuck
  window_loop windowsize ntraces def filter totaln (suc fuel) i p sv = elim (leb_ℤ totaln (pos i)) [
    | true ↦ ok (sv, p)
    | false ↦ do
      chunk ← chunk_deserialize (pos 16) buf p
      tmp ← get_uint32 buf (p + 4)
      let n = tmp % 2 ^ 16
      let pwinstart = length sv.paramvalues.values
      grown ← resize sv.paramvalues (pos (pwinstart + n))
      (params, q) ← read_run def n pwinstart (p + 8) grown
      vecs ← window_traces windowsize filter sv.vectors i n q
      size ← mul_int ntraces windowsize
      next ← seek q size
      counted ← add_int (pos i) (pos n)
      window_loop windowsize ntraces def filter totaln fuel (i + n) next
          (record { vectors = vecs; paramvalues = params })
  ]

  -- SweepValueWindowed::deserialize; where windows take no bytes back, a window takes eight bytes.
  unfoldable pub windowed_values : List DataTypeRef → ℤ → Result SweepValue
  unfolding window_loop paramtype make_vectors window_traces
  windowed_values filter totaln = do
    windowsize ← int_property s.header window_size_key
    ntraces ← int_property s.header traces_key
    param ← paramtype
    def ← get_datatype s.types param
    params ← new_vector def
    vecs ← make_vectors filter totaln
    (sv, p) ←
        window_loop windowsize ntraces def filter totaln (suc (length buf)) 0 v.valuebuf
          (record { vectors = vecs; paramvalues = params })
    ok sv

  -- get_values(Filter &)
  unfoldable pub get_filtered : List DataTypeRef → Result SweepValue
  unfolding simple_values windowed_values
  get_filtered filter = do
    n ← int_property s.header sweep_points_key
    if v.windowed then windowed_values filter n else simple_values filter n

  -- get_values(std::string)
  unfoldable pub get_values : Bytes → Result Vector
  unfolding get_filtered
  get_values name = do
    traces ← or_throw s.traces undefined
    trace ← get_trace_by_name traces name
    sv ← get_filtered (trace ∷ [])
    elim sv.vectors [ [] ↦ err out_of_range | vec ∷ vecs ↦ ok vec ]

  unfoldable pub get_param_values : Result Vector
  unfolding get_filtered
  get_param_values = do sv ← get_filtered []; ok sv.paramvalues
