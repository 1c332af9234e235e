-- ===== src/DataSet/Written.antt =====
-- A file with a sweep, from its bytes to what PSFDataSet of src/psf.cc returns.
use libpsf.Prelude.{
  ℕ, suc, ◌+◌, ◌^◌, ◌<◌, ◌≡◌, refl, sym, ap, ◌∙◌, some, false, true, List, [], ◌∷◌, ◌++◌,
  length-append, All, map, length, arith,
}
use mathlib.Core.Path.{subst}
use libpsf.Prelude.Int.{pos, InInt}
use libpsf.Prelude.Assoc.{int_eq, bytes_eq, lookup}
use libpsf.Outcome.{ok}
use libpsf.Buffer.{Bytes}
use libpsf.Buffer.At.{At}
use libpsf.Buffer.Words.{encode_int, length-encode_int}
use libpsf.Property.{hasprop}
use libpsf.TypeDef.{DataTypeDef}
use libpsf.Container.{make_indexed}
use libpsf.Trace.{DataTypeRef, trace_id, trace_name, get_datatype, get_trace_by_name}
use libpsf.Trace.Written.{marked-parts}
use libpsf.Scalar.{struct, no_fields}
use libpsf.Vector.{Vector, new_vector, same_class}
use libpsf.Sweep
use libpsf.Sweep.{
  Sections, ValueSectionSweep, Layout, int_property, sweep_points_key, window_size_key,
  create_valueoffsetmap, empty_layout, plain_layout,
}
use libpsf.Sweep.Offsets.{Part, AreParts, widths, insert_parts, layout_at, plain_layout-AreParts}
use libpsf.Sweep.Points
use libpsf.Sweep.Points.Values.{with_value, get_values-PointsAt, get_param_values-PointsAt}
use libpsf.Sweep.Written.{
  WrittenPoint, encode_points, IsPoint, numbers, encode_points-PointsAt,
  sweep_values_deserialize-simple_section,
}
use libpsf.File.{OperatingSystem}
use libpsf.File.Written.{SweepFile, file_bytes, value_offset, file_bytes-SectionsAt}
use libpsf.File.Opened.{IsWritten, written_sections, written_file, open_file-file_bytes}
use libpsf.DataSet.{DataSet, vector, new_data_set, get_signal, get_sweep_values, invert, sweeps_key}
use libpsf.DataSet.Signals.{IsSweepSet, get_signal-IsSweepSet, get_sweep_values-IsSweepSet}

-- A sweep in points: what its header says, the layout of its traces, its parameter, and the trace
-- of a name, which stands at `offset` of a point.
pub record IsSweep (f : SweepFile) (parts : List Part) (param : DataTypeRef)
    (rest : List DataTypeRef) (def : DataTypeDef) (name : Bytes) (r : DataTypeRef) (d : DataTypeDef)
    (offset : ℕ) (pts : List WrittenPoint) : Type 0 where
  pub written : IsWritten f
  pub plain : hasprop (written_sections f).header window_size_key ≡ false
  pub swept : (n : ℕ) × (int_property (written_sections f).header sweeps_key ≡ ok (pos (suc n)))
  pub count : int_property (written_sections f).header sweep_points_key ≡ ok (pos (length pts))
  pub placed : AreParts (written_sections f).types f.traces parts
  pub narrow : widths parts < 2 ^ 31
  pub first : f.sweeps ≡ param ∷ rest
  pub ident : InInt param.id
  pub typed : get_datatype (written_sections f).types param ≡ ok def
  pub found : get_trace_by_name (make_indexed trace_id trace_name f.traces) name ≡ ok r
  pub trace_typed : get_datatype (written_sections f).types r ≡ ok d
  pub there : lookup r.id (insert_parts 0 parts []) ≡ some (pos offset)
  pub points : f.points ≡ encode_points param pts
  pub fit : All (IsPoint def d offset (widths parts)) pts

length-numbers : (pts : List WrittenPoint) → length (map numbers pts) ≡ length pts
length-numbers [] = refl
length-numbers (pt ∷ pts) = ap suc (length-numbers pts)

numbers-value :
    (pts : List WrittenPoint) → map (λ pt. pt.1) (map numbers pts) ≡ map (λ pt. pt.value) pts
numbers-value [] = refl
numbers-value (pt ∷ pts) = ap (λ ys. pt.value ∷ ys) (numbers-value pts)

-- A vector of another class than StructVector is returned as it is.
invert-plain :
    (vec : Vector)
    → same_class vec.init (struct no_fields) ≡ false
    → invert false (some vec) ≡ ok (vector vec)
unfolding invert
invert-plain vec plain = ground arith

-- A point of which no trace is read
abbrev bare : WrittenPoint → Points.Point
bare pt = record { param = pt.param; values = [] }

length-bare : (pts : List WrittenPoint) → length (map bare pts) ≡ length pts
length-bare [] = refl
length-bare (pt ∷ pts) = ap suc (length-bare pts)

bare-param :
    (pts : List WrittenPoint) → map (λ pt. pt.param) (map bare pts) ≡ map (λ pt. pt.param) pts
bare-param [] = refl
bare-param (pt ∷ pts) = ap (λ ys. pt.param ∷ ys) (bare-param pts)

PointsAt-bare :
    (s : Sections) (v : ValueSectionSweep) (buf : Bytes) (param : DataTypeRef) (def : DataTypeDef)
    (filter : List DataTypeRef) (pts : List WrittenPoint) (p : ℕ)
    → Points.PointsAt s v buf param def filter (map with_value (map numbers pts)) p
    → Points.PointsAt s v buf param def [] (map bare pts) p
PointsAt-bare s v buf param def filter [] p at = tt
PointsAt-bare s v buf param def filter (pt ∷ pts) p (n, (next, chunk, id, read, traces, step, at)) =
    (n, (next, chunk, id, read, tt, step, PointsAt-bare s v buf param def filter pts next at))

module _ (f : SweepFile) (parts : List Part) (param : DataTypeRef) (rest : List DataTypeRef)
    (def : DataTypeDef) (name : Bytes) (r : DataTypeRef) (d : DataTypeDef) (offset : ℕ)
    (pts : List WrittenPoint) (h : IsSweep f parts param rest def name r d offset pts) where
  -- The value section of the file
  abbrev pub read_section : ValueSectionSweep
  read_section = record {
    windowed = false;
    valuesize = pos (widths parts);
    offsetmap = insert_parts 0 parts [];
    valuebuf = value_offset f + 8;
    endbuf = pos (value_offset f + (8 + length (f.points ++ encode_int (pos 15))));
  }

  layout_of :
      create_valueoffsetmap (written_sections f) false
      ≡ ok (layout_at (insert_parts 0 parts []) (widths parts))
  unfolding create_valueoffsetmap make_indexed
  layout_of =
      plain_layout-AreParts (written_sections f).types f.traces parts [] 0 h.placed
        (omega (arith, h.narrow))
      ∙ ap (λ n. ok (layout_at (insert_parts 0 parts []) n)) (omega arith)

  pub section_read :
      Sweep.sweep_values_deserialize
        (written_sections f)
        (file_bytes f)
        (value_offset f)
        (value_offset f)
      ≡ ok read_section
  section_read =
      let at = file_bytes-SectionsAt f in
      let short = h.written.short in
      sweep_values_deserialize-simple_section (written_sections f) (file_bytes f) (value_offset f)
        (f.points ++ encode_int (pos 15)) (layout_at (insert_parts 0 parts []) (widths parts))
        h.plain layout_of
        (omega (arith, length-append f.points (encode_int (pos 15)), length-encode_int (pos 15)))
        at.values_at

  points_at :
      Points.PointsAt
        (written_sections f)
        read_section
        (file_bytes f)
        param
        def
        (r ∷ [])
        (map with_value (map numbers pts))
        (value_offset f + 8)
  points_at =
      let at = file_bytes-SectionsAt f in
      let (head, body, mark) =
        marked-parts (file_bytes f) (value_offset f) f.points (pos 15) at.values_at in
      encode_points-PointsAt (written_sections f) read_section (file_bytes f) param r def d offset
        (widths parts) h.ident h.trace_typed h.there refl pts (value_offset f + 8) h.fit
        (subst (At (file_bytes f) (value_offset f + 8)) h.points body)

  -- The data set that the constructor makes
  abbrev pub opened_set : Bytes → DataSet
  opened_set filename = record {
    psf = written_file filename f read_section;
    filename = filename;
    invertstruct = false;
    is_open = true;
  }

  pub new_data_set-written :
      (os : OperatingSystem) (filename : Bytes)
      → os.content filename ≡ some (file_bytes f)
      → new_data_set os filename ≡ ok (opened_set filename)
  unfolding new_data_set
  new_data_set-written os filename content =
      rw (open_file-file_bytes f h.written os filename read_section content section_read) refl

  pub opened-IsSweepSet :
      (filename : Bytes)
      → IsSweepSet (opened_set filename) (written_sections f) read_section (file_bytes f)
  opened-IsSweepSet filename = record {
    opened = refl;
    header = refl;
    types = refl;
    sweeps = refl;
    traces = refl;
    values = refl;
    mapped = refl;
  }

  pub values_read :
      (w w' : Vector)
      → new_vector def ≡ ok w
      → new_vector d ≡ ok w'
      → Sweep.get_values (written_sections f) read_section (file_bytes f) name
        ≡ ok (record w' { values = map (λ pt. pt.value) pts })
  values_read w w' new new' =
      get_values-PointsAt (written_sections f) read_section (file_bytes f) param def rest w refl
        (ap some h.first) h.typed new name (make_indexed trace_id trace_name f.traces) r d w'
        (map numbers pts) refl h.found h.trace_typed new'
        (h.count ∙ ap (λ n. ok (pos n)) (sym (length-numbers pts))) points_at
      ∙ ap (λ ys. ok (record w' { values = ys })) (numbers-value pts)

  pub params_read :
      (w : Vector)
      → new_vector def ≡ ok w
      → Sweep.get_param_values (written_sections f) read_section (file_bytes f)
        ≡ ok (record w { values = map (λ pt. pt.param) pts })
  params_read w new =
      get_param_values-PointsAt (written_sections f) read_section (file_bytes f) param def rest w
        refl (ap some h.first) h.typed new (map bare pts)
        (h.count ∙ ap (λ n. ok (pos n)) (sym (length-bare pts)))
        (PointsAt-bare (written_sections f) read_section (file_bytes f) param def (r ∷ []) pts
          (value_offset f + 8) points_at)
      ∙ ap (λ ys. ok (record w { values = ys })) (bare-param pts)

  -- A file with a sweep, from its bytes to the results: the constructor opens it, `get_signal` of the
  -- trace's name gives the value of each point, in order, and `get_sweep_values` the parameter's. The
  -- file fits the format and is shorter than 2^31 bytes, its values are not in windows, the parameter
  -- and the trace are numbers, and the trace's value stands at its offset of every point.
  pub get_signal-written :
      (os : OperatingSystem) (filename : Bytes) (w w' : Vector)
      → os.content filename ≡ some (file_bytes f)
      → new_vector def ≡ ok w
      → new_vector d ≡ ok w'
      → same_class w'.init (struct no_fields) ≡ false
      → (o : DataSet) × (new_data_set os filename ≡ ok o)
        × (get_signal o name ≡ ok (vector (record w' { values = map (λ pt. pt.value) pts })))
        × (get_sweep_values o ≡ ok (some (record w { values = map (λ pt. pt.param) pts })))
  get_signal-written os filename w w' content new new' plain =
      let o = opened_set filename in
      let is = opened-IsSweepSet filename in
      let vec : Vector = record w' { values = map (λ pt. pt.value) pts } in
      (
        o,
        new_data_set-written os filename content,
        get_signal-IsSweepSet o (written_sections f) read_section (file_bytes f) is name h.swept.0
              vec h.swept.1 (values_read w w' new new')
            ∙ invert-plain vec plain,
        get_sweep_values-IsSweepSet o (written_sections f) read_section (file_bytes f) is
            (record w { values = map (λ pt. pt.param) pts }) (params_read w new),
      )
