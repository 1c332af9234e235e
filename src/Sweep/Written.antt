-- ===== src/Sweep/Written.antt =====
-- The value section of a sweep in points, written in the file and read back: ValueSectionSweep and
-- SweepValueSimple of src/psfsweepvalue.cc.
use libpsf.Prelude.{
  ℕ, ◌+◌, ◌^◌, ◌<◌, ◌≡◌, refl, ap, ◌∙◌, some, false, List, [], ◌∷◌, ◌++◌, All, map, length,
  length-append, arith,
}
use libpsf.Prelude.Int.{pos, InInt, sub_ℕ}
use libpsf.Prelude.Assoc.{int_eq, bytes_eq, lookup}
use libpsf.Outcome.{ok}
use libpsf.Buffer.{Bytes, seek}
use libpsf.Buffer.At.{At, At-then}
use libpsf.Buffer.Words.{encode_int, length-encode_int, get_int32-encode_int, get_uint32-At}
use libpsf.Scalar.{Scalar}
use libpsf.Chunk.Laws.{chunk_deserialize-encode_int}
use libpsf.Property.{hasprop}
use libpsf.TypeDef.{DataTypeDef}
use libpsf.TypeDef.Numbers.{encode_data, IsData, deserialize_data-encode_data}
use libpsf.Container.{section_type}
use libpsf.Trace.{DataTypeRef, get_datatype}
use libpsf.Trace.Written.{simple_section, simple-parts}
use libpsf.Sweep.{
  Sections, ValueSectionSweep, Layout, create_valueoffsetmap, window_size_key,
  sweep_values_deserialize, get_valueoffset,
}
use libpsf.Sweep.Points
use libpsf.Sweep.Points.Values.{with_value}

-- A point: the parameter, the value of one trace, and the bytes of the others before and behind it
pub record WrittenPoint : Type 0 where
  pub param : Scalar
  pub before : Bytes
  pub value : Scalar
  pub after : Bytes

module _ (param : DataTypeRef) where
  abbrev pub encode_point : WrittenPoint → Bytes
  encode_point pt =
      encode_int (pos 16)
      ++ (encode_int param.id
          ++ (encode_data pt.param ++ (pt.before ++ (encode_data pt.value ++ pt.after))))

  abbrev pub encode_points : List WrittenPoint → Bytes
  encode_points [] = []
  encode_points (pt ∷ pts) = encode_point pt ++ encode_points pts

pub length-encode_point :
    (param : DataTypeRef) (pt : WrittenPoint)
    → length (encode_point param pt)
      ≡ 8
        + length (encode_data pt.param)
        + length pt.before
        + length (encode_data pt.value)
        + length pt.after
length-encode_point param pt =
    let a = encode_data pt.value ++ pt.after in
    let b = encode_data pt.param ++ (pt.before ++ a) in
    omega (
      arith,
      length-append (encode_int (pos 16)) (encode_int param.id ++ b),
      length-append (encode_int param.id) b,
      length-append (encode_data pt.param) (pt.before ++ a),
      length-append pt.before a,
      length-append (encode_data pt.value) pt.after,
      length-encode_int (pos 16),
      length-encode_int param.id,
    )

-- The numbers have the types of the parameter and of the trace, whose value stands at `offset` of
-- `width` bytes.
pub record IsPoint (def d : DataTypeDef) (offset width : ℕ) (pt : WrittenPoint) : Type 0 where
  pub parameter : IsData def pt.param
  pub number : IsData d pt.value
  pub place : length pt.before ≡ offset
  pub size : length pt.before + length (encode_data pt.value) + length pt.after ≡ width

abbrev pub numbers : WrittenPoint → Scalar × Scalar
numbers pt = (pt.param, pt.value)

seek-pos : (p n : ℕ) → seek p (pos n) ≡ ok (p + n)
unfolding seek
seek-pos p n = ground arith

module _ (s : Sections) (v : ValueSectionSweep) (buf : Bytes) (param r : DataTypeRef)
    (def d : DataTypeDef) (offset width : ℕ) (ident : InInt param.id)
    (typed : get_datatype s.types r ≡ ok d) (placed : lookup r.id v.offsetmap ≡ some (pos offset))
    (stride : v.valuesize ≡ pos width) where
  pub encode_points-PointsAt :
      (pts : List WrittenPoint) (p : ℕ)
      → All (IsPoint def d offset width) pts
      → At buf p (encode_points param pts)
      → Points.PointsAt s v buf param def (r ∷ []) (map with_value (map numbers pts)) p
  unfolding get_valueoffset
  encode_points-PointsAt [] p fit at = tt
  encode_points-PointsAt (pt ∷ pts) p (f, fit) at =
      let n = length (encode_data pt.param) in
      let m = length (encode_data pt.value) in
      let (here, others) =
        At-then buf p (encode_point param pt) (encode_points param pts) (p + 8 + n + width) at
          (omega (arith, f.size, length-encode_point param pt)) in
      let (kind, at₁) =
        At-then buf p (encode_int (pos 16)) _ (p + 4) here
          (omega (arith, length-encode_int (pos 16))) in
      let (id, at₂) =
        At-then buf (p + 4) (encode_int param.id) _ (p + 8) at₁
          (omega (arith, length-encode_int param.id)) in
      let (first, at₃) = At-then buf (p + 8) (encode_data pt.param) _ (p + 8 + n) at₂ refl in
      let (skip, at₄) =
        At-then buf (p + 8 + n) pt.before _ (p + 8 + n + offset) at₃ (omega (arith, f.place)) in
      let (value, rest) =
        At-then buf (p + 8 + n + offset) (encode_data pt.value) pt.after _ at₄ refl in
      (
        n,
        (
          p + 8 + n + width,
          chunk_deserialize-encode_int buf p (pos 16) (omega arith) kind,
          get_int32-encode_int buf (p + 4) param.id ident id,
          deserialize_data-encode_data def pt.param buf (p + 8) f.parameter first,
          (
            (
              d,
              (
                pos offset,
                (
                  p + 8 + n + offset,
                  m,
                  rw placed refl,
                  seek-pos (p + 8 + n) offset,
                  typed,
                  deserialize_data-encode_data d pt.value buf (p + 8 + n + offset) f.number value,
                ),
              ),
            ),
            tt,
          ),
          ap (seek (p + 8 + n)) stride ∙ seek-pos (p + 8 + n) width,
          encode_points-PointsAt pts (p + 8 + n + width) fit others,
        ),
      )

-- The value section, outside of windows: its values begin behind its two words, and its layout is
-- that of the traces.
pub sweep_values_deserialize-simple_section :
    (s : Sections) (buf : Bytes) (start : ℕ) (points : Bytes) (layout : Layout)
    → hasprop s.header window_size_key ≡ false
    → create_valueoffsetmap s false ≡ ok layout
    → start + (8 + length points) < 2 ^ 32
    → At buf start (simple_section start points)
    → sweep_values_deserialize s buf start start
      ≡ ok (record {
        windowed = false;
        valuesize = layout.valuesize;
        offsetmap = layout.offsetmap;
        valuebuf = start + 8;
        endbuf = pos (start + (8 + length points));
      })
unfolding sweep_values_deserialize
sweep_values_deserialize-simple_section s buf start points layout plain made word at =
    let (head, body) = simple-parts buf start points at in
    let (kind, end) =
      At-then buf start (encode_int section_type) _ (start + 4) head
        (omega (arith, length-encode_int section_type)) in
    let e = start + (8 + length points) in
    let back : sub_ℕ (start + e) start ≡ pos e = ground arith in
    let zero_pad : seek (start + 8) (pos 0) ≡ ok (start + 8) =
      seek-pos (start + 8) 0 ∙ ap ok (omega arith) in
    rw
      (
        plain,
        chunk_deserialize-encode_int buf start section_type (omega arith) kind,
        get_uint32-At buf (start + 4) e word end,
        made,
        zero_pad,
        back,
      )
      refl
