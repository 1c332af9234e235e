-- ===== src/File/Written.antt =====
-- The bytes of a file with a sweep, and where its sections stand (src/psffile.cc).
use libpsf.Prelude.{
  ℕ, ◌+◌, ◌^◌, ◌<◌, ◌≡◌, refl, List, [], ◌∷◌, ◌++◌, length, length-append, append-nil, arith,
}
use mathlib.Core.Path.{subst}
use libpsf.Prelude.Int.{pos}
use libpsf.Prelude.Assoc.{int_eq, lookup}
use libpsf.Outcome.{ok}
use libpsf.Buffer.{Bytes, codes}
use libpsf.Buffer.At.{At, At-then, At-whole}
use libpsf.Buffer.Words.{to_be, length-to_be, encode_int, length-encode_int}
use libpsf.Property.{Property}
use libpsf.Property.RoundTrip.{encode_all}
use libpsf.TypeDef.{DataTypeDef}
use libpsf.TypeDef.Encode.{encode_def}
use libpsf.Container.Encoded.{encode_each}
use libpsf.Trace.{DataTypeRef, Trace}
use libpsf.Trace.RoundTrip.{encode_ref}
use libpsf.Trace.Codings.{encode_trace}
use libpsf.Trace.Written.{
  simple_section, indexed_section, length-simple_section, length-indexed_section,
}
use libpsf.File.{read_table}
use libpsf.File.Toc.{encode_entries, rows, read_table-encode_entries, length-encode_entries}

-- What a file with a sweep says (doc/psfformat.rst): the signature, the header, the types, the sweep's parameters, the traces, and the
-- bytes of the points. The indexes of the types and of the traces are never used.
-- The header, the sweeps and the points end with a marker.
pub record SweepFile : Type 0 where
  pub signature : ℕ
  pub header : List Property
  pub types : List DataTypeDef
  pub type_index : Bytes
  pub sweeps : List DataTypeRef
  pub traces : List Trace
  pub trace_index : Bytes
  pub points : Bytes

module _ (f : SweepFile) where
  abbrev pub type_offset : ℕ
  type_offset = 4 + (12 + length (encode_all f.header))

  abbrev pub sweep_offset : ℕ
  sweep_offset = type_offset + (28 + length (encode_each encode_def f.types) + length f.type_index)

  abbrev pub trace_offset : ℕ
  trace_offset = sweep_offset + (12 + length (encode_each encode_ref f.sweeps))

  abbrev pub value_offset : ℕ
  value_offset =
      trace_offset + (28 + length (encode_each encode_trace f.traces) + length f.trace_index)

  abbrev pub end_offset : ℕ
  end_offset = value_offset + (12 + length f.points)

  unfoldable pub header_bytes : Bytes
  header_bytes = simple_section 4 (encode_all f.header ++ encode_int (pos 1))

  unfoldable pub type_bytes : Bytes
  type_bytes = indexed_section type_offset (encode_each encode_def f.types) f.type_index (pos 2)

  unfoldable pub sweep_bytes : Bytes
  sweep_bytes = simple_section sweep_offset (encode_each encode_ref f.sweeps ++ encode_int (pos 3))

  unfoldable pub trace_bytes : Bytes
  trace_bytes =
      indexed_section trace_offset (encode_each encode_trace f.traces) f.trace_index (pos 4)

  unfoldable pub value_bytes : Bytes
  value_bytes = simple_section value_offset (f.points ++ encode_int (pos 15))

  -- The signature, which nothing reads, and the five sections
  unfoldable pub section_bytes : Bytes
  section_bytes =
      to_be 4 f.signature
      ++ (header_bytes ++ (type_bytes ++ (sweep_bytes ++ (trace_bytes ++ value_bytes))))

  abbrev pub entries : List (ℕ × ℕ)
  entries = (1, type_offset) ∷ ((2, sweep_offset) ∷ ((3, trace_offset) ∷ ((4, value_offset) ∷ [])))

  unfoldable pub file_bytes : Bytes
  file_bytes =
      section_bytes
      ++ (encode_entries ((0, 4) ∷ entries) ++ (codes "Clarissa" ++ to_be 4 (length section_bytes)))

  length-section_bytes : length section_bytes ≡ end_offset
  unfolding section_bytes header_bytes type_bytes sweep_bytes trace_bytes value_bytes
  length-section_bytes = omega (
    arith,
    length-append (encode_all f.header) (encode_int (pos 1)),
    length-append (encode_each encode_ref f.sweeps) (encode_int (pos 3)),
    length-append f.points (encode_int (pos 15)),
    length-encode_int (pos 1),
    length-encode_int (pos 3),
    length-encode_int (pos 15),
    length-append (to_be 4 f.signature)
        (header_bytes ++ (type_bytes ++ (sweep_bytes ++ (trace_bytes ++ value_bytes)))),
    length-append header_bytes (type_bytes ++ (sweep_bytes ++ (trace_bytes ++ value_bytes))),
    length-append type_bytes (sweep_bytes ++ (trace_bytes ++ value_bytes)),
    length-append sweep_bytes (trace_bytes ++ value_bytes),
    length-append trace_bytes value_bytes,
    length-to_be 4 f.signature,
    length-simple_section 4 (encode_all f.header ++ encode_int (pos 1)),
    length-indexed_section type_offset (encode_each encode_def f.types) f.type_index (pos 2),
    length-simple_section sweep_offset (encode_each encode_ref f.sweeps ++ encode_int (pos 3)),
    length-indexed_section trace_offset (encode_each encode_trace f.traces) f.trace_index (pos 4),
    length-simple_section value_offset (f.points ++ encode_int (pos 15)),
  )

  -- Where the sections stand, and the word that the file ends a check with
  pub record SectionsAt (buf : Bytes) : Type 0 where
    pub size : length buf ≡ end_offset + 52
    pub header_at : At buf 4 (simple_section 4 (encode_all f.header ++ encode_int (pos 1)))
    pub types_at :
        At buf type_offset
          (indexed_section type_offset (encode_each encode_def f.types) f.type_index (pos 2))
    pub sweeps_at :
        At buf sweep_offset
          (simple_section sweep_offset (encode_each encode_ref f.sweeps ++ encode_int (pos 3)))
    pub traces_at :
        At buf trace_offset
          (indexed_section trace_offset (encode_each encode_trace f.traces) f.trace_index (pos 4))
    pub values_at :
        At buf value_offset (simple_section value_offset (f.points ++ encode_int (pos 15)))
    pub marked : At buf (end_offset + 40) (codes "Clarissa")

  pub file_bytes-SectionsAt : SectionsAt file_bytes
  unfolding file_bytes section_bytes header_bytes type_bytes sweep_bytes trace_bytes value_bytes
  file_bytes-SectionsAt =
      let t = encode_entries ((0, 4) ∷ entries) in
      let w = to_be 4 (length section_bytes) in
      let c = codes "Clarissa" in
      let lt : length t ≡ 40 = length-encode_entries ((0, 4) ∷ entries) in
      let lw : length w ≡ 4 = length-to_be 4 (length section_bytes) in
      let at₀ : At file_bytes 0 file_bytes =
        subst (λ z. At z 0 file_bytes) (append-nil file_bytes) (At-whole [] file_bytes []) in
      let (at₁, tail) =
        At-then file_bytes 0 section_bytes (t ++ (c ++ w)) end_offset at₀
          (omega (arith, length-section_bytes)) in
      let (at_t, at_c) =
        At-then file_bytes end_offset t (c ++ w) (end_offset + 40) tail (omega arith) in
      let (mark, at_w) = At-then file_bytes (end_offset + 40) c w _ at_c refl in
      let (lead, at₂) =
        At-then file_bytes 0 (to_be 4 f.signature) _ 4 at₁
          (omega (arith, length-to_be 4 f.signature)) in
      let (h, at₃) = At-then file_bytes 4 header_bytes _ type_offset at₂ (
        omega (
          arith,
          length-simple_section 4 (encode_all f.header ++ encode_int (pos 1)),
          length-append (encode_all f.header) (encode_int (pos 1)),
          length-encode_int (pos 1),
        )) in
      let (ty, at₄) = At-then file_bytes type_offset type_bytes _ sweep_offset at₃ (
        omega (
          arith,
          length-indexed_section type_offset (encode_each encode_def f.types) f.type_index (pos 2),
        )) in
      let (sw, at₅) = At-then file_bytes sweep_offset sweep_bytes _ trace_offset at₄ (
        omega (
          arith,
          length-simple_section sweep_offset
              (encode_each encode_ref f.sweeps ++ encode_int (pos 3)),
          length-append (encode_each encode_ref f.sweeps) (encode_int (pos 3)),
          length-encode_int (pos 3),
        )) in
      let (tr, v) = At-then file_bytes trace_offset trace_bytes _ value_offset at₅ (
        omega (
          arith,
          length-indexed_section trace_offset (encode_each encode_trace f.traces) f.trace_index
              (pos 4),
        )) in
      record {
        size = omega (
          arith,
          length-section_bytes,
          length-append section_bytes (t ++ (c ++ w)),
          length-append t (c ++ w),
          length-append c w,
        );
        header_at = h;
        types_at = ty;
        sweeps_at = sw;
        traces_at = tr;
        values_at = v;
        marked = mark;
      }

  -- The sections reach as far as an `int` counts.
  pub read_table-file_bytes :
      end_offset + 52 < 2 ^ 31
      → read_table file_bytes (pos (length file_bytes)) ≡ ok (rows 0 4 entries (length file_bytes))
  unfolding file_bytes lookup
  read_table-file_bytes fits =
      read_table-encode_entries section_bytes 0 4 entries
        (
          (omega arith, omega arith, refl),
          (
            (omega arith, omega arith, refl),
            (
              (omega arith, omega arith, refl),
              ((omega arith, omega arith, refl), (omega arith, omega arith, refl)),
            ),
          ),
        )
        (omega (arith, length-section_bytes))
