-- ===== src/Trace/Sections.antt =====
-- The header, type, sweep and trace sections, written in the file and read back
-- (src/psfsections.cc, src/psftrace.cc).
use libpsf.Prelude.{ℕ, ◌+◌, ◌^◌, ◌<◌, ◌≤◌, ◌≡◌, refl, map, List, ◌++◌, All, length, arith}
use libpsf.Prelude.Int.{ℤ, pos}
use libpsf.Outcome.{ok}
use libpsf.Buffer.{Bytes}
use libpsf.Buffer.At.{At}
use libpsf.Buffer.Words.{encode_int, get_int32-encode_int}
use libpsf.Property.{Property, empty_block, ischunk}
use libpsf.Property.RoundTrip.{IsProperty, typed, encode_all, append_all, Ends}
use libpsf.Property.Lookup.{append_all-typed}
use libpsf.TypeDef
use libpsf.TypeDef.{DataTypeDef}
use libpsf.TypeDef.Encode.{encode_def, IsEncodable}
use libpsf.Container.{make_indexed}
use libpsf.Container.RoundTrip.{simple_deserialize-MarkedAt}
use libpsf.Container.Encoded.{encode_each, ChildrenAt-encode_each}
use libpsf.Trace.{
  DataTypeRef, Trace, trace_id, trace_name, header_factory, header_deserialize, type_factory,
  type_section_deserialize, sweep_factory, sweep_section_deserialize, trace_factory,
  trace_section_deserialize,
}
use libpsf.Chunk.Laws.{chunk_deserialize-encode_int}
use libpsf.Container.{section_type}
use libpsf.Trace.Header.{append_children-append_all}
use libpsf.Trace.RoundTrip.{encode_ref, IsRef}
use libpsf.Trace.Codings.{
  encode_trace, IsTrace, type-Coding, sweep-Coding, trace-Coding, header-ChildrenAt, header-mark,
  sweep-mark,
}
use libpsf.Trace.Written.{
  simple_section, indexed_section, marked-parts, IsIndex, indexed_deserialize-indexed_section,
}

module _ (buf : Bytes) (start : ℕ) where
  -- A header of properties that fit the format, up to its end marker, is read back as the block of
  -- these properties.
  pub header_deserialize-simple_section :
      (props : List Property)
      → All IsProperty props
      → start + (12 + length (encode_all props)) < 2 ^ 32
      → start + (12 + length (encode_all props)) ≤ length buf
      → At buf start (simple_section start (encode_all props ++ encode_int (pos 1)))
      → header_deserialize buf start start
        ≡ ok (append_all empty_block props, 12 + length (encode_all props))
  unfolding header_deserialize
  header_deserialize-simple_section props fit word room at =
      let size = length (encode_all props) in
      let (head, body, mark) = marked-parts buf start (encode_all props) (pos 1) at in
      let children =
        header-ChildrenAt buf props (start + 8) (start + (8 + size)) fit body (omega arith) in
      rw
        (
          simple_deserialize-MarkedAt header_factory buf (map typed props) start size word room head
              children (header-mark buf (start + (8 + size)) mark),
          append_children-append_all empty_block (map typed props),
          append_all-typed empty_block props,
        )
        refl

  -- A type section gives its types back, with the maps that they make.
  pub type_section_deserialize-indexed_section :
      (ds : List DataTypeDef) (index : Bytes) (next : ℤ)
      → All IsEncodable ds
      → IsIndex 2 index
      → start + (28 + length (encode_each encode_def ds) + length index) < 2 ^ 31
      → start + (28 + length (encode_each encode_def ds) + length index) ≤ length buf
      → At buf start (indexed_section start (encode_each encode_def ds) index next)
      → type_section_deserialize buf start start
        ≡ ok (
          make_indexed TypeDef.get_id TypeDef.get_name ds,
          pos (28 + length (encode_each encode_def ds) + length index),
        )
  unfolding type_section_deserialize
  type_section_deserialize-indexed_section ds index next fit whole word room at =
      indexed_deserialize-indexed_section buf start TypeDef.get_id TypeDef.get_name section_type 2
        type_factory encode_def IsEncodable ds index next
        (chunk_deserialize-encode_int buf start section_type (omega arith)) (type-Coding buf) fit
        whole word room at

  -- A sweep section gives its entries back, up to its end marker.
  pub sweep_section_deserialize-simple_section :
      (rs : List DataTypeRef)
      → All IsRef rs
      → start + (12 + length (encode_each encode_ref rs)) < 2 ^ 32
      → start + (12 + length (encode_each encode_ref rs)) ≤ length buf
      → At buf start (simple_section start (encode_each encode_ref rs ++ encode_int (pos 3)))
      → sweep_section_deserialize buf start start ≡ ok (rs, 12 + length (encode_each encode_ref rs))
  unfolding sweep_section_deserialize ischunk
  sweep_section_deserialize-simple_section rs fit word room at =
      let size = length (encode_each encode_ref rs) in
      let (head, body, mark) = marked-parts buf start (encode_each encode_ref rs) (pos 3) at in
      let stop : Ends buf (start + (8 + size)) (pos 3) =
        (get_int32-encode_int buf (start + (8 + size)) (pos 3) (omega arith) mark, refl) in
      simple_deserialize-MarkedAt sweep_factory buf rs start size word room head
        (ChildrenAt-encode_each sweep_factory encode_ref IsRef buf (sweep-Coding buf) rs (start + 8)
          (start + (8 + size)) (pos 3) fit body (omega arith) stop)
        (sweep-mark buf (start + (8 + size)) mark)

  -- A trace section gives its traces and groups back, with the maps that they make.
  pub trace_section_deserialize-indexed_section :
      (ts : List Trace) (index : Bytes) (next : ℤ)
      → All IsTrace ts
      → IsIndex 4 index
      → start + (28 + length (encode_each encode_trace ts) + length index) < 2 ^ 31
      → start + (28 + length (encode_each encode_trace ts) + length index) ≤ length buf
      → At buf start (indexed_section start (encode_each encode_trace ts) index next)
      → trace_section_deserialize buf start start
        ≡ ok (
          make_indexed trace_id trace_name ts,
          pos (28 + length (encode_each encode_trace ts) + length index),
        )
  unfolding trace_section_deserialize
  trace_section_deserialize-indexed_section ts index next fit whole word room at =
      indexed_deserialize-indexed_section buf start trace_id trace_name section_type 4 trace_factory
        encode_trace IsTrace ts index next
        (chunk_deserialize-encode_int buf start section_type (omega arith)) (trace-Coding buf) fit
        whole word room at
