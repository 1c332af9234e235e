-- ===== src/File/WrittenValues.antt =====
-- The bytes of a file without a sweep, and where its sections stand (src/psffile.cc).
use libpsf.Prelude.{
  ℕ, ◌+◌, ◌^◌, ◌<◌, ◌≡◌, refl, List, [], ◌∷◌, ◌++◌, length, length-append, append-nil, arith,
}
use mathlib.Core.Path.{subst}
use libpsf.Prelude.Int.{pos}
use libpsf.Prelude.Assoc.{int_eq, lookup}
use libpsf.Outcome.{ok}
use libpsf.Buffer.{Bytes, codes}
use libpsf.Buffer.At.{At, At-then, At-whole}
use libpsf.Buffer.Words.{to_be, length-to_be, encode_int, length-encode_int}
use libpsf.Property.{Property}
use libpsf.Property.RoundTrip.{encode_all}
use libpsf.TypeDef.{DataTypeDef}
use libpsf.TypeDef.Encode.{encode_def}
use libpsf.Container.Encoded.{encode_each}
use libpsf.Trace.Written.{
  simple_section, indexed_section, length-simple_section, length-indexed_section,
}
use libpsf.NonSweep.{NonSweepValue}
use libpsf.NonSweep.RoundTrip.{encode_value}
use libpsf.File.{read_table}
use libpsf.File.Toc.{encode_entries, rows, read_table-encode_entries, length-encode_entries}

-- What a file without a sweep says (doc/psfformat.rst): the signature, the header, the types and the values. The indexes of the types
-- and of the values are never used.
pub record ValueFile : Type 0 where
  pub signature : ℕ
  pub header : List Property
  pub types : List DataTypeDef
  pub type_index : Bytes
  pub values : List NonSweepValue
  pub value_index : Bytes

module _ (f : ValueFile) where
  abbrev pub type_offset : ℕ
  type_offset = 4 + (12 + length (encode_all f.header))

  abbrev pub value_offset : ℕ
  value_offset = type_offset + (28 + length (encode_each encode_def f.types) + length f.type_index)

  abbrev pub end_offset : ℕ
  end_offset =
      value_offset + (28 + length (encode_each encode_value f.values) + length f.value_index)

  header_bytes : Bytes
  header_bytes = simple_section 4 (encode_all f.header ++ encode_int (pos 1))

  type_bytes : Bytes
  type_bytes = indexed_section type_offset (encode_each encode_def f.types) f.type_index (pos 4)

  value_bytes : Bytes
  value_bytes =
      indexed_section value_offset (encode_each encode_value f.values) f.value_index (pos 15)

  -- The signature, which nothing reads, and the three sections
  section_bytes : Bytes
  section_bytes = to_be 4 f.signature ++ (header_bytes ++ (type_bytes ++ value_bytes))

  abbrev pub entries : List (ℕ × ℕ)
  entries = (1, type_offset) ∷ ((4, value_offset) ∷ [])

  unfoldable pub file_bytes : Bytes
  unfolding section_bytes header_bytes type_bytes value_bytes
  file_bytes =
      section_bytes
      ++ (encode_entries ((0, 4) ∷ entries) ++ (codes "Clarissa" ++ to_be 4 (length section_bytes)))

  length-section_bytes : length section_bytes ≡ end_offset
  unfolding section_bytes header_bytes type_bytes value_bytes
  length-section_bytes = omega (
    arith,
    length-append (encode_all f.header) (encode_int (pos 1)),
    length-encode_int (pos 1),
    length-append (to_be 4 f.signature) (header_bytes ++ (type_bytes ++ value_bytes)),
    length-append header_bytes (type_bytes ++ value_bytes),
    length-append type_bytes value_bytes,
    length-to_be 4 f.signature,
    length-simple_section 4 (encode_all f.header ++ encode_int (pos 1)),
    length-indexed_section type_offset (encode_each encode_def f.types) f.type_index (pos 4),
    length-indexed_section value_offset (encode_each encode_value f.values) f.value_index (pos 15),
  )

  -- Where the sections stand, and the word that is checked
  pub record ValuesAt (buf : Bytes) : Type 0 where
    pub size : length buf ≡ end_offset + 36
    pub header_at : At buf 4 (simple_section 4 (encode_all f.header ++ encode_int (pos 1)))
    pub types_at :
        At buf type_offset
          (indexed_section type_offset (encode_each encode_def f.types) f.type_index (pos 4))
    pub values_at :
        At buf value_offset
          (indexed_section value_offset (encode_each encode_value f.values) f.value_index (pos 15))
    pub marked : At buf (end_offset + 24) (codes "Clarissa")

  pub file_bytes-ValuesAt : ValuesAt file_bytes
  unfolding file_bytes
  file_bytes-ValuesAt =
      let t = encode_entries ((0, 4) ∷ entries) in
      let w = to_be 4 (length section_bytes) in
      let c = codes "Clarissa" in
      let lt : length t ≡ 24 = length-encode_entries ((0, 4) ∷ entries) in
      let lw : length w ≡ 4 = length-to_be 4 (length section_bytes) in
      let at₀ : At file_bytes 0 file_bytes =
        subst (λ z. At z 0 file_bytes) (append-nil file_bytes) (At-whole [] file_bytes []) in
      let (at₁, tail) =
        At-then file_bytes 0 section_bytes (t ++ (c ++ w)) end_offset at₀
          (omega (arith, length-section_bytes)) in
      let (at_t, at_c) =
        At-then file_bytes end_offset t (c ++ w) (end_offset + 24) tail (omega arith) in
      let (mark, at_w) = At-then file_bytes (end_offset + 24) c w _ at_c refl in
      let (lead, at₂) =
        At-then file_bytes 0 (to_be 4 f.signature) _ 4 at₁
          (omega (arith, length-to_be 4 f.signature)) in
      let (h, at₃) = At-then file_bytes 4 header_bytes _ type_offset at₂ (
        omega (
          arith,
          length-simple_section 4 (encode_all f.header ++ encode_int (pos 1)),
          length-append (encode_all f.header) (encode_int (pos 1)),
          length-encode_int (pos 1),
        )) in
      let (ty, v) = At-then file_bytes type_offset type_bytes _ value_offset at₃ (
        omega (
          arith,
          length-indexed_section type_offset (encode_each encode_def f.types) f.type_index (pos 4),
        )) in
      record {
        size = omega (
          arith,
          length-section_bytes,
          length-append section_bytes (t ++ (c ++ w)),
          length-append t (c ++ w),
          length-append c w,
        );
        header_at = h;
        types_at = ty;
        values_at = v;
        marked = mark;
      }

  pub read_table-file_bytes :
      end_offset + 36 < 2 ^ 31
      → read_table file_bytes (pos (length file_bytes)) ≡ ok (rows 0 4 entries (length file_bytes))
  unfolding file_bytes lookup
  read_table-file_bytes fits =
      read_table-encode_entries section_bytes 0 4 entries
        (
          (omega arith, omega arith, refl),
          ((omega arith, omega arith, refl), (omega arith, omega arith, refl)),
        )
        (omega (arith, length-section_bytes))
