-- ===== src/File/Opened.antt =====
-- PSFFile::open and PSFFile::deserialize of src/psffile.cc on a file with a sweep that was written.
use libpsf.Prelude.{
  ℕ, ◌+◌, ◌^◌, ◌<◌, ◌≤◌, ◌≡◌, refl, ap, ◌∙◌, some, true, none, take, [], ◌∷◌, ◌%◌, All, length,
  arith,
}
use libpsf.Prelude.Int.{pos, negsuc, to_int32, to_int32-pos}
use libpsf.Prelude.Assoc.{int_eq, bytes_eq, lookup}
use libpsf.Outcome.{ok}
use libpsf.Buffer.{Bytes, codes, seek}
use libpsf.Buffer.At.{At, read_bytes-At}
use libpsf.Property.{empty_block}
use libpsf.Property.RoundTrip.{IsProperty, append_all}
use libpsf.TypeDef
use libpsf.TypeDef.Encode.{IsEncodable}
use libpsf.Container.{make_indexed}
use libpsf.Trace.{trace_id, trace_name}
use libpsf.Trace.RoundTrip.{IsRef}
use libpsf.Trace.Codings.{IsTrace}
use libpsf.Trace.Written.{IsIndex}
use libpsf.Trace.Sections.{
  header_deserialize-simple_section, type_section_deserialize-indexed_section,
  sweep_section_deserialize-simple_section, trace_section_deserialize-indexed_section,
}
use libpsf.Sweep.{Sections, ValueSectionSweep, sweep_values_deserialize}
use libpsf.File.{
  PsfFile, OperatingSystem, new_file, mapped, mapped_of, file_size, validate, deserialize,
  open_file, optional_section, value_section, values_at,
}
use libpsf.File.Toc.{seek_back}
use libpsf.File.Written.{
  SweepFile, type_offset, sweep_offset, trace_offset, value_offset, end_offset, file_bytes,
  file_bytes-SectionsAt, read_table-file_bytes,
}

-- What a file says fits the format, and an `int` counts its bytes.
pub record IsWritten (f : SweepFile) : Type 0 where
  pub header : All IsProperty f.header
  pub types : All IsEncodable f.types
  pub sweeps : All IsRef f.sweeps
  pub traces : All IsTrace f.traces
  pub type_entries : IsIndex 2 f.type_index
  pub trace_entries : IsIndex 4 f.trace_index
  pub short : end_offset f + 52 < 2 ^ 31

-- The sections of the file
abbrev pub written_sections : SweepFile → Sections
written_sections f = record {
  header = append_all empty_block f.header;
  types = some (make_indexed TypeDef.get_id TypeDef.get_name f.types);
  sweeps = some f.sweeps;
  traces = some (make_indexed trace_id trace_name f.traces);
}

-- The open file, with the values `v`
abbrev pub written_file : Bytes → SweepFile → ValueSectionSweep → PsfFile
written_file name f v = record {
  filename = name;
  is_open = true;
  buffer = some (file_bytes f);
  header = some (written_sections f).header;
  types = (written_sections f).types;
  sweeps = (written_sections f).sweeps;
  traces = (written_sections f).traces;
  sweepvalues = some v;
  nonsweepvalues = none;
}

-- A file with the word at its place is valid.
pub validate-At :
    (buf : Bytes) (p : ℕ)
    → length buf ≡ p + 12
    → At buf p (codes "Clarissa")
    → validate buf ≡ ok true
unfolding validate
validate-At buf p size at =
    let there : seek (length buf) (negsuc 11) ≡ ok p =
      ap (λ n. seek n (negsuc 11)) size ∙ seek_back p 11 in
    rw (there, read_bytes-At buf p (codes "Clarissa") at) refl

take-length : (xs : Bytes) → take (length xs) xs ≡ xs
take-length [] = refl
take-length (x ∷ xs) = ap (λ ys. x ∷ ys) (take-length xs)

-- All of a file whose length an `int` holds is mapped.
pub mapped-whole :
    (buf : Bytes) → length buf < 2 ^ 31 → (file_size buf ≡ pos (length buf)) × (mapped buf ≡ buf)
unfolding mapped file_size
mapped-whole buf short =
    let word : length buf % 2 ^ 32 ≡ length buf = omega arith in
    let size : to_int32 (length buf % 2 ^ 32) ≡ pos (length buf) =
      ap to_int32 word ∙ to_int32-pos (length buf) short in
    (size, ap (λ z. mapped_of z buf) size ∙ take-length buf)

module _ (f : SweepFile) (w : IsWritten f) where
  deserialize-file_bytes :
      (name : Bytes) (v : ValueSectionSweep)
      → sweep_values_deserialize
          (written_sections f)
          (file_bytes f)
          (value_offset f)
          (value_offset f)
        ≡ ok v
      → deserialize
          (record (new_file name) { is_open = true; buffer = some (file_bytes f) })
          (file_bytes f)
          (pos (length (file_bytes f)))
        ≡ ok (written_file name f v)
  unfolding deserialize new_file optional_section value_section values_at lookup
  deserialize-file_bytes name v values =
      let at = file_bytes-SectionsAt f in
      let buf = file_bytes f in
      let room : end_offset f ≤ length buf = omega (arith, at.size) in
      let short = w.short in
      rw
        (
          read_table-file_bytes f short,
          header_deserialize-simple_section buf 4 f.header w.header (omega arith) (omega arith)
              at.header_at,
          type_section_deserialize-indexed_section buf (type_offset f) f.types f.type_index (pos 2)
              w.types w.type_entries (omega arith) (omega arith) at.types_at,
          sweep_section_deserialize-simple_section buf (sweep_offset f) f.sweeps w.sweeps
              (omega arith) (omega arith) at.sweeps_at,
          trace_section_deserialize-indexed_section buf (trace_offset f) f.traces f.trace_index
              (pos 4) w.traces w.trace_entries (omega arith) (omega arith) at.traces_at,
          values,
        )
        refl

  -- A file that was written is opened: its header, types, sweep parameters and traces are those that
  -- were written, and its values are those of the value section at its place. Everything fits the
  -- format: the header and the sweep section end with their markers, and an `int` counts the bytes of
  -- the file.
  pub open_file-file_bytes :
      (os : OperatingSystem) (name : Bytes) (v : ValueSectionSweep)
      → os.content name ≡ some (file_bytes f)
      → sweep_values_deserialize
          (written_sections f)
          (file_bytes f)
          (value_offset f)
          (value_offset f)
        ≡ ok v
      → open_file os (new_file name) ≡ ok (written_file name f v)
  unfolding open_file new_file
  open_file-file_bytes os name v content values =
      let at = file_bytes-SectionsAt f in
      let (size, whole) = mapped-whole (file_bytes f) (omega (arith, at.size, w.short)) in
      rw
        (
          content,
          validate-At (file_bytes f) (end_offset f + 40) (omega (arith, at.size)) at.marked,
          whole,
          size,
        )
        (deserialize-file_bytes name v values)
