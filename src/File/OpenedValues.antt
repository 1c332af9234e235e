-- ===== src/File/OpenedValues.antt =====
-- PSFFile::open and PSFFile::deserialize of src/psffile.cc on a file without a sweep that was written.
use libpsf.Prelude.{◌+◌, ◌^◌, ◌<◌, ◌≤◌, ◌≡◌, refl, some, true, none, All, length, arith}
use libpsf.Prelude.Int.{pos, negsuc}
use libpsf.Prelude.Assoc.{int_eq, lookup}
use libpsf.Outcome.{ok}
use libpsf.Buffer.{Bytes}
use libpsf.Property.{empty_block}
use libpsf.Property.RoundTrip.{IsProperty, append_all}
use libpsf.TypeDef
use libpsf.TypeDef.Encode.{IsEncodable}
use libpsf.Container.{make_indexed}
use libpsf.Trace.{TypeSection}
use libpsf.Trace.Written.{IsIndex}
use libpsf.Trace.Sections.{
  header_deserialize-simple_section, type_section_deserialize-indexed_section,
}
use libpsf.NonSweep.{ValueSectionNonSweep}
use libpsf.NonSweep.RoundTrip.{IsValue, nonsweep_deserialize-indexed_section}
use libpsf.File.{
  PsfFile, OperatingSystem, new_file, deserialize, open_file, optional_section, value_section,
  values_at,
}
use libpsf.File.Opened.{validate-At, mapped-whole}
use libpsf.File.WrittenValues.{
  ValueFile, type_offset, value_offset, end_offset, file_bytes, file_bytes-ValuesAt,
  read_table-file_bytes,
}

abbrev pub type_section : ValueFile → TypeSection
type_section f = make_indexed TypeDef.get_id TypeDef.get_name f.types

abbrev pub value_section_of : ValueFile → ValueSectionNonSweep
value_section_of f = make_indexed (λ v. negsuc 0) (λ v. v.name) f.values

-- What a file says fits the format, and an `int` counts its bytes.
pub record IsValueFile (f : ValueFile) : Type 0 where
  pub header : All IsProperty f.header
  pub types : All IsEncodable f.types
  pub values : All (IsValue (type_section f)) f.values
  pub type_entries : IsIndex 2 f.type_index
  pub value_entries : IsIndex 2 f.value_index
  pub short : end_offset f + 36 < 2 ^ 31

-- The open file
abbrev pub value_file : Bytes → ValueFile → PsfFile
value_file name f = record {
  filename = name;
  is_open = true;
  buffer = some (file_bytes f);
  header = some (append_all empty_block f.header);
  types = some (type_section f);
  sweeps = none;
  traces = none;
  sweepvalues = none;
  nonsweepvalues = some (value_section_of f);
}

module _ (f : ValueFile) (w : IsValueFile f) where
  deserialize-file_bytes :
      (name : Bytes)
      → deserialize
          (record (new_file name) { is_open = true; buffer = some (file_bytes f) })
          (file_bytes f)
          (pos (length (file_bytes f)))
        ≡ ok (value_file name f)
  unfolding deserialize new_file optional_section value_section values_at lookup
  deserialize-file_bytes name =
      let at = file_bytes-ValuesAt f in
      let buf = file_bytes f in
      let room : end_offset f ≤ length buf = omega (arith, at.size) in
      let short = w.short in
      rw
        (
          read_table-file_bytes f short,
          header_deserialize-simple_section buf 4 f.header w.header (omega arith) (omega arith)
              at.header_at,
          type_section_deserialize-indexed_section buf (type_offset f) f.types f.type_index (pos 4)
              w.types w.type_entries (omega arith) (omega arith) at.types_at,
          nonsweep_deserialize-indexed_section (type_section f) buf f.values f.value_index (pos 15)
              (value_offset f) w.values w.value_entries (omega arith) (omega arith) at.values_at,
        )
        refl

  pub open_file-value_file :
      (os : OperatingSystem) (name : Bytes)
      → os.content name ≡ some (file_bytes f)
      → open_file os (new_file name) ≡ ok (value_file name f)
  unfolding open_file new_file
  open_file-value_file os name content =
      let at = file_bytes-ValuesAt f in
      let (size, whole) = mapped-whole (file_bytes f) (omega (arith, at.size, w.short)) in
      rw
        (
          content,
          validate-At (file_bytes f) (end_offset f + 24) (omega (arith, at.size)) at.marked,
          whole,
          size,
        )
        (deserialize-file_bytes name)
