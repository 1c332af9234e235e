-- ===== src/File.antt =====
-- PSFFile of src/psffile.cc. The operating system is a parameter: the content of the file of a name,
-- and whether `close` succeeds. The mapped file is the list of its bytes.
pub mod Toc
pub mod Written
pub mod Opened
pub mod Again
pub mod WrittenValues
pub mod OpenedValues
pub mod Total
use libpsf.Prelude.{
  ℕ, zero, suc, ◌+◌, ◌-◌, ◌*◌, ◌/◌, ◌%◌, ◌^◌, Bool, true, false, Option, none, some, List, [], ◌∷◌,
  take, length, ltb, eqb, if◌then◌else◌,
}
use libpsf.Prelude.Int.{ℤ, pos, negsuc, to_int32, sub_ℕ}
use libpsf.Prelude.Assoc.{◌==◌, int_eq, bytes_eq, lookup, insert}
use libpsf.Outcome.{
  Result, ok, err, undefined, file_open_error, invalid_file_error, file_close_error, or_throw,
  ◌>>=◌,
}
use libpsf.Buffer.{Bytes, codes, get_uint32, read_bytes, seek}
use libpsf.Scalar.{Scalar}
use libpsf.Property.{PropertyBlock, empty_block}
use libpsf.Container.{Indexed, get_names}
use libpsf.Trace.{
  TypeSection, TraceSection, DataTypeRef, header_deserialize, type_section_deserialize,
  sweep_section_deserialize, trace_section_deserialize, trace_names,
}
use libpsf.NonSweep
use libpsf.NonSweep.{ValueSectionNonSweep, nonsweep_deserialize}
use libpsf.Vector.{Vector}
use libpsf.Sweep
use libpsf.Sweep.{Sections, ValueSectionSweep, sweep_values_deserialize}

-- An entry of the section index table
pub record Section : Type 0 where
  pub n : ℕ
  pub offset : ℕ
  pub size : ℤ

abbrev pub section_header : ℤ
section_header = pos 0

abbrev pub section_types : ℤ
section_types = pos 1

abbrev pub section_sweep : ℤ
section_sweep = pos 2

abbrev pub section_trace : ℤ
section_trace = pos 3

abbrev pub section_value : ℤ
section_value = pos 4

abbrev pub Table : Type 0
Table = List (ℤ × Section)

-- `sections[num].size = size`, which makes an entry of zeros where there is none
unfoldable pub set_size : ℤ → ℤ → Table → Table
set_size num size t = elim (lookup num t) [
  | none ↦ insert num (record { n = 0; offset = 0; size = size }) t
  | some e ↦ insert num (record e { size = size }) t
]

-- `section.offset - lastoffset`, a 32-bit word as an `int`
abbrev diff : ℕ → ℕ → ℤ
diff a b = to_int32 ((a + 2 ^ 32 - b) % 2 ^ 32)

-- The rounds that are left, the round, the table so far and the last section, which no section
-- comes before in the first round.
toc_loop : Bytes → ℕ → ℕ → ℕ → Table → Option Section → Result (Table × Option Section)
unfolding set_size
toc_loop buf toc zero i t last = ok (t, last)
toc_loop buf toc (suc rounds) i t last = do
  n ← get_uint32 buf (toc + 8 * i)
  offset ← get_uint32 buf (toc + 8 * i + 4)
  let section : Section = record { n = n; offset = offset; size = pos 0 }
  let sized : Table = elim last [
    | none ↦ t
    | some e ↦ set_size (to_int32 e.n) (diff offset e.offset) t
  ]
  toc_loop buf toc rounds (i + 1) (insert (to_int32 n) section sized) (some section)

-- The section index table between the sections and the last twelve bytes. With no section the
-- last one is read without a value. A negative size puts the reads in front of the mapping.
unfoldable pub read_table : Bytes → ℤ → Result Table
unfolding toc_loop
read_table buf (negsuc size) = err undefined
read_table buf (pos size) = do
  word ← seek size (negsuc 3)
  datasize ← get_uint32 buf word
  let nsections = (size + 2 ^ 33 - datasize - 12) % 2 ^ 32 / 8
  toc ← (if eqb nsections 0 then ok 0 else seek size (sub_ℕ 0 (12 + nsections * 8)))
  (t, last) ← toc_loop buf toc nsections 0 [] none
  e ← or_throw last undefined
  ok (set_size (to_int32 e.n) (diff size e.offset) t)

-- The object: whether the file is open, its mapping, and the sections that were read.
pub record PsfFile : Type 0 where
  pub filename : Bytes
  pub is_open : Bool
  pub buffer : Option Bytes
  pub header : Option PropertyBlock
  pub types : Option TypeSection
  pub sweeps : Option (List DataTypeRef)
  pub traces : Option TraceSection
  pub sweepvalues : Option ValueSectionSweep
  pub nonsweepvalues : Option ValueSectionNonSweep

unfoldable pub new_file : Bytes → PsfFile
new_file filename = record {
  filename = filename;
  is_open = false;
  buffer = none;
  header = none;
  types = none;
  sweeps = none;
  traces = none;
  sweepvalues = none;
  nonsweepvalues = none;
}

-- A section that the table names is read anew; another stays what it was.
unfoldable pub optional_section {ℓ} :
    {A B : Type ℓ} → Table → ℤ → (ℕ → ℕ → Result (A × B)) → Option A → Result (Option A)
optional_section t num deserialize old = elim (lookup num t) [
  | none ↦ ok old
  | some e ↦ do (a, n) ← deserialize e.offset e.offset; ok (some a)
]

-- The values at an offset, of a sweep where there are sweeps
values_at : Bytes → Sections → PsfFile → ℕ → Option (List DataTypeRef) → Result PsfFile
values_at buf s f offset none = do
  (v, n) ← nonsweep_deserialize s.types buf offset offset
  ok (record f { nonsweepvalues = some v })
values_at buf s f offset (some ps) = do
  v ← sweep_values_deserialize s buf offset offset
  ok (record f { sweepvalues = some v })

value_section : Bytes → Table → Sections → PsfFile → Result PsfFile
unfolding values_at
value_section buf t s f = elim (lookup section_value t) [
  | none ↦ ok f
  | some e ↦ values_at buf s f e.offset s.sweeps
]

-- PSFFile::deserialize
unfoldable pub deserialize : PsfFile → Bytes → ℤ → Result PsfFile
unfolding optional_section value_section
deserialize f buf size = do
  t ← read_table buf size
  let start : ℕ = elim (lookup section_header t) [ none ↦ 0 | some e ↦ e.offset ]
  (header, n) ← header_deserialize buf start start
  types ← optional_section t section_types (type_section_deserialize buf) f.types
  sweeps ← optional_section t section_sweep (sweep_section_deserialize buf) f.sweeps
  traces ← optional_section t section_trace (trace_section_deserialize buf) f.traces
  value_section buf t (record { header = header; types = types; sweeps = sweeps; traces = traces })
      (record f { header = some header; types = types; sweeps = sweeps; traces = traces })

-- The eight bytes before the last word; nothing is read of a file of less than twelve bytes.
unfoldable pub validate : Bytes → Result Bool
validate buf = do
  p ← seek (length buf) (negsuc 11)
  clarissa ← read_bytes buf p 8
  ok (clarissa == codes "Clarissa")

pub record OperatingSystem : Type 0 where
  pub content : Bytes → Option Bytes
  pub close_succeeds : Bool

-- `m_size`, an `int`, and what is mapped by that size: nothing where it is negative.
unfoldable pub file_size : Bytes → ℤ
file_size content = to_int32 (length content % 2 ^ 32)

abbrev pub mapped_of : ℤ → Bytes → Bytes
mapped_of (pos n) content = take n content
mapped_of (negsuc n) content = []

unfoldable pub mapped : Bytes → Bytes
mapped content = mapped_of (file_size content) content

-- `munmap`, which `close` starts with: what it leaves where it throws.
unfoldable pub unmapped : PsfFile → PsfFile
unmapped f = record f { buffer = none }

module _ (os : OperatingSystem) where
  unfoldable pub open_file : PsfFile → Result PsfFile
  open_file f = do
    content ← or_throw (os.content f.filename) file_open_error
    valid ← validate content
    let buf : Bytes = mapped content
    if valid
        then deserialize (record f { is_open = true; buffer = some buf }) buf (file_size content)
        else err invalid_file_error

  unfoldable pub close_file : PsfFile → Result PsfFile
  unfolding unmapped
  close_file f =
      if f.is_open
      then (if os.close_succeeds
          then ok (record (unmapped f) { is_open = false })
          else err file_close_error)
      else ok (unmapped f)

-- The sections as a value section reads them; the header is read first.
unfoldable pub sections_of : PsfFile → Result Sections
sections_of f = do
  header ← or_throw f.header undefined
  ok (record { header = header; types = f.types; sweeps = f.sweeps; traces = f.traces })

unfoldable pub get_header_properties : PsfFile → Result PropertyBlock
get_header_properties f = or_throw f.header undefined

unfoldable pub get_param_names : PsfFile → List Bytes
get_param_names f = elim f.sweeps [ none ↦ [] | some rs ↦ get_names (λ r. r.name) rs ]

-- A null pointer is `none`. The values are read from the mapping, which must be there.
unfoldable pub get_param_values : PsfFile → Result (Option Vector)
unfolding sections_of
get_param_values f = elim f.sweepvalues [
  | none ↦ ok none
  | some v ↦ do
    s ← sections_of f
    buf ← or_throw f.buffer undefined
    vec ← Sweep.get_param_values s v buf
    ok (some vec)
]

unfoldable pub get_values : PsfFile → Bytes → Result (Option Vector)
unfolding sections_of
get_values f name = elim f.sweepvalues [
  | none ↦ ok none
  | some v ↦ do
    s ← sections_of f
    buf ← or_throw f.buffer undefined
    vec ← Sweep.get_values s v buf name
    ok (some vec)
]

-- The next three leave the function without a value, or take a null pointer, where the section
-- that they want is missing.
unfoldable pub get_value_properties : PsfFile → Bytes → Result PropertyBlock
get_value_properties f name = do
  v ← or_throw f.nonsweepvalues undefined
  NonSweep.get_value_properties v name

unfoldable pub get_value : PsfFile → Bytes → Result Scalar
get_value f name = do v ← or_throw f.nonsweepvalues undefined; NonSweep.get_value v name

unfoldable pub get_file_names : PsfFile → Result (List Bytes)
get_file_names f = elim f.traces [
  | some ts ↦ ok (trace_names ts.children)
  | none ↦ elim f.nonsweepvalues [
    | some v ↦ ok (get_names (λ x. x.name) v.children)
    | none ↦ err undefined
  ]
]
