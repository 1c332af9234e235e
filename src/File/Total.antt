-- ===== src/File/Total.antt =====
-- Whether PSFFile::open (src/psffile.cc) ends, and what an open file has.
use libpsf.Prelude.{
  ℕ, zero, suc, ◌+◌, ◌-◌, ◌*◌, ◌/◌, ◌%◌, ◌^◌, ◌≡◌, refl, ◌≢◌, true, Option, none, some, List, [],
  length, eqb, Option-cases, inl, inr,
}
use libpsf.Prelude.Int.{ℤ, pos, negsuc, sub_ℕ}
use libpsf.Prelude.Assoc.{int_eq, bytes_eq, lookup}
use libpsf.Outcome.{
  Result, undefined, file_open_error, invalid_file_error, Yields, holds, throws, Yields-bind,
  Yields-if, Yields-weaken, Yields-or_throw,
}
use libpsf.Buffer.{Bytes}
use libpsf.Buffer.At.{read_bytes-Yields}
use libpsf.Buffer.Words.{get_uint32-Yields}
use libpsf.Trace.{
  DataTypeRef, type_section_deserialize, sweep_section_deserialize, trace_section_deserialize,
}
use libpsf.Trace.Total.{
  Any, TypesSized, header_deserialize-Yields, type_section_deserialize-Yields,
  sweep_section_deserialize-Yields, trace_section_deserialize-Yields,
}
use libpsf.NonSweep.Total.{nonsweep_deserialize-Yields}
use libpsf.Sweep.{Sections}
use libpsf.Sweep.Section.{seek-Yields, sweep_values_deserialize-Yields}
use libpsf.File.{
  Section, Table, PsfFile, section_types, section_sweep, section_trace, section_value, toc_loop,
  read_table, optional_section, values_at, value_section, deserialize, validate, mapped, file_size,
  OperatingSystem, open_file,
}

toc_loop-Yields :
    (buf : Bytes) (toc rounds i : ℕ) (t : Table) (last : Option Section)
    → Yields Any (toc_loop buf toc rounds i t last)
unfolding toc_loop
toc_loop-Yields buf toc zero i t last = holds tt
toc_loop-Yields buf toc (suc rounds) i t last =
    Yields-bind (get_uint32-Yields buf (toc + 8 * i)) λ n _.
      Yields-bind (get_uint32-Yields buf (toc + 8 * i + 4))
        λ offset _. toc_loop-Yields buf toc rounds (i + 1) _ _

pub read_table-Yields : (buf : Bytes) (size : ℤ) → Yields Any (read_table buf size)
unfolding read_table
read_table-Yields buf (negsuc size) = throws undefined
read_table-Yields buf (pos size) = Yields-bind (seek-Yields size (negsuc 3)) λ word _.
    Yields-bind (get_uint32-Yields buf word) λ datasize _.
      let nsections = (size + 2 ^ 33 - datasize - 12) % 2 ^ 32 / 8 in
      Yields-bind {P = Any}
        (Yields-if (eqb nsections 0) (λ _. holds tt)
          (λ _. Yields-weaken (seek-Yields size (sub_ℕ 0 (12 + nsections * 8))) (λ _ _. tt)))
        λ toc _. Yields-bind (toc_loop-Yields buf toc nsections 0 [] none) λ (t, last) _.
          Yields-bind {P = Any} (Yields-or_throw last undefined (λ _ _. tt)) λ e _. holds tt

section-Yields :
    {A B : Type 0} (P : Option A → Type 0) (t : Table) (num : ℤ) (read : ℕ → ℕ → Result (A × B))
    (old : Option A)
    → P old
    → ((p : ℕ) → Yields (λ (a, b). P (some a)) (read p p))
    → Yields P (optional_section t num read old)
unfolding optional_section
section-Yields P t num read old h each = elim (Option-cases (lookup num t)) [
  | inl missing ↦ rw (missing, optional_section) (holds h)
  | inr (e, found) ↦ rw (found, optional_section) (Yields-bind (each e.offset) λ (a, b) p. holds p)
]

-- The file is open and mapped, and has its header and types of which each has its size.
pub record IsRead (f : PsfFile) : Type 0 where
  pub sized : TypesSized f.types
  pub header : f.header ≢ none
  pub opened : f.is_open ≡ true
  pub mapped : f.buffer ≢ none

values_at-Yields :
    (buf : Bytes) (s : Sections) (f : PsfFile) (offset : ℕ) (sweeps : Option (List DataTypeRef))
    → TypesSized s.types
    → IsRead f
    → Yields IsRead (values_at buf s f offset sweeps)
unfolding values_at
values_at-Yields buf s f offset none sized h =
    Yields-bind (nonsweep_deserialize-Yields s.types sized buf offset offset) λ (v, n) _.
      holds (record { sized = h.sized; header = h.header; opened = h.opened; mapped = h.mapped })
values_at-Yields buf s f offset (some ps) sized h =
    Yields-bind (sweep_values_deserialize-Yields s buf offset offset sized) λ v _.
      holds (record { sized = h.sized; header = h.header; opened = h.opened; mapped = h.mapped })

value_section-Yields :
    (buf : Bytes) (t : Table) (s : Sections) (f : PsfFile)
    → TypesSized s.types
    → IsRead f
    → Yields IsRead (value_section buf t s f)
unfolding value_section
value_section-Yields buf t s f sized h = elim (Option-cases (lookup section_value t)) [
  | inl missing ↦ rw (missing, value_section) (holds h)
  | inr (e, found) ↦ rw (found, value_section) (values_at-Yields buf s f e.offset s.sweeps sized h)
]

pub deserialize-Yields :
    (f : PsfFile) (buf : Bytes) (size : ℤ)
    → TypesSized f.types
    → f.is_open ≡ true
    → f.buffer ≢ none
    → Yields IsRead (deserialize f buf size)
unfolding deserialize
deserialize-Yields f buf size sized opened mapped = Yields-bind (read_table-Yields buf size) λ t _.
    Yields-bind (header_deserialize-Yields buf _ _) λ (header, n) _.
      Yields-bind
        (section-Yields TypesSized t section_types (type_section_deserialize buf) f.types sized
          (λ p. type_section_deserialize-Yields buf p p))
        λ types h.
          Yields-bind
            (section-Yields Any t section_sweep (sweep_section_deserialize buf) f.sweeps tt
              (λ p. Yields-weaken (sweep_section_deserialize-Yields buf p p) (λ _ _. tt)))
            λ sweeps _.
              Yields-bind
                (section-Yields Any t section_trace (trace_section_deserialize buf) f.traces tt
                  (λ p. Yields-weaken (trace_section_deserialize-Yields buf p p) (λ _ _. tt)))
                λ traces _.
                  value_section-Yields buf t _ _ h
                    (record { sized = h; header = cc; opened = opened; mapped = mapped })

pub validate-Yields : (buf : Bytes) → Yields Any (validate buf)
unfolding validate
validate-Yields buf =
    Yields-bind (seek-Yields (length buf) (negsuc 11))
      λ p _. Yields-bind (read_bytes-Yields buf p 8) λ bs _. holds tt

-- Opening a file ends, whatever its bytes are, within the fuel of every loop of the readers. Where it
-- does not throw the file is open and mapped, and has its header and types that each have the size
-- of their parts. The types that an earlier `open` left must have those sizes.
pub open_file-Yields :
    (os : OperatingSystem) (f : PsfFile) → TypesSized f.types → Yields IsRead (open_file os f)
unfolding open_file
open_file-Yields os f sized =
    Yields-bind {P = Any} (Yields-or_throw (os.content f.filename) file_open_error (λ _ _. tt))
      λ buf _. Yields-bind {P = Any} (validate-Yields buf) λ valid _.
        Yields-if valid
          (λ _.
            deserialize-Yields (record f { is_open = true; buffer = some (mapped buf) })
              (mapped buf) (file_size buf) sized refl (cc))
          (λ _. throws invalid_file_error)
