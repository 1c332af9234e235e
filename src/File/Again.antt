-- ===== src/File/Again.antt =====
-- PSFFile::deserialize of src/psffile.cc on a file that was read before: the sections stay what they
-- were.
use libpsf.Prelude.{
  ℕ, ◌≡◌, refl, sym, ap, ◌∙◌, Bool, true, false, if◌then◌else◌, Option, none, some, List,
}
use mathlib.Core.Path.{subst}
use libpsf.Prelude.Int.{ℤ}
use libpsf.Prelude.Assoc.{int_eq, lookup}
use libpsf.Outcome.{
  Result, ok, err, or_throw, file_open_error, invalid_file_error, ◌>>=◌, >>=-ok, >>=-step,
}
use libpsf.Buffer.{Bytes}
use libpsf.Trace.{
  DataTypeRef, header_deserialize, type_section_deserialize, sweep_section_deserialize,
  trace_section_deserialize,
}
use libpsf.NonSweep.{ValueSectionNonSweep, nonsweep_deserialize}
use libpsf.Sweep.{Sections, ValueSectionSweep, sweep_values_deserialize}
use libpsf.File.{
  PsfFile, Section, Table, read_table, optional_section, values_at, value_section, section_value,
  section_header, section_types, section_sweep, section_trace, deserialize, OperatingSystem,
  open_file, validate, mapped, file_size,
}

-- A section that was read once is read again as it is.
optional_section-again :
    {A B : Type 0} (t : Table) (num : ℤ) (read : ℕ → ℕ → Result (A × B)) (old new : Option A)
    → optional_section t num read old ≡ ok new
    → optional_section t num read new ≡ ok new
unfolding optional_section
optional_section-again t num read old new e = by_entry (lookup num t) e
  where
    by_entry :
        (entry : Option Section)
        → (elim entry [ none ↦ ok old | some e ↦ do (a, n) ← read e.offset e.offset; ok (some a) ])
          ≡ ok new
        → (elim entry [ none ↦ ok new | some e ↦ do (a, n) ← read e.offset e.offset; ok (some a) ])
          ≡ ok new
    by_entry none e = refl
    by_entry (some x) e = e

-- What reading the values leaves alone
pub record IsKept (f g : PsfFile) : Type 0 where
  pub filename : g.filename ≡ f.filename
  pub is_open : g.is_open ≡ f.is_open
  pub buffer : g.buffer ≡ f.buffer
  pub header : g.header ≡ f.header
  pub types : g.types ≡ f.types
  pub sweeps : g.sweeps ≡ f.sweeps
  pub traces : g.traces ≡ f.traces

values-IsKept :
    (f : PsfFile) (a : Option ValueSectionSweep) (b : Option ValueSectionNonSweep)
    → IsKept f (record f { sweepvalues = a; nonsweepvalues = b })
values-IsKept f a b = record {
  filename = refl;
  is_open = refl;
  buffer = refl;
  header = refl;
  types = refl;
  sweeps = refl;
  traces = refl;
}

module _ (buf : Bytes) (s : Sections) where
  values_at-again :
      (f g : PsfFile) (offset : ℕ) (ps : Option (List DataTypeRef))
      → values_at buf s f offset ps ≡ ok g
      → (values_at buf s g offset ps ≡ ok g) × IsKept f g
  unfolding values_at
  values_at-again f g offset none e =
      let ((v, n), read, e') = >>=-ok (nonsweep_deserialize s.types buf offset offset) _ e in
      let same : record f { nonsweepvalues = some v } ≡ g = cc in
      subst (λ h. (values_at buf s h offset none ≡ ok h) × IsKept f h) same
        (
          ap (λ r. do (v, n) ← r; ok (record f { nonsweepvalues = some v })) read,
          values-IsKept f f.sweepvalues (some v),
        )
  values_at-again f g offset (some ps) e =
      let (v, read, e') = >>=-ok (sweep_values_deserialize s buf offset offset) _ e in
      let same : record f { sweepvalues = some v } ≡ g = cc in
      subst (λ h. (values_at buf s h offset (some ps) ≡ ok h) × IsKept f h) same
        (
          ap (λ r. do v ← r; ok (record f { sweepvalues = some v })) read,
          values-IsKept f (some v) f.nonsweepvalues,
        )

  value_section-again :
      (t : Table) (f g : PsfFile)
      → value_section buf t s f ≡ ok g
      → (value_section buf t s g ≡ ok g) × IsKept f g
  unfolding value_section
  value_section-again t f g e = by_entry (lookup section_value t) e
    where
      by_entry :
          (entry : Option Section)
          → (elim entry [ none ↦ ok f | some x ↦ values_at buf s f x.offset s.sweeps ]) ≡ ok g
          → ((elim entry [ none ↦ ok g | some x ↦ values_at buf s g x.offset s.sweeps ]) ≡ ok g)
            × IsKept f g
      by_entry none e =
          let same : f ≡ g = cc in
          (refl, subst (IsKept f) same (values-IsKept f f.sweepvalues f.nonsweepvalues))
      by_entry (some x) e = values_at-again f g x.offset s.sweeps e

-- A file that was read is read again to itself.
pub deserialize-again :
    (f g : PsfFile) (buf : Bytes) (size : ℤ)
    → deserialize f buf size ≡ ok g
    → (deserialize g buf size ≡ ok g)
      × (g.filename ≡ f.filename)
      × (g.is_open ≡ f.is_open)
      × (g.buffer ≡ f.buffer)
unfolding deserialize
deserialize-again f g buf size e =
    let (t, et, e₁) = >>=-ok (read_table buf size) _ e in
    let start : ℕ = elim (lookup section_header t) [ none ↦ 0 | some x ↦ x.offset ] in
    let ((header, n), eh, e₂) = >>=-ok (header_deserialize buf start start) _ e₁ in
    let (types, ety, e₃) =
      >>=-ok (optional_section t section_types (type_section_deserialize buf) f.types) _ e₂ in
    let (sweeps, esw, e₄) =
      >>=-ok (optional_section t section_sweep (sweep_section_deserialize buf) f.sweeps) _ e₃ in
    let (traces, etr, e₅) =
      >>=-ok (optional_section t section_trace (trace_section_deserialize buf) f.traces) _ e₄ in
    let s : Sections = record {
      header = header;
      types = types;
      sweeps = sweeps;
      traces = traces;
    } in
    let f' : PsfFile = record f {
      header = some header;
      types = types;
      sweeps = sweeps;
      traces = traces;
    } in
    let (again, kept) = value_section-again buf s t f' g e₅ in
    let ty : optional_section t section_types (type_section_deserialize buf) g.types ≡ ok types =
      ap (optional_section t section_types (type_section_deserialize buf)) kept.types
      ∙ optional_section-again t section_types (type_section_deserialize buf) f.types types ety in
    let sw : optional_section t section_sweep (sweep_section_deserialize buf) g.sweeps ≡ ok sweeps =
      ap (optional_section t section_sweep (sweep_section_deserialize buf)) kept.sweeps
      ∙ optional_section-again t section_sweep (sweep_section_deserialize buf) f.sweeps sweeps
          esw in
    let tr : optional_section t section_trace (trace_section_deserialize buf) g.traces ≡ ok traces =
      ap (optional_section t section_trace (trace_section_deserialize buf)) kept.traces
      ∙ optional_section-again t section_trace (trace_section_deserialize buf) f.traces traces
          etr in
    let whole : record g { header = some header; types = types; sweeps = sweeps; traces = traces }
        ≡ g =
      λ i. record g {
        header = sym kept.header i;
        types = sym kept.types i;
        sweeps = sym kept.sweeps i;
        traces = sym kept.traces i;
      } in
    (
      >>=-step _ et (
          >>=-step _ eh (
            >>=-step _ ty
              (>>=-step _ sw (>>=-step _ tr (ap (value_section buf t s) whole ∙ again))))),
      kept.filename,
      kept.is_open,
      kept.buffer,
    )

-- A file that was opened, closed or not, is opened again to itself.
pub open_file-again :
    (os : OperatingSystem) (f g : PsfFile) (opened : Bool) (mapping : Option Bytes)
    → open_file os f ≡ ok g
    → (open_file os (record g { is_open = opened; buffer = mapping }) ≡ ok g) × (g.is_open ≡ true)
unfolding open_file
open_file-again os f g opened mapping e =
    let (buf, content, e₁) = >>=-ok (or_throw (os.content f.filename) file_open_error) _ e in
    let (valid, ev, e₂) = >>=-ok (validate buf) _ e₁ in by_validity valid buf content ev e₂
  where
    by_validity :
        (valid : Bool) (buf : Bytes)
        → or_throw (os.content f.filename) file_open_error ≡ ok buf
        → validate buf ≡ ok valid
        → (if valid
            then deserialize
                (record f { is_open = true; buffer = some (mapped buf) })
                (mapped buf)
                (file_size buf)
            else err invalid_file_error)
          ≡ ok g
        → (open_file os (record g { is_open = opened; buffer = mapping }) ≡ ok g)
          × (g.is_open ≡ true)
    by_validity false buf content ev e = cc
    by_validity true buf content ev e =
        let f' : PsfFile = record f { is_open = true; buffer = some (mapped buf) } in
        let (again, name, opened, kept) = deserialize-again f' g (mapped buf) (file_size buf) e in
        let whole : record g { is_open = true; buffer = some (mapped buf) } ≡ g =
          λ i. record g { is_open = sym opened i; buffer = sym kept i } in
        (
          >>=-step _ (ap (λ n. or_throw (os.content n) file_open_error) name ∙ content)
              (>>=-step _ ev (ap (λ h. deserialize h (mapped buf) (file_size buf)) whole ∙ again)),
          opened,
        )
