-- ===== src/DataSet/Signals.antt =====
-- The signals of an open data set with the values of a sweep (src/psf.cc, src/psffile.cc).
use libpsf.Prelude.{ℕ, suc, ◌≡◌, refl, ap, ◌∙◌, true, none, some, arith}
use libpsf.Prelude.Int.{pos, leb_ℤ}
use libpsf.Outcome.{ok, or_throw, undefined, ◌>>=◌}
use libpsf.Buffer.{Bytes}
use libpsf.Vector.{Vector}
use libpsf.Sweep
use libpsf.Sweep.{Sections, ValueSectionSweep, int_property}
use libpsf.File
use libpsf.DataSet.{
  DataSet, sweeps_key, verify_open, header_int, is_swept, get_signal_vector, get_signal,
  get_sweep_values, invert,
}

-- An open data set whose file has the values `v` of a sweep
pub record IsSweepSet (d : DataSet) (s : Sections) (v : ValueSectionSweep) (buf : Bytes)
    : Type 0 where
  pub opened : d.is_open ≡ true
  pub header : d.psf.header ≡ some s.header
  pub types : d.psf.types ≡ s.types
  pub sweeps : d.psf.sweeps ≡ s.sweeps
  pub traces : d.psf.traces ≡ s.traces
  pub values : d.psf.sweepvalues ≡ some v
  pub mapped : d.psf.buffer ≡ some buf

module _ (d : DataSet) (s : Sections) (v : ValueSectionSweep) (buf : Bytes)
    (h : IsSweepSet d s v buf) where
  sections_of-IsSweepSet : File.sections_of d.psf ≡ ok s
  unfolding File.sections_of
  sections_of-IsSweepSet = rw (h.header, h.types, h.sweeps, h.traces) refl

  file_get_values :
      (name : Bytes)
      → File.get_values d.psf name ≡ (do vec ← Sweep.get_values s v buf name; ok (some vec))
  unfolding File.get_values
  file_get_values name =
      ap
        (λ o. elim o [
          | none ↦ ok none
          | some w ↦ do
            r ← File.sections_of d.psf
            b ← or_throw d.psf.buffer undefined
            vec ← Sweep.get_values r w b name
            ok (some vec)
        ])
        h.values
      ∙ rw (sections_of-IsSweepSet, h.mapped) refl

  file_get_param_values :
      File.get_param_values d.psf ≡ (do vec ← Sweep.get_param_values s v buf; ok (some vec))
  unfolding File.get_param_values
  file_get_param_values =
      ap
        (λ o. elim o [
          | none ↦ ok none
          | some w ↦ do
            r ← File.sections_of d.psf
            b ← or_throw d.psf.buffer undefined
            vec ← Sweep.get_param_values r w b
            ok (some vec)
        ])
        h.values
      ∙ rw (sections_of-IsSweepSet, h.mapped) refl

  one_le : (n : ℕ) → leb_ℤ (pos 1) (pos (suc n)) ≡ true
  one_le n = ground arith

  pub get_signal-IsSweepSet :
      (name : Bytes) (n : ℕ) (vec : Vector)
      → int_property s.header sweeps_key ≡ ok (pos (suc n))
      → Sweep.get_values s v buf name ≡ ok vec
      → get_signal d name ≡ invert d.invertstruct (some vec)
  unfolding get_signal verify_open is_swept header_int get_signal_vector File.get_header_properties
  get_signal-IsSweepSet name n vec count e =
      simp (h.opened, h.header, count, one_le n, file_get_values name, e)

  pub get_sweep_values-IsSweepSet :
      (vec : Vector) → Sweep.get_param_values s v buf ≡ ok vec → get_sweep_values d ≡ ok (some vec)
  unfolding get_sweep_values verify_open
  get_sweep_values-IsSweepSet vec e = rw (h.opened, file_get_param_values, e) refl
