-- ===== src/DataSet/WrittenValues.antt =====
-- A file without a sweep, from its bytes to what PSFDataSet of src/psf.cc returns.
use libpsf.Prelude.{◌≡◌, none, true, false, map}
use libpsf.Prelude.Assoc.{bytes_eq}
use libpsf.Outcome.{Result, ok, or_throw, not_found, ◌>>=◌}
use libpsf.Buffer.{Bytes}
use libpsf.Container.Index.{last_with}
use libpsf.NonSweep
use libpsf.NonSweep.{NonSweepValue}
use libpsf.File
use libpsf.File.{new_file}
use libpsf.File.WrittenValues.{ValueFile}
use libpsf.File.OpenedValues.{value_file}
use libpsf.DataSet.{DataSet, scalar, get_signal, get_signal_properties, get_signal_names}

-- What the value section has under a name: the last value of the name
abbrev pub value_named : ValueFile → Bytes → Result NonSweepValue
value_named f name = or_throw (last_with (λ v. v.name) name none f.values) not_found

-- What the client sees of a file without a sweep
pub record Shows (f : ValueFile) (o : DataSet) : Type 0 where
  pub signal : (name : Bytes) → get_signal o name ≡ (do v ← value_named f name; ok (scalar v.value))
  pub properties :
      (name : Bytes)
      → get_signal_properties o name ≡ (do v ← value_named f name; ok v.properties.propmap)
  pub names : get_signal_names o ≡ ok (map (λ v. v.name) f.values)

module _ (f : ValueFile) (filename : Bytes) where
  abbrev pub opened_values : DataSet
  opened_values = record {
    psf = value_file filename f;
    filename = filename;
    invertstruct = false;
    is_open = true;
  }
