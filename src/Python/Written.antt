-- ===== src/Python/Written.antt =====
-- A file with a sweep, from its bytes to the NumPy arrays of bindings/python/psfpython.cc.
use libpsf.Prelude.{ℕ, ◌≡◌, ap, ◌∙◌, some, List, [], ◌∷◌, map}
use libpsf.Outcome.{ok}
use libpsf.Buffer.{Bytes}
use libpsf.Scalar.{double}
use libpsf.TypeDef.{DataTypeDef, null}
use libpsf.Trace.{DataTypeRef}
use libpsf.Vector.{Vector, new_vector}
use libpsf.Sweep.Offsets.{Part}
use libpsf.Sweep.Written.{WrittenPoint}
use libpsf.File.{OperatingSystem}
use libpsf.File.Written.{SweepFile, file_bytes}
use libpsf.File.Opened.{written_sections}
use libpsf.DataSet.{DataSet, new_data_set}
use libpsf.DataSet.Written.{
  IsSweep, read_section, opened_set, new_data_set-written, opened-IsSweepSet, values_read,
  params_read,
}
use libpsf.Python.{Interpreter, py_get_signal, py_get_sweep_values}
use libpsf.Python.Methods.{py_get_signal-doubles, py_get_sweep_values-doubles}

abbrev pub doubles_vector : Vector
doubles_vector = record { init = double 0; definition = null; values = [] }

module _ (I : Interpreter) (f : SweepFile) (parts : List Part) (param : DataTypeRef)
    (rest : List DataTypeRef) (def : DataTypeDef) (name : Bytes) (r : DataTypeRef) (d : DataTypeDef)
    (offset : ℕ) (pts : List WrittenPoint)
    (h : IsSweep f parts param rest def name r d offset pts) where
  -- From the bytes of a file to the arrays in Python: the constructor opens a file with a sweep of
  -- doubles and of at least one point, `get_signal` gives the array of the trace's values, and
  -- `get_sweep_values` that of the parameter's, point by point. The file fits the format and is
  -- shorter than 2^31 bytes, and its values are not in windows.
  pub py_get_signal-written :
      (os : OperatingSystem) (filename : Bytes) (t b : ℕ) (ts bs : List ℕ)
      → os.content filename ≡ some (file_bytes f)
      → new_vector def ≡ ok doubles_vector
      → new_vector d ≡ ok doubles_vector
      → map (λ pt. pt.param) pts ≡ map double (t ∷ ts)
      → map (λ pt. pt.value) pts ≡ map double (b ∷ bs)
      → (o : DataSet) × (new_data_set os filename ≡ ok o)
        × (py_get_signal I o name ≡ ok (some (I.double_array (b ∷ bs))))
        × (py_get_sweep_values I o ≡ ok (some (I.double_array (t ∷ ts))))
  py_get_signal-written os filename t b ts bs content new new' params values =
      let o = opened_set f parts param rest def name r d offset pts h filename in
      let is = opened-IsSweepSet f parts param rest def name r d offset pts h filename in
      let s = written_sections f in
      let v = read_section f parts param rest def name r d offset pts h in
      (
        o,
        new_data_set-written f parts param rest def name r d offset pts h os filename content,
        py_get_signal-doubles I o s v (file_bytes f) is name h.swept.0 0 b bs null h.swept.1 (
            values_read f parts param rest def name r d offset pts h doubles_vector doubles_vector
              new new'
            ∙ ap (λ ys. ok (record doubles_vector { values = ys })) values),
        py_get_sweep_values-doubles I o s v (file_bytes f) is 0 t ts null (
            params_read f parts param rest def name r d offset pts h doubles_vector new
            ∙ ap (λ ys. ok (record doubles_vector { values = ys })) params),
      )
