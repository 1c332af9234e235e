-- ===== src/DataSet.antt =====
-- PSFDataSet of src/psf.cc: the interface of the library.
pub mod Total
pub mod Laws
pub mod Reach
pub mod Signals
pub mod Written
pub mod Machine
pub mod WrittenValues
use libpsf.Prelude.{ℕ, Bool, true, false, Option, none, some, List, [], ◌∷◌, ◌&&◌, if◌then◌else◌}
use libpsf.Prelude.Int.{ℤ, pos, leb_ℤ}
use libpsf.Outcome.{Result, ok, err, data_set_not_open, ◌>>=◌}
use libpsf.Buffer.{Bytes, codes}
use libpsf.Scalar.{Scalar, struct, to_int}
use libpsf.Property.{PropertyBlock, find}
use libpsf.Vector.{Vector, VectorStruct, vector_struct}
use libpsf.Sweep.{int_property, sweep_points_key}
use libpsf.File
use libpsf.File.{PsfFile, OperatingSystem, new_file, open_file, close_file, unmapped}

pub record DataSet : Type 0 where
  pub psf : PsfFile
  pub filename : Bytes
  pub invertstruct : Bool
  pub is_open : Bool

-- What `get_signal` returns: an object of one of the classes below PSFBase, or a null pointer.
pub data Signal : Type 0 where
  null_signal : Signal
  scalar : Scalar → Signal
  vector : Vector → Signal
  vectors : VectorStruct → Signal

abbrev pub sweeps_key : Bytes
sweeps_key = codes "PSF sweeps"

module _ (os : OperatingSystem) where
  unfoldable pub open_set : DataSet → Result DataSet
  open_set d =
      if d.is_open
      then ok d
      else (do f ← open_file os d.psf; ok (record d { psf = f; is_open = true }))

  unfoldable pub close_set : DataSet → Result DataSet
  close_set d =
      if d.is_open
      then (do f ← close_file os d.psf; ok (record d { psf = f; is_open = false }))
      else ok d

  -- the constructor
  unfoldable pub new_data_set : Bytes → Result DataSet
  unfolding open_set
  new_data_set filename = open_set (record {
    psf = new_file filename;
    filename = filename;
    invertstruct = false;
    is_open = false;
  })

-- What a `close` that throws leaves: the file is no longer mapped, and stays open as the data set does.
unfoldable pub left_by_close : DataSet → DataSet
unfolding unmapped
left_by_close d = record d { psf = unmapped d.psf }

unfoldable pub verify_open : DataSet → Result (Unit {0})
verify_open d = if d.is_open then ok tt else err data_set_not_open

unfoldable pub get_signal_names : DataSet → Result (List Bytes)
unfolding verify_open
get_signal_names d = do u ← verify_open d; File.get_file_names d.psf

unfoldable pub header_int : DataSet → Bytes → Result ℤ
header_int d key = do props ← File.get_header_properties d.psf; int_property props key

unfoldable pub get_nsweeps : DataSet → Result ℤ
unfolding verify_open header_int
get_nsweeps d = do u ← verify_open d; header_int d sweeps_key

unfoldable pub get_sweep_npoints : DataSet → Result ℤ
unfolding verify_open header_int
get_sweep_npoints d = do u ← verify_open d; header_int d sweep_points_key

unfoldable pub get_sweep_param_names : DataSet → Result (List Bytes)
unfolding verify_open
get_sweep_param_names d = do u ← verify_open d; ok (File.get_param_names d.psf)

unfoldable pub get_sweep_values : DataSet → Result (Option Vector)
unfolding verify_open
get_sweep_values d = do u ← verify_open d; File.get_param_values d.psf

unfoldable pub is_swept : DataSet → Result Bool
unfolding verify_open header_int
is_swept d = do u ← verify_open d; nsweeps ← header_int d sweeps_key; ok (leb_ℤ (pos 1) nsweeps)

unfoldable pub get_signal_vector : DataSet → Bytes → Result (Option Vector)
unfolding verify_open
get_signal_vector d name = do u ← verify_open d; File.get_values d.psf name

unfoldable pub get_signal_scalar : DataSet → Bytes → Result Scalar
unfolding verify_open
get_signal_scalar d name = do u ← verify_open d; File.get_value d.psf name

-- A StructVector is turned into a VectorStruct on demand; any other vector is returned as it is. The
-- code then deletes the StructVector, with the items that nested structs of the VectorStruct share
-- with it; values have no owner here, so that these items dangle is not modelled.
unfoldable pub invert : Bool → Option Vector → Result Signal
invert inverted none = ok null_signal
invert inverted (some vec) = elim vec.init [
  | struct fs ↦ if inverted then (do vs ← vector_struct vec; ok (vectors vs)) else ok (vector vec)
  | _ ↦ ok (vector vec)
]

unfoldable pub get_signal : DataSet → Bytes → Result Signal
unfolding verify_open is_swept invert
get_signal d name = do
  u ← verify_open d
  swept ← is_swept d
  if swept
      then (do vec ← get_signal_vector d name; invert d.invertstruct vec)
      else (do x ← File.get_value d.psf name; ok (scalar x))

unfoldable pub get_signal_properties : DataSet → Bytes → Result (List (Bytes × Scalar))
unfolding verify_open
get_signal_properties d name = do
  u ← verify_open d
  props ← File.get_value_properties d.psf name
  ok props.propmap

unfoldable pub get_header_properties : DataSet → Result (List (Bytes × Scalar))
unfolding verify_open
get_header_properties d = do
  u ← verify_open d
  props ← File.get_header_properties d.psf
  ok props.propmap

unfoldable pub set_invertstruct : DataSet → Bool → Result DataSet
unfolding verify_open
set_invertstruct d value = do u ← verify_open d; ok (record d { invertstruct = value })

unfoldable pub get_invertstruct : DataSet → Result Bool
unfolding verify_open
get_invertstruct d = do u ← verify_open d; ok d.invertstruct
