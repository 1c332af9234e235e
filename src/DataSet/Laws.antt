-- ===== src/DataSet/Laws.antt =====
-- Opening and closing a data set, and what its queries answer.
use libpsf.Prelude.{◌≡◌, Bool, false, arith}
use libpsf.Outcome.{ok, err, data_set_not_open}
use libpsf.Buffer.{Bytes}
use libpsf.File.{OperatingSystem}
use libpsf.DataSet.{
  DataSet, close_set, get_signal_names, get_nsweeps, get_sweep_npoints, get_sweep_param_names,
  get_sweep_values, is_swept, get_signal_vector, get_signal_scalar, get_signal,
  get_signal_properties, get_header_properties, set_invertstruct, get_invertstruct,
}

-- Every query and the setter throw DataSetNotOpen on a data set that is not open.
pub record AllRefuse (d : DataSet) (name : Bytes) (value : Bool) : Type 0 where
  pub signal_names : get_signal_names d ≡ err data_set_not_open
  pub nsweeps : get_nsweeps d ≡ err data_set_not_open
  pub sweep_npoints : get_sweep_npoints d ≡ err data_set_not_open
  pub sweep_param_names : get_sweep_param_names d ≡ err data_set_not_open
  pub sweep_values : get_sweep_values d ≡ err data_set_not_open
  pub swept : is_swept d ≡ err data_set_not_open
  pub signal_vector : get_signal_vector d name ≡ err data_set_not_open
  pub signal_scalar : get_signal_scalar d name ≡ err data_set_not_open
  pub signal : get_signal d name ≡ err data_set_not_open
  pub signal_properties : get_signal_properties d name ≡ err data_set_not_open
  pub header_properties : get_header_properties d ≡ err data_set_not_open
  pub setter : set_invertstruct d value ≡ err data_set_not_open
  pub getter : get_invertstruct d ≡ err data_set_not_open

closed-AllRefuse :
    (d : DataSet) (name : Bytes) (value : Bool) → d.is_open ≡ false → AllRefuse d name value
unfolding get_signal_names get_nsweeps get_sweep_npoints get_sweep_param_names get_sweep_values
    is_swept get_signal_vector get_signal_scalar get_signal get_signal_properties
    get_header_properties set_invertstruct get_invertstruct
closed-AllRefuse d name value h = record {
  signal_names = rw h;
  nsweeps = rw h;
  sweep_npoints = rw h;
  sweep_param_names = rw h;
  sweep_values = rw h;
  swept = rw h;
  signal_vector = rw h;
  signal_scalar = rw h;
  signal = rw h;
  signal_properties = rw h;
  header_properties = rw h;
  setter = rw h;
  getter = rw h;
}

-- After a `close` that succeeds no query reads the file, whatever the state before: each throws
-- DataSetNotOpen, and so does the setter.
pub close_set-AllRefuse :
    (os : OperatingSystem) (d : DataSet) (name : Bytes) (value : Bool) {c : DataSet}
    → close_set os d ≡ ok c
    → AllRefuse c name value
close_set-AllRefuse os d name value h = closed-AllRefuse _ name value (is_closed os d h)
  where
    is_closed :
        (os : OperatingSystem) (d : DataSet) {c : DataSet}
        → close_set os d ≡ ok c
        → c.is_open ≡ false
    is_closed os d h = unfold close_set in ground arith
