-- ===== src/Tests/Values.antt =====
-- A file without a sweep, with a number and a struct, from its bytes to the results.
use libpsf.Prelude.{true, some, [], ◌∷◌}
use libpsf.Prelude.Int.{pos}
use libpsf.Prelude.Assoc.{int_eq, bytes_eq}
use libpsf.Buffer.{codes}
use libpsf.Scalar.{int32, double, struct, no_fields, field}
use libpsf.Property.{empty_block}
use libpsf.TypeDef.{DataTypeDef, datatypedef, null, structdef, nil, cons}
use libpsf.NonSweep
use libpsf.NonSweep.{NonSweepValue}
use libpsf.File.{OperatingSystem}
use libpsf.File.WrittenValues.{ValueFile, file_bytes}
use libpsf.DataSet.{DataSet, sweeps_key}
use libpsf.Samples.{int_prop}

abbrev real_type : DataTypeDef
real_type = datatypedef (pos 1) (codes "V") (pos 11) empty_block null 8

-- A struct of a double and an `int`
abbrev device_type : DataTypeDef
device_type =
    datatypedef (pos 3) (codes "bjt") (pos 16) empty_block
      (structdef
        (cons (datatypedef (pos 4) (codes "gm") (pos 11) empty_block null 8)
          (cons (datatypedef (pos 5) (codes "region") (pos 5) empty_block null 4) nil))
        12)
      12

abbrev volts : NonSweepValue
volts = record {
  id = pos 10;
  name = codes "out";
  valuetypeid = pos 1;
  value = double 77;
  properties = empty_block;
}

abbrev device : NonSweepValue
device = record {
  id = pos 11;
  name = codes "q1";
  valuetypeid = pos 3;
  value = struct (field (codes "gm") (double 5) (field (codes "region") (int32 (pos 2)) no_fields));
  properties = empty_block;
}

abbrev file : ValueFile
file = record {
  signature = 512;
  header = int_prop sweeps_key (pos 0) ∷ [];
  types = real_type ∷ (device_type ∷ []);
  type_index = [];
  values = volts ∷ (device ∷ []);
  value_index = [];
}

abbrev file_disk : OperatingSystem
file_disk = record { content = λ name. some (file_bytes file); close_succeeds = true }
