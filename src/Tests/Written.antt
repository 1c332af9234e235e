-- ===== src/Tests/Written.antt =====
-- A file with a sweep of two points and two traces, from its bytes to the results.
use libpsf.Prelude.{
  ℕ, ◌^◌, ◌<◌, ◌≡◌, refl, sym, All, true, some, List, [], ◌∷◌, ◌++◌, length, arith,
}
use libpsf.Prelude.Int.{pos, InInt}
use libpsf.Prelude.Assoc.{int_eq, bytes_eq, lookup, insert}
use libpsf.Outcome.{ok}
use libpsf.Buffer.{Bytes, codes}
use libpsf.Buffer.Words.{to_be}
use libpsf.Scalar.{double, string, to_int}
use libpsf.Property.{Property, empty_block, append_prop, find, hasprop}
use libpsf.TypeDef.{DataTypeDef, datatypedef, null, psfdata_size}
use mathlib.Core.Path.{subst}
use libpsf.Scalar.{padding}
use libpsf.Scalar.Strings.{encode_string}
use libpsf.Buffer.Words.{encode_int}
use libpsf.Property.RoundTrip.{IsProperty, encode_property, encode_value}
use libpsf.TypeDef.Encode.{IsEncodable, IsBlock, encode_def}
use libpsf.Trace.RoundTrip.{IsRef, encode_ref}
use libpsf.Trace.Codings.{encode_trace}
use libpsf.Container.{make_indexed, get_child_by_id, get_child_by_name}
use libpsf.Trace.{DataTypeRef, ref, get_datatype, get_trace_by_name}
use libpsf.Vector.{Vector, new_vector}
use libpsf.Sweep.{int_property, is_sweep_key}
use libpsf.Sweep.Offsets.{Part, value}
use libpsf.TypeDef.Numbers.{encode_data}
use libpsf.Sweep.Written.{WrittenPoint, encode_points}
use libpsf.File.{OperatingSystem}
use libpsf.File.Written.{SweepFile, file_bytes, end_offset}
use libpsf.File.Opened.{IsWritten}
use libpsf.DataSet.{DataSet, vector, new_data_set, get_signal, get_sweep_values}
use libpsf.DataSet.Written.{IsSweep, get_signal-written}
use libpsf.Python.{py_get_signal, py_get_sweep_values}
use libpsf.Python.Written.{py_get_signal-written}
use libpsf.Tests.Interpreter.{interpreter, py_doubles}
use libpsf.Prelude.{◌+◌}
use libpsf.Prelude.Int.{to_int32}
use libpsf.Buffer.{get_int32, get_uint32, read_bytes, from_be}
use libpsf.Buffer.At.{At, At-whole}
use libpsf.Property.{ischunk}
use libpsf.Property.RoundTrip.{Ends}
use libpsf.Trace.{GroupDef, index_by_id, group_deserialize}
use libpsf.Trace.RoundTrip.{IsGroup, name_places, encode_group, group_deserialize-encode_group}
use libpsf.Sweep.{ValueSectionSweep}
use libpsf.File.{open_file, new_file}
use libpsf.File.Opened.{written_file, open_file-file_bytes}
use libpsf.DataSet.Written.{read_section, section_read}
use libpsf.Samples.{int_prop, text_prop, word}

abbrev header : List Property
header = int_prop (codes "PSF sweeps") (pos 1) ∷ (int_prop (codes "PSF sweep points") (pos 2) ∷ [])

abbrev real_type : DataTypeDef
real_type =
    datatypedef (pos 1) (codes "V") (pos 11)
      (append_prop empty_block (text_prop (codes "key") (codes "node"))) null 8

abbrev time : DataTypeRef
time = record { id = pos 9; name = codes "time"; datatypeid = pos 1; properties = empty_block }

abbrev trace_a : DataTypeRef
trace_a = record { id = pos 5; name = codes "a"; datatypeid = pos 1; properties = empty_block }

abbrev trace_b : DataTypeRef
trace_b = record { id = pos 6; name = codes "b"; datatypeid = pos 1; properties = empty_block }

abbrev pub point : ℕ → ℕ → ℕ → WrittenPoint
point t a b = record {
  param = double t;
  before = word 16 ++ (word 5 ++ (to_be 8 a ++ (word 16 ++ word 6)));
  value = double b;
  after = [];
}

abbrev pub pts : List WrittenPoint
pts = point 100 1 2 ∷ (point 101 3 4 ∷ [])

abbrev pub file : SweepFile
file = record {
  signature = 512;
  header = header;
  types = real_type ∷ [];
  type_index = [];
  sweeps = time ∷ [];
  traces = ref trace_a ∷ (ref trace_b ∷ []);
  trace_index = [];
  points = encode_points time pts;
}

abbrev pub parts : List Part
parts = value (pos 5) 8 ∷ (value (pos 6) 8 ∷ [])

fits_header : All IsProperty header
fits_header = ((omega arith, omega arith), ((omega arith, omega arith), tt))

fits_types : All IsEncodable (real_type ∷ [])
unfolding append_prop insert psfdata_size
fits_types =
    ((omega arith, omega arith, omega arith, (((omega arith, omega arith), tt), refl), refl), tt)

fits-IsRef :
    (r : DataTypeRef)
    → InInt r.id
    → length r.name < 2 ^ 31
    → InInt r.datatypeid
    → r.properties ≡ empty_block
    → IsRef r
fits-IsRef r i n t e = (i, n, t, subst IsBlock (sym e) (tt, refl))

short : end_offset file + 52 < 2 ^ 31
unfolding encode_property encode_value encode_string encode_int to_be padding encode_def encode_ref
    encode_trace encode_data append_prop
short = omega arith

written : IsWritten file
written = record {
  header = fits_header;
  types = fits_types;
  sweeps = (fits-IsRef time (omega arith) (omega arith) (omega arith) refl, tt);
  traces = (
    fits-IsRef trace_a (omega arith) (omega arith) (omega arith) refl,
    (fits-IsRef trace_b (omega arith) (omega arith) (omega arith) refl, tt),
  );
  type_entries = (0, refl, refl);
  trace_entries = (0, refl, refl);
  short = short;
}

abbrev empty : Vector
empty = record { init = double 0; definition = null; values = [] }

new : new_vector real_type ≡ ok empty
unfolding new_vector
new = refl

sweep : IsSweep file parts time [] real_type (codes "b") trace_b real_type 24 pts
unfolding append_prop insert lookup find hasprop int_property to_int get_datatype get_child_by_id
    get_child_by_name get_trace_by_name make_indexed is_sweep_key encode_data to_be
sweep = record {
  written = written;
  plain = refl;
  swept = (0, refl);
  count = refl;
  placed = (
    (refl, (real_type, refl, (string (codes "node"), refl, refl), refl)),
    ((refl, (real_type, refl, (string (codes "node"), refl, refl), refl)), tt),
  );
  narrow = omega arith;
  first = refl;
  ident = (omega arith, omega arith);
  typed = refl;
  found = refl;
  trace_typed = refl;
  there = refl;
  points = refl;
  fit = (
    record {
      parameter = (refl, omega arith);
      number = (refl, omega arith);
      place = refl;
      size = refl;
    },
    (
      record {
        parameter = (refl, omega arith);
        number = (refl, omega arith);
        place = refl;
        size = refl;
      },
      tt,
    ),
  );
}

abbrev file_disk : OperatingSystem
file_disk = record { content = λ name. some (file_bytes file); close_succeeds = true }

get_signal-written_example :
    (o : DataSet) × (new_data_set file_disk (codes "tran") ≡ ok o)
    × (get_signal o (codes "b")
        ≡ ok (vector (record empty { values = double 2 ∷ (double 4 ∷ []) })))
    × (get_sweep_values o ≡ ok (some (record empty { values = double 100 ∷ (double 101 ∷ []) })))
get_signal-written_example =
    get_signal-written file parts time [] real_type (codes "b") trace_b real_type 24 pts sweep
      file_disk (codes "tran") empty empty refl new new refl

py_get_signal-written_example :
    (o : DataSet) × (new_data_set file_disk (codes "tran") ≡ ok o)
    × (py_get_signal interpreter o (codes "b") ≡ ok (some (py_doubles (2 ∷ (4 ∷ [])))))
    × (py_get_sweep_values interpreter o ≡ ok (some (py_doubles (100 ∷ (101 ∷ [])))))
py_get_signal-written_example =
    py_get_signal-written interpreter file parts time [] real_type (codes "b") trace_b real_type 24
      pts sweep file_disk (codes "tran") 100 2 (101 ∷ []) (4 ∷ []) refl new new refl refl

abbrev values : ValueSectionSweep
values = read_section file parts time [] real_type (codes "b") trace_b real_type 24 pts sweep

open_file-file_bytes_example :
    open_file file_disk (new_file (codes "tran")) ≡ ok (written_file (codes "tran") file values)
open_file-file_bytes_example =
    open_file-file_bytes file written file_disk (codes "tran") values refl
      (section_read file parts time [] real_type (codes "b") trace_b real_type 24 pts sweep)

-- A group of the two traces, behind which stands an end marker
abbrev both : GroupDef
both = record {
  id = pos 7;
  name = codes "nodes";
  nchildren = pos 2;
  children = trace_a ∷ (trace_b ∷ []);
  indexmap = (pos 5, 0) ∷ ((pos 6, 1) ∷ []);
  namemap = (codes "a", 0) ∷ ((codes "b", 1) ∷ []);
}

both-IsGroup : IsGroup both
unfolding index_by_id name_places insert
both-IsGroup = record {
  ident = (omega arith, omega arith);
  title = omega arith;
  count = refl;
  few = omega arith;
  members = (
    fits-IsRef trace_a (omega arith, omega arith) (omega arith) (omega arith, omega arith) refl,
    (
      fits-IsRef trace_b (omega arith, omega arith) (omega arith) (omega arith, omega arith) refl,
      tt,
    ),
  );
  indexed = refl;
  named = refl;
}

abbrev group_buffer : Bytes
group_buffer = encode_group both ++ word 3

group_at : At group_buffer 0 (encode_group both)
group_at = At-whole [] (encode_group both) (word 3)

group-Ends : Ends group_buffer (0 + length (encode_group both)) (pos 3)
unfolding encode_group encode_ref encode_int encode_string padding to_be get_int32 get_uint32
    read_bytes from_be to_int32 ischunk
group-Ends = (refl, refl)

group_deserialize-encode_group_example :
    group_deserialize group_buffer 0 ≡ ok (both, length (encode_group both))
group_deserialize-encode_group_example =
    group_deserialize-encode_group both group_buffer 0 (pos 3) both-IsGroup group_at group-Ends
