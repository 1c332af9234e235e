-- ===== src/Tests/Points.antt =====
-- A sweep of two points with one trace.
use libpsf.Prelude.{ℕ, ◌≡◌, refl, false, some, List, [], ◌∷◌, ◌++◌, map}
use libpsf.Prelude.Int.{pos, to_int32}
use libpsf.Prelude.Assoc.{lookup, insert, int_eq, bytes_eq}
use libpsf.Outcome.{ok}
use libpsf.Buffer.{Bytes, codes, get_int32, get_uint32, get_double, read_bytes, from_be, seek}
use libpsf.Buffer.Words.{to_be}
use libpsf.Scalar.{Scalar, double, to_int, double_deserialize}
use libpsf.Chunk.{chunk_deserialize}
use libpsf.Property.{empty_block, append_prop, find}
use libpsf.TypeDef
use libpsf.TypeDef.{DataTypeDef, datatypedef, null, deserialize_data}
use libpsf.Container.{make_indexed, get_child_by_id, get_child_by_name}
use libpsf.Trace.{
  DataTypeRef, ref, trace_id, trace_name, TraceSection, get_datatype, get_trace_by_name,
}
use libpsf.Vector.{Vector, new_vector}
use libpsf.Sweep
use libpsf.Sweep.{Sections, ValueSectionSweep, int_property, sweep_points_key, get_valueoffset}
use libpsf.Sweep.Points.{Point, PointsAt, TraceAt}
use libpsf.Sweep.Points.Values.{get_values-PointsAt, get_param_values-PointsAt, with_value}
use libpsf.Samples.{word, int_prop}

abbrev pub real_type : DataTypeDef
real_type = datatypedef (pos 1) (codes "V") (pos 11) empty_block null 8

abbrev pub trace_b : DataTypeRef
trace_b = record { id = pos 5; name = codes "b"; datatypeid = pos 1; properties = empty_block }

abbrev pub time : DataTypeRef
time = record { id = pos 9; name = codes "time"; datatypeid = pos 1; properties = empty_block }

abbrev pub traces : TraceSection
traces = make_indexed trace_id trace_name (ref trace_b ∷ [])

abbrev pub sections : Sections
sections = record {
  header = append_prop empty_block (int_prop (codes "PSF sweep points") (pos 2));
  types = some (make_indexed TypeDef.get_id TypeDef.get_name (real_type ∷ []));
  sweeps = some (time ∷ []);
  traces = some traces;
}

abbrev pub values : ValueSectionSweep
values = record {
  windowed = false;
  valuesize = pos 16;
  offsetmap = (pos 5, pos 8) ∷ [];
  valuebuf = 0;
  endbuf = pos 64;
}

abbrev point : ℕ → ℕ → Bytes
point t b = word 16 ++ word 9 ++ to_be 8 t ++ word 16 ++ word 5 ++ to_be 8 b

abbrev pub buffer : Bytes
buffer = point 100 1 ++ point 101 3

abbrev pts : List (Scalar × Scalar)
pts = (double 100, double 1) ∷ ((double 101, double 3) ∷ [])

abbrev params : List Point
params =
    record { param = double 100; values = [] } ∷ (record { param = double 101; values = [] } ∷ [])

abbrev pub empty : Vector
empty = record { init = double 0; definition = null; values = [] }

pub typed : get_datatype sections.types time ≡ ok real_type
unfolding get_datatype get_child_by_id make_indexed lookup insert
typed = refl

pub typed_b : get_datatype sections.types trace_b ≡ ok real_type
unfolding get_datatype get_child_by_id make_indexed lookup insert
typed_b = refl

pub new : new_vector real_type ≡ ok empty
unfolding new_vector
new = refl

pub found : get_trace_by_name traces (codes "b") ≡ ok trace_b
unfolding get_trace_by_name get_child_by_name make_indexed lookup insert
found = refl

count : int_property sections.header sweep_points_key ≡ ok (pos 2)
unfolding int_property find append_prop to_int lookup insert
count = refl

first_b : TraceAt sections values buffer trace_b (double 1) 16
unfolding get_valueoffset seek deserialize_data get_datatype get_child_by_id make_indexed lookup
    insert to_be get_double read_bytes from_be double_deserialize
first_b = (real_type, (pos 8, (24, 8, refl, refl, refl, refl)))

second_b : TraceAt sections values buffer trace_b (double 3) 48
unfolding get_valueoffset seek deserialize_data get_datatype get_child_by_id make_indexed lookup
    insert to_be get_double read_bytes from_be double_deserialize
second_b = (real_type, (pos 8, (56, 8, refl, refl, refl, refl)))

with_trace : PointsAt sections values buffer time real_type (trace_b ∷ []) (map with_value pts) 0
unfolding chunk_deserialize get_int32 get_uint32 get_double read_bytes from_be to_int32 seek
    deserialize_data double_deserialize to_be
with_trace = (
  8,
  (
    32,
    refl,
    refl,
    refl,
    (first_b, tt),
    refl,
    (8, (64, refl, refl, refl, (second_b, tt), refl, tt)),
  ),
)

without_trace : PointsAt sections values buffer time real_type [] params 0
unfolding chunk_deserialize get_int32 get_uint32 get_double read_bytes from_be to_int32 seek
    deserialize_data double_deserialize to_be
without_trace = (8, (32, refl, refl, refl, tt, refl, (8, (64, refl, refl, refl, tt, refl, tt))))

get_values-PointsAt_example :
    Sweep.get_values sections values buffer (codes "b")
    ≡ ok (record empty { values = double 1 ∷ (double 3 ∷ []) })
get_values-PointsAt_example =
    get_values-PointsAt sections values buffer time real_type [] empty refl refl typed new
      (codes "b") traces trace_b real_type empty pts refl found typed_b new count with_trace

get_param_values-PointsAt_example :
    Sweep.get_param_values sections values buffer
    ≡ ok (record empty { values = double 100 ∷ (double 101 ∷ []) })
get_param_values-PointsAt_example =
    get_param_values-PointsAt sections values buffer time real_type [] empty refl refl typed new
      params count without_trace
