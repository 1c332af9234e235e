-- ===== src/Tests/Windows.antt =====
-- A sweep of three points in two windows with one trace.
use libpsf.Prelude.{◌≡◌, refl, true, List, [], ◌∷◌, ◌++◌, arith}
use libpsf.Prelude.Int.{pos, to_int32, ◌*ℤ◌}
use libpsf.Prelude.Assoc.{lookup, insert}
use libpsf.Outcome.{ok, mul_int, sub_int}
use libpsf.Buffer.{Bytes, codes, get_int32, get_uint32, get_double, read_bytes, from_be, seek}
use libpsf.Buffer.Words.{to_be}
use libpsf.Scalar.{double, to_int, double_deserialize}
use libpsf.Chunk.{chunk_deserialize}
use libpsf.Property.{append_prop, empty_block, find}
use libpsf.TypeDef.{deserialize_data}
use libpsf.Container.{make_indexed, get_child_by_id}
use libpsf.Trace.{get_datatype}
use libpsf.Sweep
use libpsf.Sweep.{
  Sections, ValueSectionSweep, int_property, sweep_points_key, window_size_key, traces_key,
  get_valueoffset,
}
use libpsf.Sweep.Windows.{Window}
use libpsf.Sweep.Windows.Loop.{WindowsAt}
use libpsf.Sweep.Windows.Traces.{RunAt, TraceRun}
use libpsf.Sweep.Windows.Values.{
  Pair, with_values, get_values-WindowsAt, get_param_values-WindowsAt,
}
use libpsf.Samples.{word, int_prop}
use libpsf.Tests.Points.{real_type, trace_b, time, traces, empty, new, found}
use libpsf.Tests.Points

abbrev sections : Sections
sections = record Points.sections {
  header =
      append_prop
        (append_prop (append_prop empty_block (int_prop (codes "PSF sweep points") (pos 3)))
          (int_prop (codes "PSF window size") (pos 24)))
        (int_prop (codes "PSF traces") (pos 1));
}

abbrev values : ValueSectionSweep
values = record {
  windowed = true;
  valuesize = pos 24;
  offsetmap = (pos 5, pos 0) ∷ [];
  valuebuf = 0;
  endbuf = pos 88;
}

abbrev buffer : Bytes
buffer =
    word 16
    ++ word 2
    ++ to_be 8 100
    ++ to_be 8 101
    ++ to_be 8 0
    ++ to_be 8 1
    ++ to_be 8 3
    ++ word 16
    ++ word 1
    ++ to_be 8 102
    ++ to_be 8 0
    ++ to_be 8 0
    ++ to_be 8 5

abbrev pairs : List Pair
pairs =
    record { params = double 100 ∷ (double 101 ∷ []); values = double 1 ∷ (double 3 ∷ []) }
    ∷ (record { params = double 102 ∷ []; values = double 5 ∷ [] } ∷ [])

abbrev wins : List Window
wins =
    record { params = double 100 ∷ (double 101 ∷ []); values = [] }
    ∷ (record { params = double 102 ∷ []; values = [] } ∷ [])

size : int_property sections.header window_size_key ≡ ok (pos 24)
unfolding int_property find append_prop to_int lookup insert
size = refl

ntraces : int_property sections.header traces_key ≡ ok (pos 1)
unfolding int_property find append_prop to_int lookup insert
ntraces = refl

count : int_property sections.header sweep_points_key ≡ ok (pos 3)
unfolding int_property find append_prop to_int lookup insert
count = refl

forward : pos 1 *ℤ pos 24 ≡ pos 24
unfolding ◌*ℤ◌
forward = refl

two_params : RunAt sections values buffer real_type (double 100 ∷ (double 101 ∷ [])) 8 24
unfolding deserialize_data to_be get_double read_bytes from_be double_deserialize
two_params = (8, (refl, (8, (refl, refl))))

one_param : RunAt sections values buffer real_type (double 102 ∷ []) 56 64
unfolding deserialize_data to_be get_double read_bytes from_be double_deserialize
one_param = (8, (refl, refl))

first_run : TraceRun sections values buffer (pos 24) trace_b (double 1 ∷ (double 3 ∷ [])) 2 24
unfolding deserialize_data to_be get_double read_bytes from_be double_deserialize get_valueoffset
    seek get_datatype get_child_by_id make_indexed lookup insert mul_int sub_int ◌*ℤ◌
first_run = (
  real_type,
  (
    pos 0,
    (
      pos 16,
      (pos 8, (32, (48, refl, refl, refl, refl, refl, (8, (refl, (8, (refl, refl)))), refl))),
    ),
  ),
)

second_run : TraceRun sections values buffer (pos 24) trace_b (double 5 ∷ []) 1 64
unfolding deserialize_data to_be get_double read_bytes from_be double_deserialize get_valueoffset
    seek get_datatype get_child_by_id make_indexed lookup insert mul_int sub_int ◌*ℤ◌
second_run = (
  real_type,
  (pos 0, (pos 8, (pos 16, (80, (88, refl, refl, refl, refl, refl, (8, (refl, refl)), refl))))),
)

with_trace :
    WindowsAt sections values buffer (pos 24) (pos 1) real_type (trace_b ∷ []) (with_values pairs) 0
unfolding chunk_deserialize get_int32 get_uint32 read_bytes from_be to_int32 seek to_be mul_int ◌*ℤ◌
with_trace = (
  2,
  (
    24,
    (
      pos 24,
      (
        48,
        refl,
        refl,
        refl,
        omega arith,
        two_params,
        (first_run, tt),
        refl,
        refl,
        (
          1,
          (
            64,
            (
              pos 24,
              (88, refl, refl, refl, omega arith, one_param, (second_run, tt), refl, refl, tt),
            ),
          ),
        ),
      ),
    ),
  ),
)

without_trace : WindowsAt sections values buffer (pos 24) (pos 1) real_type [] wins 0
unfolding chunk_deserialize get_int32 get_uint32 read_bytes from_be to_int32 seek to_be mul_int ◌*ℤ◌
without_trace = (
  2,
  (
    24,
    (
      pos 24,
      (
        48,
        refl,
        refl,
        refl,
        omega arith,
        two_params,
        tt,
        refl,
        refl,
        (1, (64, (pos 24, (88, refl, refl, refl, omega arith, one_param, tt, refl, refl, tt)))),
      ),
    ),
  ),
)

get_values-WindowsAt_example :
    Sweep.get_values sections values buffer (codes "b")
    ≡ ok (record empty { values = double 1 ∷ (double 3 ∷ (double 5 ∷ [])) })
get_values-WindowsAt_example =
    get_values-WindowsAt sections values buffer time real_type [] empty (pos 24) (pos 1) 24 refl
      refl Points.typed new size ntraces forward (codes "b") traces trace_b real_type empty pairs
      refl found Points.typed_b new count (omega arith) with_trace

get_param_values-WindowsAt_example :
    Sweep.get_param_values sections values buffer
    ≡ ok (record empty { values = double 100 ∷ (double 101 ∷ (double 102 ∷ [])) })
get_param_values-WindowsAt_example =
    get_param_values-WindowsAt sections values buffer time real_type [] empty (pos 24) (pos 1) 24
      refl refl Points.typed new size ntraces forward wins count (omega arith) without_trace
