-- ===== src/Tests/Files.antt =====
-- Files and data sets: the section table of a file, and what a data set makes of a file that has no
-- section but its header.
use libpsf.Prelude.{
  ℕ, ◌≡◌, refl, true, false, some, none, List, [], ◌∷◌, ◌++◌, length, arith, Bool-cases, inl, inr,
}
use mathlib.Core.Path.{subst}
use libpsf.Prelude.Int.{eqb_ℤ, pos, to_int32}
use libpsf.Prelude.Assoc.{lookup, insert, int_eq, bytes_eq}
use libpsf.Outcome.{ok, Yields, ◌>>=◌}
use libpsf.Buffer.{Bytes, codes, seek, read_bytes, get_uint32, get_int32, from_be}
use libpsf.Buffer.Words.{to_be}
use libpsf.Property.{empty_block}
use libpsf.Chunk.{chunk_deserialize}
use libpsf.Container.{simple_deserialize, children_loop, make_indexed}
use libpsf.Trace.{header_deserialize, TraceSection, DataTypeRef, get_trace_by_name}
use libpsf.TypeDef.{DataTypeDef, psfdata_size}
use libpsf.TypeDef.Fuel.{IsSized}
use libpsf.Sweep.{get_filtered, get_values}
use libpsf.Sweep.Total.{get_filtered-Yields, get_values-HasType}
use libpsf.Sweep.Typed.{HasType}
use libpsf.Trace.Total.{Any, TypesSized}
use libpsf.File.{
  OperatingSystem, new_file, mapped, file_size, validate, deserialize, optional_section, read_table,
  open_file, close_file, unmapped,
}
use libpsf.File.Total.{IsRead, open_file-Yields}
use libpsf.File.Toc.{read_table-encode_entries, encode_entries, AreEntries, rows}
use libpsf.DataSet.{DataSet, new_data_set, close_set, get_signal, get_sweep_values}
use libpsf.DataSet.Total.{
  get_signal-IsTypedSignal, get_sweep_values-IsMade, IsMade, IsTypedSignal, IsLoaded, StepsForward,
}
use libpsf.DataSet.Laws.{AllRefuse, close_set-AllRefuse}
use libpsf.DataSet.Reach.{Reachable, made, step, closes, IsConsistent, Reachable-IsConsistent}
use libpsf.DataSet.Machine.{
  Operation, open_it, close_it, set_flag, operate_all, perform_all, set_in,
  new_data_set-perform_all,
}
use libpsf.Samples.{word, disk}
use libpsf.Tests.Points

abbrev body : Bytes
body = codes "0123456789ab"

abbrev entries : List (ℕ × ℕ)
entries = (1, 8) ∷ []

are_entries : AreEntries [] ((0, 4) ∷ entries)
unfolding lookup
are_entries = ((omega arith, omega arith, refl), (omega arith, omega arith, refl))

abbrev table_file : Bytes
table_file = body ++ (encode_entries ((0, 4) ∷ entries) ++ (codes "Clarissa" ++ to_be 4 12))

read_table-encode_entries_example :
    read_table table_file (pos (length table_file)) ≡ ok (rows 0 4 entries (length table_file))
read_table-encode_entries_example =
    read_table-encode_entries body 0 4 entries are_entries (omega arith)

open_file-Yields_example : Yields IsRead (open_file disk (new_file (codes "tran")))
unfolding new_file
open_file-Yields_example = open_file-Yields disk (new_file (codes "tran")) tt

-- A header section without properties, behind the first word
abbrev small_file : Bytes
small_file =
    word 0 ++ (word 21 ++ (word 12 ++ (word 0 ++ (word 4 ++ (codes "Clarissa" ++ word 12)))))

abbrev small_disk : OperatingSystem
small_disk = record { content = λ name. some small_file; close_succeeds = true }

abbrev small_set : DataSet
small_set = record {
  psf = record {
    filename = codes "op";
    is_open = true;
    buffer = some small_file;
    header = some empty_block;
    types = none;
    sweeps = none;
    traces = none;
    sweepvalues = none;
    nonsweepvalues = none;
  };
  filename = codes "op";
  invertstruct = false;
  is_open = true;
}

abbrev closed_set : DataSet
closed_set = record small_set {
  psf = record small_set.psf { buffer = none; is_open = false };
  is_open = false;
}

opened : new_data_set small_disk (codes "op") ≡ ok small_set
unfolding new_data_set open_file mapped file_size new_file validate seek to_be read_bytes
    deserialize read_table get_uint32 from_be header_deserialize simple_deserialize
    chunk_deserialize get_int32 lookup insert to_int32 children_loop optional_section
opened = refl

closed : close_set small_disk small_set ≡ ok closed_set
unfolding close_set close_file unmapped
closed = refl

close_set-AllRefuse_example : AllRefuse closed_set (codes "b") true
close_set-AllRefuse_example = close_set-AllRefuse small_disk small_set (codes "b") true closed

reached : Reachable small_disk closed_set
reached = step (made (codes "op") opened) (closes closed)

Reachable-IsConsistent_example : IsConsistent small_disk closed_set
Reachable-IsConsistent_example = Reachable-IsConsistent small_disk closed_set reached

-- An open data set with the sweep of the sample points
abbrev swept_set : DataSet
swept_set = record small_set {
  psf = record small_set.psf {
    buffer = some Points.buffer;
    header = some Points.sections.header;
    types = Points.sections.types;
    sweeps = Points.sections.sweeps;
    traces = Points.sections.traces;
    sweepvalues = some Points.values;
  };
}

some-inj : {a b : DataTypeDef} → some a ≡ some b → a ≡ b
some-inj e = cc

sized : TypesSized Points.sections.types
unfolding make_indexed lookup insert psfdata_size
sized id d e = elim (Bool-cases (eqb_ℤ (pos 1) id)) [
  | inl same ↦
      (let f : some Points.real_type ≡ some d = rw same at e in subst IsSized (some-inj f) refl)
  | inr other ↦ (let f : none ≡ some d = rw other at e in absurd (cc))
]

plain : StepsForward (swept_set.psf)
plain = λ s v e found windowed. absurd (cc)

loaded : IsLoaded swept_set
loaded = (refl, record { sized = sized; header = cc; opened = refl; mapped = cc })

get_signal-IsTypedSignal_example : Yields IsTypedSignal (get_signal swept_set (codes "b"))
get_signal-IsTypedSignal_example = get_signal-IsTypedSignal swept_set (codes "b") loaded plain

get_sweep_values-IsMade_example : Yields IsMade (get_sweep_values swept_set)
get_sweep_values-IsMade_example = get_sweep_values-IsMade swept_set loaded plain

get_values-HasType_example :
    Yields
      (λ vec.
        (ts : TraceSection) × (r : DataTypeRef) × (Points.sections.traces ≡ some ts)
        × (get_trace_by_name ts (codes "b") ≡ ok r)
        × HasType Points.sections r vec)
      (get_values Points.sections Points.values Points.buffer (codes "b"))
get_values-HasType_example =
    get_values-HasType Points.sections Points.values Points.buffer sized (codes "b")
      (λ w. absurd (cc))

get_filtered-Yields_example :
    Yields Any (get_filtered Points.sections Points.values Points.buffer (Points.trace_b ∷ []))
get_filtered-Yields_example =
    get_filtered-Yields Points.sections Points.values Points.buffer sized (Points.trace_b ∷ [])
      (λ w. absurd (cc))

-- Closed, opened again, and the flag set
abbrev operations : List Operation
operations = close_it ∷ (open_it ∷ (set_flag true ∷ []))

new_data_set-perform_all_example : operate_all small_disk small_set operations ≡ (do
  m ← perform_all true (record { opened = true; inverted = false }) operations
  ok (set_in small_set m))
new_data_set-perform_all_example =
    new_data_set-perform_all small_disk (codes "op") operations small_set opened
