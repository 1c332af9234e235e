-- ===== src/Sweep/Windows.antt =====
-- The values of a sweep that is stored in windows, as SweepValueWindowed::deserialize of
-- src/psfsweepvalue.cc reads them.
pub mod Traces
pub mod Loop
pub mod Total
pub mod Values
use libpsf.Prelude.{
  ℕ, zero, suc, ◌+◌, ◌-◌, ◌%◌, ◌^◌, ◌<◌, ◌≤◌, ◌≡◌, refl, sym, ap, ◌∙◌, Bool, true, false, List, [],
  ◌∷◌, ◌++◌, length, length-append, append_assoc, append-nil, arith, leb, if◌then◌else◌, replicate,
  take,
}
use mathlib.Core.Path.{subst}
use libpsf.Prelude.Int.{ℤ, pos, ◌+ℤ◌, leb_ℤ}
use libpsf.Outcome.{Result, ok, ◌>>=◌, mul_int, sub_int, Yields-ok}
use libpsf.Buffer.{Bytes, get_uint32, seek}
use libpsf.Scalar.{Scalar}
use libpsf.Chunk.{chunk_deserialize}
use libpsf.TypeDef
use libpsf.TypeDef.{DataTypeDef, deserialize_data}
use libpsf.Trace.{DataTypeRef, get_datatype}
use libpsf.Vector.{Vector, resize}
use libpsf.Vector.Fill.{filled, store_at-filled}
use libpsf.Sweep.{
  Sections, ValueSectionSweep, SweepValue, get_valueoffset, read_run, window_traces, window_loop,
}
use libpsf.Sweep.Points.{Column, Even, vectors_of}

-- A window: the values of the parameter, and those of each trace that is read
pub record Window : Type 0 where
  pub params : List Scalar
  pub values : List (List Scalar)

abbrev pub points_of : List Window → ℕ
points_of [] = 0
points_of (win ∷ wins) = length win.params + points_of wins

abbrev pub params_of : List Window → List Scalar
params_of [] = []
params_of (win ∷ wins) = win.params ++ params_of wins

abbrev pub extend_all : List Column → List (List Scalar) → List Column
extend_all [] yss = []
extend_all (c ∷ cols) [] = []
extend_all ((w, done) ∷ cols) (ys ∷ yss) = (w, done ++ ys) ∷ extend_all cols yss

abbrev pub extend_windows : List Column → List Window → List Column
extend_windows cols [] = cols
extend_windows cols (win ∷ wins) = extend_windows (extend_all cols win.values) wins
