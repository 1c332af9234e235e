-- ===== src/Sweep/Points.antt =====
-- The values of a sweep that is stored point by point: the loop of SweepValueSimple::deserialize.
pub mod Total
pub mod Values
use libpsf.Prelude.{
  ℕ, zero, suc, ◌+◌, ◌<◌, ◌≡◌, refl, sym, ap, Bool, true, false, Option, none, some, List, [], ◌∷◌,
  ◌++◌, map, length, length-append, append_assoc, append-nil, arith, if◌then◌else◌,
}
use libpsf.Prelude.Int.{ℤ, pos, negsuc}
use libpsf.Prelude.Assoc.{◌==◌, int_eq, int_eq_self}
use libpsf.Outcome.{Result, ok, err, ◌>>=◌, or_throw, undefined}
use libpsf.Buffer.{Bytes, get_int32, seek}
use libpsf.Scalar.{Scalar}
use libpsf.Chunk.{chunk_deserialize}
use libpsf.TypeDef.{DataTypeDef, deserialize_data}
use libpsf.Trace.{DataTypeRef, TraceSection, get_datatype, get_trace_by_name}
use libpsf.Vector.{Vector, new_vector, resize, store_at}
use libpsf.Vector.Fill.{filled, resize_new, store_at-filled, filled_zero}
use libpsf.Sweep.{
  Sections, ValueSectionSweep, SweepValue, int_property, sweep_points_key, get_valueoffset,
  paramtype, make_vectors, read_traces, point_loop, simple_values, get_filtered, get_values,
  get_param_values,
}

-- A vector in the making: its empty form, and the values that it has so far.
abbrev pub Column : Type 0
Column = Vector × List Scalar

abbrev pub vectors_of : ℕ → List Column → List Vector
vectors_of k [] = []
vectors_of k ((w, done) ∷ cols) = filled w done k ∷ vectors_of k cols

abbrev pub push_all : List Column → List Scalar → List Column
push_all [] ys = []
push_all (c ∷ cols) [] = []
push_all ((w, done) ∷ cols) (y ∷ ys) = (w, done ++ (y ∷ [])) ∷ push_all cols ys

-- Each column has `i` values.
abbrev pub Even : ℕ → List Column → Type 0
Even i [] = Unit {0}
Even i ((w, done) ∷ cols) = (length done ≡ i) × Even i cols

push_all-Even :
    (i : ℕ) (cols : List Column) (ys : List Scalar) → Even i cols → Even (i + 1) (push_all cols ys)
push_all-Even i [] ys h = tt
push_all-Even i ((w, done) ∷ cols) [] h = tt
push_all-Even i ((w, done) ∷ cols) (y ∷ ys) (e, h) =
    (omega (arith, length-append done (y ∷ [])), push_all-Even i cols ys h)

-- A point of the sweep: the parameter's value, and that of each trace that is read
pub record Point : Type 0 where
  pub param : Scalar
  pub values : List Scalar

abbrev pub push_points : List Column → List Point → List Column
push_points cols [] = cols
push_points cols (pt ∷ pts) = push_points (push_all cols pt.values) pts

module _ (s : Sections) (v : ValueSectionSweep) (buf : Bytes) where
  -- The value `y` of the trace `r` is read at its offset from `valuebuf`.
  abbrev pub TraceAt : DataTypeRef → Scalar → ℕ → Type 0
  TraceAt r y valuebuf =
      (d : DataTypeDef) × ((offset : ℤ) × ((q n : ℕ) × (get_valueoffset v r.id ≡ ok offset)
          × (seek valuebuf offset ≡ ok q)
          × (get_datatype s.types r ≡ ok d)
          × (deserialize_data d buf q ≡ ok (y, n))))

  abbrev pub TracesAt : List DataTypeRef → List Scalar → ℕ → Type 0
  TracesAt [] [] valuebuf = Unit {0}
  TracesAt (r ∷ rs) (y ∷ ys) valuebuf = TraceAt r y valuebuf × TracesAt rs ys valuebuf
  TracesAt _ _ valuebuf = ⊥

  read_traces-TracesAt :
      (rs : List DataTypeRef) (ys : List Scalar) (cols : List Column) (k i valuebuf : ℕ)
      → TracesAt rs ys valuebuf
      → Even i cols
      → length cols ≡ length rs
      → read_traces s v buf rs (vectors_of (suc k) cols) i valuebuf
        ≡ ok (vectors_of k (push_all cols ys))
  unfolding read_traces
  read_traces-TracesAt [] [] [] k i valuebuf at even len = refl
  read_traces-TracesAt [] [] (c ∷ cols) k i valuebuf at even len = absurd (omega arith)
  read_traces-TracesAt [] (y ∷ ys) cols k i valuebuf at even len = absurd at
  read_traces-TracesAt (r ∷ rs) [] cols k i valuebuf at even len = absurd at
  read_traces-TracesAt (r ∷ rs) (y ∷ ys) [] k i valuebuf at even len = absurd (omega arith)
  read_traces-TracesAt (r ∷ rs) (y ∷ ys) ((w, done) ∷ cols) k i valuebuf
        ((d, (offset, (q, n, o, sk, t, x))), at) (e, even) len =
      rw (
        o,
        sk,
        t,
        x,
        ← e,
        store_at-filled w done k y,
        e,
        read_traces-TracesAt rs ys cols k i valuebuf at even (omega arith),
      )

  module _ (param : DataTypeRef) (def : DataTypeDef) (filter : List DataTypeRef) where
    -- The points stand one behind the other, each with its chunk code, its parameter type and the
    -- values of the traces.
    abbrev pub PointsAt : List Point → ℕ → Type 0
    PointsAt [] p = Unit
    PointsAt (pt ∷ pts) p =
        (n : ℕ) × ((next : ℕ) × (chunk_deserialize (pos 16) buf p ≡ ok 4)
          × (get_int32 buf (p + 4) ≡ ok param.id)
          × (deserialize_data def buf (p + 8) ≡ ok (pt.param, n))
          × TracesAt filter pt.values (p + 8 + n)
          × (seek (p + 8 + n) v.valuesize ≡ ok next)
          × PointsAt pts next)

    abbrev pub Done :
        List Column → Vector → List Scalar → List Point → Result (SweepValue × ℕ) → Type 0
    Done cols w done pts r =
        (q : ℕ) × (r
          ≡ ok (
            record {
              vectors = vectors_of 0 (push_points cols pts);
              paramvalues = filled w (done ++ map (λ pt. pt.param) pts) 0;
            },
            q,
          ))

    length-push_all :
        (cols : List Column) (rs : List DataTypeRef) (ys : List Scalar) (p : ℕ)
        → TracesAt rs ys p
        → length cols ≡ length rs
        → length (push_all cols ys) ≡ length rs
    length-push_all [] [] [] p at e = refl
    length-push_all (c ∷ cols) [] ys p at e = absurd (omega arith)
    length-push_all [] (r ∷ rs) ys p at e = absurd (omega arith)
    length-push_all cols [] (y ∷ ys) p at e = absurd at
    length-push_all cols (r ∷ rs) [] p at e = absurd at
    length-push_all ((w, done) ∷ cols) (r ∷ rs) (y ∷ ys) p (at, ats) e =
        let ih = length-push_all cols rs ys p ats (omega arith) in omega arith

    pub point_loop-PointsAt :
        (pts : List Point) (cols : List Column) (w : Vector) (done : List Scalar) (i p : ℕ)
        → PointsAt pts p
        → Even i cols
        → length cols ≡ length filter
        → length done ≡ i
        → Done cols w done pts (
            point_loop s v buf param def filter (length pts) i p (record {
              vectors = vectors_of (length pts) cols;
              paramvalues = filled w done (length pts);
            }))
    unfolding point_loop
    point_loop-PointsAt [] cols w done i p at even len e = (
      p,
      ap (λ zs. ok (record { vectors = vectors_of 0 cols; paramvalues = filled w zs 0 }, p))
          (sym (append-nil done)),
    )
    point_loop-PointsAt (pt ∷ pts) cols w done i p (n, (next, c, t, x, at, sk, rest)) even len e =
        let cols' = push_all cols pt.values in
        let done' = done ++ (pt.param ∷ []) in
        let ih =
          point_loop-PointsAt pts cols' w done' (i + 1) next rest
            (push_all-Even i cols pt.values even)
            (length-push_all cols filter pt.values (p + 8 + n) at len)
            (omega (arith, length-append done (pt.param ∷ []))) in
        (
          ih.0,
          rw (
            c,
            t,
            int_eq_self param.id,
            x,
            ← e,
            store_at-filled w done (length pts) pt.param,
            e,
            read_traces-TracesAt filter pt.values cols (length pts) i (p + 8 + n) at even len,
            sk,
            ih.1,
            append_assoc done (pt.param ∷ []) (map (λ pt. pt.param) pts),
          ),
        )
