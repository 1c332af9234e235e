-- ===== src/Sweep/Windows/Values.antt =====
-- What SweepValueWindowed gives for a whole sweep section: SweepValueWindowed::deserialize,
-- ValueSectionSweep::get_values and get_param_values.
use libpsf.Prelude.{
  ℕ, suc, ◌+◌, ◌^◌, ◌<◌, ◌≤◌, ◌≡◌, refl, sym, ap, ◌∙◌, true, some, List, [], ◌∷◌, ◌++◌, length,
  arith, append-nil, append_assoc,
}
use libpsf.Prelude.Int.{ℤ, pos, ◌*ℤ◌}
use libpsf.Outcome.{
  Result, ok, err, ◌>>=◌, or_throw, undefined, out_of_range, mul_int-Yields, Yields-ok,
}
use libpsf.Buffer.{Bytes}
use libpsf.Buffer.Words.{get_uint32-Yields}
use libpsf.Scalar.{Scalar}
use libpsf.TypeDef.{DataTypeDef}
use libpsf.Trace.{DataTypeRef, TraceSection, get_datatype, get_trace_by_name}
use libpsf.Vector.{Vector, new_vector}
use libpsf.Vector.Fill.{filled, filled_zero, resize_new, new_vector-empty}
use libpsf.Sweep.{
  Sections, ValueSectionSweep, SweepValue, int_property, sweep_points_key, window_size_key,
  traces_key, paramtype, make_vectors, window_loop, windowed_values, get_filtered, get_values,
  get_param_values,
}
use libpsf.Sweep.Section.{seek-Yields}
use libpsf.Sweep.Windows.Total.{pos-ahead}
use libpsf.Sweep.Windows
use libpsf.Sweep.Windows.{Window, points_of, params_of}
use libpsf.Sweep.Windows.Loop.{WindowsAt, window_loop-WindowsAt}
use libpsf.Sweep.Windows.Traces.{RunAt}

-- A window with the values of one trace
pub record Pair : Type 0 where
  pub params : List Scalar
  pub values : List Scalar

abbrev pub with_values : List Pair → List Window
with_values [] = []
with_values (pr ∷ prs) = record { params = pr.params; values = pr.values ∷ [] } ∷ with_values prs

abbrev pub values_of : List Pair → List Scalar
values_of [] = []
values_of (pr ∷ prs) = pr.values ++ values_of prs

extend_windows-with_values :
    (prs : List Pair) (w : Vector) (done : List Scalar)
    → Windows.extend_windows ((w, done) ∷ []) (with_values prs) ≡ (w, done ++ values_of prs) ∷ []
extend_windows-with_values [] w done = ap (λ zs. (w, zs) ∷ []) (sym (append-nil done))
extend_windows-with_values (pr ∷ prs) w done = rw (
  extend_windows-with_values prs w (done ++ pr.values),
  append_assoc done pr.values (values_of prs),
)

module _ (s : Sections) (v : ValueSectionSweep) (buf : Bytes) where
  RunAt-le : (def : DataTypeDef) (xs : List Scalar) (p q : ℕ) → RunAt s v buf def xs p q → p ≤ q
  RunAt-le def [] p q e = omega arith
  RunAt-le def (x ∷ xs) p q (m, (x_at, at)) = omega (arith, RunAt-le def xs (p + m) q at)

  -- There are no more windows than bytes.
  few_windows :
      (windowsize ntraces : ℤ) (k : ℕ) (def : DataTypeDef) (filter : List DataTypeRef)
      (wins : List Window) (p : ℕ)
      → ntraces *ℤ windowsize ≡ pos k
      → WindowsAt s v buf windowsize ntraces def filter wins p
      → 0 < length wins
      → p + length wins ≤ length buf
  few_windows windowsize ntraces k def filter [] p e at some_ = absurd (omega arith)
  few_windows windowsize ntraces k def filter (win ∷ []) p e
        (tmp, (q, (size, (next, c, t, l, z, run, runs, mul, se, rest)))) some_ =
      let room = Yields-ok (get_uint32-Yields buf (p + 4)) t in omega arith
  few_windows windowsize ntraces k def filter (win ∷ (win' ∷ wins)) p e
        (tmp, (q, (size, (next, c, t, l, z, run, runs, mul, se, rest)))) some_ =
      let back = RunAt-le def win.params (p + 8) q run in
      let product : size ≡ ntraces *ℤ windowsize =
        Yields-ok (mul_int-Yields ntraces windowsize) mul in
      let ahead : next ≡ q + k =
        pos-ahead q k next size (Yields-ok (seek-Yields q size) se) (product ∙ e) in
      let ih =
        few_windows windowsize ntraces k def filter (win' ∷ wins) next e rest (omega arith) in
      omega arith

  enough :
      (windowsize ntraces : ℤ) (k : ℕ) (def : DataTypeDef) (filter : List DataTypeRef)
      (wins : List Window) (p : ℕ)
      → ntraces *ℤ windowsize ≡ pos k
      → WindowsAt s v buf windowsize ntraces def filter wins p
      → length wins < suc (length buf)
  enough windowsize ntraces k def filter [] p e at = omega arith
  enough windowsize ntraces k def filter (win ∷ wins) p e at =
      let few = few_windows windowsize ntraces k def filter (win ∷ wins) p e at (omega arith) in
      omega arith

module _ (s : Sections) (v : ValueSectionSweep) (buf : Bytes) (param : DataTypeRef)
    (def : DataTypeDef) (rest : List DataTypeRef) (w : Vector) (windowsize ntraces : ℤ) (k : ℕ)
    (windowed : v.windowed ≡ true) (swept : s.sweeps ≡ some (param ∷ rest))
    (typed : get_datatype s.types param ≡ ok def) (new : new_vector def ≡ ok w)
    (window_size : int_property s.header window_size_key ≡ ok windowsize)
    (traces : int_property s.header traces_key ≡ ok ntraces)
    (forward : ntraces *ℤ windowsize ≡ pos k) where
  fresh : w ≡ filled w [] 0
  fresh = ap (λ zs. record w { values = zs }) (new_vector-empty def w new) ∙ sym (filled_zero w [])

  -- The parameter's values of a sweep in windows are those of its windows, one window behind the
  -- other. The windows have as many points as the header says, fewer than 2^31, and none takes bytes
  -- back; the first sweep section entry has a type.
  pub get_param_values-WindowsAt :
      (wins : List Window)
      → int_property s.header sweep_points_key ≡ ok (pos (points_of wins))
      → points_of wins < 2 ^ 31
      → WindowsAt s v buf windowsize ntraces def [] wins v.valuebuf
      → get_param_values s v buf ≡ ok (record w { values = params_of wins })
  unfolding get_param_values get_filtered windowed_values paramtype make_vectors
  get_param_values-WindowsAt wins count small at =
      let loop =
        window_loop-WindowsAt s v buf windowsize ntraces def [] wins [] w [] (suc (length buf)) 0
          (points_of wins) v.valuebuf at
          (enough s v buf windowsize ntraces k def [] wins v.valuebuf forward at) (omega arith)
          small tt refl in
      let start =
        ap
          (λ x.
            window_loop s v buf windowsize ntraces def [] (pos (points_of wins)) (suc (length buf))
              0 v.valuebuf (record { vectors = []; paramvalues = x }))
          fresh in
      simp (
        count,
        windowed,
        window_size,
        traces,
        swept,
        typed,
        new,
        start ∙ loop.1,
        filled_zero w (params_of wins),
      )

  -- The vector of one trace of the filter
  one_trace :
      (r : DataTypeRef) (d : DataTypeDef) (w' : Vector) (prs : List Pair)
      → get_datatype s.types r ≡ ok d
      → new_vector d ≡ ok w'
      → int_property s.header sweep_points_key ≡ ok (pos (points_of (with_values prs)))
      → points_of (with_values prs) < 2 ^ 31
      → WindowsAt s v buf windowsize ntraces def (r ∷ []) (with_values prs) v.valuebuf
      → get_filtered s v buf (r ∷ [])
        ≡ ok (record {
          vectors = record w' { values = values_of prs } ∷ [];
          paramvalues = filled w (params_of (with_values prs)) 0;
        })
  unfolding get_filtered windowed_values paramtype make_vectors
  one_trace r d w' prs typed' new' count small at =
      let wins = with_values prs in
      let n = points_of wins in
      let loop =
        window_loop-WindowsAt s v buf windowsize ntraces def (r ∷ []) wins ((w', []) ∷ []) w []
          (suc (length buf)) 0 n v.valuebuf at
          (enough s v buf windowsize ntraces k def (r ∷ []) wins v.valuebuf forward at)
          (omega arith) small (refl, tt) refl in
      let start =
        ap
          (λ x.
            window_loop s v buf windowsize ntraces def (r ∷ []) (pos n) (suc (length buf)) 0
              v.valuebuf (record { vectors = filled w' [] n ∷ []; paramvalues = x }))
          fresh in
      simp (
        count,
        windowed,
        window_size,
        traces,
        swept,
        typed,
        new,
        typed',
        new',
        resize_new w' n (new_vector-empty d w' new'),
        start ∙ loop.1,
        extend_windows-with_values prs w' [],
        filled_zero w' (values_of prs),
      )

  -- The values of a trace, found by name, are those of its windows, one window behind the other. The
  -- windows have as many points as the header says, fewer than 2^31, and none takes bytes back; the
  -- trace and the first sweep section entry have types.
  pub get_values-WindowsAt :
      (name : Bytes) (section : TraceSection) (r : DataTypeRef) (d : DataTypeDef) (w' : Vector)
      (prs : List Pair)
      → s.traces ≡ some section
      → get_trace_by_name section name ≡ ok r
      → get_datatype s.types r ≡ ok d
      → new_vector d ≡ ok w'
      → int_property s.header sweep_points_key ≡ ok (pos (points_of (with_values prs)))
      → points_of (with_values prs) < 2 ^ 31
      → WindowsAt s v buf windowsize ntraces def (r ∷ []) (with_values prs) v.valuebuf
      → get_values s v buf name ≡ ok (record w' { values = values_of prs })
  unfolding get_values
  get_values-WindowsAt name section r d w' prs has found typed' new' count small at =
      let first : SweepValue → Result Vector =
        λ sv. elim sv.vectors [ [] ↦ err out_of_range | vec ∷ vecs ↦ ok vec ] in
      let read : DataTypeRef → Result Vector =
        λ trace. get_filtered s v buf (trace ∷ []) >>= first in
      ap (λ o. or_throw o undefined >>= (λ ts. get_trace_by_name ts name >>= read)) has
      ∙ ap (λ t. t >>= read) found
      ∙ ap (λ sv. sv >>= first) (one_trace r d w' prs typed' new' count small at)
