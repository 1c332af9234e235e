-- ===== src/Sweep/Windows/Loop.antt =====
-- The loop over the windows (SweepValueWindowed::deserialize of src/psfsweepvalue.cc).
use libpsf.Prelude.{
  ℕ, zero, suc, ◌+◌, ◌-◌, ◌%◌, ◌^◌, ◌<◌, ◌≡◌, sym, ap, ◌∙◌, true, false, List, [], ◌∷◌, ◌++◌,
  length, length-append, append_assoc, append-nil, arith, leb,
}
use mathlib.Core.Path.{subst}
use libpsf.Prelude.Int.{ℤ, pos, leb_ℤ}
use libpsf.Outcome.{Result, ok, mul_int, add_int}
use libpsf.Buffer.{Bytes, get_uint32, seek}
use libpsf.Scalar.{Scalar}
use libpsf.Chunk.{chunk_deserialize}
use libpsf.TypeDef.{DataTypeDef}
use libpsf.Trace.{DataTypeRef}
use libpsf.Vector.{Vector, resize}
use libpsf.Vector.Fill.{filled}
use libpsf.Sweep.{Sections, ValueSectionSweep, SweepValue, read_run, window_loop}
use libpsf.Sweep.Points.{Column, Even, vectors_of}
use libpsf.Sweep.Windows.{Window, points_of, params_of, extend_all, extend_windows}
use libpsf.Sweep.Windows.Traces.{
  RunAt, TraceRuns, read_run-RunAt, window_traces-TraceRuns, Even-extend_all,
}

counts : (a n : ℕ) → a + n < 2 ^ 31 → add_int (pos a) (pos n) ≡ ok (pos (a + n))
unfolding add_int
counts a n h = ground arith

grows : (a n : ℕ) → 0 < n → leb (a + n) a ≡ false
grows a n h = ground arith

-- A parameter's vector that grows by a window
resize_more :
    (w : Vector) (done : List Scalar) (n : ℕ)
    → 0 < n
    → resize (filled w done 0) (pos (length (filled w done 0).values + n)) ≡ ok (filled w done n)
unfolding resize
resize_more w done n h =
    let extra : length (done ++ []) + n - length (done ++ []) ≡ n = omega arith in
    rw (grows (length (done ++ [])) n h, extra, append-nil done)

module _ (s : Sections) (v : ValueSectionSweep) (buf : Bytes) (windowsize ntraces : ℤ)
    (def : DataTypeDef) (filter : List DataTypeRef) where
  -- The windows stand one behind the other, each with its chunk code, its number of points, the
  -- values of the parameter, and the traces' windows.
  abbrev pub WindowsAt : List Window → ℕ → Type 0
  WindowsAt [] p = Unit
  WindowsAt (win ∷ wins) p =
      (tmp : ℕ) × ((q : ℕ) × ((size : ℤ) × ((next : ℕ) × (chunk_deserialize (pos 16) buf p ≡ ok 4)
            × (get_uint32 buf (p + 4) ≡ ok tmp)
            × (tmp % 2 ^ 16 ≡ length win.params)
            × (0 < length win.params)
            × RunAt s v buf def win.params (p + 8) q
            × TraceRuns s v buf windowsize filter win.values (length win.params) q
            × (mul_int ntraces windowsize ≡ ok size)
            × (seek q size ≡ ok next)
            × WindowsAt wins next)))

  abbrev pub Done :
      List Column → Vector → List Scalar → List Window → Result (SweepValue × ℕ) → Type 0
  Done cols w done wins r =
      (q : ℕ) × (r
        ≡ ok (
          record {
            vectors = vectors_of 0 (extend_windows cols wins);
            paramvalues = filled w (done ++ params_of wins) 0;
          },
          q,
        ))

  read_window :
      (win : Window) (w : Vector) (done : List Scalar) (p q : ℕ)
      → RunAt s v buf def win.params (p + 8) q
      → read_run s v buf def
          (length win.params)
          (length (filled w done 0).values)
          (p + 8)
          (filled w done (length win.params))
        ≡ ok (filled w (done ++ win.params) 0, q)
  read_window win w done p q run =
      let room : length win.params + 0 ≡ length win.params = omega arith in
      let start : length done ≡ length (filled w done 0).values =
        omega (arith, length-append done []) in
      subst
        (λ n.
          read_run s v buf def (length win.params) (length (filled w done 0).values) (p + 8)
            (filled w done n)
          ≡ ok (filled w (done ++ win.params) 0, q))
        room (read_run-RunAt s v buf def win.params w done _ 0 (p + 8) q run start)

  -- One round of the loop
  window_round :
      (win : Window) (left : ℕ) (cols : List Column) (w : Vector) (done : List Scalar)
      (fuel i total p tmp q : ℕ) (size : ℤ) (next : ℕ)
      → chunk_deserialize (pos 16) buf p ≡ ok 4
      → get_uint32 buf (p + 4) ≡ ok tmp
      → tmp % 2 ^ 16 ≡ length win.params
      → 0 < length win.params
      → RunAt s v buf def win.params (p + 8) q
      → TraceRuns s v buf windowsize filter win.values (length win.params) q
      → mul_int ntraces windowsize ≡ ok size
      → seek q size ≡ ok next
      → i < total
      → i + length win.params < 2 ^ 31
      → Even i cols
      → length cols ≡ length filter
      → window_loop s v buf windowsize ntraces def filter (pos total) (suc fuel) i p (record {
        vectors = vectors_of (length win.params + left) cols;
        paramvalues = filled w done 0;
      })
        ≡ window_loop s v buf windowsize ntraces def filter
            (pos total)
            fuel
            (i + length win.params)
            next
            (record {
              vectors = vectors_of left (extend_all cols win.values);
              paramvalues = filled w (done ++ win.params) 0;
            })
  unfolding window_loop
  window_round win left cols w done fuel i total p tmp q size next c t l some_ run runs mul se lt
        small even len =
      let more : leb_ℤ (pos total) (pos i) ≡ false = ground arith in
      rw (
        more,
        window_loop,
        c,
        t,
        l,
        resize_more w done (length win.params) some_,
        read_window win w done p q run,
        window_traces-TraceRuns s v buf windowsize filter win.values cols left i (length win.params)
            q runs even len,
        mul,
        se,
        counts i (length win.params) small,
      )

  -- The loop over the windows, from point `i` on
  pub window_loop-WindowsAt :
      (wins : List Window) (cols : List Column) (w : Vector) (done : List Scalar)
      (fuel i total p : ℕ)
      → WindowsAt wins p
      → length wins < fuel
      → total ≡ i + points_of wins
      → total < 2 ^ 31
      → Even i cols
      → length cols ≡ length filter
      → Done cols w done wins (
          window_loop s v buf windowsize ntraces def filter
            (pos total)
            fuel
            i
            p
            (record { vectors = vectors_of (points_of wins) cols; paramvalues = filled w done 0 }))
  unfolding window_loop
  window_loop-WindowsAt wins cols w done zero i total p at few sum small even len =
      absurd (omega arith)
  window_loop-WindowsAt [] cols w done (suc fuel) i total p at few sum small even len =
      let end : leb_ℤ (pos total) (pos i) ≡ true = ground arith in
      (
        p,
        rw (end, window_loop)
            (ap (λ zs. ok (record { vectors = vectors_of 0 cols; paramvalues = filled w zs 0 }, p))
              (sym (append-nil done))),
      )
  window_loop-WindowsAt (win ∷ wins) cols w done (suc fuel) i total p
        (tmp, (q, (size, (next, c, t, l, some_, run, runs, mul, se, rest)))) few sum small even
        len =
      let (even', len') =
        Even-extend_all s v buf windowsize filter win.values cols i (length win.params) q runs even
          len in
      let ih =
        window_loop-WindowsAt wins (extend_all cols win.values) w (done ++ win.params) fuel
          (i + length win.params) total next rest (omega arith) (omega arith) small even' len' in
      (
        ih.0,
        window_round win (points_of wins) cols w done fuel i total p tmp q size next c t l some_ run
              runs mul se (omega arith) (omega arith) even len
            ∙ ih.1
            ∙ ap
                (λ zs. ok (
                  record {
                    vectors = vectors_of 0 (extend_windows (extend_all cols win.values) wins);
                    paramvalues = filled w zs 0;
                  },
                  ih.0,
                ))
                (append_assoc done win.params (params_of wins)),
      )
