-- ===== src/Sweep/Windows/Traces.antt =====
-- The traces' part of a window (SweepValueWindowed::deserialize of src/psfsweepvalue.cc).
use libpsf.Prelude.{
  ℕ, suc, ◌+◌, ◌≡◌, refl, sym, ap, ◌∙◌, List, [], ◌∷◌, ◌++◌, length, length-append, append_assoc,
  append-nil, arith,
}
use mathlib.Core.Path.{subst}
use libpsf.Prelude.Int.{ℤ, pos, ◌+ℤ◌}
use libpsf.Outcome.{ok, mul_int, sub_int}
use libpsf.Buffer.{Bytes, seek}
use libpsf.Scalar.{Scalar}
use libpsf.TypeDef
use libpsf.TypeDef.{DataTypeDef, deserialize_data}
use libpsf.Trace.{DataTypeRef, get_datatype}
use libpsf.Vector.{Vector}
use libpsf.Vector.Fill.{filled, store_at-filled}
use libpsf.Sweep.{Sections, ValueSectionSweep, get_valueoffset, read_run, window_traces}
use libpsf.Sweep.Points.{Column, Even, vectors_of}
use libpsf.Sweep.Windows.{extend_all}

module _ (s : Sections) (v : ValueSectionSweep) (buf : Bytes) where
  -- Values of one type stand one behind the other from `p` to `q`.
  abbrev pub RunAt : DataTypeDef → List Scalar → ℕ → ℕ → Type 0
  RunAt def [] p q = p ≡ q
  RunAt def (x ∷ xs) p q =
      (m : ℕ) × ((deserialize_data def buf p ≡ ok (x, m)) × RunAt def xs (p + m) q)

  pub read_run-RunAt :
      (def : DataTypeDef) (xs : List Scalar) (w : Vector) (done : List Scalar) (j k p q : ℕ)
      → RunAt def xs p q
      → length done ≡ j
      → read_run s v buf def (length xs) j p (filled w done (length xs + k))
        ≡ ok (filled w (done ++ xs) k, q)
  unfolding read_run
  read_run-RunAt def [] w done j k p q e len =
      ap (λ n. ok (filled w done n, p)) (omega arith)
      ∙ ap (λ r. ok (filled w done k, r)) e
      ∙ ap (λ zs. ok (filled w zs k, q)) (sym (append-nil done))
  read_run-RunAt def (x ∷ xs) w done j k p q (m, (x_at, at)) len =
      let room : suc (length xs) + k ≡ suc (length xs + k) = omega arith in
      let next : length (done ++ (x ∷ [])) ≡ j + 1 = omega (arith, length-append done (x ∷ [])) in
      rw (
        x_at,
        room,
        ← len,
        store_at-filled w done (length xs + k) x,
        len,
        read_run-RunAt def xs w (done ++ (x ∷ [])) (j + 1) k (p + m) q at next,
        append_assoc done (x ∷ []) xs,
      )

  module _ (windowsize : ℤ) where
    -- The `n` values of a trace stand at the end of the trace's window, behind `from`.
    abbrev pub TraceRun : DataTypeRef → List Scalar → ℕ → ℕ → Type 0
    TraceRun r ys n from =
        (d : DataTypeDef) × ((offset : ℤ) × ((used : ℤ) × ((skip : ℤ) × ((p : ℕ) × ((q : ℕ)
                  × (get_valueoffset v r.id ≡ ok offset)
                  × (get_datatype s.types r ≡ ok d)
                  × (mul_int (pos n) (pos (TypeDef.datasize d)) ≡ ok used)
                  × (sub_int windowsize used ≡ ok skip)
                  × (seek from (offset +ℤ skip) ≡ ok p)
                  × RunAt d ys p q
                  × (length ys ≡ n))))))

    abbrev pub TraceRuns : List DataTypeRef → List (List Scalar) → ℕ → ℕ → Type 0
    TraceRuns [] [] n from = Unit {0}
    TraceRuns (r ∷ rs) (ys ∷ yss) n from = TraceRun r ys n from × TraceRuns rs yss n from
    TraceRuns _ _ n from = ⊥

    pub window_traces-TraceRuns :
        (rs : List DataTypeRef) (yss : List (List Scalar)) (cols : List Column) (k i n from : ℕ)
        → TraceRuns rs yss n from
        → Even i cols
        → length cols ≡ length rs
        → window_traces s v buf windowsize rs (vectors_of (n + k) cols) i n from
          ≡ ok (vectors_of k (extend_all cols yss))
    unfolding window_traces
    window_traces-TraceRuns [] [] [] k i n from runs even len = refl
    window_traces-TraceRuns [] [] (c ∷ cols) k i n from runs even len = absurd (omega arith)
    window_traces-TraceRuns [] (ys ∷ yss) cols k i n from runs even len = absurd runs
    window_traces-TraceRuns (r ∷ rs) [] cols k i n from runs even len = absurd runs
    window_traces-TraceRuns (r ∷ rs) (ys ∷ yss) [] k i n from runs even len = absurd (omega arith)
    window_traces-TraceRuns (r ∷ rs) (ys ∷ yss) ((w, done) ∷ cols) k i n from
          ((d, (offset, (used, (skip, (p, (q, o, t, u, sk, se, run, l)))))), runs) (e, even) len =
        let here : read_run s v buf d n i p (filled w done (n + k))
            ≡ ok (filled w (done ++ ys) k, q) =
          subst
            (λ m.
              read_run s v buf d m i p (filled w done (m + k)) ≡ ok (filled w (done ++ ys) k, q))
            l (read_run-RunAt d ys w done i k p q run e) in
        rw (
          o,
          t,
          u,
          sk,
          se,
          here,
          window_traces-TraceRuns rs yss cols k i n from runs even (omega arith),
        )

    pub Even-extend_all :
        (rs : List DataTypeRef) (yss : List (List Scalar)) (cols : List Column) (i n from : ℕ)
        → TraceRuns rs yss n from
        → Even i cols
        → length cols ≡ length rs
        → Even (i + n) (extend_all cols yss) × (length (extend_all cols yss) ≡ length rs)
    Even-extend_all [] [] [] i n from runs even len = (tt, refl)
    Even-extend_all [] [] (c ∷ cols) i n from runs even len = absurd (omega arith)
    Even-extend_all [] (ys ∷ yss) cols i n from runs even len = absurd runs
    Even-extend_all (r ∷ rs) [] cols i n from runs even len = absurd runs
    Even-extend_all (r ∷ rs) (ys ∷ yss) [] i n from runs even len = absurd (omega arith)
    Even-extend_all (r ∷ rs) (ys ∷ yss) ((w, done) ∷ cols) i n from
          ((d, (offset, (used, (skip, (p, (q, o, t, u, sk, se, run, l)))))), runs) (e, even) len =
        let (even', len') = Even-extend_all rs yss cols i n from runs even (omega arith) in
        ((omega (arith, length-append done ys), even'), omega arith)
