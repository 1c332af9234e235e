-- ===== src/Sweep/Total.antt =====
-- The fuel of the queries of ValueSectionSweep of src/psfsweepvalue.cc, and the types of their results.
use libpsf.Prelude.{◌≡◌, true, some, List, [], ◌∷◌}
use libpsf.Prelude.Assoc.{int_eq, bytes_eq}
use libpsf.Outcome.{
  ok, err, undefined, out_of_range, Yields, holds, Yields-bind, Yields-if, Yields-weaken,
  Yields-or_throw, Yields-eq,
}
use libpsf.Buffer.{Bytes}
use libpsf.Trace.{DataTypeRef, TraceSection, get_trace_by_name}
use libpsf.Trace.Total.{Any, TypesSized}
use libpsf.Trace.Lookup.{get_trace_by_name-Yields}
use libpsf.Vector.{Vector}
use libpsf.Sweep.{
  Sections, ValueSectionSweep, get_filtered, sweep_points_key, get_values, get_param_values,
}
use libpsf.Sweep.Section.{int_property-Yields}
use libpsf.Sweep.Typed.{HasType, HaveTypes, IsParameter, AreTyped}
use libpsf.Sweep.Points.Total.{simple_values-Yields}
use libpsf.Sweep.Windows.Total.{Forward, windowed_values-Yields}

module _ (s : Sections) (v : ValueSectionSweep) (buf : Bytes) (sized : TypesSized s.types) where
  pub get_filtered-IsTyped :
      (filter : List DataTypeRef)
      → (v.windowed ≡ true → Forward s)
      → Yields (AreTyped s filter) (get_filtered s v buf filter)
  unfolding get_filtered
  get_filtered-IsTyped filter forward =
      Yields-bind (int_property-Yields s.header sweep_points_key) λ n _.
        Yields-if v.windowed (λ w. windowed_values-Yields s v buf sized filter n (forward w))
          (λ _. simple_values-Yields s v buf sized filter n)

  -- `get_values(Filter &)` ends for every filter, within the fuel, where each type has the size of its
  -- parts: always for values in points, and for values in windows if no window takes bytes back.
  pub get_filtered-Yields :
      (filter : List DataTypeRef)
      → (v.windowed ≡ true → Forward s)
      → Yields Any (get_filtered s v buf filter)
  get_filtered-Yields filter forward =
      Yields-weaken (get_filtered-IsTyped filter forward) (λ _ _. tt)

  -- The vector that `get_values` of a name gives is of the type of the trace of the name, and has
  -- values of its own class only, where it ends: always for values in points, and for values in
  -- windows if no window takes bytes back. Each type has the size of its parts.
  pub get_values-HasType :
      (name : Bytes)
      → (v.windowed ≡ true → Forward s)
      → Yields
          (λ vec.
            (ts : TraceSection) × (r : DataTypeRef) × (s.traces ≡ some ts)
            × (get_trace_by_name ts name ≡ ok r)
            × HasType s r vec)
          (get_values s v buf name)
  unfolding get_values
  get_values-HasType name forward =
      Yields-bind (Yields-or_throw s.traces undefined (λ ts e. e)) λ ts section.
        Yields-bind (Yields-eq (get_trace_by_name-Yields ts name)) λ r (_, found).
          Yields-bind (get_filtered-IsTyped (r ∷ []) forward)
            λ sv (_, _, _, _, t). first ts r section found sv.vectors t.traces
    where
      first :
          (ts : TraceSection) (r : DataTypeRef)
          → s.traces ≡ some ts
          → get_trace_by_name ts name ≡ ok r
          → (vecs : List Vector) → HaveTypes s (r ∷ []) vecs
          → Yields
              (λ vec.
                (ts : TraceSection) × (r : DataTypeRef) × (s.traces ≡ some ts)
                × (get_trace_by_name ts name ≡ ok r)
                × HasType s r vec)
              (elim vecs [ [] ↦ err out_of_range | vec ∷ _ ↦ ok vec ])
      first ts r section found [] h = absurd h
      first ts r section found (vec ∷ vecs) (has, _) = holds (ts, r, section, found, has)

  -- The vector that `get_param_values` gives is of the type of the sweep's parameter, likewise.
  pub get_param_values-HasType :
      (v.windowed ≡ true → Forward s)
      → Yields
          (λ vec. (param : DataTypeRef) × IsParameter s param × HasType s param vec)
          (get_param_values s v buf)
  unfolding get_param_values
  get_param_values-HasType forward =
      Yields-bind (get_filtered-IsTyped [] forward)
        λ sv (param, d, first, e, t). holds (param, first, (d, e, t.params))
