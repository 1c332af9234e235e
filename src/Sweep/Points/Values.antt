-- ===== src/Sweep/Points/Values.antt =====
-- What SweepValueSimple gives for a whole sweep section: SweepValueSimple::deserialize,
-- ValueSectionSweep::get_values and get_param_values.
use libpsf.Prelude.{
  suc, ◌≡◌, refl, sym, ap, ◌∙◌, false, some, List, [], ◌∷◌, ◌++◌, map, length, append-nil,
  append_assoc,
}
use libpsf.Prelude.Int.{pos}
use libpsf.Outcome.{Result, ok, err, ◌>>=◌, or_throw, undefined, out_of_range}
use libpsf.Buffer.{Bytes}
use libpsf.Scalar.{Scalar}
use libpsf.TypeDef.{DataTypeDef}
use libpsf.Trace.{DataTypeRef, TraceSection, get_datatype, get_trace_by_name}
use libpsf.Vector.{Vector, new_vector}
use libpsf.Vector.Fill.{filled, filled_zero, resize_new, new_vector-empty}
use libpsf.Sweep.{
  Sections, ValueSectionSweep, SweepValue, int_property, sweep_points_key, paramtype, make_vectors,
  simple_values, get_filtered, get_values, get_param_values,
}
use libpsf.Sweep.Points

-- A point with the value of one trace
abbrev pub with_value : Scalar × Scalar → Points.Point
with_value (t, y) = record { param = t; values = y ∷ [] }

push_points-with_value :
    (pts : List (Scalar × Scalar)) (w : Vector) (done : List Scalar)
    → Points.push_points ((w, done) ∷ []) (map with_value pts)
      ≡ (w, done ++ map (λ pt. pt.1) pts) ∷ []
push_points-with_value [] w done = ap (λ zs. (w, zs) ∷ []) (sym (append-nil done))
push_points-with_value ((t, y) ∷ pts) w done = rw (
  push_points-with_value pts w (done ++ (y ∷ [])),
  append_assoc done (y ∷ []) (map (λ pt. pt.1) pts),
)

map-with_value : (pts : List (Scalar × Scalar)) → length (map with_value pts) ≡ length pts
map-with_value [] = refl
map-with_value (pt ∷ pts) = ap suc (map-with_value pts)

module _ (s : Sections) (v : ValueSectionSweep) (buf : Bytes) (param : DataTypeRef)
    (def : DataTypeDef) (rest : List DataTypeRef) (w : Vector) (plain : v.windowed ≡ false)
    (swept : s.sweeps ≡ some (param ∷ rest)) (typed : get_datatype s.types param ≡ ok def)
    (new : new_vector def ≡ ok w) where
  -- The parameter's values of a sweep are those of its points, one for each and in their order. The
  -- values are not in windows, the first sweep section entry has a type, and the points stand in the
  -- file as many as the header says.
  pub get_param_values-PointsAt :
      (pts : List Points.Point)
      → int_property s.header sweep_points_key ≡ ok (pos (length pts))
      → Points.PointsAt s v buf param def [] pts v.valuebuf
      → get_param_values s v buf ≡ ok (record w { values = map (λ pt. pt.param) pts })
  unfolding get_param_values get_filtered simple_values paramtype make_vectors
  get_param_values-PointsAt pts count at =
      let loop =
        Points.point_loop-PointsAt s v buf param def [] pts [] w [] 0 v.valuebuf at tt refl refl in
      rw (
        count,
        plain,
        swept,
        typed,
        new,
        resize_new w (length pts) (new_vector-empty def w new),
        loop.1,
        filled_zero w (map (λ pt. pt.param) pts),
      )

  -- The vector of one trace of the filter
  one_trace :
      (r : DataTypeRef) (d : DataTypeDef) (w' : Vector) (pts : List (Scalar × Scalar))
      → get_datatype s.types r ≡ ok d
      → new_vector d ≡ ok w'
      → Points.PointsAt s v buf param def (r ∷ []) (map with_value pts) v.valuebuf
      → int_property s.header sweep_points_key ≡ ok (pos (length pts))
      → get_filtered s v buf (r ∷ [])
        ≡ ok (record {
          vectors = record w' { values = map (λ pt. pt.1) pts } ∷ [];
          paramvalues = filled w (map (λ pt. pt.param) (map with_value pts)) 0;
        })
  unfolding get_filtered simple_values paramtype make_vectors
  one_trace r d w' pts typed' new' at count =
      let n = length (map with_value pts) in
      let count' = count ∙ ap (λ k. ok (pos k)) (sym (map-with_value pts)) in
      let loop =
        Points.point_loop-PointsAt s v buf param def (r ∷ []) (map with_value pts) ((w', []) ∷ []) w
          [] 0 v.valuebuf at (refl, tt) refl refl in
      simp (
        count',
        plain,
        typed',
        new',
        resize_new w' n (new_vector-empty d w' new'),
        swept,
        typed,
        new,
        resize_new w n (new_vector-empty def w new),
        loop.1,
        push_points-with_value pts w' [],
        filled_zero w' (map (λ pt. pt.1) pts),
      )

  -- The values of a trace, found by name, are those of the sweep's points, one for each and in
  -- their order. The values are not in windows, the trace and the first sweep section entry have
  -- types, and the points stand in the file as many as the header says.
  pub get_values-PointsAt :
      (name : Bytes) (traces : TraceSection) (r : DataTypeRef) (d : DataTypeDef) (w' : Vector)
      (pts : List (Scalar × Scalar))
      → s.traces ≡ some traces
      → get_trace_by_name traces name ≡ ok r
      → get_datatype s.types r ≡ ok d
      → new_vector d ≡ ok w'
      → int_property s.header sweep_points_key ≡ ok (pos (length pts))
      → Points.PointsAt s v buf param def (r ∷ []) (map with_value pts) v.valuebuf
      → get_values s v buf name ≡ ok (record w' { values = map (λ pt. pt.1) pts })
  unfolding get_values
  get_values-PointsAt name traces r d w' pts has found typed' new' count at =
      let first : SweepValue → Result Vector =
        λ sv. elim sv.vectors [ [] ↦ err out_of_range | vec ∷ vecs ↦ ok vec ] in
      let read : DataTypeRef → Result Vector =
        λ trace. get_filtered s v buf (trace ∷ []) >>= first in
      ap (λ o. or_throw o undefined >>= (λ ts. get_trace_by_name ts name >>= read)) has
      ∙ ap (λ t. t >>= read) found
      ∙ ap (λ sv. sv >>= first) (one_trace r d w' pts typed' new' at count)
