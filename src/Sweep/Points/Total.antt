-- ===== src/Sweep/Points/Total.antt =====
-- The fuel of SweepValueSimple::deserialize of src/psfsweepvalue.cc, and the types of its vectors.
use libpsf.Prelude.{ℕ, zero, suc, ◌+◌, List, [], ◌∷◌}
use libpsf.Prelude.Int.{ℤ, pos}
use libpsf.Prelude.Assoc.{◌==◌, int_eq, bytes_eq}
use libpsf.Outcome.{
  out_of_range, assert_failed, Yields, holds, throws, Yields-bind, Yields-if, Yields-eq,
}
use libpsf.Buffer.{Bytes}
use libpsf.Buffer.Words.{get_int32-Yields}
use libpsf.Chunk.Laws.{chunk_deserialize-Yields}
use libpsf.TypeDef.{DataTypeDef}
use libpsf.TypeDef.Fuel.{IsSized}
use libpsf.Trace.{DataTypeRef}
use libpsf.Trace.Total.{TypesSized, get_datatype-Yields}
use libpsf.Vector.{Vector}
use libpsf.Vector.Typed.{new_vector-IsOf, resize-IsOf, store_at-IsOf, deserialize_data-IsClass}
use libpsf.Sweep.{
  Sections, ValueSectionSweep, SweepValue, read_traces, point_loop, count_of, simple_values,
}
use libpsf.Sweep.Section.{seek-Yields}
use libpsf.Sweep.Typed.{
  HaveTypes, IsTyped, AreTyped, paramtype-Yields, make_vectors-Yields, get_valueoffset-Yields,
  same_type,
}

module _ (s : Sections) (v : ValueSectionSweep) (buf : Bytes) (sized : TypesSized s.types) where
  read_traces-Yields :
      (rs : List DataTypeRef) (vecs : List Vector) (i p : ℕ)
      → HaveTypes s rs vecs
      → Yields (HaveTypes s rs) (read_traces s v buf rs vecs i p)
  unfolding read_traces
  read_traces-Yields [] [] i p h = holds tt
  read_traces-Yields [] (vec ∷ vecs) i p h = absurd h
  read_traces-Yields (r ∷ rs) [] i p h = throws out_of_range
  read_traces-Yields (r ∷ rs) (vec ∷ vecs) i p (has, h) =
      Yields-bind (get_valueoffset-Yields s v buf sized r.id) λ offset _.
        Yields-bind (seek-Yields p offset) λ q _.
          Yields-bind (Yields-eq (get_datatype-Yields s.types r sized)) λ d (known, e).
            let vec_of = same_type s v buf sized r vec d has e in
            Yields-bind (deserialize_data-IsClass d vec buf q known vec_of) λ (x, n) (c, _).
              Yields-bind (store_at-IsOf d vec i x vec_of c) λ vec' vec'_of.
                Yields-bind (read_traces-Yields rs vecs i p h)
                  λ vecs' all. holds ((d, e, vec'_of), all)

  point_loop-Yields :
      (param : DataTypeRef) (d : DataTypeDef) (filter : List DataTypeRef) (rounds i p : ℕ)
      (sv : SweepValue)
      → IsSized d
      → IsTyped s filter d sv
      → Yields
          (λ (sv', q). IsTyped s filter d sv')
          (point_loop s v buf param d filter rounds i p sv)
  unfolding point_loop
  point_loop-Yields param d filter zero i p sv h t = holds t
  point_loop-Yields param d filter (suc rounds) i p sv h t =
      Yields-bind (chunk_deserialize-Yields (pos 16) buf p) λ _ _.
        Yields-bind (get_int32-Yields buf (p + 4)) λ id _.
          Yields-if (id == param.id)
            (λ _.
              Yields-bind (deserialize_data-IsClass d sv.paramvalues buf (p + 8) h t.params)
                λ (x, n) (c, _).
                  Yields-bind (store_at-IsOf d sv.paramvalues i x t.params c) λ params params_of.
                    Yields-bind (read_traces-Yields filter sv.vectors i (p + 8 + n) t.traces)
                      λ vecs all. Yields-bind (seek-Yields (p + 8 + n) v.valuesize) λ next _.
                        point_loop-Yields param d filter rounds (i + 1) next
                          (record { vectors = vecs; paramvalues = params }) h
                          (record { traces = all; params = params_of }))
            (λ _. throws assert_failed)

  pub simple_values-Yields :
      (filter : List DataTypeRef) (n : ℤ)
      → Yields (AreTyped s filter) (simple_values s v buf filter n)
  unfolding simple_values
  simple_values-Yields filter n =
      Yields-bind (make_vectors-Yields s v buf sized filter n) λ vecs all.
        Yields-bind (paramtype-Yields s v buf sized) λ param first.
          Yields-bind (Yields-eq (get_datatype-Yields s.types param sized)) λ d (h, e).
            Yields-bind (new_vector-IsOf d) λ new new_of.
              Yields-bind (resize-IsOf d new n new_of) λ params params_of.
                Yields-bind
                  (point_loop-Yields param d filter (count_of s v buf n) 0 v.valuebuf _ h
                    (record { traces = all; params = params_of }))
                  λ (sv, p) t. holds (param, d, first, e, t)
