-- ===== src/Sweep/Windows/Total.antt =====
-- The fuel of SweepValueWindowed::deserialize of src/psfsweepvalue.cc, and the types of its vectors.
use libpsf.Prelude.{
  ℕ, zero, suc, ◌+◌, ◌%◌, ◌^◌, ◌<◌, ◌≤◌, ◌≡◌, ◌∙◌, Bool-cases, inl, inr, List, [], ◌∷◌, length,
  arith,
}
use libpsf.Prelude.Int.{ℤ, pos, ◌+ℤ◌, ◌*ℤ◌, leb_ℤ}
use libpsf.Prelude.Assoc.{int_eq, bytes_eq}
use libpsf.Outcome.{
  ok, undefined, Yields, holds, throws, Yields-bind, Yields-weaken, Yields-eq, mul_int-Yields,
  add_int-Yields, sub_int-Yields,
}
use libpsf.Buffer.{Bytes}
use libpsf.Buffer.Words.{get_uint32-Yields}
use libpsf.Chunk.Laws.{chunk_deserialize-Yields}
use libpsf.TypeDef
use libpsf.TypeDef.{DataTypeDef}
use libpsf.TypeDef.Fuel.{IsSized}
use libpsf.Trace.{DataTypeRef}
use libpsf.Trace.Total.{TypesSized, get_datatype-Yields}
use libpsf.Vector.{Vector}
use libpsf.Vector.Typed.{
  IsOf, new_vector-IsOf, resize-IsOf, store_at-IsOf, deserialize_data-IsClass,
}
use libpsf.Sweep.{
  Sections, ValueSectionSweep, SweepValue, int_property, window_size_key, traces_key, read_run,
  window_traces, window_loop, windowed_values,
}
use libpsf.Sweep.Section.{seek-Yields, int_property-Yields}
use libpsf.Sweep.Typed.{
  HaveTypes, IsTyped, AreTyped, paramtype-Yields, make_vectors-Yields, get_valueoffset-Yields,
  same_type,
}

pub pos-ahead : (q k next : ℕ) (d : ℤ) → pos next ≡ pos q +ℤ d → d ≡ pos k → next ≡ q + k
pos-ahead q k next d e same = ground arith

-- A window does not move the position back.
abbrev pub Forward : Sections → Type 0
Forward s =
    (windowsize ntraces : ℤ)
    → int_property s.header window_size_key ≡ ok windowsize
    → int_property s.header traces_key ≡ ok ntraces
    → (k : ℕ) × (ntraces *ℤ windowsize ≡ pos k)

module _ (s : Sections) (v : ValueSectionSweep) (buf : Bytes) (sized : TypesSized s.types) where
  read_run-Yields :
      (d : DataTypeDef) (n j p : ℕ) (vec : Vector)
      → IsSized d
      → IsOf d vec
      → Yields (λ (vec', q). IsOf d vec' × (p ≤ q)) (read_run s v buf d n j p vec)
  unfolding read_run
  read_run-Yields d zero j p vec h vec_of = holds (vec_of, omega arith)
  read_run-Yields d (suc n) j p vec h vec_of =
      Yields-bind (deserialize_data-IsClass d vec buf p h vec_of) λ (x, m) (c, _).
        Yields-bind (store_at-IsOf d vec j x vec_of c) λ vec' vec'_of.
          Yields-weaken (read_run-Yields d n (j + 1) (p + m) vec' h vec'_of)
            (λ (w, q) (w_of, le). (w_of, omega arith))

  window_traces-Yields :
      (windowsize : ℤ) (rs : List DataTypeRef) (vecs : List Vector) (i n p : ℕ)
      → HaveTypes s rs vecs
      → Yields (HaveTypes s rs) (window_traces s v buf windowsize rs vecs i n p)
  unfolding window_traces
  window_traces-Yields windowsize [] [] i n p h = holds tt
  window_traces-Yields windowsize [] (vec ∷ vecs) i n p h = absurd h
  window_traces-Yields windowsize (r ∷ rs) [] i n p h = throws undefined
  window_traces-Yields windowsize (r ∷ rs) (vec ∷ vecs) i n p (has, h) =
      Yields-bind (get_valueoffset-Yields s v buf sized r.id) λ offset _.
        Yields-bind (Yields-eq (get_datatype-Yields s.types r sized)) λ d (known, e).
          Yields-bind (mul_int-Yields (pos n) (pos (TypeDef.datasize d))) λ used _.
            Yields-bind (sub_int-Yields windowsize used) λ skip _.
              Yields-bind (seek-Yields p (offset +ℤ skip)) λ q _.
                Yields-bind
                  (read_run-Yields d n i q vec known (same_type s v buf sized r vec d has e))
                  λ (vec', q') (vec'_of, _).
                    Yields-bind (window_traces-Yields windowsize rs vecs i n p h)
                      λ vecs' all. holds ((d, e, vec'_of), all)

  window_loop-Yields :
      (windowsize ntraces totaln : ℤ) (d : DataTypeDef) (filter : List DataTypeRef) (k fuel i p : ℕ)
      (sv : SweepValue)
      → IsSized d
      → ntraces *ℤ windowsize ≡ pos k
      → length buf < p + fuel
      → 0 < fuel
      → IsTyped s filter d sv
      → Yields
          (λ (sv', q). IsTyped s filter d sv')
          (window_loop s v buf windowsize ntraces d filter totaln fuel i p sv)
  unfolding window_loop
  window_loop-Yields windowsize ntraces totaln d filter k zero i p sv h e room z t =
      absurd (omega arith)
  window_loop-Yields windowsize ntraces totaln d filter k (suc fuel) i p sv h e room z t =
      elim (Bool-cases (leb_ℤ totaln (pos i))) [
        | inl done ↦ rw (done, window_loop) (holds t)
        | inr more ↦
            rw (more, window_loop)
              (Yields-bind (chunk_deserialize-Yields (pos 16) buf p) λ _ (_, le).
                Yields-bind (get_uint32-Yields buf (p + 4)) λ tmp _.
                  Yields-bind
                    (resize-IsOf d sv.paramvalues
                      (pos (length sv.paramvalues.values + tmp % 2 ^ 16)) t.params)
                    λ grown grown_of.
                      Yields-bind
                        (read_run-Yields d (tmp % 2 ^ 16) (length sv.paramvalues.values) (p + 8)
                          grown h grown_of)
                        λ (params, q) (params_of, on).
                          Yields-bind
                            (window_traces-Yields windowsize filter sv.vectors i (tmp % 2 ^ 16) q
                              t.traces)
                            λ vecs all. Yields-bind (mul_int-Yields ntraces windowsize) λ size same.
                              Yields-bind (seek-Yields q size) λ next at.
                                let ahead : next ≡ q + k = pos-ahead q k next size at (same ∙ e) in
                                Yields-bind (add_int-Yields (pos i) (pos (tmp % 2 ^ 16)))
                                  λ counted _.
                                    window_loop-Yields windowsize ntraces totaln d filter k fuel
                                      (i + tmp % 2 ^ 16) next
                                      (record { vectors = vecs; paramvalues = params }) h e
                                      (omega arith) (omega arith)
                                      (record { traces = all; params = params_of }))
      ]

  pub windowed_values-Yields :
      (filter : List DataTypeRef) (totaln : ℤ)
      → Forward s
      → Yields (AreTyped s filter) (windowed_values s v buf filter totaln)
  unfolding windowed_values
  windowed_values-Yields filter totaln forward =
      Yields-bind (int_property-Yields s.header window_size_key) λ windowsize w.
        Yields-bind (int_property-Yields s.header traces_key) λ ntraces t.
          let (k, e) = forward windowsize ntraces w t in
          Yields-bind (paramtype-Yields s v buf sized) λ param first.
            Yields-bind (Yields-eq (get_datatype-Yields s.types param sized)) λ d (h, known).
              Yields-bind (new_vector-IsOf d) λ params params_of.
                Yields-bind (make_vectors-Yields s v buf sized filter totaln) λ vecs all.
                  Yields-bind
                    (window_loop-Yields windowsize ntraces totaln d filter k (suc (length buf)) 0
                      v.valuebuf (record { vectors = vecs; paramvalues = params }) h e (omega arith)
                      (omega arith) (record { traces = all; params = params_of }))
                    λ (sv, p) t. holds (param, d, first, known, t)
