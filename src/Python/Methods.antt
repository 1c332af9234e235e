-- ===== src/Python/Methods.antt =====
-- The methods of the class PSFDataSet of bindings/python/psfpython.cc: a data set and its conversion.
use libpsf.Prelude.{
  ℕ, suc, ◌≡◌, refl, sym, ap, ◌∙◌, false, true, none, some, List, [], ◌∷◌, map, All,
}
use mathlib.Core.Path.{subst, fun_ext}
use libpsf.Prelude.Int.{pos}
use libpsf.Outcome.{or_throw, undefined, ok, >>=-ok, ◌>>=◌}
use libpsf.Buffer.{Bytes}
use libpsf.Scalar.{double}
use libpsf.Property.{Property, PropertyBlock, empty_block, append_prop}
use libpsf.Property.RoundTrip.{append_all}
use libpsf.Property.Lookup.{last_value, lookup-append_all}
use libpsf.Trace.{header_deserialize}
use libpsf.Trace.Header.{header_deserialize-append_all}
use libpsf.TypeDef.{StructDef}
use libpsf.Vector.{Vector}
use libpsf.Sweep
use libpsf.Sweep.{Sections, ValueSectionSweep, int_property}
use libpsf.File
use libpsf.Prelude.Assoc.{bytes_eq, lookup}
use libpsf.DataSet
use libpsf.DataSet.{DataSet, sweeps_key}
use libpsf.DataSet.Signals.{IsSweepSet, get_signal-IsSweepSet, get_sweep_values-IsSweepSet}
use libpsf.Python.{
  Interpreter, c_string, map_order, scalar_to_python, propmap_to_python, base_to_python,
  py_get_signal, py_get_sweep_values, py_get_header_properties,
}
use libpsf.Python.Dicts.{DictLaws, Holds, propmap_to_python-Holds, last_entry}
use libpsf.Python.Order.{AreNames, insert-AreNames, last_entry-lookup, map_order-AreNames}
use libpsf.Python.Vectors.{vector_to_numpyarray-numbers}

append_all-AreNames :
    (props : List Property) (b : PropertyBlock)
    → All (λ prop. c_string prop.name ≡ prop.name) props
    → AreNames b.propmap
    → AreNames (append_all b props).propmap
unfolding append_prop
append_all-AreNames [] b plain h = h
append_all-AreNames (prop ∷ props) b (p, plain) h =
    append_all-AreNames props (append_prop b prop) plain
      (insert-AreNames prop.name prop.value b.propmap p h)

module _ (I : Interpreter) (L : DictLaws I) where
  -- The header properties in Python: a dictionary that has under each name the value, converted, of
  -- the last property of that name in the header, and nothing under a name that no property has. The
  -- header was read from a file, and no name has a NUL.
  pub py_get_header_properties-Holds :
      (d : DataSet) (b : PropertyBlock) (buf : Bytes) (start abspos n : ℕ) (dict : I.Object)
      → d.psf.header ≡ some b
      → header_deserialize buf start abspos ≡ ok (b, n)
      → All (λ prop. c_string prop.name ≡ prop.name) b.proplist
      → py_get_header_properties I d ≡ ok dict
      → Holds I L (scalar_to_python I) dict (λ name. last_value name none b.proplist)
  unfolding py_get_header_properties DataSet.get_header_properties File.get_header_properties lookup
  py_get_header_properties-Holds d b buf start abspos n dict header read plain e =
      let made = header_deserialize-append_all buf start abspos n b read in
      let names : AreNames b.propmap =
        subst (λ c. AreNames c.propmap) (sym made)
          (append_all-AreNames b.proplist empty_block plain tt) in
      let (props, got, e₁) = >>=-ok (DataSet.get_header_properties d) _ e in
      let (u, _, e₂) = >>=-ok (DataSet.verify_open d) _ got in
      let e₃ : ok b.propmap ≡ ok props =
        ap (λ o. do block ← or_throw o undefined; ok block.propmap) (sym header) ∙ e₂ in
      let dict_of : propmap_to_python I b.propmap ≡ ok dict =
        (let same : b.propmap ≡ props = cc in rw same e₁) in
      let (ordered, found_in) = map_order-AreNames b.propmap names in
      let found : (λ (name : Bytes). last_entry name none (map_order b.propmap))
          ≡ (λ (name : Bytes). last_value name none b.proplist) =
        fun_ext (λ name.
          last_entry-lookup name (map_order b.propmap) ordered
          ∙ found_in name
          ∙ ap (λ (c : PropertyBlock). lookup name c.propmap) made
          ∙ lookup-append_all name empty_block b.proplist) in
      subst (Holds I L (scalar_to_python I) dict) found
        (propmap_to_python-Holds I L b.propmap dict dict_of)

module _ (I : Interpreter) (d : DataSet) (s : Sections) (v : ValueSectionSweep) (buf : Bytes)
    (h : IsSweepSet d s v buf) where
  -- A signal of doubles, of at least one point, is in Python the array of its values, in order; so
  -- are the values of the sweep's parameter. The data set is open, with a sweep, and the values are
  -- those that the value section gives.
  pub py_get_signal-doubles :
      (name : Bytes) (count b₀ b : ℕ) (bs : List ℕ) (sd : StructDef)
      → int_property s.header sweeps_key ≡ ok (pos (suc count))
      → Sweep.get_values s v buf name
        ≡ ok (record { init = double b₀; definition = sd; values = map double (b ∷ bs) })
      → py_get_signal I d name ≡ ok (some (I.double_array (b ∷ bs)))
  unfolding py_get_signal base_to_python DataSet.invert
  py_get_signal-doubles name count b₀ b bs sd swept e =
      let vec : Vector = record {
        init = double b₀;
        definition = sd;
        values = map double (b ∷ bs);
      } in
      let numbers = vector_to_numpyarray-numbers I sd true b₀ b bs (0, 0) (0, 0) [] in
      rw (get_signal-IsSweepSet d s v buf h name count vec swept e, numbers.0) refl

  pub py_get_sweep_values-doubles :
      (b₀ b : ℕ) (bs : List ℕ) (sd : StructDef)
      → Sweep.get_param_values s v buf
        ≡ ok (record { init = double b₀; definition = sd; values = map double (b ∷ bs) })
      → py_get_sweep_values I d ≡ ok (some (I.double_array (b ∷ bs)))
  unfolding py_get_sweep_values
  py_get_sweep_values-doubles b₀ b bs sd e =
      let vec : Vector = record {
        init = double b₀;
        definition = sd;
        values = map double (b ∷ bs);
      } in
      let numbers = vector_to_numpyarray-numbers I sd false b₀ b bs (0, 0) (0, 0) [] in
      rw (get_sweep_values-IsSweepSet d s v buf h vec e, numbers.0) refl
