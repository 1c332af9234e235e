-- ===== src/NonSweep/Total.antt =====
-- The fuel of the readers of src/psfnonsweepvalue.cc.
use libpsf.Prelude.{ℕ, ◌+◌, Option, some, arith}
use mathlib.Core.Path.{subst}
use libpsf.Prelude.Int.{ℤ, pos, negsuc}
use libpsf.Prelude.Assoc.{◌==◌, int_eq, lookup}
use libpsf.Outcome.{
  incorrect_chunk, undefined, Yields, holds, throws, Yields-bind, Yields-if, Yields-weaken,
  Yields-or_throw, Yields-of,
}
use libpsf.Buffer.{Bytes}
use libpsf.Buffer.Words.{get_int32-Yields}
use libpsf.Scalar.Strings.{string_deserialize-Yields}
use libpsf.Chunk.Laws.{Allows, chunk_deserialize-Yields}
use libpsf.Property.{empty_block}
use libpsf.Property.Fuel.{block_deserialize-Yields}
use libpsf.TypeDef.{new_scalar}
use libpsf.TypeDef.Values.{deserialize_data-Yields}
use libpsf.Container.{get_child_by_id}
use libpsf.Container.Index.{IsIndexed}
use libpsf.Container.Fuel.{Child, indexed_deserialize-Yields}
use libpsf.Trace.{TypeSection}
use libpsf.Trace.Total.{Any, TypesSized}
use libpsf.NonSweep.{
  NonSweepValue, typeid_of, value_deserialize, nonsweep_factory, nonsweep_deserialize,
}

new_scalar-Yields : (typeid : ℤ) → Yields Any (new_scalar typeid)
new_scalar-Yields typeid =
    Yields-of (new_scalar typeid) (unfold new_scalar in ground arith) (λ _ _. tt)

module _ (types : Option TypeSection) (sized : TypesSized types) where
  value_deserialize-Yields :
      (buf : Bytes) (p : ℕ) → Yields (Child {C = NonSweepValue} Any) (value_deserialize types buf p)
  unfolding value_deserialize get_child_by_id
  value_deserialize-Yields buf p = Yields-bind (chunk_deserialize-Yields (negsuc 0) buf p) λ _ _.
      Yields-bind (get_int32-Yields buf (p + 4)) λ id _.
        Yields-bind (string_deserialize-Yields buf (p + 8)) λ (name, n) _.
          Yields-bind (get_int32-Yields buf (p + 8 + n)) λ typeid _.
            Yields-bind {P = λ s. TypesSized (some s)}
              (Yields-or_throw types undefined (λ s e. subst TypesSized e sized))
              λ s found.
                Yields-bind
                  (Yields-or_throw (lookup typeid s.idmap) undefined (λ d e. found typeid d e))
                  λ d h. Yields-bind (new_scalar-Yields (typeid_of d)) λ _ _.
                    Yields-bind (deserialize_data-Yields d buf (p + 12 + n) h) λ (v, m) _.
                      Yields-bind (block_deserialize-Yields empty_block buf (p + 12 + n + m))
                        λ (props, k) _. holds (tt, omega arith)

  nonsweep_factory-Allows :
      (buf : Bytes) (p : ℕ) (t : ℤ)
      → Yields (Allows (Child {C = NonSweepValue} Any) buf p) (nonsweep_factory types t)
  unfolding nonsweep_factory
  nonsweep_factory-Allows buf p t =
      Yields-if (t == pos 16) (λ _. holds λ _. value_deserialize-Yields buf p)
        (λ _. throws (incorrect_chunk t))

  pub nonsweep_deserialize-Yields :
      (buf : Bytes) (start abspos : ℕ)
      → Yields
          (λ (s, r). IsIndexed (λ v. negsuc 0) (λ v. v.name) s)
          (nonsweep_deserialize types buf start abspos)
  unfolding nonsweep_deserialize
  nonsweep_deserialize-Yields buf start abspos =
      Yields-weaken
        (indexed_deserialize-Yields Any (nonsweep_factory types) buf start abspos
          (nonsweep_factory-Allows buf) (λ v. negsuc 0) (λ v. v.name) (negsuc 0) 2)
        λ (s, r) (_, indexed). indexed
