-- ===== src/Sweep/Typed.antt =====
-- The types of the vectors of a sweep value (src/psfsweepvalue.cc): each trace has a vector of its type.
use libpsf.Prelude.{◌≡◌, some, List, [], ◌∷◌}
use libpsf.Prelude.Int.{ℤ}
use libpsf.Prelude.Assoc.{int_eq, bytes_eq, lookup}
use libpsf.Outcome.{ok, undefined, Yields, holds, throws, Yields-bind, Yields-or_throw, Yields-eq}
use libpsf.Buffer.{Bytes}
use libpsf.TypeDef.{DataTypeDef}
use libpsf.Trace.{DataTypeRef, get_datatype}
use libpsf.Trace.Total.{Any, TypesSized, get_datatype-Yields}
use libpsf.Vector.{Vector}
use libpsf.Vector.Typed.{IsOf, new_vector-IsOf, resize-IsOf}
use mathlib.Core.Path.{subst}
use libpsf.Sweep.{Sections, ValueSectionSweep, SweepValue, get_valueoffset, paramtype, make_vectors}

-- A vector of the type of the trace, and a vector for each trace
abbrev pub HasType : Sections → DataTypeRef → Vector → Type 0
HasType s r vec = (d : DataTypeDef) × (get_datatype s.types r ≡ ok d) × IsOf d vec

abbrev pub HaveTypes : Sections → List DataTypeRef → List Vector → Type 0
HaveTypes s [] [] = Unit {0}
HaveTypes s (r ∷ rs) (vec ∷ vecs) = HasType s r vec × HaveTypes s rs vecs
HaveTypes s _ _ = ⊥

-- A sweep value with a vector of its type for each trace, and a vector of the type of the parameter
pub record IsTyped (s : Sections) (filter : List DataTypeRef) (d : DataTypeDef) (sv : SweepValue)
    : Type 0 where
  pub traces : HaveTypes s filter sv.vectors
  pub params : IsOf d sv.paramvalues

-- The sweep's parameter is the first of the sweep section.
abbrev pub IsParameter : Sections → DataTypeRef → Type 0
IsParameter s param = (rs : List DataTypeRef) × (s.sweeps ≡ some (param ∷ rs))

abbrev pub AreTyped : Sections → List DataTypeRef → SweepValue → Type 0
AreTyped s filter sv =
    (param : DataTypeRef) × (d : DataTypeDef) × IsParameter s param
    × (get_datatype s.types param ≡ ok d)
    × IsTyped s filter d sv

module _ (s : Sections) (v : ValueSectionSweep) (buf : Bytes) (sized : TypesSized s.types) where
  pub paramtype-Yields : Yields (IsParameter s) (paramtype s v buf)
  unfolding paramtype
  paramtype-Yields =
      Yields-bind (Yields-or_throw s.sweeps undefined (λ rs e. e))
        (elim [ [] ↦ λ _. throws undefined | r ∷ rs ↦ λ e. holds (rs, e) ])

  pub make_vectors-Yields :
      (rs : List DataTypeRef) (n : ℤ) → Yields (HaveTypes s rs) (make_vectors s v buf rs n)
  unfolding make_vectors
  make_vectors-Yields [] n = holds tt
  make_vectors-Yields (r ∷ rs) n =
      Yields-bind (Yields-eq (get_datatype-Yields s.types r sized)) λ d (_, e).
        Yields-bind (new_vector-IsOf d) λ new new_of.
          Yields-bind (resize-IsOf d new n new_of) λ vec vec_of.
            Yields-bind (make_vectors-Yields rs n) λ vecs all. holds ((d, e, vec_of), all)

  pub get_valueoffset-Yields : (id : ℤ) → Yields Any (get_valueoffset v id)
  unfolding get_valueoffset
  get_valueoffset-Yields id = Yields-or_throw (lookup id v.offsetmap) undefined (λ _ _. tt)

  pub same_type :
      (r : DataTypeRef) (vec : Vector) (d : DataTypeDef)
      → HasType s r vec
      → get_datatype s.types r ≡ ok d
      → IsOf d vec
  same_type r vec d (d', e', h) e = let same : d' ≡ d = cc in subst (λ t. IsOf t vec) same h
