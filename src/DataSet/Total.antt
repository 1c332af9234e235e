-- ===== src/DataSet/Total.antt =====
-- Whether the constructor and `get_signal` of PSFDataSet (src/psf.cc) end, and the class of the values
-- that they give.
use libpsf.Prelude.{
  ◌≡◌, refl, Bool, true, Option, none, some, get_elem?, Option-cases, inl, inr, if◌then◌else◌,
}
use libpsf.Prelude.Assoc.{bytes_eq, lookup}
use libpsf.Outcome.{
  ok, ◌>>=◌, undefined, not_found, out_of_range, data_set_not_open, Yields, holds, throws,
  Yields-bind, Yields-if, Yields-weaken, Yields-or_throw, Yields-eq,
}
use libpsf.Buffer.{Bytes}
use libpsf.Trace.Total.{Any, TypesSized}
use libpsf.Sweep.{Sections, ValueSectionSweep}
use libpsf.Sweep.Section.{int_property-Yields}
use libpsf.Sweep.Windows.Total.{Forward}
use libpsf.Sweep.Total.{get_values-HasType, get_param_values-HasType}
use libpsf.File
use libpsf.File.{sections_of, PsfFile, OperatingSystem, open_file, new_file}
use libpsf.File.Total.{IsRead, open_file-Yields}
use libpsf.DataSet.{
  DataSet, Signal, null_signal, scalar, get_sweep_values, vector, vectors, new_data_set, invert,
  verify_open, is_swept, header_int, sweeps_key, get_signal, get_signal_vector,
}
use libpsf.NonSweep
use libpsf.Container.{get_child_by_name}
use libpsf.Scalar.{Scalar, struct}
use libpsf.Vector.{Vector, vector_struct}
use libpsf.Vector.Total.{AreMade, vector_struct-Yields}
use libpsf.Vector.Typed.{IsOf}
use libpsf.TypeDef.{DataTypeDef}

-- An open data set has read its file.
abbrev pub IsLoaded : DataSet → Type 0
IsLoaded d = (d.is_open ≡ true) × IsRead d.psf

-- The constructor ends on every file: it gives an open data set that has read its file, or throws.
pub new_data_set-Yields :
    (os : OperatingSystem) (filename : Bytes) → Yields IsLoaded (new_data_set os filename)
unfolding new_data_set new_file
new_data_set-Yields os filename =
    Yields-bind (open_file-Yields os (new_file filename) tt) λ f h. holds (refl, h)

-- Where the values are in windows, no window takes bytes back.
abbrev pub StepsForward : PsfFile → Type 0
StepsForward f =
    (s : Sections) (v : ValueSectionSweep)
    → sections_of f ≡ ok s
    → f.sweepvalues ≡ some v
    → v.windowed ≡ true
    → Forward s

sections_of-Yields : (f : PsfFile) → IsRead f → Yields (λ s. TypesSized s.types) (sections_of f)
unfolding sections_of
sections_of-Yields f read =
    Yields-bind {P = Any} (Yields-or_throw f.header undefined (λ _ _. tt)) λ h _. holds read.sized

-- A vector that some type makes, with values of its own class, if there is a vector
abbrev pub IsMade : Option Vector → Type 0
IsMade none = Unit {0}
IsMade (some vec) = (d : DataTypeDef) × IsOf d vec

-- What `get_signal` returns: no vector, alone or in a struct of vectors, has a value that is not of the
-- vector's class.
abbrev pub IsTypedSignal : Signal → Type 0
IsTypedSignal null_signal = Unit {0}
IsTypedSignal (scalar x) = Unit {0}
IsTypedSignal (vector vec) = (d : DataTypeDef) × IsOf d vec
IsTypedSignal (vectors vs) = AreMade vs.vectors

file_values-IsMade :
    (f : PsfFile) (name : Bytes)
    → IsRead f
    → StepsForward f
    → Yields IsMade (File.get_values f name)
unfolding File.get_values
file_values-IsMade f name read forward = elim (Option-cases f.sweepvalues) [
  | inl none_ ↦ rw none_ (holds tt)
  | inr (v, some_) ↦ rw some_ (
      Yields-bind (Yields-eq (sections_of-Yields f read)) λ s (sized, e).
        Yields-bind {P = Any} (Yields-or_throw f.buffer undefined (λ _ _. tt)) λ buf _.
          Yields-bind (get_values-HasType s v buf sized name (forward s v e some_))
            λ vec (_, _, _, _, (d, _, made)). holds (d, made))
]

invert-IsTypedSignal :
    (inverted : Bool) (vec : Option Vector)
    → IsMade vec
    → Yields IsTypedSignal (invert inverted vec)
unfolding invert
invert-IsTypedSignal inverted none h = holds tt
invert-IsTypedSignal inverted (some vec) h = by_class vec.init
  where
    by_class :
        (x : Scalar)
        → Yields IsTypedSignal (elim x [
          | struct fs ↦
              if inverted then (do vs ← vector_struct vec; ok (vectors vs)) else ok (vector vec)
          | _ ↦ ok (vector vec)
        ])
    by_class (struct fs) =
        Yields-if inverted (λ _. Yields-bind (vector_struct-Yields vec) λ vs all. holds all)
          (λ _. holds h)
    by_class _ = holds h

file_value-Yields : (f : PsfFile) (name : Bytes) → Yields Any (File.get_value f name)
unfolding File.get_value NonSweep.get_value get_child_by_name
file_value-Yields f name =
    Yields-bind {P = Any} (Yields-or_throw f.nonsweepvalues undefined (λ _ _. tt)) λ v _.
      Yields-bind {P = Any}
        (Yields-bind {P = Any} (Yields-or_throw (lookup name v.namemap) not_found (λ _ _. tt))
          λ i _. Yields-or_throw (get_elem? v.children i) out_of_range (λ _ _. tt))
        λ x _. holds tt

verify_open-Yields : (d : DataSet) → Yields Any (verify_open d)
unfolding verify_open
verify_open-Yields d = Yields-if d.is_open (λ _. holds tt) (λ _. throws data_set_not_open)

swept-Yields : (d : DataSet) → Yields Any (is_swept d)
unfolding is_swept header_int File.get_header_properties
swept-Yields d = Yields-bind (verify_open-Yields d) λ _ _.
    Yields-bind {P = Any}
      (Yields-bind {P = Any} (Yields-or_throw d.psf.header undefined (λ _ _. tt))
        λ props _. Yields-weaken (int_property-Yields props sweeps_key) (λ _ _. tt))
      λ n _. holds tt

-- The signal that `get_signal` of an open data set gives is typed: where it is a vector, some type made
-- the vector and all values are of the vector's class; where it is a struct of vectors, so is each of
-- them. It ends for every name, as long as the windows of the file, if its values are in windows, take
-- no bytes back.
pub get_signal-IsTypedSignal :
    (d : DataSet) (name : Bytes)
    → IsLoaded d
    → StepsForward d.psf
    → Yields IsTypedSignal (get_signal d name)
unfolding get_signal get_signal_vector
get_signal-IsTypedSignal d name (o, read) forward = Yields-bind (verify_open-Yields d) λ _ _.
    Yields-bind (swept-Yields d) λ swept _.
      Yields-if swept
        (λ _.
          Yields-bind
            (Yields-bind (verify_open-Yields d) λ _ _. file_values-IsMade d.psf name read forward)
            λ vec made. invert-IsTypedSignal d.invertstruct vec made)
        (λ _. Yields-bind (file_value-Yields d.psf name) λ x _. holds tt)

-- What `get_sweep_values` of an open data set gives is no vector, or one that some type makes with values
-- of the vector's class only. It ends, as long as the windows of the file, if its values are in windows,
-- take no bytes back.
pub get_sweep_values-IsMade :
    (d : DataSet) → IsLoaded d → StepsForward d.psf → Yields IsMade (get_sweep_values d)
unfolding get_sweep_values File.get_param_values
get_sweep_values-IsMade d (o, read) forward = Yields-bind (verify_open-Yields d) λ _ _.
    elim (Option-cases d.psf.sweepvalues) [
      | inl none_ ↦ rw none_ (holds tt)
      | inr (v, some_) ↦ rw some_ (
          Yields-bind (Yields-eq (sections_of-Yields d.psf read)) λ s (sized, e).
            Yields-bind {P = Any} (Yields-or_throw d.psf.buffer undefined (λ _ _. tt)) λ buf _.
              Yields-bind (get_param_values-HasType s v buf sized (forward s v e some_))
                λ vec (_, _, (t, _, made)). holds (t, made))
    ]
