-- ===== src/DataSet/Reach.antt =====
-- The states that a PSFDataSet reaches: its constructor, and then any `open`, `close` and change of
-- the flag, and a `close` that throws. What an `open` that throws leaves is not modelled.
use libpsf.Prelude.{arith, ◌≡◌, refl, Bool, true, false, none}
use libpsf.Outcome.{
  Error, ok, err, Yields, Yields-ok, Yields-if, Yields-bind, holds, throws, data_set_not_open,
  file_close_error,
}
use libpsf.Buffer.{Bytes}
use libpsf.Trace.Total.{TypesSized, Any}
use libpsf.File.{PsfFile, OperatingSystem, close_file, unmapped}
use libpsf.File.Total.{IsRead, open_file-Yields}
use libpsf.DataSet.{
  DataSet, open_set, close_set, left_by_close, new_data_set, set_invertstruct, verify_open,
}
use libpsf.DataSet.Total.{new_data_set-Yields}

module _ (os : OperatingSystem) where
  pub data Step (d : DataSet) : DataSet → Type 0 where
    opens : {c : DataSet} → open_set os d ≡ ok c → Step d c
    closes : {c : DataSet} → close_set os d ≡ ok c → Step d c
    fails : {e : Error} → close_set os d ≡ err e → Step d (left_by_close d)
    sets : {c : DataSet} (value : Bool) → set_invertstruct d value ≡ ok c → Step d c

  pub data Reachable : DataSet → Type 0 where
    made : {d : DataSet} (filename : Bytes) → new_data_set os filename ≡ ok d → Reachable d
    step : {d c : DataSet} → Reachable d → Step d c → Reachable c

-- An open data set has read its file, which is open and mapped; one that is closed has no mapping
-- and no open file. Where `close` of the system fails, an open data set may have an open file that is
-- no longer mapped. The types that are read have the sizes of their parts in all.
pub data IsConsistent (os : OperatingSystem) (d : DataSet) : Type 0 where
  is_loaded : d.is_open ≡ true → IsRead d.psf → IsConsistent os d
  is_closed :
      d.is_open ≡ false
      → d.psf.is_open ≡ false
      → d.psf.buffer ≡ none
      → TypesSized d.psf.types
      → IsConsistent os d
  is_stranded :
      os.close_succeeds ≡ false
      → d.is_open ≡ true
      → d.psf.is_open ≡ true
      → d.psf.buffer ≡ none
      → TypesSized d.psf.types
      → IsConsistent os d

types_of : {os : OperatingSystem} {d : DataSet} → IsConsistent os d → TypesSized d.psf.types
types_of (is_loaded o read) = read.sized
types_of (is_closed c fc m sized) = sized
types_of (is_stranded f o fo m sized) = sized

open_set-Yields :
    (os : OperatingSystem) (d : DataSet)
    → IsConsistent os d
    → Yields (IsConsistent os) (open_set os d)
unfolding open_set
open_set-Yields os d h =
    Yields-if d.is_open (λ o. holds h)
      λ c.
        Yields-bind (open_file-Yields os d.psf (types_of h)) λ f read. holds (is_loaded refl read)

close_file-Yields :
    (os : OperatingSystem) (f : PsfFile)
    → Yields (λ g. (g.types ≡ f.types) × (g.is_open ≡ false) × (g.buffer ≡ none)) (close_file os f)
unfolding close_file unmapped
close_file-Yields os f =
    Yields-if f.is_open
      (λ _.
        Yields-if os.close_succeeds (λ _. holds (refl, refl, refl)) (λ _. throws file_close_error))
      (λ c. holds (refl, c, refl))

close_set-Yields :
    (os : OperatingSystem) (d : DataSet)
    → IsConsistent os d
    → Yields (IsConsistent os) (close_set os d)
unfolding close_set
close_set-Yields os d h =
    Yields-if d.is_open
      (λ o.
        Yields-bind (close_file-Yields os d.psf)
          λ f (types, closed, gone). holds (is_closed refl closed gone (rw types (types_of h))))
      (λ c. holds h)

-- A `close` that throws has found an open data set with an open file, and the system failed.
close_set-throws :
    (os : OperatingSystem) (d : DataSet) (e : Error)
    → close_set os d ≡ err e
    → (d.is_open ≡ true) × (d.psf.is_open ≡ true) × (os.close_succeeds ≡ false)
unfolding close_set close_file
close_set-throws os d e thrown = ground arith

left_by_close-IsConsistent :
    (os : OperatingSystem) (d : DataSet) (e : Error)
    → IsConsistent os d
    → close_set os d ≡ err e
    → IsConsistent os (left_by_close d)
unfolding left_by_close unmapped
left_by_close-IsConsistent os d e h thrown =
    let (o, fo, f) = close_set-throws os d e thrown in is_stranded f o fo refl (types_of h)

same_file :
    {os : OperatingSystem} {d : DataSet} {value : Bool}
    → IsConsistent os d
    → IsConsistent os (record d { invertstruct = value })
same_file (is_loaded o read) = is_loaded o read
same_file (is_closed c fc m sized) = is_closed c fc m sized
same_file (is_stranded f o fo m sized) = is_stranded f o fo m sized

set_invertstruct-Yields :
    (os : OperatingSystem) (d : DataSet) (value : Bool)
    → IsConsistent os d
    → Yields (IsConsistent os) (set_invertstruct d value)
unfolding set_invertstruct verify_open
set_invertstruct-Yields os d value h =
    Yields-bind {P = Any} (Yields-if d.is_open (λ _. holds tt) (λ _. throws data_set_not_open))
      λ u _. holds (same_file h)

-- Whatever sequence of `open`, `close` and changes of the flag that return, and of `close` that throw,
-- follows the constructor: a closed data set has neither an open file nor a mapping, and an open one
-- has its file open, mapped and read; but where the system's `close` fails, an open data set may have
-- an open file without a mapping.
pub Reachable-IsConsistent :
    (os : OperatingSystem) (d : DataSet) → Reachable os d → IsConsistent os d
Reachable-IsConsistent os d (made filename e) =
    let (o, read) = Yields-ok (new_data_set-Yields os filename) e in is_loaded o read
Reachable-IsConsistent os c (step {d} r (opens e)) =
    Yields-ok (open_set-Yields os d (Reachable-IsConsistent os d r)) e
Reachable-IsConsistent os c (step {d} r (closes e)) =
    Yields-ok (close_set-Yields os d (Reachable-IsConsistent os d r)) e
Reachable-IsConsistent os c (step {d} r (fails {e} thrown)) =
    left_by_close-IsConsistent os d e (Reachable-IsConsistent os d r) thrown
Reachable-IsConsistent os c (step {d} r (sets value e)) =
    Yields-ok (set_invertstruct-Yields os d value (Reachable-IsConsistent os d r)) e
