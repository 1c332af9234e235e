-- ===== src/DataSet/Machine.antt =====
-- PSFDataSet of src/psf.cc as a machine of two bits: whether the data set is open, and the flag. What
-- the file holds is read by the constructor, and no sequence of operations changes it.
use libpsf.Prelude.{◌≡◌, refl, sym, ap, ◌∙◌, Bool, true, false, none, List, [], ◌∷◌, if◌then◌else◌}
use mathlib.Core.Path.{subst}
use libpsf.Outcome.{Result, ok, err, stuck, data_set_not_open, file_close_error, ◌>>=◌, >>=-ok}
use libpsf.Buffer.{Bytes}
use libpsf.File.{PsfFile, OperatingSystem, open_file, close_file, unmapped, new_file}
use libpsf.File.Again.{open_file-again}
use libpsf.DataSet.{DataSet, open_set, close_set, new_data_set, set_invertstruct, verify_open}

pub data Operation : Type 0 where
  open_it close_it : Operation
  set_flag : Bool → Operation

pub record Mode : Type 0 where
  pub opened : Bool
  pub inverted : Bool

-- The specification: what an operation does to the two bits
unfoldable pub perform : Bool → Mode → Operation → Result Mode
perform close_succeeds m open_it = ok (record m { opened = true })
perform close_succeeds m close_it =
    if m.opened
    then (if close_succeeds then ok (record m { opened = false }) else err file_close_error)
    else ok m
perform close_succeeds m (set_flag value) =
    if m.opened then ok (record m { inverted = value }) else err data_set_not_open

unfoldable pub perform_all : Bool → Mode → List Operation → Result Mode
perform_all close_succeeds m [] = ok m
perform_all close_succeeds m (op ∷ ops) = do
  m' ← perform close_succeeds m op
  perform_all close_succeeds m' ops

module _ (os : OperatingSystem) where
  -- The operation of the library
  unfoldable pub operate : DataSet → Operation → Result DataSet
  operate d open_it = open_set os d
  operate d close_it = close_set os d
  operate d (set_flag value) = set_invertstruct d value

  unfoldable pub operate_all : DataSet → List Operation → Result DataSet
  operate_all d [] = ok d
  operate_all d (op ∷ ops) = do d' ← operate d op; operate_all d' ops

-- The data set that the two bits stand for, of the file that the constructor read
abbrev pub file_in : PsfFile → Bool → PsfFile
file_in f true = f
file_in f false = record f { is_open = false; buffer = none }

abbrev pub set_in : DataSet → Mode → DataSet
set_in d m = record {
  psf = file_in d.psf m.opened;
  filename = d.filename;
  invertstruct = m.inverted;
  is_open = m.opened;
}

module _ (os : OperatingSystem) (d : DataSet)
    (again : open_file os (file_in d.psf false) ≡ ok d.psf) (opened : d.psf.is_open ≡ true) where
  close_file-opened :
      close_file os d.psf
      ≡ (if os.close_succeeds then ok (file_in d.psf false) else err file_close_error)
  unfolding close_file unmapped
  close_file-opened =
      ap
        (λ b.
          if b
          then (if os.close_succeeds then ok (file_in d.psf false) else err file_close_error)
          else ok (record d.psf { buffer = none }))
        opened

  -- The data set without its file, which an operation puts in
  abbrev around : Bool → Bool → PsfFile → Result DataSet
  around inverted is_open f =
      ok (record { psf = f; filename = d.filename; invertstruct = inverted; is_open = is_open })

  closes_or_throws :
      (close_succeeds inverted : Bool)
      → ((if close_succeeds then ok (file_in d.psf false) else err file_close_error)
          >>= around inverted false)
        ≡ ((if close_succeeds
              then ok (record { opened = false; inverted = inverted })
              else err file_close_error)
            >>= (λ m. ok (set_in d m)))
  closes_or_throws true inverted = refl
  closes_or_throws false inverted = refl

  operate-perform :
      (m : Mode) (op : Operation)
      → operate os (set_in d m) op ≡ (do m' ← perform os.close_succeeds m op; ok (set_in d m'))
  unfolding operate perform open_set close_set close_file unmapped set_invertstruct verify_open
  operate-perform m op = by_bits m.opened op
    where
      by_bits :
          (b : Bool) (op : Operation)
          → operate os (set_in d (record m { opened = b })) op
            ≡ (do m' ← perform os.close_succeeds (record m { opened = b }) op; ok (set_in d m'))
      by_bits true open_it = refl
      by_bits false open_it = ap (λ r. r >>= around m.inverted true) again
      by_bits true close_it =
          ap (λ r. r >>= around m.inverted false) close_file-opened
          ∙ closes_or_throws os.close_succeeds m.inverted
      by_bits false close_it = refl
      by_bits true (set_flag value) = refl
      by_bits false (set_flag value) = refl

  operate_all-perform_all :
      (ops : List Operation) (m : Mode)
      → operate_all os (set_in d m) ops
        ≡ (do m' ← perform_all os.close_succeeds m ops; ok (set_in d m'))
  unfolding operate_all perform_all
  operate_all-perform_all [] m = refl
  operate_all-perform_all (op ∷ ops) m =
      ap (λ r. r >>= (λ d'. operate_all os d' ops)) (operate-perform m op)
      ∙ onwards (λ m'. operate_all-perform_all ops m') (perform os.close_succeeds m op)
    where
      onwards :
          ((m' : Mode)
            → operate_all os (set_in d m') ops
              ≡ (do m'' ← perform_all os.close_succeeds m' ops; ok (set_in d m'')))
          → (r : Result Mode)
          → ((do m' ← r; ok (set_in d m')) >>= (λ d'. operate_all os d' ops))
            ≡ ((do m' ← r; perform_all os.close_succeeds m' ops) >>= (λ m'. ok (set_in d m')))
      onwards rest (ok m') = rest m'
      onwards rest (err e) = refl
      onwards rest stuck = refl

abbrev start : Mode
start = record { opened = true; inverted = false }

-- What the constructor makes is the machine's first state, and its file can be read again.
pub record IsFresh (os : OperatingSystem) (d : DataSet) : Type 0 where
  pub again : open_file os (file_in d.psf false) ≡ ok d.psf
  pub opened : d.psf.is_open ≡ true
  pub whole : set_in d start ≡ d

new_data_set-IsFresh :
    (os : OperatingSystem) (filename : Bytes) (d : DataSet)
    → new_data_set os filename ≡ ok d
    → IsFresh os d
unfolding new_data_set open_set
new_data_set-IsFresh os filename d made =
    let (f, read, e) = >>=-ok (open_file os (new_file filename)) _ made in
    let same : record { psf = f; filename = filename; invertstruct = false; is_open = true } ≡ d =
      cc in
    let (again, opened) = open_file-again os (new_file filename) f false none read in
    subst (IsFresh os) same (record { again = again; opened = opened; whole = refl })

-- After the constructor a data set is the machine of two bits: any sequence of `open`, `close` and
-- changes of the flag gives the data set of the two bits that the specification gives, or throws
-- what the specification throws. The file is read anew by each `open` after a `close`, and is always
-- what the constructor read.
pub new_data_set-perform_all :
    (os : OperatingSystem) (filename : Bytes) (ops : List Operation) (d : DataSet)
    → new_data_set os filename ≡ ok d
    → operate_all os d ops ≡ (do
      m ← perform_all os.close_succeeds (record { opened = true; inverted = false }) ops
      ok (set_in d m))
new_data_set-perform_all os filename ops d made =
    let fresh = new_data_set-IsFresh os filename d made in
    ap (λ c. operate_all os c ops) (sym fresh.whole)
    ∙ operate_all-perform_all os d fresh.again fresh.opened ops start
