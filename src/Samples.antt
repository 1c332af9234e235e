-- ===== src/Samples.antt =====
-- Small files of the format, and runs of the library on them.
use libpsf.Prelude.{ℕ, ◌+◌, true, some, List, [], ◌∷◌, ◌++◌, length}
use libpsf.Prelude.Int.{ℤ, pos}
use libpsf.Outcome.{Result}
use libpsf.Buffer.{Bytes, codes}
use libpsf.Buffer.Words.{to_be}
use libpsf.Scalar.{int32, string}
use libpsf.Scalar.Strings.{encode_string}
use libpsf.Property.{Property}
use libpsf.Property.RoundTrip.{encode_all}
use libpsf.File.{OperatingSystem}
use libpsf.DataSet
use libpsf.DataSet.{DataSet}

abbrev pub word : ℕ → Bytes
word w = to_be 4 w

abbrev pub int_prop : Bytes → ℤ → Property
int_prop name v = record { chunktype = pos 34; name = name; value = int32 v }

abbrev pub text_prop : Bytes → Bytes → Property
text_prop name v = record { chunktype = pos 33; name = name; value = string v }

-- A section at the offset `start` of the file
abbrev simple_section : ℕ → Bytes → Bytes
simple_section start body = word 21 ++ word (start + 8 + length body) ++ body

abbrev indexed_section : ℕ → Bytes → Bytes → Bytes
indexed_section start body index =
    word 21
    ++ word (start + 24 + length body + length index)
    ++ word 22
    ++ word (start + 16 + length body)
    ++ body
    ++ word 19
    ++ word (length index)
    ++ index

abbrev header_at : ℕ → List Property → Bytes
header_at start props = simple_section start (encode_all props)

-- A type of doubles with the properties `props`
abbrev double_type : ℕ → Bytes → List Property → Bytes
double_type id name props =
    word 16 ++ word id ++ encode_string name ++ word 0 ++ word 11 ++ encode_all props

abbrev type_ref : ℕ → Bytes → ℕ → Bytes
type_ref id name typeid = word 16 ++ word id ++ encode_string name ++ word typeid

abbrev sweep_header : Bytes
sweep_header =
    header_at 4
      (int_prop (codes "PSF sweeps") (pos 1) ∷ (int_prop (codes "PSF sweep points") (pos 2) ∷ []))

abbrev sweep_types : Bytes
sweep_types =
    double_type 1 (codes "V") (text_prop (codes "key") (codes "node") ∷ [])
    ++ double_type 2 (codes "s") (text_prop (codes "key") (codes "sweep") ∷ [])

abbrev point : ℕ → ℕ → ℕ → Bytes
point t a b =
    word 16
    ++ word 9
    ++ to_be 8 t
    ++ word 16
    ++ word 5
    ++ to_be 8 a
    ++ word 16
    ++ word 6
    ++ to_be 8 b

abbrev table_entry : ℕ → ℕ → Bytes
table_entry n offset = word n ++ word offset

-- A sweep of two points with two traces
abbrev pub sweep_file : Bytes
sweep_file =
    let s0 = word 512 ++ sweep_header in
    let s1 = s0 ++ indexed_section (length s0) sweep_types [] in
    let s2 = s1 ++ simple_section (length s1) (type_ref 9 (codes "time") 2) in
    let traces = type_ref 5 (codes "a") 1 ++ type_ref 6 (codes "b") 1 in
    let s3 = s2 ++ indexed_section (length s2) traces [] in
    let s4 = s3 ++ simple_section (length s3) (point 100 1 2 ++ point 101 3 4) in
    s4
    ++ table_entry 0 4
    ++ table_entry 1 (length s0)
    ++ table_entry 2 (length s1)
    ++ table_entry 3 (length s2)
    ++ table_entry 4 (length s3)
    ++ codes "Clarissa"
    ++ word (length s4)

abbrev pub disk : OperatingSystem
disk = record { content = λ name. some sweep_file; close_succeeds = true }

abbrev pub sweep_set : Result DataSet
sweep_set = DataSet.new_data_set disk (codes "tran")
