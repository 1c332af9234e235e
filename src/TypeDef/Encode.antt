-- ===== src/TypeDef/Encode.antt =====
-- The bytes of a type in a file, and where its parts stand.
use libpsf.Prelude.{ℕ, ◌+◌, ◌^◌, ◌<◌, ◌≡◌, refl, [], ◌++◌, All, length, length-append, arith}
use libpsf.Prelude.Int.{ℤ, pos, InInt}
use libpsf.Prelude.Assoc.{int_eq}
use libpsf.Outcome.{ok}
use libpsf.Buffer.{Bytes}
use libpsf.Buffer.At.{At, At-then}
use libpsf.Buffer.Words.{encode_int, length-encode_int}
use libpsf.Scalar.{typeid_struct}
use libpsf.Scalar.Strings.{encode_string}
use libpsf.Property.{PropertyBlock, empty_block}
use libpsf.Property.RoundTrip.{IsProperty, append_all, encode_all}
use libpsf.TypeDef.{
  DataTypeDef, datatypedef, StructDef, null, structdef, Children, nil, cons, datasize, psfdata_size,
}

unfoldable mutual
  pub encode_def : DataTypeDef → Bytes
  encode_def (datatypedef id name typeid props sd size) =
      encode_int (pos 16)
      ++ (encode_int id
          ++ (encode_string name
              ++ (encode_int (pos 0)
                  ++ (encode_int typeid ++ (encode_struct sd ++ encode_all props.proplist)))))

  pub encode_struct : StructDef → Bytes
  encode_struct null = []
  encode_struct (structdef children size) = encode_children children

  -- The children and the end marker
  pub encode_children : Children → Bytes
  encode_children nil = encode_int (pos 18)
  encode_children (cons d ds) = encode_def d ++ encode_children ds

-- A block that its own list of properties makes.
abbrev pub IsBlock : PropertyBlock → Type 0
IsBlock b = All IsProperty b.proplist × (append_all empty_block b.proplist ≡ b)

-- The fields fit the format, and the sizes are those of the parts.
abbrev mutual
  pub IsEncodable : DataTypeDef → Type 0
  IsEncodable (datatypedef id name typeid props sd size) =
      InInt id
      × (length name < 2 ^ 31)
      × InInt typeid
      × IsBlock props
      × IsEncodableStruct sd typeid size

  pub IsEncodableStruct : StructDef → ℤ → ℕ → Type 0
  IsEncodableStruct null typeid size = psfdata_size typeid ≡ ok size
  IsEncodableStruct (structdef children sum) typeid size =
      (typeid ≡ typeid_struct) × (size ≡ sum) × IsEncodableAll children sum

  pub IsEncodableAll : Children → ℕ → Type 0
  IsEncodableAll nil size = size ≡ 0
  IsEncodableAll (cons d ds) size =
      IsEncodable d × ((rest : ℕ) × (datasize d + rest ≡ size) × IsEncodableAll ds rest)

pub length-encode_def :
    (id : ℤ) (name : Bytes) (typeid : ℤ) (props : PropertyBlock) (sd : StructDef) (size : ℕ)
    → 16
        + length (encode_string name)
        + length (encode_struct sd)
        + length (encode_all props.proplist)
      ≡ length (encode_def (datatypedef id name typeid props sd size))
unfolding encode_def
length-encode_def id name typeid props sd size =
    let block = encode_all props.proplist in
    let b = encode_struct sd ++ block in
    let c = encode_int typeid ++ b in
    let d = encode_int (pos 0) ++ c in
    let e = encode_string name ++ d in
    omega (
      arith,
      length-append (encode_int (pos 16)) (encode_int id ++ e),
      length-append (encode_int id) e,
      length-append (encode_string name) d,
      length-append (encode_int (pos 0)) c,
      length-append (encode_int typeid) b,
      length-append (encode_struct sd) block,
      length-encode_int (pos 16),
      length-encode_int id,
      length-encode_int (pos 0),
      length-encode_int typeid,
    )

pub length-encode_def_pos : (d : DataTypeDef) → 0 < length (encode_def d)
length-encode_def_pos (datatypedef id name typeid props sd size) =
    omega (arith, length-encode_def id name typeid props sd size)

pub length-encode_children : (ds : Children) → 0 < length (encode_children ds)
unfolding encode_def
length-encode_children nil = omega (arith, length-encode_int (pos 18))
length-encode_children (cons d ds) =
    omega (arith, length-append (encode_def d) (encode_children ds), length-encode_def_pos d)

-- Where the parts of a type stand.
pub record DefAt (buf : Bytes) (p : ℕ) (id : ℤ) (name : Bytes) (typeid : ℤ) (props : PropertyBlock)
    (sd : StructDef) : Type 0 where
  pub kind : At buf p (encode_int (pos 16))
  pub ident : At buf (p + 4) (encode_int id)
  pub title : At buf (p + 8) (encode_string name)
  pub array : At buf (p + 8 + length (encode_string name)) (encode_int (pos 0))
  pub class : At buf (p + 12 + length (encode_string name)) (encode_int typeid)
  pub body : At buf (p + 16 + length (encode_string name)) (encode_struct sd)
  pub block :
      At buf
        (p + 16 + length (encode_string name) + length (encode_struct sd))
        (encode_all props.proplist)

pub def-At :
    (buf : Bytes) (p : ℕ) (id : ℤ) (name : Bytes) (typeid : ℤ) (props : PropertyBlock)
    (sd : StructDef) (size : ℕ)
    → At buf p (encode_def (datatypedef id name typeid props sd size))
    → DefAt buf p id name typeid props sd
unfolding encode_def
def-At buf p id name typeid props sd size at =
    let n = length (encode_string name) in
    let (a, at₁) =
      At-then buf p (encode_int (pos 16)) _ (p + 4) at
        (omega (arith, length-encode_int (pos 16))) in
    let (b, at₂) =
      At-then buf (p + 4) (encode_int id) _ (p + 8) at₁ (omega (arith, length-encode_int id)) in
    let (c, at₃) = At-then buf (p + 8) (encode_string name) _ (p + 8 + n) at₂ refl in
    let (d, at₄) =
      At-then buf (p + 8 + n) (encode_int (pos 0)) _ (p + 12 + n) at₃
        (omega (arith, length-encode_int (pos 0))) in
    let (e, at₅) =
      At-then buf (p + 12 + n) (encode_int typeid) _ (p + 16 + n) at₄
        (omega (arith, length-encode_int typeid)) in
    let (f, g) =
      At-then buf (p + 16 + n) (encode_struct sd) _ (p + 16 + n + length (encode_struct sd)) at₅
        refl in
    record { kind = a; ident = b; title = c; array = d; class = e; body = f; block = g }
