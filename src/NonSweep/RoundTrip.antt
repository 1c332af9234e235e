-- ===== src/NonSweep/RoundTrip.antt =====
-- The values of a file without a sweep (src/psfnonsweepvalue.cc), written in the file and read back.
use libpsf.Prelude.{
  ℕ, ◌+◌, ◌^◌, ◌<◌, ◌≤◌, ◌≡◌, refl, sym, ap, some, List, ◌++◌, All, length, length-append, arith,
}
use libpsf.Prelude.Int.{ℤ, pos, negsuc, InInt}
use libpsf.Outcome.{ok}
use libpsf.Buffer.{Bytes}
use libpsf.Buffer.At.{At, At-then}
use libpsf.Buffer.Words.{encode_int, length-encode_int, get_int32-encode_int}
use libpsf.Scalar.Strings.{encode_string, string_deserialize-encode_string}
use libpsf.Chunk.{deserialize_child}
use libpsf.Chunk.Laws.{chunk_deserialize-any}
use libpsf.Property.{empty_block, ischunk}
use libpsf.Property.RoundTrip.{encode_all, Ends, block_deserialize-encode_all}
use libpsf.TypeDef.{DataTypeDef}
use libpsf.TypeDef.Encode.{IsBlock}
use libpsf.TypeDef.Numbers.{encode_data, IsData, deserialize_data-encode_data, new_scalar-IsData}
use libpsf.Container.{get_child_by_id, make_indexed, section_type}
use libpsf.Container.Encoded.{Coding, encode_each}
use libpsf.Trace.{TypeSection}
use libpsf.Trace.Written.{IsIndex, indexed_section, indexed_deserialize-indexed_section}
use libpsf.NonSweep.{NonSweepValue, value_deserialize, nonsweep_factory, nonsweep_deserialize}

unfoldable pub encode_value : NonSweepValue → Bytes
encode_value v =
    encode_int (pos 16)
    ++ (encode_int v.id
        ++ (encode_string v.name
            ++ (encode_int v.valuetypeid
                ++ (encode_data v.value ++ encode_all v.properties.proplist))))

-- The fields fit the format, and the value is a number of its type.
pub record IsValue (types : TypeSection) (v : NonSweepValue) : Type 0 where
  pub ident : InInt v.id
  pub title : length v.name < 2 ^ 31
  pub class : InInt v.valuetypeid
  pub def : DataTypeDef
  pub typed : get_child_by_id types v.valuetypeid ≡ ok def
  pub number : IsData def v.value
  pub block : IsBlock v.properties

length-encode_value :
    (v : NonSweepValue)
    → length (encode_value v)
      ≡ 12
        + length (encode_string v.name)
        + length (encode_data v.value)
        + length (encode_all v.properties.proplist)
unfolding encode_value
length-encode_value v =
    let block = encode_all v.properties.proplist in
    let a = encode_data v.value ++ block in
    let b = encode_int v.valuetypeid ++ a in
    let c = encode_string v.name ++ b in
    omega (
      arith,
      length-append (encode_int (pos 16)) (encode_int v.id ++ c),
      length-append (encode_int v.id) c,
      length-append (encode_string v.name) b,
      length-append (encode_int v.valuetypeid) a,
      length-append (encode_data v.value) block,
      length-encode_int (pos 16),
      length-encode_int v.id,
      length-encode_int v.valuetypeid,
    )

value-head :
    (v : NonSweepValue) (buf : Bytes) (p : ℕ)
    → At buf p (encode_value v)
    → At buf p (encode_int (pos 16))
unfolding encode_value
value-head v buf p at = let (kind, rest) = At-then buf p (encode_int (pos 16)) _ _ at refl in kind

module _ (types : TypeSection) (buf : Bytes) where
  -- A value in the file is read back, with its properties, up to a chunk that is no property.
  pub value_deserialize-encode_value :
      (v : NonSweepValue) (p : ℕ) (t : ℤ)
      → IsValue types v
      → At buf p (encode_value v)
      → Ends buf (p + length (encode_value v)) t
      → value_deserialize (some types) buf p ≡ ok (v, length (encode_value v))
  unfolding value_deserialize encode_value
  value_deserialize-encode_value v p t fit at (e, stop) =
      let n = length (encode_string v.name) in
      let m = length (encode_data v.value) in
      let (kind, at₁) =
        At-then buf p (encode_int (pos 16)) _ (p + 4) at
          (omega (arith, length-encode_int (pos 16))) in
      let (ident, at₂) =
        At-then buf (p + 4) (encode_int v.id) _ (p + 8) at₁
          (omega (arith, length-encode_int v.id)) in
      let (title, at₃) = At-then buf (p + 8) (encode_string v.name) _ (p + 8 + n) at₂ refl in
      let (class, at₄) =
        At-then buf (p + 8 + n) (encode_int v.valuetypeid) _ (p + 12 + n) at₃
          (omega (arith, length-encode_int v.valuetypeid)) in
      let (number, block) =
        At-then buf (p + 12 + n) (encode_data v.value) _ (p + 12 + n + m) at₄ refl in
      let behind : p + length (encode_value v)
          ≡ p + 12 + n + m + length (encode_all v.properties.proplist) =
        omega (arith, length-encode_value v) in
      let (ps, same) = fit.block in
      let (cls, made) = new_scalar-IsData fit.def v.value fit.number in
      rw
        (
          chunk_deserialize-any buf p (pos 16) (omega arith) kind,
          get_int32-encode_int buf (p + 4) v.id fit.ident ident,
          string_deserialize-encode_string buf (p + 8) v.name fit.title title,
          get_int32-encode_int buf (p + 8 + n) v.valuetypeid fit.class class,
          fit.typed,
          made,
          deserialize_data-encode_data fit.def v.value buf (p + 12 + n) fit.number number,
          block_deserialize-encode_all buf (p + 12 + n + m) empty_block v.properties.proplist t ps
              block (rw behind at e, stop),
          same,
        )
        (ap (λ k. ok (v, k)) (sym (length-encode_value v)))

  value-Coding : Coding (nonsweep_factory (some types)) encode_value (IsValue types) buf
  unfolding deserialize_child nonsweep_factory ischunk
  value-Coding = record {
    reads = λ v p t fit at ends.
        rw
          (
            get_int32-encode_int buf p (pos 16) (omega arith) (value-head v buf p at),
            value_deserialize-encode_value v p t fit at ends,
          )
          refl;
    begins = λ v p at.
        (pos 16, (get_int32-encode_int buf p (pos 16) (omega arith) (value-head v buf p at), refl));
    takes = λ v. omega (arith, length-encode_value v);
  }

  -- A value section gives its values back, with the map of names that they make.
  pub nonsweep_deserialize-indexed_section :
      (vs : List NonSweepValue) (index : Bytes) (next : ℤ) (start : ℕ)
      → All (IsValue types) vs
      → IsIndex 2 index
      → start + (28 + length (encode_each encode_value vs) + length index) < 2 ^ 31
      → start + (28 + length (encode_each encode_value vs) + length index) ≤ length buf
      → At buf start (indexed_section start (encode_each encode_value vs) index next)
      → nonsweep_deserialize (some types) buf start start
        ≡ ok (
          make_indexed (λ v. negsuc 0) (λ v. v.name) vs,
          pos (28 + length (encode_each encode_value vs) + length index),
        )
  unfolding nonsweep_deserialize
  nonsweep_deserialize-indexed_section vs index next start fit whole word room at =
      indexed_deserialize-indexed_section buf start (λ v. negsuc 0) (λ v. v.name) (negsuc 0) 2
        (nonsweep_factory (some types)) encode_value (IsValue types) vs index next
        (chunk_deserialize-any buf start section_type (omega arith)) value-Coding fit whole word
        room at
