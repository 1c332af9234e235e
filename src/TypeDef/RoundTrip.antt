-- ===== src/TypeDef/RoundTrip.antt =====
-- Types, nested structs among them, encoded and read back.
use libpsf.Prelude.{
  ℕ, zero, suc, ◌+◌, ◌*◌, ◌^◌, ◌<◌, ◌≡◌, refl, sym, ap, false, none, some, length, length-append,
  arith,
}
use libpsf.Prelude.Int.{ℤ, pos, InInt}
use libpsf.Prelude.Assoc.{◌==◌, int_eq, eqb_ℤ_iff}
use libpsf.Outcome.{ok, Yields-ok}
use libpsf.Buffer.{Bytes, Parser, get_int32}
use libpsf.Buffer.At.{At, At-then}
use libpsf.Buffer.Words.{encode_int, length-encode_int, get_int32-encode_int, get_int32-Yields}
use libpsf.Scalar.{typeid_struct}
use libpsf.Scalar.Strings.{encode_string, string_deserialize-encode_string}
use libpsf.Chunk.{deserialize_child}
use libpsf.Chunk.Laws.{chunk_deserialize-encode_int}
use libpsf.Property.{PropertyBlock, empty_block, ischunk}
use libpsf.Property.RoundTrip.{encode_all, Ends, block_deserialize-encode_all}
use libpsf.TypeDef.{
  DataTypeDef, datatypedef, StructDef, null, structdef, Children, nil, cons, psfdata_size,
  struct_factory, sized_part, def_deserialize, struct_deserialize, deserialize,
}
use libpsf.TypeDef.Encode.{
  encode_def, encode_struct, encode_children, IsBlock, IsEncodable, IsEncodableAll, DefAt, def-At,
  length-encode_def, length-encode_def_pos, length-encode_children,
}

-- A type reads back if the part behind its type id does.
def_of_part :
    (fuel : ℕ) (buf : Bytes) (p : ℕ) (id : ℤ) (name : Bytes) (typeid : ℤ) (props : PropertyBlock)
    (sd : StructDef) (size : ℕ) (t : ℤ)
    → InInt id
    → length name < 2 ^ 31
    → InInt typeid
    → IsBlock props
    → DefAt buf p id name typeid props sd
    → Ends buf (p + length (encode_def (datatypedef id name typeid props sd size))) t
    → sized_part (struct_deserialize fuel) typeid buf (p + 16 + length (encode_string name))
      ≡ ok (sd, size, length (encode_struct sd))
    → def_deserialize (suc fuel) buf p
      ≡ ok (
        datatypedef id name typeid props sd size,
        length (encode_def (datatypedef id name typeid props sd size)),
      )
unfolding def_deserialize
def_of_part fuel buf p id name typeid props sd size t iid iname ity (ps, same) at (e, stop) part =
    let len = length-encode_def id name typeid props sd size in
    let behind : p + length (encode_def (datatypedef id name typeid props sd size))
        ≡ p
          + 16
          + length (encode_string name)
          + length (encode_struct sd)
          + length (encode_all props.proplist) =
      omega (arith, len) in
    rw
      (
        chunk_deserialize-encode_int buf p (pos 16) (omega arith) at.kind,
        get_int32-encode_int buf (p + 4) id iid at.ident,
        string_deserialize-encode_string buf (p + 8) name iname at.title,
        get_int32-encode_int buf _ (pos 0) (omega arith) at.array,
        get_int32-encode_int buf _ typeid ity at.class,
        part,
        block_deserialize-encode_all buf _ empty_block props.proplist t ps at.block
            (rw behind at e, stop),
        same,
      )
      (ap (λ n. ok (datatypedef id name typeid props sd size, n)) len)

size-ne-struct :
    (typeid : ℤ) (size : ℕ) → psfdata_size typeid ≡ ok size → (typeid == typeid_struct) ≡ false
unfolding psfdata_size
size-ne-struct typeid size h = ground (arith, eqb_ℤ_iff typeid typeid_struct)

pub def-head :
    (d : DataTypeDef) (buf : Bytes) (p : ℕ)
    → At buf p (encode_def d)
    → get_int32 buf p ≡ ok (pos 16)
def-head (datatypedef id name typeid props sd size) buf p at =
    get_int32-encode_int buf p (pos 16) (omega arith)
      (def-At buf p id name typeid props sd size at).kind

-- The word that a child or the end of a struct begins with is no property.
children-Ends :
    (ds : Children) (buf : Bytes) (p : ℕ) → At buf p (encode_children ds) → (t : ℤ) × Ends buf p t
unfolding encode_def ischunk
children-Ends nil buf p at = (pos 18, (get_int32-encode_int buf p (pos 18) (omega arith) at, refl))
children-Ends (cons d ds) buf p at =
    let (first, _) = At-then buf p (encode_def d) (encode_children ds) _ at refl in
    (pos 16, (def-head d buf p first, refl))

module _ (parse : Parser DataTypeDef) (buf : Bytes) (p : ℕ) where
  end_child :
      At buf p (encode_int (pos 18)) → deserialize_child (struct_factory parse) buf p ≡ ok (none, 4)
  unfolding deserialize_child struct_factory
  end_child at = rw (get_int32-encode_int buf p (pos 18) (omega arith) at)

  def_child :
      (d : DataTypeDef) (n : ℕ)
      → At buf p (encode_def d)
      → parse buf p ≡ ok (d, n)
      → deserialize_child (struct_factory parse) buf p ≡ ok (some d, n)
  unfolding deserialize_child struct_factory
  def_child d n at h = rw (def-head d buf p at, h)

mutual
  unfolding sized_part encode_def def_deserialize

  def_deserialize-encode_def :
      (d : DataTypeDef) (fuel : ℕ) (buf : Bytes) (p : ℕ) (t : ℤ)
      → length (encode_def d) < fuel
      → IsEncodable d
      → At buf p (encode_def d)
      → Ends buf (p + length (encode_def d)) t
      → def_deserialize fuel buf p ≡ ok (d, length (encode_def d))
  def_deserialize-encode_def d zero buf p t h w at ends = absurd (omega arith)
  def_deserialize-encode_def (datatypedef id name typeid props null size) (suc fuel) buf p t h
        (i, n, ty, b, s) at ends =
      def_of_part fuel buf p id name typeid props null size t i n ty b
        (def-At buf p id name typeid props null size at) ends (rw (size-ne-struct typeid size s, s))
  def_deserialize-encode_def (datatypedef id name typeid props (structdef children sum) size)
        (suc fuel) buf p t h (i, n, ty, b, (e, s, all)) at ends =
      let parts = def-At buf p id name typeid props (structdef children sum) size at in
      let len = length-encode_def id name typeid props (structdef children sum) size in
      def_of_part fuel buf p id name typeid props (structdef children sum) size t i n ty b parts
        ends
        (rw (
          e,
          s,
          struct_deserialize-encode_children children sum fuel buf
              (p + 16 + length (encode_string name)) (omega arith) all parts.body,
        ))

  struct_deserialize-encode_children :
      (ds : Children) (size fuel : ℕ) (buf : Bytes) (p : ℕ)
      → length (encode_children ds) < fuel
      → IsEncodableAll ds size
      → At buf p (encode_children ds)
      → struct_deserialize fuel buf p ≡ ok (ds, size, length (encode_children ds))
  struct_deserialize-encode_children ds size zero buf p h w at = absurd (omega arith)
  struct_deserialize-encode_children nil size (suc fuel) buf p h w at =
      rw (end_child (def_deserialize fuel) buf p at, w, length-encode_int)
  struct_deserialize-encode_children (cons d ds) size (suc fuel) buf p h (wd, (rest, e, w)) at =
      let split = length-append (encode_def d) (encode_children ds) in
      let (first, others) = At-then buf p (encode_def d) (encode_children ds) _ at refl in
      let (t, ends) = children-Ends ds buf _ others in
      let some_bytes = length-encode_children ds in
      rw
        (
          def_child (def_deserialize fuel) buf p d (length (encode_def d)) first
              (def_deserialize-encode_def d fuel buf p t (omega arith) wd first ends),
          struct_deserialize-encode_children ds rest fuel buf (p + length (encode_def d))
              (omega (arith, length-encode_def_pos d)) w others,
          e,
        )
        (ap (λ n. ok (cons d ds, size, n)) (sym split))

-- A type in the file, with structs nested to any depth, is read back, and all of it is taken. Its
-- fields fit the format, its sizes are those of the parts, and behind it is a chunk that is no property.
pub deserialize-encode_def :
    (d : DataTypeDef) (buf : Bytes) (p : ℕ) (t : ℤ)
    → IsEncodable d
    → At buf p (encode_def d)
    → Ends buf (p + length (encode_def d)) t
    → deserialize buf p ≡ ok (d, length (encode_def d))
unfolding deserialize
deserialize-encode_def d buf p t w at (e, stop) =
    let (room, _) = Yields-ok (get_int32-Yields buf (p + length (encode_def d))) e in
    def_deserialize-encode_def d (2 * length buf + 1) buf p t (omega arith) w at (e, stop)
