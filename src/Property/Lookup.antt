-- ===== src/Property/Lookup.antt =====
-- What a block finds under a name after its properties were appended.
use libpsf.Prelude.{
  ℕ, ◌≡◌, refl, sym, ◌∙◌, ap, Option, none, some, List, [], ◌∷◌, ◌++◌, append-nil, append_assoc,
  map, All, length, ◌+◌, if◌then◌else◌,
}
use libpsf.Prelude.Assoc.{bytes_eq, eqb_bytes, lookup, lookup-insert}
use libpsf.Outcome.{ok, or_throw, property_not_found, Yields-ok}
use libpsf.Buffer.{Bytes}
use libpsf.Prelude.Int.{ℤ, negsuc}
use libpsf.Buffer.At.{At}
use libpsf.Scalar.{Scalar}
use libpsf.Property.{
  Property, PropertyBlock, empty_block, append_prop, copied, find, block_deserialize,
}
use libpsf.Property.RoundTrip.{
  append_all, typed, IsProperty, encode_all, Ends, block_deserialize-encode_all,
}
use libpsf.Property.Fuel.{block_deserialize-Yields}

-- The value of the last property of a name, or `v` where there is none.
unfoldable pub last_value : Bytes → Option Scalar → List Property → Option Scalar
last_value name v [] = v
last_value name v (prop ∷ props) =
    last_value name (if eqb_bytes prop.name name then some prop.value else v) props

pub lookup-append_all :
    (name : Bytes) (b : PropertyBlock) (props : List Property)
    → lookup name (append_all b props).propmap ≡ last_value name (lookup name b.propmap) props
unfolding append_prop last_value
lookup-append_all name b [] = refl
lookup-append_all name b (prop ∷ props) =
    lookup-append_all name (append_prop b prop) props
    ∙ ap (λ v. last_value name v props) (lookup-insert prop.name name prop.value b.propmap)

pub proplist-append_all :
    (b : PropertyBlock) (props : List Property)
    → (append_all b props).proplist ≡ b.proplist ++ map copied props
unfolding append_prop
proplist-append_all b [] = sym (append-nil b.proplist)
proplist-append_all b (prop ∷ props) =
    proplist-append_all (append_prop b prop) props
    ∙ append_assoc b.proplist (copied prop ∷ []) (map copied props)

-- A copy counts as the property does.
pub last_value-copied :
    (name : Bytes) (v : Option Scalar) (props : List Property)
    → last_value name v (map copied props) ≡ last_value name v props
unfolding last_value copied
last_value-copied name v [] = refl
last_value-copied name v (prop ∷ props) =
    last_value-copied name (if eqb_bytes prop.name name then some prop.value else v) props

pub append_all-copied :
    (b : PropertyBlock) (props : List Property)
    → append_all b (map copied props) ≡ append_all b props
unfolding append_prop copied
append_all-copied b [] = refl
append_all-copied b (prop ∷ props) = append_all-copied (append_prop b prop) props

pub append_all-typed :
    (b : PropertyBlock) (props : List Property)
    → append_all b (map typed props) ≡ append_all b props
unfolding append_prop copied
append_all-typed b [] = refl
append_all-typed b (prop ∷ props) = append_all-typed (append_prop b prop) props

-- What the block holds after the properties `props` were appended to `b`
pub record AreAppended (b : PropertyBlock) (props : List Property) (c : PropertyBlock)
    : Type 0 where
  pub listed :
      c.proplist
      ≡ b.proplist ++ map {A = Property} (λ prop. record prop { chunktype = negsuc 0 }) props
  pub mapped :
      (name : Bytes) → lookup name c.propmap ≡ last_value name (lookup name b.propmap) props

-- Properties that fit the format, one behind the other in the file, are read up to a chunk that is no
-- property, which is left: the block's list has its old properties and then copies of them, in their
-- order and without their chunk types, and the map finds under every name the value of the last of
-- them with that name, or what it found before.
pub block_deserialize-AreAppended :
    (buf : Bytes) (p : ℕ) (b : PropertyBlock) (props : List Property) (t : ℤ)
    → All IsProperty props
    → At buf p (encode_all props)
    → Ends buf (p + length (encode_all props)) t
    → (c : PropertyBlock) × AreAppended b props c
      × (block_deserialize b buf p ≡ ok (c, length (encode_all props)))
block_deserialize-AreAppended buf p b props t fit at ends = (
  append_all b props,
  record {
    listed = unfold copied in proplist-append_all b props;
    mapped = λ name. lookup-append_all name b props;
  },
  block_deserialize-encode_all buf p b props t fit at ends,
)

-- In a block that was read, `find` gives the value of the last property of the name, and throws
-- PropertyNotFound exactly where the name has none.
pub find-block_deserialize :
    (buf : Bytes) (p : ℕ) (name : Bytes) {b : PropertyBlock} {n : ℕ}
    → block_deserialize empty_block buf p ≡ ok (b, n)
    → find b name ≡ or_throw (last_value name none b.proplist) property_not_found
unfolding find lookup
find-block_deserialize buf p name e =
    let (props, same, _, _) = Yields-ok (block_deserialize-Yields empty_block buf p) e in
    rw (same, lookup-append_all, proplist-append_all, last_value-copied)
