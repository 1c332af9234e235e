-- ===== src/Property.antt =====
-- Property of src/psfproperty.cc and PropertyBlock of src/psfpropertyblock.cc.
pub mod RoundTrip
pub mod Fuel
pub mod Lookup
use libpsf.Prelude.{
  ℕ, zero, suc, ◌+◌, ◌*◌, Bool, true, false, ◌&&◌, Option, none, some, List, [], ◌∷◌, ◌++◌,
  if◌then◌else◌, length,
}
use libpsf.Prelude.Int.{ℤ, pos, negsuc, leb_ℤ}
use libpsf.Prelude.Assoc.{◌==◌, int_eq, bytes_eq, lookup, insert}
use libpsf.Outcome.{
  Result, ok, err, stuck, incorrect_chunk, property_not_found, undefined, or_throw, ◌>>=◌,
}
use libpsf.Buffer.{Bytes, Parser, get_int32}
use libpsf.Scalar.{Scalar, string, string_deserialize, int32_deserialize, double_deserialize}

pub record Property : Type 0 where
  pub chunktype : ℤ
  pub name : Bytes
  pub value : Scalar

unfoldable pub ischunk : ℤ → Bool
ischunk t = leb_ℤ (pos 33) t && leb_ℤ t (pos 35)

string_value : Parser Scalar
string_value buf p = do (s, n) ← string_deserialize buf p; ok (string s, n)

-- The `switch` on the chunk type; a property of no type would keep its null value.
value_deserialize : ℤ → Parser Scalar
unfolding string_value
value_deserialize t buf p =
    if t == pos 33
    then string_value buf p
    else if t == pos 34
    then int32_deserialize buf p
    else if t == pos 35
    then double_deserialize buf p
    else err undefined

unfoldable pub property_deserialize : Parser Property
unfolding value_deserialize
property_deserialize buf p = do
  t ← get_int32 buf p
  if ischunk t
      then (do
        (name, n) ← string_deserialize buf (p + 4)
        (v, k) ← value_deserialize t buf (p + 4 + n)
        ok (record { chunktype = t; name = name; value = v }, 4 + n + k))
      else err (incorrect_chunk t)

-- The list keeps a copy of every property, the map the last value of each name.
pub record PropertyBlock : Type 0 where
  pub proplist : List Property
  pub propmap : List (Bytes × Scalar)

abbrev pub empty_block : PropertyBlock
empty_block = record { proplist = []; propmap = [] }

-- Property(Property const &), which leaves the chunk type at the -1 of Chunk()
unfoldable pub copied : Property → Property
copied prop = record prop { chunktype = negsuc 0 }

unfoldable pub append_prop : PropertyBlock → Property → PropertyBlock
unfolding copied
append_prop b prop = record {
  proplist = b.proplist ++ (copied prop ∷ []);
  propmap = insert prop.name prop.value b.propmap;
}

unfoldable pub find : PropertyBlock → Bytes → Result Scalar
find b name = or_throw (lookup name b.propmap) property_not_found

unfoldable pub hasprop : PropertyBlock → Bytes → Bool
hasprop b name = elim (lookup name b.propmap) [ none ↦ false | some _ ↦ true ]

first_named : Bytes → List Property → Option Property
first_named name [] = none
first_named name (prop ∷ props) = if prop.name == name then some prop else first_named name props

-- The iterator at the end of the list is dereferenced where no property has the name.
unfoldable pub findprop : PropertyBlock → Bytes → Result Property
unfolding first_named
findprop b name = or_throw (first_named name b.proplist) undefined

-- The loop over the properties, appended to the block; it ends at any other chunk.
unfoldable pub block_loop : ℕ → PropertyBlock → Parser PropertyBlock
block_loop zero b buf p = stuck
block_loop (suc fuel) b buf p = do
  t ← get_int32 buf p
  if ischunk t
      then (do
        (prop, n) ← property_deserialize buf p
        (b', m) ← block_loop fuel (append_prop b prop) buf (p + n)
        ok (b', n + m))
      else ok (b, 0)

-- PropertyBlock::deserialize: a property takes four bytes and more.
unfoldable pub block_deserialize : PropertyBlock → Parser PropertyBlock
unfolding block_loop
block_deserialize b buf p = block_loop (suc (length buf)) b buf p
