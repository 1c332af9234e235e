-- ===== src/Property/Fuel.antt =====
-- The fuel of PropertyBlock::deserialize (src/psfpropertyblock.cc), and what it takes of the file.
use libpsf.Prelude.{ℕ, zero, suc, ◌+◌, ◌*◌, ◌<◌, ◌≤◌, ◌≡◌, refl, List, [], ◌∷◌, length, arith}
use libpsf.Prelude.Int.{ℤ, pos}
use libpsf.Prelude.Assoc.{◌==◌, int_eq}
use libpsf.Outcome.{undefined, Yields, holds, throws, Yields-bind, Yields-if, incorrect_chunk}
use libpsf.Buffer.{Bytes}
use libpsf.Buffer.Words.{get_int32-Yields, get_double-Yields}
use libpsf.Scalar.{int32_deserialize, double_deserialize}
use libpsf.Scalar.Strings.{string_deserialize-Yields}
use libpsf.Property.{
  Property, PropertyBlock, ischunk, value_deserialize, property_deserialize, append_prop,
  block_loop, block_deserialize,
}
use libpsf.Property.RoundTrip.{append_all}

value_deserialize-Yields :
    (t : ℤ) (buf : Bytes) (p : ℕ) → Yields (λ (v, n). 4 ≤ n) (value_deserialize t buf p)
unfolding value_deserialize int32_deserialize double_deserialize
value_deserialize-Yields t buf p =
    Yields-if (t == pos 33)
      (λ _. Yields-bind (string_deserialize-Yields buf p) λ (s, n) (e, _, _). holds (omega arith))
      λ _.
        Yields-if (t == pos 34)
          (λ _. Yields-bind (get_int32-Yields buf p) λ v _. holds (omega arith))
          λ _.
            Yields-if (t == pos 35)
              (λ _. Yields-bind (get_double-Yields buf p) λ v _. holds (omega arith))
              λ _. throws undefined

pub property_deserialize-Yields :
    (buf : Bytes) (p : ℕ)
    → Yields (λ (prop, n). (12 ≤ n) × (p + 4 ≤ length buf)) (property_deserialize buf p)
unfolding property_deserialize
property_deserialize-Yields buf p = Yields-bind (get_int32-Yields buf p) λ t (le, _).
    Yields-if (ischunk t)
      (λ _. Yields-bind (string_deserialize-Yields buf (p + 4)) λ (name, n) (e, _, _).
        Yields-bind (value_deserialize-Yields t buf (p + 4 + n))
          λ (v, k) l. holds (omega arith, le))
      (λ _. throws (incorrect_chunk t))

-- The block is the given one with properties appended, and the word behind it is in the file.
abbrev pub Extends : Bytes → ℕ → PropertyBlock → PropertyBlock × ℕ → Type 0
Extends buf p b (b', n) =
    (props : List Property) × (b' ≡ append_all b props)
    × (12 * length props ≤ n)
    × (p + n + 4 ≤ length buf)

block_loop-Yields :
    (fuel : ℕ) (b : PropertyBlock) (buf : Bytes) (p : ℕ)
    → length buf < p + fuel
    → 0 < fuel
    → Yields (Extends buf p b) (block_loop fuel b buf p)
unfolding block_loop
block_loop-Yields zero b buf p h z = absurd (omega arith)
block_loop-Yields (suc fuel) b buf p h z = Yields-bind (get_int32-Yields buf p) λ t (le, _).
    Yields-if (ischunk t)
      (λ _. Yields-bind (property_deserialize-Yields buf p) λ (prop, n) (l, _).
        Yields-bind
          (block_loop-Yields fuel (append_prop b prop) buf (p + n) (omega arith) (omega arith))
          λ (b', m) (props, e, few, room). holds (prop ∷ props, e, omega arith, omega arith))
      (λ _. holds ([], refl, omega arith, omega arith))

-- A block is read within the fuel, and where it does not throw the properties that were read are
-- appended to it, each of which took at least twelve bytes, and the word behind them is in the file.
pub block_deserialize-Yields :
    (b : PropertyBlock) (buf : Bytes) (p : ℕ) → Yields (Extends buf p b) (block_deserialize b buf p)
unfolding block_deserialize
block_deserialize-Yields b buf p =
    block_loop-Yields (suc (length buf)) b buf p (omega arith) (omega arith)
