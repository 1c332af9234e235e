-- ===== src/Chunk.antt =====
-- Chunk::deserialize of src/psfchunk.cc and Container::deserialize_child of src/psfcontainer.cc.
pub mod Laws
use libpsf.Prelude.{ℕ, ◌&&◌, not, Option, none, some, if◌then◌else◌}
use libpsf.Prelude.Int.{ℤ, negsuc}
use libpsf.Prelude.Assoc.{◌==◌, int_eq}
use libpsf.Outcome.{Result, ok, err, incorrect_chunk, ◌>>=◌}
use libpsf.Buffer.{Bytes, Parser, get_int32}

-- `chunktype` is the type that the object expects, -1 where it takes any.
unfoldable pub chunk_deserialize : ℤ → Bytes → ℕ → Result ℕ
chunk_deserialize chunktype buf p = do
  testtype ← get_int32 buf p
  if not (chunktype == negsuc 0) && not (testtype == chunktype)
      then err (incorrect_chunk testtype)
      else ok 4

-- What `child_factory` answers: no child for an end marker, or an object of some class, which is
-- given by its `deserialize`.
abbrev pub Factory {ℓ} : Type ℓ → Type ℓ
Factory C = ℤ → Result (Option (Parser C))

-- A child, or none behind an end marker, and the bytes taken.
module _ {ℓ} {C : Type ℓ} where
  abbrev read_child : Option (Parser C) → Parser (Option C)
  read_child none buf p = ok (none, 4)
  read_child (some deserialize) buf p = do (c, n) ← deserialize buf p; ok (some c, n)

  unfoldable pub deserialize_child : Factory C → Parser (Option C)
  deserialize_child factory buf p = do
    childtype ← get_int32 buf p
    child ← factory childtype
    read_child child buf p
