-- ===== src/Chunk/Laws.antt =====
-- When a chunk is accepted, and what a child takes of the file.
use libpsf.Prelude.{ℕ, ◌+◌, ◌≤◌, ◌≡◌, refl, Option, none, some, length, arith}
use libpsf.Prelude.Int.{ℤ, negsuc, InInt}
use libpsf.Prelude.Assoc.{eqb_ℤ_iff}
use libpsf.Outcome.{ok, Yields, holds, throws, Yields-bind, Yields-if, incorrect_chunk}
use libpsf.Buffer.{Bytes, Parser}
use libpsf.Buffer.At.{At}
use libpsf.Buffer.Words.{encode_int, get_int32-encode_int, get_int32-Yields}
use libpsf.Chunk.{chunk_deserialize, Factory, deserialize_child}

pub chunk_deserialize-encode_int :
    (buf : Bytes) (p : ℕ) (t : ℤ)
    → InInt t
    → At buf p (encode_int t)
    → chunk_deserialize t buf p ≡ ok 4
unfolding chunk_deserialize
chunk_deserialize-encode_int buf p t h at =
    rw (get_int32-encode_int buf p t h at) (ground (arith, eqb_ℤ_iff t t))

-- A class that states no chunk type takes any.
pub chunk_deserialize-any :
    (buf : Bytes) (p : ℕ) (t : ℤ)
    → InInt t
    → At buf p (encode_int t)
    → chunk_deserialize (negsuc 0) buf p ≡ ok 4
unfolding chunk_deserialize
chunk_deserialize-any buf p t h at = rw (get_int32-encode_int buf p t h at) refl

pub chunk_deserialize-Yields :
    (t : ℤ) (buf : Bytes) (p : ℕ)
    → Yields (λ n. (n ≡ 4) × (p + 4 ≤ length buf)) (chunk_deserialize t buf p)
unfolding chunk_deserialize
chunk_deserialize-Yields t buf p =
    Yields-bind (get_int32-Yields buf p)
      λ z (le, fit). Yields-if _ (λ _. throws (incorrect_chunk z)) (λ _. holds (refl, le))

module _ {ℓ} {C : Type ℓ} (P : C × ℕ → Type 0) (buf : Bytes) (p : ℕ) where
  -- An end marker takes its word, a child what its own `deserialize` takes.
  abbrev pub ChildRead : Option C × ℕ → Type 0
  ChildRead (none, n) = n ≡ 4
  ChildRead (some c, n) = P (c, n)

  -- A class that the factory may answer.
  abbrev pub Allows : Option (Parser C) → Type ℓ
  Allows none = Unit
  Allows (some parse) = p + 4 ≤ length buf → Yields P (parse buf p)

  pub deserialize_child-Yields :
      (factory : Factory C)
      → ((t : ℤ) → Yields Allows (factory t))
      → Yields (λ r. ChildRead r × (p + 4 ≤ length buf)) (deserialize_child factory buf p)
  unfolding deserialize_child
  deserialize_child-Yields factory allows = Yields-bind (get_int32-Yields buf p) λ t (le, _).
      Yields-bind (allows t) (elim [
        | none ↦ λ _. holds (refl, le)
        | some parse ↦ λ ok. Yields-bind (ok le) λ (c, n) h. holds (h, le)
      ])
