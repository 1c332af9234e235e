-- ===== src/Container/Encoded.antt =====
-- Children that are written one behind the other (Container::deserialize_child of
-- src/psfcontainer.cc). A child may end with a block of properties, which only a chunk of another type
-- ends: each child is read in front of such a chunk, and begins with one.
use libpsf.Prelude.{
  ℕ, ◌+◌, ◌<◌, ◌≡◌, refl, sym, some, List, [], ◌∷◌, ◌++◌, All, length, length-append, arith,
}
use mathlib.Core.Path.{subst}
use libpsf.Prelude.Int.{ℤ}
use libpsf.Outcome.{ok}
use libpsf.Buffer.{Bytes}
use libpsf.Buffer.At.{At, At-then}
use libpsf.Property.RoundTrip.{Ends}
use libpsf.Chunk.{Factory, deserialize_child}
use libpsf.Container.RoundTrip.{ChildrenAt}

abbrev pub encode_each : {C : Type 0} → (C → Bytes) → List C → Bytes
encode_each encode [] = []
encode_each encode (c ∷ cs) = encode c ++ encode_each encode cs

-- How the children of a factory are written.
pub record Coding {C : Type 0} (factory : Factory C) (encode : C → Bytes) (Fits : C → Type 0)
    (buf : Bytes) : Type 0 where
  pub reads :
      (c : C) (p : ℕ) (t : ℤ)
      → Fits c
      → At buf p (encode c)
      → Ends buf (p + length (encode c)) t
      → deserialize_child factory buf p ≡ ok (some c, length (encode c))
  pub begins : (c : C) (p : ℕ) → At buf p (encode c) → (t : ℤ) × Ends buf p t
  pub takes : (c : C) → 0 < length (encode c)

module _ {C : Type 0} (factory : Factory C) (encode : C → Bytes) (Fits : C → Type 0) (buf : Bytes)
    (coding : Coding factory encode Fits buf) where
  -- What is behind a child ends its block: the next child, or what is behind all of them.
  each-Ends :
      (cs : List C) (p : ℕ) (t : ℤ)
      → At buf p (encode_each encode cs)
      → Ends buf (p + length (encode_each encode cs)) t
      → (u : ℤ) × Ends buf p u
  each-Ends [] p t at ends =
      let e : p + 0 ≡ p = omega arith in (t, subst (λ q. Ends buf q t) e ends)
  each-Ends (c ∷ cs) p t at ends =
      let (first, others) = At-then buf p (encode c) (encode_each encode cs) _ at refl in
      coding.begins c p first

  pub ChildrenAt-encode_each :
      (cs : List C) (p q : ℕ) (t : ℤ)
      → All Fits cs
      → At buf p (encode_each encode cs)
      → p + length (encode_each encode cs) ≡ q
      → Ends buf q t
      → ChildrenAt factory buf cs p q
  ChildrenAt-encode_each [] p q t fit at e ends = omega arith
  ChildrenAt-encode_each (c ∷ cs) p q t (f, fit) at e ends =
      let (first, others) = At-then buf p (encode c) (encode_each encode cs) _ at refl in
      let behind : p + length (encode c) + length (encode_each encode cs) ≡ q =
        omega (arith, length-append (encode c) (encode_each encode cs)) in
      let (u, stop) =
        each-Ends cs (p + length (encode c)) t others
          (subst (λ r. Ends buf r t) (sym behind) ends) in
      (
        length (encode c),
        coding.takes c,
        coding.reads c p u f first stop,
        ChildrenAt-encode_each cs (p + length (encode c)) q t fit others behind ends,
      )
