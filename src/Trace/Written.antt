-- ===== src/Trace/Written.antt =====
-- The bytes of a section: where its words, its children and its index stand
-- (src/psfcontainer.cc, src/psfindexedcontainer.cc).
use libpsf.Prelude.{
  append_assoc, ℕ, ◌+◌, ◌-◌, ◌*◌, ◌/◌, ◌^◌, ◌<◌, ◌≤◌, ◌≡◌, refl, List, ◌++◌, All, length,
  length-append, arith,
}
use mathlib.Core.Path.{subst}
use libpsf.Prelude.Int.{ℤ, pos}
use libpsf.Outcome.{ok}
use libpsf.Buffer.{Bytes}
use libpsf.Buffer.At.{At, At-then, At-join}
use libpsf.Buffer.Words.{to_be, length-to_be, encode_int, length-encode_int, get_int32-encode_int}
use libpsf.Chunk.{Factory, chunk_deserialize}
use libpsf.Property.{ischunk}
use libpsf.Property.RoundTrip.{Ends}
use libpsf.Container.{section_type, indexed_deserialize, make_indexed}
use libpsf.Container.RoundTrip.{indexed_head, indexed_deserialize-ChildrenAt}
use libpsf.Container.Encoded.{Coding, encode_each, ChildrenAt-encode_each}

-- A section of the file from `start` on, without an index and with one. Behind an index stands the
-- number of the section that follows, or 15 behind the last one.
abbrev pub simple_section : ℕ → Bytes → Bytes
simple_section start body = encode_int section_type ++ (to_be 4 (start + (8 + length body)) ++ body)

abbrev pub indexed_section : ℕ → Bytes → Bytes → ℤ → Bytes
indexed_section start body index next =
    encode_int section_type
    ++ (to_be 4 (start + (28 + length body + length index))
        ++ (to_be 4 22
            ++ (to_be 4 (start + (16 + length body))
                ++ (body
                    ++ (encode_int (pos 19)
                        ++ (to_be 4 (length index) ++ (index ++ encode_int next)))))))

pub length-simple_section :
    (start : ℕ) (body : Bytes) → length (simple_section start body) ≡ 8 + length body
length-simple_section start body = omega (
  arith,
  length-append (encode_int section_type) (to_be 4 (start + (8 + length body)) ++ body),
  length-append (to_be 4 (start + (8 + length body))) body,
  length-encode_int section_type,
  length-to_be 4 (start + (8 + length body)),
)

pub length-indexed_section :
    (start : ℕ) (body index : Bytes) (next : ℤ)
    → length (indexed_section start body index next) ≡ 28 + length body + length index
length-indexed_section start body index next =
    let e = start + (28 + length body + length index) in
    let f = start + (16 + length body) in
    let z = index ++ encode_int next in
    let a = to_be 4 (length index) ++ z in
    let b = body ++ (encode_int (pos 19) ++ a) in
    let c = to_be 4 f ++ b in
    omega (
      arith,
      length-append (encode_int section_type) (to_be 4 e ++ (to_be 4 22 ++ c)),
      length-append (to_be 4 e) (to_be 4 22 ++ c),
      length-append (to_be 4 22) c,
      length-append (to_be 4 f) b,
      length-append body (encode_int (pos 19) ++ a),
      length-append (encode_int (pos 19)) a,
      length-append (to_be 4 (length index)) z,
      length-append index (encode_int next),
      length-encode_int next,
      length-encode_int section_type,
      length-to_be 4 e,
      length-to_be 4 22,
      length-to_be 4 f,
      length-encode_int (pos 19),
      length-to_be 4 (length index),
    )

-- The two words in front of the body, and the body
pub simple-parts :
    (buf : Bytes) (start : ℕ) (body : Bytes)
    → At buf start (simple_section start body)
    → At buf start (encode_int section_type ++ to_be 4 (start + (8 + length body)))
      × At buf (start + 8) body
simple-parts buf start body at =
    let head = encode_int section_type ++ to_be 4 (start + (8 + length body)) in
    At-then buf start head body (start + 8)
      (rw (append_assoc (encode_int section_type) (to_be 4 (start + (8 + length body))) body) at)
      (omega (
        arith,
        length-append (encode_int section_type) (to_be 4 (start + (8 + length body))),
        length-encode_int section_type,
        length-to_be 4 (start + (8 + length body)),
      ))

-- The two words in front of the children, the children, and the end marker
pub marked-parts :
    (buf : Bytes) (start : ℕ) (children : Bytes) (mark : ℤ)
    → At buf start (simple_section start (children ++ encode_int mark))
    → At buf start (encode_int section_type ++ to_be 4 (start + (12 + length children)))
      × At buf (start + 8) children
      × At buf (start + (8 + length children)) (encode_int mark)
marked-parts buf start children mark at =
    let (head, body) = simple-parts buf start (children ++ encode_int mark) at in
    let total : start + (8 + length (children ++ encode_int mark))
        ≡ start + (12 + length children) =
      omega (arith, length-append children (encode_int mark), length-encode_int mark) in
    let (first, last) =
      At-then buf (start + 8) children (encode_int mark) (start + (8 + length children)) body
        (omega arith) in
    (subst (λ n. At buf start (encode_int section_type ++ to_be 4 n)) total head, first, last)

-- The words in front of the body, the body, and the two words of the index
indexed-parts :
    (buf : Bytes) (start : ℕ) (body index : Bytes) (next : ℤ)
    → At buf start (indexed_section start body index next)
    → At buf start (indexed_head start (length body) (length index))
      × At buf (start + 16) body
      × At buf (start + (16 + length body)) (encode_int (pos 19) ++ to_be 4 (length index))
indexed-parts buf start body index next at =
    let e = to_be 4 (start + (28 + length body + length index)) in
    let f = to_be 4 (start + (16 + length body)) in
    let n = to_be 4 (length index) in
    let (kind, at₁) =
      At-then buf start (encode_int section_type) _ (start + 4) at
        (omega (arith, length-encode_int section_type)) in
    let (end, at₂) =
      At-then buf (start + 4) e _ (start + 8) at₁
        (omega (arith, length-to_be 4 (start + (28 + length body + length index)))) in
    let (sub, at₃) =
      At-then buf (start + 8) (to_be 4 22) _ (start + 12) at₂ (omega (arith, length-to_be 4 22)) in
    let (subend, at₄) =
      At-then buf (start + 12) f _ (start + 16) at₃
        (omega (arith, length-to_be 4 (start + (16 + length body)))) in
    let (children, at₅) =
      At-then buf (start + 16) body _ (start + (16 + length body)) at₄ (omega arith) in
    let (mark, at₆) =
      At-then buf (start + (16 + length body)) (encode_int (pos 19)) _ (start + (20 + length body))
        at₅ (omega (arith, length-encode_int (pos 19))) in
    let (count, entries) =
      At-then buf (start + (20 + length body)) n (index ++ encode_int next) _ at₆ refl in
    (
      At-join buf start (encode_int section_type) _ (start + 4) kind
          (omega (arith, length-encode_int section_type))
          (At-join buf (start + 4) e _ (start + 8) end
            (omega (arith, length-to_be 4 (start + (28 + length body + length index))))
            (At-join buf (start + 8) (to_be 4 22) _ (start + 12) sub
              (omega (arith, length-to_be 4 22)) subend)),
      children,
      At-join buf (start + (16 + length body)) (encode_int (pos 19)) n (start + (20 + length body))
          mark (omega (arith, length-encode_int (pos 19))) count,
    )

-- The entries of an index take whole entries of `words` words.
abbrev pub IsIndex : ℕ → Bytes → Type 0
IsIndex words index =
    (rounds : ℕ) × (length index ≡ rounds * (4 * words))
    × ((length index + 4 * words - 1) / (4 * words) ≡ rounds)

module _ (buf : Bytes) (start : ℕ) where
  -- The children of an indexed section, coded one behind the other
  pub indexed_deserialize-indexed_section :
      {C : Type 0} (get_id : C → ℤ) (get_name : C → Bytes) (chunktype : ℤ) (words : ℕ)
      (factory : Factory C) (encode : C → Bytes) (Fits : C → Type 0) (cs : List C) (index : Bytes)
      (next : ℤ)
      → (At buf start (encode_int section_type) → chunk_deserialize chunktype buf start ≡ ok 4)
      → Coding factory encode Fits buf
      → All Fits cs
      → IsIndex words index
      → start + (28 + length (encode_each encode cs) + length index) < 2 ^ 31
      → start + (28 + length (encode_each encode cs) + length index) ≤ length buf
      → At buf start (indexed_section start (encode_each encode cs) index next)
      → indexed_deserialize get_id get_name chunktype words factory buf start start
        ≡ ok (
          make_indexed get_id get_name cs,
          pos (28 + length (encode_each encode cs) + length index),
        )
  unfolding ischunk
  indexed_deserialize-indexed_section get_id get_name chunktype words factory encode Fits cs index
        next accepts coding fit (rounds, whole, count) word room at =
      let size = length (encode_each encode cs) in
      let (head, children, tail) = indexed-parts buf start (encode_each encode cs) index next at in
      let (mark, _) = At-then buf (start + (16 + size)) (encode_int (pos 19)) _ _ tail refl in
      let stop : Ends buf (start + (16 + size)) (pos 19) =
        (get_int32-encode_int buf (start + (16 + size)) (pos 19) (omega arith) mark, refl) in
      let found =
        ChildrenAt-encode_each factory encode Fits buf coding cs (start + 16) (start + (16 + size))
          (pos 19) fit children (omega arith) stop in
      let (first, _) = At-then buf start (encode_int section_type) _ _ head refl in
      indexed_deserialize-ChildrenAt buf get_id get_name factory chunktype words rounds cs start
        size (length index) (accepts first) count whole word room head found tail
