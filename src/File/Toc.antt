-- ===== src/File/Toc.antt =====
-- The section index table at the end of a file, as PSFFile::deserialize reads it.
use libpsf.Prelude.{
  ℕ, suc, ◌+◌, ◌-◌, ◌*◌, ◌/◌, ◌%◌, ◌^◌, ◌<◌, ◌≡◌, refl, ap, ◌∙◌, false, Option, none, some, List,
  [], ◌∷◌, ◌++◌, length, length-append, append_assoc, append-nil, arith, eqb, Bool-cases, inl, inr,
}
use mathlib.Core.Path.{subst}
use libpsf.Prelude.Int.{ℤ, pos, negsuc, to_int32, to_int32-pos, sub_ℕ}
use libpsf.Prelude.Assoc.{◌==◌, int_eq, int_eq_self, lookup, insert, insert-fresh}
use libpsf.Outcome.{Result, ok, ◌>>=◌, or_throw, undefined}
use libpsf.Buffer.{Bytes, codes, seek}
use libpsf.Buffer.At.{At, At-then, At-whole}
use libpsf.Buffer.Words.{to_be, length-to_be, get_uint32-At}
use libpsf.File.{Section, Table, set_size, diff, toc_loop, read_table}

-- An entry of the table: the number of the section and the offset where it starts
abbrev pub encode_entries : List (ℕ × ℕ) → Bytes
encode_entries [] = []
encode_entries ((n, offset) ∷ es) = to_be 4 n ++ (to_be 4 offset ++ encode_entries es)

abbrev raw : ℕ → ℕ → Section
raw n offset = record { n = n; offset = offset; size = pos 0 }

-- A section reaches to the start of the next one, and the last one to `end`.
abbrev pub rows : ℕ → ℕ → List (ℕ × ℕ) → ℕ → Table
rows n offset [] end = (pos n, record { n = n; offset = offset; size = diff end offset }) ∷ []
rows n offset ((n', offset') ∷ es) end =
    (pos n, record { n = n; offset = offset; size = diff offset' offset }) ∷ rows n' offset' es end

-- The numbers are in an `int`, and none is in the table before or used twice; offsets are words.
abbrev pub AreEntries : Table → List (ℕ × ℕ) → Type 0
AreEntries t [] = Unit
AreEntries t ((n, offset) ∷ []) = (n < 2 ^ 31) × (offset < 2 ^ 32) × (lookup (pos n) t ≡ none)
AreEntries t ((n, offset) ∷ ((n', offset') ∷ es)) =
    ((n < 2 ^ 31) × (offset < 2 ^ 32) × (lookup (pos n) t ≡ none))
    × AreEntries
        (t ++ ((pos n, record { n = n; offset = offset; size = diff offset' offset }) ∷ []))
        ((n', offset') ∷ es)

insert-last :
    (k : ℤ) (v w : Section) (t : Table)
    → lookup k t ≡ none
    → insert k w (t ++ ((k, v) ∷ [])) ≡ t ++ ((k, w) ∷ [])
unfolding lookup insert
insert-last k v w [] h = rw (int_eq_self k)
insert-last k v w ((j, x) ∷ t) h = elim (Bool-cases (j == k)) [
  | inl same ↦ absurd (let f : some x ≡ none = rw same at h in cc)
  | inr other ↦ rw other (ap (λ r. (j, x) ∷ r) (insert-last k v w t (rw other at h)))
]

lookup-last :
    (k : ℤ) (v : Section) (t : Table) → lookup k t ≡ none → lookup k (t ++ ((k, v) ∷ [])) ≡ some v
unfolding lookup
lookup-last k v [] h = rw (int_eq_self k)
lookup-last k v ((j, x) ∷ t) h = elim (Bool-cases (j == k)) [
  | inl same ↦ absurd (let f : some x ≡ none = rw same at h in cc)
  | inr other ↦ rw other (lookup-last k v t (rw other at h))
]

set_size-last :
    (k size : ℤ) (e : Section) (t : Table)
    → lookup k t ≡ none
    → set_size k size (t ++ ((k, e) ∷ [])) ≡ t ++ ((k, record e { size = size }) ∷ [])
unfolding set_size
set_size-last k size e t h =
    let last : Table = t ++ ((k, e) ∷ []) in
    ap
      (λ o. elim o [
        | none ↦ insert k (record { n = 0; offset = 0; size = size }) last
        | some x ↦ insert k (record x { size = size }) last
      ])
      (lookup-last k e t h)
    ∙ insert-last k e (record e { size = size }) t h

abbrev finish : ℕ → Result (Table × Option Section) → Result Table
finish end r = do
  (t, last) ← r
  e ← or_throw last undefined
  ok (set_size (to_int32 e.n) (diff end e.offset) t)

head_of :
    (t : Table) (n offset : ℕ) (es : List (ℕ × ℕ))
    → AreEntries t ((n, offset) ∷ es)
    → (n < 2 ^ 31) × (offset < 2 ^ 32) × (lookup (pos n) t ≡ none)
head_of t n offset [] h = h
head_of t n offset (e ∷ es) h = h.0

toc_loop-AreEntries :
    (buf : Bytes) (toc i end n offset : ℕ) (es : List (ℕ × ℕ)) (t : Table)
    → AreEntries t ((n, offset) ∷ es)
    → At buf (toc + 8 * i) (encode_entries es)
    → finish end
        (toc_loop buf toc (length es) i (t ++ ((pos n, raw n offset) ∷ [])) (some (raw n offset)))
      ≡ ok (t ++ rows n offset es end)
unfolding toc_loop
toc_loop-AreEntries buf toc i end n offset [] t (ln, lo, fresh) at =
    rw (to_int32-pos n ln, set_size-last (pos n) (diff end offset) (raw n offset) t fresh)
toc_loop-AreEntries buf toc i end n offset ((n', offset') ∷ es) t ((ln, lo, fresh), rest) at =
    let t' : Table =
      t ++ ((pos n, record { n = n; offset = offset; size = diff offset' offset }) ∷ []) in
    let (at_n, at') =
      At-then buf (toc + 8 * i) (to_be 4 n') _ (toc + 8 * i + 4) at
        (omega (arith, length-to_be 4 n')) in
    let (at_o, at'') =
      At-then buf (toc + 8 * i + 4) (to_be 4 offset') (encode_entries es) (toc + 8 * (i + 1)) at'
        (omega (arith, length-to_be 4 offset')) in
    let (ln', lo', fresh') = head_of t' n' offset' es rest in
    rw (
      get_uint32-At buf (toc + 8 * i) n' (omega arith) at_n,
      get_uint32-At buf (toc + 8 * i + 4) offset' lo' at_o,
      to_int32-pos n ln,
      set_size-last (pos n) (diff offset' offset) (raw n offset) t fresh,
      to_int32-pos n' ln',
      insert-fresh (pos n') (raw n' offset') t' fresh',
      toc_loop-AreEntries buf toc (i + 1) end n' offset' es t' rest at'',
      append_assoc t ((pos n, record { n = n; offset = offset; size = diff offset' offset }) ∷ [])
          (rows n' offset' es end),
    )

nsections_of :
    (d k : ℕ) → 8 * k + 12 < 2 ^ 32 → (d + (8 * k + 12) + 2 ^ 33 - d - 12) % 2 ^ 32 / 8 ≡ k
nsections_of d k h = omega arith

pub length-encode_entries : (es : List (ℕ × ℕ)) → length (encode_entries es) ≡ 8 * length es
length-encode_entries [] = refl
length-encode_entries ((n, offset) ∷ es) = omega (
  arith,
  length-append (to_be 4 n) (to_be 4 offset ++ encode_entries es),
  length-to_be 4 n,
  length-append (to_be 4 offset) (encode_entries es),
  length-to_be 4 offset,
  length-encode_entries es,
)

-- The first round, which has no last section
first_round :
    (buf : Bytes) (toc end n offset : ℕ) (es : List (ℕ × ℕ))
    → AreEntries [] ((n, offset) ∷ es)
    → At buf toc (encode_entries ((n, offset) ∷ es))
    → finish end (toc_loop buf toc (suc (length es)) 0 [] none) ≡ ok (rows n offset es end)
unfolding toc_loop insert
first_round buf toc end n offset es entries at =
    let z : toc + 8 * 0 ≡ toc = omega arith in
    let (at_n, at') =
      At-then buf toc (to_be 4 n) _ (toc + 4) at (omega (arith, length-to_be 4 n)) in
    let (at_o, at'') =
      At-then buf (toc + 4) (to_be 4 offset) (encode_entries es) (toc + 8 * 1) at'
        (omega (arith, length-to_be 4 offset)) in
    let (ln, lo, fresh) = head_of [] n offset es entries in
    rw (
      z,
      get_uint32-At buf toc n (omega arith) at_n,
      get_uint32-At buf (toc + 4) offset lo at_o,
      to_int32-pos n ln,
      toc_loop-AreEntries buf toc 1 end n offset es [] entries at'',
    )

sub_zero : (a : ℕ) → sub_ℕ 0 (suc a) ≡ negsuc a
sub_zero a = ground arith

pub seek_back : (a b : ℕ) → seek (a + suc b) (negsuc b) ≡ ok a
unfolding seek
seek_back a b = ground arith

read_table-At :
    (buf : Bytes) (d n offset : ℕ) (es : List (ℕ × ℕ)) (end : ℕ)
    → AreEntries [] ((n, offset) ∷ es)
    → d < 2 ^ 32
    → 8 * suc (length es) + 12 < 2 ^ 32
    → end ≡ d + (8 * suc (length es) + 12)
    → At buf (d + (8 * suc (length es) + 8)) (to_be 4 d)
    → At buf d (encode_entries ((n, offset) ∷ es))
    → read_table buf (pos end) ≡ ok (rows n offset es end)
unfolding read_table
read_table-At buf d n offset es end entries ld le size at_d at =
    let k = suc (length es) in
    let w : seek end (negsuc 3) ≡ ok (d + (8 * k + 8)) =
      ap (λ e. seek e (negsuc 3)) (omega arith) ∙ seek_back (d + (8 * k + 8)) 3 in
    let count : (end + 2 ^ 33 - d - 12) % 2 ^ 32 / 8 ≡ k = rw size (nsections_of d k le) in
    let there : seek end (sub_ℕ 0 (12 + k * 8)) ≡ ok d =
      ap (λ z. seek end z) (ap (sub_ℕ 0) (omega arith) ∙ sub_zero (8 * k + 11))
      ∙ ap (λ e. seek e (negsuc (8 * k + 11))) (omega arith)
      ∙ seek_back d (8 * k + 11) in
    let some_ : eqb k 0 ≡ false = ground arith in
    rw (w, get_uint32-At buf (d + (8 * k + 8)) d ld at_d, count, there, some_)
      (first_round buf d end n offset es entries at)

-- A file of sections, a table of at least one entry and the closing words gives the table back:
-- each section with its offset, and with the size that reaches to the next offset, and for the last
-- one to the end of the file. The section numbers are distinct and in an `int`, the
-- offsets words, and an `int` counts the bytes of the file.
pub read_table-encode_entries :
    (body : Bytes) (n offset : ℕ) (es : List (ℕ × ℕ))
    → AreEntries [] ((n, offset) ∷ es)
    → length body + (8 * suc (length es) + 12) < 2 ^ 31
    → (let buf =
          body
          ++ (encode_entries ((n, offset) ∷ es) ++ (codes "Clarissa" ++ to_be 4 (length body))) in
        read_table buf (pos (length buf)) ≡ ok (rows n offset es (length buf)))
read_table-encode_entries body n offset es entries short =
    let t = encode_entries ((n, offset) ∷ es) in
    let w = to_be 4 (length body) in
    let c = codes "Clarissa" in
    let buf = body ++ (t ++ (c ++ w)) in
    let lt : length t ≡ 8 * suc (length es) = length-encode_entries ((n, offset) ∷ es) in
    let lw : length w ≡ 4 = length-to_be 4 (length body) in
    let whole : At buf (length body) (t ++ (c ++ w)) =
      subst (λ z. At (body ++ z) (length body) (t ++ (c ++ w))) (append-nil (t ++ (c ++ w)))
        (At-whole body (t ++ (c ++ w)) []) in
    let (at, at') =
      At-then buf (length body) t (c ++ w) (length body + 8 * suc (length es)) whole
        (omega arith) in
    let (at_c, at_w) =
      At-then buf (length body + 8 * suc (length es)) c w (length body + (8 * suc (length es) + 8))
        at' (omega arith) in
    read_table-At buf (length body) n offset es (length buf) entries (omega arith) (omega arith)
      (omega
        (arith, length-append body (t ++ (c ++ w)), length-append t (c ++ w), length-append c w))
      at_w at
