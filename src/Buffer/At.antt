-- ===== src/Buffer/At.antt =====
-- The bytes that stand at a position of the file, and the reads of bytes.
use libpsf.Prelude.{
  ℕ, zero, suc, ◌+◌, ◌≤◌, ◌≡◌, refl, ◌⊎◌, inl, some, [], ◌∷◌, ◌++◌, arith, length, get_elem?,
  length-append, append_assoc, lt_of_get_elem?,
}
use libpsf.Outcome.{ok, Yields, holds, Yields-bind, Yields-or_throw, undefined}
use libpsf.Buffer.{Bytes, read_bytes}

abbrev pub At : Bytes → ℕ → Bytes → Type 0
At buf p [] = Unit {0}
At buf p (x ∷ xs) = (get_elem? buf p ≡ some x) × At buf (p + 1) xs

pub At-append :
    (buf : Bytes) (p : ℕ) (xs ys : Bytes)
    → At buf p (xs ++ ys)
    → At buf p xs × At buf (p + length xs) ys
At-append buf p [] ys h = (tt, let e : p + 0 ≡ p = omega arith in rw e h)
At-append buf p (x ∷ xs) ys (hx, h) =
    let (l, r) = At-append buf (p + 1) xs ys h in
    let e : p + suc (length xs) ≡ p + 1 + length xs = omega arith in ((hx, l), rw e r)

-- The same, with the position of the second part given.
pub At-then :
    (buf : Bytes) (p : ℕ) (xs ys : Bytes) (q : ℕ)
    → At buf p (xs ++ ys)
    → p + length xs ≡ q
    → At buf p xs × At buf q ys
At-then buf p xs ys q h e = let (l, r) = At-append buf p xs ys h in (l, rw e at r)

get_elem?-middle : (pre post : Bytes) (x : ℕ) → get_elem? (pre ++ (x ∷ post)) (length pre) ≡ some x
get_elem?-middle [] post x = refl
get_elem?-middle (y ∷ pre) post x = get_elem?-middle pre post x

-- What a list holds behind some of its bytes stands there.
pub At-whole : (pre xs post : Bytes) → At (pre ++ (xs ++ post)) (length pre) xs
At-whole pre [] post = tt
At-whole pre (x ∷ xs) post =
    let rest = At-whole (pre ++ (x ∷ [])) xs post in
    let e : length (pre ++ (x ∷ [])) ≡ length pre + 1 = omega (arith, length-append pre (x ∷ [])) in
    (get_elem?-middle pre (xs ++ post) x, rw (e, append_assoc) at rest)

pub read_bytes-At :
    (buf : Bytes) (p : ℕ) (xs : Bytes) → At buf p xs → read_bytes buf p (length xs) ≡ ok xs
unfolding read_bytes
read_bytes-At buf p [] h = refl
read_bytes-At buf p (x ∷ xs) (hx, h) = rw (hx, read_bytes-At buf (p + 1) xs h)

pub read_bytes-Yields :
    (buf : Bytes) (p n : ℕ)
    → Yields
        (λ bs. (length bs ≡ n) × ((n ≡ 0) ⊎ (p + n ≤ length buf)) × At buf p bs)
        (read_bytes buf p n)
unfolding read_bytes
read_bytes-Yields buf p zero = holds (refl, inl refl, tt)
read_bytes-Yields buf p (suc n) =
    Yields-bind (Yields-or_throw (get_elem? buf p) undefined (λ b e. e)) λ b e.
      Yields-bind (read_bytes-Yields buf (p + 1) n)
        λ bs (l, le, at). holds (omega arith, omega (arith, lt_of_get_elem? buf p e), (e, at))

pub At-join :
    (buf : Bytes) (p : ℕ) (xs ys : Bytes) (q : ℕ)
    → At buf p xs
    → p + length xs ≡ q
    → At buf q ys
    → At buf p (xs ++ ys)
At-join buf p [] ys q h e g = let same : q ≡ p = omega arith in rw same at g
At-join buf p (x ∷ xs) ys q (hx, h) e g = (hx, At-join buf (p + 1) xs ys q h (omega arith) g)
