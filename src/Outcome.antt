-- ===== src/Outcome.antt =====
-- Outcomes of the program's functions: the exceptions of include/psf.h, those of the C++ library
-- that the code can meet, and undefined behaviour, as values.
use libpsf.Prelude.{◌≡◌, refl, ap, ◌∙◌, ◌≢◌, Bool, true, false, Option, none, some, if◌then◌else◌}
use libpsf.Prelude.Int.{ℤ, ◌+ℤ◌, ◌-ℤ◌, ◌*ℤ◌, fits_int}
use mathlib.Core.Path.{subst}

pub data Error : Type 0 where
  incorrect_chunk unknown_type : ℤ → Error
  not_implemented file_open_error invalid_file_error file_close_error : Error
  not_found data_set_not_open property_not_found : Error
  -- std::bad_cast, std::out_of_range, std::length_error, a failed assert
  bad_cast out_of_range length_error assert_failed : Error
  -- undefined behaviour: a read outside of the file, a null pointer, an iterator at its end, an
  -- `int` that overflows, a function left without its return
  undefined : Error

-- `stuck` has no counterpart in the program: a loop of the model ran out of fuel.
pub data Result {ℓ} (A : Type ℓ) : Type ℓ where
  ok : A → Result A
  err : Error → Result A
  stuck : Result A

infixl 5 ◌>>=◌
abbrev pub ◌>>=◌ {ℓ κ} : {A : Type ℓ} {B : Type κ} → Result A → (A → Result B) → Result B
stuck >>= next = stuck
err thrown >>= next = err thrown
ok value >>= next = next value

abbrev pub or_throw {ℓ} : {A : Type ℓ} → Option A → Error → Result A
or_throw none e = err e
or_throw (some a) e = ok a

-- `int` sums, undefined where they overflow.
unfoldable pub add_int : ℤ → ℤ → Result ℤ
add_int a b = let s = a +ℤ b in if fits_int s then ok s else err undefined

unfoldable pub mul_int : ℤ → ℤ → Result ℤ
mul_int a b = let s = a *ℤ b in if fits_int s then ok s else err undefined

unfoldable pub sub_int : ℤ → ℤ → Result ℤ
sub_int a b = let s = a -ℤ b in if fits_int s then ok s else err undefined

-- The run is within its fuel, and its value, if it has one, satisfies `P`.
pub data Yields {ℓ κ} {A : Type ℓ} (P : A → Type κ) : Result A → Type (ℓ ⊔ κ) where
  holds : {a : A} → P a → Yields P (ok a)
  throws : (e : Error) → Yields P (err e)

module _ {ℓ κ} {A : Type ℓ} {P : A → Type κ} where
  pub Yields-ok : {r : Result A} {a : A} → Yields P r → r ≡ ok a → P a
  Yields-ok (holds h) e = subst P (cc) h
  Yields-ok (throws x) e = cc

  pub Yields-stuck : {r : Result A} → Yields P r → r ≢ stuck
  Yields-stuck (holds h) = cc
  Yields-stuck (throws x) = cc

  pub Yields-of : (r : Result A) → r ≢ stuck → ((a : A) → r ≡ ok a → P a) → Yields P r
  Yields-of (ok a) n h = holds (h a refl)
  Yields-of (err e) n h = throws e
  Yields-of stuck n h = absurd (n refl)

  pub Yields-or_throw :
      (o : Option A) (e : Error) → ((a : A) → o ≡ some a → P a) → Yields P (or_throw o e)
  Yields-or_throw none e h = throws e
  Yields-or_throw (some a) e h = holds (h a refl)

  pub Yields-if :
      (b : Bool) {x y : Result A}
      → (b ≡ true → Yields P x)
      → (b ≡ false → Yields P y)
      → Yields P (if b then x else y)
  Yields-if true hx hy = hx refl
  Yields-if false hx hy = hy refl

-- The value that is given, too
pub Yields-eq {ℓ κ} :
    {A : Type ℓ} {P : A → Type κ} {r : Result A} → Yields P r → Yields (λ a. P a × (r ≡ ok a)) r
Yields-eq (holds h) = holds (h, refl)
Yields-eq (throws e) = throws e

module _ {ℓ κ ℓ' κ'} {A : Type ℓ} {P : A → Type κ} {B : Type ℓ'} {Q : B → Type κ'} where
  pub Yields-bind :
      {r : Result A} {f : A → Result B}
      → Yields P r
      → ((a : A) → P a → Yields Q (f a))
      → Yields Q (r >>= f)
  Yields-bind (holds {a} h) k = k a h
  Yields-bind (throws e) k = throws e

pub Yields-weaken {ℓ κ κ'} :
    {A : Type ℓ} {P : A → Type κ} {Q : A → Type κ'} {r : Result A}
    → Yields P r
    → ((a : A) → P a → Q a)
    → Yields Q r
Yields-weaken (holds {a} h) k = holds (k a h)
Yields-weaken (throws e) k = throws e

-- Inversion of a successful bind.
pub >>=-ok {ℓ κ} :
    {A : Type ℓ} {B : Type κ} (first : Result A) (next : A → Result B) {last : B}
    → (first >>= next) ≡ ok last
    → (middle : A) × (first ≡ ok middle) × (next middle ≡ ok last)
>>=-ok stuck next ran = cc
>>=-ok (err thrown) next ran = cc
>>=-ok (ok middle) next ran = (middle, refl, ran)

-- A bind whose first part gives a value
pub >>=-step {ℓ κ} :
    {A : Type ℓ} {B : Type κ} {first : Result A} {middle : A} (next : A → Result B)
    {last : Result B}
    → first ≡ ok middle
    → next middle ≡ last
    → (first >>= next) ≡ last
>>=-step next made rest = ap (λ r. r >>= next) made ∙ rest

-- Two functions on the value of a result, one after the other
pub >>=-after {ℓ κ μ} :
    {A : Type ℓ} {B : Type κ} {C : Type μ} (r : Result A) (g : A → B) (h : B → C)
    → ((do a ← r; ok (g a)) >>= (λ b. ok (h b))) ≡ (do a ← r; ok (h (g a)))
>>=-after (ok a) g h = refl
>>=-after (err e) g h = refl
>>=-after stuck g h = refl

-- The sums and products of the program are within the fuel.
pub add_int-Yields : (a b : ℤ) → Yields (λ s. s ≡ a +ℤ b) (add_int a b)
unfolding add_int
add_int-Yields a b = Yields-if (fits_int (a +ℤ b)) (λ _. holds refl) (λ _. throws undefined)

pub sub_int-Yields : (a b : ℤ) → Yields (λ s. s ≡ a -ℤ b) (sub_int a b)
unfolding sub_int
sub_int-Yields a b = Yields-if (fits_int (a -ℤ b)) (λ _. holds refl) (λ _. throws undefined)

pub mul_int-Yields : (a b : ℤ) → Yields (λ s. s ≡ a *ℤ b) (mul_int a b)
unfolding mul_int
mul_int-Yields a b = Yields-if (fits_int (a *ℤ b)) (λ _. holds refl) (λ _. throws undefined)
