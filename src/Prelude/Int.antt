-- ===== src/Prelude/Int.antt =====
-- Signed integers over the native numbers, and the `int` of the program: a 32-bit signed integer.
use libpsf.Prelude.{
  ℕ, suc, ◌+◌, ◌-◌, ◌*◌, ◌≤◌, ◌<◌, ◌^◌, ◌≡◌, Bool, false, arith, ltb, leb, eqb, if◌then◌else◌,
}

-- `negsuc n` is -(n + 1).
pub data ℤ : Type 0 where
  pos : ℕ → ℤ
  negsuc : ℕ → ℤ

abbrev pub pos_part : ℤ → ℕ
pos_part (pos n) = n
pos_part (negsuc n) = 0

abbrev pub neg_part : ℤ → ℕ
neg_part (pos n) = 0
neg_part (negsuc n) = suc n

-- a - b, as an integer.
abbrev pub sub_ℕ : ℕ → ℕ → ℤ
sub_ℕ a b = if leb b a then pos (a - b) else negsuc (b - a - 1)

infixl 65 ◌+ℤ◌ ◌-ℤ◌
abbrev pub ◌+ℤ◌ : ℤ → ℤ → ℤ
a +ℤ b = sub_ℕ (pos_part a + pos_part b) (neg_part a + neg_part b)

abbrev pub ◌-ℤ◌ : ℤ → ℤ → ℤ
a -ℤ b = sub_ℕ (pos_part a + neg_part b) (neg_part a + pos_part b)

infixl 70 ◌*ℤ◌
unfoldable pub ◌*ℤ◌ : ℤ → ℤ → ℤ
a *ℤ b =
    sub_ℕ (pos_part a * pos_part b + neg_part a * neg_part b)
      (pos_part a * neg_part b + neg_part a * pos_part b)

abbrev pub eqb_ℤ : ℤ → ℤ → Bool
eqb_ℤ (pos a) (pos b) = eqb a b
eqb_ℤ (negsuc a) (negsuc b) = eqb a b
eqb_ℤ _ _ = false

abbrev pub leb_ℤ : ℤ → ℤ → Bool
leb_ℤ a b = leb (pos_part a + neg_part b) (pos_part b + neg_part a)

-- The `int` with the bit pattern of a 32-bit word, and the `int8_t` with that of a byte.
unfoldable pub to_int32 : ℕ → ℤ
to_int32 w = if ltb w (2 ^ 31) then pos w else negsuc (2 ^ 32 - 1 - w)

unfoldable pub to_int8 : ℕ → ℤ
to_int8 b = if ltb b 128 then pos b else negsuc (255 - b)

-- An integer that an `int` holds.
abbrev pub InInt : ℤ → Type 0
InInt z = (pos_part z < 2 ^ 31) × (neg_part z ≤ 2 ^ 31)

abbrev pub fits_int : ℤ → Bool
fits_int z = if ltb (pos_part z) (2 ^ 31) then leb (neg_part z) (2 ^ 31) else false

pub to_int32-InInt : (w : ℕ) → InInt (to_int32 w)
unfolding to_int32
to_int32-InInt w = ground arith

-- The non-negative `int`s are the words below 2^31.
pub to_int32-pos : (w : ℕ) → w < 2 ^ 31 → to_int32 w ≡ pos w
unfolding to_int32
to_int32-pos w h = ground arith

-- The bit pattern of an `int`.
unfoldable pub to_word : ℤ → ℕ
to_word (pos n) = n
to_word (negsuc n) = 2 ^ 32 - 1 - n

pub to_word-lt : (z : ℤ) → InInt z → to_word z < 2 ^ 32
unfolding to_word
to_word-lt (pos n) h = omega arith
to_word-lt (negsuc n) h = omega arith

pub to_int32-to_word : (z : ℤ) → InInt z → to_int32 (to_word z) ≡ z
unfolding to_int32 to_word
to_int32-to_word (pos n) h = ground arith
to_int32-to_word (negsuc n) h = ground arith

pub to_word-to_int32 : (w : ℕ) → w < 2 ^ 32 → to_word (to_int32 w) ≡ w
unfolding to_int32 to_word
to_word-to_int32 w h = ground arith
