-- ===== src/Buffer.antt =====
-- The mapped file as a list of bytes, and the reads that the macros GET_INT32 and GET_DOUBLE of
-- src/psfinternal.h make at a position of it (be64toh is in src/psfendian.h).
pub mod Words
pub mod At
use Prim.Native.Char.{code}
use Prim.Native.String.{String}
use libpsf.Prelude.{ℕ, zero, suc, ◌+◌, ◌*◌, ◌<◌, List, [], ◌∷◌, get_elem?, Option, none, some}
use libpsf.Prelude.Int.{ℤ, pos, negsuc, to_int32, ◌+ℤ◌}
use libpsf.Outcome.{Result, ok, err, undefined, or_throw, ◌>>=◌}

abbrev pub Bytes : Type 0
Bytes = List ℕ

-- The bytes of a literal of the source, which is ASCII.
abbrev pub codes : String → Bytes
codes String.[] = []
codes (String.◌∷◌ c s) = code c ∷ codes s

-- A deserialiser: what it read at a position, and how many bytes it took.
abbrev pub Parser {ℓ} : Type ℓ → Type ℓ
Parser A = Bytes → ℕ → Result (A × ℕ)

unfoldable pub byte_at : Bytes → ℕ → Result ℕ
byte_at buf p = or_throw (get_elem? buf p) undefined

-- std::string(buf, n), and the bytes that a wider read takes
unfoldable pub read_bytes : Bytes → ℕ → ℕ → Result Bytes
unfolding byte_at
read_bytes buf p zero = ok []
read_bytes buf p (suc n) = do b ← byte_at buf p; bs ← read_bytes buf (p + 1) n; ok (b ∷ bs)

-- ntohl and be64toh: the first byte is the highest.
unfoldable pub from_be : ℕ → Bytes → ℕ
from_be acc [] = acc
from_be acc (b ∷ bs) = from_be (acc * 256 + b) bs

unfoldable pub get_uint32 : Bytes → ℕ → Result ℕ
get_uint32 buf p = do bs ← read_bytes buf p 4; ok (from_be 0 bs)

-- The 64 bits of a double.
unfoldable pub get_double : Bytes → ℕ → Result ℕ
get_double buf p = do bs ← read_bytes buf p 8; ok (from_be 0 bs)

-- GET_INT32 where the code stores it in an `int`.
unfoldable pub get_int32 : Bytes → ℕ → Result ℤ
get_int32 buf p = do w ← get_uint32 buf p; ok (to_int32 w)

-- A pointer moved by an `int`, which leaves the file where it falls before its first byte.
unfoldable pub seek : ℕ → ℤ → Result ℕ
seek p d = elim (pos p +ℤ d) [ pos q ↦ ok q | negsuc _ ↦ err undefined ]
