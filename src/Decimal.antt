-- ===== src/Decimal.antt =====
-- Decimal numbers as the C++ library prints and reads them: `operator<<`, `std::stoll` and
-- `std::stoul`, which skip white space, take a sign and stop at the first byte that is no digit.
pub mod ReadBack
use pixel_scrape.Base.{
  ℕ, zero, suc, ◌+◌, ◌-◌, ◌*◌, ◌/◌, ◌%◌, ◌^◌, Bool, true, false, ◌&&◌, ◌||◌, Option, none, some, [],
  ◌∷◌, ◌++◌, ltb, leb, ◌==◌, if◌then◌else◌,
}
use pixel_scrape.Base.Bytes.{Bytes, size_mod}

-- `int64_t` as an integer: `negsuc n` is -(n + 1).
pub data ℤ : Type 0 where
  pos : ℕ → ℤ
  negsuc : ℕ → ℤ

abbrev pub is_digit : ℕ → Bool
is_digit c = leb b'0' c && leb c b'9'

abbrev pub is_space : ℕ → Bool
is_space c = c == 32 || (leb 9 c && leb c 13)

-- The digits of `n`; fuel `n` is enough.
print_digits : ℕ → ℕ → Bytes
print_digits zero n = (48 + n) ∷ []
print_digits (suc f) n = elim (ltb n 10) [
  | true ↦ (48 + n) ∷ []
  | false ↦ print_digits f (n / 10) ++ (48 + n % 10) ∷ []
]

unfoldable pub print_nat : ℕ → Bytes
unfolding print_digits
print_nat n = print_digits n n

unfoldable pub print_int : ℤ → Bytes
unfolding print_nat
print_int (pos n) = print_nat n
print_int (negsuc n) = b'-' ∷ print_nat (suc n)

unfoldable pub skip_spaces : Bytes → Bytes
skip_spaces [] = []
skip_spaces (c ∷ cs) = if is_space c then skip_spaces cs else c ∷ cs

-- The value of the digits at the front, after those that gave `acc`.
unfoldable pub read_digits : ℕ → Bytes → ℕ
read_digits acc [] = acc
read_digits acc (c ∷ cs) =
    let more = read_digits (acc * 10 + (c - 48)) cs in if is_digit c then more else acc

-- `none` where no digit stands at the front: `std::invalid_argument`.
unfoldable pub read_magnitude : Bytes → Option ℕ
read_magnitude [] = none
read_magnitude (c ∷ cs) = if is_digit c then some (read_digits 0 (c ∷ cs)) else none

-- A sign at the front, and what follows it.
unfoldable pub read_sign : Bytes → Bool × Bytes
read_sign [] = (false, [])
read_sign (c ∷ cs) =
    if c == b'-' then (true, cs) else if c == b'+' then (false, cs) else (false, c ∷ cs)

-- The rest of `std::stoll`, from the sign and the text behind it.
unfoldable pub signed_of : Bool × Bytes → Option ℤ
signed_of (negative, digits) = elim (read_magnitude digits) [
  | none ↦ none
  | some n ↦
      if negative
      then if leb n (2 ^ 63) then some (if n == 0 then pos 0 else negsuc (n - 1)) else none
      else if ltb n (2 ^ 63)
      then some (pos n)
      else none
]

-- `std::stoll`; `none` is a thrown exception.
unfoldable pub stoll : Bytes → Option ℤ
stoll s = signed_of (read_sign (skip_spaces s))

-- The rest of `std::stoul`, which wraps a negative number around.
unfoldable pub unsigned_of : Bool × Bytes → Option ℕ
unsigned_of (negative, digits) = elim (read_magnitude digits) [
  | none ↦ none
  | some n ↦
      if ltb n size_mod then some (if negative then (size_mod - n) % size_mod else n) else none
]

-- `std::stoul`.
unfoldable pub stoul : Bytes → Option ℕ
stoul s = unsigned_of (read_sign (skip_spaces s))
