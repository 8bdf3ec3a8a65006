-- ===== src/Bencode/Parser.antt =====
-- `BencodeParser`: the parser's state is the data and a position in it.
use pixel_scrape.Base.{
  ℕ, zero, suc, ◌+◌, ◌%◌, Bool, false, ◌&&◌, ◌||◌, Option, none, some, [], ◌∷◌, ltb, ◌==◌,
  if◌then◌else◌, length, get_elem?, drop,
}
use pixel_scrape.Base.Bytes.{Bytes, size_mod}
use pixel_scrape.Decimal.{ℤ, is_digit, stoll, stoul}
use pixel_scrape.Bencode.{
  Value, Items, Fields, integer, string, list, dict, no_items, item, no_fields, assign,
}

-- `failed` is a thrown exception; `out_of_fuel` has no counterpart in the program.
pub data Result {ℓ} (A : Type ℓ) : Type ℓ where
  ok : A → Result A
  failed out_of_fuel : Result A

infixl 5 ◌>>=◌
abbrev pub ◌>>=◌ {ℓ κ} : {A : Type ℓ} {B : Type κ} → Result A → (A → Result B) → Result B
ok a >>= f = f a
failed >>= f = failed
out_of_fuel >>= f = out_of_fuel

abbrev pub or_fail {ℓ} : {A : Type ℓ} → Option A → Result A
or_fail none = failed
or_fail (some a) = ok a

-- The offset of the first byte `c`.
unfoldable pub find_byte : ℕ → Bytes → Option ℕ
find_byte c [] = none
find_byte c (x ∷ xs) =
    if x == c then some 0 else elim (find_byte c xs) [ none ↦ none | some n ↦ some (suc n) ]

-- `substr(0, n)`.
unfoldable pub prefix : Bytes → ℕ → Bytes
prefix [] n = []
prefix (x ∷ xs) zero = []
prefix (x ∷ xs) (suc n) = x ∷ prefix xs n

-- The tests for zeros that have no business there.
unfoldable pub bad_zero : Bytes → Bool
bad_zero (x ∷ y ∷ _) = x == b'0' || (x == b'-' && y == b'0')
bad_zero _ = false

-- The number that `int_str` denotes.
unfoldable pub read_integer : Bytes → Result ℤ
read_integer s = if bad_zero s then failed else or_fail (stoll s)

unfoldable pub parse_integer : Bytes → ℕ → Result (ℤ × ℕ)
parse_integer xs p = do
  n ← or_fail (find_byte b'e' (drop (p + 1) xs))
  z ← read_integer (prefix (drop (p + 1) xs) n)
  ok (z, p + 1 + n + 1)

-- A string of `size` bytes from position `p` on. The test `pos_ + length > data_.size()` and the new
-- position are computed in `size_t`.
unfoldable pub read_string : Bytes → ℕ → ℕ → Result (Bytes × ℕ)
read_string xs p size =
    let stop = (p + size) % size_mod in
    if ltb (length xs) stop then failed else ok (prefix (drop p xs) size, stop)

unfoldable pub parse_string : Bytes → ℕ → Result (Bytes × ℕ)
parse_string xs p = do
  n ← or_fail (find_byte b':' (drop p xs))
  size ← or_fail (stoul (prefix (drop p xs) n))
  read_string xs (p + n + 1) size

-- A call for each value and each turn of a loop costs a unit of fuel.
unfoldable mutual
  pub parse_value : ℕ → Bytes → ℕ → Result (Value × ℕ)
  parse_value zero xs p = out_of_fuel
  parse_value (suc f) xs p =
      let a_list = parse_items f xs (p + 1) >>= λ (vs, q). ok (list vs, q) in
      let a_dict = parse_fields f xs (p + 1) no_fields >>= λ (fs, q). ok (dict fs, q) in
      elim (get_elem? xs p) [
        | none ↦ failed
        | some c ↦
            if c == b'i'
            then (parse_integer xs p >>= λ (z, q). ok (integer z, q))
            else if c == b'l'
            then a_list
            else if c == b'd'
            then a_dict
            else if is_digit c
            then (parse_string xs p >>= λ (s, q). ok (string s, q))
            else failed
      ]

  pub parse_items : ℕ → Bytes → ℕ → Result (Items × ℕ)
  parse_items zero xs p = out_of_fuel
  parse_items (suc f) xs p =
      let more =
        parse_value f xs p >>= λ (v, q). parse_items f xs q >>= λ (vs, r). ok (item v vs, r) in
      elim (get_elem? xs p) [
        | none ↦ failed
        | some c ↦ if c == b'e' then ok (no_items, p + 1) else more
      ]

  pub parse_fields : ℕ → Bytes → ℕ → Fields → Result (Fields × ℕ)
  parse_fields zero xs p fs = out_of_fuel
  parse_fields (suc f) xs p fs =
      let more = parse_string xs p >>= λ (k, q).
      parse_value f xs q >>= λ (v, r). parse_fields f xs r (assign k v fs) in
      elim (get_elem? xs p) [ none ↦ failed | some c ↦ if c == b'e' then ok (fs, p + 1) else more ]

-- `BencodeParser::parse`: the value and the bytes consumed.
unfoldable pub parse : ℕ → Bytes → Result (Value × ℕ)
unfolding parse_value
parse f xs = parse_value f xs 0
