-- ===== src/Bencode/Jump.antt =====
-- A string length near 2^64 sends the parser's position back.
use pixel_scrape.Base.{ℕ, zero, suc, ◌≡◌, refl, ap, ◌++◌, arith, length, le→ltb}
use pixel_scrape.Base.Bytes.{Bytes, codes}
use pixel_scrape.Bencode.{item, list, string}
use pixel_scrape.Bencode.Parser.{
  ◌>>=◌, ok, out_of_fuel, prefix, read_string, find_byte, parse_string, parse_items, parse,
}
use pixel_scrape.Decimal.{stoul, skip_spaces, read_sign, read_magnitude, read_digits, unsigned_of}

-- `l18446744073709551595:`, a list whose first string has a length of 2^64 - 21.
abbrev pub jumping : Bytes
jumping = codes "l18446744073709551595:"

-- The length makes the end of the string wrap round to where the string began.
parse_string-jumping :
    (rest : Bytes) → parse_string (jumping ++ rest) 1 ≡ ok (prefix rest 18446744073709551595, 1)
unfolding parse_string read_string prefix find_byte stoul skip_spaces read_sign read_magnitude
    read_digits unsigned_of
parse_string-jumping rest =
    rw (le→ltb (length (jumping ++ rest)) 1 (omega arith), parse_string, read_string)

-- So the loop over the list reads the same string again and again.
parse_items-jumping : (rest : Bytes) (f : ℕ) → parse_items f (jumping ++ rest) 1 ≡ out_of_fuel
unfolding parse_items
parse_items-jumping rest zero = refl
parse_items-jumping rest (suc zero) = refl
parse_items-jumping rest (suc (suc f)) =
    rw (parse_string-jumping rest, parse_items)
      (ap (λ r. r >>= λ (vs, q). ok (item (string (prefix rest 18446744073709551595)) vs, q))
        (parse_items-jumping rest (suc f)))

-- No data that begin with these 22 bytes are ever parsed: whatever follows and whatever fuel is
-- given, the parser runs out of it.
pub parse-jumping : (rest : Bytes) (f : ℕ) → parse f (jumping ++ rest) ≡ out_of_fuel
unfolding parse
parse-jumping rest zero = refl
parse-jumping rest (suc f) = ap (λ r. r >>= λ (vs, q). ok (list vs, q)) (parse_items-jumping rest f)
