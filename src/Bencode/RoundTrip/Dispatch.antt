-- ===== src/Bencode/RoundTrip/Dispatch.antt =====
-- One call of each of the parser's functions, by the byte that it finds.
use pixel_scrape.Base.{
  ℕ, suc, ◌+◌, ◌<◌, ◌≡◌, refl, ap, subst, true, false, some, ◌∷◌, ◌++◌, arith, ◌==◌, length,
  get_elem?,
}
use pixel_scrape.Base.Bytes.{Bytes}
use pixel_scrape.Decimal.{is_digit}
use pixel_scrape.Decimal.ReadBack.{AreDigits, print_nat-IsNumeral}
use pixel_scrape.Bencode.{
  Value, Fields, integer, string, list, dict, no_items, item, no_fields, assign, encode_string,
  encode,
}
use pixel_scrape.Bencode.Parser.{
  ◌>>=◌, ok, parse_integer, parse_string, parse_value, parse_items, parse_fields,
}

-- The first byte of an encoded value is no `e`.
abbrev pub HeadOf : Value → Type 0
HeadOf v = (c : ℕ) × (cs : Bytes) × (encode v ≡ c ∷ cs) × ((c == b'e') ≡ false)

pub digit-ne : (c k : ℕ) → 57 < k → is_digit c ≡ true → (c == k) ≡ false
digit-ne c k h d = ground arith

pub encode_string-head :
    (s : Bytes) → (c : ℕ) × (cs : Bytes) × (encode_string s ≡ c ∷ cs) × (is_digit c ≡ true)
unfolding encode_string
encode_string-head s =
    let v = print_nat-IsNumeral (length s) in
    let d : AreDigits (v.first ∷ v.others) = subst AreDigits v.splits v.digits in
    (v.first, v.others ++ b':' ∷ s, ap (λ t. t ++ b':' ∷ s) v.splits, d.0)

pub encode-head : (v : Value) → HeadOf v
unfolding encode
encode-head (integer z) = (_, _, refl, refl)
encode-head (string s) =
    let (c, cs, e, d) = encode_string-head s in (c, cs, e, digit-ne c b'e' (omega arith) d)
encode-head (list xs) = (_, _, refl, refl)
encode-head (dict fs) = (_, _, refl, refl)

-- One call of `parse_value`, by the byte that it finds.
module _ (f : ℕ) (xs : Bytes) (p : ℕ) where
  pub parse_value-i :
      get_elem? xs p ≡ some b'i'
      → parse_value (suc f) xs p ≡ (parse_integer xs p >>= λ (z, q). ok (integer z, q))
  unfolding parse_value
  parse_value-i e = rw (e, parse_value)

  pub parse_value-l :
      get_elem? xs p ≡ some b'l'
      → parse_value (suc f) xs p ≡ (parse_items f xs (p + 1) >>= λ (vs, q). ok (list vs, q))
  unfolding parse_value
  parse_value-l e = rw (e, parse_value)

  pub parse_value-d :
      get_elem? xs p ≡ some b'd'
      → parse_value (suc f) xs p
        ≡ (parse_fields f xs (p + 1) no_fields >>= λ (fs, q). ok (dict fs, q))
  unfolding parse_value
  parse_value-d e = rw (e, parse_value)

  pub parse_value_digit :
      (c : ℕ)
      → get_elem? xs p ≡ some c
      → is_digit c ≡ true
      → parse_value (suc f) xs p ≡ (parse_string xs p >>= λ (s, q). ok (string s, q))
  unfolding parse_value
  parse_value_digit c e d = rw (
    e,
    parse_value,
    digit-ne c b'i' (omega arith) d,
    digit-ne c b'l' (omega arith) d,
    digit-ne c b'd' (omega arith) d,
    d,
  )

  pub parse_items_end : get_elem? xs p ≡ some b'e' → parse_items (suc f) xs p ≡ ok (no_items, p + 1)
  unfolding parse_items
  parse_items_end e = rw (e, parse_items)

  pub parse_items_more :
      (c : ℕ)
      → get_elem? xs p ≡ some c
      → (c == b'e') ≡ false
      → parse_items (suc f) xs p
        ≡ (parse_value f xs p >>= λ (v, q). parse_items f xs q >>= λ (vs, r). ok (item v vs, r))
  unfolding parse_items
  parse_items_more c e ne = rw (e, parse_items, ne)

  pub parse_fields_end :
      (fs : Fields) → get_elem? xs p ≡ some b'e' → parse_fields (suc f) xs p fs ≡ ok (fs, p + 1)
  unfolding parse_fields
  parse_fields_end fs e = rw (e, parse_fields)

  pub parse_fields_more :
      (fs : Fields) (c : ℕ)
      → get_elem? xs p ≡ some c
      → (c == b'e') ≡ false
      → parse_fields (suc f) xs p fs ≡ (
          parse_string xs p >>= λ (k, q).
          parse_value f xs q >>= λ (v, r). parse_fields f xs r (assign k v fs))
  unfolding parse_fields
  parse_fields_more fs c e ne = rw (e, parse_fields, ne)
