-- ===== src/Bencode/RoundTrip/Tokens.antt =====
-- Printed numbers and strings, read at a place in the data.
use pixel_scrape.Base.{
  ℕ, suc, ◌+◌, ◌%◌, ◌<◌, ◌≡◌, ◌≢◌, refl, ap, subst, ◌∙◌, ◌⊎◌, inr, true, false, some, [], ◌∷◌, ◌++◌,
  arith, append_assoc, ltb, ◌==◌, le→ltb, All, length, drop, drop_past, length-append,
  length-drop_cons,
}
use pixel_scrape.Base.Bytes.{Bytes, size_mod}
use pixel_scrape.Decimal.{ℤ, pos, negsuc, is_digit, print_nat, print_int, stoul}
use pixel_scrape.Decimal.ReadBack.{
  IsNumeral, AreDigits, print_nat-IsNumeral, stoul-print_nat, stoll-print_int, FitsInt64,
}
use pixel_scrape.Bencode.{encode_string}
use pixel_scrape.Bencode.Parser.{
  or_fail, ok, find_byte, prefix, bad_zero, read_integer, read_string, parse_integer, parse_string,
}

find_byte-append :
    (c : ℕ) (xs ys : Bytes)
    → All (λ x. (x == c) ≡ false) xs
    → find_byte c (xs ++ c ∷ ys) ≡ some (length xs)
unfolding find_byte
find_byte-append c [] ys h = ground arith
find_byte-append c (x ∷ xs) ys h = rw (h.0, find_byte) (rw (find_byte-append c xs ys h.1))

prefix-append : (xs ys : Bytes) → prefix (xs ++ ys) (length xs) ≡ xs
unfolding prefix
prefix-append [] [] = refl
prefix-append [] (y ∷ ys) = refl
prefix-append (x ∷ xs) ys = ap (◌∷◌ x) (prefix-append xs ys)

AreDigits-ne :
    (xs : Bytes) (c : ℕ) → (c < 48) ⊎ (57 < c) → AreDigits xs → All (λ x. (x == c) ≡ false) xs
AreDigits-ne [] c h d = tt
AreDigits-ne (x ∷ xs) c h d = (ground (arith, d.0), AreDigits-ne xs c h d.1)

read_string_whole :
    (xs : Bytes) (p : ℕ) (s rest : Bytes)
    → p + length (s ++ rest) ≡ length xs
    → length xs < size_mod
    → drop p xs ≡ s ++ rest
    → read_string xs p (length s) ≡ ok (s, p + length s)
unfolding read_string
read_string_whole xs p s rest total small at_text =
    let stop : (p + length s) % size_mod ≡ p + length s =
      omega (arith, total, length-append s rest) in
    let inside : ltb (length xs) (p + length s) ≡ false =
      le→ltb (length xs) (p + length s) (omega (arith, total, length-append s rest)) in
    rw (stop, read_string, inside)
      (ap (λ t. ok (t, p + length s))
        (ap (λ t. prefix t (length s)) at_text ∙ prefix-append s rest))

-- `parse_string` on a printed string.
pub parse_string-encode_string :
    (xs : Bytes) (p : ℕ) (s rest : Bytes)
    → length xs < size_mod
    → drop p xs ≡ encode_string s ++ rest
    → parse_string xs p ≡ ok (s, p + length (encode_string s))
unfolding parse_string encode_string
parse_string-encode_string xs p s rest small at_p =
    rw (found, parse_string, sized)
      (read_string_whole xs (p + length number + 1) s rest total small at_text
        ∙ ap (λ q. ok (s, q)) (omega (arith, length-append number (b':' ∷ s))))
  where
    number : Bytes
    number = print_nat (length s)

    at_number : drop p xs ≡ number ++ b':' ∷ (s ++ rest)
    at_number = at_p ∙ append_assoc number (b':' ∷ s) rest

    at_colon : drop (p + length number) xs ≡ b':' ∷ (s ++ rest)
    at_colon = drop_past p xs number (b':' ∷ (s ++ rest)) at_number

    at_text : drop (p + length number + 1) xs ≡ s ++ rest
    at_text = drop_past (p + length number) xs (b':' ∷ []) (s ++ rest) at_colon

    total : p + length number + 1 + length (s ++ rest) ≡ length xs
    total = omega (arith, length-drop_cons (p + length number) xs b':' (s ++ rest) at_colon)

    fits : length s < size_mod
    fits = omega (arith, total, length-append s rest)

    found : find_byte b':' (drop p xs) ≡ some (length number)
    found =
        ap (find_byte b':') at_number
        ∙ find_byte-append b':' number (s ++ rest)
            (AreDigits-ne number b':' (inr (omega arith)) (print_nat-IsNumeral (length s)).digits)

    sized : stoul (prefix (drop p xs) (length number)) ≡ some (length s)
    sized =
        ap (λ t. stoul (prefix t (length number))) at_number
        ∙ ap stoul (prefix-append number (b':' ∷ (s ++ rest)))
        ∙ stoul-print_nat (length s) fits

bad_zero_digit :
    (n c : ℕ) (cs : Bytes)
    → is_digit c ≡ true
    → (c ≢ 48) ⊎ ((n ≡ 0) × (cs ≡ []))
    → bad_zero (c ∷ cs) ≡ false
unfolding bad_zero
bad_zero_digit n c [] d h = refl
bad_zero_digit n c (y ∷ ys) d h = ground arith

bad_zero_minus :
    (n c : ℕ) (cs : Bytes) → (c ≢ 48) ⊎ ((suc n ≡ 0) × (cs ≡ [])) → bad_zero (b'-' ∷ c ∷ cs) ≡ false
unfolding bad_zero
bad_zero_minus n c cs h = ground arith

numeral_bad_zero : (n : ℕ) (xs : Bytes) → IsNumeral n xs → bad_zero xs ≡ false
numeral_bad_zero n xs v =
    let d : AreDigits (v.first ∷ v.others) = subst AreDigits v.splits v.digits in
    ap bad_zero v.splits ∙ bad_zero_digit n v.first v.others d.0 v.proper

print_int-bad_zero : (z : ℤ) → bad_zero (print_int z) ≡ false
unfolding print_int
print_int-bad_zero (pos n) = numeral_bad_zero n (print_nat n) (print_nat-IsNumeral n)
print_int-bad_zero (negsuc n) =
    let v = print_nat-IsNumeral (suc n) in
    ap (λ t. bad_zero (b'-' ∷ t)) v.splits ∙ bad_zero_minus n v.first v.others v.proper

print_int-ne : (z : ℤ) → All (λ x. (x == b'e') ≡ false) (print_int z)
unfolding print_int
print_int-ne (pos n) =
    AreDigits-ne (print_nat n) b'e' (inr (omega arith)) (print_nat-IsNumeral n).digits
print_int-ne (negsuc n) = (
  refl,
  AreDigits-ne (print_nat (suc n)) b'e' (inr (omega arith)) (print_nat-IsNumeral (suc n)).digits,
)

read_integer-print_int : (z : ℤ) → FitsInt64 z → read_integer (print_int z) ≡ ok z
unfolding read_integer
read_integer-print_int z fits =
    rw (print_int-bad_zero z, read_integer) (ap or_fail (stoll-print_int z fits))

-- `parse_integer` on a printed integer.
pub parse_integer-print_int :
    (xs : Bytes) (p : ℕ) (z : ℤ) (rest : Bytes)
    → FitsInt64 z
    → drop p xs ≡ b'i' ∷ (print_int z ++ b'e' ∷ rest)
    → parse_integer xs p ≡ ok (z, p + 1 + length (print_int z) + 1)
unfolding parse_integer
parse_integer-print_int xs p z rest fits at_p = rw (found, parse_integer, value)
  where
    at_number : drop (p + 1) xs ≡ print_int z ++ b'e' ∷ rest
    at_number = drop_past p xs (b'i' ∷ []) (print_int z ++ b'e' ∷ rest) at_p

    found : find_byte b'e' (drop (p + 1) xs) ≡ some (length (print_int z))
    found =
        ap (find_byte b'e') at_number ∙ find_byte-append b'e' (print_int z) rest (print_int-ne z)

    value : read_integer (prefix (drop (p + 1) xs) (length (print_int z))) ≡ ok z
    value =
        ap (λ t. read_integer (prefix t (length (print_int z)))) at_number
        ∙ ap read_integer (prefix-append (print_int z) (b'e' ∷ rest))
        ∙ read_integer-print_int z fits
