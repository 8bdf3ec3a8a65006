-- ===== src/Decimal/ReadBack.antt =====
-- A printed number reads back.
use pixel_scrape.Base.{
  ℕ, zero, suc, ◌+◌, ◌-◌, ◌*◌, ◌/◌, ◌%◌, ◌^◌, ◌≤◌, ◌<◌, ◌≡◌, ◌≢◌, refl, sym, ap, subst, ◌∙◌, ◌⊎◌,
  inl, inr, true, false, some, [], ◌∷◌, ◌++◌, arith, ltb, Bool-cases, lt→ltb, le→leb, All,
  All-append,
}
use native.Mathlib.Decide.{ℕ_discrete}
use pixel_scrape.Base.Bytes.{Bytes, size_mod}
use pixel_scrape.Decimal.{
  ℤ, pos, negsuc, is_digit, print_digits, print_nat, print_int, skip_spaces, read_digits,
  read_magnitude, read_sign, stoll, stoul, signed_of, unsigned_of,
}

abbrev pub AreDigits : Bytes → Type 0
AreDigits = All (λ c. is_digit c ≡ true)

read_digits_snoc :
    (xs : Bytes) (acc d : ℕ)
    → AreDigits xs
    → is_digit d ≡ true
    → read_digits acc (xs ++ d ∷ []) ≡ read_digits acc xs * 10 + (d - 48)
unfolding read_digits
read_digits_snoc [] acc d h k = rw k
read_digits_snoc (x ∷ xs) acc d h k = rw h.0 (read_digits_snoc xs (acc * 10 + (x - 48)) d h.1 k)

print_digits-AreDigits : (f n : ℕ) → n ≤ f → AreDigits (print_digits f n)
unfolding print_digits
print_digits-AreDigits zero n h = (ground arith, tt)
print_digits-AreDigits (suc f) n h = elim (Bool-cases (ltb n 10)) [
  | inl small ↦ rw (small, print_digits) (ground arith, tt)
  | inr big ↦
      rw (big, print_digits)
        (All-append _ (print_digits f (n / 10)) _ (print_digits-AreDigits f (n / 10) (ground arith))
          (ground arith, tt))
]

read_digits-print_digits : (f n : ℕ) → n ≤ f → read_digits 0 (print_digits f n) ≡ n
unfolding print_digits
read_digits-print_digits zero n h = unfold read_digits in ground arith
read_digits-print_digits (suc f) n h = elim (Bool-cases (ltb n 10)) [
  | inl small ↦ rw (small, print_digits) (unfold read_digits in ground arith)
  | inr big ↦
      rw (big, print_digits)
        (read_digits_snoc (print_digits f (n / 10)) 0 (48 + n % 10)
            (print_digits-AreDigits f (n / 10) (ground arith)) (ground arith)
          ∙ omega (arith, read_digits-print_digits f (n / 10) (ground arith)))
]

-- The digits of a number begin with a digit that is 0 for the number 0 only, and alone then.
pub record IsNumeral (n : ℕ) (xs : Bytes) : Type 0 where
  pub first : ℕ
  pub others : Bytes
  pub splits : xs ≡ first ∷ others
  pub digits : AreDigits xs
  pub proper : (first ≢ 48) ⊎ ((n ≡ 0) × (others ≡ []))

print_digits-IsNumeral : (f n : ℕ) → n ≤ f → IsNumeral n (print_digits f n)
unfolding print_digits
print_digits-IsNumeral zero n h = record {
  first = 48 + n;
  others = [];
  splits = refl;
  digits = print_digits-AreDigits zero n h;
  proper = inr (omega arith, refl);
}
print_digits-IsNumeral (suc f) n h = elim (Bool-cases (ltb n 10)) [
  | inl small ↦ record {
    first = 48 + n;
    others = [];
    splits = rw (small, print_digits);
    digits = print_digits-AreDigits (suc f) n h;
    proper = elim (ℕ_discrete n 0) [ yes e ↦ inr (e, refl) | no ne ↦ inl (λ e. ne (omega arith)) ];
  }
  | inr big ↦
      let p = print_digits-IsNumeral f (n / 10) (ground arith) in
      record {
        first = p.first;
        others = p.others ++ (48 + n % 10) ∷ [];
        splits = rw (big, print_digits) (ap (λ xs. xs ++ (48 + n % 10) ∷ []) p.splits);
        digits = print_digits-AreDigits (suc f) n h;
        proper = inl (λ e. ground (arith, p.proper));
      }
]

pub print_nat-IsNumeral : (n : ℕ) → IsNumeral n (print_nat n)
unfolding print_nat
print_nat-IsNumeral n = print_digits-IsNumeral n n (omega arith)

skip_spaces_digit : (c : ℕ) (cs : Bytes) → is_digit c ≡ true → skip_spaces (c ∷ cs) ≡ c ∷ cs
unfolding skip_spaces
skip_spaces_digit c cs h = ground arith

skip_spaces_minus : (cs : Bytes) → skip_spaces (b'-' ∷ cs) ≡ b'-' ∷ cs
unfolding skip_spaces
skip_spaces_minus cs = refl

read_sign_digit : (c : ℕ) (cs : Bytes) → is_digit c ≡ true → read_sign (c ∷ cs) ≡ (false, c ∷ cs)
unfolding read_sign
read_sign_digit c cs h = ground arith

read_magnitude_digit :
    (c : ℕ) (cs : Bytes)
    → is_digit c ≡ true
    → read_magnitude (c ∷ cs) ≡ some (read_digits 0 (c ∷ cs))
unfolding read_magnitude
read_magnitude_digit c cs h = rw h

pub read_magnitude-print_nat : (n : ℕ) → read_magnitude (print_nat n) ≡ some n
unfolding print_nat
read_magnitude-print_nat n =
    let p = print_nat-IsNumeral n in
    let d : AreDigits (p.first ∷ p.others) = subst AreDigits p.splits p.digits in
    ap read_magnitude p.splits
    ∙ read_magnitude_digit p.first p.others d.0
    ∙ ap (λ xs. some (read_digits 0 xs)) (sym p.splits)
    ∙ ap some (read_digits-print_digits n n (omega arith))

read_sign_minus : (cs : Bytes) → read_sign (b'-' ∷ cs) ≡ (true, cs)
unfolding read_sign
read_sign_minus cs = refl

-- White space and a sign are not found in front of a printed number.
pub read_sign-print_nat : (n : ℕ) → read_sign (skip_spaces (print_nat n)) ≡ (false, print_nat n)
read_sign-print_nat n =
    let p = print_nat-IsNumeral n in
    let d : AreDigits (p.first ∷ p.others) = subst AreDigits p.splits p.digits in
    subst (λ xs. read_sign (skip_spaces xs) ≡ (false, xs)) (sym p.splits)
      (ap read_sign (skip_spaces_digit p.first p.others d.0) ∙ read_sign_digit p.first p.others d.0)

-- `std::stoul` reads a printed number that fits in 64 bits.
pub stoul-print_nat : (n : ℕ) → n < size_mod → stoul (print_nat n) ≡ some n
unfolding stoul unsigned_of
stoul-print_nat n h =
    ap unsigned_of (read_sign-print_nat n)
    ∙ rw (read_magnitude-print_nat n, unsigned_of, lt→ltb n size_mod h)

-- An `int64_t`.
abbrev pub FitsInt64 : ℤ → Type 0
FitsInt64 (pos n) = n < 2 ^ 63
FitsInt64 (negsuc n) = n < 2 ^ 63

-- `std::stoll` reads a printed `int64_t`.
pub stoll-print_int : (z : ℤ) → FitsInt64 z → stoll (print_int z) ≡ some z
unfolding stoll print_int signed_of
stoll-print_int (pos n) h =
    ap signed_of (read_sign-print_nat n)
    ∙ rw (read_magnitude-print_nat n, signed_of, lt→ltb n (2 ^ 63) h)
stoll-print_int (negsuc n) h =
    ap signed_of
      (ap read_sign (skip_spaces_minus (print_nat (suc n))) ∙ read_sign_minus (print_nat (suc n)))
    ∙ rw (read_magnitude-print_nat (suc n), signed_of, le→leb (suc n) (2 ^ 63) h) (ground arith)
