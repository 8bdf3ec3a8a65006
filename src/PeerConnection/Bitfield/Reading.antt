-- ===== src/PeerConnection/Bitfield/Reading.antt =====
-- The bits of a byte are read as they were written into it.
use pixel_scrape.Base.{
  ℕ, zero, suc, ◌-◌, ◌^◌, ◌≤◌, ◌≡◌, refl, ap, bit_or, Bool, true, false, not, ◌&&◌, List, [], ◌∷◌,
  if◌then◌else◌, length, arith, below_at,
}
use pixel_scrape.PeerConnection.Bitfield.{bit_at}

-- A test at every list of `n` truth values.
abbrev for_all : ℕ → (List Bool → Bool) → Bool
for_all zero p = p []
for_all (suc n) p = for_all n (λ bs. p (true ∷ bs)) && for_all n (λ bs. p (false ∷ bs))

for_all_at :
    (n : ℕ) (p : List Bool → Bool)
    → for_all n p ≡ true
    → (bs : List Bool) → length bs ≡ n
    → p bs ≡ true
for_all_at zero p h [] e = h
for_all_at zero p h (b ∷ bs) e = absurd (omega arith)
for_all_at (suc n) p h [] e = absurd (omega arith)
for_all_at (suc n) p h (true ∷ bs) e =
    for_all_at n (λ bs. p (true ∷ bs)) (grind arith) bs (omega arith)
for_all_at (suc n) p h (false ∷ bs) e =
    for_all_at n (λ bs. p (false ∷ bs)) (grind arith) bs (omega arith)

abbrev same : List Bool → List Bool → Bool
same [] [] = true
same [] (_ ∷ _) = false
same (_ ∷ _) [] = false
same (x ∷ xs) (y ∷ ys) = (if x then y else not y) && same xs ys

same→eq : (xs ys : List Bool) → same xs ys ≡ true → xs ≡ ys
same→eq [] [] h = refl
same→eq [] (y ∷ ys) h = cc
same→eq (x ∷ xs) [] h = cc
same→eq (true ∷ xs) (true ∷ ys) h = ap (◌∷◌ true) (same→eq xs ys h)
same→eq (true ∷ xs) (false ∷ ys) h = cc
same→eq (false ∷ xs) (true ∷ ys) h = cc
same→eq (false ∷ xs) (false ∷ ys) h = ap (◌∷◌ false) (same→eq xs ys h)

-- The byte that the loop makes of bits from the bit `j` on.
abbrev pub or_bits : ℕ → ℕ → List Bool → ℕ
or_bits j byte [] = byte
or_bits j byte (b ∷ bs) = or_bits (suc j) (if b then bit_or byte (2 ^ (7 - j)) else byte) bs

-- The bits `j`, `j + 1`, … of a byte, `n` of them.
unfoldable pub read_bits : ℕ → ℕ → ℕ → List Bool
unfolding bit_at
read_bits zero j byte = []
read_bits (suc n) j byte = bit_at byte j ∷ read_bits n (suc j) byte

abbrev reads : List Bool → Bool
reads bs = same (read_bits (length bs) 0 (or_bits 0 0 bs)) bs

-- Up to eight bits of a byte are read as they were written.
reads_lem : (bs : List Bool) → length bs ≤ 8 → reads bs ≡ true
unfolding read_bits
reads_lem bs h =
    for_all_at (length bs) reads (below_at 9 (length bs) (λ n. for_all n reads) refl (omega arith))
      bs refl

pub read_bits-or_bits :
    (bs : List Bool) → length bs ≤ 8 → read_bits (length bs) 0 (or_bits 0 0 bs) ≡ bs
read_bits-or_bits bs h = same→eq (read_bits (length bs) 0 (or_bits 0 0 bs)) bs (reads_lem bs h)
