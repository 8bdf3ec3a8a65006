-- ===== src/Dht/Node/Metric.antt =====
-- The bucket index of a distance is the place of its highest bit.
use pixel_scrape.Base.{
  ℕ, zero, suc, ◌+◌, ◌-◌, ◌*◌, ◌^◌, ◌≤◌, ◌<◌, ◌≡◌, refl, sym, ap, subst, ◌∙◌, inl, inr, Bool, true,
  false, ◌&&◌, ◌||◌, [], ◌∷◌, ltb, leb, ◌==◌, length, arith, Bool-cases, below_at,
}
use pixel_scrape.Base.Bytes.{IsByte, AreBytes}
use native.Mathlib.Nat.{pow-succ', mul_assoc, mul-le-mul_right}
use pixel_scrape.Dht.Node.{NodeId, leading_zeros, bucket_index_from, bucket_index}

-- The number that the bytes of an id stand for, the highest byte first.
unfoldable pub value : NodeId → ℕ
value [] = 0
value (b ∷ bs) = b * 2 ^ (8 * length bs) + value bs

unfoldable highest : ℕ → Bool
unfolding leading_zeros
highest b =
    b == 0
    || (ltb (leading_zeros 8 b) 8
        && (leb (2 ^ (7 - leading_zeros 8 b)) b && ltb b (2 * 2 ^ (7 - leading_zeros 8 b))))

highest_lem : (b : ℕ) → IsByte b → highest b ≡ true
unfolding highest
highest_lem b h = below_at 256 b highest refl h

pow-add : (a b : ℕ) → 2 ^ (a + b) ≡ 2 ^ a * 2 ^ b
pow-add zero b = let e : 0 + b ≡ b = omega arith in omega (arith, ap (λ k. 2 ^ k) e)
pow-add (suc a) b =
    let e : suc a + b ≡ suc (a + b) = omega arith in
    ap (λ k. 2 ^ k) e
    ∙ pow-succ' 2 (a + b)
    ∙ ap (λ k. 2 * k) (pow-add a b)
    ∙ sym (mul_assoc 2 (2 ^ a) (2 ^ b))
    ∙ ap (λ k. k * 2 ^ b) (sym (pow-succ' 2 a))

-- The bytes behind the highest do not reach its place.
pub value-lt : (d : NodeId) → AreBytes d → value d < 2 ^ (8 * length d)
unfolding value
value-lt [] h = omega arith
value-lt (b ∷ bs) h =
    let place = 2 ^ (8 * length bs) in
    let e : 8 * suc (length bs) ≡ 8 + 8 * length bs = omega arith in
    let power : 2 ^ (8 * suc (length bs)) ≡ 256 * place =
      ap (λ k. 2 ^ k) e ∙ pow-add 8 (8 * length bs) in
    let room : (b + 1) * place ≤ 256 * place = mul-le-mul_right place (omega arith) in
    omega (arith, power, room, value-lt bs h.1)

-- The index of the byte `b`, the first that is not 0, before `n` others.
module _ (b : ℕ) (bs : NodeId) (h : AreBytes (b ∷ bs)) (nonzero : (b == 0) ≡ false) where
  abbrev bit : ℕ
  bit = 7 - leading_zeros 8 b

  bit_bounds : (leading_zeros 8 b < 8) × ((2 ^ bit ≤ b) × (b < 2 * 2 ^ bit))
  unfolding highest
  bit_bounds = let t = highest_lem b h.0 in ground arith

  value-bit :
      (2 ^ (bit + 8 * length bs) ≤ value (b ∷ bs))
      × (value (b ∷ bs) < 2 * 2 ^ (bit + 8 * length bs))
  unfolding value
  value-bit =
      let place = 2 ^ (8 * length bs) in
      let power : 2 ^ (bit + 8 * length bs) ≡ 2 ^ bit * place = pow-add bit (8 * length bs) in
      let low : 2 ^ bit * place ≤ b * place = mul-le-mul_right place bit_bounds.1.0 in
      let high : (b + 1) * place ≤ (2 * 2 ^ bit) * place =
        mul-le-mul_right place (omega (arith, bit_bounds.1.1)) in
      (omega (arith, power, low), omega (arith, power, high, value-lt bs h.1))

-- The bit `k` is the highest of an id.
abbrev Spans : NodeId → ℕ → Type 0
Spans d k = (2 ^ k ≤ value d) × (value d < 2 * 2 ^ k)

value_none : value [] ≡ 0
unfolding value
value_none = refl

value-zero : (b : ℕ) (bs : NodeId) → (b == 0) ≡ true → value (b ∷ bs) ≡ value bs
unfolding value
value-zero b bs z = let q : b ≡ 0 = ground arith in rw q (omega arith)

bucket_index_from-zero :
    (i b : ℕ) (bs : NodeId)
    → (b == 0) ≡ true
    → bucket_index_from i (b ∷ bs) ≡ bucket_index_from (suc i) bs
unfolding bucket_index_from
bucket_index_from-zero i b bs z = rw z refl

bucket_index_from-nonzero :
    (i b : ℕ) (bs : NodeId)
    → (b == 0) ≡ false
    → bucket_index_from i (b ∷ bs) ≡ 159 - (i * 8 + leading_zeros 8 b)
unfolding bucket_index_from
bucket_index_from-nonzero i b bs z = rw z refl

bucket_index_from-Spans :
    (i : ℕ) (d : NodeId)
    → AreBytes d
    → i + length d ≡ 20
    → 0 < value d
    → Spans d (bucket_index_from i d)
bucket_index_from-Spans i [] h e p =
    let q : 0 < 0 = subst (λ k. 0 < k) value_none p in absurd (omega arith)
bucket_index_from-Spans i (b ∷ bs) h e p = elim (Bool-cases (b == 0)) [
  | inl z ↦
      let same = value-zero b bs z in
      let rest = bucket_index_from-Spans (suc i) bs h.1 (omega arith) (omega (arith, same)) in
      subst (λ k. Spans (b ∷ bs) k) (sym (bucket_index_from-zero i b bs z))
        (omega (arith, same, rest.0), omega (arith, same, rest.1))
  | inr z ↦
      let zeros = (bit_bounds b bs h z).0 in
      let index : 7 - leading_zeros 8 b + 8 * length bs ≡ bucket_index_from i (b ∷ bs) =
        omega (arith, zeros, bucket_index_from-nonzero i b bs z) in
      subst (λ k. Spans (b ∷ bs) k) index (value-bit b bs h z)
]

-- The index of the bucket of a distance of 20 bytes that is not 0 is the place of its highest bit: the
-- number that the bytes stand for, the highest first, is at least 2 to the index and below twice that.
pub bucket_index-value :
    (d : NodeId)
    → AreBytes d
    → length d ≡ 20
    → 0 < value d
    → (2 ^ bucket_index d ≤ value d) × (value d < 2 * 2 ^ bucket_index d)
unfolding bucket_index
bucket_index-value d h e p = bucket_index_from-Spans 0 d h (omega arith) p
