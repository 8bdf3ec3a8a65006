-- ===== src/WebSocket/Masking.antt =====
-- The mask of a client's frame, which uses the key by turns, is undone by the program's.
use pixel_scrape.Base.{
  ℕ, suc, ◌*◌, ◌%◌, ◌≡◌, refl, ap, ap₂, ◌∙◌, bit_xor, [], ◌∷◌, arith, length, get_or,
}
use pixel_scrape.Base.Bytes.{Bytes}
use pixel_scrape.Base.Xor.{bit_xor-bit_xor}
use pixel_scrape.WebSocket.{unmask}

-- RFC 6455: the bytes of the key `a`, `b`, `c`, `d` are used in turn, over and over.
unfoldable pub mask : ℕ → ℕ → ℕ → ℕ → Bytes → Bytes
mask a b c d [] = []
mask a b c d (x ∷ xs) = bit_xor x a ∷ mask b c d a xs

-- The key byte of each of the four places.
module _ (a b c d n : ℕ) where
  abbrev key_at : ℕ → ℕ
  key_at i = get_or (a ∷ b ∷ c ∷ d ∷ []) i 0

  place_0 : key_at (4 * n % 4) ≡ a
  place_0 = let e : 4 * n % 4 ≡ 0 = omega arith in ap key_at e

  place_1 : key_at (suc (4 * n) % 4) ≡ b
  place_1 = let e : suc (4 * n) % 4 ≡ 1 = omega arith in ap key_at e

  place_2 : key_at (suc (suc (4 * n)) % 4) ≡ c
  place_2 = let e : suc (suc (4 * n)) % 4 ≡ 2 = omega arith in ap key_at e

  place_3 : key_at (suc (suc (suc (4 * n))) % 4) ≡ d
  place_3 = let e : suc (suc (suc (4 * n))) % 4 ≡ 3 = omega arith in ap key_at e

xor_same : (x k k' : ℕ) → k' ≡ k → bit_xor (bit_xor x k) k' ≡ x
xor_same x k k' e = ap (bit_xor (bit_xor x k)) e ∙ bit_xor-bit_xor x k

-- Four bytes at a time.
unmask-mask :
    (a b c d n : ℕ) (xs : Bytes) → unmask (a ∷ b ∷ c ∷ d ∷ []) (4 * n) (mask a b c d xs) ≡ xs
unfolding unmask mask
unmask-mask a b c d n [] = refl
unmask-mask a b c d n (x ∷ []) = ap (λ v. v ∷ []) (xor_same x a _ (place_0 a b c d n))
unmask-mask a b c d n (x ∷ y ∷ []) =
    ap₂ (λ v w. v ∷ w ∷ []) (xor_same x a _ (place_0 a b c d n))
      (xor_same y b _ (place_1 a b c d n))
unmask-mask a b c d n (x ∷ y ∷ z ∷ []) = ap₂ ◌∷◌ (xor_same x a _ (place_0 a b c d n)) (
    ap₂ (λ v w. v ∷ w ∷ []) (xor_same y b _ (place_1 a b c d n))
      (xor_same z c _ (place_2 a b c d n)))
unmask-mask a b c d n (x ∷ y ∷ z ∷ t ∷ xs) =
    let next : suc (suc (suc (suc (4 * n)))) ≡ 4 * suc n = omega arith in
    ap₂ ◌∷◌ (xor_same x a _ (place_0 a b c d n)) (
      ap₂ ◌∷◌ (xor_same y b _ (place_1 a b c d n)) (
        ap₂ ◌∷◌ (xor_same z c _ (place_2 a b c d n)) (
          ap₂ ◌∷◌ (xor_same t d _ (place_3 a b c d n)) (
            ap (λ i. unmask (a ∷ b ∷ c ∷ d ∷ []) i (mask a b c d xs)) next
            ∙ unmask-mask a b c d (suc n) xs))))

length-mask : (a b c d : ℕ) (xs : Bytes) → length (mask a b c d xs) ≡ length xs
unfolding mask
length-mask a b c d [] = refl
length-mask a b c d (x ∷ xs) = ap suc (length-mask b c d a xs)

-- What a client masks with a key of four bytes.
unfoldable pub masked_by : Bytes → Bytes → Bytes
unfolding mask
masked_by (a ∷ b ∷ c ∷ d ∷ []) xs = mask a b c d xs
masked_by _ xs = xs

-- The key is of four bytes in both laws.
pub unmask-masked_by :
    (key xs : Bytes)
    → length key ≡ 4
    → (unmask key 0 (masked_by key xs) ≡ xs) × (length (masked_by key xs) ≡ length xs)
unfolding masked_by
unmask-masked_by (a ∷ b ∷ c ∷ d ∷ []) xs h = (unmask-mask a b c d 0 xs, length-mask a b c d xs)
unmask-masked_by [] xs h = absurd (omega (arith, h))
unmask-masked_by (a ∷ []) xs h = absurd (omega (arith, h))
unmask-masked_by (a ∷ b ∷ []) xs h = absurd (omega (arith, h))
unmask-masked_by (a ∷ b ∷ c ∷ []) xs h = absurd (omega (arith, h))
unmask-masked_by (a ∷ b ∷ c ∷ d ∷ e ∷ ks) xs h = absurd (omega (arith, h))
