-- ===== src/StateManager/Base64.antt =====
-- A text in base 64 is decoded as the bytes that it was encoded from.
use pixel_scrape.Base.{
  ℕ, ◌+◌, ◌-◌, ◌*◌, ◌/◌, ◌%◌, ◌^◌, ◌≤◌, ◌<◌, ◌≡◌, refl, ap, ◌∙◌, bit_and, Bool, true, false, ◌&&◌,
  Option, none, some, [], ◌∷◌, arith, leb, ◌==◌, below, below_at,
}
use pixel_scrape.Base.Bytes.{Bytes, AreBytes}
use pixel_scrape.Bencode.Parser.{find_byte}
use pixel_scrape.StateManager.{
  base64_char, quad_0, quad_1, quad_2, quad_3, base64_encode, sextet, decode_sextets, base64_decode,
}

-- The value at each index is found again.
abbrev is_found : ℕ → Bool
is_found i = elim (sextet (base64_char i)) [ none ↦ false | some t ↦ t == i ]

all_found : below 64 is_found ≡ true
unfolding sextet base64_char find_byte
all_found = refl

sextet-base64_char : (i : ℕ) → i < 64 → sextet (base64_char i) ≡ some i
sextet-base64_char i h = by_result (sextet (base64_char i)) (below_at 64 i is_found all_found h)
  where
    by_result : (o : Option ℕ) → (elim o [ none ↦ false | some t ↦ t == i ]) ≡ true → o ≡ some i
    by_result none e = absurd (ground arith)
    by_result (some t) e = ap some (ground arith)

-- The masks as arithmetic, for every byte.
abbrev masks : ℕ → Bool
masks b =
    (bit_and b 0xfc / 4 == b / 4)
    && (bit_and b 0x03 == b % 4)
    && (bit_and b 0xf0 / 16 == b / 16)
    && (bit_and b 0x0f == b % 16)
    && (bit_and b 0xc0 / 64 == b / 64)
    && (bit_and b 0x3f == b % 64)

all_masks : below 256 masks ≡ true
all_masks = refl

masks_at : (b : ℕ) → b < 256 → masks b ≡ true
masks_at b h = below_at 256 b masks all_masks h

quad_0_value : (a : ℕ) → a < 256 → quad_0 a ≡ a / 4
unfolding quad_0
quad_0_value a h = ground (arith, masks_at a h)

quad_1_value : (a b : ℕ) → a < 256 → b < 256 → quad_1 a b ≡ a % 4 * 16 + b / 16
unfolding quad_1
quad_1_value a b h k = ground (arith, masks_at a h, masks_at b k)

quad_2_value : (b c : ℕ) → b < 256 → c < 256 → quad_2 b c ≡ b % 16 * 4 + c / 64
unfolding quad_2
quad_2_value b c h k = ground (arith, masks_at b h, masks_at c k)

quad_3_value : (c : ℕ) → c < 256 → quad_3 c ≡ c % 64
unfolding quad_3
quad_3_value c h = ground (arith, masks_at c h)

-- A character of the alphabet takes six bits in, and a byte comes out where there are eight.
decode_more :
    (value bits i : ℕ) (cs : Bytes)
    → i < 64
    → bits < 2
    → decode_sextets value bits (base64_char i ∷ cs)
      ≡ decode_sextets ((value * 64 + i) % 2 ^ 32) (bits + 6) cs
unfolding decode_sextets
decode_more value bits i cs h few =
    let part : leb 8 (bits + 6) ≡ false = ground arith in
    rw (sextet-base64_char i h, decode_sextets) (rw part refl)

decode_byte :
    (value bits i : ℕ) (cs : Bytes)
    → i < 64
    → 2 ≤ bits
    → decode_sextets value bits (base64_char i ∷ cs)
      ≡ ((value * 64 + i) % 2 ^ 32 / 2 ^ (bits + 6 - 8) % 256)
        ∷ decode_sextets ((value * 64 + i) % 2 ^ 32) (bits + 6 - 8) cs
unfolding decode_sextets
decode_byte value bits i cs h many =
    let whole : leb 8 (bits + 6) ≡ true = ground arith in
    rw (sextet-base64_char i h, decode_sextets) (rw whole refl)

-- The first two characters of a group give its first byte.
decode_two :
    (value a i : ℕ) (cs : Bytes)
    → a < 256
    → i < 16
    → decode_sextets value 0 (base64_char (a / 4) ∷ base64_char (a % 4 * 16 + i) ∷ cs)
      ≡ a ∷ decode_sextets ((((value * 64 + a / 4) % 2 ^ 32) * 64 + (a % 4 * 16 + i)) % 2 ^ 32) 4 cs
decode_two value a i cs h k =
    decode_more value 0 (a / 4) (base64_char (a % 4 * 16 + i) ∷ cs) (omega arith) (omega arith)
    ∙ decode_byte ((value * 64 + a / 4) % 2 ^ 32) 6 (a % 4 * 16 + i) cs (omega arith) (omega arith)
    ∙ ap
        (λ (b : ℕ).
          b
          ∷ decode_sextets ((((value * 64 + a / 4) % 2 ^ 32) * 64 + (a % 4 * 16 + i)) % 2 ^ 32) 4
              cs)
        (omega arith)

-- The third gives the second byte, the fourth the third.
decode_third :
    (value b i : ℕ) (cs : Bytes)
    → b < 256
    → i < 4
    → value % 16 ≡ b / 16
    → decode_sextets value 4 (base64_char (b % 16 * 4 + i) ∷ cs)
      ≡ b ∷ decode_sextets ((value * 64 + (b % 16 * 4 + i)) % 2 ^ 32) 2 cs
decode_third value b i cs h k low =
    decode_byte value 4 (b % 16 * 4 + i) cs (omega arith) (omega arith)
    ∙ ap (λ (x : ℕ). x ∷ decode_sextets ((value * 64 + (b % 16 * 4 + i)) % 2 ^ 32) 2 cs)
        (omega arith)

decode_fourth :
    (value c : ℕ) (cs : Bytes)
    → c < 256
    → value % 4 ≡ c / 64
    → decode_sextets value 2 (base64_char (c % 64) ∷ cs)
      ≡ c ∷ decode_sextets ((value * 64 + c % 64) % 2 ^ 32) 0 cs
decode_fourth value c cs h low =
    decode_byte value 2 (c % 64) cs (omega arith) (omega arith)
    ∙ ap (λ (x : ℕ). x ∷ decode_sextets ((value * 64 + c % 64) % 2 ^ 32) 0 cs) (omega arith)

-- The padding is no character of the alphabet.
sextet_padding : sextet b'=' ≡ none
unfolding sextet find_byte
sextet_padding = refl

decode_padding :
    (value bits : ℕ) (cs : Bytes)
    → decode_sextets value bits (b'=' ∷ cs) ≡ decode_sextets value bits cs
unfolding decode_sextets
decode_padding value bits cs = rw (sextet_padding, decode_sextets) refl

decode_end : (value bits : ℕ) → decode_sextets value bits [] ≡ []
unfolding decode_sextets
decode_end value bits = refl

decode_sextets-base64_encode :
    (xs : Bytes) (value : ℕ) → AreBytes xs → decode_sextets value 0 (base64_encode xs) ≡ xs
unfolding base64_encode
decode_sextets-base64_encode [] value h = decode_end value 0
decode_sextets-base64_encode (a ∷ []) value h =
    rw (quad_0_value a h.0, quad_1_value a 0 h.0 (omega arith))
      (decode_two value a (0 / 16) (b'=' ∷ b'=' ∷ []) h.0 (omega arith)
        ∙ ap (◌∷◌ a) (decode_padding _ 4 (b'=' ∷ []) ∙ decode_padding _ 4 [] ∙ decode_end _ 4))
decode_sextets-base64_encode (a ∷ b ∷ []) value h =
    let two = (((value * 64 + a / 4) % 2 ^ 32) * 64 + (a % 4 * 16 + b / 16)) % 2 ^ 32 in
    rw (quad_0_value a h.0, quad_1_value a b h.0 h.1.0, quad_2_value b 0 h.1.0 (omega arith))
      (decode_two value a (b / 16) (base64_char (b % 16 * 4 + 0 / 64) ∷ b'=' ∷ []) h.0 (omega arith)
        ∙ ap (◌∷◌ a) (
            decode_third two b (0 / 64) (b'=' ∷ []) h.1.0 (omega arith) (omega arith)
            ∙ ap (◌∷◌ b) (decode_padding _ 2 [] ∙ decode_end _ 2)))
decode_sextets-base64_encode (a ∷ b ∷ c ∷ rest) value h =
    let two = (((value * 64 + a / 4) % 2 ^ 32) * 64 + (a % 4 * 16 + b / 16)) % 2 ^ 32 in
    let three = (two * 64 + (b % 16 * 4 + c / 64)) % 2 ^ 32 in
    rw
      (
        quad_0_value a h.0,
        quad_1_value a b h.0 h.1.0,
        quad_2_value b c h.1.0 h.1.1.0,
        quad_3_value c h.1.1.0,
      )
      (decode_two value a (b / 16)
          (base64_char (b % 16 * 4 + c / 64) ∷ base64_char (c % 64) ∷ base64_encode rest) h.0
          (omega arith)
        ∙ ap (◌∷◌ a) (
            decode_third two b (c / 64) (base64_char (c % 64) ∷ base64_encode rest) h.1.0
              (omega arith) (omega arith)
            ∙ ap (◌∷◌ b) (
                decode_fourth three c (base64_encode rest) h.1.1.0 (omega arith)
                ∙ ap (◌∷◌ c)
                    (decode_sextets-base64_encode rest ((three * 64 + c % 64) % 2 ^ 32) h.1.1.1))))

-- Any bytes are decoded from their encoding, however long: the wrap-around of the accumulator does
-- no harm.
pub base64_decode-base64_encode : (xs : Bytes) → AreBytes xs → base64_decode (base64_encode xs) ≡ xs
unfolding base64_decode
base64_decode-base64_encode xs h = decode_sextets-base64_encode xs 0 h
