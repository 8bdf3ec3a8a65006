-- ===== src/PeerConnection/Bitfield/RoundTrip.antt =====
-- The bits that a BITFIELD message carries are the bits that it was made of.
use pixel_scrape.Base.{
  ℕ, zero, suc, ◌+◌, ◌-◌, ◌*◌, ◌^◌, ◌≤◌, ◌<◌, ◌≡◌, refl, sym, ap, ◌∙◌, inl, inr, bit_or, Bool, true,
  false, ◌||◌, List, [], ◌∷◌, ◌++◌, ltb, ◌==◌, if◌then◌else◌, length, set, take, drop, arith,
  append_assoc, append-nil, length-append, length-take, length-drop, take-append-drop, min, leb,
  take-of_le, drop-of_le, le→ltb, lt→ltb, Bool-cases,
}
use pixel_scrape.Base.Bytes.{Bytes}
use pixel_scrape.PeerConnection.Bitfield.{
  Packing, pack_bit, pack_bits, no_bits, flush_bits, pack, bit_at, unpack_byte, unpack_bytes,
}
use pixel_scrape.PeerConnection.Bitfield.Reading.{or_bits, read_bits, read_bits-or_bits}

set_append :
    (xs : List Bool) (y : Bool) (ys : List Bool) (k : ℕ) (v : Bool)
    → k ≡ length xs
    → set (xs ++ y ∷ ys) k v ≡ (xs ++ v ∷ []) ++ ys
set_append [] y ys zero v e = refl
set_append [] y ys (suc k) v e = absurd (omega arith)
set_append (x ∷ xs) y ys zero v e = absurd (omega arith)
set_append (x ∷ xs) y ys (suc k) v e = ap (◌∷◌ x) (set_append xs y ys k v (omega arith))

-- The loop over a byte replaces up to `n` bits by those of the byte.
unpack_byte-read_bits :
    (n i j byte : ℕ) (before old : List Bool)
    → length before ≡ i * 8 + j
    → unpack_byte n i j byte (before ++ old)
      ≡ before ++ (read_bits (length (take n old)) j byte ++ drop n old)
unfolding unpack_byte read_bits
unpack_byte-read_bits zero i j byte before old e = refl
unpack_byte-read_bits (suc n) i j byte before [] e =
    rw (le→ltb (i * 8 + j) (length (before ++ [])) (omega (arith, length-append before []))) refl
unpack_byte-read_bits (suc n) i j byte before (o ∷ os) e =
    rw
      (
        lt→ltb (i * 8 + j) (length (before ++ o ∷ os))
            (omega (arith, length-append before (o ∷ os))),
        set_append before o os (i * 8 + j) (bit_at byte j) (sym e),
      )
      (unpack_byte-read_bits n i (suc j) byte (before ++ bit_at byte j ∷ []) os
          (omega (arith, length-append before (bit_at byte j ∷ [])))
        ∙ append_assoc before (bit_at byte j ∷ [])
            (read_bits (length (take n os)) (suc j) byte ++ drop n os))

abbrev packing : Bytes → Bool → ℕ → ℕ → Packing
packing payload has count byte = record {
  bitfield_payload = payload;
  has_pieces = has;
  bit_count = count;
  byte = byte;
}

abbrev or_bit : Bool → ℕ → ℕ → ℕ
or_bit b c byte = if b then bit_or byte (2 ^ (7 - c)) else byte

pack_bit-within :
    (b : Bool) (payload : Bytes) (has : Bool) (c byte : ℕ)
    → c + 1 == 8 ≡ false
    → pack_bit (packing payload has c byte) b ≡ packing payload (b || has) (suc c) (or_bit b c byte)
unfolding pack_bit
pack_bit-within b payload has c byte e =
    let q : c + 1 ≡ suc c = omega arith in
    rw e (ap (λ n. packing payload (b || has) n (or_bit b c byte)) q)

pack_bit-closing :
    (b : Bool) (payload : Bytes) (has : Bool) (c byte : ℕ)
    → c + 1 == 8 ≡ true
    → pack_bit (packing payload has c byte) b
      ≡ packing (payload ++ or_bit b c byte ∷ []) (b || has) 0 0
unfolding pack_bit
pack_bit-closing b payload has c byte e = rw e refl

-- Bits that do not fill the byte end up in it.
flush_bits-short :
    (bs : List Bool) (payload : Bytes) (has : Bool) (c byte : ℕ)
    → c + length bs < 8
    → 0 < c + length bs
    → flush_bits (pack_bits (packing payload has c byte) bs) ≡ payload ++ or_bits c byte bs ∷ []
unfolding pack_bits flush_bits
flush_bits-short [] payload has c byte h p = rw (lt→ltb 0 c (omega arith)) refl
flush_bits-short (b ∷ bs) payload has c byte h p =
    ap (λ k. flush_bits (pack_bits k bs)) (pack_bit-within b payload has c byte (ground arith))
    ∙ flush_bits-short bs payload (b || has) (suc c) (or_bit b c byte) (omega arith) (omega arith)

-- Whether a piece has been seen behind some bits.
abbrev seen : Bool → List Bool → Bool
seen has [] = has
seen has (b ∷ bs) = seen (b || has) bs

-- Bits that fill the byte are a byte of the payload.
pack_bits-full :
    (bs rest : List Bool) (payload : Bytes) (has : Bool) (c byte : ℕ)
    → c + length bs ≡ 8
    → c < 8
    → pack_bits (packing payload has c byte) (bs ++ rest)
      ≡ pack_bits (packing (payload ++ or_bits c byte bs ∷ []) (seen has bs) 0 0) rest
unfolding pack_bits
pack_bits-full [] rest payload has c byte h l = absurd (omega arith)
pack_bits-full (b ∷ []) rest payload has c byte h l =
    ap (λ k. pack_bits k rest) (pack_bit-closing b payload has c byte (ground arith))
pack_bits-full (b ∷ d ∷ bs) rest payload has c byte h l =
    ap (λ k. pack_bits k ((d ∷ bs) ++ rest)) (pack_bit-within b payload has c byte (ground arith))
    ∙ pack_bits-full (d ∷ bs) rest payload (b || has) (suc c) (or_bit b c byte) (omega arith)
        (omega arith)

-- What is packed already stands in front.
flush_bits-append :
    (bs : List Bool) (front payload : Bytes) (p q : Bool) (c byte : ℕ)
    → flush_bits (pack_bits (packing (front ++ payload) p c byte) bs)
      ≡ front ++ flush_bits (pack_bits (packing payload q c byte) bs)
unfolding pack_bits flush_bits
flush_bits-append [] front payload p q c byte = elim (Bool-cases (ltb 0 c)) [
  | inl e ↦ rw e (append_assoc front payload (byte ∷ []))
  | inr e ↦ rw e refl
]
flush_bits-append (b ∷ bs) front payload p q c byte = elim (Bool-cases (c + 1 == 8)) [
  | inl e ↦
      ap (λ k. flush_bits (pack_bits k bs))
        (pack_bit-closing b (front ++ payload) p c byte e
          ∙ ap (λ r. packing r (b || p) 0 0) (append_assoc front payload (or_bit b c byte ∷ [])))
      ∙ flush_bits-append bs front (payload ++ or_bit b c byte ∷ []) (b || p) (b || q) 0 0
      ∙ ap (λ k. front ++ flush_bits (pack_bits k bs)) (sym (pack_bit-closing b payload q c byte e))
  | inr e ↦
      ap (λ k. flush_bits (pack_bits k bs)) (pack_bit-within b (front ++ payload) p c byte e)
      ∙ flush_bits-append bs front payload (b || p) (b || q) (suc c) (or_bit b c byte)
      ∙ ap (λ k. front ++ flush_bits (pack_bits k bs)) (sym (pack_bit-within b payload q c byte e))
]

-- The payload begins with the byte of the first eight bits.
pack-cons :
    (b : Bool) (bs : List Bool)
    → pack (b ∷ bs) ≡ or_bits 0 0 (take 8 (b ∷ bs)) ∷ pack (drop 8 (b ∷ bs))
unfolding pack pack_bits flush_bits
pack-cons b bs = elim (Bool-cases (ltb (length (b ∷ bs)) 8)) [
  | inl e ↦
      rw (take-of_le 8 (b ∷ bs) (ground arith), drop-of_le 8 (b ∷ bs) (ground arith))
        (flush_bits-short (b ∷ bs) [] false 0 0 (ground arith) (omega arith))
  | inr e ↦
      ap (λ ds. flush_bits (pack_bits no_bits ds)) (sym (take-append-drop 8 (b ∷ bs)))
      ∙ ap flush_bits (
          pack_bits-full (take 8 (b ∷ bs)) (drop 8 (b ∷ bs)) [] false 0 0
            (ground (arith, length-take 8 (b ∷ bs))) (omega arith))
      ∙ flush_bits-append (drop 8 (b ∷ bs)) (or_bits 0 0 (take 8 (b ∷ bs)) ∷ []) []
          (seen false (take 8 (b ∷ bs))) false 0 0
]

-- The first byte overwrites the first eight bits.
unpack_byte-pack :
    (i : ℕ) (before old bits : List Bool)
    → length before ≡ i * 8
    → length old ≡ length bits
    → unpack_byte 8 i 0 (or_bits 0 0 (take 8 bits)) (before ++ old)
      ≡ (before ++ take 8 bits) ++ drop 8 old
unpack_byte-pack i before old bits e h =
    unpack_byte-read_bits 8 i 0 (or_bits 0 0 (take 8 bits)) before old (omega arith)
    ∙ ap (λ n. before ++ (read_bits n 0 (or_bits 0 0 (take 8 bits)) ++ drop 8 old))
        (length-take 8 old ∙ ap (min 8) h ∙ sym (length-take 8 bits))
    ∙ ap (λ ds. before ++ (ds ++ drop 8 old))
        (read_bits-or_bits (take 8 bits) (omega (arith, length-take 8 bits)))
    ∙ sym (append_assoc before (take 8 bits) (drop 8 old))

unpack_bytes-stop :
    (i : ℕ) (xs : Bytes) (bits : List Bool) → length bits ≤ i * 8 → unpack_bytes i xs bits ≡ bits
unfolding unpack_bytes
unpack_bytes-stop i [] bits h = refl
unpack_bytes-stop i (x ∷ xs) bits h = rw (le→ltb (i * 8) (length bits) h) refl

-- The bytes made of some bits, read over as many old bits, give the bits.
pub unpack_bytes-pack :
    (fuel i : ℕ) (before old bits : List Bool)
    → length before ≡ i * 8
    → length old ≡ length bits
    → length bits ≤ fuel
    → unpack_bytes i (pack bits) (before ++ old) ≡ before ++ bits
unfolding unpack_bytes
unpack_bytes-pack fuel i before [] [] e h l =
    unpack_bytes-stop i (pack []) (before ++ []) (omega (arith, ap length (append-nil before)))
unpack_bytes-pack fuel i before (o ∷ os) [] e h l = absurd (omega arith)
unpack_bytes-pack zero i before old (b ∷ bs) e h l = absurd (omega arith)
unpack_bytes-pack (suc fuel) i before old (b ∷ bs) e h l =
    let bits = b ∷ bs in
    let front = before ++ take 8 bits in
    let whole : front ++ drop 8 bits ≡ before ++ bits =
      append_assoc before (take 8 bits) (drop 8 bits)
      ∙ ap (λ ds. before ++ ds) (take-append-drop 8 bits) in
    let turn : unpack_bytes i (pack bits) (before ++ old)
        ≡ unpack_bytes (suc i) (pack (drop 8 bits)) (front ++ drop 8 old) =
      ap (λ p. unpack_bytes i p (before ++ old)) (pack-cons b bs)
      ∙ rw
          (
            lt→ltb (i * 8) (length (before ++ old)) (omega (arith, length-append before old)),
            unpack_byte-pack i before old bits e h,
          )
          refl in
    turn ∙ elim (Bool-cases (leb 8 (length bits))) [
      | inl long ↦
          unpack_bytes-pack fuel (suc i) front (drop 8 old) (drop 8 bits)
            (ground (arith, length-append before (take 8 bits), length-take 8 bits))
            (omega (arith, length-drop 8 old, length-drop 8 bits))
            (ground (arith, length-drop 8 bits))
          ∙ whole
      | inr short ↦
          unpack_bytes-stop (suc i) (pack (drop 8 bits)) (front ++ drop 8 old) (
            ground (
              arith,
              length-append front (drop 8 old),
              length-append before (take 8 bits),
              length-take 8 bits,
              length-drop 8 old,
            ))
          ∙ ap (λ ds. front ++ ds)
              (drop-of_le 8 old (ground arith) ∙ sym (drop-of_le 8 bits (ground arith)))
          ∙ whole
    ]
