-- ===== src/Sha1/Padding.antt =====
-- `SHA1::finalize` and `SHA1::hash` against the hash that pads the message and folds its blocks.
use mathlib.Core.List.{foldl-append}
use pixel_scrape.Base.{
  ℕ, zero, suc, ◌+◌, ◌-◌, ◌*◌, ◌%◌, ◌≤◌, ◌<◌, ◌≡◌, refl, sym, ap, ap₂, ◌∙◌, ◌≡⟨◌⟩◌, ◌∎, inl, inr,
  true, false, ◌∷◌, ◌++◌, foldl, arith, append_assoc, ltb, le→ltb, lt→ltb, ltb→lt, if◌then◌else◌,
  Bool-cases, length, set, replicate, length-append, length-replicate,
}
use pixel_scrape.Base.Bytes.{Bytes, size_mod}
use pixel_scrape.Sha1.{
  Sha1, Words, copy, compress, be64, digest, pad_marker, pad_overflow, pad_length, finalize,
}
use pixel_scrape.Sha1.Stream.{IsReady, push, copy-append, filled, foldl-push-filled}

-- The zeros after the 0x80 byte where `i` bytes of the last block are taken.
abbrev pub zeros : ℕ → ℕ
zeros i = if ltb 55 i then 119 - i else 55 - i

-- The padding of a message of `n` bytes.
abbrev pub padding : ℕ → Bytes
padding n = 0x80 ∷ replicate (zeros (n % 64)) 0 ++ be64 (n * 8 % size_mod)

length_fill : (n : ℕ) → length (replicate {A = ℕ} n 0) ≡ n
length_fill n = length-replicate n _

replicate-add : (m n x : ℕ) → replicate (m + n) x ≡ replicate m x ++ replicate n x
replicate-add zero n x = let e : 0 + n ≡ n = omega arith in rw e refl
replicate-add (suc m) n x =
    let e : suc m + n ≡ suc (m + n) = omega arith in rw e (ap (◌∷◌ x) (replicate-add m n x))

pub length-be64 : (n : ℕ) → length (be64 n) ≡ 8
unfolding be64
length-be64 n = refl

abbrev last_block : Sha1 → Words
last_block s = (pad_length (pad_overflow (pad_marker s))).h

last_block_fits :
    (s : Sha1)
    → ltb 56 (s.buffer_index + 1) ≡ false
    → last_block s
      ≡ compress s.h (
          copy
            (copy
              (set s.buffer s.buffer_index 0x80)
              (s.buffer_index + 1)
              (replicate (56 - (s.buffer_index + 1)) 0))
            56
            (be64 (s.message_length * 8 % size_mod)))
unfolding pad_length pad_overflow pad_marker
last_block_fits s e = rw e

last_block_spills :
    (s : Sha1)
    → ltb 56 (s.buffer_index + 1) ≡ true
    → last_block s ≡ (
        let full =
          copy
            (set s.buffer s.buffer_index 0x80)
            (s.buffer_index + 1)
            (replicate (64 - (s.buffer_index + 1)) 0) in
        compress
          (compress s.h full)
          (copy (copy full 0 (replicate 56 0)) 56 (be64 (s.message_length * 8 % size_mod))))
unfolding pad_length pad_overflow pad_marker
last_block_spills s e = rw e

-- The marker, `z` zeros and then `ys`, written in one go.
copy_marked :
    (buf ys : Bytes) (i z : ℕ)
    → copy buf i (0x80 ∷ replicate z 0 ++ ys)
      ≡ copy (copy (set buf i 0x80) (i + 1) (replicate z 0)) (i + 1 + z) ys
unfolding copy
copy_marked buf ys i z =
    ap (λ j. copy (set buf i 0x80) j (replicate z 0 ++ ys)) (omega arith)
    ∙ copy-append (replicate z 0) ys (set buf i 0x80) (i + 1)
    ∙ ap (λ n. copy (copy (set buf i 0x80) (i + 1) (replicate z 0)) (i + 1 + n) ys) (length_fill z)

pub length_marked : (z : ℕ) (ys : Bytes) → length (0x80 ∷ replicate z 0 ++ ys) ≡ suc (z + length ys)
length_marked z ys = omega (arith, length-append (replicate z 0) ys, length_fill z)

last_block_short :
    (s : Sha1)
    → s.buffer_index ≤ 55
    → last_block s
      ≡ (foldl push s
          (0x80 ∷ replicate (55 - s.buffer_index) 0 ++ be64 (s.message_length * 8 % size_mod))).h
last_block_short s h =
    let i = s.buffer_index in
    let z = 55 - i in
    let tail = be64 (s.message_length * 8 % size_mod) in
    let count : i + length (0x80 ∷ replicate z 0 ++ tail) ≡ 64 =
      omega (arith, length_marked z tail, length-be64 (s.message_length * 8 % size_mod)) in
    last_block s
    ≡⟨ last_block_fits s (le→ltb 56 (i + 1) (omega arith)) ⟩
      compress s.h (copy (copy (set s.buffer i 0x80) (i + 1) (replicate (56 - (i + 1)) 0)) 56 tail)
    ≡⟨ ap₂ (λ m n. compress s.h (copy (copy (set s.buffer i 0x80) (i + 1) (replicate m 0)) n tail))
        (omega arith) (omega arith) ⟩
      compress s.h (copy (copy (set s.buffer i 0x80) (i + 1) (replicate z 0)) (i + 1 + z) tail)
    ≡⟨ ap (compress s.h) (sym (copy_marked s.buffer tail i z)) ⟩
      compress s.h (copy s.buffer i (0x80 ∷ replicate z 0 ++ tail))
    ≡⟨ ap (λ (t : Sha1). t.h) (sym (foldl-push-filled 0x80 (replicate z 0 ++ tail) s count)) ⟩
      (foldl push s (0x80 ∷ replicate z 0 ++ tail)).h ∎

-- A block of 56 zeros and the length, from an empty buffer.
foldl-push_last :
    (t : Sha1) (ys : Bytes)
    → t.buffer_index ≡ 0
    → length ys ≡ 8
    → compress t.h (copy (copy t.buffer 0 (replicate 56 0)) 56 ys)
      ≡ (foldl push t (replicate 56 0 ++ ys)).h
foldl-push_last t ys e h =
    let count : t.buffer_index + length (0 ∷ replicate 55 0 ++ ys) ≡ 64 = omega arith in
    let after : 56 ≡ t.buffer_index + length (replicate {A = ℕ} 56 0) = omega arith in
    ap₂ (λ m n. compress t.h (copy (copy t.buffer m (replicate 56 0)) n ys)) (sym e) after
    ∙ ap (compress t.h) (sym (copy-append (replicate 56 0) ys t.buffer t.buffer_index))
    ∙ ap (λ (r : Sha1). r.h) (sym (foldl-push-filled 0 (replicate 55 0 ++ ys) t count))

-- What fills the block comes first, and 56 zeros follow it.
foldl-push_split :
    (s : Sha1) (z : ℕ) (ys : Bytes)
    → s.buffer_index + suc z ≡ 64
    → foldl push s (0x80 ∷ replicate (z + 56) 0 ++ ys)
      ≡ foldl push (filled s (0x80 ∷ replicate z 0)) (replicate 56 0 ++ ys)
foldl-push_split s z ys h =
    ap (λ r. foldl push s ((0x80 ∷ r) ++ ys)) (replicate-add z 56 0)
    ∙ ap (foldl push s) (append_assoc (0x80 ∷ replicate z 0) (replicate 56 0) ys)
    ∙ foldl-append push s (0x80 ∷ replicate z 0) (replicate 56 0 ++ ys)
    ∙ ap (λ t. foldl push t (replicate 56 0 ++ ys))
        (foldl-push-filled 0x80 (replicate z 0) s (omega (arith, length_fill z)))

filled_marked :
    (s : Sha1) (z : ℕ)
    → copy (set s.buffer s.buffer_index 0x80) (s.buffer_index + 1) (replicate z 0)
      ≡ (filled s (0x80 ∷ replicate z 0)).buffer
unfolding copy
filled_marked s z =
    ap (λ j. copy (set s.buffer s.buffer_index 0x80) j (replicate z 0)) (omega arith)

last_block_long :
    (s : Sha1)
    → 55 < s.buffer_index
    → s.buffer_index < 64
    → last_block s
      ≡ (foldl push s
          (0x80 ∷ replicate (119 - s.buffer_index) 0 ++ be64 (s.message_length * 8 % size_mod))).h
last_block_long s h k =
    let i = s.buffer_index in
    let z = 63 - i in
    let tail = be64 (s.message_length * 8 % size_mod) in
    let t = filled s (0x80 ∷ replicate z 0) in
    let e : 119 - i ≡ z + 56 = omega arith in
    let f : 64 - (i + 1) ≡ z = omega arith in
    rw (e, foldl-push_split s z tail (omega arith))
      (last_block_spills s (lt→ltb 56 (i + 1) (omega arith))
        ∙ rw (f, filled_marked s z)
            (foldl-push_last t tail refl (length-be64 (s.message_length * 8 % size_mod))))

-- `finalize` gives the digest after the 0x80 byte, the zeros up to 56 bytes of a block and the
-- message's length in bits have been fed to a ready object like any other bytes.
pub finalize-eq-digest :
    (s : Sha1)
    → IsReady s
    → finalize s
      ≡ digest
          (foldl push s
            (0x80 ∷ replicate (zeros s.buffer_index) 0 ++ be64 (s.message_length * 8 % size_mod))).h
unfolding finalize
finalize-eq-digest s v = elim (Bool-cases (ltb 55 s.buffer_index)) [
  | inl long ↦ rw long (ap digest (last_block_long s (ltb→lt 55 s.buffer_index long) v.room))
  | inr short ↦ rw short (ap digest (last_block_short s (ground arith)))
]
