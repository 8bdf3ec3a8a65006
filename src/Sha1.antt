-- ===== src/Sha1.antt =====
-- src/crypto/sha1.cpp and include/sha1.hpp: the incremental SHA-1. A word is a number below 2^32,
-- with its wrap-around written out, and the 64-byte buffer keeps what earlier blocks left in it.
pub mod Stream
pub mod Padding
pub mod Blocks
mod Examples
use pixel_scrape.Base.{
  ℕ, zero, suc, ◌+◌, ◌-◌, ◌*◌, ◌/◌, ◌%◌, ◌^◌, min, bit_and, bit_or, bit_xor, List, [], ◌∷◌, ◌++◌,
  ltb, ◌==◌, if◌then◌else◌, length, get_or, set, take, drop, replicate,
}
use pixel_scrape.Base.Bytes.{Bytes, size_mod, u32_mod}

-- `h_[5]`, and the working variables a to e of a block.
pub record Words : Type 0 where
  pub a : ℕ
  pub b : ℕ
  pub c : ℕ
  pub d : ℕ
  pub e : ℕ

pub record Sha1 : Type 0 where
  pub h : Words
  pub message_length : ℕ
  pub buffer : Bytes
  pub buffer_index : ℕ

abbrev pub initial_words : Words
initial_words = record {
  a = 0x67452301;
  b = 0xEFCDAB89;
  c = 0x98BADCFE;
  d = 0x10325476;
  e = 0xC3D2E1F0;
}

pub reset : Sha1 → Sha1
reset s = record s { h = initial_words; message_length = 0; buffer_index = 0 }

-- A new object: the constructor leaves the buffer's bytes as they are found, here `junk`.
unfoldable pub new : Bytes → Sha1
unfolding reset
new junk = reset (record { h = initial_words; message_length = 0; buffer = junk; buffer_index = 0 })

-- `std::memcpy` and `std::fill` into the buffer from index `i`, a byte at a time.
pub copy : Bytes → ℕ → Bytes → Bytes
copy buf i [] = buf
copy buf i (x ∷ xs) = copy (set buf i x) (suc i) xs

rotate_left : ℕ → ℕ → ℕ
rotate_left k x = bit_or (x * 2 ^ k % u32_mod) (x / 2 ^ (32 - k))

complement : ℕ → ℕ
complement x = u32_mod - 1 - x

word_at : Bytes → ℕ → ℕ
word_at buf i =
    bit_or
      (bit_or (bit_or (get_or buf (i * 4) 0 * 2 ^ 24 % u32_mod) (get_or buf (i * 4 + 1) 0 * 2 ^ 16))
        (get_or buf (i * 4 + 2) 0 * 2 ^ 8))
      (get_or buf (i * 4 + 3) 0)

-- The words `i`, `i + 1`, … of the schedule, `n` of them.
first_words : ℕ → ℕ → Bytes → List ℕ
unfolding word_at
first_words zero i buf = []
first_words (suc n) i buf = word_at buf i ∷ first_words n (suc i) buf

extend_words : ℕ → ℕ → List ℕ → List ℕ
unfolding rotate_left
extend_words zero i w = w
extend_words (suc n) i w =
    let mixed =
      bit_xor (bit_xor (bit_xor (get_or w (i - 3) 0) (get_or w (i - 8) 0)) (get_or w (i - 14) 0))
        (get_or w (i - 16) 0) in
    extend_words n (suc i) (w ++ rotate_left 1 mixed ∷ [])

round_function : ℕ → Words → ℕ
unfolding complement
round_function i v =
    if ltb i 20
    then bit_or (bit_and v.b v.c) (bit_and (complement v.b) v.d)
    else if ltb i 40
    then bit_xor (bit_xor v.b v.c) v.d
    else if ltb i 60
    then bit_or (bit_or (bit_and v.b v.c) (bit_and v.b v.d)) (bit_and v.c v.d)
    else bit_xor (bit_xor v.b v.c) v.d

round_constant : ℕ → ℕ
round_constant i =
    if ltb i 20
    then 0x5A827999
    else if ltb i 40
    then 0x6ED9EBA1
    else if ltb i 60
    then 0x8F1BBCDC
    else 0xCA62C1D6

round : List ℕ → ℕ → Words → Words
unfolding round_function round_constant rotate_left
round w i v = record {
  a = (rotate_left 5 v.a + round_function i v + v.e + round_constant i + get_or w i 0) % u32_mod;
  b = v.a;
  c = rotate_left 30 v.b;
  d = v.c;
  e = v.d;
}

rounds : ℕ → ℕ → List ℕ → Words → Words
unfolding round
rounds zero i w v = v
rounds (suc n) i w v = rounds n (suc i) w (round w i v)

-- What `process_block` does to `h_`, given the buffer.
unfoldable pub compress : Words → Bytes → Words
unfolding first_words extend_words rounds
compress h buf =
    let w = extend_words 64 16 (first_words 16 0 buf) in
    let v = rounds 80 0 w h in
    record {
      a = (h.a + v.a) % u32_mod;
      b = (h.b + v.b) % u32_mod;
      c = (h.c + v.c) % u32_mod;
      d = (h.d + v.d) % u32_mod;
      e = (h.e + v.e) % u32_mod;
    }

unfoldable pub process_block : Sha1 → Sha1
process_block s = record s { h = compress s.h s.buffer }

-- How much one turn of the loop copies.
to_copy : Sha1 → ℕ → ℕ
to_copy s left = min left ((64 + size_mod - s.buffer_index) % size_mod)

-- One turn: `n` bytes into the buffer, and the block processed if that fills it.
copy_in : Sha1 → ℕ → Bytes → Sha1
unfolding process_block
copy_in s n xs =
    let s' = record s {
      buffer = copy s.buffer s.buffer_index (take n xs);
      buffer_index = s.buffer_index + n;
    } in
    if s'.buffer_index == 64 then record (process_block s') { buffer_index = 0 } else s'

-- `while (length > 0)`: fuel, of which a unit for each byte is enough.
update_loop : ℕ → Sha1 → Bytes → Sha1
unfolding to_copy copy_in copy
update_loop fuel s [] = s
update_loop zero s (x ∷ xs) = s
update_loop (suc fuel) s (x ∷ xs) =
    let n = to_copy s (length (x ∷ xs)) in update_loop fuel (copy_in s n (x ∷ xs)) (drop n (x ∷ xs))

unfoldable pub update : Sha1 → Bytes → Sha1
unfolding update_loop
update s xs =
    update_loop (length xs)
      (record s { message_length = (s.message_length + length xs) % size_mod }) xs

-- The eight bytes of a 64-bit value, the highest first.
pub be64 : ℕ → Bytes
be64 n =
    (n / 2 ^ 56 % 256)
    ∷ (n / 2 ^ 48 % 256)
    ∷ (n / 2 ^ 40 % 256)
    ∷ (n / 2 ^ 32 % 256)
    ∷ (n / 2 ^ 24 % 256)
    ∷ (n / 2 ^ 16 % 256)
    ∷ (n / 2 ^ 8 % 256)
    ∷ (n % 256)
    ∷ []

word_bytes : ℕ → Bytes
word_bytes x = (x / 2 ^ 24 % 256) ∷ (x / 2 ^ 16 % 256) ∷ (x / 2 ^ 8 % 256) ∷ (x % 256) ∷ []

pub digest : Words → Bytes
unfolding word_bytes
digest v =
    word_bytes v.a ++ (word_bytes v.b ++ (word_bytes v.c ++ (word_bytes v.d ++ word_bytes v.e)))

-- `finalize` up to the last block: the 0x80 byte, the zeros and the length.
pad_marker : Sha1 → Sha1
pad_marker s = record s {
  buffer = set s.buffer s.buffer_index 0x80;
  buffer_index = s.buffer_index + 1;
}

pad_overflow : Sha1 → Sha1
unfolding process_block copy
pad_overflow s =
    if ltb 56 s.buffer_index
    then record (process_block
        (record s { buffer = copy s.buffer s.buffer_index (replicate (64 - s.buffer_index) 0) })) {
          buffer_index = 0;
        }
    else s

pad_length : Sha1 → Sha1
unfolding process_block copy be64
pad_length s =
    let zeroed = copy s.buffer s.buffer_index (replicate (56 - s.buffer_index) 0) in
    process_block (record s { buffer = copy zeroed 56 (be64 (s.message_length * 8 % size_mod)) })

unfoldable pub finalize : Sha1 → Bytes
unfolding pad_marker pad_overflow pad_length digest
finalize s = digest (pad_length (pad_overflow (pad_marker s))).h

-- `SHA1::hash`: a fresh object, one update, one finalize.
unfoldable pub hash : Bytes → Bytes → Bytes
unfolding new update finalize
hash junk xs = finalize (update (new junk) xs)
