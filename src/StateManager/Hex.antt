-- ===== src/StateManager/Hex.antt =====
-- Info hashes as hexadecimal names of files.
use pixel_scrape.Base.{
  ℕ, ◌*◌, ◌<◌, ◌≡◌, refl, ap, ap₂, Bool, true, false, ◌&&◌, some, [], ◌∷◌, arith, ◌==◌, below,
  below_at, length, all,
}
use pixel_scrape.Base.Bytes.{Bytes, AreBytes}
use pixel_scrape.StateManager.{
  hex_byte, info_hash_to_hex, hex_value, is_hex_digit, read_hex_digit, read_hex_pair,
  read_hex_pairs, hex_to_info_hash,
}

-- A byte is read back from its two digits, which are digits.
abbrev pair_reads : ℕ → Bool
pair_reads b = elim (hex_byte b) [
  | c ∷ d ∷ [] ↦ (read_hex_pair c d == b) && is_hex_digit c && is_hex_digit d
  | _ ↦ false
]

all_pairs : below 256 pair_reads ≡ true
unfolding hex_byte read_hex_pair read_hex_digit hex_value is_hex_digit
all_pairs = refl

pair_at : (b : ℕ) → b < 256 → pair_reads b ≡ true
pair_at b h = below_at 256 b pair_reads all_pairs h

read_hex_pairs-info_hash_to_hex :
    (xs : Bytes) → AreBytes xs → read_hex_pairs (info_hash_to_hex xs) ≡ xs
unfolding read_hex_pairs info_hash_to_hex hex_byte
read_hex_pairs-info_hash_to_hex [] h = refl
read_hex_pairs-info_hash_to_hex (b ∷ bs) h =
    ap₂ ◌∷◌ (ground (arith, pair_at b h.0)) (read_hex_pairs-info_hash_to_hex bs h.1)

length-info_hash_to_hex : (xs : Bytes) → length (info_hash_to_hex xs) ≡ 2 * length xs
unfolding info_hash_to_hex hex_byte
length-info_hash_to_hex [] = omega arith
length-info_hash_to_hex (b ∷ bs) = omega (arith, length-info_hash_to_hex bs)

all-info_hash_to_hex : (xs : Bytes) → AreBytes xs → all is_hex_digit (info_hash_to_hex xs) ≡ true
unfolding info_hash_to_hex hex_byte
all-info_hash_to_hex [] h = refl
all-info_hash_to_hex (b ∷ bs) h = ground (arith, pair_at b h.0, all-info_hash_to_hex bs h.1)

-- A hash of twenty bytes is read back from its hexadecimal form.
pub hex_to_info_hash-info_hash_to_hex :
    (xs : Bytes) → AreBytes xs → length xs ≡ 20 → hex_to_info_hash (info_hash_to_hex xs) ≡ some xs
unfolding hex_to_info_hash
hex_to_info_hash-info_hash_to_hex xs h size =
    let forty : (length (info_hash_to_hex xs) == 40) ≡ true =
      ground (arith, length-info_hash_to_hex xs) in
    rw forty (ap some (read_hex_pairs-info_hash_to_hex xs h))
