-- ===== src/PeerConnection/Bitfield.antt =====
-- src/peer/connection.cpp: a bitfield packed into the bytes of a BITFIELD message, and read back.
pub mod Reading
pub mod RoundTrip
use pixel_scrape.Base.{
  ℕ, zero, suc, ◌+◌, ◌-◌, ◌*◌, ◌^◌, bit_and, bit_or, Bool, true, false, not, ◌&&◌, ◌||◌, List, [],
  ◌∷◌, ◌++◌, ltb, ◌==◌, if◌then◌else◌, length, set,
}
use pixel_scrape.Base.Bytes.{Bytes}

-- The variables of the loop that packs: `bitfield_payload`, `has_pieces`, `bit_count`, `byte`.
pub record Packing : Type 0 where
  pub bitfield_payload : Bytes
  pub has_pieces : Bool
  pub bit_count : ℕ
  pub byte : ℕ

-- A turn of the loop `for (bool has : bitfield_)`.
unfoldable pub pack_bit : Packing → Bool → Packing
pack_bit k has =
    let byte = if has then bit_or k.byte (2 ^ (7 - k.bit_count)) else k.byte in
    let has_pieces = has || k.has_pieces in
    if k.bit_count + 1 == 8
    then record {
      bitfield_payload = k.bitfield_payload ++ byte ∷ [];
      has_pieces = has_pieces;
      bit_count = 0;
      byte = 0;
    }
    else record {
      bitfield_payload = k.bitfield_payload;
      has_pieces = has_pieces;
      bit_count = k.bit_count + 1;
      byte = byte;
    }

unfoldable pub pack_bits : Packing → List Bool → Packing
unfolding pack_bit
pack_bits k [] = k
pack_bits k (b ∷ bs) = pack_bits (pack_bit k b) bs

abbrev pub no_bits : Packing
no_bits = record { bitfield_payload = []; has_pieces = false; bit_count = 0; byte = 0 }

-- The last byte, where it has bits.
unfoldable pub flush_bits : Packing → Bytes
flush_bits k = if ltb 0 k.bit_count then k.bitfield_payload ++ k.byte ∷ [] else k.bitfield_payload

-- The payload of the BITFIELD message.
unfoldable pub pack : List Bool → Bytes
unfolding pack_bits flush_bits
pack bits = flush_bits (pack_bits no_bits bits)

-- `byte & (1 << (7 - j))`.
unfoldable pub bit_at : ℕ → ℕ → Bool
bit_at byte j = not (bit_and byte (2 ^ (7 - j)) == 0)

-- The loop over the bits of the byte `i`, from the bit `j` on, with `n` turns left.
unfoldable pub unpack_byte : ℕ → ℕ → ℕ → ℕ → List Bool → List Bool
unfolding bit_at
unpack_byte zero i j byte bits = bits
unpack_byte (suc n) i j byte bits =
    let rest = unpack_byte n i (suc j) byte (set bits (i * 8 + j) (bit_at byte j)) in
    if ltb (i * 8 + j) (length bits) then rest else bits

-- The loop over the bytes of the payload from the byte `i` on.
unfoldable pub unpack_bytes : ℕ → Bytes → List Bool → List Bool
unfolding unpack_byte
unpack_bytes i [] bits = bits
unpack_bytes i (b ∷ bs) bits =
    let rest = unpack_bytes (suc i) bs (unpack_byte 8 i 0 b bits) in
    if ltb (i * 8) (length bits) then rest else bits
