-- ===== src/PeerConnection/Handling/Bits.antt =====
-- The bitfield of a peer under BITFIELD and HAVE messages.
use native.Mathlib.Decide.{ℕ_discrete}
use pixel_scrape.Base.{
  ◌<◌, ◌||◌, ◌==◌, get_or-set_self, get_or-set_ne, ltb→lt, ℕ, ◌≡◌, refl, sym, ap, ◌∙◌, inl, inr,
  Bool, true, false, ◌&&◌, Option, none, some, List, [], ltb, length, get_or, set, resize, arith,
  length-set, length-resize, Bool-cases,
}
use pixel_scrape.Base.Bytes.{Bytes, be32}
use pixel_scrape.PeerConnection.{have, bitfield, PeerMessage, PieceBlock, PeerConnection}
use pixel_scrape.PeerConnection.Bitfield.{pack}
use pixel_scrape.PeerConnection.Bitfield.RoundTrip.{unpack_bytes-pack}
use pixel_scrape.PeerConnection.Wire.{read_be32, create_message, send_message}
use pixel_scrape.PeerConnection.Handling.Blocks.{IsWord}
use pixel_scrape.PeerConnection.Handling.{
  write_bit, send_have, answered, mark_have, take_bitfield, handle_case, handle_message,
}

-- A BITFIELD message with the packed bits of a peer, one for each piece of the torrent, replaces
-- what was known of the peer by these bits, whatever it was.
pub handle_message-bitfield :
    (read_piece : ℕ → Bytes) (p : PeerConnection) (bits : List Bool)
    → length bits ≡ length p.metadata.piece_hashes
    → handle_message read_piece p (create_message bitfield (pack bits))
      ≡ some (record p { bits = bits }, none)
unfolding handle_message handle_case create_message take_bitfield
handle_message-bitfield read_piece p bits e =
    let old = resize (length p.metadata.piece_hashes) false p.bits in
    let nothing : Option PieceBlock = none in
    ap (λ (bs : List Bool). some (record p { bits = bs }, nothing))
      (unpack_bytes-pack (length bits) 0 [] old bits refl
        (length-resize (length p.metadata.piece_hashes) false p.bits ∙ sym e) (omega arith))

or_true : (b : Bool) → (b || true) ≡ true
or_true true = refl
or_true false = refl

or_false : (b : Bool) → (b || false) ≡ b
or_false true = refl
or_false false = refl

with_bound : (a c b : Bool) → b ≡ true → (a || c) ≡ (a || (c && b))
with_bound true c b h = refl
with_bound false true b h = sym h
with_bound false false b h = refl

without_bound : (a c b : Bool) → b ≡ false → a ≡ (a || (c && b))
without_bound true c b h = refl
without_bound false true b h = sym h
without_bound false false b h = refl

get_or-set :
    (bits : List Bool) (i k : ℕ)
    → i < length bits
    → get_or (set bits i true) k false ≡ (get_or bits k false || (k == i))
get_or-set bits i k h = elim (ℕ_discrete k i) [
  | yes e ↦
      let here : (k == i) ≡ true = ground (arith, e) in
      ap (λ m. get_or (set bits i true) m false) e
      ∙ get_or-set_self bits i true false h
      ∙ sym (ap (λ b. get_or bits k false || b) here ∙ or_true (get_or bits k false))
  | no ne ↦
      let away : (k == i) ≡ false = ground (arith, ne) in
      get_or-set_ne bits i k true false (λ e. ne (sym e))
      ∙ sym (ap (λ b. get_or bits k false || b) away ∙ or_false (get_or bits k false))
]

-- The payload of send_have is read back.
be32-word : (i : ℕ) → IsWord i → read_be32 (be32 i) 0 ≡ i
unfolding read_be32 be32
be32-word i h = omega arith

mark_have-be32 :
    (p : PeerConnection) (i : ℕ)
    → IsWord i
    → (bits : List Bool) × (mark_have p (be32 i) ≡ some (record p { bits = bits }))
      × (length bits ≡ length p.bits)
      × ((k : ℕ)
          → get_or bits k false ≡ (get_or p.bits k false || ((k == i) && ltb i (length p.bits))))
unfolding mark_have write_bit be32
mark_have-be32 p i h =
    let word = be32-word i h in
    elim (Bool-cases (ltb i (length p.bits))) [
      | inl inside ↦ (
        set p.bits i true,
        rw (word, inside) refl,
        length-set p.bits i true,
        λ k.
            get_or-set p.bits i k (ltb→lt i (length p.bits) inside)
            ∙ with_bound (get_or p.bits k false) (k == i) (ltb i (length p.bits)) inside,
      )
      | inr outside ↦ (
        p.bits,
        rw (word, outside) refl,
        refl,
        λ k. without_bound (get_or p.bits k false) (k == i) (ltb i (length p.bits)) outside,
      )
    ]

-- The message that send_have sends of a piece is handled by the peer without a write outside of its
-- bits, which stay as many: the bit of the piece is set, where there is one, and no other changes.
pub handle_message-have :
    (read_piece : ℕ → Bytes) (p q : PeerConnection) (i : ℕ)
    → IsWord i
    → (news : PeerMessage) × (bits : List Bool) × (send_have q i ≡ send_message q news)
      × (handle_message read_piece p news ≡ some (record p { bits = bits }, none))
      × (length bits ≡ length p.bits)
      × ((k : ℕ)
          → get_or bits k false ≡ (get_or p.bits k false || ((k == i) && ltb i (length p.bits))))
unfolding send_have handle_message handle_case create_message
handle_message-have read_piece p q i h =
    let (bits, marked, size, at) = mark_have-be32 p i h in
    (create_message have (be32 i), bits, refl, ap answered marked, size, at)
