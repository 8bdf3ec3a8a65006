-- ===== src/PeerConnection/Handling.antt =====
-- src/peer/connection.cpp: what a message changes, and the messages that the program sends.
pub mod Blocks
pub mod Bits
use pixel_scrape.Base.{
  ℕ, zero, suc, ◌+◌, ◌-◌, ◌*◌, ◌%◌, ◌^◌, min, Bool, true, false, not, ◌&&◌, Option, none, some,
  List, [], ◌∷◌, ◌++◌, ltb, leb, ◌==◌, if◌then◌else◌, length, get_or, set, take, drop, resize,
  is_empty,
}
use pixel_scrape.Base.Bytes.{Bytes, u32_mod, be32}
use pixel_scrape.PeerConnection.{
  PeerMessageType, choke, unchoke, interested, not_interested, have, bitfield, request, piece,
  cancel, port, keep_alive, extended, unnamed, PeerMessage, PieceBlock, Answer, accepts,
  would_block, broken, Socket, PeerConnection,
}
use pixel_scrape.PeerConnection.Bitfield.{unpack_bytes}
use pixel_scrape.PeerConnection.Wire.{read_be32, create_message, send_message}

-- Tells the peer of a change of interest.
unfoldable pub set_interested : PeerConnection → Bool → PeerConnection
set_interested p true =
    if p.am_interested
    then p
    else send_message (record p { am_interested = true }) (create_message interested [])
set_interested p false =
    if p.am_interested
    then send_message (record p { am_interested = false }) (create_message not_interested [])
    else p

unfoldable pub send_have : PeerConnection → ℕ → PeerConnection
send_have p index = send_message p (create_message have (be32 index))

unfoldable pub send_request : PeerConnection → ℕ → ℕ → ℕ → PeerConnection
send_request p index begin size =
    send_message p (create_message request (be32 index ++ (be32 begin ++ be32 size)))

unfoldable pub send_piece : PeerConnection → ℕ → ℕ → Bytes → PeerConnection
send_piece p index begin xs =
    send_message p (create_message piece (be32 index ++ (be32 begin ++ xs)))

unfoldable pub set_have_piece : PeerConnection → ℕ → Bool → PeerConnection
set_have_piece p index value =
    let p' = record p { bits = set p.bits index value } in
    if ltb index (length p.bits) then if value then send_have p' index else p' else p

unfoldable pub send_extended_message : PeerConnection → ℕ → Bytes → PeerConnection
send_extended_message p id payload = send_message p (create_message extended (id ∷ payload))

-- An assignment to an element; `none` is one behind the end.
unfoldable pub write_bit : List Bool → ℕ → Bool → Option (List Bool)
write_bit bits i b = if ltb i (length bits) then some (set bits i b) else none

-- The HAVE case.
unfoldable pub mark_have : PeerConnection → Bytes → Option PeerConnection
mark_have p payload =
    let index = read_be32 payload 0 in
    if leb 4 (length payload)
    then if ltb index (length p.bits)
      then elim (write_bit p.bits index true) [
        | none ↦ none
        | some bits ↦ some (record p { bits = bits })
      ]
      else some p
    else some p

-- The BITFIELD case.
unfoldable pub take_bitfield : PeerConnection → Bytes → PeerConnection
take_bitfield p payload = record p {
  bits = unpack_bytes 0 payload (resize (length p.metadata.piece_hashes) false p.bits);
}

-- The part of a piece from `begin` on, `size` bytes; `none` where it does not lie in the piece, and
-- the iterators of the program are out of bounds.
unfoldable pub slice : Bytes → ℕ → ℕ → Option Bytes
slice xs begin size =
    if leb (begin + size) (length xs) then some (take size (drop begin xs)) else none

-- The PORT case.
unfoldable pub take_port : PeerConnection → Bytes → PeerConnection
take_port p payload =
    if leb 2 (length payload)
    then record p { dht_port = some (get_or payload 0 0 * 2 ^ 8 + get_or payload 1 0) }
    else p

-- The PIECE case: the call of `piece_callback_`, where it is set.
unfoldable pub take_block : PeerConnection → Bytes → Option PieceBlock
take_block p payload =
    if leb 8 (length payload) && p.has_callback
    then some (record {
      index = read_be32 payload 0;
      begin = read_be32 payload 4;
      payload = drop 8 payload;
    })
    else none

-- The state after a message that calls no callback.
abbrev pub answered : Option PeerConnection → Option (PeerConnection × Option PieceBlock)
answered none = none
answered (some p) = some (p, none)

-- `read_piece` is that of the piece manager, which gives no bytes for a piece that it has not.
module _ (read_piece : ℕ → Bytes) where
  -- The REQUEST case once the connection is known to have the piece. The test
  -- `begin + length <= piece_data.size()` adds in `uint32_t`.
  unfoldable pub serve_block : PeerConnection → ℕ → ℕ → ℕ → Option PeerConnection
  serve_block p index begin size =
      let piece_data = read_piece index in
      if not (is_empty piece_data) && leb ((begin + size) % u32_mod) (length piece_data)
      then elim (slice piece_data begin size) [
        | none ↦ none
        | some xs ↦ some (send_piece p index begin xs)
      ]
      else some p

  -- The REQUEST case.
  unfoldable pub serve_request : PeerConnection → Bytes → Option PeerConnection
  serve_request p payload =
      let index = read_be32 payload 0 in
      if leb 12 (length payload)
        && (not p.am_choking && (ltb index (length p.bits) && get_or p.bits index false))
      then serve_block p index (read_be32 payload 4) (read_be32 payload 8)
      else some p

  -- The new state and the call of the callback; `none` is a read outside of a piece
  -- or a write outside of the bits.
  unfoldable pub handle_case :
      PeerConnection → PeerMessageType → Bytes → Option (PeerConnection × Option PieceBlock)
  handle_case p choke payload = some (record p { peer_choking = true }, none)
  handle_case p unchoke payload = some (record p { peer_choking = false }, none)
  handle_case p interested payload = some (record p { peer_interested = true }, none)
  handle_case p not_interested payload = some (record p { peer_interested = false }, none)
  handle_case p have payload = answered (mark_have p payload)
  handle_case p bitfield payload = some (take_bitfield p payload, none)
  handle_case p request payload = answered (serve_request p payload)
  handle_case p piece payload = some (p, take_block p payload)
  handle_case p cancel payload = some (p, none)
  handle_case p port payload = some (take_port p payload, none)
  handle_case p keep_alive payload = some (p, none)
  handle_case p extended payload = some (p, none)
  handle_case p (unnamed n) payload = some (p, none)

  unfoldable pub handle_message :
      PeerConnection → PeerMessage → Option (PeerConnection × Option PieceBlock)
  unfolding handle_case
  handle_message p m = handle_case p m.type m.payload
