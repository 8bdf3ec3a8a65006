-- ===== src/PeerConnection/Handshake.antt =====
-- src/peer/connection.cpp: the handshakes, and the buffer of what could not be sent yet.
pub mod Fragments
pub mod Flushing
use pixel_scrape.Base.{
  ℕ, zero, suc, ◌+◌, ◌-◌, min, Bool, true, false, not, ◌&&◌, Option, none, some, List, [], ◌∷◌,
  ◌++◌, ltb, ◌==◌, if◌then◌else◌, length, get_or, take, drop, replicate, is_empty,
}
use pixel_scrape.Base.Bytes.{Bytes, codes, equal}
use pixel_scrape.PeerConnection.{
  PeerMessageType, choke, unchoke, interested, not_interested, have, bitfield, request, piece,
  cancel, port, keep_alive, extended, unnamed, PeerMessage, PieceBlock, Answer, accepts,
  would_block, broken, Socket, PeerConnection,
}
use pixel_scrape.PeerConnection.Bitfield.{Packing, pack_bits, no_bits, pack}
use pixel_scrape.PeerConnection.Wire.{create_message, send, send_message, recv_all}

abbrev pub protocol : Bytes
protocol = codes "BitTorrent protocol"

-- The 68 bytes of a handshake, where the hash and the id have 20 bytes.
unfoldable pub handshake : PeerConnection → Bytes
handshake p = 19 ∷ (protocol ++ (replicate 8 0 ++ (p.info_hash ++ p.peer_id)))

-- What is kept for later when the kernel took `sent` bytes.
unfoldable pub keep_unsent : PeerConnection → Bytes → ℕ → PeerConnection
keep_unsent p xs sent =
    if ltb sent (length xs) then record p { write_buffer = p.write_buffer ++ drop sent xs } else p

-- `send_handshake` on an open socket.
unfoldable pub handshake_on : PeerConnection → Socket → PeerConnection × Bool
handshake_on p s =
    let (s', answer) = send s (handshake p) in
    let p' = record p { socket = some s' } in
    elim answer [
      | accepts n ↦ (keep_unsent p' (handshake p) n, true)
      | would_block ↦ (keep_unsent p' (handshake p) 0, true)
      | broken ↦ (p', false)
    ]

unfoldable pub send_handshake : PeerConnection → PeerConnection × Bool
send_handshake p = elim p.socket [ none ↦ (p, false) | some s ↦ handshake_on p s ]

-- `flush_write_buffer` on an open socket with bytes to write.
unfoldable pub flush_on : PeerConnection → Socket → PeerConnection × Bool
flush_on p s =
    let (s', answer) = send s p.write_buffer in
    elim answer [
      | accepts n ↦ (
        record p { socket = some s'; write_buffer = drop n p.write_buffer },
        is_empty (drop n p.write_buffer),
      )
      | would_block ↦ (record p { socket = some s' }, false)
      | broken ↦ (record p { socket = none }, false)
    ]

unfoldable pub flush_write_buffer : PeerConnection → PeerConnection × Bool
flush_write_buffer p = elim p.socket [
  | none ↦ (p, true)
  | some s ↦ if is_empty p.write_buffer then (p, true) else flush_on p s
]

-- UNCHOKE and, where there are pieces, BITFIELD, as they follow a handshake.
unfoldable pub send_welcome : PeerConnection → PeerConnection
send_welcome p =
    let p' = record (send_message p (create_message unchoke [])) { am_choking = false } in
    if (pack_bits no_bits p.bits).has_pieces
    then send_message p' (create_message bitfield (pack p.bits))
    else p'

-- The checks of a whole handshake.
unfoldable pub is_valid : PeerConnection → Bytes → Bool
is_valid p xs =
    get_or xs 0 0 == 19
    && (equal (take 19 (drop 1 xs)) protocol && equal (take 20 (drop 28 xs)) p.info_hash)

abbrev pub forget_handshake : PeerConnection → PeerConnection
forget_handshake p = record p { handshake_buffer = []; handshake_bytes_received = 0 }

-- What follows once 68 bytes have come.
unfoldable pub finish_handshake : PeerConnection → Bytes → PeerConnection × Bool
finish_handshake p xs =
    if is_valid p xs then (send_welcome (forget_handshake p), true) else (forget_handshake p, false)

-- What `recv` gives on a socket that does not block.
pub data Arrival : Type 0 where
  arrives : Bytes → Arrival
  not_ready failure closed : Arrival

-- `n` bytes into the buffer, which holds `p.handshake_bytes_received` already.
unfoldable pub receive_part : PeerConnection → Bytes → PeerConnection × Bool
receive_part p xs =
    let got = p.handshake_bytes_received in
    let buffer = take got p.handshake_buffer ++ (xs ++ drop (got + length xs) p.handshake_buffer) in
    let p' = record p { handshake_buffer = buffer; handshake_bytes_received = got + length xs } in
    if ltb p'.handshake_bytes_received 68 then (p', false) else finish_handshake p' buffer

-- The buffer is made at the first call.
unfoldable pub prepare_buffer : PeerConnection → PeerConnection
prepare_buffer p =
    if is_empty p.handshake_buffer
    then record p { handshake_buffer = replicate 68 0; handshake_bytes_received = 0 }
    else p

-- `recv` after the buffer is made: at most as many bytes as are missing.
unfoldable pub receive_arrival : PeerConnection → Arrival → PeerConnection × Bool
receive_arrival p (arrives xs) =
    let part = take (68 - p.handshake_bytes_received) xs in
    if is_empty part then (forget_handshake p, false) else receive_part p part
receive_arrival p not_ready = (p, false)
receive_arrival p failure = (forget_handshake p, false)
receive_arrival p closed = (forget_handshake p, false)

unfoldable pub receive_handshake_nonblocking : PeerConnection → Arrival → PeerConnection × Bool
receive_handshake_nonblocking p arrival = elim p.socket [
  | none ↦ (p, false)
  | some s ↦ receive_arrival (prepare_buffer p) arrival
]

-- The answer to a handshake that the listener has checked.
unfoldable pub respond_to_handshake : PeerConnection → PeerConnection × Bool
respond_to_handshake p = elim p.socket [
  | none ↦ (p, false)
  | some s ↦
      let (s', answer) = send s (handshake p) in
      let p' = record p { socket = some s' } in
      elim answer [
        | accepts n ↦ if n == length (handshake p) then (send_welcome p', true) else (p', false)
        | would_block ↦ (p', false)
        | broken ↦ (p', false)
      ]
]

-- The state that `start` leaves.
unfoldable pub start : PeerConnection → PeerConnection
start p = record p { connected = true }
