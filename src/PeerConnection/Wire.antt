-- ===== src/PeerConnection/Wire.antt =====
-- src/peer/connection.cpp: the messages on the wire.
pub mod Framing
pub mod Sending
use pixel_scrape.Base.{
  ℕ, zero, suc, ◌+◌, ◌-◌, ◌*◌, ◌%◌, ◌^◌, min, Bool, true, false, not, Option, none, some, List, [],
  ◌∷◌, ◌++◌, ltb, ◌==◌, if◌then◌else◌, length, get_or, take, drop,
}
use pixel_scrape.Base.Bytes.{Bytes, u32_mod, be32}
use pixel_scrape.PeerConnection.{
  PeerMessageType, choke, unchoke, interested, not_interested, have, bitfield, request, piece,
  cancel, port, keep_alive, extended, unnamed, PeerMessage, PieceBlock, Answer, accepts,
  would_block, broken, Socket, PeerConnection,
}

-- `static_cast<uint8_t>` of a message type.
unfoldable pub type_code : PeerMessageType → ℕ
type_code choke = 0
type_code unchoke = 1
type_code interested = 2
type_code not_interested = 3
type_code have = 4
type_code bitfield = 5
type_code request = 6
type_code piece = 7
type_code cancel = 8
type_code port = 9
type_code keep_alive = 10
type_code extended = 20
type_code (unnamed n) = n

-- `static_cast<PeerMessageType>` of a byte.
unfoldable pub type_of : ℕ → PeerMessageType
type_of n =
    if n == 0
    then choke
    else if n == 1
    then unchoke
    else if n == 2
    then interested
    else if n == 3
    then not_interested
    else if n == 4
    then have
    else if n == 5
    then bitfield
    else if n == 6
    then request
    else if n == 7
    then piece
    else if n == 8
    then cancel
    else if n == 9
    then port
    else if n == 10
    then keep_alive
    else if n == 20
    then extended
    else unnamed n

-- `ntohl` of the four bytes at `i`.
unfoldable pub read_be32 : Bytes → ℕ → ℕ
read_be32 xs i =
    get_or xs i 0 * 2 ^ 24
    + get_or xs (i + 1) 0 * 2 ^ 16
    + get_or xs (i + 2) 0 * 2 ^ 8
    + get_or xs (i + 3) 0

unfoldable pub create_message : PeerMessageType → Bytes → PeerMessage
create_message t payload = record { type = t; payload = payload }

unfoldable pub serialize_message : PeerMessage → Bytes
serialize_message m = be32 ((1 + length m.payload) % u32_mod) ++ (type_code m.type ∷ m.payload)

-- `send` of `xs`: how many bytes the kernel took, or its failure.
unfoldable pub send : Socket → Bytes → Socket × Answer
send s xs = elim s.answers [
  | [] ↦ (s, broken)
  | accepts n ∷ rest ↦ (
    record s { outgoing = s.outgoing ++ take (min n (length xs)) xs; answers = rest },
    accepts (min n (length xs)),
  )
  | a ∷ rest ↦ (record s { answers = rest }, a)
]

-- The loop of `send_message`, with fuel for each byte: whether everything was sent.
unfoldable pub send_loop : ℕ → Socket → Bytes → Socket × Bool
send_loop fuel s [] = (s, true)
send_loop zero s (x ∷ xs) = (s, false)
send_loop (suc fuel) s (x ∷ xs) =
    let (s', answer) = send s (x ∷ xs) in
    elim answer [
      | accepts zero ↦ (s', false)
      | accepts (suc n) ↦ send_loop fuel s' (drop (suc n) (x ∷ xs))
      | would_block ↦ (s', false)
      | broken ↦ (s', false)
    ]

unfoldable pub send_message : PeerConnection → PeerMessage → PeerConnection
send_message p m = if not p.connected then p else elim p.socket [
  | none ↦ record p { connected = false }
  | some s ↦
      let r = send_loop (length (serialize_message m)) s (serialize_message m) in
      record p { socket = some r.0; connected = r.1 }
]

-- `recv` of `n` bytes with MSG_WAITALL: fewer where the peer closes first.
unfoldable pub recv_all : Socket → ℕ → Bytes × Socket
recv_all s n = (take n s.incoming, record s { incoming = drop n s.incoming })

-- The message behind the length of it.
unfoldable pub receive_payload : PeerConnection → Socket → ℕ → PeerConnection × Option PeerMessage
receive_payload p s size =
    let r = recv_all s size in
    let p' = record p { socket = some r.1 } in
    if not (length r.0 == size) then (p', none) else elim r.0 [
      | [] ↦ (p', none)
      | t ∷ payload ↦ (p', some (record { type = type_of t; payload = payload }))
    ]

abbrev pub message_limit : ℕ
message_limit = 1024 * 1024

-- What follows once the four bytes of the length have come.
unfoldable pub receive_sized : PeerConnection → Socket → ℕ → PeerConnection × Option PeerMessage
receive_sized p s size =
    if size == 0
    then (record p { socket = some s }, some (record { type = keep_alive; payload = [] }))
    else if ltb message_limit size
    then (record p { socket = some s; connected = false }, none)
    else receive_payload p s size

unfoldable pub receive_message : PeerConnection → PeerConnection × Option PeerMessage
receive_message p = if not p.connected then (p, none) else elim p.socket [
  | none ↦ (p, none)
  | some s ↦
      let r = recv_all s 4 in
      if not (length r.0 == 4)
      then (record p { socket = some r.1 }, none)
      else receive_sized p r.1 (read_be32 r.0 0)
]
