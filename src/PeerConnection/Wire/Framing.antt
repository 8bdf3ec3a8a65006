-- ===== src/PeerConnection/Wire/Framing.antt =====
-- A message that was serialized is the message that is received, and what follows it stays.
use pixel_scrape.Base.{
  ℕ, suc, ◌+◌, ◌%◌, ◌<◌, ◌≡◌, refl, ap, ◌∙◌, true, false, some, [], ◌∷◌, ◌++◌, ◌==◌, length, take,
  drop, arith, append_assoc, take-length_append, drop-length_append, le→ltb,
}
use pixel_scrape.Base.Bytes.{Bytes, u32_mod, be32}
use pixel_scrape.PeerConnection.{
  PeerMessageType, choke, unchoke, interested, not_interested, have, bitfield, request, piece,
  cancel, port, keep_alive, extended, unnamed, PeerMessage, Socket, PeerConnection,
}
use pixel_scrape.PeerConnection.Wire.{
  type_code, type_of, read_be32, serialize_message, recv_all, receive_payload, message_limit,
  receive_sized, receive_message,
}

pub read_be32-be32 : (n : ℕ) (xs : Bytes) → n < u32_mod → read_be32 (be32 n ++ xs) 0 ≡ n
unfolding read_be32 be32
read_be32-be32 n xs h = omega arith

-- The types that the enumeration names.
abbrev pub IsNamed : PeerMessageType → Type 0
IsNamed (unnamed _) = ⊥
IsNamed _ = Unit

pub type_of-type_code : (t : PeerMessageType) → IsNamed t → type_of (type_code t) ≡ t
unfolding type_of type_code
type_of-type_code choke h = refl
type_of-type_code unchoke h = refl
type_of-type_code interested h = refl
type_of-type_code not_interested h = refl
type_of-type_code have h = refl
type_of-type_code bitfield h = refl
type_of-type_code request h = refl
type_of-type_code piece h = refl
type_of-type_code cancel h = refl
type_of-type_code port h = refl
type_of-type_code keep_alive h = refl
type_of-type_code extended h = refl
type_of-type_code (unnamed n) h = absurd h

receive_payload-serialized :
    (p : PeerConnection) (s : Socket) (m : PeerMessage) (rest : Bytes)
    → IsNamed m.type
    → s.incoming ≡ type_code m.type ∷ (m.payload ++ rest)
    → receive_payload p s (suc (length m.payload))
      ≡ (record p { socket = some (record s { incoming = rest }) }, some m)
unfolding receive_payload recv_all
receive_payload-serialized p s m rest named e =
    let n = length m.payload in
    let size : (suc n == suc n) ≡ true = ground arith in
    let head : take (suc n) s.incoming ≡ type_code m.type ∷ m.payload =
      ap (take (suc n)) e ∙ ap (◌∷◌ (type_code m.type)) (take-length_append m.payload rest) in
    let tail : drop (suc n) s.incoming ≡ rest =
      ap (drop (suc n)) e ∙ drop-length_append m.payload rest in
    rw (head, tail, size, type_of-type_code m.type named) refl

receive_sized-serialized :
    (p : PeerConnection) (s : Socket) (m : PeerMessage) (rest : Bytes)
    → IsNamed m.type
    → length m.payload < message_limit
    → s.incoming ≡ type_code m.type ∷ (m.payload ++ rest)
    → receive_sized p s (suc (length m.payload))
      ≡ (record p { socket = some (record s { incoming = rest }) }, some m)
unfolding receive_sized
receive_sized-serialized p s m rest named small e =
    let nonzero : (suc (length m.payload) == 0) ≡ false = ground arith in
    rw (nonzero, le→ltb message_limit (suc (length m.payload)) (omega arith))
      (receive_payload-serialized p s m rest named e)

-- The connection with a socket on which `xs` is still to come.
abbrev pub awaiting : PeerConnection → Socket → Bytes → PeerConnection
awaiting p s xs = record p { connected = true; socket = some (record s { incoming = xs }) }

-- The four bytes of the length are taken first.
receive_message-sized :
    (p : PeerConnection) (s : Socket) (n : ℕ) (body : Bytes)
    → n < u32_mod
    → receive_message (awaiting p s (be32 n ++ body))
      ≡ receive_sized (awaiting p s (be32 n ++ body)) (record s { incoming = body }) n
unfolding receive_message recv_all be32
receive_message-sized p s n body h =
    ap (receive_sized (awaiting p s (be32 n ++ body)) (record s { incoming = body }))
      (read_be32-be32 n [] h)

-- A connected peer receives the message that the other side serialized, of a type that the
-- enumeration names and with a payload below the limit of 1 MiB, and the bytes behind it are left
-- for the next call.
pub receive_message-serialize_message :
    (p : PeerConnection) (s : Socket) (m : PeerMessage) (rest : Bytes)
    → IsNamed m.type
    → length m.payload < message_limit
    → receive_message (awaiting p s (serialize_message m ++ rest)) ≡ (awaiting p s rest, some m)
unfolding serialize_message
receive_message-serialize_message p s m rest named small =
    let size : (1 + length m.payload) % u32_mod ≡ suc (length m.payload) = omega arith in
    let body = type_code m.type ∷ (m.payload ++ rest) in
    let framed : serialize_message m ++ rest ≡ be32 (suc (length m.payload)) ++ body =
      append_assoc (be32 ((1 + length m.payload) % u32_mod)) (type_code m.type ∷ m.payload) rest
      ∙ ap (λ n. be32 n ++ body) size in
    ap (λ xs. receive_message (awaiting p s xs)) framed
    ∙ receive_message-sized p s (suc (length m.payload)) body (omega arith)
    ∙ receive_sized-serialized (awaiting p s (be32 (suc (length m.payload)) ++ body))
        (record s { incoming = body }) m rest named small refl
