-- ===== src/WebSocket.antt =====
-- src/api/websocket_server.cpp: the frames of a `WebSocketConnection`, and the key that accepts an
-- upgrade.
pub mod Masking
pub mod Frames
mod Examples
use pixel_scrape.Base.{
  ℕ, zero, suc, ◌+◌, ◌-◌, ◌*◌, ◌/◌, ◌%◌, ◌^◌, min, bit_xor, Bool, true, false, Option, none, some,
  List, [], ◌∷◌, ◌++◌, leb, ◌==◌, if◌then◌else◌, length, get_or, take, drop, foldl,
}
use pixel_scrape.Base.Bytes.{Bytes, codes}
use pixel_scrape.Sha1.{hash}
use pixel_scrape.StateManager.{base64_encode}

-- The opcode is four bits wide.
pub record WebSocketFrame : Type 0 where
  pub fin : Bool
  pub opcode : ℕ
  pub payload : Bytes

-- `payload_size >> (i * 8)` for `i` from 7 on down.
unfoldable pub be64 : ℕ → Bytes
be64 n =
    (n / 2 ^ 56 % 256)
    ∷ (n / 2 ^ 48 % 256)
    ∷ (n / 2 ^ 40 % 256)
    ∷ (n / 2 ^ 32 % 256)
    ∷ (n / 2 ^ 24 % 256)
    ∷ (n / 2 ^ 16 % 256)
    ∷ (n / 2 ^ 8 % 256)
    ∷ (n % 256)
    ∷ []

-- The second byte, and the bytes of a longer length.
unfoldable pub length_code : ℕ → ℕ
length_code size = if leb size 125 then size else if leb size 65535 then 126 else 127

unfoldable pub length_bytes : ℕ → Bytes
unfolding be64
length_bytes size =
    if leb size 125
    then []
    else if leb size 65535
    then (size / 256 % 256) ∷ (size % 256) ∷ []
    else be64 size

unfoldable pub first_byte : WebSocketFrame → ℕ
first_byte frame = (if frame.fin then 128 else 0) + frame.opcode

-- The bytes that `send_frame` gives to the socket.
unfoldable pub frame_bytes : WebSocketFrame → Bytes
frame_bytes frame =
    let size = length frame.payload in
    first_byte frame ∷ length_code size ∷ (length_bytes size ++ frame.payload)

-- The stream of bytes to come, and for each call of `recv` how many it gives at most; behind the
-- end of that list a call gives all that it is asked for, as far as it is there.
pub record Socket : Type 0 where
  pub incoming : Bytes
  pub limits : List ℕ

-- A call of `recv` for `n` bytes that is taken for a failure if it gives fewer.
unfoldable pub recv_exact : ℕ → Socket → Option (Bytes × Socket)
recv_exact n s =
    let xs = take (min n (get_or s.limits 0 n)) s.incoming in
    if length xs == n
    then some (xs, record { incoming = drop n s.incoming; limits = drop 1 s.limits })
    else none

-- The value of bytes in network order.
unfoldable pub big_endian : Bytes → ℕ
big_endian xs = foldl (λ n b. n * 256 + b) 0 xs

unfoldable pub recv_number : ℕ → Socket → Option (ℕ × Socket)
unfolding recv_exact big_endian
recv_number n s = elim (recv_exact n s) [
  | none ↦ none
  | some (xs, rest) ↦ some (big_endian xs, rest)
]

unfoldable pub recv_length : ℕ → Socket → Option (ℕ × Socket)
unfolding recv_number
recv_length code s =
    if code == 126 then recv_number 2 s else if code == 127 then recv_number 8 s else some (code, s)

unfoldable pub recv_key : Bool → Socket → Option (Bytes × Socket)
recv_key true s = recv_exact 4 s
recv_key false s = some ([], s)

-- `frame.payload[i] ^= masking_key[i % 4]` from `i` on.
unfoldable pub unmask : Bytes → ℕ → Bytes → Bytes
unmask key i [] = []
unmask key i (x ∷ xs) = bit_xor x (get_or key (i % 4) 0) ∷ unmask key (suc i) xs

-- How `receive_frame` ends: with the connection closed, with `std::length_error` out of the
-- `resize` of the payload, or with a frame. A lack of memory is left out.
pub data Receiving : Type 0 where
  closes : Receiving
  throws : Receiving
  gets : WebSocketFrame → Socket → Receiving

unfoldable pub recv_payload : Bool → ℕ → Bool → ℕ → Bytes → Socket → Receiving
recv_payload fin opcode masked size key s =
    if leb (2 ^ 63) size then throws else elim (recv_exact size s) [
      | none ↦ closes
      | some (xs, rest) ↦
          gets
            (record {
              fin = fin;
              opcode = opcode;
              payload = if masked then unmask key 0 xs else xs;
            })
            rest
    ]

-- From the length on.
unfoldable pub recv_rest : ℕ → ℕ → Socket → Receiving
recv_rest first second s =
    let masked = leb 128 second in
    elim (recv_length (second % 128) s) [
      | none ↦ closes
      | some (size, after_length) ↦ elim (recv_key masked after_length) [
        | none ↦ closes
        | some (key, after_key) ↦
            recv_payload (leb 128 first) (first % 16) masked size key after_key
      ]
    ]

-- `receive_frame` of a connection that is connected.
unfoldable pub receive_frame : Socket → Receiving
receive_frame s = elim (recv_number 1 s) [
  | none ↦ closes
  | some (first, after_first) ↦ elim (recv_number 1 after_first) [
    | none ↦ closes
    | some (second, after_second) ↦ recv_rest first second after_second
  ]
]

-- `SHA1`, whose object holds `junk` in its buffer.
unfoldable pub generate_accept_key : Bytes → Bytes → Bytes
generate_accept_key junk key =
    base64_encode (hash junk (key ++ codes "258EAFA5-E914-47DA-95CA-C5AB0DC85B11"))
