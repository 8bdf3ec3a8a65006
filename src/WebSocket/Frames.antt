-- ===== src/WebSocket/Frames.antt =====
-- Frames written and read, by `send_frame` and by a client, which masks what it sends.
use pixel_scrape.Base.{
  ℕ, ◌+◌, ◌*◌, ◌/◌, ◌%◌, ◌^◌, ◌<◌, ◌≡◌, refl, sym, ap, ap₂, ◌∙◌, inl, inr, min, Bool, true, false,
  Option, none, some, [], ◌∷◌, ◌++◌, arith, append_assoc, leb, ◌==◌, if◌then◌else◌, Bool-cases,
  length, take-length_append, drop-length_append,
}
use pixel_scrape.Base.Bytes.{Bytes}
use pixel_scrape.WebSocket.Masking.{masked_by, unmask-masked_by}
use pixel_scrape.WebSocket.{
  WebSocketFrame, be64, length_code, length_bytes, first_byte, frame_bytes, Socket, recv_exact,
  big_endian, recv_number, recv_length, recv_key, unmask, Receiving, closes, gets, recv_payload,
  recv_rest, receive_frame,
}

-- A socket whose calls of `recv` give all that they are asked for.
abbrev pub ready : Bytes → Socket
ready xs = record { incoming = xs; limits = [] }

recv_exact-append :
    (xs ys : Bytes) → recv_exact (length xs) (ready (xs ++ ys)) ≡ some (xs, ready ys)
unfolding recv_exact
recv_exact-append xs ys =
    let all_of_them : min (length xs) (length xs) ≡ length xs = omega arith in
    let enough : (length xs == length xs) ≡ true = ground arith in
    rw (all_of_them, take-length_append xs ys, drop-length_append xs ys, enough) refl

recv_exact-of_length :
    (n : ℕ) (xs ys : Bytes) → length xs ≡ n → recv_exact n (ready (xs ++ ys)) ≡ some (xs, ready ys)
recv_exact-of_length n xs ys h =
    ap (λ k. recv_exact k (ready (xs ++ ys))) (sym h) ∙ recv_exact-append xs ys

recv_number-byte : (b : ℕ) (ys : Bytes) → recv_number 1 (ready (b ∷ ys)) ≡ some (b, ready ys)
unfolding recv_number big_endian
recv_number-byte b ys =
    ap (λ o. elim o [ none ↦ none | some (xs, rest) ↦ some (big_endian xs, rest) ])
      (recv_exact-append (b ∷ []) ys)
    ∙ ap (λ k. some (k, ready ys)) (omega arith)

recv_number-two :
    (n : ℕ) (ys : Bytes)
    → n < 65536
    → recv_number 2 (ready ((n / 256 % 256) ∷ (n % 256) ∷ ys)) ≡ some (n, ready ys)
unfolding recv_number big_endian
recv_number-two n ys h =
    let value : (0 + n / 256 % 256) * 256 + n % 256 ≡ n = omega arith in
    ap (λ o. elim o [ none ↦ none | some (xs, rest) ↦ some (big_endian xs, rest) ])
      (recv_exact-append ((n / 256 % 256) ∷ (n % 256) ∷ []) ys)
    ∙ ap (λ k. some (k, ready ys)) value

recv_number-be64 :
    (n : ℕ) (ys : Bytes) → n < 2 ^ 63 → recv_number 8 (ready (be64 n ++ ys)) ≡ some (n, ready ys)
unfolding recv_number big_endian be64
recv_number-be64 n ys h =
    ap (λ o. elim o [ none ↦ none | some (xs, rest) ↦ some (big_endian xs, rest) ])
      (recv_exact-append (be64 n) ys)
    ∙ ap (λ k. some (k, ready ys)) (omega arith)

-- The length is read back, whichever form it has.
recv_length-length_bytes :
    (size : ℕ) (ys : Bytes)
    → size < 2 ^ 63
    → recv_length (length_code size) (ready (length_bytes size ++ ys)) ≡ some (size, ready ys)
unfolding recv_length length_code length_bytes
recv_length-length_bytes size ys h = elim (Bool-cases (leb size 125)) [
  | inl short ↦
      let no_two : (size == 126) ≡ false = ground (arith, short) in
      let no_eight : (size == 127) ≡ false = ground (arith, short) in
      rw (short, no_two, no_eight) refl
  | inr long ↦ elim (Bool-cases (leb size 65535)) [
    | inl two ↦ rw (long, two) (recv_number-two size ys (ground (arith, two)))
    | inr eight ↦ rw (long, eight) (recv_number-be64 size ys h)
  ]
]

length_code-small : (size : ℕ) → length_code size < 128
unfolding length_code
length_code-small size = ground arith

first_byte-fin :
    (frame : WebSocketFrame) → frame.opcode < 16 → leb 128 (first_byte frame) ≡ frame.fin
unfolding first_byte
first_byte-fin frame h = elim (Bool-cases frame.fin) [
  | inl e ↦ rw e (ground arith)
  | inr e ↦ rw e (ground (arith, h))
]

first_byte-opcode :
    (frame : WebSocketFrame) → frame.opcode < 16 → first_byte frame % 16 ≡ frame.opcode
unfolding first_byte
first_byte-opcode frame h = elim (Bool-cases frame.fin) [
  | inl e ↦ rw e (omega (arith, h))
  | inr e ↦ rw e (omega (arith, h))
]

-- RFC 6455: a client masks each frame with a key of four bytes, which stands before the payload.
unfoldable pub client_frame : Bytes → WebSocketFrame → Bytes
client_frame key frame =
    let size = length frame.payload in
    first_byte frame
    ∷ (128 + length_code size)
    ∷ (length_bytes size ++ (key ++ masked_by key frame.payload))

-- The outcome of the first bytes of a frame.
receive_frame-header :
    (first second : ℕ) (ys : Bytes)
    → receive_frame (ready (first ∷ second ∷ ys)) ≡ recv_rest first second (ready ys)
unfolding receive_frame
receive_frame-header first second ys =
    ap
      (λ o. elim o [
        | none ↦ closes
        | some (a, s) ↦ elim (recv_number 1 s) [ none ↦ closes | some (b, r) ↦ recv_rest a b r ]
      ])
      (recv_number-byte first (second ∷ ys))
    ∙ ap (λ o. elim o [ none ↦ closes | some (b, r) ↦ recv_rest first b r ])
        (recv_number-byte second ys)

recv_payload-sized :
    (fin masked : Bool) (opcode size : ℕ) (key xs rest : Bytes)
    → length xs ≡ size
    → size < 2 ^ 63
    → recv_payload fin opcode masked size key (ready (xs ++ rest))
      ≡ gets
          (record { fin = fin; opcode = opcode; payload = if masked then unmask key 0 xs else xs })
          (ready rest)
unfolding recv_payload
recv_payload-sized fin masked opcode size key xs rest sized small =
    let fits : leb (2 ^ 63) size ≡ false = ground (arith, small) in
    rw (fits, recv_exact-of_length size xs rest sized) refl

-- What is left to read behind the header: the length, the key and the payload.
abbrev recv_tail : WebSocketFrame → Bool → Option (ℕ × Socket) → Receiving
recv_tail frame masked o = elim o [
  | none ↦ closes
  | some (size, s) ↦ elim (recv_key masked s) [
    | none ↦ closes
    | some (key, r) ↦
        recv_payload (leb 128 (first_byte frame)) (first_byte frame % 16) masked size key r
  ]
]

receive_frame-tail :
    (frame : WebSocketFrame) (masked : Bool) (second size : ℕ) (ys : Bytes)
    → leb 128 second ≡ masked
    → second % 128 ≡ length_code size
    → size < 2 ^ 63
    → receive_frame (ready (first_byte frame ∷ second ∷ (length_bytes size ++ ys)))
      ≡ recv_tail frame masked (some (size, ready ys))
unfolding recv_rest
receive_frame-tail frame masked second size ys flag code small =
    receive_frame-header (first_byte frame) second (length_bytes size ++ ys)
    ∙ ap₂ (λ m c. recv_tail frame m (recv_length c (ready (length_bytes size ++ ys)))) flag code
    ∙ ap (recv_tail frame masked) (recv_length-length_bytes size ys small)

frame_again :
    (frame : WebSocketFrame) (payload : Bytes) (s : Socket)
    → frame.opcode < 16
    → payload ≡ frame.payload
    → gets
        (record {
          fin = leb 128 (first_byte frame);
          opcode = first_byte frame % 16;
          payload = payload;
        })
        s
      ≡ gets frame s
frame_again frame payload s h same = λ i.
    gets
      (record {
        fin = first_byte-fin frame h i;
        opcode = first_byte-opcode frame h i;
        payload = same i;
      })
      s

receive_frame-frame_bytes :
    (frame : WebSocketFrame) (rest : Bytes)
    → frame.opcode < 16
    → length frame.payload < 2 ^ 63
    → receive_frame (ready (frame_bytes frame ++ rest)) ≡ gets frame (ready rest)
unfolding frame_bytes recv_key
receive_frame-frame_bytes frame rest h small =
    let size = length frame.payload in
    ap (λ ys. receive_frame (ready (first_byte frame ∷ length_code size ∷ ys)))
      (append_assoc (length_bytes size) frame.payload rest)
    ∙ receive_frame-tail frame false (length_code size) size (frame.payload ++ rest)
        (ground (arith, length_code-small size)) (omega (arith, length_code-small size)) small
    ∙ recv_payload-sized (leb 128 (first_byte frame)) false (first_byte frame % 16) size []
        frame.payload rest refl small
    ∙ frame_again frame frame.payload (ready rest) h refl

receive_frame-client_frame :
    (key : Bytes) (frame : WebSocketFrame) (rest : Bytes)
    → length key ≡ 4
    → frame.opcode < 16
    → length frame.payload < 2 ^ 63
    → receive_frame (ready (client_frame key frame ++ rest)) ≡ gets frame (ready rest)
unfolding client_frame recv_key
receive_frame-client_frame key frame rest four h small =
    let size = length frame.payload in
    let masked_payload = masked_by key frame.payload in
    let laws = unmask-masked_by key frame.payload four in
    ap (λ ys. receive_frame (ready (first_byte frame ∷ (128 + length_code size) ∷ ys)))
      (append_assoc (length_bytes size) (key ++ masked_payload) rest
        ∙ ap (λ ys. length_bytes size ++ ys) (append_assoc key masked_payload rest))
    ∙ receive_frame-tail frame true (128 + length_code size) size (key ++ (masked_payload ++ rest))
        (ground (arith, length_code-small size)) (omega (arith, length_code-small size)) small
    ∙ ap
        (λ o. elim o [
          | none ↦ closes
          | some (k, r) ↦
              recv_payload (leb 128 (first_byte frame)) (first_byte frame % 16) true size k r
        ])
        (recv_exact-of_length 4 key (masked_payload ++ rest) four)
    ∙ recv_payload-sized (leb 128 (first_byte frame)) true (first_byte frame % 16) size key
        masked_payload rest laws.1 small
    ∙ frame_again frame (unmask key 0 masked_payload) (ready rest) h laws.0

-- A frame whose opcode has four bits, whose payload is shorter than 2^63 bytes and that arrives
-- whole is received as it was, with what follows it left in the socket: both as `send_frame` writes
-- it and as a client does, masked with any key of four bytes.
pub receive_frame-sent :
    (key : Bytes) (frame : WebSocketFrame) (rest : Bytes)
    → length key ≡ 4
    → frame.opcode < 16
    → length frame.payload < 2 ^ 63
    → (receive_frame (ready (frame_bytes frame ++ rest)) ≡ gets frame (ready rest))
      × (receive_frame (ready (client_frame key frame ++ rest)) ≡ gets frame (ready rest))
receive_frame-sent key frame rest four h small = (
  receive_frame-frame_bytes frame rest h small,
  receive_frame-client_frame key frame rest four h small,
)
