-- ===== src/WebSocket/Examples.antt =====
-- The examples of RFC 6455, and frames that do not arrive.
use pixel_scrape.Base.{◌≡◌, refl, true, [], ◌∷◌, ◌++◌, arith, replicate}
use pixel_scrape.Base.Bytes.{codes}
use pixel_scrape.Sha1.{hash, compress}
use pixel_scrape.StateManager.{base64_encode, base64_char, quad_0, quad_1, quad_2, quad_3}
use pixel_scrape.WebSocket.{
  WebSocketFrame, length_code, length_bytes, first_byte, frame_bytes, recv_exact, big_endian,
  recv_number, recv_length, recv_key, closes, throws, gets, recv_payload, recv_rest, receive_frame,
  generate_accept_key,
}
use pixel_scrape.WebSocket.Masking.{mask, masked_by}
use pixel_scrape.WebSocket.Frames.{ready, client_frame, receive_frame-sent}

abbrev hello : WebSocketFrame
hello = record { fin = true; opcode = 1; payload = codes "Hello" }

hello_text :
    client_frame (0x37 ∷ 0xfa ∷ 0x21 ∷ 0x3d ∷ []) hello
    ≡ 0x81 ∷ 0x85 ∷ 0x37 ∷ 0xfa ∷ 0x21 ∷ 0x3d ∷ 0x7f ∷ 0x9f ∷ 0x4d ∷ 0x51 ∷ 0x58 ∷ []
unfolding client_frame first_byte length_code length_bytes masked_by mask
hello_text = refl

receive_frame-sent_example :
    (receive_frame (ready (frame_bytes hello ++ 7 ∷ [])) ≡ gets hello (ready (7 ∷ [])))
    × (receive_frame (ready (client_frame (1 ∷ 2 ∷ 3 ∷ 4 ∷ []) hello ++ 7 ∷ []))
        ≡ gets hello (ready (7 ∷ [])))
receive_frame-sent_example =
    receive_frame-sent (1 ∷ 2 ∷ 3 ∷ 4 ∷ []) hello (7 ∷ []) refl (omega arith) (omega arith)

-- A payload that the socket gives in two parts closes the connection.
parted : receive_frame (record { incoming = frame_bytes hello; limits = 1 ∷ 1 ∷ 3 ∷ [] }) ≡ closes
unfolding receive_frame recv_rest recv_payload recv_key recv_length recv_number recv_exact
    big_endian frame_bytes first_byte length_code length_bytes
parted = refl

-- A length from 2^63 on is an exception.
too_long : receive_frame (ready (0x82 ∷ 127 ∷ 128 ∷ replicate 7 0)) ≡ throws
unfolding receive_frame recv_rest recv_payload recv_key recv_length recv_number recv_exact
    big_endian
too_long = refl

accepted :
    generate_accept_key (replicate 64 0) (codes "dGhlIHNhbXBsZSBub25jZQ==")
    ≡ codes "s3pPLMBiTxaQ9kYGzzhZRbK+xOo="
unfolding generate_accept_key base64_encode base64_char quad_0 quad_1 quad_2 quad_3 hash compress
accepted = refl
