-- ===== src/PeerConnection/Handling/Blocks.antt =====
-- A block of a piece, from the request of one peer to the callback of it.
use pixel_scrape.Base.{
  ℕ, ◌+◌, ◌%◌, ◌≤◌, ◌<◌, ◌≡◌, refl, ap, ◌∙◌, true, false, none, some, ◌++◌, leb, length, get_or,
  take, drop, is_empty, arith, le→leb, lt→ltb, length-append,
}
use pixel_scrape.Base.Bytes.{Bytes, u32_mod, be32}
use pixel_scrape.PeerConnection.{request, piece, PeerMessage, PeerConnection}
use pixel_scrape.PeerConnection.Wire.{read_be32, create_message, send_message}
use pixel_scrape.PeerConnection.Handling.{
  slice, answered, send_request, send_piece, take_block, serve_block, serve_request, handle_case,
  handle_message,
}

abbrev pub IsWord : ℕ → Type 0
IsWord n = n < u32_mod

-- Three words in a row.
abbrev pub words : ℕ → ℕ → Bytes → Bytes
words i b rest = be32 i ++ (be32 b ++ rest)

read_be32-first : (i b : ℕ) (rest : Bytes) → IsWord i → read_be32 (words i b rest) 0 ≡ i
unfolding read_be32 be32
read_be32-first i b rest h = omega arith

read_be32-second : (i b : ℕ) (rest : Bytes) → IsWord b → read_be32 (words i b rest) 4 ≡ b
unfolding read_be32 be32
read_be32-second i b rest h = omega arith

read_be32-third : (i b n : ℕ) → IsWord n → read_be32 (words i b (be32 n)) 8 ≡ n
unfolding read_be32 be32
read_be32-third i b n h = omega arith

words-size : (i b n : ℕ) → leb 12 (length (words i b (be32 n))) ≡ true
unfolding be32
words-size i b n = refl

words-rest : (i b : ℕ) (xs : Bytes) → leb 8 (length (words i b xs)) ≡ true
unfolding be32
words-rest i b xs =
    le→leb 8 (length (words i b xs))
      (omega (arith, length-append (be32 i) (be32 b ++ xs), length-append (be32 b) xs))

drop-words : (i b : ℕ) (xs : Bytes) → drop 8 (words i b xs) ≡ xs
unfolding be32
drop-words i b xs = refl

take_block-words :
    (p : PeerConnection) (i b : ℕ) (xs : Bytes)
    → IsWord i
    → IsWord b
    → p.has_callback ≡ true
    → take_block p (words i b xs) ≡ some (record { index = i; begin = b; payload = xs })
unfolding take_block
take_block-words p i b xs wi wb c =
    rw
      (
        words-rest i b xs,
        drop-words i b xs,
        read_be32-first i b xs wi,
        read_be32-second i b xs wb,
        c,
      )
      refl

-- The connection lets the peer load a piece that it has, and the piece can be read.
pub record MayServe (read_piece : ℕ → Bytes) (p : PeerConnection) (i : ℕ) : Type 0 where
  pub unchoked : p.am_choking ≡ false
  pub present : i < length p.bits
  pub marked : get_or p.bits i false ≡ true
  pub readable : is_empty (read_piece i) ≡ false

module _ (read_piece : ℕ → Bytes) where
  serve_request-serve_block :
      (p : PeerConnection) (i b n : ℕ)
      → IsWord i
      → IsWord b
      → IsWord n
      → MayServe read_piece p i
      → serve_request read_piece p (words i b (be32 n)) ≡ serve_block read_piece p i b n
  unfolding serve_request
  serve_request-serve_block p i b n wi wb wn m =
      rw
        (
          words-size i b n,
          read_be32-first i b (be32 n) wi,
          read_be32-second i b (be32 n) wb,
          read_be32-third i b n wn,
          m.unchoked,
          lt→ltb i (length p.bits) m.present,
          m.marked,
        )
        refl

  slice-in : (xs : Bytes) (b n : ℕ) → b + n ≤ length xs → slice xs b n ≡ some (take n (drop b xs))
  unfolding slice
  slice-in xs b n h = rw (le→leb (b + n) (length xs) h) refl

  serve_block-in :
      (p : PeerConnection) (i b n : ℕ)
      → is_empty (read_piece i) ≡ false
      → b + n ≤ length (read_piece i)
      → IsWord (b + n)
      → serve_block read_piece p i b n ≡ some (send_piece p i b (take n (drop b (read_piece i))))
  unfolding serve_block
  serve_block-in p i b n e h w =
      let sum : (b + n) % u32_mod ≡ b + n = omega arith in
      rw (e, sum, le→leb (b + n) (length (read_piece i)) h, slice-in (read_piece i) b n h) refl

  serve_block-out :
      (p : PeerConnection) (i b n : ℕ)
      → is_empty (read_piece i) ≡ false
      → (b + n) % u32_mod ≤ length (read_piece i)
      → length (read_piece i) < b + n
      → serve_block read_piece p i b n ≡ none
  unfolding serve_block slice
  serve_block-out p i b n e h o =
      let over : leb (b + n) (length (read_piece i)) ≡ false = ground arith in
      rw (e, le→leb ((b + n) % u32_mod) (length (read_piece i)) h, over) refl

  -- One connection asks for `n` bytes from `b` on of a piece that the other may serve, where the
  -- block ends in the piece and below 2 ^ 32. The message that send_request sends is handled by the
  -- other with a message that it sends, and that message, handled by a connection with a callback,
  -- is a call of the callback with the same piece, the same offset and the bytes of the piece there.
  pub handle_message-transfer :
      (p q : PeerConnection) (i b n : ℕ)
      → IsWord i
      → IsWord b
      → IsWord n
      → IsWord (b + n)
      → MayServe read_piece p i
      → q.has_callback ≡ true
      → b + n ≤ length (read_piece i)
      → (ask : PeerMessage) × (answer : PeerMessage) × (send_request q i b n ≡ send_message q ask)
        × (handle_message read_piece p ask ≡ some (send_message p answer, none))
        × (handle_message read_piece q answer
            ≡ some (
              q,
              some (record { index = i; begin = b; payload = take n (drop b (read_piece i)) }),
            ))
  unfolding handle_message handle_case create_message send_request send_piece
  handle_message-transfer p q i b n wi wb wn ws m c h =
      let xs = take n (drop b (read_piece i)) in
      (
        create_message request (words i b (be32 n)),
        create_message piece (words i b xs),
        refl,
        ap answered
            (serve_request-serve_block p i b n wi wb wn m ∙ serve_block-in p i b n m.readable h ws),
        ap (λ o. some (q, o)) (take_block-words q i b xs wi wb c),
      )

  -- A request whose offset and length add up to more than the length of the piece, but in 32 bits to
  -- no more than it, is not refused: the program reads outside of the piece.
  pub handle_message-overflow :
      (p : PeerConnection) (i b n : ℕ)
      → IsWord i
      → IsWord b
      → IsWord n
      → MayServe read_piece p i
      → (b + n) % u32_mod ≤ length (read_piece i)
      → length (read_piece i) < b + n
      → handle_message read_piece p (create_message request (words i b (be32 n))) ≡ none
  unfolding handle_message handle_case create_message
  handle_message-overflow p i b n wi wb wn m h o =
      ap answered
        (serve_request-serve_block p i b n wi wb wn m ∙ serve_block-out p i b n m.readable h o)
