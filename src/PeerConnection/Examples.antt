-- ===== src/PeerConnection/Examples.antt =====
-- Connections at concrete messages.
use pixel_scrape.Base.{
  ℕ, ◌≡◌, ◌&&◌, ◌||◌, ◌==◌, ltb, get_or, refl, Bool, if◌then◌else◌, true, false, none, some, List,
  [], ◌∷◌, ◌++◌, ◌≤◌, arith, length, take, replicate, All,
}
use pixel_scrape.Base.Bytes.{Bytes, codes, be32, equal}
use pixel_scrape.Torrent.{TorrentMetadata}
use pixel_scrape.PeerConnection.{
  unchoke, have, bitfield, request, accepts, Socket, PeerMessage, PeerConnection,
}
use pixel_scrape.PeerConnection.Bitfield.{pack, pack_bits, flush_bits}
use pixel_scrape.PeerConnection.Wire.{
  create_message, serialize_message, type_code, send, send_message, receive_message,
}
use pixel_scrape.PeerConnection.Wire.Framing.{awaiting, receive_message-serialize_message}
use pixel_scrape.PeerConnection.Wire.Sending.{outgoing_of, IsTaking, send_message-outgoing}
use pixel_scrape.PeerConnection.Handling.{send_have, send_request, handle_message}
use pixel_scrape.PeerConnection.Handling.Blocks.{
  MayServe, words, handle_message-transfer, handle_message-overflow,
}
use pixel_scrape.PeerConnection.Handling.Bits.{handle_message-bitfield, handle_message-have}
use pixel_scrape.PeerConnection.Handshake.{
  handshake, start, send_welcome, is_valid, finish_handshake, forget_handshake, send_handshake,
  handshake_on, keep_unsent,
}
use pixel_scrape.PeerConnection.Worker.{joins, drops, disconnect, turn}
use pixel_scrape.PeerConnection.Worker.Handshakes.{waiting, answered_by, turn-handshake}
use pixel_scrape.PeerConnection.Handshake.Flushing.{
  Carries, flushes, flushes-send_handshake, finish_handshake-silent,
}

abbrev torrent : TorrentMetadata
torrent = record {
  announce = [];
  announce_list = [];
  info_hash = replicate 20 1;
  name = codes "t";
  piece_length = 4;
  piece_hashes = replicate 9 (replicate 20 3);
  total_length = 36;
  files = [];
}

abbrev bits_of_nine : List Bool
bits_of_nine = true ∷ false ∷ true ∷ true ∷ false ∷ false ∷ false ∷ false ∷ true ∷ []

-- A kernel that takes five bytes at a time.
abbrev line : Socket
line = record { incoming = []; outgoing = []; answers = replicate 20 (accepts 5) }

abbrev peer : PeerConnection
peer = record {
  metadata = torrent;
  info_hash = replicate 20 1;
  peer_id = replicate 20 2;
  socket = some line;
  connected = true;
  am_choking = false;
  am_interested = false;
  peer_choking = true;
  peer_interested = false;
  bits = bits_of_nine;
  dht_port = none;
  has_callback = true;
  handshake_buffer = [];
  handshake_bytes_received = 0;
  write_buffer = [];
}

abbrev fresh : PeerConnection
fresh = record peer { connected = false }

-- The pieces that can be read hold four bytes.
abbrev store : ℕ → Bytes
store i = codes "abcd"

packed_nine : pack bits_of_nine ≡ 176 ∷ 128 ∷ []
unfolding pack pack_bits flush_bits
packed_nine = refl

have_frame :
    serialize_message (create_message have (be32 7)) ≡ 0 ∷ 0 ∷ 0 ∷ 5 ∷ 4 ∷ 0 ∷ 0 ∷ 0 ∷ 7 ∷ []
unfolding serialize_message create_message type_code be32
have_frame = refl

receive_message-serialize_message_example :
    receive_message (
      awaiting peer line
        (serialize_message (record { type = have; payload = codes "abcd" }) ++ codes "xy"))
    ≡ (awaiting peer line (codes "xy"), some (record { type = have; payload = codes "abcd" }))
receive_message-serialize_message_example =
    receive_message-serialize_message peer line (record { type = have; payload = codes "abcd" })
      (codes "xy") tt (omega arith)

send_message-outgoing_example :
    ((n : ℕ) × (outgoing_of (send_message peer (record { type = unchoke; payload = [] }))
        ≡ [] ++ take n (serialize_message (record { type = unchoke; payload = [] }))))
    × (((send_message peer (record { type = unchoke; payload = [] })).connected ≡ true
          → outgoing_of (send_message peer (record { type = unchoke; payload = [] }))
            ≡ [] ++ serialize_message (record { type = unchoke; payload = [] }))
        × (All IsTaking (replicate 20 (accepts 5))
            → length (serialize_message (record { type = unchoke; payload = [] })) ≤ 20
            → (send_message peer (record { type = unchoke; payload = [] })).connected ≡ true))
send_message-outgoing_example =
    send_message-outgoing peer line (record { type = unchoke; payload = [] }) refl refl

handle_message-bitfield_example :
    handle_message store (record peer { bits = [] }) (create_message bitfield (pack bits_of_nine))
    ≡ some (peer, none)
handle_message-bitfield_example =
    handle_message-bitfield store (record peer { bits = [] }) bits_of_nine refl

handle_message-have_example :
    (news : PeerMessage) × (bits : List Bool) × (send_have peer 1 ≡ send_message peer news)
    × (handle_message store peer news ≡ some (record peer { bits = bits }, none))
    × (length bits ≡ length bits_of_nine)
    × ((k : ℕ)
        → get_or bits k false
          ≡ (get_or bits_of_nine k false || ((k == 1) && ltb 1 (length bits_of_nine))))
handle_message-have_example = handle_message-have store peer peer 1 (omega arith)

serving : MayServe store peer 2
serving = record { unchoked = refl; present = omega arith; marked = refl; readable = refl }

handle_message-transfer_example :
    (ask : PeerMessage) × (answer : PeerMessage) × (send_request peer 2 1 3 ≡ send_message peer ask)
    × (handle_message store peer ask ≡ some (send_message peer answer, none))
    × (handle_message store peer answer
        ≡ some (peer, some (record { index = 2; begin = 1; payload = codes "bcd" })))
handle_message-transfer_example =
    handle_message-transfer store peer peer 2 1 3 (omega arith) (omega arith) (omega arith)
      (omega arith) serving refl (omega arith)

-- Two bytes from the last offset that 32 bits can hold.
handle_message-overflow_example :
    handle_message store peer (create_message request (words 2 4294967295 (be32 2))) ≡ none
handle_message-overflow_example =
    handle_message-overflow store peer 2 4294967295 2 (omega arith) (omega arith) (omega arith)
      serving (omega arith) (omega arith)

turn-handshake_example :
    (turn (waiting fresh) (answered_by (handshake fresh ++ 7 ∷ []) true) ≡ (
      if equal (replicate 20 1) (replicate 20 1)
      then if true
        then joins (start (send_welcome (forget_handshake fresh)))
        else drops (disconnect (send_welcome (forget_handshake fresh)))
      else drops (disconnect fresh)))
    × (turn (waiting fresh) (answered_by (take 30 (handshake fresh)) true)
        ≡ drops (disconnect fresh))
turn-handshake_example =
    turn-handshake fresh fresh line (7 ∷ []) 30 true refl refl (refl, refl) (omega arith)

handshake_starts : (send_handshake fresh).1 ≡ true
unfolding handshake send_handshake handshake_on keep_unsent send
handshake_starts = refl

handshake_valid : is_valid fresh (handshake fresh) ≡ true
unfolding handshake is_valid equal
handshake_valid = refl

flushes-send_handshake_example :
    Carries ([] ++ handshake fresh) (flushes 3 (send_handshake fresh).0)
flushes-send_handshake_example = flushes-send_handshake fresh line 3 refl refl handshake_starts

finish_handshake-silent_example :
    finish_handshake fresh (handshake fresh)
    ≡ (record (forget_handshake fresh) { am_choking = false }, true)
finish_handshake-silent_example =
    finish_handshake-silent fresh (handshake fresh) refl handshake_valid
