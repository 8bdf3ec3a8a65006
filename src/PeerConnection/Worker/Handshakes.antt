-- ===== src/PeerConnection/Worker/Handshakes.antt =====
-- The answer to a handshake, whole and in part.
use pixel_scrape.Base.{
  ℕ, ◌-◌, ◌<◌, ◌≡◌, refl, sym, ap, ◌∙◌, Bool, true, false, none, some, [], ◌∷◌, ◌++◌, if◌then◌else◌,
  length, length-append, length-take, take, is_empty, take-length_append, take-of_le, arith,
}
use pixel_scrape.Base.Bytes.{Bytes, equal}
use pixel_scrape.PeerConnection.{Socket, PeerConnection}
use pixel_scrape.PeerConnection.Handshake.{
  handshake, is_valid, finish_handshake, forget_handshake, send_welcome, arrives, receive_arrival,
  receive_handshake_nonblocking, start,
}
use pixel_scrape.PeerConnection.Handshake.Fragments.{
  midway, receive_part-more, receive_part-last, prepare_buffer-first, receive_on,
}
use pixel_scrape.PeerConnection.Worker.{
  handshaking, ConnectionRequest, Events, Turned, stays, drops, joins, disconnect, admit,
  continue_handshake, turn_open, turn,
}

-- A peer whose hash and id have their sizes.
abbrev pub IsNamed : PeerConnection → Type 0
IsNamed q = (length q.info_hash ≡ 20) × (length q.peer_id ≡ 20)

length-handshake : (q : PeerConnection) → IsNamed q → length (handshake q) ≡ 68
unfolding handshake
length-handshake q h = omega (arith, h.0, h.1, length-append q.info_hash q.peer_id)

-- The checks of a handshake compare the torrents.
is_valid-handshake :
    (p q : PeerConnection) → IsNamed q → is_valid p (handshake q) ≡ equal q.info_hash p.info_hash
unfolding is_valid handshake equal
is_valid-handshake p q h =
    let front : take 20 (q.info_hash ++ q.peer_id) ≡ q.info_hash =
      ap (λ n. take n (q.info_hash ++ q.peer_id)) (sym h.0)
      ∙ take-length_append q.info_hash q.peer_id in
    ap (λ xs. equal xs p.info_hash) front

not_empty : (xs : Bytes) → 0 < length xs → is_empty xs ≡ false
not_empty [] h = absurd (omega arith)
not_empty (x ∷ xs) h = refl

-- The first call of `recv` for a handshake.
module _ (p : PeerConnection) (s : Socket) (open_socket : p.socket ≡ some s) where
  receive-first :
      (xs : Bytes)
      → p.handshake_buffer ≡ []
      → receive_handshake_nonblocking p (arrives xs) ≡ receive_arrival (midway p []) (arrives xs)
  receive-first xs fresh =
      receive_on p s (arrives xs) open_socket
      ∙ ap (λ q. receive_arrival q (arrives xs)) (prepare_buffer-first p fresh)

  receive-whole :
      (xs more : Bytes)
      → length xs ≡ 68
      → receive_arrival (midway p []) (arrives (xs ++ more)) ≡ finish_handshake p xs
  unfolding receive_arrival
  receive-whole xs more e =
      let size : 68 - 0 ≡ length xs = omega (arith, e) in
      let part : take (68 - 0) (xs ++ more) ≡ xs =
        ap (λ n. take n (xs ++ more)) size ∙ take-length_append xs more in
      let full : is_empty xs ≡ false = not_empty xs (omega (arith, e)) in
      rw (part, full) (receive_part-last p [] xs e)

  -- A part is kept, but the answer is that the handshake is not done.
  receive-short :
      (xs : Bytes)
      → length xs < 68
      → ((receive_arrival (midway p []) (arrives xs)).1 ≡ false)
        × (disconnect (receive_arrival (midway p []) (arrives xs)).0 ≡ disconnect p)
  unfolding receive_arrival disconnect
  receive-short [] h = (refl, refl)
  receive-short (x ∷ xs) h =
      let whole : take 68 (x ∷ xs) ≡ x ∷ xs = take-of_le 68 (x ∷ xs) (omega (arith, h)) in
      let result : receive_arrival (midway p []) (arrives (x ∷ xs)) ≡ (midway p (x ∷ xs), false) =
        rw whole (receive_part-more p [] (x ∷ xs) h) in
      (
        ap (λ (r : PeerConnection × Bool). r.1) result,
        ap (λ (r : PeerConnection × Bool). disconnect r.0) result,
      )

-- A turn in which bytes have come for a connection that waits for its handshake.
abbrev pub answered_by : Bytes → Bool → Events
answered_by xs known = record {
  writable = false;
  readable = true;
  connects = true;
  arrival = arrives xs;
  known = known;
}

abbrev pub waiting : PeerConnection → ConnectionRequest
waiting p = record { state = handshaking; peer_connection = p }

-- What becomes of the request with a result of the reception.
abbrev outcome : Bool → PeerConnection × Bool → Turned
outcome known r = if r.1 then admit r.0 known else drops (disconnect r.0)

turn-waiting :
    (p : PeerConnection) (s : Socket) (xs : Bytes) (known : Bool)
    → p.socket ≡ some s
    → p.handshake_buffer ≡ []
    → turn (waiting p) (answered_by xs known)
      ≡ outcome known (receive_arrival (midway p []) (arrives xs))
unfolding turn turn_open continue_handshake
turn-waiting p s xs known o fresh =
    let events = answered_by xs known in
    ap (λ o. elim o [ none ↦ stays (waiting p) | some s ↦ turn_open (waiting p) events ]) o
    ∙ ap (outcome known) (receive-first p s o xs fresh)

finish_handshake-named :
    (p q : PeerConnection) (known : Bool)
    → IsNamed q
    → outcome known (finish_handshake p (handshake q)) ≡ (
        if equal q.info_hash p.info_hash
        then admit (send_welcome (forget_handshake p)) known
        else drops (disconnect p))
unfolding finish_handshake disconnect
finish_handshake-named p q known h =
    ap
      (λ (b : Bool).
        outcome known
          (if b then (send_welcome (forget_handshake p), true) else (forget_handshake p, false)))
      (is_valid-handshake p q h)
    ∙ by_torrent (equal q.info_hash p.info_hash)
  where
    by_torrent :
        (b : Bool)
        → outcome known
            (if b then (send_welcome (forget_handshake p), true) else (forget_handshake p, false))
          ≡ (if b then admit (send_welcome (forget_handshake p)) known else drops (disconnect p))
    by_torrent true = refl
    by_torrent false = refl

-- A connection that has sent its handshake and has received nothing yet, on an open socket. If the
-- handshake of a peer comes whole in one turn, the connection joins the peers, started and welcomed,
-- exactly if the torrent is the same and still there, and is closed otherwise. If only a part of it
-- comes, fewer than its 68 bytes, the connection is closed, whatever else would come.
pub turn-handshake :
    (p q : PeerConnection) (s : Socket) (more : Bytes) (n : ℕ) (known : Bool)
    → p.socket ≡ some s
    → p.handshake_buffer ≡ []
    → IsNamed q
    → n < 68
    → (turn (waiting p) (answered_by (handshake q ++ more) known) ≡ (
        if equal q.info_hash p.info_hash
        then if known
          then joins (start (send_welcome (forget_handshake p)))
          else drops (disconnect (send_welcome (forget_handshake p)))
        else drops (disconnect p)))
      × (turn (waiting p) (answered_by (take n (handshake q)) known) ≡ drops (disconnect p))
unfolding admit
turn-handshake p q s more n known o fresh named few =
    let short : length (take n (handshake q)) < 68 =
      omega (arith, length-take n (handshake q), few) in
    let (unfinished, closed) = receive-short p s o (take n (handshake q)) short in
    let r = receive_arrival (midway p []) (arrives (take n (handshake q))) in
    (
      turn-waiting p s (handshake q ++ more) known o fresh
          ∙ ap (outcome known) (receive-whole p s o (handshake q) more (length-handshake q named))
          ∙ finish_handshake-named p q known named,
      turn-waiting p s (take n (handshake q)) known o fresh
          ∙ ap (λ (b : Bool). if b then admit r.0 known else drops (disconnect r.0)) unfinished
          ∙ ap drops closed,
    )
