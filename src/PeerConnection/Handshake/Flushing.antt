-- ===== src/PeerConnection/Handshake/Flushing.antt =====
-- The handshake goes out whole and in order, over as many calls as the kernel needs.
use pixel_scrape.Base.{
  ℕ, zero, suc, ◌≡◌, refl, sym, ap, subst, ◌∙◌, inl, inr, min, Bool, true, false, none, some, List,
  [], ◌∷◌, ◌++◌, ltb, if◌then◌else◌, length, take, drop, is_empty, arith, Bool-cases, Option-cases,
  append_assoc, take-append-drop, drop-of_le,
}
use pixel_scrape.Base.Bytes.{Bytes}
use pixel_scrape.PeerConnection.{
  unchoke, bitfield, PeerMessage, Answer, accepts, would_block, broken, Socket, PeerConnection,
}
use pixel_scrape.PeerConnection.Bitfield.{pack_bits, no_bits, pack}
use pixel_scrape.PeerConnection.Wire.{create_message, send, send_message}
use pixel_scrape.PeerConnection.Handshake.{
  handshake, keep_unsent, handshake_on, send_handshake, forget_handshake, flush_on,
  flush_write_buffer, send_welcome, is_valid, finish_handshake,
}

-- What has gone out and what is kept for later are `xs` together, unless the socket is closed.
abbrev pub Carries : Bytes → PeerConnection → Type 0
Carries xs p = elim p.socket [ none ↦ Unit | some s ↦ s.outgoing ++ p.write_buffer ≡ xs ]

abbrev socket_of : Bytes → Bytes → List Answer → Socket
socket_of i o answers = record { incoming = i; outgoing = o; answers = answers }

split_lem : (o xs : Bytes) (n : ℕ) → (o ++ take n xs) ++ drop n xs ≡ o ++ xs
split_lem o xs n =
    append_assoc o (take n xs) (drop n xs) ∙ ap (λ ys. o ++ ys) (take-append-drop n xs)

flush_on-Carries :
    (xs : Bytes) (p : PeerConnection) (i o : Bytes) (answers : List Answer)
    → o ++ p.write_buffer ≡ xs
    → Carries xs (flush_on p (socket_of i o answers)).0
unfolding flush_on send
flush_on-Carries xs p i o [] e = tt
flush_on-Carries xs p i o (accepts n ∷ rest) e =
    split_lem o p.write_buffer (min n (length p.write_buffer)) ∙ e
flush_on-Carries xs p i o (would_block ∷ rest) e = e
flush_on-Carries xs p i o (broken ∷ rest) e = tt

flush_write_buffer-Carries :
    (xs : Bytes) (p : PeerConnection) → Carries xs p → Carries xs (flush_write_buffer p).0
unfolding flush_write_buffer
flush_write_buffer-Carries xs p h = elim (Option-cases p.socket) [
  | inl o ↦ rw o tt
  | inr (s, o) ↦
      let all : s.outgoing ++ p.write_buffer ≡ xs = rw o at h in
      elim (Bool-cases (is_empty p.write_buffer)) [
        | inl e ↦ rw (o, e) all
        | inr e ↦
            rw (o, e)
              (flush_on-Carries xs (record p { socket = some s }) s.incoming s.outgoing s.answers
                all)
      ]
]

-- The calls of `flush_write_buffer`.
unfoldable pub flushes : ℕ → PeerConnection → PeerConnection
flushes zero p = p
flushes (suc n) p = flushes n (flush_write_buffer p).0

flushes-Carries :
    (n : ℕ) (xs : Bytes) (p : PeerConnection) → Carries xs p → Carries xs (flushes n p)
unfolding flushes
flushes-Carries zero xs p h = h
flushes-Carries (suc n) xs p h =
    flushes-Carries n xs (flush_write_buffer p).0 (flush_write_buffer-Carries xs p h)

-- A handshake of which `n` bytes are out, and the others kept.
keep_unsent-Carries :
    (hs xs : Bytes) (p : PeerConnection) (s : Socket) (n : ℕ)
    → p.socket ≡ some s
    → p.write_buffer ≡ []
    → s.outgoing ++ drop n hs ≡ xs
    → Carries xs (keep_unsent p hs n)
unfolding keep_unsent
keep_unsent-Carries hs xs p s n o w e = elim (Bool-cases (ltb n (length hs))) [
  | inl l ↦ rw (l, o, w) e
  | inr l ↦
      let none_left : drop n hs ≡ [] = drop-of_le n hs (ground arith) in
      rw (l, o, w) (ap (λ ys. s.outgoing ++ ys) (sym none_left) ∙ e)
]

handshake_on-Carries :
    (p : PeerConnection) (i o : Bytes) (answers : List Answer)
    → p.write_buffer ≡ []
    → (handshake_on p (socket_of i o answers)).1 ≡ true
    → Carries (o ++ handshake p) (handshake_on p (socket_of i o answers)).0
unfolding handshake_on send
handshake_on-Carries p i o [] w t = cc
handshake_on-Carries p i o (accepts n ∷ rest) w t =
    let k = min n (length (handshake p)) in
    let s = socket_of i (o ++ take k (handshake p)) rest in
    keep_unsent-Carries (handshake p) (o ++ handshake p) (record p { socket = some s }) s k refl w
      (split_lem o (handshake p) k)
handshake_on-Carries p i o (would_block ∷ rest) w t =
    let s = socket_of i o rest in
    keep_unsent-Carries (handshake p) (o ++ handshake p) (record p { socket = some s }) s 0 refl w
      refl
handshake_on-Carries p i o (broken ∷ rest) w t = cc

send_handshake-open :
    (p : PeerConnection) (s : Socket) → p.socket ≡ some s → send_handshake p ≡ handshake_on p s
unfolding send_handshake
send_handshake-open p s o = rw o refl

-- A handshake sent on an open socket with nothing kept for later, where `send_handshake` returns true:
-- after any number of flushes, whatever the kernel answers, the socket is closed, or what has gone out
-- and what is kept are what had gone out before and the handshake, in this order.
pub flushes-send_handshake :
    (p : PeerConnection) (s : Socket) (n : ℕ)
    → p.socket ≡ some s
    → p.write_buffer ≡ []
    → (send_handshake p).1 ≡ true
    → Carries (s.outgoing ++ handshake p) (flushes n (send_handshake p).0)
flushes-send_handshake p s n o w t =
    let on : send_handshake p ≡ handshake_on p s = send_handshake-open p s o in
    let sent : (handshake_on p s).1 ≡ true = ap (λ r. r.1) (sym on) ∙ t in
    flushes-Carries n (s.outgoing ++ handshake p) (send_handshake p).0 (
      subst (λ r. Carries (s.outgoing ++ handshake p) r.0) (sym on)
        (handshake_on-Carries p s.incoming s.outgoing s.answers w sent))

send_message-unconnected :
    (p : PeerConnection) (m : PeerMessage) → p.connected ≡ false → send_message p m ≡ p
unfolding send_message
send_message-unconnected p m c = rw c refl

send_welcome-unconnected :
    (p : PeerConnection) → p.connected ≡ false → send_welcome p ≡ record p { am_choking = false }
unfolding send_welcome
send_welcome-unconnected p c =
    let p' = record p { am_choking = false } in
    let first : record (send_message p (create_message unchoke [])) { am_choking = false } ≡ p' =
      ap (λ (q : PeerConnection). record q { am_choking = false })
        (send_message-unconnected p (create_message unchoke []) c) in
    elim (Bool-cases (pack_bits no_bits p.bits).has_pieces) [
      | inl e ↦
          rw (e, first) (send_message-unconnected p' (create_message bitfield (pack p.bits)) c)
      | inr e ↦ rw (e, first) refl
    ]

-- A valid handshake that ends while the connection is not marked connected stops the choking, but no
-- message goes out: neither UNCHOKE nor BITFIELD, whatever pieces there are.
pub finish_handshake-silent :
    (p : PeerConnection) (xs : Bytes)
    → p.connected ≡ false
    → is_valid p xs ≡ true
    → finish_handshake p xs ≡ (record (forget_handshake p) { am_choking = false }, true)
unfolding finish_handshake
finish_handshake-silent p xs c v =
    ap
      (λ (b : Bool).
        if b then (send_welcome (forget_handshake p), true) else (forget_handshake p, false))
      v
    ∙ ap (λ (q : PeerConnection). (q, true)) (send_welcome-unconnected (forget_handshake p) c)
