-- ===== src/PeerConnection/Wire/Sending.antt =====
-- What goes out when a message is sent, whatever the kernel answers.
use pixel_scrape.Base.{
  ℕ, zero, suc, ◌+◌, ◌≤◌, ◌<◌, ◌≡◌, refl, sym, ap, ◌∙◌, min, Bool, true, false, none, some, List,
  [], ◌∷◌, ◌++◌, length, take, drop, arith, append_assoc, append-nil, take-append-drop, length-drop,
  All,
}
use pixel_scrape.Base.Bytes.{Bytes}
use pixel_scrape.PeerConnection.{
  PeerMessage, Answer, accepts, would_block, broken, Socket, PeerConnection,
}
use pixel_scrape.PeerConnection.Wire.{serialize_message, send, send_loop, send_message}

-- How much of `xs` a run of the loop has put on the socket.
record IsSent (s : Socket) (xs : Bytes) (r : Socket × Bool) : Type 0 where
  pub taken : ℕ
  pub goes_out : r.0.outgoing ≡ s.outgoing ++ take taken xs
  pub whole : r.1 ≡ true → take taken xs ≡ xs

take_nil : (n : ℕ) → take {A = ℕ} n [] ≡ []
take_nil zero = refl
take_nil (suc n) = refl

take-add : (m n : ℕ) (xs : Bytes) → take (m + n) xs ≡ take m xs ++ take n (drop m xs)
take-add zero n xs = ap (λ k. take k xs) (omega arith)
take-add (suc m) n [] = take_nil (suc m + n) ∙ sym (take_nil n)
take-add (suc m) n (x ∷ xs) =
    let e : suc m + n ≡ suc (m + n) = omega arith in
    ap (λ k. take k (x ∷ xs)) e ∙ ap (◌∷◌ x) (take-add m n xs)

-- Part of the bytes first, and then what the loop sends of the others.
IsSent-later :
    (s s' : Socket) (n : ℕ) (xs : Bytes) (r : Socket × Bool)
    → s'.outgoing ≡ s.outgoing ++ take n xs
    → IsSent s' (drop n xs) r
    → IsSent s xs r
IsSent-later s s' n xs r e h = record {
  taken = n + h.taken;
  goes_out =
      h.goes_out
      ∙ ap (λ ys. ys ++ take h.taken (drop n xs)) e
      ∙ append_assoc s.outgoing (take n xs) (take h.taken (drop n xs))
      ∙ ap (λ ys. s.outgoing ++ ys) (sym (take-add n h.taken xs));
  whole =
      λ w. take-add n h.taken xs ∙ ap (λ ys. take n xs ++ ys) (h.whole w) ∙ take-append-drop n xs;
}

abbrev socket_of : Bytes → Bytes → List Answer → Socket
socket_of i o answers = record { incoming = i; outgoing = o; answers = answers }

no-IsSent : (s s' : Socket) (xs : Bytes) → s'.outgoing ≡ s.outgoing → IsSent s xs (s', false)
no-IsSent s s' xs e = record {
  taken = 0;
  goes_out = e ∙ sym (append-nil s.outgoing);
  whole = λ w. cc;
}

send_loop-IsSent :
    (fuel : ℕ) (i o : Bytes) (answers : List Answer) (xs : Bytes)
    → IsSent (socket_of i o answers) xs (send_loop fuel (socket_of i o answers) xs)
unfolding send_loop send
send_loop-IsSent zero i o answers [] = record {
  taken = 0;
  goes_out = sym (append-nil o);
  whole = λ w. refl;
}
send_loop-IsSent (suc fuel) i o answers [] = record {
  taken = 0;
  goes_out = sym (append-nil o);
  whole = λ w. refl;
}
send_loop-IsSent zero i o answers (x ∷ xs) =
    no-IsSent (socket_of i o answers) (socket_of i o answers) (x ∷ xs) refl
send_loop-IsSent (suc fuel) i o [] (x ∷ xs) =
    no-IsSent (socket_of i o []) (socket_of i o []) (x ∷ xs) refl
send_loop-IsSent (suc fuel) i o (would_block ∷ rest) (x ∷ xs) =
    no-IsSent (socket_of i o (would_block ∷ rest)) (socket_of i o rest) (x ∷ xs) refl
send_loop-IsSent (suc fuel) i o (broken ∷ rest) (x ∷ xs) =
    no-IsSent (socket_of i o (broken ∷ rest)) (socket_of i o rest) (x ∷ xs) refl
send_loop-IsSent (suc fuel) i o (accepts zero ∷ rest) (x ∷ xs) =
    let none_taken : min 0 (suc (length xs)) ≡ 0 = omega arith in
    rw (none_taken, send_loop)
      (no-IsSent (socket_of i o (accepts zero ∷ rest))
        (socket_of i (o ++ take (min 0 (suc (length xs))) (x ∷ xs)) rest) (x ∷ xs)
        (ap (λ j. o ++ take j (x ∷ xs)) none_taken ∙ append-nil o))
send_loop-IsSent (suc fuel) i o (accepts (suc n) ∷ rest) (x ∷ xs) =
    let k = min n (length xs) in
    let some_taken : min (suc n) (suc (length xs)) ≡ suc k = omega arith in
    let out = o ++ take (min (suc n) (suc (length xs))) (x ∷ xs) in
    rw (some_taken, send_loop)
      (IsSent-later (socket_of i o (accepts (suc n) ∷ rest)) (socket_of i out rest) (suc k) (x ∷ xs)
        (send_loop fuel (socket_of i out rest) (drop (suc k) (x ∷ xs)))
        (ap (λ j. o ++ take j (x ∷ xs)) some_taken)
        (send_loop-IsSent fuel i out rest (drop (suc k) (x ∷ xs))))

-- The kernel takes something at each call.
abbrev pub IsTaking : Answer → Type 0
IsTaking (accepts n) = 0 < n
IsTaking would_block = ⊥
IsTaking broken = ⊥

send_loop-taking :
    (fuel : ℕ) (i o : Bytes) (answers : List Answer) (xs : Bytes)
    → length xs ≤ fuel
    → length xs ≤ length answers
    → All IsTaking answers
    → (send_loop fuel (socket_of i o answers) xs).1 ≡ true
unfolding send_loop send
send_loop-taking zero i o answers [] f a t = refl
send_loop-taking (suc fuel) i o answers [] f a t = refl
send_loop-taking zero i o answers (x ∷ xs) f a t = absurd (omega arith)
send_loop-taking (suc fuel) i o [] (x ∷ xs) f a t = absurd (omega arith)
send_loop-taking (suc fuel) i o (would_block ∷ rest) (x ∷ xs) f a t = absurd t.0
send_loop-taking (suc fuel) i o (broken ∷ rest) (x ∷ xs) f a t = absurd t.0
send_loop-taking (suc fuel) i o (accepts zero ∷ rest) (x ∷ xs) f a t = absurd (omega arith)
send_loop-taking (suc fuel) i o (accepts (suc n) ∷ rest) (x ∷ xs) f a t =
    let k = min n (length xs) in
    let some_taken : min (suc n) (suc (length xs)) ≡ suc k = omega arith in
    rw (some_taken, send_loop)
      (send_loop-taking fuel i (o ++ take (min (suc n) (suc (length xs))) (x ∷ xs)) rest
        (drop (suc k) (x ∷ xs)) (omega (arith, length-drop k xs)) (omega (arith, length-drop k xs))
        t.1)

-- What has gone out on the socket of a connection.
abbrev pub outgoing_of : PeerConnection → Bytes
outgoing_of p = elim p.socket [ none ↦ [] | some s ↦ s.outgoing ]

-- A message sent on an open socket: whatever the kernel answers, what goes out is the beginning of
-- the serialized message, and all of it where the connection stays connected; and it does stay
-- connected where the kernel takes at least a byte at each call, for as many calls as bytes.
pub send_message-outgoing :
    (p : PeerConnection) (s : Socket) (m : PeerMessage)
    → p.connected ≡ true
    → p.socket ≡ some s
    → ((n : ℕ) × (outgoing_of (send_message p m) ≡ s.outgoing ++ take n (serialize_message m)))
      × (((send_message p m).connected ≡ true
            → outgoing_of (send_message p m) ≡ s.outgoing ++ serialize_message m)
          × (All IsTaking s.answers
              → length (serialize_message m) ≤ length s.answers
              → (send_message p m).connected ≡ true))
unfolding send_message
send_message-outgoing p s m c o =
    let xs = serialize_message m in
    let h = send_loop-IsSent (length xs) s.incoming s.outgoing s.answers xs in
    rw (c, o)
      (
        (h.taken, h.goes_out),
        (
          (λ w. h.goes_out ∙ ap (λ ys. s.outgoing ++ ys) (h.whole w)),
          λ t l. send_loop-taking (length xs) s.incoming s.outgoing s.answers xs (omega arith) l t,
        ),
      )
