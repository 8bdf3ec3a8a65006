-- ===== src/PeerConnection/Handshake/Fragments.antt =====
-- What the buffer of a handshake holds after the first bytes, and after the last.
use pixel_scrape.Base.{
  ℕ, zero, suc, ◌+◌, ◌-◌, ◌<◌, ◌≡◌, refl, sym, ap, ap₂, ◌∙◌, false, some, [], ◌++◌, length, take,
  drop, replicate, arith, append_assoc, append-nil, length-append, take-length_append,
  drop-length_append, drop-add, lt→ltb, le→ltb,
}
use pixel_scrape.Base.Bytes.{Bytes}
use pixel_scrape.PeerConnection.{Socket, PeerConnection}
use pixel_scrape.PeerConnection.Handshake.{
  is_valid, finish_handshake, Arrival, receive_part, prepare_buffer, receive_arrival,
  receive_handshake_nonblocking,
}

-- The connection when the bytes `got` of a handshake have come.
abbrev pub midway : PeerConnection → Bytes → PeerConnection
midway p got = record p {
  handshake_buffer = got ++ replicate (68 - length got) 0;
  handshake_bytes_received = length got;
}

drop-replicate : (k n : ℕ) → drop {A = ℕ} k (replicate n 0) ≡ replicate (n - k) 0
drop-replicate zero n = let e : n ≡ n - 0 = omega arith in ap (λ j. replicate j 0) e
drop-replicate (suc k) zero = let e : 0 - suc k ≡ 0 = omega arith in ap (λ j. replicate j 0) (sym e)
drop-replicate (suc k) (suc n) =
    let e : n - k ≡ suc n - suc k = omega arith in drop-replicate k n ∙ ap (λ j. replicate j 0) e

-- The buffer behind a write is what has come, and zeros.
buffer_lem :
    (got xs : Bytes)
    → take (length got) (got ++ replicate (68 - length got) 0)
        ++ (xs ++ drop (length got + length xs) (got ++ replicate (68 - length got) 0))
      ≡ (got ++ xs) ++ replicate (68 - length (got ++ xs)) 0
buffer_lem got xs =
    let zs = replicate (68 - length got) 0 in
    let left : 68 - length got - length xs ≡ 68 - length (got ++ xs) =
      omega (arith, length-append got xs) in
    let behind : drop (length got + length xs) (got ++ zs) ≡ replicate (68 - length (got ++ xs)) 0 =
      drop-add (length got) (length xs) (got ++ zs)
      ∙ ap (drop (length xs)) (drop-length_append got zs)
      ∙ drop-replicate (length xs) (68 - length got)
      ∙ ap (λ j. replicate j 0) left in
    ap₂ (λ (ys zs : Bytes). ys ++ (xs ++ zs)) (take-length_append got zs) behind
    ∙ sym (append_assoc got xs (replicate (68 - length (got ++ xs)) 0))

pub receive_part-more :
    (p : PeerConnection) (got xs : Bytes)
    → length (got ++ xs) < 68
    → receive_part (midway p got) xs ≡ (midway p (got ++ xs), false)
unfolding receive_part
receive_part-more p got xs h =
    rw
      (
        lt→ltb (length got + length xs) 68 (omega (arith, length-append got xs)),
        buffer_lem got xs,
        ← length-append got xs,
      )
      refl

-- How much has come does not matter once the handshake is whole.
finish_handshake-midway :
    (p : PeerConnection) (buffer xs : Bytes) (n : ℕ)
    → finish_handshake (record p { handshake_buffer = buffer; handshake_bytes_received = n }) xs
      ≡ finish_handshake p xs
unfolding finish_handshake is_valid
finish_handshake-midway p buffer xs n = refl

pub receive_part-last :
    (p : PeerConnection) (got xs : Bytes)
    → length (got ++ xs) ≡ 68
    → receive_part (midway p got) xs ≡ finish_handshake p (got ++ xs)
unfolding receive_part
receive_part-last p got xs h =
    let buffer = (got ++ xs) ++ replicate (68 - length (got ++ xs)) 0 in
    let full : 68 - length (got ++ xs) ≡ 0 = omega arith in
    let exact : buffer ≡ got ++ xs =
      ap (λ n. (got ++ xs) ++ replicate n 0) full ∙ append-nil (got ++ xs) in
    rw (le→ltb (length got + length xs) 68 (omega (arith, length-append got xs)), buffer_lem got xs)
      (finish_handshake-midway p buffer buffer (length got + length xs)
        ∙ ap (finish_handshake p) exact)

pub prepare_buffer-first :
    (p : PeerConnection) → p.handshake_buffer ≡ [] → prepare_buffer p ≡ midway p []
unfolding prepare_buffer
prepare_buffer-first p b = rw b refl

pub receive_on :
    (p : PeerConnection) (s : Socket) (arrival : Arrival)
    → p.socket ≡ some s
    → receive_handshake_nonblocking p arrival ≡ receive_arrival (prepare_buffer p) arrival
unfolding receive_handshake_nonblocking
receive_on p s arrival o = rw o refl
