-- ===== src/Sha1/Stream.antt =====
-- `SHA1::update` against a hash that takes one byte at a time.
use mathlib.Core.List.{foldl-append}
use pixel_scrape.Base.{
  ℕ, zero, suc, ◌+◌, ◌-◌, ◌%◌, ◌≤◌, ◌<◌, min, ◌≡◌, refl, sym, ap, ◌∙◌, ◌≡⟨◌⟩◌, ◌∎, inl, inr, [],
  ◌∷◌, ◌++◌, foldl, arith, ◌==◌, if◌then◌else◌, Bool-cases, length, set, take, drop, length-set,
  length-append, length-take, length-drop, take-append-drop,
}
use pixel_scrape.Base.Bytes.{Bytes, size_mod}
use pixel_scrape.Sha1.{Sha1, copy, process_block, to_copy, copy_in, update_loop, update, compress}

-- The buffer is an array of 64 bytes, and a full block has been processed at once.
pub record IsReady (s : Sha1) : Type 0 where
  pub full_size : length s.buffer ≡ 64
  pub room : s.buffer_index < 64

-- One byte into the buffer, and the block processed when that fills it.
unfoldable pub push : Sha1 → ℕ → Sha1
unfolding process_block
push s x =
    let stored = record s {
      buffer = set s.buffer s.buffer_index x;
      buffer_index = suc s.buffer_index;
    } in
    if suc s.buffer_index == 64 then record (process_block stored) { buffer_index = 0 } else stored

pub length-copy : (xs buf : Bytes) (i : ℕ) → length (copy buf i xs) ≡ length buf
unfolding copy
length-copy [] buf i = refl
length-copy (x ∷ xs) buf i = length-copy xs (set buf i x) (suc i) ∙ length-set buf i x

pub copy-append :
    (xs ys buf : Bytes) (i : ℕ) → copy buf i (xs ++ ys) ≡ copy (copy buf i xs) (i + length xs) ys
unfolding copy
copy-append [] ys buf i = let e : i + 0 ≡ i = omega arith in rw e refl
copy-append (x ∷ xs) ys buf i =
    let e : i + suc (length xs) ≡ suc i + length xs = omega arith in
    rw e (copy-append xs ys (set buf i x) (suc i))

pub push-IsReady : (s : Sha1) (x : ℕ) → IsReady s → IsReady (push s x)
unfolding push
push-IsReady s x v = ground (arith, length-set s.buffer s.buffer_index x)

-- The state after bytes that leave room in the block.
abbrev stored : Sha1 → Bytes → Sha1
stored s xs = record s {
  buffer = copy s.buffer s.buffer_index xs;
  buffer_index = s.buffer_index + length xs;
}

-- The state after bytes that fill the block.
abbrev pub filled : Sha1 → Bytes → Sha1
filled s xs = record s {
  h = compress s.h (copy s.buffer s.buffer_index xs);
  buffer = copy s.buffer s.buffer_index xs;
  buffer_index = 0;
}

foldl-push_stored :
    (xs : Bytes) (s : Sha1) → s.buffer_index + length xs < 64 → foldl push s xs ≡ stored s xs
unfolding push copy
foldl-push_stored [] s h = ground arith
foldl-push_stored (x ∷ xs) s h = ground (
  arith,
  foldl-push_stored xs
      (record s { buffer = set s.buffer s.buffer_index x; buffer_index = suc s.buffer_index }),
)

pub foldl-push-filled :
    (x : ℕ) (xs : Bytes) (s : Sha1)
    → s.buffer_index + length (x ∷ xs) ≡ 64
    → foldl push s (x ∷ xs) ≡ filled s (x ∷ xs)
unfolding push copy
foldl-push-filled x [] s h = ground arith
foldl-push-filled x (y ∷ xs) s h = ground (
  arith,
  foldl-push-filled y xs
      (record s { buffer = set s.buffer s.buffer_index x; buffer_index = suc s.buffer_index }),
)

copy_in-push :
    (s : Sha1) (k x : ℕ) (xs : Bytes)
    → k < suc (length xs)
    → s.buffer_index + suc k ≤ 64
    → copy_in s (suc k) (x ∷ xs) ≡ foldl push s (take (suc k) (x ∷ xs))
unfolding copy_in
copy_in-push s k x xs h fits = elim (Bool-cases (s.buffer_index + suc k == 64)) [
  | inl full ↦ rw full (sym (foldl-push-filled x (take k xs) s (ground (arith, length-take k xs))))
  | inr part ↦ rw part (ground (arith, length-take k xs, foldl-push_stored (x ∷ take k xs) s))
]

copy_in-IsReady :
    (s : Sha1) (k : ℕ) (xs : Bytes) → IsReady s → s.buffer_index + k ≤ 64 → IsReady (copy_in s k xs)
unfolding copy_in
copy_in-IsReady s k xs v fits = ground (arith, length-copy (take k xs) s.buffer s.buffer_index)

to_copy_pos : (s : Sha1) (n : ℕ) → IsReady s → to_copy s (suc n) ≡ suc (min n (63 - s.buffer_index))
unfolding to_copy
to_copy_pos s n v = omega (arith, v.room)

update_loop_turn :
    (fuel : ℕ) (s : Sha1) (x : ℕ) (xs : Bytes)
    → update_loop (suc fuel) s (x ∷ xs)
      ≡ update_loop fuel
          (copy_in s (to_copy s (length (x ∷ xs))) (x ∷ xs))
          (drop (to_copy s (length (x ∷ xs))) (x ∷ xs))
unfolding update_loop
update_loop_turn fuel s x xs = refl

update_loop_lem :
    (fuel : ℕ) (s : Sha1) (xs : Bytes)
    → IsReady s
    → length xs ≤ fuel
    → update_loop fuel s xs ≡ foldl push s xs
update_loop_lem zero s [] v h = unfold update_loop in refl
update_loop_lem (suc fuel) s [] v h = unfold update_loop in refl
update_loop_lem zero s (x ∷ xs) v h = absurd (omega arith)
update_loop_lem (suc fuel) s (x ∷ xs) v h =
    update_loop (suc fuel) s whole
    ≡⟨ update_loop_turn fuel s x xs ⟩ turn (to_copy s (length whole))
    ≡⟨ ap turn (to_copy_pos s (length xs) v) ⟩ turn (suc k)
    ≡⟨ update_loop_lem fuel (copy_in s (suc k) whole) (drop k xs)
        (copy_in-IsReady s (suc k) whole v fits) (omega (arith, length-drop k xs)) ⟩
      foldl push (copy_in s (suc k) whole) (drop k xs)
    ≡⟨ ap (λ t. foldl push t (drop k xs)) (copy_in-push s k x xs (omega arith) fits) ⟩
      foldl push (foldl push s (take (suc k) whole)) (drop (suc k) whole)
    ≡⟨ sym (foldl-append push s (take (suc k) whole) (drop (suc k) whole)) ⟩
      foldl push s (take (suc k) whole ++ drop (suc k) whole)
    ≡⟨ ap (foldl push s) (take-append-drop (suc k) whole) ⟩ foldl push s whole ∎
  where
    whole : Bytes
    whole = x ∷ xs

    k : ℕ
    k = min (length xs) (63 - s.buffer_index)

    turn : ℕ → Sha1
    turn n = update_loop fuel (copy_in s n whole) (drop n whole)

    fits : s.buffer_index + suc k ≤ 64
    fits = omega (arith, v.room)

-- Bytes taken one at a time, with the length counted.
unfoldable pub absorb : Sha1 → Bytes → Sha1
absorb s xs =
    foldl push (record s { message_length = (s.message_length + length xs) % size_mod }) xs

push-message_length :
    (s : Sha1) (x n : ℕ)
    → push (record s { message_length = n }) x ≡ record (push s x) { message_length = n }
unfolding push
push-message_length s x n = ground arith

pub foldl-push-message_length :
    (xs : Bytes) (s : Sha1) (n : ℕ)
    → foldl push (record s { message_length = n }) xs
      ≡ record (foldl push s xs) { message_length = n }
foldl-push-message_length [] s n = refl
foldl-push-message_length (x ∷ xs) s n =
    ap (λ t. foldl push t xs) (push-message_length s x n)
    ∙ foldl-push-message_length xs (push s x) n

-- On a ready object `update` does what feeding the bytes one at a time does, whatever the block
-- boundaries are, and leaves the object ready.
pub update-eq-absorb : (s : Sha1) (xs : Bytes) → IsReady s → update s xs ≡ absorb s xs
unfolding update absorb
update-eq-absorb s xs v =
    update_loop_lem (length xs) _ xs (record { full_size = v.full_size; room = v.room })
      (omega arith)

pub foldl-push-IsReady : (xs : Bytes) (s : Sha1) → IsReady s → IsReady (foldl push s xs)
foldl-push-IsReady [] s v = v
foldl-push-IsReady (x ∷ xs) s v = foldl-push-IsReady xs (push s x) (push-IsReady s x v)

pub update-IsReady : (s : Sha1) (xs : Bytes) → IsReady s → IsReady (update s xs)
unfolding absorb
update-IsReady s xs v =
    rw (update-eq-absorb s xs v)
      (foldl-push-IsReady xs _ (record { full_size = v.full_size; room = v.room }))

absorb-absorb : (s : Sha1) (xs ys : Bytes) → absorb (absorb s xs) ys ≡ absorb s (xs ++ ys)
unfolding absorb
absorb-absorb s xs ys = rw (foldl-push-message_length xs s one) (
    foldl-push-message_length ys (foldl push s xs) ((one + length ys) % size_mod)
    ∙ cc (
      the_length,
      foldl-append push s xs ys,
      foldl-push-message_length (xs ++ ys) s ((s.message_length + length (xs ++ ys)) % size_mod),
    ))
  where
    one : ℕ
    one = (s.message_length + length xs) % size_mod

    the_length : (one + length ys) % size_mod ≡ (s.message_length + length (xs ++ ys)) % size_mod
    the_length = omega (arith, length-append xs ys)

-- Hashing in pieces is hashing the whole: two updates are one update with the bytes joined.
pub update-update :
    (s : Sha1) (xs ys : Bytes) → IsReady s → update (update s xs) ys ≡ update s (xs ++ ys)
update-update s xs ys v =
    update-eq-absorb (update s xs) ys (update-IsReady s xs v)
    ∙ ap (λ t. absorb t ys) (update-eq-absorb s xs v)
    ∙ absorb-absorb s xs ys
    ∙ sym (update-eq-absorb s (xs ++ ys) v)
