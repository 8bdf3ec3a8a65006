-- ===== src/Sha1/Blocks.antt =====
-- `SHA1::hash` as a fold over the blocks of the padded message.
use mathlib.Core.List.{foldl-append}
use pixel_scrape.Base.{
  ℕ, zero, suc, ◌+◌, ◌*◌, ◌/◌, ◌%◌, ◌<◌, ◌≡◌, refl, sym, ap, ap₂, ◌∙◌, [], ◌∷◌, ◌++◌, foldl, arith,
  length, set, take, drop, replicate, length-append, length-take, length-drop, take-append-drop,
}
use pixel_scrape.Base.Bytes.{Bytes, size_mod}
use pixel_scrape.Sha1.{
  Sha1, Words, initial_words, new, copy, compress, be64, digest, finalize, hash,
}
use pixel_scrape.Sha1.Stream.{
  IsReady, push, foldl-push-filled, foldl-push-IsReady, foldl-push-message_length, absorb,
  update-eq-absorb,
}
use pixel_scrape.Sha1.Padding.{zeros, padding, length-be64, length_marked, finalize-eq-digest}

-- The chaining value after `n` blocks of 64 bytes.
pub fold_blocks : ℕ → Words → Bytes → Words
fold_blocks zero h xs = h
fold_blocks (suc n) h xs = fold_blocks n (compress h (take 64 xs)) (drop 64 xs)

copy_cons : (b i : ℕ) (buf xs : Bytes) → copy (b ∷ buf) (suc i) xs ≡ b ∷ copy buf i xs
unfolding copy
copy_cons b i buf [] = refl
copy_cons b i buf (x ∷ xs) = copy_cons b (suc i) (set buf i x) xs

copy_whole : (buf xs : Bytes) → length xs ≡ length buf → copy buf 0 xs ≡ xs
unfolding copy
copy_whole [] [] h = refl
copy_whole (b ∷ buf) [] h = absurd (omega arith)
copy_whole [] (x ∷ xs) h = absurd (omega arith)
copy_whole (b ∷ buf) (x ∷ xs) h =
    copy_cons x 0 buf xs ∙ ap (◌∷◌ x) (copy_whole buf xs (omega arith))

foldl-push_block :
    (s : Sha1) (xs : Bytes)
    → IsReady s
    → s.buffer_index ≡ 0
    → length xs ≡ 64
    → foldl push s xs ≡ record s { h = compress s.h xs; buffer = xs }
foldl-push_block s [] v e h = absurd (omega arith)
foldl-push_block s (x ∷ xs) v e h =
    let whole : copy s.buffer s.buffer_index (x ∷ xs) ≡ x ∷ xs =
      rw e (copy_whole s.buffer (x ∷ xs) (omega (arith, v.full_size))) in
    foldl-push-filled x xs s (omega arith) ∙ cc (whole, e)

foldl-push-eq-fold_blocks :
    (n : ℕ) (s : Sha1) (xs : Bytes)
    → IsReady s
    → s.buffer_index ≡ 0
    → length xs ≡ 64 * n
    → (foldl push s xs).h ≡ fold_blocks n s.h xs
unfolding fold_blocks
foldl-push-eq-fold_blocks zero s [] v e h = refl
foldl-push-eq-fold_blocks zero s (x ∷ xs) v e h = absurd (omega arith)
foldl-push-eq-fold_blocks (suc n) s xs v e h =
    let block = take 64 xs in
    let rest = drop 64 xs in
    let size : length block ≡ 64 = omega (arith, length-take 64 xs) in
    let t = record s { h = compress s.h block; buffer = block } in
    ap (λ ys. (foldl push s ys).h) (sym (take-append-drop 64 xs))
    ∙ ap (λ (r : Sha1). r.h) (foldl-append push s block rest)
    ∙ ap (λ r. (foldl push r rest).h) (foldl-push_block s block v e size)
    ∙ foldl-push-eq-fold_blocks n t rest (record { full_size = size; room = v.room }) e
        (omega (arith, length-drop 64 xs))

push-buffer_index :
    (s : Sha1) (x : ℕ) → s.buffer_index < 64 → (push s x).buffer_index ≡ (s.buffer_index + 1) % 64
unfolding push
push-buffer_index s x h = ground arith

foldl-push-buffer_index :
    (xs : Bytes) (s : Sha1)
    → s.buffer_index < 64
    → (foldl push s xs).buffer_index ≡ (s.buffer_index + length xs) % 64
foldl-push-buffer_index [] s h = omega arith
foldl-push-buffer_index (x ∷ xs) s h =
    let e = push-buffer_index s x h in
    omega (arith, foldl-push-buffer_index xs (push s x) (omega (arith, e)), e)

-- The message with its padding.
abbrev pub pad : Bytes → Bytes
pad xs = xs ++ padding (length xs)

length-pad : (xs : Bytes) → length (pad xs) ≡ 64 * (length (pad xs) / 64)
length-pad xs = ground (
  arith,
  length-append xs (padding (length xs)),
  length_marked (zeros (length xs % 64)) (be64 (length xs * 8 % size_mod)),
  length-be64 (length xs * 8 % size_mod),
)

new-IsReady : (junk : Bytes) → length junk ≡ 64 → IsReady (new junk)
unfolding new
new-IsReady junk h = record { full_size = h; room = omega arith }

new_fields :
    (junk : Bytes)
    → ((new junk).h ≡ initial_words)
      × ((new junk).buffer_index ≡ 0)
      × ((new junk).message_length ≡ 0)
unfolding new
new_fields junk = (refl, refl, refl)

finalize-absorb :
    (s : Sha1) (xs : Bytes)
    → IsReady s
    → s.buffer_index ≡ 0
    → s.message_length ≡ 0
    → finalize (absorb s xs) ≡ digest (foldl push s (pad xs)).h
unfolding absorb
finalize-absorb s xs v e m =
    finalize-eq-digest (absorb s xs) ready
    ∙ ap₂ (λ i n. digest (foldl push (absorb s xs) (0x80 ∷ replicate (zeros i) 0 ++ be64 n)).h)
        index bits
    ∙ ap (λ (t : Sha1). digest t.h) (sym (foldl-append push s₀ xs (padding (length xs))))
    ∙ ap (λ (t : Sha1). digest t.h) (foldl-push-message_length (pad xs) s count)
  where
    count : ℕ
    count = (s.message_length + length xs) % size_mod

    s₀ : Sha1
    s₀ = record s { message_length = count }

    ready : IsReady (absorb s xs)
    ready = foldl-push-IsReady xs s₀ (record { full_size = v.full_size; room = v.room })

    index : (absorb s xs).buffer_index ≡ length xs % 64
    index = omega (arith, foldl-push-buffer_index xs s₀ v.room)

    counted : (absorb s xs).message_length ≡ count
    counted = ap (λ (t : Sha1). t.message_length) (foldl-push-message_length xs s count)

    bits : (absorb s xs).message_length * 8 % size_mod ≡ length xs * 8 % size_mod
    bits = rw counted (omega arith)

-- The hash of a message is that of its padded blocks, whatever bytes the object's buffer held: the
-- message, 0x80, zeros and the bit length make whole blocks, which `compress` folds in order.
pub hash-eq-fold_blocks :
    (junk xs : Bytes)
    → length junk ≡ 64
    → (length (pad xs) ≡ 64 * (length (pad xs) / 64))
      × (hash junk xs ≡ digest (fold_blocks (length (pad xs) / 64) initial_words (pad xs)))
unfolding hash
hash-eq-fold_blocks junk xs h =
    let ready = new-IsReady junk h in
    let (words, index, count) = new_fields junk in
    (
      length-pad xs,
      ap finalize (update-eq-absorb (new junk) xs ready)
          ∙ finalize-absorb (new junk) xs ready index count
          ∙ ap digest (
              foldl-push-eq-fold_blocks (length (pad xs) / 64) (new junk) (pad xs) ready index
                (length-pad xs))
          ∙ ap (λ w. digest (fold_blocks (length (pad xs) / 64) w (pad xs))) words,
    )
