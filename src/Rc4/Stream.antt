-- ===== src/Rc4/Stream.antt =====
-- The key stream of RC4 as its textbook gives it, on permutations as functions: each turn composes
-- the permutation with a transposition of two places.
use pixel_scrape.Base.{
  ℕ, zero, suc, ◌+◌, ◌%◌, ◌<◌, ◌≡◌, ◌≢◌, refl, sym, ap, ap₂, subst, ◌∙◌, bit_xor, some, List, [],
  ◌∷◌, ◌++◌, arith, ◌==◌, if◌then◌else◌, length, get_or, set, length-set, get_or-set_self,
  get_or-set_ne, some_eq, none-ne-some,
}
use native.Mathlib.Decide.{ℕ_discrete}
use pixel_scrape.Base.Bytes.{Bytes}
use pixel_scrape.Rc4.{Rc4, count_up, swap, schedule, init, advance, key_byte, process}

abbrev Places : Type 0
Places = ℕ → ℕ

unfoldable pub transpose : ℕ → ℕ → Places
transpose a b k = if k == a then b else if k == b then a else k

-- The permutation, and the number `j` with it, after turns of the key schedule.
unfoldable pub scheduled : Bytes → ℕ → Places × ℕ
scheduled key zero = (λ k. k, 0)
scheduled key (suc n) =
    let (p, j) = scheduled key n in
    let j' = (j + p n + get_or key (n % length key) 0) % 256 in (λ k. p (transpose n j' k), j')

-- After bytes of the stream.
unfoldable pub generated : Bytes → ℕ → Places × ℕ
generated key zero = ((scheduled key 256).0, 0)
generated key (suc n) =
    let (p, j) = generated key n in
    let j' = (j + p (suc n % 256)) % 256 in (λ k. p (transpose (suc n % 256) j' k), j')

-- The byte number `n` of the stream.
unfoldable pub stream : Bytes → ℕ → ℕ
stream key n = let (p, j) = generated key (suc n) in p ((p (suc n % 256) + p j) % 256)

-- A list that holds a permutation of 256 places.
abbrev Holds : List ℕ → Places → Type 0
Holds s p = (length s ≡ 256) × ((k : ℕ) → k < 256 → get_or s k 0 ≡ p k)

transpose_second : (a b k : ℕ) → k ≡ b → transpose a b k ≡ a
unfolding transpose
transpose_second a b k e = ground (arith, e)

transpose_first : (a b k : ℕ) → k ≡ a → transpose a b k ≡ b
unfolding transpose
transpose_first a b k e = ground (arith, e)

transpose_other : (a b k : ℕ) → k ≢ a → k ≢ b → transpose a b k ≡ k
unfolding transpose
transpose_other a b k na nb = ground (arith, na, nb)

swap-transpose :
    (s : List ℕ) (a b k : ℕ)
    → a < length s
    → b < length s
    → get_or (swap s a b) k 0 ≡ get_or s (transpose a b k) 0
unfolding swap
swap-transpose s a b k ha hb =
    let s' = set s a (get_or s b 0) in
    elim (ℕ_discrete k b) [
      | yes eb ↦
          ap (λ m. get_or (set s' b (get_or s a 0)) m 0) eb
          ∙ get_or-set_self s' b (get_or s a 0) 0 (omega (arith, length-set s a (get_or s b 0)))
          ∙ ap (λ m. get_or s m 0) (sym (transpose_second a b k eb))
      | no nb ↦ get_or-set_ne s' b k (get_or s a 0) 0 (λ e. nb (sym e)) ∙ elim (ℕ_discrete k a) [
        | yes ea ↦
            ap (λ m. get_or s' m 0) ea
            ∙ get_or-set_self s a (get_or s b 0) 0 ha
            ∙ ap (λ m. get_or s m 0) (sym (transpose_first a b k ea))
        | no na ↦
            get_or-set_ne s a k (get_or s b 0) 0 (λ e. na (sym e))
            ∙ ap (λ m. get_or s m 0) (sym (transpose_other a b k na nb))
      ]
    ]

transpose-lt : (a b k n : ℕ) → a < n → b < n → k < n → transpose a b k < n
unfolding transpose
transpose-lt a b k n ha hb hk = ground (arith, ha, hb, hk)

length-swap : (s : List ℕ) (a b : ℕ) → length (swap s a b) ≡ length s
unfolding swap
length-swap s a b =
    length-set (set s a (get_or s b 0)) b (get_or s a 0) ∙ length-set s a (get_or s b 0)

swap-Holds :
    (s : List ℕ) (p : Places) (a b : ℕ)
    → Holds s p
    → a < 256
    → b < 256
    → Holds (swap s a b) (λ k. p (transpose a b k))
swap-Holds s p a b (size, at) ha hb = (
  length-swap s a b ∙ size,
  λ k hk.
      swap-transpose s a b k (omega (arith, size)) (omega (arith, size))
      ∙ at (transpose a b k) (transpose-lt a b k 256 ha hb hk),
)

count_up-at : (n k m : ℕ) → m < n → get_or (count_up n k) m 0 ≡ k + m
unfolding count_up
count_up-at zero k m h = absurd (omega arith)
count_up-at (suc n) k zero h = omega arith
count_up-at (suc n) k (suc m) h = omega (arith, count_up-at n (suc k) m (omega arith))

length-count_up : (n k : ℕ) → length (count_up n k) ≡ n
unfolding count_up
length-count_up zero k = refl
length-count_up (suc n) k = ap suc (length-count_up n (suc k))

count_up-Holds : (key : Bytes) → Holds (count_up 256 0) (scheduled key 0).0
unfolding scheduled
count_up-Holds key = (length-count_up 256 0, λ k h. omega (arith, count_up-at 256 0 k h))

-- The rest of the key schedule, from the place `i` on.
schedule-Holds :
    (n : ℕ) (key : Bytes) (i j : ℕ) (s : List ℕ)
    → i + n ≡ 256
    → j ≡ (scheduled key i).1
    → Holds s (scheduled key i).0
    → Holds (schedule n key i j s) (scheduled key 256).0
unfolding schedule scheduled
schedule-Holds zero key i j s e ej h =
    let last : i ≡ 256 = omega (arith, e) in subst (λ m. Holds s (scheduled key m).0) last h
schedule-Holds (suc n) key i j s e ej h =
    let next = (j + get_or s i 0 + get_or key (i % length key) 0) % 256 in
    let same : next ≡ (scheduled key (suc i)).1 =
      ap₂ (λ m q. (m + q + get_or key (i % length key) 0) % 256) ej (h.1 i (omega (arith, e))) in
    schedule-Holds n key (suc i) next (swap s i next) (omega (arith, e)) same (
      subst (λ m. Holds (swap s i next) (λ k. (scheduled key i).0 (transpose i m k))) same
        (swap-Holds s (scheduled key i).0 i next h (omega (arith, e)) (omega arith)))

-- The state after `n` bytes.
record Matches (key : Bytes) (n : ℕ) (r : Rc4) : Type 0 where
  at_i : r.i ≡ n % 256
  at_j : r.j ≡ (generated key n).1
  small_j : r.j < 256
  holds : Holds r.s (generated key n).0

init-Matches : (key : Bytes) (r : Rc4) → init key ≡ some r → Matches key 0 r
unfolding init generated
init-Matches [] r e = none-ne-some e
init-Matches (k ∷ ks) r e =
    let made = some_eq e in
    subst (Matches (k ∷ ks) 0) made (record {
      at_i = refl;
      at_j = refl;
      small_j = omega arith;
      holds =
          schedule-Holds 256 (k ∷ ks) 0 0 (count_up 256 0) refl (unfold scheduled in refl)
            (count_up-Holds (k ∷ ks));
    })

advance-Matches :
    (key : Bytes) (n : ℕ) (r : Rc4) → Matches key n r → Matches key (suc n) (advance r)
unfolding advance generated
advance-Matches key n r m =
    let i = (r.i + 1) % 256 in
    let j = (r.j + get_or r.s i 0) % 256 in
    let same_i : i ≡ suc n % 256 = omega (arith, m.at_i) in
    let same_j : j ≡ (generated key (suc n)).1 =
      ap₂ (λ a b. (a + b) % 256) m.at_j
        (m.holds.1 i (omega arith) ∙ ap (generated key n).0 same_i) in
    record {
      at_i = same_i;
      at_j = same_j;
      small_j = omega arith;
      holds =
          subst
            (λ (q : ℕ × ℕ). Holds (swap r.s i j) (λ k. (generated key n).0 (transpose q.0 q.1 k)))
            (ap₂ (λ (a b : ℕ). (a, b)) same_i same_j)
            (swap-Holds r.s (generated key n).0 i j m.holds (omega arith) (omega arith));
    }

key_byte-stream :
    (key : Bytes) (n : ℕ) (r : Rc4) → Matches key (suc n) r → key_byte r ≡ stream key n
unfolding key_byte stream
key_byte-stream key n r m =
    let p = (generated key (suc n)).0 in
    let small_i : r.i < 256 = omega (arith, m.at_i) in
    let first : get_or r.s r.i 0 ≡ p (suc n % 256) = m.holds.1 r.i small_i ∙ ap p m.at_i in
    let second : get_or r.s r.j 0 ≡ p (generated key (suc n)).1 =
      m.holds.1 r.j m.small_j ∙ ap p m.at_j in
    m.holds.1 ((get_or r.s r.i 0 + get_or r.s r.j 0) % 256) (omega arith)
    ∙ ap₂ (λ a b. p ((a + b) % 256)) first second

process-Matches :
    (key : Bytes) (m n : ℕ) (r : Rc4) (xs : Bytes)
    → Matches key m r
    → n < length xs
    → get_or (process r xs).1 n 0 ≡ bit_xor (get_or xs n 0) (stream key (m + n))
unfolding process
process-Matches key m n r [] h l = absurd (omega arith)
process-Matches key m zero r (x ∷ xs) h l =
    let here : m ≡ m + 0 = omega arith in
    ap (bit_xor x)
      (key_byte-stream key m (advance r) (advance-Matches key m r h) ∙ ap (stream key) here)
process-Matches key m (suc n) r (x ∷ xs) h l =
    let behind : suc m + n ≡ m + suc n = omega arith in
    process-Matches key (suc m) n (advance r) xs (advance-Matches key m r h) (omega arith)
    ∙ ap (λ k. bit_xor (get_or xs n 0) (stream key k)) behind

length-process : (r : Rc4) (xs : Bytes) → length (process r xs).1 ≡ length xs
unfolding process
length-process r [] = refl
length-process r (x ∷ xs) = ap suc (length-process (advance r) xs)

-- From the state that `init` makes of a key, `process` gives as many bytes as it is given, each of
-- them the exclusive or of the byte at its place with the byte of the textbook's key stream there.
pub process-stream :
    (key : Bytes) (r : Rc4) (xs : Bytes) (n : ℕ)
    → init key ≡ some r
    → n < length xs
    → (length (process r xs).1 ≡ length xs)
      × (get_or (process r xs).1 n 0 ≡ bit_xor (get_or xs n 0) (stream key n))
process-stream key r xs n e h =
    let start : 0 + n ≡ n = omega arith in
    (
      length-process r xs,
      process-Matches key 0 n r xs (init-Matches key r e) h
          ∙ ap (λ k. bit_xor (get_or xs n 0) (stream key k)) start,
    )

-- Two calls of process, one after the other, do what one call does with the bytes joined.
pub process-append :
    (r : Rc4) (xs ys : Bytes)
    → process r (xs ++ ys)
      ≡ ((process (process r xs).0 ys).0, (process r xs).1 ++ (process (process r xs).0 ys).1)
unfolding process
process-append r [] ys = refl
process-append r (x ∷ xs) ys =
    ap (λ (q : Rc4 × Bytes). (q.0, bit_xor x (key_byte (advance r)) ∷ q.1))
      (process-append (advance r) xs ys)
