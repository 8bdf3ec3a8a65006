-- ===== src/Rc4.antt =====
-- src/crypto/mse_crypto.cpp and include/mse_crypto.hpp: the class `RC4`.
pub mod Stream
mod Examples
use pixel_scrape.Base.{
  ℕ, zero, suc, ◌+◌, ◌%◌, bit_xor, Option, none, some, List, [], ◌∷◌, length, get_or, set,
}
use pixel_scrape.Base.Bytes.{Bytes}

-- `S_`, `i_` and `j_`.
pub record Rc4 : Type 0 where
  pub s : List ℕ
  pub i : ℕ
  pub j : ℕ

-- The numbers from `k` on, `n` of them.
unfoldable pub count_up : ℕ → ℕ → List ℕ
count_up zero k = []
count_up (suc n) k = k ∷ count_up n (suc k)

unfoldable pub new : Rc4
new = record { s = count_up 256 0; i = 0; j = 0 }

-- `std::swap` of two elements.
unfoldable pub swap : List ℕ → ℕ → ℕ → List ℕ
swap s a b = set (set s a (get_or s b 0)) b (get_or s a 0)

-- The loop of `init` from `i` on, `n` turns.
unfoldable pub schedule : ℕ → Bytes → ℕ → ℕ → List ℕ → List ℕ
schedule zero key i j s = s
schedule (suc n) key i j s =
    let j' = (j + get_or s i 0 + get_or key (i % length key) 0) % 256 in
    schedule n key (suc i) j' (swap s i j')

-- `none` is the division by zero of an empty key.
unfoldable pub init : Bytes → Option Rc4
init [] = none
init (k ∷ ks) = some (record { s = schedule 256 (k ∷ ks) 0 0 (count_up 256 0); i = 0; j = 0 })

-- What a turn of `process` makes of the state.
unfoldable pub advance : Rc4 → Rc4
advance r =
    let i = (r.i + 1) % 256 in
    let j = (r.j + get_or r.s i 0) % 256 in record { s = swap r.s i j; i = i; j = j }

-- The byte of the key stream, after that.
unfoldable pub key_byte : Rc4 → ℕ
key_byte r = get_or r.s ((get_or r.s r.i 0 + get_or r.s r.j 0) % 256) 0

unfoldable pub process : Rc4 → Bytes → Rc4 × Bytes
process r [] = (r, [])
process r (x ∷ xs) =
    let r' = advance r in let rest = process r' xs in (rest.0, bit_xor x (key_byte r') ∷ rest.1)
