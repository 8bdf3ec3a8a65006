-- ===== src/Base/Xor.antt =====
-- Exclusive or undoes itself.
use Prim.Native.Nat.{
  ℕ, zero, suc, ◌+◌, ◌*◌, ◌/◌, ◌%◌, ◌≤◌, ◌<◌, ◌^◌, bit_xor, bit_xor-bitwise, digits, differ,
}
use mathlib.Core.Path.{◌≡◌, refl, sym, ap, ap₂, ◌∙◌}
use native.Mathlib.Omega.{arith}
use native.Mathlib.Nat.{pow-succ'}

abbrev xor_digits : ℕ → ℕ → ℕ → ℕ
xor_digits n a b = digits (λ b. b) differ n a b

-- More digits to go than the number has make no difference.
xor_digits-fuel : (n m a b : ℕ) → a ≤ n → a ≤ m → xor_digits n a b ≡ xor_digits m a b
xor_digits-fuel zero zero zero b h k = refl
xor_digits-fuel zero (suc m) zero b h k = refl
xor_digits-fuel (suc n) zero zero b h k = refl
xor_digits-fuel (suc n) (suc m) zero b h k = refl
xor_digits-fuel zero m (suc a) b h k = absurd (omega arith)
xor_digits-fuel (suc n) zero (suc a) b h k = absurd (omega arith)
xor_digits-fuel (suc n) (suc m) (suc a) b h k =
    ap (λ q. q * 2 + differ (suc a % 2) (b % 2))
      (xor_digits-fuel n m (suc a / 2) (b / 2) (omega arith) (omega arith))

xor_eq : (a b : ℕ) → bit_xor a b ≡ xor_digits a a b
xor_eq a b = λ i. bit_xor-bitwise a b i

-- The lowest digit and the others.
xor_step : (a b : ℕ) → bit_xor a b ≡ bit_xor (a / 2) (b / 2) * 2 + differ (a % 2) (b % 2)
xor_step zero b = xor_eq zero b ∙ omega (arith, xor_eq 0 (b / 2))
xor_step (suc a) b =
    xor_eq (suc a) b
    ∙ ap (λ q. q * 2 + differ (suc a % 2) (b % 2))
        (xor_digits-fuel a (suc a / 2) (suc a / 2) (b / 2) (omega arith) (omega arith)
          ∙ sym (xor_eq (suc a / 2) (b / 2)))

differ-lt : (x y : ℕ) → x < 2 → y < 2 → differ x y < 2
differ-lt zero y h k = k
differ-lt (suc zero) zero h k = omega arith
differ-lt (suc zero) (suc zero) h k = omega arith
differ-lt (suc zero) (suc (suc y)) h k = absurd (omega arith)
differ-lt (suc (suc x)) y h k = absurd (omega arith)

differ-differ : (x y : ℕ) → x < 2 → y < 2 → differ (differ x y) y ≡ x
differ-differ zero zero h k = refl
differ-differ zero (suc zero) h k = refl
differ-differ zero (suc (suc y)) h k = absurd (omega arith)
differ-differ (suc zero) zero h k = refl
differ-differ (suc zero) (suc zero) h k = refl
differ-differ (suc zero) (suc (suc y)) h k = absurd (omega arith)
differ-differ (suc (suc x)) y h k = absurd (omega arith)

xor_twice : (fuel a b : ℕ) → a + b ≤ fuel → bit_xor (bit_xor a b) b ≡ a
xor_twice zero a b h = let p : a ≡ 0 = omega arith in let q : b ≡ 0 = omega arith in rw (p, q) refl
xor_twice (suc fuel) a b h =
    let low = differ (a % 2) (b % 2) in
    let small : low < 2 = differ-lt (a % 2) (b % 2) (omega arith) (omega arith) in
    let c = bit_xor a b in
    let step = xor_step a b in
    let half : c / 2 ≡ bit_xor (a / 2) (b / 2) = omega (arith, step, small) in
    let digit : c % 2 ≡ low = omega (arith, step, small) in
    xor_step c b
    ∙ ap₂ (λ u v. bit_xor u (b / 2) * 2 + differ v (b % 2)) half digit
    ∙ ap₂ (λ u v. u * 2 + v) (xor_twice fuel (a / 2) (b / 2) (omega arith))
        (differ-differ (a % 2) (b % 2) (omega arith) (omega arith))
    ∙ omega arith

pub bit_xor-bit_xor : (a b : ℕ) → bit_xor (bit_xor a b) b ≡ a
bit_xor-bit_xor a b = xor_twice (a + b) a b (omega arith)

bit_xor-double : (m a b : ℕ) → bit_xor (a / 2) (b / 2) < m → bit_xor a b < 2 * m
bit_xor-double m a b h =
    omega (arith, xor_step a b, differ-lt (a % 2) (b % 2) (omega arith) (omega arith), h)

bit_xor-lt_power : (k a b : ℕ) → a < 2 ^ k → b < 2 ^ k → bit_xor a b < 2 ^ k
bit_xor-lt_power zero a b h h' =
    let p : a ≡ 0 = omega (arith, h) in let q : b ≡ 0 = omega (arith, h') in rw (p, q) (omega arith)
bit_xor-lt_power (suc k) a b h h' =
    let twice = pow-succ' 2 k in
    let half =
      bit_xor-lt_power k (a / 2) (b / 2) (omega (arith, h, twice)) (omega (arith, h', twice)) in
    omega (arith, twice, bit_xor-double (2 ^ k) a b half)

-- Two bytes give a byte.
pub bit_xor-lt : (a b : ℕ) → a < 256 → b < 256 → bit_xor a b < 256
bit_xor-lt a b h h' = bit_xor-lt_power 8 a b h h'
