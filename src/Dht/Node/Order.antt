-- ===== src/Dht/Node/Order.antt =====
-- The order of distances is that of the numbers they stand for.
use pixel_scrape.Base.{
  ℕ, suc, ◌+◌, ◌*◌, ◌^◌, ◌≤◌, ◌<◌, ◌≡◌, refl, sym, ap, ap₂, inl, inr, bit_xor, true, false, [], ◌∷◌,
  ltb, ltb→lt, length, arith, Bool-cases, ◌∙◌,
}
use native.Mathlib.Nat.{mul-le-mul_right}
use pixel_scrape.Base.Bytes.{AreBytes}
use pixel_scrape.Base.Xor.{bit_xor-lt}
use pixel_scrape.Dht.Node.{NodeId, distance, id_less}
use pixel_scrape.Dht.Node.Metric.{value, value-lt}

-- The distance of Kademlia: the exclusive or of two ids as a number, the highest byte first.
unfoldable pub metric : NodeId → NodeId → ℕ
metric (x ∷ xs) (y ∷ ys) = bit_xor x y * 2 ^ (8 * length xs) + metric xs ys
metric _ _ = 0

abbrev pub IsId : NodeId → Type 0
IsId xs = (length xs ≡ 20) × AreBytes xs

length-distance : (xs ys : NodeId) → length xs ≡ length ys → length (distance xs ys) ≡ length xs
unfolding distance
length-distance [] ys e = refl
length-distance (x ∷ xs) [] e = absurd (omega (arith, e))
length-distance (x ∷ xs) (y ∷ ys) e = ap suc (length-distance xs ys (omega (arith, e)))

distance-AreBytes : (xs ys : NodeId) → AreBytes xs → AreBytes ys → AreBytes (distance xs ys)
unfolding distance
distance-AreBytes [] ys h k = tt
distance-AreBytes (x ∷ xs) [] h k = tt
distance-AreBytes (x ∷ xs) (y ∷ ys) h k = (bit_xor-lt x y h.0 k.0, distance-AreBytes xs ys h.1 k.1)

value-distance : (xs ys : NodeId) → length xs ≡ length ys → value (distance xs ys) ≡ metric xs ys
unfolding value distance metric
value-distance [] ys e = refl
value-distance (x ∷ xs) [] e = absurd (omega (arith, e))
value-distance (x ∷ xs) (y ∷ ys) e =
    let rest : length xs ≡ length ys = omega (arith, e) in
    ap₂ (λ n v. bit_xor x y * 2 ^ (8 * n) + v) (length-distance xs ys rest)
      (value-distance xs ys rest)

-- A byte decides before those behind it.
value-head :
    (x y : ℕ) (xs ys : NodeId)
    → AreBytes xs
    → length xs ≡ length ys
    → x < y
    → value (x ∷ xs) < value (y ∷ ys)
unfolding value
value-head x y xs ys h e l =
    let place = 2 ^ (8 * length xs) in
    let same : 2 ^ (8 * length ys) ≡ place = ap (λ n. 2 ^ (8 * n)) (sym e) in
    let above : (x + 1) * place ≤ y * place = mul-le-mul_right place (omega (arith, l)) in
    let moved : y * 2 ^ (8 * length ys) ≡ y * place = ap (λ k. y * k) same in
    omega (arith, above, moved, value-lt xs h)

value-tail :
    (x y : ℕ) (xs ys : NodeId)
    → length xs ≡ length ys
    → x ≡ y
    → value xs ≤ value ys
    → value (x ∷ xs) ≤ value (y ∷ ys)
unfolding value
value-tail x y xs ys e same h =
    let front : x * 2 ^ (8 * length xs) ≡ y * 2 ^ (8 * length ys) =
      ap₂ (λ b n. b * 2 ^ (8 * n)) same e in
    omega (arith, front, h)

-- The lexicographic order is that of the numbers.
abbrev Decides : NodeId → NodeId → Type 0
Decides xs ys =
    (id_less xs ys ≡ true → value xs ≤ value ys) × (id_less xs ys ≡ false → value ys ≤ value xs)

id_less-Decides :
    (xs ys : NodeId) → AreBytes xs → AreBytes ys → length xs ≡ length ys → Decides xs ys
unfolding id_less
id_less-Decides [] [] h k e = (λ _. omega arith, λ _. omega arith)
id_less-Decides [] (y ∷ ys) h k e = absurd (omega (arith, e))
id_less-Decides (x ∷ xs) [] h k e = absurd (omega (arith, e))
id_less-Decides (x ∷ xs) (y ∷ ys) h k e =
    let tails : length xs ≡ length ys = omega (arith, e) in
    let rest = id_less-Decides xs ys h.1 k.1 tails in
    elim (Bool-cases (ltb x y)) [
      | inl l ↦
          let below = value-head x y xs ys h.1 tails (ltb→lt x y l) in
          rw l (λ _. omega (arith, below), λ f. absurd (cc f))
      | inr nl ↦ elim (Bool-cases (ltb y x)) [
        | inl g ↦
            let above = value-head y x ys xs k.1 (sym tails) (ltb→lt y x g) in
            rw (nl, g) (λ f. absurd (cc f), λ _. omega (arith, above))
        | inr ng ↦
            let same : x ≡ y = ground (arith, nl, ng) in
            rw (nl, ng)
              (
                λ t. value-tail x y xs ys tails same (rest.0 t),
                λ f. value-tail y x ys xs (sym tails) (sym same) (rest.1 f),
              )
      ]
    ]

-- The same of the distances of two ids from a third.
pub id_less-metric :
    (xs ys target : NodeId)
    → IsId xs
    → IsId ys
    → IsId target
    → (id_less (distance xs target) (distance ys target) ≡ true
        → metric xs target ≤ metric ys target)
      × (id_less (distance xs target) (distance ys target) ≡ false
          → metric ys target ≤ metric xs target)
id_less-metric xs ys target hx hy ht =
    let left : length xs ≡ length target = hx.0 ∙ sym ht.0 in
    let right : length ys ≡ length target = hy.0 ∙ sym ht.0 in
    let r =
      id_less-Decides (distance xs target) (distance ys target)
        (distance-AreBytes xs target hx.1 ht.1) (distance-AreBytes ys target hy.1 ht.1)
        (length-distance xs target left
          ∙ hx.0
          ∙ sym hy.0
          ∙ sym (length-distance ys target right)) in
    let at_xs = value-distance xs target left in
    let at_ys = value-distance ys target right in
    (λ t. omega (arith, r.0 t, at_xs, at_ys), λ f. omega (arith, r.1 f, at_xs, at_ys))
