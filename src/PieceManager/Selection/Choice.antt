-- ===== src/PieceManager/Selection/Choice.antt =====
-- That `select_rarest_piece` chooses a rarest piece, of the highest priority among these.
use pixel_scrape.Base.{
  ℕ, zero, suc, ◌+◌, ◌≤◌, ◌<◌, ◌≡◌, refl, sym, ap, subst, ◌∙◌, ◌⊎◌, inl, inr, Bool, true, false,
  ◌&&◌, ◌||◌, Option, List, [], ◌∷◌, arith, ltb, ◌==◌, Bool-cases, length, get_or, replicate,
  length-replicate, get_or-replicate,
}
use native.Mathlib.Decide.{ℕ_discrete}
use pixel_scrape.PieceManager.{PieceManager}
use pixel_scrape.PieceManager.Selection.{
  size_max, add_bits, count_peers, availability, piece_priorities, is_candidate, Best, consider,
  scan, select_rarest_piece,
}

-- Piece `i` comes before piece `k`: fewer peers have it, or as many and it matters more, or it is
-- the same in both and stands earlier.
abbrev pub IsPreferred : (ℕ → ℕ) → (ℕ → ℕ) → ℕ → ℕ → Type 0
IsPreferred available priority i k =
    (available i < available k)
    ⊎ ((available i ≡ available k) × (priority k < priority i))
    ⊎ ((available i ≡ available k) × (priority k ≡ priority i) × (i ≤ k))

below_suc : (P : ℕ → Type 0) (n : ℕ) → ((k : ℕ) → k < n → P k) → P n → (k : ℕ) → k < suc n → P k
below_suc P n before here k h = elim (ℕ_discrete k n) [
  | yes e ↦ subst P (sym e) here
  | no ne ↦ before k (omega arith)
]

module _ (candidate : ℕ → Bool) (available priority : ℕ → ℕ) where
  -- What the loop has found among the first `n` pieces.
  pub data Found (n : ℕ) (best : Best) : Type 0 where
    nothing :
        best.best_index ≡ size_max
        → best.min_availability ≡ size_max
        → ((k : ℕ) → k < n → candidate k ≡ false)
        → Found n best
    piece :
        best.best_index < n
        → candidate best.best_index ≡ true
        → best.min_availability ≡ available best.best_index
        → best.max_priority ≡ priority best.best_index
        → ((k : ℕ) → k < n → candidate k ≡ true → IsPreferred available priority best.best_index k)
        → Found n best

  consider-Found :
      (n index fewest highest : ℕ)
      → available n < size_max
      → Found n (record { best_index = index; min_availability = fewest; max_priority = highest })
      → Found (suc n) (
          consider candidate available priority n
            (record { best_index = index; min_availability = fewest; max_priority = highest }))
  unfolding consider
  consider-Found n index fewest highest few (nothing e a none_of) =
      elim (Bool-cases (candidate n)) [
        | inl ok ↦
            let less : ltb (available n) fewest ≡ true = ground arith in
            rw (ok, less)
              (piece (omega arith) ok refl refl (
                below_suc (λ k. candidate k ≡ true → IsPreferred available priority n k) n
                  (λ k h c. absurd (cc (none_of k h, c)))
                  (λ _. inr (inr (refl, refl, omega arith)))))
        | inr not_ok ↦
            rw not_ok (nothing e a (below_suc (λ k. candidate k ≡ false) n none_of not_ok))
      ]
  consider-Found n index fewest highest few (piece inside ok a p first) =
      elim (Bool-cases (
        candidate n
        && (ltb (available n) fewest || ((available n == fewest) && ltb highest (priority n))))) [
          | inl better ↦
              let this : candidate n ≡ true = ground arith in
              rw better (
                piece (omega arith) this refl refl (
                  below_suc (λ k. candidate k ≡ true → IsPreferred available priority n k) n
                    (λ k h c. let old = first k h c in ground arith)
                    (λ _. inr (inr (refl, refl, omega arith)))))
          | inr worse ↦ rw worse (
              piece (omega arith) ok a p (
                below_suc (λ k. candidate k ≡ true → IsPreferred available priority index k) n first
                  (λ c. ground arith)))
        ]

  scan-Found :
      (left n : ℕ) (best : Best)
      → ((k : ℕ) → available k < size_max)
      → Found n best
      → Found (left + n) (scan candidate available priority left n best)
  unfolding scan
  scan-Found zero n best few found =
      let e : n ≡ 0 + n = omega arith in subst (λ k. Found k best) e found
  scan-Found (suc left) n best few found =
      let e : left + suc n ≡ suc left + n = omega arith in
      subst
        (λ k. Found k (
          scan candidate available priority left (suc n)
            (consider candidate available priority n best)))
        e
        (scan-Found left (suc n) (consider candidate available priority n best) few
          (consider-Found n best.best_index best.min_availability best.max_priority (few n) found))

  abbrev IsChosen : ℕ → ℕ → Type 0
  IsChosen n i =
      ((i ≡ size_max) × ((k : ℕ) → k < n → candidate k ≡ false))
      ⊎ ((i < n)
          × (candidate i ≡ true)
          × ((k : ℕ) → k < n → candidate k ≡ true → IsPreferred available priority i k))

  Found-IsChosen : (n : ℕ) (best : Best) → Found n best → IsChosen n best.best_index
  Found-IsChosen n best (nothing e _ none_of) = inl (e, none_of)
  Found-IsChosen n best (piece inside ok _ _ first) = inr (inside, ok, first)

  scan-IsChosen :
      (n : ℕ)
      → ((k : ℕ) → available k < size_max)
      → IsChosen n
          (scan candidate available priority n 0 (record {
            best_index = size_max;
            min_availability = size_max;
            max_priority = 0;
          })).best_index
  scan-IsChosen n few =
      let e : n + 0 ≡ n = omega arith in
      let start : Best = record {
        best_index = size_max;
        min_availability = size_max;
        max_priority = 0;
      } in
      Found-IsChosen n (scan candidate available priority n 0 start) (
        subst (λ k. Found k (scan candidate available priority n 0 start)) e
          (scan-Found n 0 start few (nothing refl refl (λ k h. absurd (omega arith)))))

-- No piece is counted for more peers than there are.
get_or-add_bits :
    (counts : List ℕ) (bits : List Bool) (i : ℕ)
    → (get_or counts i 0 ≤ get_or (add_bits counts bits) i 0)
      × (get_or (add_bits counts bits) i 0 ≤ suc (get_or counts i 0))
unfolding add_bits
get_or-add_bits [] bits i = (omega arith, omega arith)
get_or-add_bits (a ∷ counts) [] i = (omega arith, omega arith)
get_or-add_bits (a ∷ counts) (true ∷ bits) zero = (omega arith, omega arith)
get_or-add_bits (a ∷ counts) (false ∷ bits) zero = (omega arith, omega arith)
get_or-add_bits (a ∷ counts) (b ∷ bits) (suc i) = get_or-add_bits counts bits i

length-add_bits :
    (counts : List ℕ) (bits : List Bool) → length (add_bits counts bits) ≡ length counts
unfolding add_bits
length-add_bits [] bits = refl
length-add_bits (a ∷ counts) [] = refl
length-add_bits (a ∷ counts) (b ∷ bits) = ap suc (length-add_bits counts bits)

count_peers-bounds :
    (n : ℕ) (peers : List (List Bool)) (counts : List ℕ) (i : ℕ)
    → (length (count_peers n peers counts) ≡ length counts)
      × (get_or (count_peers n peers counts) i 0 ≤ length peers + get_or counts i 0)
unfolding count_peers
count_peers-bounds n [] counts i = (refl, omega arith)
count_peers-bounds n (bits ∷ peers) counts i = elim (Bool-cases (length bits == n)) [
  | inl fits ↦
      let (l, b) = count_peers-bounds n peers (add_bits counts bits) i in
      rw fits
        (omega (arith, length-add_bits counts bits), omega (arith, get_or-add_bits counts bits i))
  | inr other ↦ let (l, b) = count_peers-bounds n peers counts i in rw other (l, omega arith)
]

-- The choice: SIZE_MAX when no piece can be asked for, and otherwise the piece that comes first
-- among those that can.
pub select_rarest_piece-Found :
    (pm : PieceManager) (peers : List (List Bool)) (mask : Option (List Bool))
    → length peers < size_max
    → let n = length pm.metadata.piece_hashes in
      let i = select_rarest_piece pm peers mask in
      let counts = availability n peers in
      ((i ≡ size_max) × ((k : ℕ) → k < n → is_candidate pm peers mask k ≡ false))
      ⊎ ((i < n)
          × (is_candidate pm peers mask i ≡ true)
          × ((k : ℕ)
              → k < n
              → is_candidate pm peers mask k ≡ true
              → IsPreferred (λ j. get_or counts j 0) (λ j. get_or (piece_priorities pm) j 0) i k))
unfolding select_rarest_piece
select_rarest_piece-Found pm peers mask few =
    let n = length pm.metadata.piece_hashes in
    let sized : length (availability n peers) ≡ n =
      unfold availability in
      (count_peers-bounds n peers (replicate n 0) 0).0 ∙ length-replicate n 0 in
    subst
      (λ m.
        IsChosen (is_candidate pm peers mask) (λ j. get_or (availability n peers) j 0)
          (λ j. get_or (piece_priorities pm) j 0) n
          (scan (is_candidate pm peers mask) (λ j. get_or (availability n peers) j 0)
            (λ j. get_or (piece_priorities pm) j 0) m 0
            (record {
              best_index = size_max;
              min_availability = size_max;
              max_priority = 0;
            })).best_index)
      (sym sized)
      (scan-IsChosen (is_candidate pm peers mask) (λ j. get_or (availability n peers) j 0)
        (λ j. get_or (piece_priorities pm) j 0) n
        (λ k.
          unfold availability in
          omega
            (arith, (count_peers-bounds n peers (replicate n 0) k).1, get_or-replicate n k (zero))))
