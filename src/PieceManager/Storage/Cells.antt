-- ===== src/PieceManager/Storage/Cells.antt =====
-- The bytes of the files one by one, and what a write does to them.
use pixel_scrape.Base.{
  ℕ, zero, suc, ◌+◌, ◌-◌, ◌≤◌, ◌<◌, ◌≡◌, ◌≢◌, refl, sym, ap, subst, ◌∙◌, ◌⊎◌, inl, inr, true, false,
  some, List, [], ◌∷◌, ◌++◌, arith, Bool-cases, length, get_elem?, take, drop, resize, is_empty,
  length-append, length-resize, length-drop,
}
use pixel_scrape.Base.Bytes.{Bytes, equal, equal_self, equal→eq}
use pixel_scrape.PieceManager.Storage.{Disk, put_file, splice}

module _ {ℓ} {A : Type ℓ} where
  pub get_elem?-append_before :
      (xs ys : List A) (i : ℕ) → i < length xs → get_elem? (xs ++ ys) i ≡ get_elem? xs i
  get_elem?-append_before [] ys i h = absurd (omega arith)
  get_elem?-append_before (x ∷ xs) ys zero h = refl
  get_elem?-append_before (x ∷ xs) ys (suc i) h = get_elem?-append_before xs ys i (omega arith)

  pub get_elem?-append_after :
      (xs ys : List A) (i : ℕ) → get_elem? (xs ++ ys) (length xs + i) ≡ get_elem? ys i
  get_elem?-append_after [] ys i = ap (get_elem? ys) (omega arith)
  get_elem?-append_after (x ∷ xs) ys i =
      let e : suc (length xs) + i ≡ suc (length xs + i) = omega arith in
      ap (get_elem? (x ∷ xs ++ ys)) e ∙ get_elem?-append_after xs ys i

  pub get_elem?-of_drop : (n i : ℕ) (xs : List A) → get_elem? (drop n xs) i ≡ get_elem? xs (n + i)
  get_elem?-of_drop zero i xs = ap (get_elem? xs) (omega arith)
  get_elem?-of_drop (suc n) i [] = refl
  get_elem?-of_drop (suc n) i (x ∷ xs) =
      let e : suc (n + i) ≡ suc n + i = omega arith in
      get_elem?-of_drop n i xs ∙ ap (get_elem? (x ∷ xs)) e

  pub get_elem?-take : (n i : ℕ) (xs : List A) → i < n → get_elem? (take n xs) i ≡ get_elem? xs i
  get_elem?-take zero i xs h = absurd (omega arith)
  get_elem?-take (suc n) i [] h = refl
  get_elem?-take (suc n) zero (x ∷ xs) h = refl
  get_elem?-take (suc n) (suc i) (x ∷ xs) h = get_elem?-take n i xs (omega arith)

  pub get_elem?-resize :
      (n i : ℕ) (a : A) (xs : List A)
      → i < n
      → n ≤ length xs
      → get_elem? (resize n a xs) i ≡ get_elem? xs i
  get_elem?-resize zero i a xs h k = absurd (omega arith)
  get_elem?-resize (suc n) i a [] h k = absurd (omega arith)
  get_elem?-resize (suc n) zero a (x ∷ xs) h k = refl
  get_elem?-resize (suc n) (suc i) a (x ∷ xs) h k =
      get_elem?-resize n i a xs (omega arith) (omega arith)

is_empty-of_lt : (xs : Bytes) (t : ℕ) → t < length xs → is_empty xs ≡ false
is_empty-of_lt [] t h = absurd (omega arith)
is_empty-of_lt (x ∷ xs) t h = refl

-- A write inside a file replaces the bytes that it covers, and no others.
module _ (old : Bytes) (offset : ℕ) (new : Bytes) (fits : offset + length new ≤ length old) where
  behind : Bytes
  behind = drop (offset + length new) old

  splice_nothing : is_empty new ≡ true → splice old offset new ≡ old
  unfolding splice
  splice_nothing e = rw e

  splice_something :
      is_empty new ≡ false → splice old offset new ≡ resize offset 0 old ++ (new ++ behind)
  unfolding splice behind
  splice_something e = rw e

  length-before : length (resize offset 0 old) ≡ offset
  length-before = length-resize offset 0 old

  pub splice_written :
      (t : ℕ) → t < length new → get_elem? (splice old offset new) (offset + t) ≡ get_elem? new t
  splice_written t h =
      ap (λ xs. get_elem? xs (offset + t)) (splice_something (is_empty-of_lt new t h))
      ∙ ap (λ k. get_elem? (resize offset 0 old ++ (new ++ behind)) (k + t)) (sym length-before)
      ∙ get_elem?-append_after (resize offset 0 old) (new ++ behind) t
      ∙ get_elem?-append_before new behind t h

  kept_before : (o : ℕ) → o < offset → get_elem? (splice old offset new) o ≡ get_elem? old o
  kept_before o before = elim (Bool-cases (is_empty new)) [
    | inl nothing ↦ ap (λ xs. get_elem? xs o) (splice_nothing nothing)
    | inr something ↦
        ap (λ xs. get_elem? xs o) (splice_something something)
        ∙ get_elem?-append_before (resize offset 0 old) (new ++ behind) o
            (omega (arith, length-before))
        ∙ get_elem?-resize offset o 0 old before (omega arith)
  ]

  kept_after :
      (t : ℕ)
      → get_elem? (splice old offset new) (offset + length new + t)
        ≡ get_elem? old (offset + length new + t)
  unfolding behind
  kept_after t = elim (Bool-cases (is_empty new)) [
    | inl nothing ↦ ap (λ xs. get_elem? xs (offset + length new + t)) (splice_nothing nothing)
    | inr something ↦
        let here : offset + length new + t ≡ length (resize offset 0 old) + (length new + t) =
          omega (arith, length-before) in
        ap (λ xs. get_elem? xs (offset + length new + t)) (splice_something something)
        ∙ ap (get_elem? (resize offset 0 old ++ (new ++ behind))) here
        ∙ get_elem?-append_after (resize offset 0 old) (new ++ behind) (length new + t)
        ∙ get_elem?-append_after new behind t
        ∙ get_elem?-of_drop (offset + length new) t old
  ]

  pub splice_kept :
      (o : ℕ)
      → (o < offset) ⊎ (offset + length new ≤ o)
      → get_elem? (splice old offset new) o ≡ get_elem? old o
  splice_kept o (inl before) = kept_before o before
  splice_kept o (inr after) =
      let e : offset + length new + (o - (offset + length new)) ≡ o = omega arith in
      subst (λ k. get_elem? (splice old offset new) k ≡ get_elem? old k) e
        (kept_after (o - (offset + length new)))

  pub length-splice : length (splice old offset new) ≡ length old
  unfolding behind
  length-splice = elim (Bool-cases (is_empty new)) [
    | inl nothing ↦ ap length (splice_nothing nothing)
    | inr something ↦
        ap length (splice_something something)
        ∙ omega (
          arith,
          length-append (resize offset 0 old) (new ++ behind),
          length-append new behind,
          length-before,
          length-drop (offset + length new) old,
        )
  ]

pub put_file_self : (disk : Disk) (p xs : Bytes) → put_file disk p xs p ≡ some xs
unfolding put_file
put_file_self disk p xs = rw (equal_self p)

pub put_file_other : (disk : Disk) (p xs q : Bytes) → q ≢ p → put_file disk p xs q ≡ disk q
unfolding put_file
put_file_other disk p xs q ne = elim (Bool-cases (equal q p)) [
  | inl same ↦ absurd (ne (equal→eq q p same))
  | inr other ↦ rw other
]
