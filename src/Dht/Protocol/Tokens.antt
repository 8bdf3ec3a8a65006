-- ===== src/Dht/Protocol/Tokens.antt =====
-- src/dht/protocol.cpp: `TokenManager`, whose tokens let a node announce itself, and
-- `TransactionIDGenerator`.
use pixel_scrape.Base.{
  ℕ, zero, suc, ◌+◌, ◌-◌, ◌*◌, ◌/◌, ◌%◌, ◌≤◌, ◌<◌, ◌≡◌, ◌≢◌, refl, sym, ap, ◌∙◌, inl, inr, Bool,
  true, false, List, [], ◌∷◌, ◌++◌, arith, leb, if◌then◌else◌, Bool-cases, All, get_or,
}
use pixel_scrape.Base.Bytes.{Bytes, u32_mod, be32, equal, equal_self}
use pixel_scrape.Sha1.{hash}
use pixel_scrape.Dht.Node.{minute}

pub record TokenManager : Type 0 where
  pub current_secret : Bytes
  pub previous_secret : Bytes
  pub last_rotation : ℕ

-- `SHA1::hash`, whose object holds `junk` in its buffer.
module _ (junk : Bytes) where
  unfoldable pub compute_token : Bytes → Bytes → Bytes
  compute_token ip secret = hash junk (ip ++ secret)

  unfoldable pub generate_token : TokenManager → Bytes → Bytes
  generate_token t ip = compute_token ip t.current_secret

  unfoldable pub validate_token : TokenManager → Bytes → Bytes → Bool
  validate_token t token ip =
      if equal token (compute_token ip t.current_secret)
      then true
      else equal token (compute_token ip t.previous_secret)

-- A call at the time `now`, with twenty random bytes of the system.
unfoldable pub rotate_secrets : ℕ → Bytes → TokenManager → TokenManager
rotate_secrets now random t =
    if leb 5 ((now - t.last_rotation) / minute)
    then record { current_secret = random; previous_secret = t.current_secret; last_rotation = now }
    else t

-- The calls one after the other.
unfoldable pub rotations : List (ℕ × Bytes) → TokenManager → TokenManager
rotations [] t = t
rotations ((now, random) ∷ rest) t = rotations rest (rotate_secrets now random t)

-- The counter as it is returned, and as it is left.
unfoldable pub generate : ℕ → Bytes × ℕ
generate counter = (be32 counter, (counter + 1) % u32_mod)

-- The id that comes after `n` others.
unfoldable pub nth_id : ℕ → ℕ → Bytes
unfolding generate
nth_id counter zero = (generate counter).0
nth_id counter (suc n) = nth_id (generate counter).1 n

abbrev pub IsBefore : ℕ → ℕ × Bytes → Type 0
IsBefore limit (now, _) = now < limit

-- No call rotates before five minutes are over.
rotations_early :
    (calls : List (ℕ × Bytes)) (t : TokenManager)
    → All (IsBefore (t.last_rotation + 5 * minute)) calls
    → rotations calls t ≡ t
unfolding rotations rotate_secrets
rotations_early [] t early = refl
rotations_early ((now, random) ∷ rest) t early =
    let short : leb 5 ((now - t.last_rotation) / minute) ≡ false = ground (arith, early.0) in
    rw short (rotations_early rest t early.1)

IsBefore-later :
    (limit limit' : ℕ) (calls : List (ℕ × Bytes))
    → limit ≤ limit'
    → All (IsBefore limit) calls
    → All (IsBefore limit') calls
IsBefore-later limit limit' [] h early = tt
IsBefore-later limit limit' (c ∷ calls) h early =
    (omega (arith, early.0), IsBefore-later limit limit' calls h early.1)

module _ (junk : Bytes) where
  -- After one rotation the secret of a token is the previous one.
  validate_token-rotated :
      (t : TokenManager) (ip : Bytes) (secret : Bytes)
      → t.previous_secret ≡ secret
      → validate_token junk t (compute_token junk ip secret) ip ≡ true
  unfolding validate_token
  validate_token-rotated t ip secret same =
      elim (Bool-cases
        (equal (compute_token junk ip secret) (compute_token junk ip t.current_secret))) [
          | inl now ↦ rw now refl
          | inr before ↦ rw before (
              ap (λ s. equal (compute_token junk ip secret) (compute_token junk ip s)) same
              ∙ equal_self (compute_token junk ip secret))
        ]

  validate_token-fresh :
      (t : TokenManager) (ip : Bytes) → validate_token junk t (generate_token junk t ip) ip ≡ true
  unfolding validate_token generate_token
  validate_token-fresh t ip = rw (equal_self (compute_token junk ip t.current_secret)) refl

  -- A token is accepted for at least ten minutes from the last rotation before it was made, whenever
  -- `rotate_secrets` is called in this time, and whatever the new secrets are.
  pub validate_token-rotations :
      (calls : List (ℕ × Bytes)) (t : TokenManager) (ip : Bytes)
      → All (IsBefore (t.last_rotation + 10 * minute)) calls
      → validate_token junk (rotations calls t) (generate_token junk t ip) ip ≡ true
  unfolding rotations
  validate_token-rotations [] t ip early = validate_token-fresh t ip
  validate_token-rotations ((now, random) ∷ rest) t ip early =
      elim (Bool-cases (leb 5 ((now - t.last_rotation) / minute))) [
        | inr soon ↦
            let same : rotate_secrets now random t ≡ t = unfold rotate_secrets in rw soon refl in
            ap (λ u. validate_token junk (rotations rest u) (generate_token junk t ip) ip) same
            ∙ validate_token-rotations rest t ip early.1
        | inl due ↦
            let fresh : TokenManager = record {
              current_secret = random;
              previous_secret = t.current_secret;
              last_rotation = now;
            } in
            let turned : rotate_secrets now random t ≡ fresh =
              unfold rotate_secrets in rw due refl in
            let kept : rotations rest (rotate_secrets now random t) ≡ fresh =
              ap (rotations rest) turned
              ∙ rotations_early rest fresh (
                  IsBefore-later (t.last_rotation + 10 * minute) (now + 5 * minute) rest
                    (ground arith) early.1) in
            ap (λ u. validate_token junk u (generate_token junk t ip) ip) kept
            ∙ (unfold generate_token in validate_token-rotated fresh ip t.current_secret refl)
      ]

-- The ids count up.
nth_id-be32 :
    (counter n : ℕ) → counter < u32_mod → nth_id counter n ≡ be32 ((counter + n) % u32_mod)
unfolding nth_id
nth_id-be32 counter zero h = ap be32 (omega arith)
nth_id-be32 counter (suc n) h =
    nth_id-be32 ((counter + 1) % u32_mod) n (omega arith) ∙ ap be32 (omega arith)

be32_inj : (a b : ℕ) → a < u32_mod → b < u32_mod → be32 a ≡ be32 b → a ≡ b
unfolding be32
be32_inj a b h k e =
    let first = ap (λ xs. get_or xs 0 0) e in
    let second = ap (λ xs. get_or xs 1 0) e in
    let third = ap (λ xs. get_or xs 2 0) e in let fourth = ap (λ xs. get_or xs 3 0) e in omega arith

-- No two of fewer than 2 ^ 32 ids one after the other are the same.
pub nth_id_inj :
    (counter m n : ℕ)
    → counter < u32_mod
    → m < n
    → n < u32_mod
    → nth_id counter m ≢ nth_id counter n
nth_id_inj counter m n h k small e =
    let same =
      be32_inj ((counter + m) % u32_mod) ((counter + n) % u32_mod) (omega arith) (omega arith)
        (sym (nth_id-be32 counter m h) ∙ e ∙ nth_id-be32 counter n h) in
    absurd (omega arith)
