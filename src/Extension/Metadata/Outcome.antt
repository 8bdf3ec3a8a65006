-- ===== src/Extension/Metadata/Outcome.antt =====
-- What the metadata exchange can come to.
use pixel_scrape.Base.{
  ℕ, ◌≡◌, refl, sym, ap, subst, ◌∙◌, ◌⊎◌, inl, inr, Bool, true, false, Option, none, some, List, [],
  ◌∷◌, arith, ◌==◌, if◌then◌else◌, Bool-cases, Option-cases, length, set, all, is_empty, All,
}
use pixel_scrape.Base.Bytes.{Bytes, equal→eq}
use pixel_scrape.Sha1.{hash}
use pixel_scrape.Extension.Metadata.{
  MetadataExchange, Effect, sends, completes, new_exchange, verify_metadata, accept,
  finish_assembly,
}

abbrev pub all_received : MetadataExchange → Bool
all_received x = all (λ b. b) x.piece_status

module _ (junk : Bytes) where
  -- What is handed out as the metadata has the torrent's hash.
  abbrev pub IsRight : Bytes → Effect → Type 0
  IsRight info_hash (sends _ _) = Unit
  IsRight info_hash (completes xs) = hash junk xs ≡ info_hash

  -- A complete state holds all pieces, and data with the torrent's hash and the size agreed on.
  pub record IsSound (info_hash : Bytes) (x : MetadataExchange) : Type 0 where
    pub same_hash : x.info_hash ≡ info_hash
    pub verified : x.metadata_complete ≡ true → hash junk x.complete_metadata ≡ info_hash
    pub sized : x.metadata_complete ≡ true → x.metadata_size ≡ some (length x.complete_metadata)
    pub whole : x.metadata_complete ≡ true → all_received x ≡ true

  abbrev pub Sound : Bytes → MetadataExchange × List Effect → Type 0
  Sound info_hash (x, effects) = IsSound info_hash x × All (IsRight info_hash) effects

  pub new_exchange-IsSound : (info_hash : Bytes) → IsSound info_hash (new_exchange info_hash)
  unfolding new_exchange
  new_exchange-IsSound info_hash = record {
    same_hash = refl;
    verified = λ e. absurd (ground arith);
    sized = λ e. absurd (ground arith);
    whole = λ e. absurd (ground arith);
  }

  -- A state that is not complete is sound by its hash.
  pub incomplete-IsSound :
      (info_hash : Bytes) (x : MetadataExchange)
      → x.info_hash ≡ info_hash
      → x.metadata_complete ≡ false
      → IsSound info_hash x
  incomplete-IsSound info_hash x same part = record {
    same_hash = same;
    verified = λ e. absurd (ground arith);
    sized = λ e. absurd (ground arith);
    whole = λ e. absurd (ground arith);
  }

  -- What `finish_assembly` does: nothing, the data kept but not complete, or completion.
  abbrev pub Assembled : Bytes → MetadataExchange → MetadataExchange × List Effect → Type 0
  Assembled buffer x r =
      (r ≡ (x, []))
      ⊎ (r ≡ (record x { complete_metadata = buffer }, []))
      ⊎ ((hash junk buffer ≡ x.info_hash)
          × (x.metadata_size ≡ some (length buffer))
          × (r ≡ (
            record x { complete_metadata = buffer; metadata_complete = true },
            if x.callback_set then completes buffer ∷ [] else [],
          )))

  verify_metadata→hash :
      (x : MetadataExchange)
      → verify_metadata junk x ≡ true
      → hash junk x.complete_metadata ≡ x.info_hash
  unfolding verify_metadata
  verify_metadata→hash x e = elim (Bool-cases (is_empty x.complete_metadata)) [
    | inl nothing ↦ absurd (ground arith)
    | inr something ↦ equal→eq _ _ (ground arith)
  ]

  accept-Assembled :
      (buffer : Bytes) (size : ℕ) (x : MetadataExchange)
      → x.metadata_size ≡ some size
      → Assembled buffer x (accept junk buffer size x)
  unfolding accept
  accept-Assembled buffer size x known = elim (Bool-cases (length buffer == size)) [
    | inr other ↦ inl (rw other)
    | inl fits ↦
        elim (Bool-cases (verify_metadata junk (record x { complete_metadata = buffer }))) [
          | inr wrong ↦ inr (inl (rw (fits, wrong)))
          | inl right ↦ inr (
              inr (
                verify_metadata→hash (record x { complete_metadata = buffer }) right,
                known ∙ ap some (ground arith),
                rw (fits, right),
              ))
        ]
  ]

  pub finish_assembly-Assembled :
      (buffer : Bytes) (x : MetadataExchange) → Assembled buffer x (finish_assembly junk buffer x)
  finish_assembly-Assembled buffer x = elim (Option-cases x.metadata_size) [
    | inl unknown ↦ inl (by_size none unknown)
    | inr (size, known) ↦
        subst (Assembled buffer x) (sym (by_size (some size) known))
          (accept-Assembled buffer size x known)
  ]
    where
      by_size :
          (o : Option ℕ)
          → x.metadata_size ≡ o
          → finish_assembly junk buffer x
            ≡ elim o [ none ↦ (x, []) | some n ↦ accept junk buffer n x ]
      by_size o e =
          unfold finish_assembly in
          ap (λ o. elim o [ none ↦ (x, []) | some n ↦ accept junk buffer n x ]) e

  -- The state after a piece came in, with all pieces there.
  pub Assembled-Sound :
      (info_hash buffer : Bytes) (x : MetadataExchange) (r : MetadataExchange × List Effect)
      → x.info_hash ≡ info_hash
      → x.metadata_complete ≡ false
      → all_received x ≡ true
      → Assembled buffer x r
      → Sound info_hash r
  Assembled-Sound info_hash buffer x r same part whole (inl e) =
      subst (Sound info_hash) (sym e) (incomplete-IsSound info_hash x same part, tt)
  Assembled-Sound info_hash buffer x r same part whole (inr (inl e)) =
      subst (Sound info_hash) (sym e)
        (incomplete-IsSound info_hash (record x { complete_metadata = buffer }) same part, tt)
  Assembled-Sound info_hash buffer x r same part whole (inr (inr (hashed, sized, e))) =
      subst (Sound info_hash) (sym e) (
        record {
          same_hash = same;
          verified = λ _. hashed ∙ same;
          sized = λ _. sized;
          whole = λ _. whole;
        },
        told,
      )
    where
      told : All (IsRight info_hash) (if x.callback_set then completes buffer ∷ [] else [])
      told = elim (Bool-cases x.callback_set) [
        | inl set ↦ rw set (hashed ∙ same, tt)
        | inr unset ↦ rw unset tt
      ]
