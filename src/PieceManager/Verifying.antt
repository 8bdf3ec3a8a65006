-- ===== src/PieceManager/Verifying.antt =====
-- `verify_piece`, `load_state` and the disk queue, by the cases of what they do.
use pixel_scrape.Base.{
  ℕ, ◌≡◌, ◌≢◌, ◌⊎◌, inl, inr, Bool, true, false, some, List, [], ◌∷◌, ◌++◌, arith, ◌==◌, Bool-cases,
  Option-cases, length, get_elem?, get_or, set,
}
use pixel_scrape.Base.Bytes.{Bytes, equal, equal→eq, equal-ne}
use pixel_scrape.Sha1.{hash}
use pixel_scrape.PieceManager.{
  PieceManager, DiskRequest, take_request, load_state, PieceDownload, is_piece_complete,
  verify_piece, concat, no_download, all_set,
}

module _ (junk : Bytes) where
  -- What `verify_piece` does: nothing to an incomplete piece; a complete one is taken and queued
  -- for the disk if its hash is the expected one, and else thrown away.
  abbrev pub VerifyOutcome : PieceManager → ℕ → PieceManager × Bool → Type 0
  VerifyOutcome pm i r =
      ((is_piece_complete pm i ≡ false) × (r ≡ (pm, false)))
      ⊎ ((d : PieceDownload) × (get_elem? pm.active_downloads i ≡ some d)
          × (all_set d.blocks_received ≡ true)
          × (hash junk (concat d.block_data) ≡ get_or pm.metadata.piece_hashes i [])
          × (r ≡ (
            record pm {
              have_pieces = set pm.have_pieces i true;
              disk_queue =
                  pm.disk_queue ++ record { piece_index = i; payload = concat d.block_data } ∷ [];
            },
            true,
          )))
      ⊎ ((d : PieceDownload) × (get_elem? pm.active_downloads i ≡ some d)
          × (all_set d.blocks_received ≡ true)
          × (hash junk (concat d.block_data) ≢ get_or pm.metadata.piece_hashes i [])
          × (r ≡ (record pm { active_downloads = set pm.active_downloads i no_download }, false)))

  pub verify_piece-Outcome :
      (pm : PieceManager) (i : ℕ) → VerifyOutcome pm i (verify_piece junk pm i)
  unfolding is_piece_complete verify_piece
  verify_piece-Outcome pm i = elim (Option-cases (get_elem? pm.active_downloads i)) [
    | inl missing ↦ inl (rw (missing, is_piece_complete), rw (missing, verify_piece))
    | inr (d, found) ↦ elim (Bool-cases (all_set d.blocks_received)) [
      | inr part ↦ inl (rw (found, is_piece_complete, part), rw (found, verify_piece, part))
      | inl whole ↦
          elim (Bool-cases
            (equal (hash junk (concat d.block_data)) (get_or pm.metadata.piece_hashes i []))) [
              | inl same ↦
                  inr (
                    inl (d, found, whole, equal→eq _ _ same, rw (found, verify_piece, whole, same)))
              | inr other ↦ inr (
                  inr (
                    d,
                    found,
                    whole,
                    (λ e. equal-ne _ _ other e),
                    rw (found, verify_piece, whole, other),
                  ))
            ]
    ]
  ]

-- The disk thread takes the front of the queue and leaves the rest.
pub take_request-queue :
    (pm : PieceManager) (r : DiskRequest) (pm' : PieceManager)
    → take_request pm ≡ some (r, pm')
    → pm.disk_queue ≡ r ∷ pm'.disk_queue
unfolding take_request
take_request-queue pm r pm' e = ground arith

pub take_request_lem :
    (pm : PieceManager) (r : DiskRequest) (pm' : PieceManager)
    → take_request pm ≡ some (r, pm')
    → pm' ≡ record pm { disk_queue = pm'.disk_queue }
unfolding take_request
take_request_lem pm r pm' e = ground arith

pub load_state-cases :
    (pm : PieceManager) (bits : List Bool)
    → (load_state pm bits ≡ pm) ⊎ (load_state pm bits ≡ record pm { have_pieces = bits })
unfolding load_state
load_state-cases pm bits = elim (Bool-cases (length bits == length pm.have_pieces)) [
  | inl e ↦ inr (rw e)
  | inr e ↦ inl (rw e)
]
