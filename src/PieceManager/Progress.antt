-- ===== src/PieceManager/Progress.antt =====
-- src/storage/piece_manager.cpp: `get_total_downloaded_bytes`, the figure that the user sees.
use pixel_scrape.Base.{
  ℕ, zero, suc, ◌+◌, ◌-◌, ◌*◌, ◌%◌, ◌≡◌, sym, ap, ◌∙◌, inl, inr, Bool, true, false, some, List, [],
  ◌∷◌, ◌++◌, arith, ◌==◌, if◌then◌else◌, length, get_elem?, set, length-set,
}
use pixel_scrape.Base.Bytes.{Bytes, size_mod}
use pixel_scrape.Torrent.{TorrentMetadata}
use pixel_scrape.PieceManager.{PieceManager, PieceDownload, DiskRequest, concat, verify_piece}
use pixel_scrape.PieceManager.Verifying.{verify_piece-Outcome}

-- The bytes counted for piece `i` of `n` when it is there.
unfoldable pub counted_size : TorrentMetadata → ℕ → ℕ → ℕ
counted_size m n i =
    if i == (n + size_mod - 1) % size_mod
    then (m.total_length + size_mod - (n - 1) * m.piece_length % size_mod) % size_mod
    else m.piece_length

-- The first loop, from piece `i` on.
unfoldable pub completed_bytes : TorrentMetadata → ℕ → ℕ → List Bool → ℕ
completed_bytes m n i [] = 0
completed_bytes m n i (have ∷ rest) =
    (if have then counted_size m n i else 0) + completed_bytes m n (suc i) rest

unfoldable pub block_bytes : List Bytes → ℕ
block_bytes [] = 0
block_bytes (b ∷ bs) = length b + block_bytes bs

-- The second loop.
unfoldable pub partial_bytes : List PieceDownload → ℕ
unfolding block_bytes
partial_bytes [] = 0
partial_bytes (d ∷ ds) = block_bytes d.block_data + partial_bytes ds

-- A sum of type `size_t`.
unfoldable pub get_total_downloaded_bytes : PieceManager → ℕ
get_total_downloaded_bytes pm =
    (completed_bytes pm.metadata (length pm.have_pieces) 0 pm.have_pieces
      + partial_bytes pm.active_downloads)
    % size_mod

completed_bytes-set :
    (m : TorrentMetadata) (n b i : ℕ) (have : List Bool)
    → get_elem? have i ≡ some false
    → completed_bytes m n b (set have i true)
      ≡ completed_bytes m n b have + counted_size m n (b + i)
unfolding completed_bytes
completed_bytes-set m n b i [] e = cc
completed_bytes-set m n b zero (h ∷ have) e =
    let missing : h ≡ false = cc in
    let same : b ≡ b + 0 = omega arith in rw missing (omega (arith, ap (counted_size m n) same))
completed_bytes-set m n b (suc i) (h ∷ have) e =
    let same : suc b + i ≡ b + suc i = omega arith in
    omega (arith, completed_bytes-set m n (suc b) i have e, ap (counted_size m n) same)

marked_total :
    (pm : PieceManager) (i : ℕ) (queue : List DiskRequest)
    → get_elem? pm.have_pieces i ≡ some false
    → get_total_downloaded_bytes
        (record pm { have_pieces = set pm.have_pieces i true; disk_queue = queue })
      ≡ (get_total_downloaded_bytes pm + counted_size pm.metadata (length pm.have_pieces) i)
        % size_mod
unfolding get_total_downloaded_bytes
marked_total pm i queue missing = rw (length-set pm.have_pieces i true) (
    let more = completed_bytes-set pm.metadata (length pm.have_pieces) 0 i pm.have_pieces missing in
    let same : 0 + i ≡ i = omega arith in
    omega (arith, ap (counted_size pm.metadata (length pm.have_pieces)) same))

-- A piece that is verified is counted once more, with its blocks still counted: the figure grows
-- though no byte has come in.
pub get_total_downloaded_bytes-verify_piece :
    (junk : Bytes) (pm pm' : PieceManager) (i : ℕ)
    → get_elem? pm.have_pieces i ≡ some false
    → verify_piece junk pm i ≡ (pm', true)
    → get_total_downloaded_bytes pm'
      ≡ (get_total_downloaded_bytes pm + counted_size pm.metadata (length pm.have_pieces) i)
        % size_mod
get_total_downloaded_bytes-verify_piece junk pm pm' i missing e =
    elim (verify_piece-Outcome junk pm i) [
      | inl (_, r) ↦ absurd (ground arith)
      | inr (inr (_, _, _, _, r)) ↦ absurd (ground arith)
      | inr (inl (d, _, _, _, r)) ↦
          ap get_total_downloaded_bytes (ap (λ q. q.0) (sym e ∙ r))
          ∙ marked_total pm i
              (pm.disk_queue ++ record { piece_index = i; payload = concat d.block_data } ∷ [])
              missing
    ]
