-- ===== src/PieceManager/Downloads.antt =====
-- The methods that change a download, by the cases of what they do.
use pixel_scrape.Base.{
  ℕ, ◌/◌, ◌≡◌, refl, sym, ap, subst, ◌∙◌, ◌⊎◌, inl, inr, Bool, true, false, none, some, [], arith,
  Bool-cases, Option-cases, length, get_elem?, set, is_empty, length-set, length-resize,
}
use pixel_scrape.Base.Bytes.{Bytes}
use pixel_scrape.Torrent.{TorrentMetadata}
use pixel_scrape.PieceManager.{
  PieceManager, PieceDownload, start_download, prepare_download, mark_requested, request_block,
  store_block, receive_block, piece_size, block_length,
}

-- The three vectors of a download have an entry for each block.
pub record IsShaped (d : PieceDownload) : Type 0 where
  pub requested : length d.blocks_requested ≡ d.total_blocks
  pub received : length d.blocks_received ≡ d.total_blocks
  pub stored : length d.block_data ≡ d.total_blocks

-- A download as `request_block` may leave it: what was received of a download that had been set up
-- stays, and the vectors keep one length.
pub record Requested (d d' : PieceDownload) : Type 0 where
  pub keeps :
      is_empty d.blocks_received ≡ false
      → (d'.blocks_received ≡ d.blocks_received) × (d'.block_data ≡ d.block_data)
  pub shape : IsShaped d → IsShaped d'

Requested-refl : (d : PieceDownload) → Requested d d
Requested-refl d = record { keeps = λ _. (refl, refl); shape = λ s. s }

start_download-Requested :
    (d : PieceDownload) (size block_size : ℕ)
    → is_empty d.blocks_received ≡ true
    → Requested d (start_download d size block_size)
unfolding start_download
start_download-Requested d size block_size e = record {
  keeps = λ h. absurd (ground (arith, h));
  shape = λ _. record {
    requested = length-resize _ false d.blocks_requested;
    received = length-resize _ false d.blocks_received;
    stored = length-resize _ [] d.block_data;
  };
}

prepare_download-cases :
    (m : TorrentMetadata) (i size : ℕ) (d d' : PieceDownload)
    → prepare_download m i size d ≡ some d'
    → (d' ≡ d)
      ⊎ ((bytes : ℕ) × (is_empty d.blocks_received ≡ true) × (d' ≡ start_download d bytes size))
unfolding prepare_download
prepare_download-cases m i size d d' e = elim (Option-cases (piece_size m i)) [
  | inl trapped ↦ inl (ground arith)
  | inr (bytes, known) ↦ elim (Bool-cases (is_empty d.blocks_received)) [
    | inl fresh ↦ inr (bytes, fresh, ground arith)
    | inr old ↦ inl (ground arith)
  ]
]

prepare_download-Requested :
    (m : TorrentMetadata) (i size : ℕ) (d d' : PieceDownload)
    → prepare_download m i size d ≡ some d'
    → Requested d d'
prepare_download-Requested m i size d d' e = elim (prepare_download-cases m i size d d' e) [
  | inl same ↦ subst (Requested d) (sym same) (Requested-refl d)
  | inr (bytes, fresh, started) ↦
      subst (Requested d) (sym started) (start_download-Requested d bytes size fresh)
]

-- What `request_block` does to the state: nothing, or one download is set up or marked.
abbrev pub RequestOutcome : PieceManager → ℕ → PieceManager → Type 0
RequestOutcome pm i pm' =
    (pm' ≡ pm)
    ⊎ ((d d' : PieceDownload) × (get_elem? pm.active_downloads i ≡ some d)
        × Requested d d'
        × (pm' ≡ record pm { active_downloads = set pm.active_downloads i d' }))

Requested-mark :
    (d d' : PieceDownload) (block : ℕ)
    → Requested d d'
    → Requested d (record d' { blocks_requested = set d'.blocks_requested block true })
Requested-mark d d' block r = record {
  keeps = r.keeps;
  shape = λ s.
      let s' = r.shape s in
      record {
        requested = length-set d'.blocks_requested block true ∙ s'.requested;
        received = s'.received;
        stored = s'.stored;
      };
}

mark_requested-cases :
    (pm : PieceManager) (i block : ℕ) (d : PieceDownload)
    → ((mark_requested pm i block d).0
        ≡ record pm { active_downloads = set pm.active_downloads i d })
      ⊎ ((mark_requested pm i block d).0 ≡ record pm {
        active_downloads =
            set pm.active_downloads i
              (record d { blocks_requested = set d.blocks_requested block true });
      })
unfolding mark_requested
mark_requested-cases pm i block d = ground arith

mark_requested-Outcome :
    (pm : PieceManager) (i block : ℕ) (d d' : PieceDownload)
    → get_elem? pm.active_downloads i ≡ some d
    → Requested d d'
    → RequestOutcome pm i (mark_requested pm i block d').0
mark_requested-Outcome pm i block d d' e r = elim (mark_requested-cases pm i block d') [
  | inl kept ↦ inr (d, d', e, r, kept)
  | inr marked ↦ inr (
    d,
    record d' { blocks_requested = set d'.blocks_requested block true },
    e,
    Requested-mark d d' block r,
    marked,
  )
]

request_block_marks :
    (pm : PieceManager) (i block size : ℕ) {pm' : PieceManager} {done : Bool} (d d' : PieceDownload)
    → get_elem? pm.active_downloads i ≡ some d
    → prepare_download pm.metadata i size d ≡ some d'
    → request_block pm i block size ≡ some (pm', done)
    → (mark_requested pm i block d').0 ≡ pm'
unfolding request_block
request_block_marks pm i block size {pm'} {done} d d' found ready e =
    let e' = rw (request_block, found, ready) at e in
    ap (λ o. elim o [ none ↦ pm | some r ↦ r.0 ]) e'

pub request_block-Outcome :
    (pm : PieceManager) (i block size : ℕ) {pm' : PieceManager} {done : Bool}
    → request_block pm i block size ≡ some (pm', done)
    → RequestOutcome pm i pm'
request_block-Outcome pm i block size {pm'} e =
    elim (Option-cases (get_elem? pm.active_downloads i)) [
      | inl missing ↦ inl (unfold request_block in ground arith)
      | inr (d, found) ↦ elim (Option-cases (prepare_download pm.metadata i size d)) [
        | inl trapped ↦ absurd (unfold request_block in ground arith)
        | inr (d', ready) ↦
            subst (RequestOutcome pm i) (request_block_marks pm i block size d d' found ready e) (
              mark_requested-Outcome pm i block d d' found
                (prepare_download-Requested pm.metadata i size d d' ready))
      ]
    ]

-- What `receive_block` does: nothing, or one block that was missing is stored.
abbrev pub ReceiveOutcome : PieceManager → ℕ → ℕ → Bytes → PieceManager × Bool → Type 0
ReceiveOutcome pm i block xs r =
    (r ≡ (pm, false))
    ⊎ ((d : PieceDownload) × (get_elem? pm.active_downloads i ≡ some d)
        × (get_elem? d.blocks_received block ≡ some false)
        × (r ≡ (
          record pm { active_downloads = set pm.active_downloads i (store_block d block xs) },
          true,
        )))

pub receive_block-Outcome :
    (pm : PieceManager) (i begin : ℕ) (xs : Bytes)
    → ReceiveOutcome pm i (begin / block_length) xs (receive_block pm i begin xs)
receive_block-Outcome pm i begin xs = elim (Option-cases (get_elem? pm.active_downloads i)) [
  | inl missing ↦ inl (unfold receive_block in ground arith)
  | inr (d, found) ↦ elim (Option-cases (get_elem? d.blocks_received (begin / block_length))) [
    | inl outside ↦ inl (unfold receive_block in ground arith)
    | inr (true, held) ↦ inl (unfold receive_block in ground arith)
    | inr (false, free) ↦ inr (d, found, free, unfold receive_block in ground arith)
  ]
]

pub store_block-IsShaped :
    (d : PieceDownload) (block : ℕ) (xs : Bytes) → IsShaped d → IsShaped (store_block d block xs)
unfolding store_block
store_block-IsShaped d block xs s = record {
  requested = s.requested;
  received = length-set d.blocks_received block true ∙ s.received;
  stored = length-set d.block_data block xs ∙ s.stored;
}
