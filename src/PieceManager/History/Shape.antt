-- ===== src/PieceManager/History/Shape.antt =====
-- The vectors of a piece manager keep the lengths that its indices rely on.
use pixel_scrape.Base.{
  some_eq, none-ne-some, ltb, leb, ==_iff, ◌-◌, ℕ, zero, suc, ◌+◌, ◌≡◌, refl, sym, subst, ◌∙◌, inl,
  inr, Bool, true, false, ◌&&◌, some, List, [], ◌∷◌, ◌==◌, Bool-cases, Option-cases, length, set,
  is_empty, length-set, length-resize, length-replicate, All, All-set, All-replicate, All-get_elem?,
}
use pixel_scrape.Base.Bytes.{Bytes}
use pixel_scrape.Torrent.{TorrentMetadata, TorrentFile}
use pixel_scrape.PieceManager.{
  PieceManager, DiskRequest, PieceDownload, Cursor, no_download, place_chunk, map_file, map_files,
  create, request_block, receive_block, store_block, verify_piece, load_state, take_request,
}
use pixel_scrape.PieceManager.Downloads.{
  IsShaped, request_block-Outcome, receive_block-Outcome, store_block-IsShaped,
}
use pixel_scrape.PieceManager.Verifying.{verify_piece-Outcome, take_request_lem}
use pixel_scrape.PieceManager.History.{Call, requests, receives, verifies, loads, takes, step}

pub record IsConsistent (pm : PieceManager) : Type 0 where
  pub have_sized : length pm.have_pieces ≡ length pm.metadata.piece_hashes
  pub downloads_sized : length pm.active_downloads ≡ length pm.metadata.piece_hashes
  pub mappings_sized : length pm.piece_file_mappings ≡ length pm.metadata.piece_hashes
  pub priorities_sized : length pm.file_priorities ≡ length pm.metadata.files
  pub shaped : All IsShaped pm.active_downloads

module _ (piece_length k size : ℕ) where
  length-place_chunk :
      (c : Cursor) (left b : ℕ)
      → length (place_chunk piece_length k size c left b).mappings ≡ length c.mappings
  unfolding place_chunk
  length-place_chunk c left b = elim (Bool-cases (leb piece_length (c.piece_offset + b))) [
    | inl e ↦ rw e (length-set c.mappings c.current_piece _)
    | inr e ↦ rw e (length-set c.mappings c.current_piece _)
  ]

  length-map_file :
      (fuel n : ℕ) (c : Cursor) (left : ℕ)
      → length (map_file fuel n piece_length k size c left).mappings ≡ length c.mappings
  unfolding map_file
  length-map_file zero n c left = refl
  length-map_file (suc fuel) n c left = elim (Bool-cases (ltb 0 left && ltb c.current_piece n)) [
    | inl e ↦ rw e (
        length-map_file fuel n (place_chunk piece_length k size c left _) (left - _)
        ∙ length-place_chunk c left _)
    | inr e ↦ rw e
  ]

length-map_files :
    (n piece_length k : ℕ) (fs : List TorrentFile) (c : Cursor)
    → length (map_files n piece_length k fs c).mappings ≡ length c.mappings
unfolding map_files
length-map_files n piece_length k [] c = refl
length-map_files n piece_length k (f ∷ fs) c =
    length-map_files n piece_length (suc k) fs _
    ∙ length-map_file piece_length k f.size (suc n) n c f.size

no_download-IsShaped : IsShaped no_download
no_download-IsShaped = record { requested = refl; received = refl; stored = refl }

pub create-IsConsistent :
    (m : TorrentMetadata) (priorities : List ℕ) → IsConsistent (create m priorities)
unfolding create
create-IsConsistent m priorities = record {
  have_sized = length-replicate _ false;
  downloads_sized = length-replicate _ no_download;
  mappings_sized = length-map_files _ m.piece_length 0 m.files _ ∙ length-replicate _ [];
  priorities_sized = elim (Bool-cases (is_empty priorities)) [
    | inl e ↦ rw e (length-replicate _ _)
    | inr e ↦ rw e (length-resize _ _ priorities)
  ];
  shaped = All-replicate IsShaped _ no_download no_download-IsShaped;
}

-- One download replaced by one of the right shape.
IsConsistent-set :
    (pm : PieceManager) (i : ℕ) (d : PieceDownload)
    → IsConsistent pm
    → IsShaped d
    → IsConsistent (record pm { active_downloads = set pm.active_downloads i d })
IsConsistent-set pm i d v s = record {
  have_sized = v.have_sized;
  downloads_sized = length-set pm.active_downloads i d ∙ v.downloads_sized;
  mappings_sized = v.mappings_sized;
  priorities_sized = v.priorities_sized;
  shaped = All-set IsShaped pm.active_downloads i d v.shaped s;
}

request_block-IsConsistent :
    (pm pm' : PieceManager) (i block size : ℕ) (done : Bool)
    → IsConsistent pm
    → request_block pm i block size ≡ some (pm', done)
    → IsConsistent pm'
request_block-IsConsistent pm pm' i block size done v e =
    elim (request_block-Outcome pm i block size e) [
      | inl same ↦ subst IsConsistent (sym same) v
      | inr (d, d', found, r, changed) ↦ subst IsConsistent (sym changed) (
          IsConsistent-set pm i d' v
            (r.shape (All-get_elem? IsShaped pm.active_downloads i d v.shaped found)))
    ]

receive_block-IsConsistent :
    (pm : PieceManager) (i begin : ℕ) (xs : Bytes)
    → IsConsistent pm
    → IsConsistent (receive_block pm i begin xs).0
receive_block-IsConsistent pm i begin xs v = elim (receive_block-Outcome pm i begin xs) [
  | inl same ↦ rw same v
  | inr (d, found, _, changed) ↦ rw changed (
      IsConsistent-set pm i (store_block d _ xs) v (
        store_block-IsShaped d _ xs
          (All-get_elem? IsShaped pm.active_downloads i d v.shaped found)))
]

verify_piece-IsConsistent :
    (junk : Bytes) (pm : PieceManager) (i : ℕ)
    → IsConsistent pm
    → IsConsistent (verify_piece junk pm i).0
verify_piece-IsConsistent junk pm i v = elim (verify_piece-Outcome junk pm i) [
  | inl (_, same) ↦ rw same v
  | inr (inl (d, _, _, _, taken)) ↦ rw taken (record {
    have_sized = length-set pm.have_pieces i true ∙ v.have_sized;
    downloads_sized = v.downloads_sized;
    mappings_sized = v.mappings_sized;
    priorities_sized = v.priorities_sized;
    shaped = v.shaped;
  })
  | inr (inr (d, _, _, _, thrown)) ↦
      rw thrown (IsConsistent-set pm i no_download v no_download-IsShaped)
]

load_state-IsConsistent :
    (pm : PieceManager) (bits : List Bool) → IsConsistent pm → IsConsistent (load_state pm bits)
unfolding load_state
load_state-IsConsistent pm bits v = elim (Bool-cases (length bits == length pm.have_pieces)) [
  | inl e ↦ rw e (record {
    have_sized = (==_iff _ _).0 e ∙ v.have_sized;
    downloads_sized = v.downloads_sized;
    mappings_sized = v.mappings_sized;
    priorities_sized = v.priorities_sized;
    shaped = v.shaped;
  })
  | inr e ↦ rw e v
]

take_request-IsConsistent :
    (pm : PieceManager) (r : DiskRequest) (pm' : PieceManager)
    → IsConsistent pm
    → take_request pm ≡ some (r, pm')
    → IsConsistent pm'
take_request-IsConsistent pm r pm' v e =
    subst IsConsistent (sym (take_request_lem pm r pm' e)) (record {
      have_sized = v.have_sized;
      downloads_sized = v.downloads_sized;
      mappings_sized = v.mappings_sized;
      priorities_sized = v.priorities_sized;
      shaped = v.shaped;
    })

-- Every call keeps a consistent piece manager consistent: a vector entry for each piece, and in
-- each download as many flags and stored blocks as blocks.
pub step-IsConsistent :
    (junk : Bytes) (pm pm' : PieceManager) (c : Call)
    → IsConsistent pm
    → step junk pm c ≡ some pm'
    → IsConsistent pm'
unfolding step
step-IsConsistent junk pm pm' (requests i block size) v e =
    elim (Option-cases (request_block pm i block size)) [
      | inl trapped ↦ none-ne-some (rw (trapped, step) at e)
      | inr ((pm'', done), ran) ↦
          subst IsConsistent (some_eq (rw (ran, step) at e))
            (request_block-IsConsistent pm pm'' i block size done v ran)
    ]
step-IsConsistent junk pm pm' (receives i begin xs) v e =
    subst IsConsistent (some_eq e) (receive_block-IsConsistent pm i begin xs v)
step-IsConsistent junk pm pm' (verifies i) v e =
    subst IsConsistent (some_eq e) (verify_piece-IsConsistent junk pm i v)
step-IsConsistent junk pm pm' (loads bits) v e =
    subst IsConsistent (some_eq e) (load_state-IsConsistent pm bits v)
step-IsConsistent junk pm pm' takes v e = elim (Option-cases (take_request pm)) [
  | inl idle ↦ subst IsConsistent (some_eq (rw (idle, step) at e)) v
  | inr ((r, pm''), taken) ↦
      subst IsConsistent (some_eq (rw (taken, step) at e))
        (take_request-IsConsistent pm r pm'' v taken)
]
