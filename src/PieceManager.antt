-- ===== src/PieceManager.antt =====
-- src/storage/piece_manager.cpp and include/piece_manager.hpp: which blocks of which pieces are
-- asked for, stored, verified and queued for the disk. Each method runs under the object's lock,
-- and is a function from the state to the new state and its result.
pub mod Mapping
pub mod Downloads
pub mod Verifying
pub mod Storage
pub mod Selection
pub mod Progress
pub mod History
mod Examples
mod DiskExamples
use pixel_scrape.Base.{
  ℕ, zero, suc, ◌+◌, ◌-◌, ◌*◌, ◌/◌, ◌%◌, min, Bool, true, false, not, ◌&&◌, Option, none, some,
  List, [], ◌∷◌, ◌++◌, map, ltb, leb, ◌==◌, if◌then◌else◌, length, get_elem?, get_or, set,
  replicate, resize, all, is_empty,
}
use pixel_scrape.Base.Bytes.{Bytes, size_mod, equal}
use pixel_scrape.Sha1.{hash}
use pixel_scrape.Torrent.{TorrentMetadata, TorrentFile}

pub record PieceDownload : Type 0 where
  pub blocks_requested : List Bool
  pub blocks_received : List Bool
  pub block_data : List Bytes
  pub total_blocks : ℕ

-- A part of a piece that lies in one file.
pub record FileMapping : Type 0 where
  pub file_index : ℕ
  pub file_offset : ℕ
  pub size : ℕ

-- A queued `DiskRequest::WRITE`, the only kind that the program queues.
pub record DiskRequest : Type 0 where
  pub piece_index : ℕ
  pub payload : Bytes

pub record PieceManager : Type 0 where
  pub metadata : TorrentMetadata
  pub file_priorities : List ℕ
  pub have_pieces : List Bool
  pub active_downloads : List PieceDownload
  pub piece_file_mappings : List (List FileMapping)
  pub disk_queue : List DiskRequest

-- `PieceDownload{}`.
abbrev pub no_download : PieceDownload
no_download = record {
  blocks_requested = [];
  blocks_received = [];
  block_data = [];
  total_blocks = 0;
}

-- The state of `calculate_file_mappings`.
pub record Cursor : Type 0 where
  pub mappings : List (List FileMapping)
  pub current_piece : ℕ
  pub piece_offset : ℕ

-- `bytes_in_this_piece`, where `left` bytes of the file remain.
unfoldable pub chunk_size : ℕ → Cursor → ℕ → ℕ
chunk_size piece_length c left = min left ((piece_length + size_mod - c.piece_offset) % size_mod)

-- The rest of a turn: `bytes` of the file go into the current piece.
unfoldable pub place_chunk : ℕ → ℕ → ℕ → Cursor → ℕ → ℕ → Cursor
place_chunk piece_length file_index file_size c left bytes =
    let mapping : FileMapping = record {
      file_index = file_index;
      file_offset = file_size - left;
      size = bytes;
    } in
    let mappings =
      set c.mappings c.current_piece (get_or c.mappings c.current_piece [] ++ mapping ∷ []) in
    let offset = c.piece_offset + bytes in
    if leb piece_length offset
    then record { mappings = mappings; current_piece = c.current_piece + 1; piece_offset = 0 }
    else record { mappings = mappings; current_piece = c.current_piece; piece_offset = offset }

-- The `while` loop over one file, on fuel: each turn ends the file or a piece.
unfoldable pub map_file : ℕ → ℕ → ℕ → ℕ → ℕ → Cursor → ℕ → Cursor
unfolding chunk_size place_chunk
map_file zero pieces piece_length file_index file_size c left = c
map_file (suc fuel) pieces piece_length file_index file_size c left =
    let bytes = chunk_size piece_length c left in
    let rest =
      map_file fuel pieces piece_length file_index file_size
        (place_chunk piece_length file_index file_size c left bytes) (left - bytes) in
    if ltb 0 left && ltb c.current_piece pieces then rest else c

-- The loop over the files from the one numbered `i`.
unfoldable pub map_files : ℕ → ℕ → ℕ → List TorrentFile → Cursor → Cursor
unfolding map_file
map_files pieces piece_length i [] c = c
map_files pieces piece_length i (f ∷ fs) c =
    map_files pieces piece_length (suc i) fs
      (map_file (suc pieces) pieces piece_length i f.size c f.size)

unfoldable pub calculate_file_mappings : TorrentMetadata → List (List FileMapping)
unfolding map_files
calculate_file_mappings m =
    let pieces = length m.piece_hashes in
    (map_files pieces m.piece_length 0 m.files
      (record { mappings = replicate pieces []; current_piece = 0; piece_offset = 0 })).mappings

-- The constructor, without the creation of the files and the start of the disk thread.
unfoldable pub create : TorrentMetadata → List ℕ → PieceManager
unfolding calculate_file_mappings
create m priorities = record {
  metadata = m;
  file_priorities =
      if is_empty priorities
      then replicate (length m.files) 1
      else resize (length m.files) 0 priorities;
  have_pieces = replicate (length m.piece_hashes) false;
  active_downloads = replicate (length m.piece_hashes) no_download;
  piece_file_mappings = calculate_file_mappings m;
  disk_queue = [];
}

-- The size of a piece; `none` is the division by zero of a torrent whose piece length is 0.
unfoldable pub piece_size : TorrentMetadata → ℕ → Option ℕ
piece_size m i =
    if i == (length m.piece_hashes + size_mod - 1) % size_mod
    then if m.piece_length == 0
      then none
      else if m.total_length % m.piece_length == 0
      then some m.piece_length
      else some (m.total_length % m.piece_length)
    else some m.piece_length

-- The block counts of a piece of `size` bytes.
unfoldable pub start_download : PieceDownload → ℕ → ℕ → PieceDownload
start_download d size block_size =
    let blocks = (size + block_size + size_mod - 1) % size_mod / block_size in
    record {
      blocks_requested = resize blocks false d.blocks_requested;
      blocks_received = resize blocks false d.blocks_received;
      block_data = resize blocks [] d.block_data;
      total_blocks = blocks;
    }

-- The download as `request_block` finds it after setting it up; `none` is a division by zero.
unfoldable pub prepare_download : TorrentMetadata → ℕ → ℕ → PieceDownload → Option PieceDownload
prepare_download m i block_size d =
    if is_empty d.blocks_received
    then elim (piece_size m i) [
      | none ↦ none
      | some size ↦ if block_size == 0 then none else some (start_download d size block_size)
    ]
    else some d

-- The rest of `request_block`, on the download `d` of the piece.
unfoldable pub mark_requested : PieceManager → ℕ → ℕ → PieceDownload → PieceManager × Bool
mark_requested pm i block d =
    let kept = record pm { active_downloads = set pm.active_downloads i d } in
    let marked = record pm {
      active_downloads =
          set pm.active_downloads i
            (record d { blocks_requested = set d.blocks_requested block true });
    } in
    elim (get_elem? d.blocks_requested block) [
      | none ↦ (kept, false)
      | some true ↦ (kept, false)
      | some false ↦ (marked, true)
    ]

unfoldable pub request_block : PieceManager → ℕ → ℕ → ℕ → Option (PieceManager × Bool)
request_block pm i block block_size = elim (get_elem? pm.active_downloads i) [
  | none ↦ some (pm, false)
  | some d ↦ elim (prepare_download pm.metadata i block_size d) [
    | none ↦ none
    | some d' ↦ some (mark_requested pm i block d')
  ]
]

abbrev pub block_length : ℕ
block_length = 16384

-- A received block stored in the download of its piece.
unfoldable pub store_block : PieceDownload → ℕ → Bytes → PieceDownload
store_block d block xs = record d {
  blocks_received = set d.blocks_received block true;
  block_data = set d.block_data block xs;
}

unfoldable pub receive_block : PieceManager → ℕ → ℕ → Bytes → PieceManager × Bool
unfolding store_block
receive_block pm i begin xs = elim (get_elem? pm.active_downloads i) [
  | none ↦ (pm, false)
  | some d ↦ elim (get_elem? d.blocks_received (begin / block_length)) [
    | none ↦ (pm, false)
    | some true ↦ (pm, false)
    | some false ↦ (
      record pm {
        active_downloads = set pm.active_downloads i (store_block d (begin / block_length) xs);
      },
      true,
    )
  ]
]

-- `std::all_of` over a flag vector that is not empty.
abbrev pub all_set : List Bool → Bool
all_set flags = not (is_empty flags) && all (λ b. b) flags

unfoldable pub is_piece_complete : PieceManager → ℕ → Bool
is_piece_complete pm i = elim (get_elem? pm.active_downloads i) [
  | none ↦ false
  | some d ↦ all_set d.blocks_received
]

unfoldable pub is_piece_fully_requested : PieceManager → ℕ → Bool
is_piece_fully_requested pm i = elim (get_elem? pm.active_downloads i) [
  | none ↦ false
  | some d ↦ if get_or pm.have_pieces i false then true else all_set d.blocks_requested
]

-- All blocks of a piece in order.
unfoldable pub concat : List Bytes → Bytes
concat [] = []
concat (b ∷ bs) = b ++ concat bs

-- `SHA1::hash`, whose object holds `junk` in its buffer.
module _ (junk : Bytes) where
  unfoldable pub verify_piece : PieceManager → ℕ → PieceManager × Bool
  unfolding concat
  verify_piece pm i = elim (get_elem? pm.active_downloads i) [
    | none ↦ (pm, false)
    | some d ↦
        let piece_data = concat d.block_data in
        if not (all_set d.blocks_received)
        then (pm, false)
        else if equal (hash junk piece_data) (get_or pm.metadata.piece_hashes i [])
        then (
          record pm {
            have_pieces = set pm.have_pieces i true;
            disk_queue = pm.disk_queue ++ record { piece_index = i; payload = piece_data } ∷ [];
          },
          true,
        )
        else (record pm { active_downloads = set pm.active_downloads i no_download }, false)
  ]

unfoldable pub load_state : PieceManager → List Bool → PieceManager
load_state pm bitfield =
    if length bitfield == length pm.have_pieces then record pm { have_pieces = bitfield } else pm

-- `disk_worker` takes the oldest request.
unfoldable pub take_request : PieceManager → Option (DiskRequest × PieceManager)
take_request pm = elim pm.disk_queue [
  | [] ↦ none
  | r ∷ rest ↦ some (r, record pm { disk_queue = rest })
]

-- `std::count` of the pieces that are there.
unfoldable pub count_set : List Bool → ℕ
count_set [] = 0
count_set (b ∷ bs) = let rest = count_set bs in if b then suc rest else rest

unfoldable pub get_completed_pieces : PieceManager → ℕ
unfolding count_set
get_completed_pieces pm = count_set pm.have_pieces
