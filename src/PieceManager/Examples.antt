-- ===== src/PieceManager/Examples.antt =====
-- A torrent of six bytes in two pieces over three files, the middle one empty.
use pixel_scrape.Base.{
  ℕ, ◌+◌, ◌*◌, ◌≡◌, refl, true, false, Option, some, List, [], ◌∷◌, arith, get_or, replicate, All,
}
use pixel_scrape.Base.Bytes.{Bytes, codes, equal}
use pixel_scrape.Sha1.{hash, compress}
use pixel_scrape.Torrent.{TorrentFile, TorrentMetadata}
use pixel_scrape.PieceManager.{
  PieceManager, FileMapping, no_download, calculate_file_mappings, create, request_block,
  receive_block, verify_piece, prepare_download, piece_size, start_download, mark_requested,
}
use pixel_scrape.PieceManager.Mapping.{file_at, locate}
use pixel_scrape.PieceManager.Mapping.Cover.{calculate_file_mappings-locate}
use pixel_scrape.PieceManager.History.{Call, requests, receives, verifies, IsLoad, step, run}
use pixel_scrape.PieceManager.History.Shape.{IsConsistent, create-IsConsistent, step-IsConsistent}
use pixel_scrape.PieceManager.History.Backing.{
  IsKept, IsQueueVerified, run-create-IsKept, run-create-IsQueueVerified,
}

abbrev pub junk : Bytes
junk = replicate 64 0

abbrev file : Bytes → ℕ → Option ℕ → TorrentFile
file path size offset = record { path = path; size = size; offset = offset }

abbrev pub torrent : TorrentMetadata
torrent = record {
  announce = [];
  announce_list = [];
  info_hash = [];
  name = codes "six";
  piece_length = 4;
  piece_hashes =
      (18 ∷ 218 ∷ 218 ∷ 31 ∷ 255 ∷ 77 ∷ 71 ∷ 135 ∷ 173 ∷ 227 ∷ 51 ∷ 49 ∷ 71 ∷ 32 ∷ 44 ∷ 59 ∷ 68 ∷ 62
        ∷ 55 ∷ 111 ∷ [])
      ∷ (240 ∷ 131 ∷ 196 ∷ 4 ∷ 118 ∷ 249 ∷ 138 ∷ 4 ∷ 64 ∷ 67 ∷ 167 ∷ 177 ∷ 212 ∷ 115 ∷ 65 ∷ 57 ∷ 38
          ∷ 22 ∷ 229 ∷ 172 ∷ [])
      ∷ [];
  total_length = 6;
  files =
      file (codes "a") 3 (some 0) ∷ file (codes "b") 0 (some 3) ∷ file (codes "c") 3 (some 3) ∷ [];
}

abbrev history : List Call
history =
    requests 0 0 16384
    ∷ receives 0 0 (1 ∷ 2 ∷ 3 ∷ 4 ∷ [])
    ∷ verifies 0
    ∷ requests 1 0 16384
    ∷ receives 1 0 (9 ∷ 9 ∷ [])
    ∷ verifies 1
    ∷ []

abbrev part : ℕ → ℕ → ℕ → FileMapping
part file_index file_offset size = record {
  file_index = file_index;
  file_offset = file_offset;
  size = size;
}

-- The first piece is there, and the second had wrong data, which are gone.
abbrev pub finished : PieceManager
finished = record {
  metadata = torrent;
  file_priorities = 1 ∷ 1 ∷ 1 ∷ [];
  have_pieces = true ∷ false ∷ [];
  active_downloads =
      record {
        blocks_requested = true ∷ [];
        blocks_received = true ∷ [];
        block_data = (1 ∷ 2 ∷ 3 ∷ 4 ∷ []) ∷ [];
        total_blocks = 1;
      }
      ∷ no_download
      ∷ [];
  piece_file_mappings = (part 0 0 3 ∷ part 2 0 1 ∷ []) ∷ (part 2 1 2 ∷ []) ∷ [];
  disk_queue = record { piece_index = 0; payload = 1 ∷ 2 ∷ 3 ∷ 4 ∷ [] } ∷ [];
}

history-All : All (λ c. ¬ IsLoad c) history
history-All = ((λ e. e), ((λ e. e), ((λ e. e), ((λ e. e), ((λ e. e), ((λ e. e), tt))))))

history_runs : run junk (create torrent []) history ≡ some finished
unfolding run step create request_block prepare_download piece_size start_download mark_requested
    receive_block verify_piece hash compress equal
history_runs = refl

calculate_file_mappings-locate_example :
    locate (get_or (calculate_file_mappings torrent) 1 []) 1 ≡ file_at 0 torrent.files (1 * 4 + 1)
calculate_file_mappings-locate_example =
    calculate_file_mappings-locate torrent 1 1 (omega arith) (omega arith) (omega arith)
      (omega arith)

step-IsConsistent_example : IsConsistent (receive_block (create torrent []) 0 0 (1 ∷ [])).0
step-IsConsistent_example =
    step-IsConsistent junk (create torrent []) (receive_block (create torrent []) 0 0 (1 ∷ [])).0
      (receives 0 0 (1 ∷ [])) (create-IsConsistent torrent []) (unfold step in refl)

run-create-IsKept_example : IsKept junk finished
run-create-IsKept_example =
    run-create-IsKept junk torrent [] history finished history-All history_runs

run-create-IsQueueVerified_example : IsQueueVerified junk finished
run-create-IsQueueVerified_example =
    run-create-IsQueueVerified junk torrent [] history finished history_runs
