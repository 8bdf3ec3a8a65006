-- ===== src/PieceManager/DiskExamples.antt =====
-- The torrent of the other examples on a disk: pieces written, read, chosen and counted.
use pixel_scrape.Base.{
  ℕ, zero, suc, ◌+◌, ◌*◌, ◌<◌, ◌≡◌, ◌≢◌, ◌⊎◌, ap, All-get_elem?, some_eq, none-ne-some, Bool, none,
  length, get_elem?, refl, true, false, some, List, [], ◌∷◌, arith, get_or, All,
}
use pixel_scrape.Base.Bytes.{equal-ne, Bytes, codes, equal}
use pixel_scrape.Torrent.{TorrentFile}
use pixel_scrape.PieceManager.{PieceManager, calculate_file_mappings, create}
use pixel_scrape.PieceManager.Mapping.{total_size}
use pixel_scrape.PieceManager.Storage.{Disk, write_piece, read_piece, create_files}
use pixel_scrape.PieceManager.Storage.Flat.{ArePathsDistinct, IsAllocated}
use pixel_scrape.PieceManager.Storage.Pieces.{bytes_of}
use pixel_scrape.PieceManager.Storage.Refines.{
  Manages, byte_at, overwrite, write_piece-overwrite, read_piece-slice,
}
use pixel_scrape.PieceManager.Storage.RoundTrip.{read_piece-write_piece}
use pixel_scrape.PieceManager.Storage.Creation.{
  create_files-IsBlank, IsBlank-IsAllocated, byte_at-create_files,
}
use pixel_scrape.PieceManager.Selection.{
  scan, count_peers, add_bits, consider, is_allowed, is_fully_requested, size_max, availability,
  piece_priorities, is_candidate, select_rarest_piece,
}
use pixel_scrape.PieceManager.Selection.Choice.{IsPreferred, select_rarest_piece-Found}
use pixel_scrape.PieceManager.Examples.{torrent, finished}

ArePathsDistinct-cons :
    (f : TorrentFile) (fs : List TorrentFile)
    → All (λ g. f.path ≢ g.path) fs
    → ArePathsDistinct fs
    → ArePathsDistinct (f ∷ fs)
ArePathsDistinct-cons f fs other d zero zero g h e e' same = refl
ArePathsDistinct-cons f fs other d zero (suc j) g h e e' same =
    absurd (All-get_elem? (λ g. f.path ≢ g.path) fs j h other e' (cc (some_eq e, same)))
ArePathsDistinct-cons f fs other d (suc i) zero g h e e' same =
    absurd (All-get_elem? (λ g. f.path ≢ g.path) fs i g other e (cc (some_eq e', same)))
ArePathsDistinct-cons f fs other d (suc i) (suc j) g h e e' same = ap suc (d i j g h e e' same)

torrent-paths : ArePathsDistinct torrent.files
torrent-paths =
    let a : TorrentFile = record { path = codes "a"; size = 3; offset = some 0 } in
    let b : TorrentFile = record { path = codes "b"; size = 0; offset = some 3 } in
    let c : TorrentFile = record { path = codes "c"; size = 3; offset = some 3 } in
    ArePathsDistinct-cons a (b ∷ c ∷ [])
      (
        equal-ne (codes "a") (codes "b") (unfold equal in refl),
        (equal-ne (codes "a") (codes "c") (unfold equal in refl), tt),
      )
      (ArePathsDistinct-cons b (c ∷ [])
        (equal-ne (codes "b") (codes "c") (unfold equal in refl), tt)
        (ArePathsDistinct-cons c [] tt (λ i j f g e. none-ne-some e)))

finished-Manages : Manages finished
finished-Manages = record {
  torrent = record {
    some_length = omega arith;
    small_length = omega arith;
    few_pieces = omega arith;
    total = unfold total_size in refl;
    enough = omega arith;
    no_more = omega arith;
  };
  paths = torrent-paths;
  mapped = unfold calculate_file_mappings in refl;
}

-- A system on which every file can be made.
abbrev always : Bytes → Bool
always p = true

abbrev blank : Disk
blank = (create_files always always torrent.files (λ p. none)).0

blank-IsAllocated : IsAllocated torrent.files blank
blank-IsAllocated =
    IsBlank-IsAllocated torrent.files blank
      (create_files-IsBlank always always torrent.files (λ p. none) torrent-paths refl)

write_piece-overwrite_example :
    (disk' : Disk) × (write_piece finished blank 1 (8 ∷ 9 ∷ []) ≡ some (disk', true))
    × IsAllocated torrent.files disk'
    × ((g : ℕ) → byte_at torrent disk' g ≡ overwrite (byte_at torrent blank) (1 * 4) (8 ∷ 9 ∷ []) g)
write_piece-overwrite_example =
    write_piece-overwrite finished finished-Manages blank 1 (omega arith) (8 ∷ 9 ∷ []) (omega arith)
      blank-IsAllocated

read_piece-slice_example :
    (xs : Bytes) × (read_piece finished blank 0 ≡ some xs)
    × (length xs ≡ bytes_of torrent 0)
    × ((j : ℕ) → j < length xs → get_elem? xs j ≡ byte_at torrent blank (0 * 4 + j))
read_piece-slice_example =
    read_piece-slice finished finished-Manages blank 0 (omega arith) refl blank-IsAllocated

read_piece-write_piece_example :
    (disk' : Disk) × (write_piece finished blank 0 (1 ∷ 2 ∷ 3 ∷ 4 ∷ []) ≡ some (disk', true))
    × (read_piece finished disk' 0 ≡ some (1 ∷ 2 ∷ 3 ∷ 4 ∷ []))
    × ((k : ℕ) → k < 2 → k ≢ 0 → read_piece finished disk' k ≡ read_piece finished blank k)
read_piece-write_piece_example =
    read_piece-write_piece finished finished-Manages blank 0 (1 ∷ 2 ∷ 3 ∷ 4 ∷ []) (omega arith)
      (omega arith) refl blank-IsAllocated

byte_at-create_files_example :
    ((create_files always always torrent.files blank).1 ≡ true)
    × (byte_at torrent (create_files always always torrent.files blank).0 5 ≡ some 0)
byte_at-create_files_example =
    byte_at-create_files always always torrent blank 5 torrent-paths
      (unfold total_size in omega arith) refl

abbrev peers : List (List Bool)
peers = (true ∷ true ∷ []) ∷ (true ∷ false ∷ []) ∷ (true ∷ []) ∷ []

select_rarest_piece_value : select_rarest_piece (create torrent []) peers none ≡ 1
unfolding select_rarest_piece scan availability count_peers create add_bits consider is_candidate
    is_allowed is_fully_requested
select_rarest_piece_value = refl

select_rarest_piece-Found_example :
    let i = select_rarest_piece finished peers none in
    let counts = availability 2 peers in
    ((i ≡ size_max) × ((k : ℕ) → k < 2 → is_candidate finished peers none k ≡ false))
    ⊎ ((i < 2)
        × (is_candidate finished peers none i ≡ true)
        × ((k : ℕ)
            → k < 2
            → is_candidate finished peers none k ≡ true
            → IsPreferred
                (λ j. get_or counts j 0)
                (λ j. get_or (piece_priorities finished) j 0)
                i
                k))
select_rarest_piece-Found_example = select_rarest_piece-Found finished peers none (omega arith)

-- The first piece has come in, and is not verified.
abbrev received : PieceManager
received = record finished { have_pieces = false ∷ false ∷ []; disk_queue = [] }
