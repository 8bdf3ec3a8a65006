-- ===== src/PieceManager/Storage.antt =====
-- src/storage/piece_manager.cpp: `write_piece`, `read_piece` and the creation of the files. The
-- disk gives the content of each file of the download directory by its path; `none` is a file that
-- cannot be opened.
pub mod Cells
pub mod Flat
pub mod Loops
pub mod Pieces
pub mod Refines
pub mod RoundTrip
pub mod Creation
use pixel_scrape.Base.{
  ℕ, ◌+◌, ◌-◌, Bool, true, false, Option, none, some, List, [], ◌∷◌, ◌++◌, ltb, length, get_elem?,
  get_or, take, drop, replicate, resize, is_empty, not, if◌then◌else◌,
}
use pixel_scrape.Base.Bytes.{Bytes, equal}
use pixel_scrape.Torrent.{TorrentFile}
use pixel_scrape.PieceManager.{PieceManager, FileMapping, piece_size}

abbrev pub Disk : Type 0
Disk = Bytes → Option Bytes

unfoldable pub put_file : Disk → Bytes → Bytes → Disk
put_file disk path content p = if equal p path then some content else disk p

-- `seekp(offset)` and `write`: a gap behind the end of the file is filled with zeros.
unfoldable pub splice : Bytes → ℕ → Bytes → Bytes
splice old offset new =
    if is_empty new then old else resize offset 0 old ++ (new ++ drop (offset + length new) old)

-- The loop of `write_piece`, on the data from the offset on: the disk that it leaves and its
-- result. `none` is undefined behaviour: a mapping to no file, or a read behind the data.
unfoldable pub write_mappings :
    List TorrentFile → Disk → List FileMapping → Bytes → Option (Disk × Bool)
write_mappings files disk [] payload = some (disk, true)
write_mappings files disk (m ∷ ms) payload = elim (get_elem? files m.file_index) [
  | none ↦ none
  | some f ↦ elim (disk f.path) [
    | none ↦ some (disk, false)
    | some old ↦ elim (ltb (length payload) m.size) [
      | true ↦ none
      | false ↦
          write_mappings files
            (put_file disk f.path (splice old m.file_offset (take m.size payload))) ms
            (drop m.size payload)
    ]
  ]
]

unfoldable pub write_piece : PieceManager → Disk → ℕ → Bytes → Option (Disk × Bool)
write_piece pm disk i payload = elim (get_elem? pm.piece_file_mappings i) [
  | none ↦ none
  | some ms ↦ write_mappings pm.metadata.files disk ms payload
]

-- How the loop of `read_piece` ends: undefined behaviour (a mapping to no file, or bytes stored
-- behind the buffer), the early return of nothing, or the bytes of the buffer.
pub data Reading : Type 0 where
  overruns : Reading
  fails : Reading
  reads : Bytes → Reading

unfoldable pub append_reading : Bytes → Reading → Reading
append_reading xs overruns = overruns
append_reading xs fails = fails
append_reading xs (reads ys) = reads (xs ++ ys)

-- The loop of `read_piece`, with `room` bytes left in its buffer, which is zero at the start.
unfoldable pub read_mappings : List TorrentFile → Disk → List FileMapping → ℕ → Reading
read_mappings files disk [] room = reads (replicate room 0)
read_mappings files disk (m ∷ ms) room = elim (get_elem? files m.file_index) [
  | none ↦ overruns
  | some f ↦ elim (disk f.path) [
    | none ↦ fails
    | some content ↦
        let bytes = take m.size (drop m.file_offset content) in
        elim (ltb room (length bytes)) [
          | true ↦ overruns
          | false ↦ elim (ltb (length bytes) m.size) [
            | true ↦ fails
            | false ↦ append_reading bytes (read_mappings files disk ms (room - m.size))
          ]
        ]
  ]
]

-- `none` is undefined behaviour.
unfoldable pub read_piece : PieceManager → Disk → ℕ → Option Bytes
read_piece pm disk i =
    if get_or pm.have_pieces i false
    then elim (piece_size pm.metadata i) [
      | none ↦ none
      | some size ↦ elim (get_elem? pm.piece_file_mappings i) [
        | none ↦ none
        | some ms ↦ elim (read_mappings pm.metadata.files disk ms size) [
          | overruns ↦ none
          | fails ↦ some []
          | reads xs ↦ some xs
        ]
      ]
    ]
    else some []

-- Whether the system opens the file at a path for writing, and whether it takes what is written.
module _ (opens writes : Bytes → Bool) where
  -- A file as the constructor makes it: it is opened, which truncates it, and a zero is put at its
  -- last place. The disk that is left, and whether no exception is thrown.
  unfoldable pub create_file : TorrentFile → Disk → Disk × Bool
  create_file f disk =
      let truncated = put_file disk f.path [] in
      if not (opens f.path)
      then (disk, false)
      else if not (ltb 0 f.size)
      then (truncated, true)
      else if writes f.path
      then (put_file truncated f.path (splice [] (f.size - 1) (0 ∷ [])), true)
      else (truncated, false)

  -- The loop of the constructor, which an exception ends.
  unfoldable pub create_files : List TorrentFile → Disk → Disk × Bool
  unfolding create_file
  create_files [] disk = (disk, true)
  create_files (f ∷ fs) disk =
      let r = create_file f disk in let rest = create_files fs r.0 in if r.1 then rest else r
