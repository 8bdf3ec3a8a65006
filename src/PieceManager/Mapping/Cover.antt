-- ===== src/PieceManager/Mapping/Cover.antt =====
-- `calculate_file_mappings` as a whole.
use pixel_scrape.Base.{
  ℕ, ◌+◌, ◌*◌, ◌≤◌, ◌<◌, ◌≡◌, sym, ap, subst, ◌∙◌, ◌⊎◌, Option, none, List, [], arith, length,
  get_or, replicate, length-replicate, get_or-replicate,
}
use native.Mathlib.Decide.{ℕ_discrete, dec_lt}
use pixel_scrape.Base.Bytes.{size_mod}
use pixel_scrape.Torrent.{TorrentMetadata, TorrentFile}
use pixel_scrape.PieceManager.{FileMapping, Cursor, map_files, calculate_file_mappings}
use pixel_scrape.PieceManager.Mapping.{
  locate, file_at, total_size, locate_end, file_at_end, file_at_after,
}
use pixel_scrape.PieceManager.Mapping.Chunk.{position, Covers, AreParts, sum_sizes_nil}
use pixel_scrape.PieceManager.Mapping.Loops.{map_files-Ended}

Covers-start :
    (n pl : ℕ) (spot : ℕ → Option (ℕ × ℕ))
    → 0 < pl
    → Covers n pl spot (record { mappings = replicate n []; current_piece = 0; piece_offset = 0 })
Covers-start n pl spot pos = record {
  sized = length-replicate n [];
  below = pos;
  past = λ i j hi _ _. absurd (omega arith);
  here = λ j _ hj. absurd (omega arith);
  part = λ _. rw (get_or-replicate {A = List FileMapping} n 0 []) sum_sizes_nil;
  later = λ i _. get_or-replicate n i [];
  sizes =
      λ i _. rw (get_or-replicate {A = List FileMapping} n i []) (tt, omega (arith, sum_sizes_nil));
}

pub row_le : (a b pl : ℕ) → a < b → a * pl + pl ≤ b * pl
row_le a b pl h = grind arith

-- Behind the cursor the pieces hold nothing, and the files have come to an end.
locate_behind :
    (n pl i j : ℕ) (fs : List TorrentFile) (c : Cursor)
    → Covers n pl (file_at 0 fs) c
    → (n ≤ c.current_piece) ⊎ (position pl c ≡ total_size fs)
    → i < n
    → j < pl
    → c.current_piece ≤ i
    → (i ≡ c.current_piece → c.piece_offset ≤ j)
    → locate (get_or c.mappings i []) j ≡ file_at 0 fs (i * pl + j)
locate_behind n pl i j fs c v outcome hi hj after rest =
    let total : total_size fs ≤ i * pl + j = elim (ℕ_discrete i c.current_piece) [
      | yes e ↦ omega (arith, ap (λ k. k * pl) e, rest e)
      | no ne ↦ omega (arith, row_le c.current_piece i pl (omega arith), v.below)
    ] in
    nothing ∙ sym (file_at_end 0 fs (i * pl + j) total)
  where
    locate_nil : locate [] j ≡ none
    locate_nil = locate_end [] j (omega (arith, sum_sizes_nil))

    nothing : locate (get_or c.mappings i []) j ≡ none
    nothing = elim (ℕ_discrete i c.current_piece) [
      | yes e ↦
          subst (λ k. locate (get_or c.mappings k []) j ≡ none) (sym e)
            (locate_end (get_or c.mappings c.current_piece []) j
              (omega (arith, v.part (omega arith), rest e)))
      | no ne ↦ rw (v.later i (omega arith)) locate_nil
    ]

locate_reached :
    (n pl i j : ℕ) (fs : List TorrentFile) (c : Cursor)
    → Covers n pl (file_at 0 fs) c
    → (n ≤ c.current_piece) ⊎ (position pl c ≡ total_size fs)
    → i < n
    → j < pl
    → locate (get_or c.mappings i []) j ≡ file_at 0 fs (i * pl + j)
locate_reached n pl i j fs c v outcome hi hj = elim (dec_lt i c.current_piece) [
  | yes past ↦ v.past i j past hi hj
  | no not_past ↦ elim (ℕ_discrete i c.current_piece) [
    | no ne ↦ locate_behind n pl i j fs c v outcome hi hj (omega arith) (λ e. absurd (ne e))
    | yes e ↦ elim (dec_lt j c.piece_offset) [
      | yes in_part ↦
          subst (λ k. locate (get_or c.mappings k []) j ≡ file_at 0 fs (k * pl + j)) (sym e)
            (v.here j (omega arith) in_part)
      | no not_here ↦ locate_behind n pl i j fs c v outcome hi hj (omega arith) (λ _. omega arith)
    ]
  ]
]

-- The state when all files are mapped.
module _ (m : TorrentMetadata) (pos : 0 < m.piece_length) (small : m.piece_length < size_mod) where
  start : Cursor
  start = record {
    mappings = replicate (length m.piece_hashes) [];
    current_piece = 0;
    piece_offset = 0;
  }

  finish : Cursor
  finish = map_files (length m.piece_hashes) m.piece_length 0 m.files start

  finish-Covers :
      Covers (length m.piece_hashes) m.piece_length (file_at 0 m.files) finish
      × ((length m.piece_hashes ≤ finish.current_piece)
          ⊎ (position m.piece_length finish ≡ position m.piece_length start + total_size m.files))
  unfolding start finish
  finish-Covers =
      map_files-Ended (length m.piece_hashes) m.piece_length (file_at 0 m.files) small 0 m.files
        start (Covers-start (length m.piece_hashes) m.piece_length (file_at 0 m.files) pos)
        (λ gs f hs o e h.
          ap (λ p. file_at 0 m.files p) (omega arith)
          ∙ ap (λ fs. file_at 0 fs (total_size gs + o)) e
          ∙ file_at_after 0 o gs hs f h)

  pub length-calculate_file_mappings : length (calculate_file_mappings m) ≡ length m.piece_hashes
  unfolding calculate_file_mappings start finish
  length-calculate_file_mappings = finish-Covers.0.sized

  pub calculate_file_mappings-AreParts :
      (i : ℕ)
      → i < length m.piece_hashes
      → AreParts m.piece_length (get_or (calculate_file_mappings m) i [])
  unfolding calculate_file_mappings start finish
  calculate_file_mappings-AreParts i hi = finish-Covers.0.sizes i hi

-- Each byte of each piece is mapped to the file, and the place in it, where the joined files have
-- that byte of the torrent: byte `j` of piece `i` at position `i * piece_length + j`, and to none
-- behind the last file. So no byte is mapped twice, left out or put elsewhere.
pub calculate_file_mappings-locate :
    (m : TorrentMetadata) (i j : ℕ)
    → 0 < m.piece_length
    → m.piece_length < size_mod
    → i < length m.piece_hashes
    → j < m.piece_length
    → locate (get_or (calculate_file_mappings m) i []) j
      ≡ file_at 0 m.files (i * m.piece_length + j)
unfolding calculate_file_mappings start finish
calculate_file_mappings-locate m i j pos small hi hj =
    let (v, outcome) = finish-Covers m pos small in
    locate_reached (length m.piece_hashes) m.piece_length i j m.files (finish m pos small) v
      (omega arith) hi hj
