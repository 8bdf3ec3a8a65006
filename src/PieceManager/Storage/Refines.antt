-- ===== src/PieceManager/Storage/Refines.antt =====
-- `write_piece` and `read_piece` against what they promise: the torrent is one array of bytes, of
-- which a piece is a slice.
use pixel_scrape.Base.{
  ℕ, ◌+◌, ◌-◌, ◌*◌, ◌%◌, ◌≤◌, ◌<◌, min, ◌≡◌, ◌≢◌, refl, sym, ap, subst, ◌∙◌, inl, inr, true, false,
  ◌&&◌, Option, none, some, [], arith, ltb, leb, if◌then◌else◌, Bool-cases, Option-cases, length,
  get_elem?, get_or, ◌==◌, get_elem?-of_lt,
}
use native.Mathlib.Decide.{dec_lt}
use pixel_scrape.Base.Bytes.{Bytes, size_mod}
use pixel_scrape.Torrent.{TorrentMetadata}
use pixel_scrape.PieceManager.{PieceManager, calculate_file_mappings, piece_size}
use pixel_scrape.PieceManager.Mapping.{file_at, locate}
use pixel_scrape.PieceManager.Mapping.Cover.{row_le, length-calculate_file_mappings}
use pixel_scrape.PieceManager.Storage.{
  Disk, write_piece, read_piece, write_mappings, read_mappings, reads,
}
use pixel_scrape.PieceManager.Storage.Flat.{cell, ArePathsDistinct, IsAllocated}
use pixel_scrape.PieceManager.Storage.Loops.{Written, write_mappings-Written, read_mappings-reads}
use pixel_scrape.PieceManager.Storage.Pieces.{
  IsTorrent, bytes_of, parts, parts-Follows, locate_found, parts-IsInFile, parts-IsOneToOne,
  sum_sizes-parts, file_at_one, locate_bound,
}

-- The byte of the torrent at a position, as the disk has it.
unfoldable pub byte_at : TorrentMetadata → Disk → ℕ → Option ℕ
byte_at m disk g = elim (file_at 0 m.files g) [ none ↦ none | some p ↦ cell m.files disk p.0 p.1 ]

-- An array in which `new` was written from position `base` on.
abbrev pub overwrite : (ℕ → Option ℕ) → ℕ → Bytes → ℕ → Option ℕ
overwrite old base new g =
    if leb base g && ltb g (base + length new) then get_elem? new (g - base) else old g

-- The manager of a whole torrent, whose files have different paths.
pub record Manages (pm : PieceManager) : Type 0 where
  pub torrent : IsTorrent pm.metadata
  pub paths : ArePathsDistinct pm.metadata.files
  pub mapped : pm.piece_file_mappings ≡ calculate_file_mappings pm.metadata

mod_last : (n pl r : ℕ) → r < pl → (n * pl + r) % pl ≡ r
mod_last n pl r h = grind arith

row_next : (i n pl : ℕ) → i + 1 ≡ n → n * pl ≡ i * pl + pl
row_next i n pl h = ap (λ k. k * pl) (sym h) ∙ grind arith

row_before : (i n pl : ℕ) → i + 1 < n → i * pl + pl + pl ≤ n * pl
row_before i n pl h =
    omega (arith, row_le i (i + 1) pl (omega arith), row_le (i + 1) n pl (omega arith))

-- The remainder by which the program sizes the last piece is what is left for it.
last_size :
    (i n pl total : ℕ)
    → i + 1 ≡ n
    → 0 < pl
    → total ≤ n * pl
    → n * pl < total + pl
    → (if total % pl == 0 then some pl else some (total % pl)) ≡ some (min pl (total - i * pl))
last_size i n pl total e pos enough no_more =
    let next = row_next i n pl e in
    elim (dec_lt (total - i * pl) pl) [
      | yes part ↦
          let split : total ≡ i * pl + (total - i * pl) = omega arith in
          let rest : total % pl ≡ total - i * pl =
            ap (λ k. k % pl) split ∙ mod_last i pl (total - i * pl) part in
          let nonzero : (total % pl == 0) ≡ false = ground arith in
          rw nonzero (ap some (omega arith))
      | no whole ↦
          let split : total ≡ n * pl + 0 = omega arith in
          let rest : total % pl ≡ 0 = ap (λ k. k % pl) split ∙ mod_last n pl 0 pos in
          let zero_rest : (total % pl == 0) ≡ true = ground arith in
          rw zero_rest (ap some (omega arith))
    ]

piece_size-bytes_of :
    (m : TorrentMetadata) (i : ℕ)
    → IsTorrent m
    → i < length m.piece_hashes
    → piece_size m i ≡ some (bytes_of m i)
unfolding piece_size
piece_size-bytes_of m i t hi =
    let n = length m.piece_hashes in
    let few : n < size_mod = t.few_pieces in
    let enough = t.enough in
    let no_more = t.no_more in
    let pos = t.some_length in
    let nonzero : (m.piece_length == 0) ≡ false = ground arith in
    elim (dec_lt (i + 1) n) [
      | yes before ↦
          let other : (i == (n + size_mod - 1) % size_mod) ≡ false = ground arith in
          rw other (ap some (omega (arith, row_before i n m.piece_length before)))
      | no not_before ↦
          let last : (i == (n + size_mod - 1) % size_mod) ≡ true = ground arith in
          rw last (
            rw nonzero
              (last_size i n m.piece_length m.total_length (omega arith) pos enough no_more))
    ]

pub byte_at_place :
    (m : TorrentMetadata) (disk : Disk) (g : ℕ) (p : ℕ × ℕ)
    → file_at 0 m.files g ≡ some p
    → byte_at m disk g ≡ cell m.files disk p.0 p.1
unfolding byte_at
byte_at_place m disk g p e = rw (e, byte_at)

byte_at_nowhere :
    (m : TorrentMetadata) (disk : Disk) (g : ℕ)
    → file_at 0 m.files g ≡ none
    → byte_at m disk g ≡ none
unfolding byte_at
byte_at_nowhere m disk g e = rw (e, byte_at)

module _ (pm : PieceManager) (w : Manages pm) (disk : Disk) (i : ℕ)
    (hi : i < length pm.metadata.piece_hashes) where
  row : get_elem? pm.piece_file_mappings i ≡ some (parts pm.metadata w.torrent i hi)
  row =
      let mapped = w.mapped in
      get_elem?-of_lt pm.piece_file_mappings i [] (
        omega (
          arith,
          ap length mapped,
          length-calculate_file_mappings pm.metadata w.torrent.some_length w.torrent.small_length,
        ))
      ∙ ap (λ ms. some (get_or ms i [])) mapped

  base : ℕ
  base = i * pm.metadata.piece_length

  write_piece-mappings :
      (bytes : Bytes)
      → write_piece pm disk i bytes
        ≡ write_mappings pm.metadata.files disk (parts pm.metadata w.torrent i hi) bytes
  unfolding write_piece
  write_piece-mappings bytes = rw (row, write_piece)

  read_piece-mappings :
      (xs : Bytes)
      → get_or pm.have_pieces i false ≡ true
      → read_mappings pm.metadata.files disk
          (parts pm.metadata w.torrent i hi)
          (bytes_of pm.metadata i)
        ≡ reads xs
      → read_piece pm disk i ≡ some xs
  unfolding read_piece
  read_piece-mappings xs held e =
      rw (held, read_piece)
        (rw (piece_size-bytes_of pm.metadata i w.torrent hi, read_piece)
          (rw (row, read_piece) (rw (e, read_piece) refl)))

  -- The place of a byte of the torrent that lies in piece `i`.
  place :
      (j : ℕ)
      → j < bytes_of pm.metadata i
      → locate (parts pm.metadata w.torrent i hi) j ≡ file_at 0 pm.metadata.files (base + j)
  unfolding base
  place j h =
      parts-Follows pm.metadata w.torrent i hi j
        (omega (arith, sum_sizes-parts pm.metadata w.torrent i hi))

  module _ (bytes : Bytes) (disk' : Disk) (sized : length bytes ≡ bytes_of pm.metadata i)
      (v : Written pm.metadata.files (parts pm.metadata w.torrent i hi) bytes disk disk') where
    Written-inside :
        (j : ℕ) → j < length bytes → byte_at pm.metadata disk' (base + j) ≡ get_elem? bytes j
    Written-inside j h =
        let (p, e) =
          locate_found (parts pm.metadata w.torrent i hi) j
            (omega (arith, sum_sizes-parts pm.metadata w.torrent i hi)) in
        byte_at_place pm.metadata disk' (base + j) p (sym (place j (omega arith)) ∙ e)
        ∙ v.written j p.0 p.1 e

    Written-outside :
        (g : ℕ)
        → ((j : ℕ) → j < length bytes → base + j ≢ g)
        → byte_at pm.metadata disk' g ≡ byte_at pm.metadata disk g
    Written-outside g out = elim (Option-cases (file_at 0 pm.metadata.files g)) [
      | inl e ↦ byte_at_nowhere pm.metadata disk' g e ∙ sym (byte_at_nowhere pm.metadata disk g e)
      | inr (p, e) ↦
          byte_at_place pm.metadata disk' g p e
          ∙ v.kept p.0 p.1 (λ j spot.
            let inside = locate_bound (parts pm.metadata w.torrent i hi) j p spot in
            let h : j < bytes_of pm.metadata i =
              omega (arith, sum_sizes-parts pm.metadata w.torrent i hi) in
            out j (omega arith)
              (file_at_one 0 pm.metadata.files (base + j) g p (sym (place j h) ∙ spot) e))
          ∙ sym (byte_at_place pm.metadata disk g p e)
    ]

    Written-overwrite :
        (g : ℕ) → byte_at pm.metadata disk' g ≡ overwrite (byte_at pm.metadata disk) base bytes g
    Written-overwrite g = elim (Bool-cases (leb base g && ltb g (base + length bytes))) [
      | inl inside ↦
          let back : base + (g - base) ≡ g = ground arith in
          rw inside (
            subst (λ k. byte_at pm.metadata disk' k ≡ get_elem? bytes (g - base)) back
              (Written-inside (g - base) (ground arith)))
      | inr outside ↦ rw outside (Written-outside g (λ j h e. ground arith))
    ]

  -- Writing a piece succeeds, and overwrites its slice of the torrent and nothing else.
  pub write_piece-overwrite :
      (bytes : Bytes)
      → length bytes ≡ bytes_of pm.metadata i
      → IsAllocated pm.metadata.files disk
      → (disk' : Disk) × (write_piece pm disk i bytes ≡ some (disk', true))
        × IsAllocated pm.metadata.files disk'
        × ((g : ℕ)
            → byte_at pm.metadata disk' g
              ≡ overwrite (byte_at pm.metadata disk) (i * pm.metadata.piece_length) bytes g)
  unfolding base
  write_piece-overwrite bytes sized allocated =
      let sum = sum_sizes-parts pm.metadata w.torrent i hi in
      let (disk', e, v) =
        write_mappings-Written pm.metadata.files w.paths (parts pm.metadata w.torrent i hi) disk
          bytes (parts-IsInFile pm.metadata w.torrent i hi)
          (parts-IsOneToOne pm.metadata w.torrent i hi) (omega arith) allocated in
      (disk', write_piece-mappings bytes ∙ e, v.stays, λ g. Written-overwrite bytes disk' sized v g)

  -- Reading a piece that is there gives its slice of the torrent.
  pub read_piece-slice :
      get_or pm.have_pieces i false ≡ true
      → IsAllocated pm.metadata.files disk
      → (xs : Bytes) × (read_piece pm disk i ≡ some xs)
        × (length xs ≡ bytes_of pm.metadata i)
        × ((j : ℕ)
            → j < length xs
            → get_elem? xs j ≡ byte_at pm.metadata disk (i * pm.metadata.piece_length + j))
  unfolding base
  read_piece-slice held allocated =
      let sum = sum_sizes-parts pm.metadata w.torrent i hi in
      let (xs, e, sized, at) =
        read_mappings-reads pm.metadata.files disk allocated (parts pm.metadata w.torrent i hi)
          (parts-IsInFile pm.metadata w.torrent i hi) in
      (
        xs,
        read_piece-mappings xs held (
            ap (read_mappings pm.metadata.files disk (parts pm.metadata w.torrent i hi)) (sym sum)
            ∙ e),
        omega arith,
        λ j h.
            let (p, spot) = locate_found (parts pm.metadata w.torrent i hi) j (omega arith) in
            at j p.0 p.1 spot
            ∙ sym (
                byte_at_place pm.metadata disk (i * pm.metadata.piece_length + j) p
                  (sym (place j (omega arith)) ∙ spot)),
      )
