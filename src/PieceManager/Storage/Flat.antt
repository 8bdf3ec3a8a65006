-- ===== src/PieceManager/Storage/Flat.antt =====
-- The disk as the one array that the joined files are, and the loops over the mappings in it.
use pixel_scrape.Base.{
  ℕ, ◌+◌, ◌-◌, ◌≤◌, ◌<◌, ◌≡◌, ◌≢◌, sym, ap, subst, ◌∙◌, ◌⊎◌, inl, inr, Option, none, some, List,
  arith, Option-cases, length, get_elem?, some_eq,
}
use native.Mathlib.Decide.{ℕ_discrete, dec_lt}
use pixel_scrape.Base.Bytes.{Bytes}
use pixel_scrape.Torrent.{TorrentFile}
use pixel_scrape.PieceManager.{FileMapping}
use pixel_scrape.PieceManager.Storage.{Disk, put_file, splice}
use pixel_scrape.PieceManager.Storage.Cells.{
  splice_written, splice_kept, length-splice, put_file_self, put_file_other,
}

-- The byte of file `k` at place `o`.
unfoldable pub cell : List TorrentFile → Disk → ℕ → ℕ → Option ℕ
cell files disk k o = elim (get_elem? files k) [
  | none ↦ none
  | some f ↦ elim (disk f.path) [ none ↦ none | some xs ↦ get_elem? xs o ]
]

abbrev pub ArePathsDistinct : List TorrentFile → Type 0
ArePathsDistinct files =
    (i j : ℕ) (f g : TorrentFile)
    → get_elem? files i ≡ some f
    → get_elem? files j ≡ some g
    → f.path ≡ g.path
    → i ≡ j

-- Every file is there at its full size, as `create_files` leaves it.
abbrev pub IsAllocated : List TorrentFile → Disk → Type 0
IsAllocated files disk =
    (k : ℕ) (f : TorrentFile)
    → get_elem? files k ≡ some f
    → (xs : Bytes) × (disk f.path ≡ some xs) × (length xs ≡ f.size)

-- The mapping lies inside its file.
abbrev pub IsInFile : List TorrentFile → FileMapping → Type 0
IsInFile files m =
    (f : TorrentFile) × (get_elem? files m.file_index ≡ some f) × (m.file_offset + m.size ≤ f.size)

module _ (files : List TorrentFile) where
  pub cell_open :
      (disk : Disk) (k o : ℕ) (f : TorrentFile) (xs : Bytes)
      → get_elem? files k ≡ some f
      → disk f.path ≡ some xs
      → cell files disk k o ≡ get_elem? xs o
  unfolding cell
  cell_open disk k o f xs e d = rw (e, cell) (rw d)

  -- The file that one write changes.
  cell-put_file_other :
      (disk : Disk) (p xs : Bytes) (k o : ℕ)
      → ((f : TorrentFile) → get_elem? files k ≡ some f → f.path ≢ p)
      → cell files (put_file disk p xs) k o ≡ cell files disk k o
  unfolding cell
  cell-put_file_other disk p xs k o ne = elim (Option-cases (get_elem? files k)) [
    | inl e ↦ rw (e, cell)
    | inr (f, e) ↦ rw (e, cell) (rw (put_file_other disk p xs f.path (ne f e)))
  ]

  module _ (distinct : ArePathsDistinct files) where
    module _ (disk : Disk) (allocated : IsAllocated files disk) (m : FileMapping) (f : TorrentFile)
        (found : get_elem? files m.file_index ≡ some f) (inside : m.file_offset + m.size ≤ f.size)
        (old : Bytes) (was : disk f.path ≡ some old) (new : Bytes)
        (sized : length new ≡ m.size) where
      abbrev pub after : Disk
      after = put_file disk f.path (splice old m.file_offset new)

      old_size : length old ≡ f.size
      old_size =
          let (xs, e, l) = allocated m.file_index f found in
          let q : old ≡ xs = some_eq (sym was ∙ e) in ap length q ∙ l

      fits : m.file_offset + length new ≤ length old
      fits = omega (arith, old_size)

      after_open : after f.path ≡ some (splice old m.file_offset new)
      after_open = put_file_self disk f.path _

      pub cell-after :
          (t : ℕ) → t < m.size → cell files after m.file_index (m.file_offset + t) ≡ get_elem? new t
      cell-after t h =
          cell_open after m.file_index (m.file_offset + t) f _ found after_open
          ∙ splice_written old m.file_offset new fits t (omega arith)

      pub cell-after_other :
          (k o : ℕ)
          → ((t : ℕ) → t < m.size → k ≡ m.file_index → o ≢ m.file_offset + t)
          → cell files after k o ≡ cell files disk k o
      cell-after_other k o free = elim (ℕ_discrete k m.file_index) [
        | no ne ↦
            cell-put_file_other disk f.path _ k o
              (λ g e same. ne (distinct k m.file_index g f e found same))
        | yes same ↦
            subst (λ i. cell files after i o ≡ cell files disk i o) (sym same)
              (cell_open after m.file_index o f _ found after_open
                ∙ splice_kept old m.file_offset new fits o (outside same)
                ∙ sym (cell_open disk m.file_index o f old found was))
      ]
        where
          outside : k ≡ m.file_index → (o < m.file_offset) ⊎ (m.file_offset + length new ≤ o)
          outside same = elim (dec_lt o m.file_offset) [
            | yes before ↦ inl before
            | no not_before ↦ elim (dec_lt o (m.file_offset + m.size)) [
              | no behind ↦ inr (omega arith)
              | yes within ↦ absurd (free (o - m.file_offset) (omega arith) same (omega arith))
            ]
          ]

      pub after-IsAllocated : IsAllocated files after
      after-IsAllocated k g e = elim (ℕ_discrete k m.file_index) [
        | no ne ↦
            let (xs, d, l) = allocated k g e in
            let other : g.path ≢ f.path = λ same. ne (distinct k m.file_index g f e found same) in
            (xs, put_file_other disk f.path _ g.path other ∙ d, l)
        | yes same ↦
            let q : g ≡ f = some_eq (sym e ∙ ap (get_elem? files) same ∙ found) in
            (
              splice old m.file_offset new,
              ap after (ap (λ h. h.path) q) ∙ after_open,
              length-splice old m.file_offset new fits ∙ old_size ∙ ap (λ h. h.size) (sym q),
            )
      ]
