-- ===== src/PieceManager/Storage/Pieces.antt =====
-- The mappings of a piece of a whole torrent, which `calculate_file_mappings` made.
use pixel_scrape.Base.{
  ℕ, suc, ◌+◌, ◌-◌, ◌*◌, ◌≤◌, ◌<◌, min, ◌≡◌, sym, ap, ◌∙◌, inl, inr, some, List, [], ◌∷◌, arith,
  ltb, Bool-cases, length, get_elem?, get_or, ltb→lt, some_eq, none-ne-some, All,
}
use native.Mathlib.Decide.{dec_lt}
use pixel_scrape.Base.Bytes.{size_mod}
use pixel_scrape.Torrent.{TorrentFile, TorrentMetadata}
use pixel_scrape.PieceManager.{FileMapping, calculate_file_mappings}
use pixel_scrape.PieceManager.Mapping.{
  file_at, locate, sum_sizes, total_size, locate_end, file_at_end,
}
use pixel_scrape.PieceManager.Mapping.Chunk.{AreParts}
use pixel_scrape.PieceManager.Mapping.Cover.{
  calculate_file_mappings-locate, calculate_file_mappings-AreParts,
}
use pixel_scrape.PieceManager.Storage.Flat.{IsInFile}
use pixel_scrape.PieceManager.Storage.Loops.{locate_head, locate_tail, IsOneToOne}

-- The place of a byte is inside a file.
pub file_at_inside :
    (b : ℕ) (files : List TorrentFile) (g i o : ℕ)
    → file_at b files g ≡ some (i, o)
    → (f : TorrentFile) × (b ≤ i) × (get_elem? files (i - b) ≡ some f) × (o < f.size)
unfolding file_at
file_at_inside b [] g i o e = none-ne-some e
file_at_inside b (f ∷ fs) g i o e = elim (Bool-cases (ltb g f.size)) [
  | inl here ↦
      let same : (b, g) ≡ (i, o) = some_eq (rw here at e) in
      let first : b ≡ i = ap (λ p. p.0) same in
      let second : g ≡ o = ap (λ p. p.1) same in
      let z : i - b ≡ 0 = omega arith in
      (f, omega arith, ap (get_elem? (f ∷ fs)) z, omega (arith, ltb→lt g f.size here))
  | inr past ↦
      let (h, after, found, within) = file_at_inside (suc b) fs (g - f.size) i o (rw past at e) in
      let z : i - b ≡ suc (i - suc b) = omega arith in
      (h, omega arith, ap (get_elem? (f ∷ fs)) z ∙ found, within)
]

pub file_at_found :
    (k : ℕ) (files : List TorrentFile) (g : ℕ)
    → g < total_size files
    → (p : ℕ × ℕ) × (file_at k files g ≡ some p)
unfolding file_at total_size
file_at_found k [] g h = absurd (omega arith)
file_at_found k (f ∷ fs) g h = elim (Bool-cases (ltb g f.size)) [
  | inl here ↦ ((k, g), rw here)
  | inr past ↦ let (p, e) = file_at_found (suc k) fs (g - f.size) (ground arith) in (p, rw past e)
]

-- Two bytes of the torrent have two places.
pub file_at_one :
    (k : ℕ) (files : List TorrentFile) (g h : ℕ) (p : ℕ × ℕ)
    → file_at k files g ≡ some p
    → file_at k files h ≡ some p
    → g ≡ h
unfolding file_at
file_at_one k [] g h p e e' = none-ne-some e
file_at_one k (f ∷ fs) g h p e e' = elim (Bool-cases (ltb g f.size)) [
  | inl a ↦ elim (Bool-cases (ltb h f.size)) [
    | inl b ↦
        let same : (k, g) ≡ (k, h) = some_eq (rw a at e) ∙ sym (some_eq (rw b at e')) in
        ap (λ q. q.1) same
    | inr b ↦
        let first : (k, g) ≡ p = some_eq (rw a at e) in
        let (_, later, _, _) = file_at_inside (suc k) fs (h - f.size) p.0 p.1 (rw b at e') in
        absurd (omega (arith, ap (λ q. q.0) first))
  ]
  | inr a ↦ elim (Bool-cases (ltb h f.size)) [
    | inl b ↦
        let first : (k, h) ≡ p = some_eq (rw b at e') in
        let (_, later, _, _) = file_at_inside (suc k) fs (g - f.size) p.0 p.1 (rw a at e) in
        absurd (omega (arith, ap (λ q. q.0) first))
    | inr b ↦
        let e0 = file_at_one (suc k) fs (g - f.size) (h - f.size) p (rw a at e) (rw b at e') in
        ground arith
  ]
]

pub locate_found :
    (ms : List FileMapping) (j : ℕ) → j < sum_sizes ms → (p : ℕ × ℕ) × (locate ms j ≡ some p)
unfolding locate sum_sizes
locate_found [] j h = absurd (omega arith)
locate_found (m ∷ ms) j h = elim (Bool-cases (ltb j m.size)) [
  | inl here ↦ ((m.file_index, m.file_offset + j), rw here)
  | inr past ↦ let (p, e) = locate_found ms (j - m.size) (ground arith) in (p, rw past e)
]

pub locate_bound :
    (ms : List FileMapping) (j : ℕ) (p : ℕ × ℕ) → locate ms j ≡ some p → j < sum_sizes ms
locate_bound ms j p e = elim (dec_lt j (sum_sizes ms)) [
  | yes lt ↦ lt
  | no ge ↦ none-ne-some (sym (locate_end ms j (omega arith)) ∙ e)
]

-- Mappings that give the bytes from position `base` on, as far as they reach.
abbrev Follows : List TorrentFile → ℕ → List FileMapping → Type 0
Follows files base ms = (j : ℕ) → j < sum_sizes ms → locate ms j ≡ file_at 0 files (base + j)

Follows-IsInFile :
    (files : List TorrentFile) (base : ℕ) (ms : List FileMapping)
    → All (λ m. 0 < m.size) ms
    → Follows files base ms
    → All (IsInFile files) ms
unfolding sum_sizes
Follows-IsInFile files base [] pos follows = tt
Follows-IsInFile files base (m ∷ ms) pos follows =
    let last = m.size - 1 in
    let some_bytes = pos.0 in
    let (f, _, found, within) =
      file_at_inside 0 files (base + last) m.file_index (m.file_offset + last)
        (sym (follows last (omega arith)) ∙ locate_head m ms last (omega arith)) in
    let z : m.file_index - 0 ≡ m.file_index = omega arith in
    (
      (f, sym (ap (get_elem? files) z) ∙ found, omega arith),
      Follows-IsInFile files (base + m.size) ms pos.1 (λ j h.
          sym (locate_tail m ms j)
          ∙ follows (m.size + j) (omega arith)
          ∙ ap (file_at 0 files) (omega arith)),
    )

-- A torrent whose pieces are as many as its bytes need, as the program expects it.
pub record IsTorrent (m : TorrentMetadata) : Type 0 where
  pub some_length : 0 < m.piece_length
  pub small_length : m.piece_length < size_mod
  pub few_pieces : length m.piece_hashes < size_mod
  pub total : m.total_length ≡ total_size m.files
  pub enough : m.total_length ≤ length m.piece_hashes * m.piece_length
  pub no_more : length m.piece_hashes * m.piece_length < m.total_length + m.piece_length

-- The number of bytes of piece `i`.
abbrev pub bytes_of : TorrentMetadata → ℕ → ℕ
bytes_of m i = min m.piece_length (m.total_length - i * m.piece_length)

module _ (m : TorrentMetadata) (torrent : IsTorrent m) (i : ℕ)
    (hi : i < length m.piece_hashes) where
  abbrev pub parts : List FileMapping
  parts = get_or (calculate_file_mappings m) i []

  parts-AreParts : AreParts m.piece_length parts
  parts-AreParts = calculate_file_mappings-AreParts m torrent.some_length torrent.small_length i hi

  pub parts-Follows : Follows m.files (i * m.piece_length) parts
  parts-Follows j h =
      let short = parts-AreParts.1 in
      calculate_file_mappings-locate m i j torrent.some_length torrent.small_length hi (omega arith)

  pub parts-IsInFile : All (IsInFile m.files) parts
  parts-IsInFile =
      Follows-IsInFile m.files (i * m.piece_length) parts parts-AreParts.0 parts-Follows

  pub parts-IsOneToOne : IsOneToOne parts
  parts-IsOneToOne j j' p e e' =
      let same =
        file_at_one 0 m.files (i * m.piece_length + j) (i * m.piece_length + j') p
          (sym (parts-Follows j (locate_bound parts j p e)) ∙ e)
          (sym (parts-Follows j' (locate_bound parts j' p e')) ∙ e') in
      omega arith

  -- The mappings of a piece have its bytes, no fewer and no more.
  pub sum_sizes-parts : sum_sizes parts ≡ bytes_of m i
  sum_sizes-parts =
      let short = parts-AreParts.1 in
      let total = torrent.total in
      elim (dec_lt (sum_sizes parts) (bytes_of m i)) [
        | yes less ↦
            let j = sum_sizes parts in
            let (p, e) = file_at_found 0 m.files (i * m.piece_length + j) (omega arith) in
            none-ne-some (
              sym (locate_end parts j (omega arith))
              ∙ calculate_file_mappings-locate m i j torrent.some_length torrent.small_length hi
                  (omega arith)
              ∙ e)
        | no enough ↦ elim (dec_lt (bytes_of m i) (sum_sizes parts)) [
          | no less ↦ omega arith
          | yes more ↦
              let j = bytes_of m i in
              let (p, e) = locate_found parts j more in
              none-ne-some (
                sym (file_at_end 0 m.files (i * m.piece_length + j) (omega arith))
                ∙ sym (parts-Follows j more)
                ∙ e)
        ]
      ]
