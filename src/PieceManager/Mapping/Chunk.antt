-- ===== src/PieceManager/Mapping/Chunk.antt =====
-- One turn of the loops of `calculate_file_mappings`.
use pixel_scrape.Base.{
  ℕ, ◌+◌, ◌-◌, ◌*◌, ◌≤◌, ◌<◌, ◌≡◌, ◌≢◌, refl, sym, ap, subst, ◌∙◌, ◌⊎◌, inl, inr, Option, some,
  List, [], ◌∷◌, ◌++◌, arith, ltb, leb, Bool-cases, length, get_or, set, length-set,
  get_or-set_self, get_or-set_ne, ltb→lt, All, All-append,
}
use pixel_scrape.Base.Bytes.{size_mod}
use native.Mathlib.Decide.{ℕ_discrete}
use pixel_scrape.PieceManager.{FileMapping, Cursor, chunk_size, place_chunk}
use pixel_scrape.PieceManager.Mapping.{
  locate, sum_sizes, locate_before, locate_after, sum_sizes-snoc,
}

abbrev pub position : ℕ → Cursor → ℕ
position pl c = c.current_piece * pl + c.piece_offset

pub sum_sizes_nil : sum_sizes [] ≡ 0
unfolding sum_sizes
sum_sizes_nil = refl

locate_one :
    (m : FileMapping) (t : ℕ)
    → t < m.size
    → locate (m ∷ []) t ≡ some (m.file_index, m.file_offset + t)
unfolding locate
locate_one m t h = ground arith

-- The parts of a piece: none is empty, and together they are no longer than a piece.
abbrev pub AreParts : ℕ → List FileMapping → Type 0
AreParts pl ms = All (λ m. 0 < m.size) ms × (sum_sizes ms ≤ pl)

-- What the pieces hold up to the cursor is what `spot` says of the positions in the torrent.
module _ (n pl : ℕ) (spot : ℕ → Option (ℕ × ℕ)) where
  pub record Covers (c : Cursor) : Type 0 where
    pub sized : length c.mappings ≡ n
    pub below : c.piece_offset < pl
    pub past :
        (i j : ℕ)
        → i < c.current_piece
        → i < n
        → j < pl
        → locate (get_or c.mappings i []) j ≡ spot (i * pl + j)
    pub here :
        (j : ℕ)
        → c.current_piece < n
        → j < c.piece_offset
        → locate (get_or c.mappings c.current_piece []) j ≡ spot (c.current_piece * pl + j)
    pub part :
        c.current_piece < n → sum_sizes (get_or c.mappings c.current_piece []) ≡ c.piece_offset
    pub later : (i : ℕ) → c.current_piece < i → get_or c.mappings i [] ≡ []
    pub sizes : (i : ℕ) → i < n → AreParts pl (get_or c.mappings i [])

  module _ (c : Cursor) (m : FileMapping) (v : Covers c) (h : c.current_piece < n) where
    added : List (List FileMapping)
    added = set c.mappings c.current_piece (get_or c.mappings c.current_piece [] ++ m ∷ [])

    get_or-added : get_or added c.current_piece [] ≡ get_or c.mappings c.current_piece [] ++ m ∷ []
    unfolding added
    get_or-added = get_or-set_self c.mappings c.current_piece _ [] (omega (arith, v.sized))

    get_or-added_ne : (i : ℕ) → c.current_piece ≢ i → get_or added i [] ≡ get_or c.mappings i []
    unfolding added
    get_or-added_ne i ne = get_or-set_ne c.mappings c.current_piece i _ [] ne

    locate-added :
        ((t : ℕ) → t < m.size → spot (position pl c + t) ≡ some (m.file_index, m.file_offset + t))
        → (j : ℕ) → j < c.piece_offset + m.size
        → locate (get_or added c.current_piece []) j ≡ spot (c.current_piece * pl + j)
    locate-added serve j k = elim (Bool-cases (ltb j c.piece_offset)) [
      | inl old ↦
          let lt = ltb→lt j c.piece_offset old in
          rw get_or-added (locate_before _ (m ∷ []) j (omega (arith, v.part h)) ∙ v.here j h lt)
      | inr new ↦
          let ge : c.piece_offset ≤ j = ground arith in
          let t = j - c.piece_offset in
          let before = v.part h in
          rw get_or-added (
            locate_after _ (m ∷ []) j (omega (arith, before))
            ∙ ap (λ (k : ℕ). locate (m ∷ []) (j - k)) before
            ∙ locate_one m t (omega arith)
            ∙ sym (serve t (omega arith))
            ∙ ap spot (omega arith))
    ]

    sum_sizes-added : sum_sizes (get_or added c.current_piece []) ≡ c.piece_offset + m.size
    sum_sizes-added =
        rw get_or-added
          (omega (arith, sum_sizes-snoc (get_or c.mappings c.current_piece []) m, v.part h))

    sizes-added :
        0 < m.size
        → c.piece_offset + m.size ≤ pl
        → (i : ℕ) → i < n
        → AreParts pl (get_or added i [])
    sizes-added pos fits i hi = elim (ℕ_discrete i c.current_piece) [
      | yes e ↦
          subst (λ k. AreParts pl (get_or added k [])) (sym e)
            (
              rw get_or-added (All-append _ _ (m ∷ []) (v.sizes c.current_piece h).0 (pos, tt)),
              omega (arith, sum_sizes-added),
            )
      | no ne ↦ rw (get_or-added_ne i (λ e. ne (sym e))) (v.sizes i hi)
    ]

    length-added : length added ≡ n
    unfolding added
    length-added = length-set c.mappings c.current_piece _ ∙ v.sized

    -- The cursor after a chunk that ends its piece.
    advance-Covers :
        ((t : ℕ) → t < m.size → spot (position pl c + t) ≡ some (m.file_index, m.file_offset + t))
        → c.piece_offset + m.size ≡ pl
        → 0 < m.size
        → 0 < pl
        → Covers
            (record { mappings = added; current_piece = c.current_piece + 1; piece_offset = 0 })
    advance-Covers serve full some_bytes pos = record {
      sized = length-added;
      below = pos;
      past = λ i j hi hn hj. past_or_here i j hi hn hj;
      here = λ j _ hj. absurd (omega arith);
      part = λ hn.
          let ne : c.current_piece ≢ c.current_piece + 1 = omega arith in
          rw (get_or-added_ne (c.current_piece + 1) ne, v.later (c.current_piece + 1) (omega arith))
            nothing;
      later = λ i hi. get_or-added_ne i (omega arith) ∙ v.later i (omega arith);
      sizes = sizes-added some_bytes (omega arith);
    }
      where
        nothing : sum_sizes [] ≡ 0
        nothing = sum_sizes_nil

        past_or_here :
            (i j : ℕ)
            → i < c.current_piece + 1
            → i < n
            → j < pl
            → locate (get_or added i []) j ≡ spot (i * pl + j)
        past_or_here i j hi hn hj = elim (ℕ_discrete i c.current_piece) [
          | yes e ↦
              subst (λ k. locate (get_or added k []) j ≡ spot (k * pl + j)) (sym e)
                (locate-added serve j (omega arith))
          | no ne ↦ rw (get_or-added_ne i (λ e. ne (sym e))) (v.past i j (omega arith) hn hj)
        ]

    -- The cursor after a chunk that leaves room in its piece.
    stay-Covers :
        ((t : ℕ) → t < m.size → spot (position pl c + t) ≡ some (m.file_index, m.file_offset + t))
        → c.piece_offset + m.size < pl
        → 0 < m.size
        → Covers (record {
          mappings = added;
          current_piece = c.current_piece;
          piece_offset = c.piece_offset + m.size;
        })
    stay-Covers serve fits some_bytes = record {
      sized = length-added;
      below = fits;
      past = λ i j hi hn hj. rw (get_or-added_ne i (omega arith)) (v.past i j hi hn hj);
      here = λ j _ hj. locate-added serve j hj;
      part = λ _. sum_sizes-added;
      later = λ i hi. get_or-added_ne i (omega arith) ∙ v.later i hi;
      sizes = sizes-added some_bytes (omega arith);
    }

  -- The size of a chunk: it ends the file or the piece, and fits in both.
  pub chunk_size_bounds :
      (c : Cursor) (left : ℕ)
      → Covers c
      → pl < size_mod
      → 0 < left
      → let b = chunk_size pl c left in
        (0 < b) × (b ≤ left) × (c.piece_offset + b ≤ pl) × ((b ≡ left) ⊎ (c.piece_offset + b ≡ pl))
  unfolding chunk_size
  chunk_size_bounds c left v small pos =
      let below = v.below in (omega arith, omega arith, omega arith, omega arith)

  -- A chunk of the file's bytes from `size - left` on keeps what the pieces hold true, and moves the
  -- position by its size; unless the piece is ended it stays the current one.
  pub place_chunk-Covers :
      (k size left b : ℕ) (c : Cursor)
      → Covers c
      → c.current_piece < n
      → 0 < b
      → c.piece_offset + b ≤ pl
      → ((t : ℕ) → t < b → spot (position pl c + t) ≡ some (k, size - left + t))
      → Covers (place_chunk pl k size c left b)
        × (position pl (place_chunk pl k size c left b) ≡ position pl c + b)
        × (c.piece_offset + b ≡ pl
            → (place_chunk pl k size c left b).current_piece ≡ c.current_piece + 1)
  unfolding place_chunk
  place_chunk-Covers k size left b c v h pos fits serve =
      let m : FileMapping = record { file_index = k; file_offset = size - left; size = b } in
      elim (Bool-cases (leb pl (c.piece_offset + b))) [
        | inl full ↦
            let below = v.below in
            rw full (
              unfold added in advance-Covers c m v h serve (ground arith) pos (omega arith),
              grind arith,
              λ _. refl,
            )
        | inr room ↦ rw room (
          unfold added in stay-Covers c m v h serve (ground arith) pos,
          grind arith,
          λ e. ground arith,
        )
      ]
