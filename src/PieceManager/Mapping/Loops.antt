-- ===== src/PieceManager/Mapping/Loops.antt =====
-- The loops of `calculate_file_mappings` over one file and over all.
use pixel_scrape.Base.{
  ℕ, zero, suc, ◌+◌, ◌-◌, ◌≤◌, ◌<◌, ◌≡◌, refl, ap, ap₂, ◌∙◌, ◌⊎◌, inl, inr, true, false, ◌&&◌,
  Option, some, List, [], ◌∷◌, ◌++◌, arith, ltb, Bool-cases, length,
}
use pixel_scrape.Base.Bytes.{size_mod}
use pixel_scrape.Torrent.{TorrentFile}
use pixel_scrape.PieceManager.{Cursor, chunk_size, place_chunk, map_file, map_files}
use pixel_scrape.PieceManager.Mapping.{total_size}
use pixel_scrape.PieceManager.Mapping.Chunk.{
  position, Covers, chunk_size_bounds, place_chunk-Covers,
}

total_size-cons :
    (f : TorrentFile) (fs : List TorrentFile) → total_size (f ∷ fs) ≡ f.size + total_size fs
unfolding total_size
total_size-cons f fs = refl

module _ (n pl : ℕ) (spot : ℕ → Option (ℕ × ℕ)) (small : pl < size_mod) where
  -- The loop over a file stopped as it should: the file or the pieces have come to an end.
  abbrev pub Ended : Cursor → ℕ → Cursor → Type 0
  Ended c left c' =
      Covers n pl spot c' × ((n ≤ c'.current_piece) ⊎ (position pl c' ≡ position pl c + left))

  abbrev Serves : ℕ → ℕ → Cursor → ℕ → Type 0
  Serves k size c left = (t : ℕ) → t < left → spot (position pl c + t) ≡ some (k, size - left + t)

  map_file_done :
      (fuel k size left : ℕ) (c : Cursor)
      → (ltb 0 left && ltb c.current_piece n) ≡ false
      → map_file fuel n pl k size c left ≡ c
  unfolding map_file
  map_file_done zero k size left c e = refl
  map_file_done (suc fuel) k size left c e = rw e

  map_file_turn :
      (fuel k size left : ℕ) (c : Cursor)
      → (ltb 0 left && ltb c.current_piece n) ≡ true
      → map_file (suc fuel) n pl k size c left
        ≡ map_file fuel n pl k size
            (place_chunk pl k size c left (chunk_size pl c left))
            (left - chunk_size pl c left)
  unfolding map_file
  map_file_turn fuel k size left c e = rw e

  Serves-next :
      (k size left b : ℕ) (c next : Cursor)
      → b ≤ left
      → left ≤ size
      → position pl next ≡ position pl c + b
      → Serves k size c left
      → Serves k size next (left - b)
  Serves-next k size left b c next h w moved serve t lt =
      ap spot (omega arith)
      ∙ serve (b + t) (omega arith)
      ∙ ap (λ (m : ℕ). some (k, m)) (omega arith)

  map_files_cons :
      (k : ℕ) (f : TorrentFile) (fs : List TorrentFile) (c : Cursor)
      → map_files n pl k (f ∷ fs) c
        ≡ map_files n pl (suc k) fs (map_file (suc n) n pl k f.size c f.size)
  unfolding map_files
  map_files_cons k f fs c = refl

  map_file-Ended :
      (fuel k size left : ℕ) (c : Cursor)
      → n - c.current_piece ≤ fuel
      → left ≤ size
      → Covers n pl spot c
      → Serves k size c left
      → Ended c left (map_file fuel n pl k size c left)
  map_file-Ended zero k size left c enough within v serve =
      rw (map_file_done zero k size left c (ground arith)) (v, inl (omega arith))
  map_file-Ended (suc fuel) k size left c enough within v serve =
      elim (Bool-cases (ltb 0 left && ltb c.current_piece n)) [
        | inr over ↦ rw (map_file_done (suc fuel) k size left c over) (v, ground arith)
        | inl more ↦
            let pos : 0 < left = ground arith in
            let inside : c.current_piece < n = ground arith in
            let b = chunk_size pl c left in
            let (some_bytes, within_file, within_piece, ends) =
              chunk_size_bounds n pl spot c left v small pos in
            let next = place_chunk pl k size c left b in
            let (v', moved, advanced) =
              place_chunk-Covers n pl spot k size left b c v inside some_bytes within_piece
                (λ t h. serve t (omega arith)) in
            let serve' : Serves k size next (left - b) =
              λ t h. Serves-next k size left b c next within_file within moved serve t h in
            rw (map_file_turn fuel k size left c more) (elim ends [
              | inl file_ends ↦
                  rw (map_file_done fuel k size (left - b) next (ground arith))
                    (v', inr (omega arith))
              | inr piece_ends ↦
                  let one_more = advanced piece_ends in
                  let (v'', outcome) =
                    map_file-Ended fuel k size (left - b) next (omega arith) (omega arith) v'
                      serve' in
                  (v'', omega arith)
            ])
      ]

  map_files_over :
      (k : ℕ) (fs : List TorrentFile) (c : Cursor) → n ≤ c.current_piece → map_files n pl k fs c ≡ c
  map_files_over k [] c h = unfold map_files in refl
  map_files_over k (f ∷ fs) c h =
      map_files_cons k f fs c
      ∙ ap (map_files n pl (suc k) fs) (map_file_done (suc n) k f.size f.size c (ground arith))
      ∙ map_files_over (suc k) fs c h

  abbrev pub ServesFiles : ℕ → List TorrentFile → Cursor → Type 0
  ServesFiles k fs c =
      (gs : List TorrentFile) (f : TorrentFile) (hs : List TorrentFile) (o : ℕ)
      → fs ≡ gs ++ f ∷ hs
      → o < f.size
      → spot (position pl c + (total_size gs + o)) ≡ some (k + length gs, o)

  ServesFiles-head :
      (k : ℕ) (f : TorrentFile) (fs : List TorrentFile) (c : Cursor)
      → ServesFiles k (f ∷ fs) c
      → Serves k f.size c f.size
  unfolding total_size
  ServesFiles-head k f fs c serve t h =
      ap (λ m. spot (position pl c + m)) (omega arith)
      ∙ serve [] f fs t refl h
      ∙ ap₂ (λ (a b : ℕ). some (a, b)) (omega arith) (omega arith)

  ServesFiles-tail :
      (k : ℕ) (f : TorrentFile) (fs : List TorrentFile) (c c' : Cursor)
      → position pl c' ≡ position pl c + f.size
      → ServesFiles k (f ∷ fs) c
      → ServesFiles (suc k) fs c'
  ServesFiles-tail k f fs c c' moved serve gs g hs o e h =
      ap spot (omega (arith, total_size-cons f gs))
      ∙ serve (f ∷ gs) g hs o (ap (◌∷◌ f) e) h
      ∙ ap (λ (m : ℕ). some (m, o)) (omega arith)

  pub map_files-Ended :
      (k : ℕ) (fs : List TorrentFile) (c : Cursor)
      → Covers n pl spot c
      → ServesFiles k fs c
      → Ended c (total_size fs) (map_files n pl k fs c)
  map_files-Ended k [] c v serve = unfold map_files total_size in (v, inr (omega arith))
  map_files-Ended k (f ∷ fs) c v serve =
      let c' = map_file (suc n) n pl k f.size c f.size in
      let (v', outcome) =
        map_file-Ended (suc n) k f.size f.size c (omega arith) (omega arith) v
          (ServesFiles-head k f fs c serve) in
      rw (map_files_cons k f fs c) (elim outcome [
        | inl over ↦ rw (map_files_over (suc k) fs c' over) (v', inl over)
        | inr moved ↦
            let (v'', outcome') =
              map_files-Ended (suc k) fs c' v' (ServesFiles-tail k f fs c c' moved serve) in
            (v'', omega (arith, total_size-cons f fs))
      ])
