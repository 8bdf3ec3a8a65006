-- ===== src/PieceManager/Mapping.antt =====
-- The two sides of `calculate_file_mappings`: the bytes of a piece, and the bytes of the files.
pub mod Chunk
pub mod Loops
pub mod Cover
use pixel_scrape.Base.{
  ℕ, zero, suc, ◌+◌, ◌-◌, ◌*◌, ◌%◌, ◌≤◌, ◌<◌, ◌≡◌, ◌≢◌, refl, sym, ap, ◌∙◌, ◌⊎◌, inl, inr, Bool,
  true, false, ◌&&◌, Option, none, some, List, [], ◌∷◌, ◌++◌, arith, ltb, leb, if◌then◌else◌,
  Bool-cases, length, get_or, set, length-set, get_or-set_self, get_or-set_ne, replicate,
  length-replicate, ltb→lt, lt→ltb, le→ltb,
}
use pixel_scrape.Base.Bytes.{size_mod}
use pixel_scrape.Torrent.{TorrentMetadata, TorrentFile}
use pixel_scrape.PieceManager.{FileMapping}

-- The file, by its number from `k`, and the place in it at position `g` of the joined files.
unfoldable pub file_at : ℕ → List TorrentFile → ℕ → Option (ℕ × ℕ)
file_at k [] g = none
file_at k (f ∷ fs) g = if ltb g f.size then some (k, g) else file_at (suc k) fs (g - f.size)

-- The file and the place in it where byte `j` of a piece is written: `write_piece` goes through the
-- mappings in order.
unfoldable pub locate : List FileMapping → ℕ → Option (ℕ × ℕ)
locate [] j = none
locate (m ∷ ms) j =
    if ltb j m.size then some (m.file_index, m.file_offset + j) else locate ms (j - m.size)

unfoldable pub sum_sizes : List FileMapping → ℕ
sum_sizes [] = 0
sum_sizes (m ∷ ms) = m.size + sum_sizes ms

pub locate_before :
    (ms ns : List FileMapping) (j : ℕ) → j < sum_sizes ms → locate (ms ++ ns) j ≡ locate ms j
unfolding locate sum_sizes
locate_before [] ns j h = absurd (omega arith)
locate_before (m ∷ ms) ns j h = ground (arith, locate_before ms ns (j - m.size))

pub locate_after :
    (ms ns : List FileMapping) (j : ℕ)
    → sum_sizes ms ≤ j
    → locate (ms ++ ns) j ≡ locate ns (j - sum_sizes ms)
unfolding locate sum_sizes
locate_after [] ns j h = ap (locate ns) (omega arith)
locate_after (m ∷ ms) ns j h =
    let e : j - m.size - sum_sizes ms ≡ j - (m.size + sum_sizes ms) = omega arith in
    rw (le→ltb j m.size (omega arith))
      (locate_after ms ns (j - m.size) (omega arith) ∙ ap (locate ns) e)

pub sum_sizes-snoc :
    (ms : List FileMapping) (m : FileMapping) → sum_sizes (ms ++ m ∷ []) ≡ sum_sizes ms + m.size
unfolding sum_sizes
sum_sizes-snoc [] m = omega arith
sum_sizes-snoc (x ∷ ms) m = omega (arith, sum_sizes-snoc ms m)

pub locate_end : (ms : List FileMapping) (j : ℕ) → sum_sizes ms ≤ j → locate ms j ≡ none
unfolding locate sum_sizes
locate_end [] j h = refl
locate_end (m ∷ ms) j h = ground (arith, locate_end ms (j - m.size))

-- The bytes in all files.
unfoldable pub total_size : List TorrentFile → ℕ
total_size [] = 0
total_size (f ∷ fs) = f.size + total_size fs

pub file_at_end :
    (k : ℕ) (fs : List TorrentFile) (g : ℕ) → total_size fs ≤ g → file_at k fs g ≡ none
unfolding file_at total_size
file_at_end k [] g h = refl
file_at_end k (f ∷ fs) g h = ground (arith, file_at_end (suc k) fs (g - f.size))

-- The position of byte `o` of the file that stands after `fs`.
pub file_at_after :
    (k o : ℕ) (fs gs : List TorrentFile) (f : TorrentFile)
    → o < f.size
    → file_at k (fs ++ f ∷ gs) (total_size fs + o) ≡ some (k + length fs, o)
unfolding file_at total_size
file_at_after k o [] gs f h = ground arith
file_at_after k o (x ∷ fs) gs f h = rw (le→ltb (x.size + total_size fs + o) x.size (omega arith)) (
    ap (file_at (suc k) (fs ++ f ∷ gs)) (omega arith)
    ∙ file_at_after (suc k) o fs gs f h
    ∙ ap (λ m. some (m, o)) (omega arith))

pub total_size-append :
    (fs gs : List TorrentFile) → total_size (fs ++ gs) ≡ total_size fs + total_size gs
unfolding total_size
total_size-append [] gs = omega arith
total_size-append (f ∷ fs) gs = omega (arith, total_size-append fs gs)
