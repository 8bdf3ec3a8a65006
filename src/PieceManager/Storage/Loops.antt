-- ===== src/PieceManager/Storage/Loops.antt =====
-- The loops of `write_piece` and `read_piece` over the mappings of a piece.
use pixel_scrape.Base.{
  ℕ, ◌+◌, ◌-◌, ◌≤◌, ◌<◌, ◌≡◌, ◌≢◌, refl, sym, ap, subst, ◌∙◌, inl, inr, true, some, List, [], ◌∷◌,
  ◌++◌, arith, ltb, Bool-cases, length, get_elem?, take, drop, length-take, length-drop, lt→ltb,
  le→ltb, ltb→lt, some_eq, All, length-append,
}
use pixel_scrape.Base.Bytes.{Bytes}
use pixel_scrape.Torrent.{TorrentFile}
use pixel_scrape.PieceManager.{FileMapping}
use pixel_scrape.PieceManager.Mapping.{locate, sum_sizes}
use pixel_scrape.PieceManager.Storage.{
  Disk, put_file, splice, write_mappings, read_mappings, append_reading, reads,
}
use pixel_scrape.PieceManager.Storage.Cells.{
  get_elem?-of_drop, get_elem?-take, get_elem?-append_before, get_elem?-append_after,
}
use pixel_scrape.PieceManager.Storage.Flat.{
  cell, cell_open, ArePathsDistinct, IsAllocated, IsInFile, after, cell-after, cell-after_other,
  after-IsAllocated,
}

pub locate_head :
    (m : FileMapping) (ms : List FileMapping) (j : ℕ)
    → j < m.size
    → locate (m ∷ ms) j ≡ some (m.file_index, m.file_offset + j)
unfolding locate
locate_head m ms j h = rw (lt→ltb j m.size h)

pub locate_tail :
    (m : FileMapping) (ms : List FileMapping) (j : ℕ) → locate (m ∷ ms) (m.size + j) ≡ locate ms j
unfolding locate
locate_tail m ms j =
    let e : m.size + j - m.size ≡ j = omega arith in
    rw (le→ltb (m.size + j) m.size (omega arith)) (ap (locate ms) e)

-- No place of a file holds two bytes of the piece.
abbrev pub IsOneToOne : List FileMapping → Type 0
IsOneToOne ms = (j j' : ℕ) (p : ℕ × ℕ) → locate ms j ≡ some p → locate ms j' ≡ some p → j ≡ j'

IsOneToOne-tail : (m : FileMapping) (ms : List FileMapping) → IsOneToOne (m ∷ ms) → IsOneToOne ms
IsOneToOne-tail m ms one j j' p e e' =
    omega
      (arith, one (m.size + j) (m.size + j') p (locate_tail m ms j ∙ e) (locate_tail m ms j' ∙ e'))

-- The disk after the bytes of a piece were written to their places.
pub record Written (files : List TorrentFile) (ms : List FileMapping) (bytes : Bytes)
    (disk disk' : Disk) : Type 0 where
  pub stays : IsAllocated files disk'
  pub written : (j k o : ℕ) → locate ms j ≡ some (k, o) → cell files disk' k o ≡ get_elem? bytes j
  pub kept :
      (k o : ℕ) → ((j : ℕ) → locate ms j ≢ some (k, o)) → cell files disk' k o ≡ cell files disk k o

module _ (files : List TorrentFile) (distinct : ArePathsDistinct files) where
  write_mappings_cons :
      (disk : Disk) (m : FileMapping) (ms : List FileMapping) (bytes : Bytes) (f : TorrentFile)
      (old : Bytes)
      → get_elem? files m.file_index ≡ some f
      → disk f.path ≡ some old
      → m.size ≤ length bytes
      → write_mappings files disk (m ∷ ms) bytes
        ≡ write_mappings files
            (put_file disk f.path (splice old m.file_offset (take m.size bytes)))
            ms
            (drop m.size bytes)
  unfolding write_mappings
  write_mappings_cons disk m ms bytes f old found was enough =
      rw (found, write_mappings) (rw was (rw (le→ltb (length bytes) m.size enough)))

  pub write_mappings-Written :
      (ms : List FileMapping) (disk : Disk) (bytes : Bytes)
      → All (IsInFile files) ms
      → IsOneToOne ms
      → sum_sizes ms ≤ length bytes
      → IsAllocated files disk
      → (disk' : Disk) × (write_mappings files disk ms bytes ≡ some (disk', true))
        × Written files ms bytes disk disk'
  unfolding sum_sizes
  write_mappings-Written [] disk bytes inside one enough allocated = (
    disk,
    unfold write_mappings in refl,
    record { stays = allocated; written = λ j k o e. unfold locate in cc; kept = λ k o _. refl },
  )
  write_mappings-Written (m ∷ ms) disk bytes inside one enough allocated =
      let (f, found, within) = inside.0 in
      let (old, was, _) = allocated m.file_index f found in
      let new = take m.size bytes in
      let sized : length new ≡ m.size = omega (arith, length-take m.size bytes) in
      let next = after files distinct disk allocated m f found within old was new sized in
      let (disk', e, w) =
        write_mappings-Written ms next (drop m.size bytes) inside.1 (IsOneToOne-tail m ms one)
          (omega (arith, length-drop m.size bytes))
          (after-IsAllocated files distinct disk allocated m f found within old was new sized) in
      (
        disk',
        write_mappings_cons disk m ms bytes f old found was (omega arith) ∙ e,
        record {
          stays = w.stays;
          written = λ j k o spot. elim (Bool-cases (ltb j m.size)) [
            | inl head ↦
                let lt = ltb→lt j m.size head in
                let here : some (m.file_index, m.file_offset + j) ≡ some (k, o) =
                  sym (locate_head m ms j lt) ∙ spot in
                let same = some_eq here in
                w.kept k o (λ i e.
                  let both : j ≡ m.size + i =
                    one j (m.size + i) (k, o) spot (locate_tail m ms i ∙ e) in
                  absurd (omega arith))
                ∙ subst (λ p. cell files next p.0 p.1 ≡ get_elem? bytes j) same
                    (cell-after files distinct disk allocated m f found within old was new sized j
                        lt
                      ∙ get_elem?-take m.size j bytes lt)
            | inr tail ↦
                let e : m.size + (j - m.size) ≡ j = ground arith in
                w.written (j - m.size) k o
                  (sym (locate_tail m ms (j - m.size)) ∙ ap (locate (m ∷ ms)) e ∙ spot)
                ∙ get_elem?-of_drop m.size (j - m.size) bytes
                ∙ ap (get_elem? bytes) e
          ];
          kept = λ k o free.
              w.kept k o (λ i e. free (m.size + i) (locate_tail m ms i ∙ e))
              ∙ cell-after_other files distinct disk allocated m f found within old was new sized k
                  o (λ t lt same at. free t (locate_head m ms t lt ∙ cc (same, at)));
        },
      )

module _ (files : List TorrentFile) (disk : Disk) (allocated : IsAllocated files disk) where
  read_mappings_cons :
      (m : FileMapping) (ms : List FileMapping) (room : ℕ) (f : TorrentFile) (content : Bytes)
      → get_elem? files m.file_index ≡ some f
      → disk f.path ≡ some content
      → m.file_offset + m.size ≤ length content
      → m.size ≤ room
      → read_mappings files disk (m ∷ ms) room
        ≡ append_reading
            (take m.size (drop m.file_offset content))
            (read_mappings files disk ms (room - m.size))
  unfolding read_mappings
  read_mappings_cons m ms room f content found was within fits =
      let bytes = take m.size (drop m.file_offset content) in
      let sized : length bytes ≡ m.size = omega (
        arith,
        length-take m.size (drop m.file_offset content),
        length-drop m.file_offset content,
      ) in
      rw (found, read_mappings)
        (rw was (
          rw (le→ltb room (length bytes) (omega arith))
            (rw (le→ltb (length bytes) m.size (omega arith)))))

  append_reading-reads : (xs ys : Bytes) → append_reading xs (reads ys) ≡ reads (xs ++ ys)
  unfolding append_reading
  append_reading-reads xs ys = refl

  -- The bytes read are those at the places of the piece's bytes.
  pub read_mappings-reads :
      (ms : List FileMapping)
      → All (IsInFile files) ms
      → (xs : Bytes) × (read_mappings files disk ms (sum_sizes ms) ≡ reads xs)
        × (length xs ≡ sum_sizes ms)
        × ((j k o : ℕ) → locate ms j ≡ some (k, o) → get_elem? xs j ≡ cell files disk k o)
  unfolding sum_sizes
  read_mappings-reads [] inside =
      ([], unfold read_mappings in refl, refl, λ j k o e. unfold locate in cc)
  read_mappings-reads (m ∷ ms) inside =
      let (f, found, within) = inside.0 in
      let (content, was, full) = allocated m.file_index f found in
      let (ys, e, l, at) = read_mappings-reads ms inside.1 in
      let bytes = take m.size (drop m.file_offset content) in
      let sized : length bytes ≡ m.size = omega (
        arith,
        length-take m.size (drop m.file_offset content),
        length-drop m.file_offset content,
      ) in
      let room : m.size + sum_sizes ms - m.size ≡ sum_sizes ms = omega arith in
      (
        bytes ++ ys,
        read_mappings_cons m ms (m.size + sum_sizes ms) f content found was (omega arith)
              (omega arith)
            ∙ ap (λ r. append_reading bytes (read_mappings files disk ms r)) room
            ∙ ap (append_reading bytes) e
            ∙ append_reading-reads bytes ys,
        omega (arith, length-append bytes ys),
        λ j k o spot. elim (Bool-cases (ltb j m.size)) [
          | inl head ↦
              let lt = ltb→lt j m.size head in
              let same : (m.file_index, m.file_offset + j) ≡ (k, o) =
                some_eq (sym (locate_head m ms j lt) ∙ spot) in
              get_elem?-append_before bytes ys j (omega arith)
              ∙ get_elem?-take m.size j (drop m.file_offset content) lt
              ∙ get_elem?-of_drop m.file_offset j content
              ∙ subst (λ p. get_elem? content (m.file_offset + j) ≡ cell files disk p.0 p.1) same
                  (sym (cell_open files disk m.file_index (m.file_offset + j) f content found was))
          | inr tail ↦
              let back : m.size + (j - m.size) ≡ j = ground arith in
              let split : j ≡ length bytes + (j - m.size) = omega arith in
              ap (get_elem? (bytes ++ ys)) split
              ∙ get_elem?-append_after bytes ys (j - m.size)
              ∙ at (j - m.size) k o
                  (sym (locate_tail m ms (j - m.size)) ∙ ap (locate (m ∷ ms)) back ∙ spot)
        ],
      )
