-- ===== src/PieceManager/Storage/Creation.antt =====
-- The disk that a new manager starts with.
use pixel_scrape.Base.{
  ℕ, zero, suc, ◌+◌, ◌-◌, ◌<◌, ◌≡◌, ◌≢◌, refl, sym, ap, subst, ◌∙◌, inl, inr, Bool, true, false,
  not, ◌&&◌, ◌||◌, some, List, [], ◌∷◌, ◌++◌, arith, ltb, all, if◌then◌else◌, get_elem?, drop-of_le,
  resize, replicate, length-replicate, some_eq, none-ne-some, Bool-cases,
}
use pixel_scrape.Base.Bytes.{Bytes}
use pixel_scrape.Torrent.{TorrentFile, TorrentMetadata}
use pixel_scrape.PieceManager.Mapping.{total_size}
use pixel_scrape.PieceManager.Storage.{Disk, put_file, splice, create_file, create_files}
use pixel_scrape.PieceManager.Storage.Cells.{put_file_self, put_file_other}
use pixel_scrape.PieceManager.Storage.Flat.{ArePathsDistinct, IsAllocated, cell_open}
use pixel_scrape.PieceManager.Storage.Pieces.{file_at_found, file_at_inside}
use pixel_scrape.PieceManager.Storage.Refines.{byte_at, byte_at_place}

-- A disk on which the files are there at full size, and hold zeros only.
abbrev pub IsBlank : List TorrentFile → Disk → Type 0
IsBlank files disk =
    (k : ℕ) (f : TorrentFile) → get_elem? files k ≡ some f → disk f.path ≡ some (replicate f.size 0)

ArePathsDistinct-tail :
    (f : TorrentFile) (fs : List TorrentFile) → ArePathsDistinct (f ∷ fs) → ArePathsDistinct fs
ArePathsDistinct-tail f fs d i j g h e e' same = omega (arith, d (suc i) (suc j) g h e e' same)

and_left : (a b : Bool) → (a && b) ≡ true → a ≡ true
and_left true b h = refl
and_left false b h = cc

and_right : (a b : Bool) → (a && b) ≡ true → b ≡ true
and_right true b h = h
and_right false b h = cc

resize_zeros : (n : ℕ) → ◌++◌ {A = ℕ} (resize n 0 []) (0 ∷ []) ≡ replicate (suc n) 0
resize_zeros zero = refl
resize_zeros (suc n) = ap (λ xs. 0 ∷ xs) (resize_zeros n)

-- A zero put at the last place of an empty file fills it with zeros.
splice_zeros : (n : ℕ) → splice [] n (0 ∷ []) ≡ replicate (suc n) 0
unfolding splice
splice_zeros n =
    ap (λ xs. ◌++◌ {A = ℕ} (resize n 0 []) (0 ∷ xs)) (drop-of_le (n + 1) [] (omega arith))
    ∙ resize_zeros n

module _ (opens writes : Bytes → Bool) where
  -- What the system must let the constructor do with a file.
  abbrev pub is_creatable : TorrentFile → Bool
  is_creatable f = opens f.path && (not (ltb 0 f.size) || writes f.path)

  -- What is known of the disk and of the result after one file.
  record IsMade (f : TorrentFile) (disk : Disk) (r : Disk × Bool) : Type 0 where
    flag : r.1 ≡ is_creatable f
    other : (p : Bytes) → p ≢ f.path → r.0 p ≡ disk p
    made : is_creatable f ≡ true → r.0 f.path ≡ some (replicate f.size 0)

  truncated-other :
      (f : TorrentFile) (disk : Disk) (p : Bytes) → p ≢ f.path → put_file disk f.path [] p ≡ disk p
  truncated-other f disk p ne = put_file_other disk f.path [] p ne

  written-zeros :
      (n : ℕ) → ltb 0 n ≡ true → some (splice [] (n - 1) (0 ∷ [])) ≡ some (replicate n 0)
  written-zeros zero h = cc
  written-zeros (suc n) h =
      let back : suc n - 1 ≡ n = omega arith in
      ap (λ k. some (splice [] k (0 ∷ []))) back ∙ ap some (splice_zeros n)

  no_zeros : (n : ℕ) → ltb 0 n ≡ false → some [] ≡ some (replicate {A = ℕ} n 0)
  no_zeros n h =
      let none_left : 0 ≡ n = ground (arith, h) in ap (λ k. some (replicate {A = ℕ} k 0)) none_left

  create_file-IsMade :
      (f : TorrentFile) (disk : Disk) → IsMade f disk (create_file opens writes f disk)
  unfolding create_file
  create_file-IsMade f disk =
      let opened = put_file disk f.path [] in
      let zeros = splice [] (f.size - 1) (0 ∷ []) in
      elim (Bool-cases (opens f.path)) [
        | inr shut ↦ rw shut (record {
          flag = sym (ap (λ b. b && (not (ltb 0 f.size) || writes f.path)) shut);
          other = λ p ne. refl;
          made = λ e. absurd (ground (arith, shut, e));
        })
        | inl free ↦ elim (Bool-cases (ltb 0 f.size)) [
          | inr nothing ↦
              rw (free, nothing)
                (record {
                  flag = ground (arith, free, nothing);
                  other = truncated-other f disk;
                  made = λ e. put_file_self disk f.path [] ∙ no_zeros f.size nothing;
                })
          | inl bytes ↦ elim (Bool-cases (writes f.path)) [
            | inr full ↦
                rw (free, bytes, full)
                  (record {
                    flag = ground (arith, free, bytes, full);
                    other = truncated-other f disk;
                    made = λ e. absurd (ground (arith, bytes, full, e));
                  })
            | inl room ↦
                rw (free, bytes, room)
                  (record {
                    flag = ground (arith, free, room);
                    other = λ p ne.
                        put_file_other opened f.path zeros p ne ∙ truncated-other f disk p ne;
                    made = λ e. put_file_self opened f.path zeros ∙ written-zeros f.size bytes;
                  })
          ]
        ]
      ]

  -- The loop goes on behind a file that could be made, and ends at one that could not.
  create_files-on :
      (f : TorrentFile) (fs : List TorrentFile) (disk : Disk)
      → is_creatable f ≡ true
      → create_files opens writes (f ∷ fs) disk
        ≡ create_files opens writes fs (create_file opens writes f disk).0
  unfolding create_files
  create_files-on f fs disk h =
      let r = create_file opens writes f disk in
      ap (λ (b : Bool). if b then create_files opens writes fs r.0 else r)
        ((create_file-IsMade f disk).flag ∙ h)

  create_files-ends :
      (f : TorrentFile) (fs : List TorrentFile) (disk : Disk)
      → is_creatable f ≡ false
      → create_files opens writes (f ∷ fs) disk ≡ create_file opens writes f disk
  unfolding create_files
  create_files-ends f fs disk h =
      let r = create_file opens writes f disk in
      ap (λ (b : Bool). if b then create_files opens writes fs r.0 else r)
        ((create_file-IsMade f disk).flag ∙ h)

  create_files-flag :
      (fs : List TorrentFile) (disk : Disk)
      → (create_files opens writes fs disk).1 ≡ all is_creatable fs
  create_files-flag [] disk = unfold create_files in refl
  create_files-flag (f ∷ fs) disk = elim (Bool-cases (is_creatable f)) [
    | inl good ↦
        ap (λ (r : Disk × Bool). r.1) (create_files-on f fs disk good)
        ∙ create_files-flag fs (create_file opens writes f disk).0
        ∙ sym (ap (λ b. b && all is_creatable fs) good)
    | inr bad ↦
        ap (λ (r : Disk × Bool). r.1) (create_files-ends f fs disk bad)
        ∙ (create_file-IsMade f disk).flag
        ∙ bad
        ∙ sym (ap (λ b. b && all is_creatable fs) bad)
  ]

  create_files_kept :
      (fs : List TorrentFile) (disk : Disk) (p : Bytes)
      → ((k : ℕ) (f : TorrentFile) → get_elem? fs k ≡ some f → p ≢ f.path)
      → (create_files opens writes fs disk).0 p ≡ disk p
  create_files_kept [] disk p ne = unfold create_files in refl
  create_files_kept (f ∷ fs) disk p ne =
      let kept = (create_file-IsMade f disk).other p (ne 0 f refl) in
      elim (Bool-cases (is_creatable f)) [
        | inl good ↦
            ap (λ (r : Disk × Bool). r.0 p) (create_files-on f fs disk good)
            ∙ create_files_kept fs (create_file opens writes f disk).0 p (λ k. ne (suc k))
            ∙ kept
        | inr bad ↦ ap (λ (r : Disk × Bool). r.0 p) (create_files-ends f fs disk bad) ∙ kept
      ]

  -- Whatever the files held before, the constructor leaves files of the right sizes full of zeros.
  pub create_files-IsBlank :
      (files : List TorrentFile) (disk : Disk)
      → ArePathsDistinct files
      → all is_creatable files ≡ true
      → IsBlank files (create_files opens writes files disk).0
  create_files-IsBlank [] disk d c k f e = none-ne-some e
  create_files-IsBlank (g ∷ fs) disk d c zero f e =
      let good : is_creatable g ≡ true = and_left (is_creatable g) (all is_creatable fs) c in
      let same : g ≡ f = some_eq e in
      let after = (create_file opens writes g disk).0 in
      ap (λ (r : Disk × Bool). r.0 f.path) (create_files-on g fs disk good)
      ∙ subst (λ h. (create_files opens writes fs after).0 h.path ≡ some (replicate h.size 0)) same
          (create_files_kept fs after g.path
              (λ k h at q. absurd (omega (arith, d 0 (suc k) g h refl at q)))
            ∙ (create_file-IsMade g disk).made good)
  create_files-IsBlank (g ∷ fs) disk d c (suc k) f e =
      let good : is_creatable g ≡ true = and_left (is_creatable g) (all is_creatable fs) c in
      let others = and_right (is_creatable g) (all is_creatable fs) c in
      ap (λ (r : Disk × Bool). r.0 f.path) (create_files-on g fs disk good)
      ∙ create_files-IsBlank fs (create_file opens writes g disk).0 (ArePathsDistinct-tail g fs d)
          others k f e

pub IsBlank-IsAllocated :
    (files : List TorrentFile) (disk : Disk) → IsBlank files disk → IsAllocated files disk
IsBlank-IsAllocated files disk blank k f e =
    (replicate f.size 0, blank k f e, length-replicate f.size 0)

get_elem?-replicate : (n i : ℕ) → i < n → get_elem? (replicate {A = ℕ} n 0) i ≡ some 0
get_elem?-replicate zero i h = absurd (omega arith)
get_elem?-replicate (suc n) zero h = refl
get_elem?-replicate (suc n) (suc i) h = get_elem?-replicate n i (omega arith)

-- Where the system opens every file and takes the last byte of each that is not empty, and the files
-- have different paths, the constructor does not throw, and every byte of the torrent on the disk is
-- 0, whatever the files held before.
pub byte_at-create_files :
    (opens writes : Bytes → Bool) (m : TorrentMetadata) (disk : Disk) (g : ℕ)
    → ArePathsDistinct m.files
    → g < total_size m.files
    → all (is_creatable opens writes) m.files ≡ true
    → ((create_files opens writes m.files disk).1 ≡ true)
      × (byte_at m (create_files opens writes m.files disk).0 g ≡ some 0)
byte_at-create_files opens writes m disk g d h c =
    let after = (create_files opens writes m.files disk).0 in
    let (p, spot) = file_at_found 0 m.files g h in
    let (f, _, found, inside) = file_at_inside 0 m.files g p.0 p.1 spot in
    let z : p.0 - 0 ≡ p.0 = omega arith in
    let found' = sym (ap (get_elem? m.files) z) ∙ found in
    (
      create_files-flag opens writes m.files disk ∙ c,
      byte_at_place m after g p spot
          ∙ cell_open m.files after p.0 p.1 f (replicate f.size 0) found'
              (create_files-IsBlank opens writes m.files disk d c p.0 f found')
          ∙ get_elem?-replicate f.size p.1 inside,
    )
