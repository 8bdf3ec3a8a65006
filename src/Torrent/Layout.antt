-- ===== src/Torrent/Layout.antt =====
-- That the files of a parsed torrent lie one behind the other.
use pixel_scrape.Base.{
  ℕ, zero, suc, ◌+◌, ◌*◌, ◌-◌, ◌/◌, ◌%◌, ◌<◌, ◌≡◌, refl, sym, ap, subst, ◌∙◌, inl, inr, true, false,
  ◌&&◌, Option, none, some, List, [], ◌∷◌, ◌++◌, arith, ltb, leb, ◌==◌, if◌then◌else◌, Bool-cases,
  Option-cases, length, get_elem?, take, drop, All, length-take, length-drop, take-append-drop,
}
use pixel_scrape.Base.Bytes.{Bytes, codes, size_mod}
use pixel_scrape.Decimal.{ℤ, pos, negsuc}
use pixel_scrape.Bencode.{Items, Fields, integer, string, list, dict, no_items, item, find}
use pixel_scrape.Bencode.Parser.{Result, ok, failed, out_of_fuel, ◌>>=◌}
use pixel_scrape.Torrent.{TorrentFile}
use pixel_scrape.Torrent.Reading.{
  split_hashes, parse_pieces, parse_files, parse_file, add_lengths, parse_layout, find_file_at,
  to_size, find_list, hash_size,
}
use pixel_scrape.PieceManager.{concat}
use pixel_scrape.PieceManager.Mapping.{file_at, total_size}
use pixel_scrape.PieceManager.Storage.Pieces.{file_at_inside}

-- Each file begins where the one before it ends, the first at `offset`.
abbrev pub AreJoined : ℕ → List TorrentFile → Type 0
AreJoined offset [] = Unit
AreJoined offset (f ∷ fs) = (f.offset ≡ some offset) × AreJoined ((offset + f.size) % size_mod) fs

pub ok_inj {ℓ} : {A : Type ℓ} {a b : A} → ok a ≡ ok b → a ≡ b
ok_inj e = cc

-- A step that must have succeeded.
pub >>=-ok {ℓ κ} :
    {A : Type ℓ} {B : Type κ} (r : Result A) (f : A → Result B) {b : B}
    → (r >>= f) ≡ ok b
    → (a : A) × (r ≡ ok a) × (f a ≡ ok b)
>>=-ok (ok a) f e = (a, refl, e)
>>=-ok failed f e = absurd (cc)
>>=-ok out_of_fuel f e = absurd (cc)

to_size_lt : (z : ℤ) → to_size z < size_mod
unfolding to_size
to_size_lt (pos n) = omega arith
to_size_lt (negsuc n) = omega arith

pub parse_files-AreJoined :
    (xs : Items) (name : Bytes) (offset : ℕ) (files : List TorrentFile)
    → parse_files xs name offset ≡ ok files
    → AreJoined offset files
unfolding parse_files
parse_files-AreJoined no_items name offset files e = subst (AreJoined offset) (ok_inj e) tt
parse_files-AreJoined (item (dict fs) rest) name offset files e =
    let (a, _, e1) = >>=-ok (parse_file name fs) _ e in
    let (more, e2, e3) = >>=-ok (parse_files rest name ((offset + a.1) % size_mod)) _ e1 in
    subst (AreJoined offset) (ok_inj e3)
      (refl, parse_files-AreJoined rest name ((offset + a.1) % size_mod) more e2)
parse_files-AreJoined (item (integer _) rest) name offset files e = absurd (cc)
parse_files-AreJoined (item (string _) rest) name offset files e = absurd (cc)
parse_files-AreJoined (item (list _) rest) name offset files e = absurd (cc)

add_lengths-total_size :
    (files : List TorrentFile) (total : ℕ)
    → total < size_mod
    → add_lengths files total ≡ (total + total_size files) % size_mod
unfolding add_lengths total_size
add_lengths-total_size [] total h = omega arith
add_lengths-total_size (f ∷ fs) total h =
    add_lengths-total_size fs ((total + f.size) % size_mod) (omega arith) ∙ omega arith

-- The files are joined, and the total is their length.
abbrev pub IsLaidOut : List TorrentFile × ℕ → Type 0
IsLaidOut (files, total) = AreJoined 0 files × (total ≡ total_size files % size_mod)

parse_layout-single :
    (name : Bytes) (z : ℤ)
    → IsLaidOut (record { path = name; size = to_size z; offset = some 0 } ∷ [], to_size z)
unfolding total_size
parse_layout-single name z = ((refl, tt), omega (arith, to_size_lt z))

parse_layout-many :
    (info : Fields) (name : Bytes) (r : List TorrentFile × ℕ)
    → (find_list (codes "files") info >>= λ xs.
        parse_files xs name 0 >>= λ files. ok (files, add_lengths files 0))
      ≡ ok r
    → IsLaidOut r
parse_layout-many info name r e =
    let (xs, _, e1) = >>=-ok (find_list (codes "files") info) _ e in
    let (files, e2, e3) = >>=-ok (parse_files xs name 0) _ e1 in
    subst IsLaidOut (ok_inj e3) (
      parse_files-AreJoined xs name 0 files e2,
      add_lengths-total_size files 0 (omega arith) ∙ ap (λ n. n % size_mod) (omega arith),
    )

pub parse_layout-IsLaidOut :
    (info : Fields) (name : Bytes) (r : List TorrentFile × ℕ)
    → parse_layout info name ≡ ok r
    → IsLaidOut r
unfolding parse_layout
parse_layout-IsLaidOut info name r e = elim (Option-cases (find (codes "length") info)) [
  | inl missing ↦ parse_layout-many info name r (rw (missing, parse_layout) at e)
  | inr (integer z, found) ↦
      subst IsLaidOut (ok_inj (rw (found, parse_layout) at e)) (parse_layout-single name z)
  | inr (string _, found) ↦ parse_layout-many info name r (rw (found, parse_layout) at e)
  | inr (list _, found) ↦ parse_layout-many info name r (rw (found, parse_layout) at e)
  | inr (dict _, found) ↦ parse_layout-many info name r (rw (found, parse_layout) at e)
]

split_hashes-concat :
    (n : ℕ) (xs : Bytes)
    → length xs ≡ n * hash_size
    → (concat (split_hashes n xs) ≡ xs) × All (λ h. length h ≡ hash_size) (split_hashes n xs)
unfolding split_hashes concat
split_hashes-concat zero [] e = (refl, tt)
split_hashes-concat zero (x ∷ xs) e = absurd (omega arith)
split_hashes-concat (suc n) xs e =
    let (c, h) =
      split_hashes-concat n (drop hash_size xs) (omega (arith, length-drop hash_size xs)) in
    (
      ap (◌++◌ (take hash_size xs)) c ∙ take-append-drop hash_size xs,
      (omega (arith, length-take hash_size xs), h),
    )

pub parse_pieces-concat :
    (xs : Bytes) (hashes : List Bytes)
    → parse_pieces xs ≡ ok hashes
    → (concat hashes ≡ xs) × All (λ h. length h ≡ hash_size) hashes
unfolding parse_pieces
parse_pieces-concat xs hashes e = elim (Bool-cases (length xs % hash_size == 0)) [
  | inr odd ↦ let e' = rw (odd, parse_pieces) at e in absurd (cc)
  | inl even ↦
      subst (λ hs. (concat hs ≡ xs) × All (λ h. length h ≡ hash_size) hs)
        (ok_inj (rw (even, parse_pieces) at e))
        (split_hashes-concat (length xs / hash_size) xs (ground arith))
]

-- The file with its number counted from `k`.
abbrev pub found_file : ℕ → List TorrentFile → Option (ℕ × ℕ) → Option TorrentFile
found_file k files place = elim place [ none ↦ none | some p ↦ get_elem? files (p.0 - k) ]

found_next :
    (f : TorrentFile) (fs : List TorrentFile) (k g : ℕ)
    → found_file (suc k) fs (file_at (suc k) fs g) ≡ found_file k (f ∷ fs) (file_at (suc k) fs g)
found_next f fs k g = elim (Option-cases (file_at (suc k) fs g)) [
  | inl e ↦ rw e
  | inr (p, e) ↦
      let (_, later, _, _) = file_at_inside (suc k) fs g p.0 p.1 e in
      let z : p.0 - k ≡ suc (p.0 - suc k) = omega arith in rw e (sym (ap (get_elem? (f ∷ fs)) z))
]

find_file_at_cons :
    (f : TorrentFile) (fs : List TorrentFile) (start g : ℕ)
    → f.offset ≡ some start
    → find_file_at (f ∷ fs) g
      ≡ (if leb start g && ltb g ((start + f.size) % size_mod) then some f else find_file_at fs g)
unfolding find_file_at
find_file_at_cons f fs start g e =
    ap
      (λ o. elim o [
        | none ↦ find_file_at fs g
        | some start ↦
            if leb start g && ltb g ((start + f.size) % size_mod) then some f else find_file_at fs g
      ])
      e

-- `get_file_at_offset` in files that are joined: the file that `file_at` finds.
pub find_file_at-file_at :
    (files : List TorrentFile) (offset k g : ℕ)
    → AreJoined offset files
    → offset + total_size files < size_mod
    → find_file_at files (offset + g) ≡ found_file k files (file_at k files g)
unfolding find_file_at file_at total_size
find_file_at-file_at [] offset k g joined small = refl
find_file_at-file_at (f ∷ fs) offset k g joined small =
    find_file_at_cons f fs offset (offset + g) joined.0 ∙ (elim (Bool-cases (ltb g f.size)) [
      | inl here ↦
          let inside : (leb offset (offset + g) && ltb (offset + g) ((offset + f.size) % size_mod))
              ≡ true =
            ground arith in
          let z : k - k ≡ 0 = omega arith in
          rw inside (rw (here, file_at) (sym (ap (get_elem? (f ∷ fs)) z)))
      | inr past ↦
          let outside : (leb offset (offset + g) && ltb (offset + g) ((offset + f.size) % size_mod))
              ≡ false =
            ground arith in
          let next : (offset + f.size) % size_mod ≡ offset + f.size = omega arith in
          let back : offset + g ≡ offset + f.size + (g - f.size) = ground arith in
          rw outside (
            rw (past, file_at)
              (ap (find_file_at fs) back
                ∙ find_file_at-file_at fs (offset + f.size) (suc k) (g - f.size)
                    (subst (λ o. AreJoined o fs) next joined.1) (omega arith)
                ∙ found_next f fs k (g - f.size)))
    ])
