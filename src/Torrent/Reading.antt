-- ===== src/Torrent/Reading.antt =====
-- `TorrentMetadataParser`: the metadata out of the bencoded value.
use pixel_scrape.Base.{
  ℕ, zero, suc, ◌+◌, ◌-◌, ◌/◌, ◌%◌, Bool, true, false, ◌&&◌, ◌||◌, Option, none, some, List, [],
  ◌∷◌, ◌++◌, ltb, leb, ◌==◌, if◌then◌else◌, length, take, drop,
}
use pixel_scrape.Base.Bytes.{Bytes, codes, equal, size_mod}
use pixel_scrape.Decimal.{ℤ, pos, negsuc}
use pixel_scrape.Bencode.{Items, Fields, integer, string, list, dict, no_items, item, find, encode}
use pixel_scrape.Bencode.Parser.{Result, ok, failed, ◌>>=◌, parse}
use pixel_scrape.Sha1.{hash}
use pixel_scrape.Torrent.{TorrentFile, TorrentMetadata}

-- `static_cast<size_t>` of an `int64_t`.
unfoldable pub to_size : ℤ → ℕ
to_size (pos n) = n % size_mod
to_size (negsuc n) = size_mod - 1 - n % size_mod

-- The entry of a dictionary, if it is there and of the type asked for.
unfoldable pub find_string : Bytes → Fields → Result Bytes
find_string key fs = elim (find key fs) [ some (string s) ↦ ok s | _ ↦ failed ]

unfoldable pub find_integer : Bytes → Fields → Result ℤ
find_integer key fs = elim (find key fs) [ some (integer z) ↦ ok z | _ ↦ failed ]

unfoldable pub find_list : Bytes → Fields → Result Items
find_list key fs = elim (find key fs) [ some (list xs) ↦ ok xs | _ ↦ failed ]

unfoldable pub find_dict : Bytes → Fields → Result Fields
find_dict key fs = elim (find key fs) [ some (dict gs) ↦ ok gs | _ ↦ failed ]

-- `std::find` in the announce list.
unfoldable pub contains : Bytes → List Bytes → Bool
contains url [] = false
contains url (u ∷ us) = equal u url || contains url us

-- The loop over a tier; entries that are no strings are passed over.
unfoldable pub add_tier : Items → List Bytes → List Bytes
add_tier no_items urls = urls
add_tier (item (string url) rest) urls =
    add_tier rest (if contains url urls then urls else urls ++ url ∷ [])
add_tier (item _ rest) urls = add_tier rest urls

-- The loop over the tiers.
unfoldable pub add_tiers : Items → List Bytes → List Bytes
unfolding add_tier
add_tiers no_items urls = urls
add_tiers (item (list tier) rest) urls = add_tiers rest (add_tier tier urls)
add_tiers (item _ rest) urls = add_tiers rest urls

unfoldable pub announce_urls : Bytes → Fields → List Bytes
announce_urls announce fs = elim (find (codes "announce-list") fs) [
  | some (list tiers) ↦ add_tiers tiers (announce ∷ [])
  | _ ↦ announce ∷ []
]

abbrev pub hash_size : ℕ
hash_size = 20

-- The loop of `parse_pieces`, `n` hashes long.
unfoldable pub split_hashes : ℕ → Bytes → List Bytes
split_hashes zero xs = []
split_hashes (suc n) xs = take hash_size xs ∷ split_hashes n (drop hash_size xs)

unfoldable pub parse_pieces : Bytes → Result (List Bytes)
parse_pieces xs =
    if length xs % hash_size == 0 then ok (split_hashes (length xs / hash_size) xs) else failed

-- `path::operator/=` of the standard library: an absolute path takes the place of what was there,
-- any other is put behind a separator, unless there is no file name to separate it from.
unfoldable pub ends_in_slash : Bytes → Bool
ends_in_slash [] = true
ends_in_slash (c ∷ []) = c == b'/'
ends_in_slash (c ∷ d ∷ cs) = ends_in_slash (d ∷ cs)

unfoldable pub append_path : Bytes → Bytes → Bytes
append_path path part =
    if equal (take 1 part) (b'/' ∷ [])
    then part
    else if ends_in_slash path
    then path ++ part
    else path ++ b'/' ∷ part

-- The loop over the components of a path.
unfoldable pub join_path : Items → Bytes → Result Bytes
join_path no_items path = ok path
join_path (item (string part) rest) path = join_path rest (append_path path part)
join_path (item _ rest) path = failed

-- The path and the length of an entry of `files`.
unfoldable pub parse_file : Bytes → Fields → Result (Bytes × ℕ)
parse_file name fs = do
  z ← find_integer (codes "length") fs
  parts ← find_list (codes "path") fs
  path ← join_path parts name
  ok (path, to_size z)

-- The loop of `parse_files`, from `current_offset` on.
unfoldable pub parse_files : Items → Bytes → ℕ → Result (List TorrentFile)
parse_files no_items name offset = ok []
parse_files (item (dict fs) rest) name offset = do
  (path, size) ← parse_file name fs
  files ← parse_files rest name ((offset + size) % size_mod)
  ok (record { path = path; size = size; offset = some offset } ∷ files)
parse_files (item _ rest) name offset = failed

-- `total_length += file.length` for each file.
unfoldable pub add_lengths : List TorrentFile → ℕ → ℕ
add_lengths [] total = total
add_lengths (f ∷ fs) total = add_lengths fs ((total + f.size) % size_mod)

-- The files and the total length.
unfoldable pub parse_layout : Fields → Bytes → Result (List TorrentFile × ℕ)
parse_layout info name = elim (find (codes "length") info) [
  | some (integer z) ↦
      ok (record { path = name; size = to_size z; offset = some 0 } ∷ [], to_size z)
  | _ ↦ find_list (codes "files") info >>= λ xs.
      parse_files xs name 0 >>= λ files. ok (files, add_lengths files 0)
]

-- `SHA1::hash`, whose object holds `junk` in its buffer.
module _ (junk : Bytes) where
  unfoldable pub parse_from_bencode : Fields → Result TorrentMetadata
  parse_from_bencode fs = do
    announce ← find_string (codes "announce") fs
    info ← find_dict (codes "info") fs
    name ← find_string (codes "name") info
    z ← find_integer (codes "piece length") info
    pieces ← find_string (codes "pieces") info
    hashes ← parse_pieces pieces
    (files, total) ← parse_layout info name
    ok (record {
      announce = announce;
      announce_list = announce_urls announce fs;
      info_hash = hash junk (encode (dict info));
      name = name;
      piece_length = to_size z;
      piece_hashes = hashes;
      total_length = total;
      files = files;
    })

  -- `parse` of the text of a torrent; the fuel is for the values in it.
  unfoldable pub parse_torrent : ℕ → Bytes → Result TorrentMetadata
  parse_torrent fuel text =
      parse fuel text >>= λ (v, _). elim v [ dict fs ↦ parse_from_bencode fs | _ ↦ failed ]

-- `TorrentMetadata::get_file_at_offset`.
unfoldable pub find_file_at : List TorrentFile → ℕ → Option TorrentFile
find_file_at [] g = none
find_file_at (f ∷ fs) g = elim f.offset [
  | none ↦ find_file_at fs g
  | some start ↦
      let rest = find_file_at fs g in
      if leb start g && ltb g ((start + f.size) % size_mod) then some f else rest
]

unfoldable pub get_file_at_offset : TorrentMetadata → ℕ → Option TorrentFile
get_file_at_offset m g = find_file_at m.files g
