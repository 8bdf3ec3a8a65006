-- ===== src/Torrent/Whole.antt =====
-- The metadata of a torrent as a whole.
use pixel_scrape.Base.{ℕ, ◌+◌, ◌<◌, ◌≡◌, refl, sym, ap, subst, ◌∙◌, arith, length, All}
use pixel_scrape.Base.Bytes.{Bytes, codes, size_mod}
use pixel_scrape.Bencode.{Fields, dict, encode}
use pixel_scrape.Bencode.Parser.{ok}
use pixel_scrape.Sha1.{hash}
use pixel_scrape.PieceManager.{concat}
use pixel_scrape.PieceManager.Mapping.{file_at, total_size}
use pixel_scrape.Torrent.{TorrentMetadata}
use pixel_scrape.Torrent.Reading.{
  find_string, find_dict, find_integer, parse_pieces, parse_layout, parse_from_bencode,
  get_file_at_offset, hash_size,
}
use pixel_scrape.Torrent.Layout.{
  ok_inj, >>=-ok, IsLaidOut, parse_layout-IsLaidOut, parse_pieces-concat, find_file_at-file_at,
  found_file,
}

module _ (junk : Bytes) where
  -- What the metadata say is what stands in the dictionary: the hash is that of the info dictionary,
  -- the piece hashes are its `pieces` cut into twenties, and the files lie one behind the other.
  pub record Describes (fs : Fields) (m : TorrentMetadata) : Type 0 where
    pub info : Fields
    pub info_found : find_dict (codes "info") fs ≡ ok info
    pub hashed : m.info_hash ≡ hash junk (encode (dict info))
    pub pieces : find_string (codes "pieces") info ≡ ok (concat m.piece_hashes)
    pub twenties : All (λ h. length h ≡ hash_size) m.piece_hashes
    pub laid_out : IsLaidOut (m.files, m.total_length)

  pub parse_from_bencode-Describes :
      (fs : Fields) (m : TorrentMetadata) → parse_from_bencode junk fs ≡ ok m → Describes fs m
  unfolding parse_from_bencode
  parse_from_bencode-Describes fs m e =
      let (announce, _, e1) = >>=-ok (find_string (codes "announce") fs) _ e in
      let (info, found, e2) = >>=-ok (find_dict (codes "info") fs) _ e1 in
      let (name, _, e3) = >>=-ok (find_string (codes "name") info) _ e2 in
      let (z, _, e4) = >>=-ok (find_integer (codes "piece length") info) _ e3 in
      let (pieces, text, e5) = >>=-ok (find_string (codes "pieces") info) _ e4 in
      let (hashes, cut, e6) = >>=-ok (parse_pieces pieces) _ e5 in
      let (layout, laid, e7) = >>=-ok (parse_layout info name) _ e6 in
      let (joined, twenty) = parse_pieces-concat pieces hashes cut in
      subst (Describes fs) (ok_inj e7) (record {
        info = info;
        info_found = found;
        hashed = refl;
        pieces = text ∙ ap ok (sym joined);
        twenties = twenty;
        laid_out = parse_layout-IsLaidOut info name layout laid;
      })

  -- In a parsed torrent the file at an offset is the one that has that byte of the joined files.
  pub get_file_at_offset-parse_from_bencode :
      (fs : Fields) (m : TorrentMetadata) (g : ℕ)
      → parse_from_bencode junk fs ≡ ok m
      → total_size m.files < size_mod
      → get_file_at_offset m g ≡ found_file 0 m.files (file_at 0 m.files g)
  unfolding get_file_at_offset
  get_file_at_offset-parse_from_bencode fs m g e small =
      let joined = (parse_from_bencode-Describes fs m e).laid_out.0 in
      let start : 0 + g ≡ g = omega arith in
      sym (ap (get_file_at_offset m) start)
      ∙ find_file_at-file_at m.files 0 0 g joined (omega arith)
