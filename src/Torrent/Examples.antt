-- ===== src/Torrent/Examples.antt =====
-- A torrent with two files, the second in a folder.
use pixel_scrape.Base.{◌≡◌, refl, some, [], ◌∷◌, replicate}
use pixel_scrape.Base.Bytes.{Bytes, codes, equal}
use pixel_scrape.Decimal.{pos}
use pixel_scrape.Bencode.{
  Fields, integer, string, list, dict, no_items, item, no_fields, field, find, encode,
}
use pixel_scrape.Bencode.Parser.{ok}
use pixel_scrape.Sha1.{hash}
use pixel_scrape.Torrent.{TorrentMetadata}
use pixel_scrape.Torrent.Reading.{
  find_string, find_integer, find_list, find_dict, announce_urls, add_tiers, add_tier, contains,
  parse_pieces, split_hashes, parse_layout, parse_files, parse_file, join_path, append_path,
  ends_in_slash, to_size, add_lengths, parse_from_bencode,
}
use pixel_scrape.Torrent.Whole.{Describes, parse_from_bencode-Describes}

abbrev junk : Bytes
junk = replicate 64 0

abbrev info : Fields
info =
    field (codes "files")
      (list (
        item
          (dict (
            field (codes "length") (integer (pos 3))
              (field (codes "path") (list (item (string (codes "a")) no_items)) no_fields)))
          (item
            (dict (
              field (codes "length") (integer (pos 2)) (
                field (codes "path")
                  (list (item (string (codes "b")) (item (string (codes "c")) no_items)))
                  no_fields)))
            no_items)))
      (field (codes "name") (string (codes "d")) (
        field (codes "piece length") (integer (pos 8))
          (field (codes "pieces") (string (replicate 20 7)) no_fields)))

abbrev torrent : Fields
torrent = field (codes "announce") (string (codes "u")) (
    field (codes "announce-list")
      (list (item (list (item (string (codes "u")) (item (string (codes "v")) no_items))) no_items))
      (field (codes "info") (dict info) no_fields))

abbrev expected : TorrentMetadata
expected = record {
  announce = codes "u";
  announce_list = codes "u" ∷ codes "v" ∷ [];
  info_hash = hash junk (encode (dict info));
  name = codes "d";
  piece_length = 8;
  piece_hashes = replicate 20 7 ∷ [];
  total_length = 5;
  files =
      record { path = codes "d/a"; size = 3; offset = some 0 }
      ∷ record { path = codes "d/b/c"; size = 2; offset = some 3 }
      ∷ [];
}

torrent-expected : parse_from_bencode junk torrent ≡ ok expected
unfolding parse_from_bencode find equal find_string find_integer find_list find_dict announce_urls
    add_tiers add_tier contains parse_pieces split_hashes parse_layout parse_files parse_file
    join_path append_path ends_in_slash to_size add_lengths
torrent-expected = refl

parse_from_bencode-Describes_example : Describes junk torrent expected
parse_from_bencode-Describes_example =
    parse_from_bencode-Describes junk torrent expected torrent-expected
