-- ===== src/Tracker/Examples.antt =====
-- Announces on concrete data.
use pixel_scrape.Base.{◌≡◌, refl, some, none, [], ◌∷◌, ◌++◌, arith, All, replicate}
use pixel_scrape.Base.Bytes.{Bytes, codes, equal}
use pixel_scrape.Decimal.{pos, print_nat, print_int, skip_spaces, read_sign, read_digits}
use pixel_scrape.Bencode.{
  Fields, string, integer, dict, no_fields, field, encode, encode_string, join_entries,
  sort_entries, find, less,
}
use pixel_scrape.Bencode.RoundTrip.Canonical.{calls}
use pixel_scrape.Bencode.Parser.{Result, ok, failed}
use pixel_scrape.StateManager.{hex_byte}
use pixel_scrape.Torrent.{TorrentMetadata}
use pixel_scrape.Tracker.{
  PeerInfo, Report, is_alnum, is_unreserved, url_encode, build_tracker_url, skip_digits, scan_byte,
  scan_digits, scan_dot, scan_address, fetch, get_peers, to_string,
}
use pixel_scrape.Tracker.Announce.{url_decode, IsSafe, url_decode-url_encode}
use pixel_scrape.Tracker.Reply.{compact, response, get_peers-compact}

scanned : scan_address 3 (codes "10.0. 1.300x") ≡ some (10 ∷ 0 ∷ 1 ∷ 44 ∷ [])
unfolding scan_address scan_byte scan_digits scan_dot skip_digits read_sign skip_spaces read_digits
scanned = refl

not_scanned : scan_address 3 (codes "10.0.1") ≡ none
unfolding scan_address scan_byte scan_digits scan_dot skip_digits read_sign skip_spaces read_digits
not_scanned = refl

abbrev peer : PeerInfo
peer = record { ip = 10 ∷ 0 ∷ 0 ∷ 1 ∷ []; port = 6881 }

peer_text : to_string peer ≡ codes "10.0.0.1:6881"
unfolding to_string print_nat
peer_text = refl

url_decode-url_encode_example :
    (url_decode (url_encode (97 ∷ 37 ∷ 255 ∷ [])) ≡ 97 ∷ 37 ∷ 255 ∷ [])
    × All IsSafe (url_encode (97 ∷ 37 ∷ 255 ∷ []))
url_decode-url_encode_example =
    url_decode-url_encode (97 ∷ 37 ∷ 255 ∷ []) (omega arith, (omega arith, (omega arith, tt)))

abbrev torrent : TorrentMetadata
torrent = record {
  announce = codes "http://t/a";
  announce_list = [];
  info_hash = replicate 20 97;
  name = codes "n";
  piece_length = 8;
  piece_hashes = [];
  total_length = 0;
  files = [];
}

abbrev report : Report
report = record {
  peer_id = replicate 20 1;
  port = 6881;
  uploaded = 0;
  downloaded = 5;
  left = 10;
  event = codes "started";
  announce_url = none;
}

url :
    build_tracker_url torrent report
    ≡ codes "http://t/a?info_hash=aaaaaaaaaaaaaaaaaaaa"
      ++ (codes "&peer_id=%01%01%01%01%01%01%01%01%01%01%01%01%01%01%01%01%01%01%01%01"
          ++ codes "&port=6881&uploaded=0&downloaded=5&left=10&compact=1&event=started")
unfolding build_tracker_url url_encode is_unreserved is_alnum hex_byte print_nat
url = refl

abbrev reply : Fields
reply =
    field (codes "interval") (integer (pos 60))
      (field (codes "peers") (string (compact (peer ∷ []))) no_fields)

-- A tracker that always gives the same answer, by HTTP alone.
abbrev no_https : Bytes → Result Bytes
no_https address = failed

abbrev answering : Bytes → Result Bytes
answering address = ok (response (codes "HTTP/1.1 200 OK" ∷ []) (encode (dict reply)))

get_peers-compact_example : get_peers no_https answering 20 torrent report ≡ ok (peer ∷ [])
get_peers-compact_example =
    get_peers-compact no_https answering 20 torrent report (codes "HTTP/1.1 200 OK") [] reply
      (peer ∷ []) (unfold fetch equal build_tracker_url in refl) ((refl, refl), tt)
      (unfold less in (((refl, tt), (tt, tt)), (omega arith, (tt, tt))))
      (unfold encode less join_entries sort_entries encode_string print_int print_nat compact in
        omega arith)
      (unfold calls in omega arith) (unfold find equal in refl) (unfold find equal in refl)
      ((refl, omega arith), tt)
