-- ===== src/Tracker.antt =====
-- src/tracker/client.cpp: `TrackerClient`, which asks a tracker for peers. The request itself is
-- `Network` of include/network.hpp, here a parameter.
pub mod Announce
pub mod Reply
mod Examples
use pixel_scrape.Base.{
  ℕ, zero, suc, ◌+◌, ◌-◌, ◌*◌, ◌/◌, ◌%◌, ◌^◌, Bool, true, false, ◌&&◌, ◌||◌, Option, none, some,
  List, [], ◌∷◌, ◌++◌, leb, ◌==◌, if◌then◌else◌, length, get_or, take, drop, is_empty,
}
use pixel_scrape.Base.Bytes.{Bytes, codes, equal, size_mod}
use pixel_scrape.Decimal.{ℤ, pos, negsuc, is_digit, print_nat, skip_spaces, read_digits, read_sign}
use pixel_scrape.Bencode.{Value, Items, Fields, integer, string, list, dict, no_items, item, find}
use pixel_scrape.Bencode.Parser.{Result, ok, failed, ◌>>=◌, parse}
use pixel_scrape.StateManager.{hex_byte}
use pixel_scrape.Torrent.{TorrentMetadata}

pub record PeerInfo : Type 0 where
  pub ip : Bytes
  pub port : ℕ

-- `isalnum` of the "C" locale. It is called on a `char`: on a byte from 128 on the argument is
-- negative, where the standard leaves the call undefined; it is false there with glibc.
unfoldable pub is_alnum : ℕ → Bool
is_alnum c = (leb b'0' c && leb c b'9') || (leb b'A' c && leb c b'Z') || (leb b'a' c && leb c b'z')

unfoldable pub is_unreserved : ℕ → Bool
unfolding is_alnum
is_unreserved c = is_alnum c || c == b'-' || c == b'_' || c == b'.' || c == b'~'

unfoldable pub url_encode : Bytes → Bytes
url_encode [] = []
url_encode (c ∷ cs) = (if is_unreserved c then c ∷ [] else b'%' ∷ hex_byte c) ++ url_encode cs

-- What a request reports to the tracker.
pub record Report : Type 0 where
  pub peer_id : Bytes
  pub port : ℕ
  pub uploaded : ℕ
  pub downloaded : ℕ
  pub left : ℕ
  pub event : Bytes
  pub announce_url : Option Bytes

unfoldable pub build_tracker_url : TorrentMetadata → Report → Bytes
build_tracker_url m r =
    elim r.announce_url [ none ↦ m.announce | some url ↦ url ]
    ++ (codes "?info_hash="
        ++ (url_encode m.info_hash
            ++ (codes "&peer_id="
                ++ (url_encode r.peer_id
                    ++ (codes "&port="
                        ++ (print_nat r.port
                            ++ (codes "&uploaded="
                                ++ (print_nat r.uploaded
                                    ++ (codes "&downloaded="
                                        ++ (print_nat r.downloaded
                                            ++ (codes "&left="
                                                ++ (print_nat r.left
                                                    ++ (codes "&compact=1"
                                                        ++ (if is_empty r.event
                                                            then []
                                                            else codes "&event="
                                                            ++ r.event))))))))))))))

-- The loop of `parse_compact_peers`, `n` peers long.
unfoldable pub split_compact : ℕ → Bytes → List PeerInfo
split_compact zero xs = []
split_compact (suc n) xs =
    record { ip = take 4 xs; port = get_or xs 4 0 * 256 + get_or xs 5 0 }
    ∷ split_compact n (drop 6 xs)

unfoldable pub parse_compact_peers : Bytes → Result (List PeerInfo)
parse_compact_peers xs =
    if length xs % 6 == 0 then ok (split_compact (length xs / 6) xs) else failed

-- `%d` of `sscanf`: the number modulo 256, which is what its cast to a byte keeps, and the text
-- behind it. A number that is no `int` is undefined in the standard; its low byte is kept here.
unfoldable pub skip_digits : Bytes → Bytes
skip_digits [] = []
skip_digits (c ∷ cs) = if is_digit c then skip_digits cs else c ∷ cs

unfoldable pub scan_digits : Bool × Bytes → Option (ℕ × Bytes)
unfolding skip_digits
scan_digits (negative, []) = none
scan_digits (negative, c ∷ cs) =
    let n = read_digits 0 (c ∷ cs) % 256 in
    if is_digit c then some (if negative then (256 - n) % 256 else n, skip_digits cs) else none

unfoldable pub scan_byte : Bytes → Option (ℕ × Bytes)
scan_byte text = scan_digits (read_sign (skip_spaces text))

-- The literal `.` of the format.
unfoldable pub scan_dot : Bytes → Option Bytes
scan_dot [] = none
scan_dot (c ∷ cs) = if c == b'.' then some cs else none

-- `sscanf(ip_str, "%d.%d.%d.%d", ...) == 4`, for `n + 1` numbers.
unfoldable pub scan_address : ℕ → Bytes → Option Bytes
unfolding scan_byte scan_dot
scan_address zero text = elim (scan_byte text) [ none ↦ none | some (a, rest) ↦ some (a ∷ []) ]
scan_address (suc n) text = elim (scan_byte text) [
  | none ↦ none
  | some (a, rest) ↦ elim (scan_dot rest) [
    | none ↦ none
    | some more ↦ elim (scan_address n more) [ none ↦ none | some others ↦ some (a ∷ others) ]
  ]
]

-- The loop over a list of dictionaries: an entry that is no peer is passed over. The port is cast to
-- 16 bits.
unfoldable pub port_of : ℤ → ℕ
port_of (pos n) = n % 2 ^ 16
port_of (negsuc n) = 2 ^ 16 - 1 - n % 2 ^ 16

unfoldable pub read_listed : Option Value → Option Value → Option PeerInfo
unfolding port_of
read_listed (some (string text)) (some (integer z)) = elim (scan_address 3 text) [
  | none ↦ none
  | some ip ↦ some (record { ip = ip; port = port_of z })
]
read_listed _ _ = none

unfoldable pub list_peers : Items → List PeerInfo
list_peers no_items = []
list_peers (item (dict fs) rest) =
    let peers = list_peers rest in
    elim (read_listed (find (codes "ip") fs) (find (codes "port") fs)) [
      | none ↦ peers
      | some p ↦ p ∷ peers
    ]
list_peers (item _ rest) = list_peers rest

-- What follows the first empty line of an HTTP response.
unfoldable pub body_of : Bytes → Option Bytes
body_of [] = none
body_of (c ∷ cs) =
    let later = body_of cs in
    if equal (take 4 (c ∷ cs)) (13 ∷ 10 ∷ 13 ∷ 10 ∷ []) then some (drop 3 cs) else later

unfoldable pub peers_of : Option Value → Result (List PeerInfo)
peers_of (some (string xs)) = parse_compact_peers xs
peers_of (some (list xs)) = ok (list_peers xs)
peers_of _ = failed

-- A failure reason that is no string is passed over.
unfoldable pub read_reply : Fields → Result (List PeerInfo)
unfolding peers_of
read_reply fs = elim (find (codes "failure reason") fs) [
  | some (string _) ↦ failed
  | _ ↦ peers_of (find (codes "peers") fs)
]

unfoldable pub read_body : ℕ → Bytes → Result (List PeerInfo)
read_body fuel body = parse fuel body >>= λ (v, _). elim v [ dict fs ↦ read_reply fs | _ ↦ failed ]

-- An empty response has no empty line either: both throw.
unfoldable pub read_response : ℕ → Bytes → Result (List PeerInfo)
read_response fuel response = elim (body_of response) [
  | none ↦ failed
  | some body ↦ read_body fuel body
]

-- `https_get` and `http_get`, which throw or return the text of the response.
module _ (https_get http_get : Bytes → Result Bytes) where
  unfoldable pub fetch : Bytes → Result Bytes
  fetch url = if equal (take 8 url) (codes "https://") then https_get url else http_get url

  -- The fuel is for the values in the reply.
  unfoldable pub get_peers : ℕ → TorrentMetadata → Report → Result (List PeerInfo)
  get_peers fuel m r = fetch (build_tracker_url m r) >>= read_response fuel

-- `PeerInfo::to_string`.
unfoldable pub to_string : PeerInfo → Bytes
to_string p =
    print_nat (get_or p.ip 0 0)
    ++ (b'.'
        ∷ (print_nat (get_or p.ip 1 0)
            ++ (b'.'
                ∷ (print_nat (get_or p.ip 2 0)
                    ++ (b'.' ∷ (print_nat (get_or p.ip 3 0) ++ (b':' ∷ print_nat p.port)))))))
