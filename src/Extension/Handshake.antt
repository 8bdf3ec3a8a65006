-- ===== src/Extension/Handshake.antt =====
-- The extended handshake built and parsed, and a request that is not understood.
use pixel_scrape.Base.{
  ℕ, suc, ◌%◌, ◌^◌, ◌≤◌, ◌<◌, ◌≡◌, refl, sym, ap, ◌∙◌, false, [], ◌∷◌, ◌++◌, arith, ◌==◌, lt→ltb,
  length, append-nil,
}
use pixel_scrape.Base.Bytes.{Bytes, codes, equal, size_mod}
use pixel_scrape.Decimal.{pos, is_digit}
use pixel_scrape.Bencode.{
  Fields, integer, string, dict, no_fields, field, assign, find, encode, less, join_entries,
  sort_entries,
}
use pixel_scrape.Bencode.Parser.{ok, failed, parse, parse_value}
use pixel_scrape.Bencode.RoundTrip.Canonical.{IsCanonical, calls}
use pixel_scrape.Torrent.Reading.{to_size}
use pixel_scrape.Extension.{
  Peer, local_extensions, extension_fields, handshake_fields, build_extended_handshake,
  read_extensions, read_m, read_v, read_p, read_metadata_size, read_upload_only,
  parse_extended_handshake, build_metadata_request, MetadataMessage, parse_metadata_message,
}
use pixel_scrape.Extension.RoundTrip.{parse-encode, to_int64_small}

-- The `m` of the program's own handshake.
abbrev own_extensions : Fields
own_extensions = field (codes "lt_donthave") (integer (pos 7)) (
    field (codes "upload_only") (integer (pos 3)) (
      field (codes "ut_metadata") (integer (pos 1))
        (field (codes "ut_pex") (integer (pos 2)) no_fields)))

-- The dictionary of a handshake, its keys in order.
abbrev own_fields : ℕ → Bytes → ℕ → Fields
own_fields port client size = field (codes "m") (dict own_extensions) (
    field (codes "metadata_size") (integer (pos size)) (
      field (codes "p") (integer (pos port))
        (field (codes "reqq") (integer (pos 250)) (field (codes "v") (string client) no_fields))))

own_fields-IsCanonical :
    (port : ℕ) (client : Bytes) (size : ℕ)
    → port < 65536
    → size < 2 ^ 63
    → IsCanonical (dict (own_fields port client size))
unfolding less
own_fields-IsCanonical port client size h k = (
  (
    (refl, (refl, (refl, (refl, tt)))),
    ((refl, (refl, (refl, tt))), ((refl, (refl, tt)), ((refl, tt), (tt, tt)))),
  ),
  (
    (
      ((refl, (refl, (refl, tt))), ((refl, (refl, tt)), ((refl, tt), (tt, tt)))),
      (omega arith, (omega arith, (omega arith, (omega arith, tt)))),
    ),
    (k, (omega arith, (omega arith, (tt, tt)))),
  ),
)

build_extended_handshake-own_fields :
    (port : ℕ) (client : Bytes) (size : ℕ)
    → 0 < size
    → size < 2 ^ 63
    → build_extended_handshake port client size ≡ encode (dict (own_fields port client size))
unfolding build_extended_handshake handshake_fields extension_fields assign equal encode less
    join_entries sort_entries
build_extended_handshake-own_fields port client size some_bytes small =
    rw (lt→ltb 0 size some_bytes) (rw (to_int64_small size small) refl)

-- What a peer that runs the same program has told with its handshake.
abbrev pub told : ℕ → Bytes → ℕ → Peer → Peer
told port client size peer = record {
  peer_extensions = local_extensions;
  peer_client = client;
  peer_port = port;
  peer_metadata_size = size;
  peer_upload_only = peer.peer_upload_only;
}

own_fields-told :
    (port : ℕ) (client : Bytes) (size : ℕ) (peer : Peer)
    → port < 65536
    → size < 2 ^ 63
    → (let fs = own_fields port client size in
        read_upload_only fs (read_metadata_size fs (read_p fs (read_v fs (read_m fs peer)))))
      ≡ told port client size peer
unfolding read_upload_only read_metadata_size read_p read_v read_m read_extensions find equal
    to_size
own_fields-told port client size peer h k =
    let p : port % size_mod % 65536 ≡ port = omega arith in
    let s : size % size_mod ≡ size = omega arith in rw p (rw s refl)

-- The handshake of the program is understood by itself: the four extensions, the client's name, its
-- port and the size of its metadata arrive.
pub parse_extended_handshake-build_extended_handshake :
    (port : ℕ) (client : Bytes) (size fuel : ℕ) (peer : Peer)
    → port < 65536
    → 0 < size
    → size < 2 ^ 63
    → length (build_extended_handshake port client size) < size_mod
    → 30 ≤ fuel
    → parse_extended_handshake fuel (build_extended_handshake port client size) peer
      ≡ ok (told port client size peer)
unfolding parse_extended_handshake
parse_extended_handshake-build_extended_handshake port client size fuel peer h some_bytes k small
      enough =
    let text = encode (dict (own_fields port client size)) in
    let built : build_extended_handshake port client size ≡ text ++ [] =
      build_extended_handshake-own_fields port client size some_bytes k ∙ sym (append-nil text) in
    rw built (
      rw
        (parse-encode (dict (own_fields port client size)) [] fuel
          (own_fields-IsCanonical port client size h k) (omega (arith, ap length built))
          (unfold calls in omega arith))
        (ap ok (own_fields-told port client size peer h k)))

-- A byte at which no value begins.
parse_value-bad :
    (fuel c : ℕ) (rest : Bytes) → c < b'0' → parse_value (suc fuel) (c ∷ rest) 0 ≡ failed
unfolding parse_value
parse_value-bad fuel c rest h =
    let i : (c == b'i') ≡ false = ground arith in
    let l : (c == b'l') ≡ false = ground arith in
    let d : (c == b'd') ≡ false = ground arith in
    let digit : is_digit c ≡ false = ground arith in rw i (rw l (rw d (rw digit refl)))

-- The payload that `request_metadata` hands on begins with the message number, and
-- `send_extended_message` puts the number in front once more. What stands behind that one is no
-- metadata message for the program itself.
pub parse_metadata_message-build_metadata_request :
    (id piece fuel : ℕ) (msg : MetadataMessage)
    → id < b'0'
    → parse_metadata_message (suc fuel) (build_metadata_request id piece) msg ≡ failed
unfolding parse_metadata_message build_metadata_request parse
parse_metadata_message-build_metadata_request id piece fuel msg h =
    rw (parse_value-bad fuel id _ h) refl
