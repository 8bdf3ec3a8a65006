-- ===== src/Extension.antt =====
-- src/peer/extension_protocol.cpp and include/extension_protocol.hpp: the messages of BEP 10, of the
-- metadata exchange and of the peer exchange, as bencoded dictionaries.
pub mod RoundTrip
pub mod Handshake
pub mod Metadata
mod Examples
use pixel_scrape.Base.{
  ℕ, zero, suc, ◌+◌, ◌-◌, ◌%◌, ◌/◌, ◌^◌, Bool, true, false, not, ◌||◌, Option, none, some, List, [],
  ◌∷◌, ◌++◌, ltb, ◌==◌, if◌then◌else◌, length, take, drop, is_empty,
}
use pixel_scrape.Base.Bytes.{Bytes, codes, equal, size_mod}
use pixel_scrape.Decimal.{ℤ, pos, negsuc}
use pixel_scrape.Bencode.{
  Value, Fields, integer, string, list, dict, no_fields, field, assign, find, encode,
}
use pixel_scrape.Bencode.Parser.{Result, ok, failed, ◌>>=◌, parse}
use pixel_scrape.Torrent.Reading.{to_size, find_integer}

-- `static_cast<int64_t>` of a `size_t`.
unfoldable pub to_int64 : ℕ → ℤ
to_int64 n = if ltb n (2 ^ 63) then pos n else negsuc (size_mod - 1 - n)

-- Names of extensions with their message numbers.
abbrev pub Extensions : Type 0
Extensions = List (Bytes × ℕ)

-- `local_extensions_` as the constructor fills it, in the order of a `std::map`.
abbrev pub local_extensions : Extensions
local_extensions =
    (codes "lt_donthave", 7)
    ∷ (codes "upload_only", 3)
    ∷ (codes "ut_metadata", 1)
    ∷ (codes "ut_pex", 2)
    ∷ []

-- What the handshake of a peer told.
pub record Peer : Type 0 where
  pub peer_extensions : Extensions
  pub peer_client : Bytes
  pub peer_port : ℕ
  pub peer_metadata_size : ℕ
  pub peer_upload_only : Bool

abbrev pub no_peer : Peer
no_peer = record {
  peer_extensions = [];
  peer_client = [];
  peer_port = 0;
  peer_metadata_size = 0;
  peer_upload_only = false;
}

unfoldable pub extension_fields : Extensions → Fields → Fields
extension_fields [] fs = fs
extension_fields ((name, id) ∷ rest) fs = extension_fields rest (assign name (integer (pos id)) fs)

unfoldable pub handshake_fields : ℕ → Bytes → ℕ → Fields
unfolding extension_fields
handshake_fields listen_port client_name metadata_size =
    let m = assign (codes "m") (dict (extension_fields local_extensions no_fields)) no_fields in
    let v = assign (codes "v") (string client_name) m in
    let p = assign (codes "p") (integer (pos listen_port)) v in
    let sized =
      if ltb 0 metadata_size
      then assign (codes "metadata_size") (integer (to_int64 metadata_size)) p
      else p in
    assign (codes "reqq") (integer (pos 250)) sized

unfoldable pub build_extended_handshake : ℕ → Bytes → ℕ → Bytes
build_extended_handshake listen_port client_name metadata_size =
    encode (dict (handshake_fields listen_port client_name metadata_size))

-- The loop over the entries of `m`.
unfoldable pub read_extensions : Fields → Extensions
read_extensions no_fields = []
read_extensions (field name (integer z) fs) = (name, to_size z % 256) ∷ read_extensions fs
read_extensions (field name _ fs) = read_extensions fs

-- The five fields, each read if it is there and of the right type.
unfoldable pub read_m : Fields → Peer → Peer
read_m fs peer = elim (find (codes "m") fs) [
  | some (dict m) ↦ record peer { peer_extensions = read_extensions m }
  | _ ↦ peer
]

unfoldable pub read_v : Fields → Peer → Peer
read_v fs peer = elim (find (codes "v") fs) [
  | some (string v) ↦ record peer { peer_client = v }
  | _ ↦ peer
]

unfoldable pub read_p : Fields → Peer → Peer
read_p fs peer = elim (find (codes "p") fs) [
  | some (integer z) ↦ record peer { peer_port = to_size z % 65536 }
  | _ ↦ peer
]

unfoldable pub read_metadata_size : Fields → Peer → Peer
read_metadata_size fs peer = elim (find (codes "metadata_size") fs) [
  | some (integer z) ↦ record peer { peer_metadata_size = to_size z }
  | _ ↦ peer
]

unfoldable pub read_upload_only : Fields → Peer → Peer
read_upload_only fs peer = elim (find (codes "upload_only") fs) [
  | some (integer z) ↦ record peer { peer_upload_only = not (to_size z == 0) }
  | _ ↦ peer
]

-- `failed` is the result `false`, with the object as it was.
unfoldable pub parse_extended_handshake : ℕ → Bytes → Peer → Result Peer
parse_extended_handshake fuel payload peer = parse fuel payload >>= λ (v, _). elim v [
  | dict fs ↦
      ok (read_upload_only fs (read_metadata_size fs (read_p fs (read_v fs (read_m fs peer)))))
  | _ ↦ failed
]

-- `get_peer_extension_id`: 0 for an extension that the peer has not named.
unfoldable pub lookup : Bytes → Extensions → Option ℕ
lookup name [] = none
lookup name ((n, id) ∷ rest) = if equal n name then some id else lookup name rest

unfoldable pub get_peer_extension_id : Bytes → Peer → ℕ
get_peer_extension_id name peer = elim (lookup name peer.peer_extensions) [
  | none ↦ 0
  | some id ↦ id
]

-- The messages with the extended message number in front.
unfoldable pub build_metadata_request : ℕ → ℕ → Bytes
build_metadata_request id piece =
    id
    ∷ encode (
        dict (
          assign (codes "piece") (integer (to_int64 piece))
            (assign (codes "msg_type") (integer (pos 0)) no_fields)))

unfoldable pub build_metadata_data : ℕ → ℕ → ℕ → Bytes → Bytes
build_metadata_data id piece total_size bytes =
    id
    ∷ (encode (
          dict (
            assign (codes "total_size") (integer (to_int64 total_size)) (
              assign (codes "piece") (integer (to_int64 piece))
                (assign (codes "msg_type") (integer (pos 1)) no_fields))))
        ++ bytes)

unfoldable pub build_metadata_reject : ℕ → ℕ → Bytes
build_metadata_reject id piece =
    id
    ∷ encode (
        dict (
          assign (codes "piece") (integer (to_int64 piece))
            (assign (codes "msg_type") (integer (pos 2)) no_fields)))

unfoldable pub join_peers : List Bytes → Bytes
join_peers [] = []
join_peers (p ∷ ps) = p ++ join_peers ps

unfoldable pub build_pex_message : ℕ → List Bytes → List Bytes → Bytes
unfolding join_peers
build_pex_message id added dropped =
    id
    ∷ encode (
        dict (
          assign (codes "dropped") (string (join_peers dropped))
            (assign (codes "added") (string (join_peers added)) no_fields)))

pub record MetadataMessage : Type 0 where
  pub msg_type : ℕ
  pub piece : ℕ
  pub total_size : ℕ
  pub bytes : Bytes

-- The message in a dictionary with `rest` behind it, into `msg`, which keeps its total size where
-- none is given.
unfoldable pub read_message : Fields → Bytes → MetadataMessage → Result MetadataMessage
read_message fs rest msg = do
  kind ← find_integer (codes "msg_type") fs
  piece ← find_integer (codes "piece") fs
  ok (record {
    msg_type = to_size kind % 256;
    piece = to_size piece;
    total_size = elim (find (codes "total_size") fs) [
      | some (integer z) ↦ to_size z
      | _ ↦ msg.total_size
    ];
    bytes = rest;
  })

unfoldable pub parse_metadata_message : ℕ → Bytes → MetadataMessage → Result MetadataMessage
parse_metadata_message fuel payload msg =
    if is_empty payload
    then failed
    else (parse fuel payload >>= λ (v, consumed). elim v [
      | dict fs ↦ read_message fs (drop consumed payload) msg
      | _ ↦ failed
    ])

pub record PexMessage : Type 0 where
  pub added : List Bytes
  pub dropped : List Bytes

-- The loop that cuts off six bytes as long as there are six, `n` times.
unfoldable pub split_peers : ℕ → Bytes → List Bytes
split_peers zero xs = []
split_peers (suc n) xs = take 6 xs ∷ split_peers n (drop 6 xs)

unfoldable pub read_peers : Bytes → Fields → List Bytes
read_peers key fs = elim (find key fs) [ some (string s) ↦ split_peers (length s / 6) s | _ ↦ [] ]

unfoldable pub parse_pex_message : ℕ → Bytes → PexMessage → Result PexMessage
parse_pex_message fuel payload msg = parse fuel payload >>= λ (v, _). elim v [
  | dict fs ↦ ok (record {
    added = msg.added ++ read_peers (codes "added") fs;
    dropped = msg.dropped ++ read_peers (codes "dropped") fs;
  })
  | _ ↦ failed
]
