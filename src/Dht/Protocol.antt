-- ===== src/Dht/Protocol.antt =====
-- src/dht/protocol.cpp and include/dht_protocol.hpp: the queries, the responses and the errors of the
-- distributed hash table. The text of a message is written with its keys in the order of the code,
-- which is not the order of the keys, and read with `BencodeParser`.
pub mod Entries
pub mod Query
pub mod QueryText
pub mod QueryRoundTrip
pub mod Compact
pub mod Response
pub mod Lists
pub mod ResponseText
pub mod ResponseRoundTrip
pub mod Tokens
mod Examples
use pixel_scrape.Base.{
  ℕ, zero, suc, ◌+◌, ◌*◌, ◌/◌, ◌%◌, Bool, true, false, not, Option, none, some, List, [], ◌∷◌, ◌++◌,
  ◌==◌, if◌then◌else◌, length, replicate,
}
use pixel_scrape.Base.Bytes.{Bytes, codes, equal}
use pixel_scrape.Decimal.{ℤ, pos, negsuc, print_nat}
use pixel_scrape.Bencode.{
  Value, Items, Fields, integer, string, list, dict, no_items, item, encode_string, find,
}
use pixel_scrape.Bencode.Parser.{Result, ok, failed, ◌>>=◌, parse}
use pixel_scrape.Torrent.Reading.{to_size}
use pixel_scrape.Dht.Node.{NodeId}

pub data QueryType : Type 0 where
  ping find_node get_peers announce_peer : QueryType

pub record QueryMessage : Type 0 where
  pub transaction_id : Bytes
  pub query_type : QueryType
  pub querying_node_id : NodeId
  pub target_id : Option NodeId
  pub info_hash : Option Bytes
  pub port : Option ℕ
  pub token : Option Bytes
  pub implied_port : Option Bool

-- `bencode_to_string` and `bencode_to_int`, the latter as an unsigned number.
unfoldable pub bencode_to_string : Value → Bytes
bencode_to_string (string s) = s
bencode_to_string _ = []

unfoldable pub bencode_to_int : Value → ℤ
bencode_to_int (integer z) = z
bencode_to_int _ = pos 0

unfoldable pub query_name : QueryType → Bytes
query_name ping = codes "ping"
query_name find_node = codes "find_node"
query_name get_peers = codes "get_peers"
query_name announce_peer = codes "announce_peer"

-- A part of the text that is written where the option holds a value.
abbrev pub where_some {ℓ} : {A : Type ℓ} → Option A → (A → Bytes) → Bytes
where_some none write = []
where_some (some a) write = write a

-- The arguments, without the `d` and the `e` around them.
unfoldable pub encode_arguments : QueryMessage → Bytes
encode_arguments m =
    codes "2:id20:"
    ++ (m.querying_node_id
        ++ (where_some m.target_id (λ t. codes "6:target20:" ++ t)
            ++ (where_some m.info_hash (λ h. codes "9:info_hash20:" ++ h)
                ++ (where_some m.port (λ p. codes "4:porti" ++ (print_nat p ++ codes "e"))
                    ++ (where_some m.token (λ t. codes "5:token" ++ encode_string t)
                        ++ where_some m.implied_port
                            (λ b. if b then codes "12:implied_porti1e" else []))))))

unfoldable pub encode_query : QueryMessage → Bytes
unfolding encode_arguments query_name
encode_query m =
    codes "d1:ad"
    ++ (encode_arguments m
        ++ (codes "e1:q"
            ++ (encode_string (query_name m.query_type)
                ++ (codes "1:t" ++ (encode_string m.transaction_id ++ codes "1:y1:qe")))))

-- The steps of `decode`, each on the entry of the dictionary that it looks up.
unfoldable pub read_id : Option Value → QueryMessage → QueryMessage
read_id none m = m
read_id (some v) m =
    let s = bencode_to_string v in if length s == 20 then record m { querying_node_id = s } else m

unfoldable pub read_target : Option Value → QueryMessage → QueryMessage
read_target none m = m
read_target (some v) m =
    let s = bencode_to_string v in if length s == 20 then record m { target_id = some s } else m

unfoldable pub read_info_hash : Option Value → QueryMessage → QueryMessage
read_info_hash none m = m
read_info_hash (some v) m =
    let s = bencode_to_string v in if length s == 20 then record m { info_hash = some s } else m

unfoldable pub read_port : Option Value → QueryMessage → QueryMessage
read_port none m = m
read_port (some v) m = record m { port = some (to_size (bencode_to_int v) % 65536) }

unfoldable pub read_token : Option Value → QueryMessage → QueryMessage
read_token none m = m
read_token (some v) m = record m { token = some (bencode_to_string v) }

unfoldable pub read_implied_port : Option Value → QueryMessage → QueryMessage
read_implied_port none m = m
read_implied_port (some v) m = record m {
  implied_port = some (not (to_size (bencode_to_int v) == 0));
}

unfoldable pub read_arguments : Fields → QueryMessage → QueryMessage
read_arguments fs m = read_implied_port (find (codes "implied_port") fs) (
    read_token (find (codes "token") fs) (
      read_port (find (codes "port") fs) (
        read_info_hash (find (codes "info_hash") fs)
          (read_target (find (codes "target") fs) (read_id (find (codes "id") fs) m)))))

-- `a`, where it is a dictionary.
unfoldable pub read_a : Option Value → QueryMessage → QueryMessage
read_a (some (dict fs)) m = read_arguments fs m
read_a _ m = m

unfoldable pub read_transaction_id : Option Value → QueryMessage → QueryMessage
read_transaction_id none m = m
read_transaction_id (some v) m = record m { transaction_id = bencode_to_string v }

unfoldable pub read_query_type : Option Value → QueryMessage → Result QueryMessage
read_query_type none m = ok m
read_query_type (some v) m =
    let s = bencode_to_string v in
    if equal s (codes "ping")
    then ok (record m { query_type = ping })
    else if equal s (codes "find_node")
    then ok (record m { query_type = find_node })
    else if equal s (codes "get_peers")
    then ok (record m { query_type = get_peers })
    else if equal s (codes "announce_peer")
    then ok (record m { query_type = announce_peer })
    else failed

-- A new message, whose type is not initialised.
abbrev pub new_query : QueryType → QueryMessage
new_query stale = record {
  transaction_id = [];
  query_type = stale;
  querying_node_id = replicate 20 0;
  target_id = none;
  info_hash = none;
  port = none;
  token = none;
  implied_port = none;
}

unfoldable pub read_query : Fields → QueryType → Result QueryMessage
read_query fs stale =
    read_query_type (find (codes "q") fs)
      (read_transaction_id (find (codes "t") fs) (new_query stale))
    >>= λ m. ok (read_a (find (codes "a") fs) m)

-- `failed` is the result `nullopt`.
unfoldable pub decode_query : ℕ → Bytes → QueryType → Result QueryMessage
decode_query fuel text stale =
    parse fuel text >>= λ (v, _). elim v [ dict fs ↦ read_query fs stale | _ ↦ failed ]
