-- ===== src/Dht/Protocol/Response.antt =====
-- src/dht/protocol.cpp: `ResponseMessage` and `ErrorMessage`.
use pixel_scrape.Base.{
  ℕ, ◌+◌, ◌*◌, ◌/◌, ◌%◌, Option, none, some, List, [], ◌∷◌, ◌++◌, ◌==◌, if◌then◌else◌, length,
  get_or, take, replicate, is_empty, ◌^◌,
}
use pixel_scrape.Base.Bytes.{Bytes, codes}
use pixel_scrape.Decimal.{print_nat}
use pixel_scrape.Bencode.{Value, Items, Fields, list, dict, no_items, item, encode_string, find}
use pixel_scrape.Bencode.Parser.{Result, ok, failed, ◌>>=◌, parse}
use pixel_scrape.Torrent.Reading.{to_size}
use pixel_scrape.Dht.Node.{NodeId, DhtNode, minute}
use pixel_scrape.Dht.Protocol.{bencode_to_string, bencode_to_int, where_some}
use pixel_scrape.Dht.Protocol.Compact.{swap16, encode_nodes, decode_nodes}

pub record ResponseMessage : Type 0 where
  pub transaction_id : Bytes
  pub responding_node_id : NodeId
  pub nodes : Option (List DhtNode)
  pub peers : Option (List DhtNode)
  pub token : Option Bytes

-- `oss.write` of the two bytes of `htons(port)` as they lie in memory.
unfoldable pub write_port_raw : ℕ → Bytes
unfolding swap16
write_port_raw port = (swap16 port % 256) ∷ (swap16 port / 256 % 256) ∷ []

unfoldable pub write_peers : List DhtNode → Bytes
unfolding write_port_raw
write_peers [] = []
write_peers (p ∷ ps) = codes "6:" ++ ((p.ip ++ write_port_raw p.port) ++ write_peers ps)

-- `nodes && !nodes->empty()`.
unfoldable pub unless_empty : List DhtNode → Bytes → Bytes
unless_empty ns text = if is_empty ns then [] else text

unfoldable pub encode_response : ResponseMessage → Bytes
encode_response m =
    codes "d1:rd2:id20:"
    ++ (m.responding_node_id
        ++ (where_some m.nodes
              (λ ns. unless_empty ns (codes "5:nodes" ++ encode_string (encode_nodes ns)))
            ++ (where_some m.peers
                  (λ ps. unless_empty ps (codes "6:valuesl" ++ (write_peers ps ++ codes "e")))
                ++ (where_some m.token (λ t. codes "5:token" ++ encode_string t)
                    ++ (codes "e1:t" ++ (encode_string m.transaction_id ++ codes "1:y1:re"))))))

-- The steps of `decode`, each on the entry that it looks up.
unfoldable pub read_responder : Option Value → ResponseMessage → ResponseMessage
read_responder none m = m
read_responder (some v) m =
    let s = bencode_to_string v in if length s == 20 then record m { responding_node_id = s } else m

unfoldable pub read_nodes_entry : ℕ → Option Value → ResponseMessage → ResponseMessage
read_nodes_entry now none m = m
read_nodes_entry now (some v) m = record m { nodes = some (decode_nodes now (bencode_to_string v)) }

unfoldable pub read_token_entry : Option Value → ResponseMessage → ResponseMessage
read_token_entry none m = m
read_token_entry (some v) m = record m { token = some (bencode_to_string v) }

-- A peer of `values`, with the fields of a new node but for its address.
unfoldable pub read_value_peer : Bytes → DhtNode
unfolding swap16
read_value_peer s = record {
  id = replicate 20 0;
  ip = take 4 s;
  port = swap16 (get_or s 4 0 + get_or s 5 0 * 256);
  last_seen = 20 * minute;
  last_query = 20 * minute;
  failed_queries = 0;
}

-- The loop over `values`; entries of another length are passed over.
unfoldable pub read_value_peers : Items → List DhtNode
unfolding read_value_peer
read_value_peers no_items = []
read_value_peers (item v rest) =
    let others = read_value_peers rest in
    let s = bencode_to_string v in if length s == 6 then read_value_peer s ∷ others else others

unfoldable pub read_values : Option Value → ResponseMessage → ResponseMessage
read_values (some (list xs)) m =
    let peers = read_value_peers xs in if is_empty peers then m else record m { peers = some peers }
read_values _ m = m

unfoldable pub read_r : ℕ → Option Value → ResponseMessage → ResponseMessage
read_r now (some (dict fs)) m = read_values (find (codes "values") fs) (
    read_token_entry (find (codes "token") fs)
      (read_nodes_entry now (find (codes "nodes") fs) (read_responder (find (codes "id") fs) m)))
read_r now _ m = m

unfoldable pub read_response_id : Option Value → ResponseMessage → ResponseMessage
read_response_id none m = m
read_response_id (some v) m = record m { transaction_id = bencode_to_string v }

abbrev pub new_response : ResponseMessage
new_response = record {
  transaction_id = [];
  responding_node_id = replicate 20 0;
  nodes = none;
  peers = none;
  token = none;
}

unfoldable pub read_response : ℕ → Fields → ResponseMessage
read_response now fs =
    read_r now (find (codes "r") fs) (read_response_id (find (codes "t") fs) new_response)

-- `failed` is the result `nullopt`.
unfoldable pub decode_response : ℕ → ℕ → Bytes → Result ResponseMessage
decode_response now fuel text =
    parse fuel text >>= λ (v, _). elim v [ dict fs ↦ ok (read_response now fs) | _ ↦ failed ]

pub record ErrorMessage : Type 0 where
  pub transaction_id : Bytes
  pub error_code : ℕ
  pub error_message : Bytes

unfoldable pub encode_error : ErrorMessage → Bytes
encode_error m =
    codes "d1:eli"
    ++ (print_nat m.error_code
        ++ (codes "e"
            ++ (encode_string m.error_message
                ++ (codes "e1:t" ++ (encode_string m.transaction_id ++ codes "1:y1:ee")))))

-- The first two items of the list, if it has them; the code is an `int`.
unfoldable pub read_e : Option Value → ErrorMessage → ErrorMessage
read_e (some (list (item code (item text _)))) m = record m {
  error_code = to_size (bencode_to_int code) % 2 ^ 32;
  error_message = bencode_to_string text;
}
read_e _ m = m

unfoldable pub read_error : Fields → ℕ → ErrorMessage
read_error fs stale =
    let tid : Bytes = elim (find (codes "t") fs) [ none ↦ [] | some v ↦ bencode_to_string v ] in
    read_e (find (codes "e") fs)
      (record { transaction_id = tid; error_code = stale; error_message = [] })

-- The error code of a new message is not initialised.
unfoldable pub decode_error : ℕ → Bytes → ℕ → Result ErrorMessage
decode_error fuel text stale =
    parse fuel text >>= λ (v, _). elim v [ dict fs ↦ ok (read_error fs stale) | _ ↦ failed ]
