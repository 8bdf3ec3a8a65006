-- ===== src/Dht/Protocol/QueryRoundTrip.antt =====
-- What is looked up in the dictionary of a query, and the query that it makes.
use pixel_scrape.Base.{
  ℕ, suc, ◌+◌, ◌%◌, ◌≤◌, ◌<◌, ◌≡◌, refl, ap, ap₂, ◌∙◌, Bool, true, false, Option, none, some, [],
  ◌∷◌, ◌++◌, arith, length, replicate,
}
use pixel_scrape.Base.Bytes.{Bytes, codes, equal, size_mod}
use pixel_scrape.Bencode.{string, dict, no_fields, find, encode_string}
use pixel_scrape.Bencode.Parser.{ok, ◌>>=◌}
use pixel_scrape.Bencode.Writing.{parse-Reads}
use pixel_scrape.Torrent.Reading.{to_size}
use pixel_scrape.Dht.Node.{NodeId}
use pixel_scrape.Dht.Protocol.{
  QueryType, ping, find_node, get_peers, announce_peer, QueryMessage, query_name, encode_query,
  bencode_to_string, bencode_to_int, read_id, read_target, read_info_hash, read_port, read_token,
  read_implied_port, read_arguments, read_a, read_transaction_id, read_query_type, read_query,
  decode_query,
}
use pixel_scrape.Dht.Protocol.Entries.{find-put_self, find-put_other}
use pixel_scrape.Dht.Protocol.Query.{
  string_of, port_of, flag_of, IsTwenty, IsPort, IsWhole, id_fields, target_fields, info_fields,
  port_fields, token_fields, argument_fields, argument_text, argument_calls, argument_calls_le,
}
use pixel_scrape.Dht.Protocol.QueryText.{shown, query_fields, body, encode_query-body, query-Reads}

module _ (m : QueryMessage) where
  -- A key other than the ones put later is looked up in the fields before them.
  past_flag :
      (k : Bytes)
      → equal (codes "implied_port") k ≡ false
      → find k (argument_fields m) ≡ find k (token_fields m)
  past_flag k ne =
      find-put_other (codes "implied_port") k (flag_of m.implied_port) (token_fields m) ne

  past_token :
      (k : Bytes)
      → equal (codes "token") k ≡ false
      → find k (token_fields m) ≡ find k (port_fields m)
  past_token k ne = find-put_other (codes "token") k (string_of m.token) (port_fields m) ne

  past_port :
      (k : Bytes) → equal (codes "port") k ≡ false → find k (port_fields m) ≡ find k (info_fields m)
  past_port k ne = find-put_other (codes "port") k (port_of m.port) (info_fields m) ne

  past_info :
      (k : Bytes)
      → equal (codes "info_hash") k ≡ false
      → find k (info_fields m) ≡ find k (target_fields m)
  past_info k ne = find-put_other (codes "info_hash") k (string_of m.info_hash) (target_fields m) ne

  past_target :
      (k : Bytes)
      → equal (codes "target") k ≡ false
      → find k (target_fields m) ≡ find k (id_fields m)
  past_target k ne = find-put_other (codes "target") k (string_of m.target_id) (id_fields m) ne

  past_id : (k : Bytes) → equal (codes "id") k ≡ false → find k (id_fields m) ≡ find k no_fields
  past_id k ne = find-put_other (codes "id") k (some (string m.querying_node_id)) no_fields ne

  find_id : find (codes "id") (argument_fields m) ≡ some (string m.querying_node_id)
  unfolding equal find
  find_id =
      past_flag (codes "id") refl
      ∙ past_token (codes "id") refl
      ∙ past_port (codes "id") refl
      ∙ past_info (codes "id") refl
      ∙ past_target (codes "id") refl
      ∙ find-put_self (codes "id") (some (string m.querying_node_id)) no_fields refl

  find_target : find (codes "target") (argument_fields m) ≡ string_of m.target_id
  unfolding equal find
  find_target =
      past_flag (codes "target") refl
      ∙ past_token (codes "target") refl
      ∙ past_port (codes "target") refl
      ∙ past_info (codes "target") refl
      ∙ find-put_self (codes "target") (string_of m.target_id) (id_fields m)
          (past_id (codes "target") refl)

  find_info : find (codes "info_hash") (argument_fields m) ≡ string_of m.info_hash
  unfolding equal find
  find_info =
      past_flag (codes "info_hash") refl
      ∙ past_token (codes "info_hash") refl
      ∙ past_port (codes "info_hash") refl
      ∙ find-put_self (codes "info_hash") (string_of m.info_hash) (target_fields m)
          (past_target (codes "info_hash") refl ∙ past_id (codes "info_hash") refl)

  find_port : find (codes "port") (argument_fields m) ≡ port_of m.port
  unfolding equal find
  find_port =
      past_flag (codes "port") refl
      ∙ past_token (codes "port") refl
      ∙ find-put_self (codes "port") (port_of m.port) (info_fields m) (
          past_info (codes "port") refl
          ∙ past_target (codes "port") refl
          ∙ past_id (codes "port") refl)

  find_token : find (codes "token") (argument_fields m) ≡ string_of m.token
  unfolding equal find
  find_token =
      past_flag (codes "token") refl
      ∙ find-put_self (codes "token") (string_of m.token) (port_fields m) (
          past_port (codes "token") refl
          ∙ past_info (codes "token") refl
          ∙ past_target (codes "token") refl
          ∙ past_id (codes "token") refl)

  find_flag : find (codes "implied_port") (argument_fields m) ≡ flag_of m.implied_port
  unfolding equal find
  find_flag = find-put_self (codes "implied_port") (flag_of m.implied_port) (token_fields m) (
      past_token (codes "implied_port") refl
      ∙ past_port (codes "implied_port") refl
      ∙ past_info (codes "implied_port") refl
      ∙ past_target (codes "implied_port") refl
      ∙ past_id (codes "implied_port") refl)

-- A query by its parts.
abbrev of_parts :
    Bytes
    → QueryType
    → NodeId
    → Option NodeId
    → Option Bytes
    → Option ℕ
    → Option Bytes
    → Option Bool
    → QueryMessage
of_parts tid kind id target info port token flag = record {
  transaction_id = tid;
  query_type = kind;
  querying_node_id = id;
  target_id = target;
  info_hash = info;
  port = port;
  token = token;
  implied_port = flag;
}

module _ (tid : Bytes) (kind : QueryType) where
  id_read :
      (old id : NodeId)
      → length id ≡ 20
      → read_id (some (string id)) (of_parts tid kind old none none none none none)
        ≡ of_parts tid kind id none none none none none
  unfolding read_id bencode_to_string
  id_read old id h = rw h refl

  target_read :
      (id : NodeId) (o : Option NodeId)
      → IsTwenty o
      → read_target (string_of o) (of_parts tid kind id none none none none none)
        ≡ of_parts tid kind id o none none none none
  unfolding read_target bencode_to_string
  target_read id none h = refl
  target_read id (some t) h = rw h refl

  info_read :
      (id : NodeId) (t : Option NodeId) (o : Option Bytes)
      → IsTwenty o
      → read_info_hash (string_of o) (of_parts tid kind id t none none none none)
        ≡ of_parts tid kind id t o none none none
  unfolding read_info_hash bencode_to_string
  info_read id t none h = refl
  info_read id t (some i) h = rw h refl

  port_read :
      (id : NodeId) (t : Option NodeId) (i : Option Bytes) (o : Option ℕ)
      → IsPort o
      → read_port (port_of o) (of_parts tid kind id t i none none none)
        ≡ of_parts tid kind id t i o none none
  unfolding read_port bencode_to_int to_size
  port_read id t i none h = refl
  port_read id t i (some p) h = let e : p % size_mod % 65536 ≡ p = omega arith in rw e refl

  token_read :
      (id : NodeId) (t : Option NodeId) (i : Option Bytes) (p : Option ℕ) (o : Option Bytes)
      → read_token (string_of o) (of_parts tid kind id t i p none none)
        ≡ of_parts tid kind id t i p o none
  unfolding read_token bencode_to_string
  token_read id t i p none = refl
  token_read id t i p (some k) = refl

  flag_read :
      (id : NodeId) (t : Option NodeId) (i : Option Bytes) (p : Option ℕ) (k : Option Bytes)
      (o : Option Bool)
      → read_implied_port (flag_of o) (of_parts tid kind id t i p k none)
        ≡ of_parts tid kind id t i p k (shown o)
  unfolding read_implied_port bencode_to_int to_size
  flag_read id t i p k none = refl
  flag_read id t i p k (some true) = refl
  flag_read id t i p k (some false) = refl

arguments_read :
    (m : QueryMessage) (tid : Bytes) (kind : QueryType) (old : NodeId)
    → IsWhole m
    → read_arguments (argument_fields m) (of_parts tid kind old none none none none none)
      ≡ of_parts tid kind m.querying_node_id m.target_id m.info_hash m.port m.token
          (shown m.implied_port)
unfolding read_arguments
arguments_read m tid kind old w =
    let id = m.querying_node_id in
    let t = m.target_id in
    let i = m.info_hash in
    let p = m.port in
    let k = m.token in
    let with_id =
      ap (λ v. read_id v (of_parts tid kind old none none none none none)) (find_id m)
      ∙ id_read tid kind old id w.id in
    let with_target =
      ap₂ read_target (find_target m) with_id ∙ target_read tid kind id t w.target in
    let with_info =
      ap₂ read_info_hash (find_info m) with_target ∙ info_read tid kind id t i w.info in
    let with_port = ap₂ read_port (find_port m) with_info ∙ port_read tid kind id t i p w.port in
    let with_token = ap₂ read_token (find_token m) with_port ∙ token_read tid kind id t i p k in
    ap₂ read_implied_port (find_flag m) with_token ∙ flag_read tid kind id t i p k m.implied_port

-- Each name is that of its type.
query_type_read :
    (kind stale : QueryType) (tid : Bytes)
    → read_query_type
        (some (string (query_name kind)))
        (of_parts tid stale (replicate 20 0) none none none none none)
      ≡ ok (of_parts tid kind (replicate 20 0) none none none none none)
unfolding read_query_type bencode_to_string query_name equal
query_type_read ping stale tid = refl
query_type_read find_node stale tid = refl
query_type_read get_peers stale tid = refl
query_type_read announce_peer stale tid = refl

query_read :
    (m : QueryMessage) (stale : QueryType)
    → IsWhole m
    → read_query (query_fields m) stale ≡ ok (record m { implied_port = shown m.implied_port })
unfolding read_query read_a read_transaction_id bencode_to_string find equal
query_read m stale w =
    ap (λ r. r >>= λ n. ok (read_arguments (argument_fields m) n))
      (query_type_read m.query_type stale m.transaction_id)
    ∙ ap ok (arguments_read m m.transaction_id m.query_type (replicate 20 0) w)

-- A query with ids of twenty bytes and a port of 16 bits is decoded as it was, but for a flag that
-- was set to false, which is not written.
pub decode_query-encode_query :
    (m : QueryMessage) (stale : QueryType) (fuel : ℕ)
    → IsWhole m
    → length (encode_query m) < size_mod
    → 30 ≤ fuel
    → decode_query fuel (encode_query m) stale
      ≡ ok (record m { implied_port = shown m.implied_port })
unfolding decode_query
decode_query-encode_query m stale fuel w small enough =
    let written = encode_query-body m w in
    let read =
      parse-Reads
        (b'd'
          ∷ (body (argument_text m) (encode_string (query_name m.query_type))
                (encode_string m.transaction_id)
              ++ b'e' ∷ []))
        (dict (query_fields m))
        (suc (suc (suc (argument_calls m) + suc (1 + suc (1 + suc (1 + 1)))))) fuel
        (query-Reads m w) (omega (arith, ap length written)) (omega (arith, argument_calls_le m)) in
    rw written (rw read (query_read m stale w))
