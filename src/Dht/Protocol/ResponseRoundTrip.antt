-- ===== src/Dht/Protocol/ResponseRoundTrip.antt =====
-- A response that was encoded is decoded.
use pixel_scrape.Base.{
  ℕ, suc, ◌+◌, ◌*◌, ◌≤◌, ◌<◌, ◌≡◌, refl, ap, ap₂, ◌∙◌, Option, none, some, List, [], ◌∷◌, ◌++◌,
  arith, if◌then◌else◌, length, replicate, is_empty,
}
use pixel_scrape.Base.Bytes.{Bytes, equal, size_mod}
use pixel_scrape.Bencode.{string, dict, find, encode_string}
use pixel_scrape.Bencode.Parser.{ok}
use pixel_scrape.Bencode.Writing.{parse-Reads}
use pixel_scrape.Dht.Node.{NodeId, DhtNode}
use pixel_scrape.Dht.RoutingTable.Saving.{IsNode}
use pixel_scrape.Dht.Protocol.{bencode_to_string}
use pixel_scrape.Dht.Protocol.Query.{string_of}
use pixel_scrape.Dht.Protocol.Response.{
  ResponseMessage, encode_response, read_responder, read_nodes_entry, read_token_entry, read_values,
  read_r, read_response_id, read_response, decode_response,
}
use pixel_scrape.Dht.Protocol.Lists.{
  decode_nodes-encode_nodes, IsAddress, read_value_peers-peer_items,
}
use pixel_scrape.Dht.Protocol.ResponseText.{
  argument_text, argument_calls, response_fields, body, nodes_of, peers_of, shown_nodes,
  shown_peers, AllOf, count_of, argument_calls_le, encode_response-body, response-Reads, find_id,
  find_nodes, find_values, find_token,
}

-- A response by its parts.
abbrev of_parts :
    Bytes → NodeId → Option (List DhtNode) → Option (List DhtNode) → Option Bytes → ResponseMessage
of_parts tid id nodes peers token = record {
  transaction_id = tid;
  responding_node_id = id;
  nodes = nodes;
  peers = peers;
  token = token;
}

module _ (tid : Bytes) where
  responder_read :
      (old id : NodeId)
      → length id ≡ 20
      → read_responder (some (string id)) (of_parts tid old none none none)
        ≡ of_parts tid id none none none
  unfolding read_responder bencode_to_string
  responder_read old id h = rw h refl

  nodes_read :
      (now : ℕ) (id : NodeId) (o : Option (List DhtNode))
      → AllOf IsNode o
      → read_nodes_entry now (nodes_of o) (of_parts tid id none none none)
        ≡ of_parts tid id (shown_nodes now o) none none
  unfolding read_nodes_entry bencode_to_string
  nodes_read now id none h = refl
  nodes_read now id (some []) h = refl
  nodes_read now id (some (n ∷ ns)) h =
      ap (λ t. of_parts tid id (some t) none none) (decode_nodes-encode_nodes now (n ∷ ns) h)

  token_read :
      (id : NodeId) (ns : Option (List DhtNode)) (o : Option Bytes)
      → read_token_entry (string_of o) (of_parts tid id ns none none) ≡ of_parts tid id ns none o
  unfolding read_token_entry bencode_to_string
  token_read id ns none = refl
  token_read id ns (some t) = refl

  values_read :
      (id : NodeId) (ns : Option (List DhtNode)) (k : Option Bytes) (o : Option (List DhtNode))
      → AllOf IsAddress o
      → read_values (peers_of o) (of_parts tid id ns none k) ≡ of_parts tid id ns (shown_peers o) k
  unfolding read_values
  values_read id ns k none h = refl
  values_read id ns k (some []) h = refl
  values_read id ns k (some (p ∷ ps)) h =
      ap
        (λ peers.
          if is_empty peers then of_parts tid id ns none k else of_parts tid id ns (some peers) k)
        (read_value_peers-peer_items (p ∷ ps) h)

-- What arrives of a response.
abbrev pub shown_response : ℕ → ResponseMessage → ResponseMessage
shown_response now m = record m { nodes = shown_nodes now m.nodes; peers = shown_peers m.peers }

pub record IsWhole (m : ResponseMessage) : Type 0 where
  pub id : length m.responding_node_id ≡ 20
  pub whole_nodes : AllOf IsNode m.nodes
  pub addresses : AllOf IsAddress m.peers

response_read :
    (now : ℕ) (m : ResponseMessage)
    → IsWhole m
    → read_response now (response_fields m) ≡ shown_response now m
unfolding read_response read_r read_response_id bencode_to_string find equal
response_read now m w =
    let tid = m.transaction_id in
    let id = m.responding_node_id in
    let ns = shown_nodes now m.nodes in
    let k = m.token in
    let with_id =
      ap (λ v. read_responder v (of_parts tid (replicate 20 0) none none none)) (find_id m)
      ∙ responder_read tid (replicate 20 0) id w.id in
    let with_nodes =
      ap₂ (read_nodes_entry now) (find_nodes m) with_id
      ∙ nodes_read tid now id m.nodes w.whole_nodes in
    let with_token = ap₂ read_token_entry (find_token m) with_nodes ∙ token_read tid id ns k in
    ap₂ read_values (find_values m) with_token ∙ values_read tid id ns k m.peers w.addresses

-- A response is decoded as it was, its nodes seen now, and of its peers the addresses.
pub decode_response-encode_response :
    (now : ℕ) (m : ResponseMessage) (fuel : ℕ)
    → IsWhole m
    → length (encode_response m) < size_mod
    → 2 * count_of m.peers + 20 ≤ fuel
    → decode_response now fuel (encode_response m) ≡ ok (shown_response now m)
unfolding decode_response
decode_response-encode_response now m fuel w small enough =
    let written = encode_response-body m w.id w.addresses in
    let read =
      parse-Reads (b'd' ∷ (body (argument_text m) (encode_string m.transaction_id) ++ b'e' ∷ []))
        (dict (response_fields m)) (suc (suc (suc (argument_calls m) + suc (1 + suc (1 + 1))))) fuel
        (response-Reads m) (omega (arith, ap length written))
        (omega (arith, argument_calls_le m)) in
    rw written (rw read (ap ok (response_read now m w)))
