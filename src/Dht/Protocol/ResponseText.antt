-- ===== src/Dht/Protocol/ResponseText.antt =====
-- The text of a response, and what is looked up in the dictionary that it is read as.
use pixel_scrape.Base.{
  ℕ, suc, ◌+◌, ◌*◌, ◌≤◌, ◌≡◌, refl, sym, ap, ap₂, ◌∙◌, Option, none, some, List, [], ◌∷◌, ◌++◌, map,
  arith, append_assoc, append-nil, length, All,
}
use pixel_scrape.Base.Bytes.{Bytes, codes, equal}
use pixel_scrape.Decimal.{print_nat}
use pixel_scrape.Bencode.{
  Value, Fields, string, list, dict, no_fields, field, assign, find, encode, encode_string,
}
use pixel_scrape.Bencode.RoundTrip.Canonical.{calls}
use pixel_scrape.Bencode.Writing.{Reads, ReadsFields, ReadsFields-end, Reads-entry, Reads-dict}
use pixel_scrape.Dht.Node.{DhtNode}
use pixel_scrape.Dht.RoutingTable.Saving.{revived}
use pixel_scrape.Dht.Protocol.{where_some}
use pixel_scrape.Dht.Protocol.Entries.{
  put, entry_text, HoldsCanonical, calls_of, ReadsFields-put, find-put_self, find-put_other,
}
use pixel_scrape.Dht.Protocol.Query.{string_of, string_of-HoldsCanonical, calls_of-string_of}
use pixel_scrape.Dht.Protocol.QueryText.{encode_twenty, string-Reads}
use pixel_scrape.Dht.Protocol.Compact.{encode_nodes}
use pixel_scrape.Dht.Protocol.Response.{ResponseMessage, write_peers, unless_empty, encode_response}
use pixel_scrape.Dht.Protocol.Lists.{
  IsAddress, address, peer_items, peer_items-AreCanonical, calls_items-peer_items,
  write_peers-encode_items,
}

abbrev pub nodes_of : Option (List DhtNode) → Option Value
nodes_of (some (n ∷ ns)) = some (string (encode_nodes (n ∷ ns)))
nodes_of _ = none

abbrev pub peers_of : Option (List DhtNode) → Option Value
peers_of (some (p ∷ ps)) = some (list (peer_items (p ∷ ps)))
peers_of _ = none

-- What arrives of the nodes and of the peers; an empty list is not written.
abbrev pub shown_nodes : ℕ → Option (List DhtNode) → Option (List DhtNode)
shown_nodes now (some (n ∷ ns)) = some (map (revived now) (n ∷ ns))
shown_nodes now _ = none

abbrev pub shown_peers : Option (List DhtNode) → Option (List DhtNode)
shown_peers (some (p ∷ ps)) = some (map address (p ∷ ps))
shown_peers _ = none

abbrev pub AllOf : (DhtNode → Type 0) → Option (List DhtNode) → Type 0
AllOf P none = Unit
AllOf P (some ns) = All P ns

abbrev pub count_of : Option (List DhtNode) → ℕ
count_of none = 0
count_of (some ns) = length ns

nodes_of-HoldsCanonical : (o : Option (List DhtNode)) → HoldsCanonical (nodes_of o)
nodes_of-HoldsCanonical none = tt
nodes_of-HoldsCanonical (some []) = tt
nodes_of-HoldsCanonical (some (n ∷ ns)) = tt

peers_of-HoldsCanonical : (o : Option (List DhtNode)) → HoldsCanonical (peers_of o)
peers_of-HoldsCanonical none = tt
peers_of-HoldsCanonical (some []) = tt
peers_of-HoldsCanonical (some (p ∷ ps)) = peer_items-AreCanonical (p ∷ ps)

calls_of-nodes_of : (o : Option (List DhtNode)) → calls_of (nodes_of o) ≤ 1
unfolding calls
calls_of-nodes_of none = omega arith
calls_of-nodes_of (some []) = omega arith
calls_of-nodes_of (some (n ∷ ns)) = omega arith

calls_of-peers_of : (o : Option (List DhtNode)) → calls_of (peers_of o) ≤ 2 * count_of o + 2
unfolding calls
calls_of-peers_of none = omega arith
calls_of-peers_of (some []) = omega arith
calls_of-peers_of (some (p ∷ ps)) = omega (arith, calls_items-peer_items (p ∷ ps))

nodes_text :
    (o : Option (List DhtNode))
    → where_some o (λ ns. unless_empty ns (codes "5:nodes" ++ encode_string (encode_nodes ns)))
      ≡ entry_text (codes "nodes") (nodes_of o)
unfolding unless_empty encode
nodes_text none = refl
nodes_text (some []) = refl
nodes_text (some (n ∷ ns)) = unfold encode_string print_nat in refl

peers_text :
    (o : Option (List DhtNode))
    → AllOf IsAddress o
    → where_some o (λ ps. unless_empty ps (codes "6:valuesl" ++ (write_peers ps ++ codes "e")))
      ≡ entry_text (codes "values") (peers_of o)
unfolding unless_empty encode encode_string print_nat
peers_text none h = refl
peers_text (some []) h = refl
peers_text (some (p ∷ ps)) h =
    ap (λ t. codes "6:valuesl" ++ (t ++ codes "e")) (write_peers-encode_items (p ∷ ps) h)

token_text :
    (o : Option Bytes)
    → where_some o (λ t. codes "5:token" ++ encode_string t)
      ≡ entry_text (codes "token") (string_of o)
unfolding encode
token_text none = refl
token_text (some s) = unfold encode_string print_nat in refl

-- The dictionary `r`, written out of its parts.
abbrev after_r : Bytes → Bytes
after_r tid =
    encode_string (codes "t")
    ++ (tid ++ (encode_string (codes "y") ++ (encode_string (codes "r") ++ [])))

abbrev pub body : Bytes → Bytes → Bytes
body arguments tid = encode_string (codes "r") ++ ((b'd' ∷ (arguments ++ b'e' ∷ [])) ++ after_r tid)

body-text :
    (id nodes values token tid : Bytes)
    → codes "d1:rd2:id20:"
        ++ (id ++ (nodes ++ (values ++ (token ++ (codes "e1:t" ++ (tid ++ codes "1:y1:re"))))))
      ≡ b'd'
        ∷ (body (codes "2:id20:" ++ (id ++ (nodes ++ (values ++ (token ++ []))))) tid ++ b'e' ∷ [])
unfolding encode_string print_nat
body-text id nodes values token tid = simp (append_assoc, append-nil)

module _ (m : ResponseMessage) where
  abbrev pub id_fields : Fields
  id_fields = put (codes "id") (some (string m.responding_node_id)) no_fields

  abbrev pub nodes_fields : Fields
  nodes_fields = put (codes "nodes") (nodes_of m.nodes) id_fields

  abbrev pub values_fields : Fields
  values_fields = put (codes "values") (peers_of m.peers) nodes_fields

  abbrev pub argument_fields : Fields
  argument_fields = put (codes "token") (string_of m.token) values_fields

  abbrev pub argument_text : Bytes
  argument_text =
      entry_text (codes "id") (some (string m.responding_node_id))
      ++ (entry_text (codes "nodes") (nodes_of m.nodes)
          ++ (entry_text (codes "values") (peers_of m.peers)
              ++ (entry_text (codes "token") (string_of m.token) ++ [])))

  abbrev pub argument_calls : ℕ
  argument_calls = suc (
      calls_of (some (string m.responding_node_id))
      + suc (
          calls_of (nodes_of m.nodes)
          + suc (calls_of (peers_of m.peers) + suc (calls_of (string_of m.token) + 1))))

  pub argument_calls_le : argument_calls ≤ 2 * count_of m.peers + 10
  unfolding calls
  argument_calls_le =
      omega
        (arith, calls_of-nodes_of m.nodes, calls_of-peers_of m.peers, calls_of-string_of m.token)

  arguments-ReadsFields : ReadsFields argument_text no_fields argument_fields argument_calls
  arguments-ReadsFields =
      ReadsFields-put (codes "id") _ (some (string m.responding_node_id)) no_fields argument_fields
        _ tt
        (ReadsFields-put (codes "nodes") _ (nodes_of m.nodes) id_fields argument_fields _
          (nodes_of-HoldsCanonical m.nodes)
          (ReadsFields-put (codes "values") _ (peers_of m.peers) nodes_fields argument_fields _
            (peers_of-HoldsCanonical m.peers)
            (ReadsFields-put (codes "token") [] (string_of m.token) values_fields argument_fields 1
              (string_of-HoldsCanonical m.token) (ReadsFields-end argument_fields))))

  argument_text-id :
      length m.responding_node_id ≡ 20
      → argument_text
        ≡ codes "2:id20:"
          ++ (m.responding_node_id
              ++ (entry_text (codes "nodes") (nodes_of m.nodes)
                  ++ (entry_text (codes "values") (peers_of m.peers)
                      ++ (entry_text (codes "token") (string_of m.token) ++ []))))
  unfolding encode_string print_nat
  argument_text-id h = rw (encode_twenty m.responding_node_id h) refl

  pub encode_response-body :
      length m.responding_node_id ≡ 20
      → AllOf IsAddress m.peers
      → encode_response m
        ≡ b'd' ∷ (body argument_text (encode_string m.transaction_id) ++ b'e' ∷ [])
  unfolding encode_response
  encode_response-body h addresses =
      let tid = encode_string m.transaction_id in
      let rest = codes "e1:t" ++ (tid ++ codes "1:y1:re") in
      ap (λ t. codes "d1:rd2:id20:" ++ (m.responding_node_id ++ t))
        (ap₂ ◌++◌ (nodes_text m.nodes)
          (ap₂ ◌++◌ (peers_text m.peers addresses) (ap (λ t. t ++ rest) (token_text m.token))))
      ∙ body-text m.responding_node_id (entry_text (codes "nodes") (nodes_of m.nodes))
          (entry_text (codes "values") (peers_of m.peers))
          (entry_text (codes "token") (string_of m.token)) tid
      ∙ ap (λ a. b'd' ∷ (body a tid ++ b'e' ∷ [])) (sym (argument_text-id h))

  abbrev pub response_fields : Fields
  response_fields = field (codes "r") (dict argument_fields) (
      field (codes "t") (string m.transaction_id)
        (field (codes "y") (string (codes "r")) no_fields))

  pub response-Reads :
      Reads
        (b'd' ∷ (body argument_text (encode_string m.transaction_id) ++ b'e' ∷ []))
        (dict response_fields)
        (suc (suc (suc argument_calls + suc (1 + suc (1 + 1)))))
  unfolding assign equal
  response-Reads =
      let tid = encode_string m.transaction_id in
      let r = assign (codes "r") (dict argument_fields) no_fields in
      let t = assign (codes "t") (string m.transaction_id) r in
      Reads-dict (body argument_text tid) response_fields
        (suc (suc argument_calls + suc (1 + suc (1 + 1))))
        (Reads-entry (codes "r") (b'd' ∷ (argument_text ++ b'e' ∷ [])) (after_r tid)
          (dict argument_fields) no_fields response_fields (suc argument_calls)
          (suc (1 + suc (1 + 1)))
          (Reads-dict argument_text argument_fields argument_calls arguments-ReadsFields)
          (Reads-entry (codes "t") tid
            (encode_string (codes "y") ++ (encode_string (codes "r") ++ []))
            (string m.transaction_id) r response_fields 1 (suc (1 + 1))
            (string-Reads m.transaction_id)
            (Reads-entry (codes "y") (encode_string (codes "r")) [] (string (codes "r")) t
              response_fields 1 1 (string-Reads (codes "r")) (ReadsFields-end response_fields))))

  pub find_id : find (codes "id") argument_fields ≡ some (string m.responding_node_id)
  unfolding equal find
  find_id =
      find-put_other (codes "token") (codes "id") (string_of m.token) values_fields refl
      ∙ find-put_other (codes "values") (codes "id") (peers_of m.peers) nodes_fields refl
      ∙ find-put_other (codes "nodes") (codes "id") (nodes_of m.nodes) id_fields refl
      ∙ find-put_self (codes "id") (some (string m.responding_node_id)) no_fields refl

  pub find_nodes : find (codes "nodes") argument_fields ≡ nodes_of m.nodes
  unfolding equal find
  find_nodes =
      find-put_other (codes "token") (codes "nodes") (string_of m.token) values_fields refl
      ∙ find-put_other (codes "values") (codes "nodes") (peers_of m.peers) nodes_fields refl
      ∙ find-put_self (codes "nodes") (nodes_of m.nodes) id_fields (
          find-put_other (codes "id") (codes "nodes") (some (string m.responding_node_id)) no_fields
            refl)

  pub find_values : find (codes "values") argument_fields ≡ peers_of m.peers
  unfolding equal find
  find_values =
      find-put_other (codes "token") (codes "values") (string_of m.token) values_fields refl
      ∙ find-put_self (codes "values") (peers_of m.peers) nodes_fields (
          find-put_other (codes "nodes") (codes "values") (nodes_of m.nodes) id_fields refl
          ∙ find-put_other (codes "id") (codes "values") (some (string m.responding_node_id))
              no_fields refl)

  pub find_token : find (codes "token") argument_fields ≡ string_of m.token
  unfolding equal find
  find_token = find-put_self (codes "token") (string_of m.token) values_fields (
      find-put_other (codes "values") (codes "token") (peers_of m.peers) nodes_fields refl
      ∙ find-put_other (codes "nodes") (codes "token") (nodes_of m.nodes) id_fields refl
      ∙ find-put_other (codes "id") (codes "token") (some (string m.responding_node_id)) no_fields
          refl)
