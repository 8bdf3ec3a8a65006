-- ===== src/Dht/Protocol/Lists.antt =====
-- Lists of nodes and of peers, written and read.
use pixel_scrape.Base.{
  ℕ, ◌+◌, ◌*◌, ◌/◌, ◌%◌, ◌<◌, ◌≡◌, refl, sym, ap, ap₂, ◌∙◌, List, [], ◌∷◌, ◌++◌, map, arith,
  append_assoc, length, get_or, take, drop, replicate, All, length-append,
}
use pixel_scrape.Base.Bytes.{Bytes, codes}
use pixel_scrape.Decimal.{print_nat}
use pixel_scrape.Bencode.{Items, string, no_items, item, encode, encode_items, encode_string}
use pixel_scrape.Bencode.RoundTrip.Canonical.{AreCanonical, calls_items}
use pixel_scrape.Dht.Node.{DhtNode, minute}
use pixel_scrape.Dht.RoutingTable.Saving.{IsNode, revived, get_or-append, drop-append, take-append}
use pixel_scrape.Dht.Protocol.{bencode_to_string}
use pixel_scrape.Dht.Protocol.Compact.{
  swap16, write_port, read_port_at, encode_node, encode_nodes, decode_node, decode_count,
  decode_nodes,
}
use pixel_scrape.Dht.Protocol.Response.{
  write_port_raw, write_peers, read_value_peer, read_value_peers,
}

swap16_twice : (p : ℕ) → p < 65536 → swap16 (swap16 p / 256 % 256 * 256 + swap16 p % 256) ≡ p
unfolding swap16
swap16_twice p h = omega arith

encode_node-append :
    (n : DhtNode) (rest : Bytes)
    → encode_node n ++ rest ≡ n.id ++ (n.ip ++ (write_port n.port ++ rest))
unfolding encode_node
encode_node-append n rest =
    append_assoc n.id (n.ip ++ write_port n.port) rest
    ∙ ap (λ ys. n.id ++ ys) (append_assoc n.ip (write_port n.port) rest)

decode_node-fields :
    (now : ℕ) (n : DhtNode) (rest : Bytes)
    → IsNode n
    → decode_node now (n.id ++ (n.ip ++ (write_port n.port ++ rest))) ≡ revived now n
unfolding decode_node read_port_at write_port
decode_node-fields now n rest h =
    let high = swap16 n.port / 256 % 256 in
    let low = swap16 n.port % 256 in
    let behind = high ∷ low ∷ rest in
    let xs = n.id ++ (n.ip ++ behind) in
    let ip : take 4 (drop 20 xs) ≡ n.ip =
      ap (take 4) (drop-append 20 n.id (n.ip ++ behind) h.id_size)
      ∙ take-append 4 n.ip behind h.ip_size in
    let first : get_or xs 24 0 ≡ high =
      get_or-append 20 n.id (n.ip ++ behind) 4 h.id_size
      ∙ get_or-append 4 n.ip behind 0 h.ip_size in
    let second : get_or xs 25 0 ≡ low =
      get_or-append 20 n.id (n.ip ++ behind) 5 h.id_size
      ∙ get_or-append 4 n.ip behind 1 h.ip_size in
    rw
      (
        take-append 20 n.id (n.ip ++ behind) h.id_size,
        ip,
        first,
        second,
        swap16_twice n.port h.port_bound,
      )
      refl

length-encode_node : (n : DhtNode) → IsNode n → length (encode_node n) ≡ 26
unfolding encode_node write_port
length-encode_node n h = omega (
  arith,
  length-append n.id (n.ip ++ write_port n.port),
  length-append n.ip (write_port n.port),
  h.id_size,
  h.ip_size,
)

length-encode_nodes :
    (ns : List DhtNode) → All IsNode ns → length (encode_nodes ns) ≡ length ns * 26
unfolding encode_nodes
length-encode_nodes [] h = refl
length-encode_nodes (n ∷ ns) h =
    length-append (encode_node n) (encode_nodes ns)
    ∙ omega (arith, length-encode_node n h.0, length-encode_nodes ns h.1)

decode_count-encode_nodes :
    (now : ℕ) (ns : List DhtNode)
    → All IsNode ns
    → decode_count now (length ns) (encode_nodes ns) ≡ map (revived now) ns
unfolding decode_count encode_nodes
decode_count-encode_nodes now [] h = refl
decode_count-encode_nodes now (n ∷ ns) h =
    ap₂ ◌∷◌
      (ap (decode_node now) (encode_node-append n (encode_nodes ns))
        ∙ decode_node-fields now n (encode_nodes ns) h.0)
      (ap (decode_count now (length ns))
          (drop-append 26 (encode_node n) (encode_nodes ns) (length-encode_node n h.0))
        ∙ decode_count-encode_nodes now ns h.1)

-- Nodes come back as they were, seen now and to be asked again.
pub decode_nodes-encode_nodes :
    (now : ℕ) (ns : List DhtNode)
    → All IsNode ns
    → decode_nodes now (encode_nodes ns) ≡ map (revived now) ns
unfolding decode_nodes
decode_nodes-encode_nodes now ns h =
    let count : length (encode_nodes ns) / 26 ≡ length ns =
      omega (arith, length-encode_nodes ns h) in
    ap (λ k. decode_count now k (encode_nodes ns)) count ∙ decode_count-encode_nodes now ns h

-- A peer by its address.
pub record IsAddress (n : DhtNode) : Type 0 where
  pub ip_size : length n.ip ≡ 4
  pub port_bound : n.port < 65536

-- What arrives of a peer: its address.
abbrev pub address : DhtNode → DhtNode
address n = record {
  id = replicate 20 0;
  ip = n.ip;
  port = n.port;
  last_seen = 20 * minute;
  last_query = 20 * minute;
  failed_queries = 0;
}

abbrev pub peer_items : List DhtNode → Items
peer_items [] = no_items
peer_items (p ∷ ps) = item (string (p.ip ++ write_port_raw p.port)) (peer_items ps)

pub peer_items-AreCanonical : (ps : List DhtNode) → AreCanonical (peer_items ps)
peer_items-AreCanonical [] = tt
peer_items-AreCanonical (p ∷ ps) = (tt, peer_items-AreCanonical ps)

pub calls_items-peer_items : (ps : List DhtNode) → calls_items (peer_items ps) ≡ 2 * length ps + 1
unfolding calls_items
calls_items-peer_items [] = omega arith
calls_items-peer_items (p ∷ ps) = omega (arith, calls_items-peer_items ps)

length-peer : (p : DhtNode) → IsAddress p → length (p.ip ++ write_port_raw p.port) ≡ 6
unfolding write_port_raw
length-peer p h = omega (arith, length-append p.ip (write_port_raw p.port), h.ip_size)

encode_six : (s : Bytes) → length s ≡ 6 → encode (string s) ≡ codes "6:" ++ s
unfolding encode encode_string print_nat
encode_six s h = rw h refl

pub write_peers-encode_items :
    (ps : List DhtNode) → All IsAddress ps → write_peers ps ≡ encode_items (peer_items ps)
unfolding write_peers encode_items
write_peers-encode_items [] h = refl
write_peers-encode_items (p ∷ ps) h =
    ap₂ ◌++◌ (sym (encode_six (p.ip ++ write_port_raw p.port) (length-peer p h.0)))
      (write_peers-encode_items ps h.1)

read_value_peer-address :
    (p : DhtNode) → IsAddress p → read_value_peer (p.ip ++ write_port_raw p.port) ≡ address p
unfolding read_value_peer write_port_raw
read_value_peer-address p h =
    let low = swap16 p.port % 256 in
    let high = swap16 p.port / 256 % 256 in
    let first : get_or (p.ip ++ low ∷ high ∷ []) 4 0 ≡ low =
      get_or-append 4 p.ip (low ∷ high ∷ []) 0 h.ip_size in
    let second : get_or (p.ip ++ low ∷ high ∷ []) 5 0 ≡ high =
      get_or-append 4 p.ip (low ∷ high ∷ []) 1 h.ip_size in
    let order : swap16 (low + high * 256) ≡ p.port =
      ap swap16 (omega arith) ∙ swap16_twice p.port h.port_bound in
    rw (take-append 4 p.ip (low ∷ high ∷ []) h.ip_size, first, second, order) refl

-- Peers come back with their addresses.
pub read_value_peers-peer_items :
    (ps : List DhtNode) → All IsAddress ps → read_value_peers (peer_items ps) ≡ map address ps
unfolding read_value_peers bencode_to_string
read_value_peers-peer_items [] h = refl
read_value_peers-peer_items (p ∷ ps) h =
    rw (length-peer p h.0)
      (ap₂ ◌∷◌ (read_value_peer-address p h.0) (read_value_peers-peer_items ps h.1))
