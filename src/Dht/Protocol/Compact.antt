-- ===== src/Dht/Protocol/Compact.antt =====
-- src/dht/protocol.cpp: the compact lists of nodes and peers. The machine is little-endian, so `htons`
-- and `ntohs` exchange the bytes of a port.
use pixel_scrape.Base.{
  ℕ, zero, suc, ◌+◌, ◌-◌, ◌*◌, ◌/◌, ◌%◌, List, [], ◌∷◌, ◌++◌, length, get_or, take, drop, replicate,
}
use pixel_scrape.Base.Bytes.{Bytes}
use pixel_scrape.Dht.Node.{DhtNode, minute}

-- `htons` and `ntohs`.
unfoldable pub swap16 : ℕ → ℕ
swap16 port = port % 256 * 256 + port / 256 % 256

unfoldable pub write_port : ℕ → Bytes
unfolding swap16
write_port port = (swap16 port / 256 % 256) ∷ (swap16 port % 256) ∷ []

-- `ntohs(port_be)` of the bytes at places `i` and `i + 1`.
unfoldable pub read_port_at : ℕ → Bytes → ℕ
unfolding swap16
read_port_at i xs = swap16 (get_or xs i 0 * 256 + get_or xs (suc i) 0)

unfoldable pub encode_node : DhtNode → Bytes
unfolding write_port
encode_node n = n.id ++ (n.ip ++ write_port n.port)

unfoldable pub encode_nodes : List DhtNode → Bytes
unfolding encode_node
encode_nodes [] = []
encode_nodes (n ∷ ns) = encode_node n ++ encode_nodes ns

-- A turn of the loop of `decode_nodes`, at the time `now`.
unfoldable pub decode_node : ℕ → Bytes → DhtNode
unfolding read_port_at
decode_node now xs = record {
  id = take 20 xs;
  ip = take 4 (drop 20 xs);
  port = read_port_at 24 xs;
  last_seen = now;
  last_query = now - 20 * minute;
  failed_queries = 0;
}

-- The loop, `count` turns long.
unfoldable pub decode_count : ℕ → ℕ → Bytes → List DhtNode
unfolding decode_node
decode_count now zero xs = []
decode_count now (suc count) xs = decode_node now xs ∷ decode_count now count (drop 26 xs)

unfoldable pub decode_nodes : ℕ → Bytes → List DhtNode
decode_nodes now xs = decode_count now (length xs / 26) xs

-- Peers: six bytes each.
unfoldable pub encode_peers : List DhtNode → Bytes
unfolding write_port
encode_peers [] = []
encode_peers (p ∷ ps) = (p.ip ++ write_port p.port) ++ encode_peers ps

-- A peer, with the fields of a new node but for its address.
unfoldable pub decode_peer : ℕ → Bytes → DhtNode
unfolding read_port_at
decode_peer now xs = record {
  id = replicate 20 0;
  ip = take 4 xs;
  port = read_port_at 4 xs;
  last_seen = now;
  last_query = 20 * minute;
  failed_queries = 0;
}

unfoldable pub decode_peer_count : ℕ → ℕ → Bytes → List DhtNode
unfolding decode_peer
decode_peer_count now zero xs = []
decode_peer_count now (suc count) xs = decode_peer now xs ∷ decode_peer_count now count (drop 6 xs)

unfoldable pub decode_peers : ℕ → Bytes → List DhtNode
decode_peers now xs = decode_peer_count now (length xs / 6) xs
