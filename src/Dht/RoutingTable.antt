-- ===== src/Dht/RoutingTable.antt =====
-- src/dht/node.cpp: `RoutingTable`, and how it is saved.
pub mod Saving
pub mod Closest
use pixel_scrape.Base.{
  ℕ, zero, suc, ◌+◌, ◌-◌, ◌*◌, ◌/◌, ◌%◌, ◌^◌, Bool, true, false, List, [], ◌∷◌, ◌++◌, ltb, leb,
  if◌then◌else◌, length, get_or, set, take, drop, replicate,
}
use pixel_scrape.Base.Bytes.{Bytes, equal, be32}
use pixel_scrape.Dht.Node.{NodeId, DhtNode, distance, id_less, bucket_index, minute}
use pixel_scrape.Dht.KBucket

pub record RoutingTable : Type 0 where
  pub own_id : NodeId
  pub buckets : List (List DhtNode)

unfoldable pub new_table : NodeId → RoutingTable
new_table id = record { own_id = id; buckets = replicate 160 [] }

unfoldable pub get_bucket_index : RoutingTable → NodeId → ℕ
get_bucket_index t id = bucket_index (distance t.own_id id)

-- A call on the bucket of an id, where its index is below 160.
unfoldable pub in_bucket : RoutingTable → NodeId → (List DhtNode → List DhtNode) → RoutingTable
in_bucket t id f =
    let i = get_bucket_index t id in
    if ltb i 160 then record t { buckets = set t.buckets i (f (get_or t.buckets i [])) } else t

unfoldable pub add_node : ℕ → RoutingTable → DhtNode → RoutingTable
add_node now t n =
    if equal n.id t.own_id then t else in_bucket t n.id (λ ns. (KBucket.add_node now ns n).0)

unfoldable pub remove_node : RoutingTable → NodeId → RoutingTable
remove_node t id = in_bucket t id (λ ns. KBucket.remove_node ns id)

unfoldable pub update_last_seen : ℕ → RoutingTable → NodeId → RoutingTable
update_last_seen now t id = in_bucket t id (λ ns. KBucket.update_last_seen now ns id)

unfoldable pub mark_query_sent : ℕ → RoutingTable → NodeId → RoutingTable
mark_query_sent now t id = in_bucket t id (λ ns. KBucket.mark_query_sent now ns id)

unfoldable pub mark_query_failed : RoutingTable → NodeId → RoutingTable
mark_query_failed t id = in_bucket t id (λ ns. KBucket.mark_query_failed ns id)

unfoldable pub all_nodes : List (List DhtNode) → List DhtNode
all_nodes [] = []
all_nodes (b ∷ bs) = b ++ all_nodes bs

unfoldable pub all_good_nodes : ℕ → List (List DhtNode) → List DhtNode
all_good_nodes now [] = []
all_good_nodes now (b ∷ bs) = KBucket.get_good_nodes now b ++ all_good_nodes now bs

-- The order of `find_closest_nodes`.
unfoldable pub closer : NodeId → DhtNode → DhtNode → Bool
closer target a b = id_less (distance a.id target) (distance b.id target)

-- `std::sort`, which may leave nodes at the same distance in any order.
unfoldable pub insert_node : NodeId → DhtNode → List DhtNode → List DhtNode
insert_node target n [] = n ∷ []
insert_node target n (m ∷ ms) =
    let rest = insert_node target n ms in if closer target n m then n ∷ m ∷ ms else m ∷ rest

unfoldable pub sort_nodes : NodeId → List DhtNode → List DhtNode
sort_nodes target [] = []
sort_nodes target (n ∷ ns) = insert_node target n (sort_nodes target ns)

unfoldable pub find_closest_nodes : ℕ → RoutingTable → NodeId → ℕ → List DhtNode
find_closest_nodes now t target count =
    take count (sort_nodes target (all_good_nodes now t.buckets))

-- 26 bytes: the id, the address and the port.
unfoldable pub write_node : DhtNode → Bytes
write_node n = n.id ++ (n.ip ++ (n.port / 2 ^ 8 % 256) ∷ (n.port % 256) ∷ [])

unfoldable pub write_nodes : List DhtNode → Bytes
write_nodes [] = []
write_nodes (n ∷ ns) = write_node n ++ write_nodes ns

unfoldable pub serialize : ℕ → RoutingTable → Bytes
serialize now t =
    let good_nodes = all_good_nodes now t.buckets in
    t.own_id ++ (be32 (length good_nodes) ++ write_nodes good_nodes)

-- The node of 26 bytes at the start of `xs`.
unfoldable pub read_node : ℕ → Bytes → DhtNode
read_node now xs = record {
  id = take 20 xs;
  ip = take 4 (drop 20 xs);
  port = get_or xs 24 0 * 2 ^ 8 + get_or xs 25 0;
  last_seen = now;
  last_query = now - 20 * minute;
  failed_queries = 0;
}

-- The loop of `deserialize`, `count` turns; `xs` is what stands behind the offset.
unfoldable pub read_nodes : ℕ → ℕ → Bytes → RoutingTable → RoutingTable
read_nodes now zero xs t = t
read_nodes now (suc count) xs t =
    let rest = read_nodes now count (drop 26 xs) (add_node now t (read_node now xs)) in
    if ltb (length xs) 26 then t else rest

-- `count` as it stands at the offset 20.
unfoldable pub read_count : Bytes → ℕ
read_count xs =
    get_or xs 20 0 * 2 ^ 24 + get_or xs 21 0 * 2 ^ 16 + get_or xs 22 0 * 2 ^ 8 + get_or xs 23 0

unfoldable pub deserialize : ℕ → RoutingTable → Bytes → RoutingTable × Bool
deserialize now t xs =
    if ltb (length xs) 24
    then (t, false)
    else (read_nodes now (read_count xs) (drop 24 xs) (record t { own_id = take 20 xs }), true)
