-- ===== src/Dht/Examples.antt =====
-- A bucket and a table at concrete nodes.
use pixel_scrape.Base.{
  ℕ, List, min, ◌≤◌, ◌<◌, ◌≡◌, ◌≢◌, refl, true, false, some, [], ◌∷◌, ◌++◌, map, arith, length,
  replicate, All, All-append, All-replicate, ◌*◌, ◌^◌,
}
use mathlib.Core.List.{Perm}
use pixel_scrape.Base.Bytes.{IsByte, u32_mod}
use pixel_scrape.Dht.Node.{
  DhtNode, distance, leading_zeros, bucket_index_from, bucket_index, is_good, is_bad, get_state,
}
use pixel_scrape.Dht.Node.Metric.{value, bucket_index-value}
use pixel_scrape.Dht.KBucket.{capacity, has_id, add_node, get_node, get_good_nodes}
use pixel_scrape.Dht.KBucket.Lookup.{NonePass, add_node-get_node}
use pixel_scrape.Dht.KBucket.Places.{IsBucket}
use pixel_scrape.Dht.KBucket.Calls.{adds, removes, fails, run, run-IsBucket}
use pixel_scrape.Dht.RoutingTable.{
  RoutingTable, new_table, serialize, deserialize, find_closest_nodes, all_good_nodes,
}
use pixel_scrape.Dht.RoutingTable.Closest.{
  keep_good, good_of, HasId, IsSorted, find_closest_nodes-IsSorted,
}
use pixel_scrape.Dht.RoutingTable.Saving.{IsNode, revived, add_all, deserialize-serialize}

-- The node whose id is filled with `k`.
abbrev node : ℕ → DhtNode
node k = record {
  id = replicate 20 k;
  ip = replicate 4 k;
  port = 6881;
  last_seen = 0;
  last_query = 0;
  failed_queries = 0;
}

-- The highest bit that differs is the bit 7 of the last byte.
index_lem : bucket_index (distance (replicate 20 0) (replicate 19 0 ++ 129 ∷ [])) ≡ 7
unfolding bucket_index bucket_index_from distance leading_zeros
index_lem = refl

one-ne-two : replicate {A = ℕ} 20 2 ≢ replicate 20 1
one-ne-two e = cc

two_nodes : IsBucket (node 1 ∷ node 2 ∷ [])
two_nodes = record { size = omega arith; distinct = ((one-ne-two, tt), (tt, tt)) }

run-IsBucket_example : IsBucket (
    run
      (node 1 ∷ node 2 ∷ [])
      (adds 5 (node 2) ∷ fails (replicate 20 1) ∷ adds 6 (node 3) ∷ removes (replicate 20 2) ∷ []))
run-IsBucket_example =
    run-IsBucket (node 1 ∷ node 2 ∷ [])
      (adds 5 (node 2) ∷ fails (replicate 20 1) ∷ adds 6 (node 3) ∷ removes (replicate 20 2) ∷ [])
      two_nodes

add_node-get_node_example :
    ((add_node 5 (node 1 ∷ []) (node 2)).1 ≡ true
      → get_node (add_node 5 (node 1 ∷ []) (node 2)).0 (replicate 20 2) ≡ some (node 2))
    × ((add_node 5 (node 1 ∷ []) (node 2)).1 ≡ false
        → ((add_node 5 (node 1 ∷ []) (node 2)).0 ≡ node 1 ∷ [])
          × ((capacity ≤ 1)
              × (NonePass (has_id (replicate 20 2)) (node 1 ∷ [])
                  × NonePass (is_bad 5) (node 1 ∷ []))))
add_node-get_node_example = add_node-get_node 5 (node 1 ∷ []) (node 2)

-- Two buckets of one node each.
abbrev table : RoutingTable
table = record { own_id = replicate 20 0; buckets = (node 1 ∷ []) ∷ (node 2 ∷ []) ∷ [] }

good_lem : all_good_nodes 1 table.buckets ≡ node 1 ∷ node 2 ∷ []
unfolding all_good_nodes get_good_nodes is_good get_state
good_lem = refl

node-IsNode : (k : ℕ) → IsNode (node k)
node-IsNode k = record { id_size = refl; ip_size = refl; port_bound = omega arith }

good-IsNode : All IsNode (all_good_nodes 1 table.buckets)
good-IsNode = rw good_lem (node-IsNode 1, (node-IsNode 2, tt))

few_lem : length (all_good_nodes 1 table.buckets) < u32_mod
few_lem = rw good_lem (omega arith)

deserialize-serialize_example :
    deserialize 2000000000000 (new_table (replicate 20 9)) (serialize 1 table) ≡ (
      add_all 2000000000000
          (record (new_table (replicate 20 9)) { own_id = replicate 20 0 })
          (map (revived 2000000000000) (all_good_nodes 1 table.buckets)),
      true,
    )
deserialize-serialize_example =
    deserialize-serialize 1 2000000000000 table (new_table (replicate 20 9)) refl good-IsNode
      few_lem

positive : 0 < value (replicate 19 0 ++ 129 ∷ [])
unfolding value
positive = omega arith

bucket_index-value_example :
    (2 ^ bucket_index (replicate 19 0 ++ 129 ∷ []) ≤ value (replicate 19 0 ++ 129 ∷ []))
    × (value (replicate 19 0 ++ 129 ∷ []) < 2 * 2 ^ bucket_index (replicate 19 0 ++ 129 ∷ []))
bucket_index-value_example =
    bucket_index-value (replicate 19 0 ++ 129 ∷ [])
      (All-append IsByte (replicate 19 0) (129 ∷ []) (All-replicate IsByte 19 0 (omega arith))
        (omega arith, tt))
      refl positive

node-HasId : (k : ℕ) → k < 256 → HasId (node k)
node-HasId k h = (refl, All-replicate IsByte 20 k h)

table_good : good_of 1 table.buckets ≡ node 1 ∷ node 2 ∷ []
unfolding keep_good is_good get_state
table_good = refl

find_closest_nodes-IsSorted_example :
    (others : List DhtNode) × Perm
      (find_closest_nodes 1 table (replicate 20 3) 1 ++ others)
      (good_of 1 table.buckets)
    × IsSorted (replicate 20 3) (find_closest_nodes 1 table (replicate 20 3) 1 ++ others)
    × (length (find_closest_nodes 1 table (replicate 20 3) 1)
        ≡ min 1 (length (good_of 1 table.buckets)))
find_closest_nodes-IsSorted_example =
    find_closest_nodes-IsSorted 1 table (replicate 20 3) 1
      (refl, All-replicate IsByte 20 3 (omega arith))
      (rw table_good (node-HasId 1 (omega arith), (node-HasId 2 (omega arith), tt)))
