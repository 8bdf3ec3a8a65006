-- ===== src/Dht/KBucket.antt =====
-- src/dht/node.cpp: `KBucket`, the list of its nodes. `now` is the time of a call.
pub mod Lookup
pub mod Places
pub mod Calls
use pixel_scrape.Base.{
  ℕ, ◌+◌, Bool, true, false, not, Option, none, some, List, [], ◌∷◌, ◌++◌, ltb, leb, if◌then◌else◌,
  length,
}
use pixel_scrape.Base.Bytes.{equal}
use pixel_scrape.Dht.Node.{NodeId, DhtNode, is_good, is_bad}

abbrev pub capacity : ℕ
capacity = 8

abbrev pub has_id : NodeId → DhtNode → Bool
has_id id n = equal n.id id

-- `find_if` and a write through its iterator; `none` where no node passes the test.
unfoldable pub update_first :
    (DhtNode → Bool) → (DhtNode → DhtNode) → List DhtNode → Option (List DhtNode)
update_first p f [] = none
update_first p f (n ∷ ns) =
    let rest = update_first p f ns in
    if p n then some (f n ∷ ns) else elim rest [ none ↦ none | some ms ↦ some (n ∷ ms) ]

-- The nodes after an update, where there is nothing to update as before.
abbrev pub updated : List DhtNode → Option (List DhtNode) → List DhtNode
updated ns none = ns
updated ns (some ms) = ms

unfoldable pub try_replace_bad_node : ℕ → List DhtNode → DhtNode → List DhtNode × Bool
try_replace_bad_node now ns n = elim (update_first (is_bad now) (λ _. n) ns) [
  | none ↦ (ns, false)
  | some ms ↦ (ms, true)
]

unfoldable pub add_node : ℕ → List DhtNode → DhtNode → List DhtNode × Bool
add_node now ns n = elim (update_first (has_id n.id) (λ _. n) ns) [
  | some ms ↦ (ms, true)
  | none ↦ if ltb (length ns) capacity then (ns ++ n ∷ [], true) else try_replace_bad_node now ns n
]

unfoldable pub remove_node : List DhtNode → NodeId → List DhtNode
remove_node [] id = []
remove_node (n ∷ ns) id = let rest = remove_node ns id in if has_id id n then rest else n ∷ rest

unfoldable pub get_node : List DhtNode → NodeId → Option DhtNode
get_node [] id = none
get_node (n ∷ ns) id = let rest = get_node ns id in if has_id id n then some n else rest

unfoldable pub get_good_nodes : ℕ → List DhtNode → List DhtNode
get_good_nodes now [] = []
get_good_nodes now (n ∷ ns) =
    let rest = get_good_nodes now ns in if is_good now n then n ∷ rest else rest

unfoldable pub update_last_seen : ℕ → List DhtNode → NodeId → List DhtNode
update_last_seen now ns id =
    updated ns (update_first (has_id id) (λ n. record n { last_seen = now; failed_queries = 0 }) ns)

unfoldable pub mark_query_sent : ℕ → List DhtNode → NodeId → List DhtNode
mark_query_sent now ns id =
    updated ns (update_first (has_id id) (λ n. record n { last_query = now }) ns)

unfoldable pub mark_query_failed : List DhtNode → NodeId → List DhtNode
mark_query_failed ns id =
    updated ns
      (update_first (has_id id) (λ n. record n { failed_queries = n.failed_queries + 1 }) ns)
