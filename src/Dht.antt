-- ===== src/Dht.antt =====
-- src/dht/node.cpp and include/dht_node.hpp: the nodes of the distributed hash table.
pub mod Node
pub mod KBucket
pub mod RoutingTable
pub mod Protocol
mod Examples
