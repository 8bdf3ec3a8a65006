-- ===== src/Dht/RoutingTable/Saving.antt =====
-- A saved routing table that is read again.
use pixel_scrape.Base.{
  ℕ, zero, suc, ◌+◌, ◌-◌, ◌*◌, ◌/◌, ◌%◌, ◌^◌, ◌<◌, ◌≡◌, refl, sym, ap, ◌∙◌, true, List, [], ◌∷◌,
  ◌++◌, map, length, get_or, take, drop, arith, All, append_assoc, length-append,
  take-length_append, drop-length_append, drop-add, append-nil, le→ltb,
}
use pixel_scrape.Base.Bytes.{Bytes, be32, u32_mod}
use pixel_scrape.Dht.Node.{DhtNode, minute}
use pixel_scrape.Dht.RoutingTable.{
  RoutingTable, add_node, all_good_nodes, write_node, write_nodes, serialize, read_node, read_nodes,
  read_count, deserialize,
}

-- A node whose arrays have their sizes and whose port has 16 bits.
pub record IsNode (n : DhtNode) : Type 0 where
  pub id_size : length n.id ≡ 20
  pub ip_size : length n.ip ≡ 4
  pub port_bound : n.port < 65536

-- A node as it is after reading: seen now, to be queried again.
abbrev pub revived : ℕ → DhtNode → DhtNode
revived now n = record n { last_seen = now; last_query = now - 20 * minute; failed_queries = 0 }

-- The nodes added one after the other.
abbrev pub add_all : ℕ → RoutingTable → List DhtNode → RoutingTable
add_all now t [] = t
add_all now t (n ∷ ns) = add_all now (add_node now t n) ns

pub get_or-append :
    (n : ℕ) (xs ys : Bytes) (i : ℕ) → length xs ≡ n → get_or (xs ++ ys) (n + i) 0 ≡ get_or ys i 0
get_or-append zero [] ys i h = let e : 0 + i ≡ i = omega arith in ap (λ k. get_or ys k 0) e
get_or-append zero (x ∷ xs) ys i h = absurd (omega arith)
get_or-append (suc n) [] ys i h = absurd (omega arith)
get_or-append (suc n) (x ∷ xs) ys i h =
    let e : suc n + i ≡ suc (n + i) = omega arith in
    ap (λ k. get_or (x ∷ (xs ++ ys)) k 0) e ∙ get_or-append n xs ys i (omega arith)

pub drop-append : (n : ℕ) (xs ys : Bytes) → length xs ≡ n → drop n (xs ++ ys) ≡ ys
drop-append n xs ys h = ap (λ k. drop k (xs ++ ys)) (sym h) ∙ drop-length_append xs ys

pub take-append : (n : ℕ) (xs ys : Bytes) → length xs ≡ n → take n (xs ++ ys) ≡ xs
take-append n xs ys h = ap (λ k. take k (xs ++ ys)) (sym h) ∙ take-length_append xs ys

-- The bytes of a node, with those behind it.
write_node-append :
    (n : DhtNode) (rest : Bytes)
    → write_node n ++ rest ≡ n.id ++ (n.ip ++ (n.port / 2 ^ 8 % 256) ∷ (n.port % 256) ∷ rest)
unfolding write_node
write_node-append n rest =
    let port = (n.port / 2 ^ 8 % 256) ∷ (n.port % 256) ∷ [] in
    append_assoc n.id (n.ip ++ port) rest ∙ ap (λ ys. n.id ++ ys) (append_assoc n.ip port rest)

read_node-fields :
    (now : ℕ) (n : DhtNode) (rest : Bytes)
    → IsNode n
    → read_node now (n.id ++ (n.ip ++ (n.port / 2 ^ 8 % 256) ∷ (n.port % 256) ∷ rest))
      ≡ revived now n
unfolding read_node
read_node-fields now n rest h =
    let high = n.port / 2 ^ 8 % 256 in
    let low = n.port % 256 in
    let behind = high ∷ low ∷ rest in
    let xs = n.id ++ (n.ip ++ behind) in
    let ip : take 4 (drop 20 xs) ≡ n.ip =
      ap (take 4) (drop-append 20 n.id (n.ip ++ behind) h.id_size)
      ∙ take-append 4 n.ip behind h.ip_size in
    let first : get_or xs 24 0 ≡ high =
      get_or-append 20 n.id (n.ip ++ behind) 4 h.id_size
      ∙ get_or-append 4 n.ip behind 0 h.ip_size in
    let second : get_or xs 25 0 ≡ low =
      get_or-append 20 n.id (n.ip ++ behind) 5 h.id_size
      ∙ get_or-append 4 n.ip behind 1 h.ip_size in
    let port : high * 2 ^ 8 + low ≡ n.port = omega (arith, h.port_bound) in
    rw (take-append 20 n.id (n.ip ++ behind) h.id_size, ip, first, second, port) refl

read_node-write_node :
    (now : ℕ) (n : DhtNode) (rest : Bytes)
    → IsNode n
    → read_node now (write_node n ++ rest) ≡ revived now n
read_node-write_node now n rest h =
    ap (read_node now) (write_node-append n rest) ∙ read_node-fields now n rest h

length-write_node : (n : DhtNode) → IsNode n → length (write_node n) ≡ 26
unfolding write_node
length-write_node n h = omega (
  arith,
  h.id_size,
  h.ip_size,
  length-append n.id (n.ip ++ (n.port / 2 ^ 8 % 256) ∷ (n.port % 256) ∷ []),
  length-append n.ip ((n.port / 2 ^ 8 % 256) ∷ (n.port % 256) ∷ []),
)

read_nodes-write_nodes :
    (now : ℕ) (ns : List DhtNode) (t : RoutingTable) (rest : Bytes)
    → All IsNode ns
    → read_nodes now (length ns) (write_nodes ns ++ rest) t ≡ add_all now t (map (revived now) ns)
unfolding read_nodes write_nodes
read_nodes-write_nodes now [] t rest h = refl
read_nodes-write_nodes now (n ∷ ns) t rest h =
    let behind = write_nodes ns ++ rest in
    let split : write_nodes (n ∷ ns) ++ rest ≡ write_node n ++ behind =
      append_assoc (write_node n) (write_nodes ns) rest in
    let size = length-write_node n h.0 in
    ap (λ xs. read_nodes now (suc (length ns)) xs t) split
    ∙ rw
        (
          le→ltb (length (write_node n ++ behind)) 26
              (omega (arith, length-append (write_node n) behind)),
          drop-append 26 (write_node n) behind size,
          read_node-write_node now n behind h.0,
        )
        (read_nodes-write_nodes now ns (add_node now t (revived now n)) rest h.1)

length-body : (count : ℕ) (xs : Bytes) → length (be32 count ++ xs) ≡ 4 + length xs
unfolding be32
length-body count xs = omega arith

read_count-be32 :
    (id : Bytes) (count : ℕ) (xs : Bytes)
    → length id ≡ 20
    → count < u32_mod
    → read_count (id ++ (be32 count ++ xs)) ≡ count
unfolding read_count be32
read_count-be32 id count xs e h = omega (
  arith,
  get_or-append 20 id (be32 count ++ xs) 0 e,
  get_or-append 20 id (be32 count ++ xs) 1 e,
  get_or-append 20 id (be32 count ++ xs) 2 e,
  get_or-append 20 id (be32 count ++ xs) 3 e,
)

drop_head :
    (id : Bytes) (count : ℕ) (xs : Bytes) → length id ≡ 20 → drop 24 (id ++ (be32 count ++ xs)) ≡ xs
unfolding be32
drop_head id count xs e =
    drop-add 20 4 (id ++ (be32 count ++ xs)) ∙ ap (drop 4) (drop-append 20 id (be32 count ++ xs) e)

-- A table is read into any other from what was saved of it, where its id has 20 bytes and its good
-- nodes are well formed and fewer than 2 ^ 32: the other gets the id, and the good nodes are added to
-- it in their order, with the same ids, addresses and ports, as seen now and not queried for 20 minutes.
pub deserialize-serialize :
    (saved now : ℕ) (t other : RoutingTable)
    → length t.own_id ≡ 20
    → All IsNode (all_good_nodes saved t.buckets)
    → length (all_good_nodes saved t.buckets) < u32_mod
    → deserialize now other (serialize saved t) ≡ (
      add_all now
          (record other { own_id = t.own_id })
          (map (revived now) (all_good_nodes saved t.buckets)),
      true,
    )
unfolding deserialize serialize
deserialize-serialize saved now t other e h l =
    let ns = all_good_nodes saved t.buckets in
    let count = length ns in
    let body = be32 count ++ write_nodes ns in
    rw
      (
        le→ltb (length (t.own_id ++ body)) 24
            (omega (arith, length-append t.own_id body, length-body count (write_nodes ns))),
        take-append 20 t.own_id body e,
        read_count-be32 t.own_id count (write_nodes ns) e l,
        drop_head t.own_id count (write_nodes ns) e,
      )
      (ap (λ xs. (read_nodes now count xs (record other { own_id = t.own_id }), true))
          (sym (append-nil (write_nodes ns)))
        ∙ ap (λ (r : RoutingTable). (r, true))
            (read_nodes-write_nodes now ns (record other { own_id = t.own_id }) [] h))
