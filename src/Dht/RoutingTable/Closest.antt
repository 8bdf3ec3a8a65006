-- ===== src/Dht/RoutingTable/Closest.antt =====
-- The nodes that find_closest_nodes gives, by the XOR metric as numbers.
use pixel_scrape.Base.{
  ℕ, suc, ◌≤◌, ◌≡◌, refl, sym, ap, subst, ◌∙◌, inl, inr, min, true, false, List, [], ◌∷◌, ◌++◌,
  length, length-take, drop, take-append-drop, All, Bool-cases, if◌then◌else◌,
}
use mathlib.Core.List.{Perm}
use mathlib.Core.List.Perm
use pixel_scrape.Dht.Node.{NodeId, DhtNode, is_good}
use pixel_scrape.Dht.Node.Order.{metric, IsId, id_less-metric}
use pixel_scrape.Dht.KBucket.{get_good_nodes}
use pixel_scrape.Dht.RoutingTable.{
  RoutingTable, all_good_nodes, closer, insert_node, sort_nodes, find_closest_nodes,
}

-- No node is farther from the target than the next.
abbrev pub IsSorted : NodeId → List DhtNode → Type 0
IsSorted target [] = Unit
IsSorted target (n ∷ []) = Unit
IsSorted target (n ∷ m ∷ ms) = (metric n.id target ≤ metric m.id target) × IsSorted target (m ∷ ms)

unfoldable pub keep_good : ℕ → List DhtNode → List DhtNode
keep_good now [] = []
keep_good now (n ∷ ns) = let rest = keep_good now ns in if is_good now n then n ∷ rest else rest

abbrev pub joined : List (List DhtNode) → List DhtNode
joined [] = []
joined (b ∷ bs) = b ++ joined bs

-- The good nodes of all buckets.
abbrev pub good_of : ℕ → List (List DhtNode) → List DhtNode
good_of now bs = keep_good now (joined bs)

get_good_nodes-keep_good :
    (now : ℕ) (ns ms : List DhtNode)
    → get_good_nodes now ns ++ keep_good now ms ≡ keep_good now (ns ++ ms)
unfolding get_good_nodes keep_good
get_good_nodes-keep_good now [] ms = refl
get_good_nodes-keep_good now (n ∷ ns) ms = elim (Bool-cases (is_good now n)) [
  | inl g ↦ rw g (ap (λ ks. n ∷ ks) (get_good_nodes-keep_good now ns ms))
  | inr g ↦ rw g (get_good_nodes-keep_good now ns ms)
]

all_good_nodes-good_of :
    (now : ℕ) (bs : List (List DhtNode)) → all_good_nodes now bs ≡ good_of now bs
unfolding all_good_nodes keep_good
all_good_nodes-good_of now [] = refl
all_good_nodes-good_of now (b ∷ bs) =
    ap (λ ms. get_good_nodes now b ++ ms) (all_good_nodes-good_of now bs)
    ∙ get_good_nodes-keep_good now b (joined bs)

length-insert_node :
    (target : NodeId) (n : DhtNode) (ms : List DhtNode)
    → length (insert_node target n ms) ≡ suc (length ms)
unfolding insert_node
length-insert_node target n [] = refl
length-insert_node target n (m ∷ ms) = elim (Bool-cases (closer target n m)) [
  | inl c ↦ rw c refl
  | inr c ↦ rw c (ap suc (length-insert_node target n ms))
]

length-sort_nodes :
    (target : NodeId) (ns : List DhtNode) → length (sort_nodes target ns) ≡ length ns
unfolding sort_nodes
length-sort_nodes target [] = refl
length-sort_nodes target (n ∷ ns) =
    length-insert_node target n (sort_nodes target ns) ∙ ap suc (length-sort_nodes target ns)

insert_node-Perm :
    (target : NodeId) (n : DhtNode) (ms : List DhtNode) → Perm (insert_node target n ms) (n ∷ ms)
unfolding insert_node
insert_node-Perm target n [] = Perm.rfl
insert_node-Perm target n (m ∷ ms) = elim (Bool-cases (closer target n m)) [
  | inl c ↦ rw c Perm.rfl
  | inr c ↦ rw c (Perm.trans (Perm.cons m (insert_node-Perm target n ms)) (Perm.swap n m ms))
]

sort_nodes-Perm : (target : NodeId) (ns : List DhtNode) → Perm (sort_nodes target ns) ns
unfolding sort_nodes
sort_nodes-Perm target [] = Perm.rfl
sort_nodes-Perm target (n ∷ ns) =
    Perm.trans (insert_node-Perm target n (sort_nodes target ns))
      (Perm.cons n (sort_nodes-Perm target ns))

abbrev pub HasId : DhtNode → Type 0
HasId n = IsId n.id

module _ (target : NodeId) (whole : IsId target) where
  insert_node-HasId :
      (n : DhtNode) (ms : List DhtNode)
      → HasId n
      → All HasId ms
      → All HasId (insert_node target n ms)
  unfolding insert_node
  insert_node-HasId n [] hn h = (hn, tt)
  insert_node-HasId n (m ∷ ms) hn h = elim (Bool-cases (closer target n m)) [
    | inl c ↦ rw c (hn, h)
    | inr c ↦ rw c (h.0, insert_node-HasId n ms hn h.1)
  ]

  sort_nodes-HasId : (ns : List DhtNode) → All HasId ns → All HasId (sort_nodes target ns)
  unfolding sort_nodes
  sort_nodes-HasId [] h = tt
  sort_nodes-HasId (n ∷ ns) h =
      insert_node-HasId n (sort_nodes target ns) h.0 (sort_nodes-HasId ns h.1)

  closer-metric :
      (n m : DhtNode)
      → HasId n
      → HasId m
      → (closer target n m ≡ true → metric n.id target ≤ metric m.id target)
        × (closer target n m ≡ false → metric m.id target ≤ metric n.id target)
  unfolding closer
  closer-metric n m hn hm = id_less-metric n.id m.id target hn hm whole

  insert_node-IsSorted :
      (n : DhtNode) (ms : List DhtNode)
      → HasId n
      → All HasId ms
      → IsSorted target ms
      → IsSorted target (insert_node target n ms)
  unfolding insert_node
  insert_node-IsSorted n [] hn hs h = tt
  insert_node-IsSorted n (m ∷ []) hn hs h =
      let near = closer-metric n m hn hs.0 in
      elim (Bool-cases (closer target n m)) [
        | inl c ↦ rw c (near.0 c, tt)
        | inr c ↦ rw c (near.1 c, tt)
      ]
  insert_node-IsSorted n (m ∷ k ∷ ks) hn hs h =
      let near = closer-metric n m hn hs.0 in
      elim (Bool-cases (closer target n m)) [
        | inl c ↦ rw c (near.0 c, h)
        | inr c ↦ elim (Bool-cases (closer target n k)) [
          | inl e ↦ rw (c, e) (near.1 c, ((closer-metric n k hn hs.1.0).0 e, h.1))
          | inr e ↦
              let rest = insert_node-IsSorted n (k ∷ ks) hn hs.1 h.1 in
              rw (c, e) (h.0, (rw e at rest))
        ]
      ]

  sort_nodes-IsSorted : (ns : List DhtNode) → All HasId ns → IsSorted target (sort_nodes target ns)
  unfolding sort_nodes
  sort_nodes-IsSorted [] h = tt
  sort_nodes-IsSorted (n ∷ ns) h =
      insert_node-IsSorted n (sort_nodes target ns) h.0 (sort_nodes-HasId ns h.1)
        (sort_nodes-IsSorted ns h.1)

-- In a table whose good nodes have ids of 20 bytes, the nodes that find_closest_nodes gives are the
-- first of all good nodes of the buckets, put in an order in which none is farther from the target
-- than the next, by the exclusive or of the ids as a number: as many as are asked for, or all of
-- them where they are fewer. The others of that order are given as a list.
pub find_closest_nodes-IsSorted :
    (now : ℕ) (t : RoutingTable) (target : NodeId) (count : ℕ)
    → IsId target
    → All HasId (good_of now t.buckets)
    → (others : List DhtNode) × Perm
        (find_closest_nodes now t target count ++ others)
        (good_of now t.buckets)
      × IsSorted target (find_closest_nodes now t target count ++ others)
      × (length (find_closest_nodes now t target count)
          ≡ min count (length (good_of now t.buckets)))
unfolding find_closest_nodes
find_closest_nodes-IsSorted now t target count whole ids =
    let good = all_good_nodes-good_of now t.buckets in
    let ns = all_good_nodes now t.buckets in
    let sorted = sort_nodes target ns in
    let same = sym (take-append-drop count sorted) in
    let perm = sort_nodes-Perm target ns in
    (
      drop count sorted,
      subst (λ ms. Perm ms (good_of now t.buckets)) same (subst (Perm sorted) good perm),
      subst (IsSorted target) same
          (sort_nodes-IsSorted target whole ns (subst (All HasId) (sym good) ids)),
      length-take count sorted ∙ ap (min count) (length-sort_nodes target ns ∙ ap length good),
    )
