-- ===== src/Dht/KBucket/Calls.antt =====
-- A bucket never holds more than eight nodes, nor two of the same id.
use pixel_scrape.Base.{
  ℕ, ◌+◌, ◌≤◌, refl, sym, inl, inr, List, [], ◌∷◌, ltb, length, length-append, arith, Bool-cases,
  Option-cases,
}
use pixel_scrape.Base.Bytes.{equal→eq}
use pixel_scrape.Dht.Node.{NodeId, DhtNode, is_bad}
use pixel_scrape.Dht.KBucket.{
  capacity, has_id, update_first, try_replace_bad_node, add_node, remove_node, update_last_seen,
  mark_query_sent, mark_query_failed,
}
use pixel_scrape.Dht.KBucket.Lookup.{update_first-NonePass}
use pixel_scrape.Dht.KBucket.Places.{
  ids, Absent, Distinct, IsBucket, NonePass-Absent, ids-update_first, IsBucket-of_ids,
  IsBucket-updated, Distinct-update_first, length-update_first, Distinct-append,
}

add_node-IsBucket :
    (now : ℕ) (ns : List DhtNode) (n : DhtNode) → IsBucket ns → IsBucket (add_node now ns n).0
unfolding add_node try_replace_bad_node
add_node-IsBucket now ns n h = elim (Option-cases (update_first (has_id n.id) (λ _. n) ns)) [
  | inr (ms, o) ↦
      rw (o, add_node)
        (IsBucket-of_ids ns ms
          (ids-update_first (has_id n.id) (λ _. n) (λ m t. sym (equal→eq m.id n.id t)) ns ms o) h)
  | inl o ↦
      let absent = NonePass-Absent n.id ns (update_first-NonePass (has_id n.id) (λ _. n) ns o) in
      elim (Bool-cases (ltb (length ns) capacity)) [
        | inl l ↦
            rw (o, l, add_node)
              (record {
                size = ground (arith, length-append ns (n ∷ []));
                distinct = Distinct-append n ns h.distinct absent;
              })
        | inr l ↦ elim (Option-cases (update_first (is_bad now) (λ _. n) ns)) [
          | inl r ↦ rw (o, l, r, add_node, try_replace_bad_node) h
          | inr (ms, r) ↦
              rw (o, l, r, add_node, try_replace_bad_node)
                (record {
                  size = omega (arith, length-update_first (is_bad now) (λ _. n) ns ms r, h.size);
                  distinct = Distinct-update_first (is_bad now) n ns ms r absent h.distinct;
                })
        ]
      ]
]

Absent-remove_node :
    (x id : NodeId) (ns : List DhtNode) → Absent x (ids ns) → Absent x (ids (remove_node ns id))
unfolding remove_node
Absent-remove_node x id [] a = tt
Absent-remove_node x id (n ∷ ns) a = elim (Bool-cases (has_id id n)) [
  | inl t ↦ rw t (Absent-remove_node x id ns a.1)
  | inr t ↦ rw t (a.0, Absent-remove_node x id ns a.1)
]

Distinct-remove_node :
    (id : NodeId) (ns : List DhtNode) → Distinct (ids ns) → Distinct (ids (remove_node ns id))
unfolding remove_node
Distinct-remove_node id [] d = tt
Distinct-remove_node id (n ∷ ns) d = elim (Bool-cases (has_id id n)) [
  | inl t ↦ rw t (Distinct-remove_node id ns d.1)
  | inr t ↦ rw t (Absent-remove_node n.id id ns d.0, Distinct-remove_node id ns d.1)
]

length-remove_node : (id : NodeId) (ns : List DhtNode) → length (remove_node ns id) ≤ length ns
unfolding remove_node
length-remove_node id [] = omega arith
length-remove_node id (n ∷ ns) = elim (Bool-cases (has_id id n)) [
  | inl t ↦ rw t (omega (arith, length-remove_node id ns))
  | inr t ↦ rw t (omega (arith, length-remove_node id ns))
]

remove_node-IsBucket :
    (ns : List DhtNode) (id : NodeId) → IsBucket ns → IsBucket (remove_node ns id)
remove_node-IsBucket ns id h = record {
  size = omega (arith, length-remove_node id ns, h.size);
  distinct = Distinct-remove_node id ns h.distinct;
}

-- The calls that change a bucket, each at a time.
pub data Call : Type 0 where
  adds : ℕ → DhtNode → Call
  removes : NodeId → Call
  sees : ℕ → NodeId → Call
  queries : ℕ → NodeId → Call
  fails : NodeId → Call

unfoldable pub step : List DhtNode → Call → List DhtNode
step ns (adds now n) = (add_node now ns n).0
step ns (removes id) = remove_node ns id
step ns (sees now id) = update_last_seen now ns id
step ns (queries now id) = mark_query_sent now ns id
step ns (fails id) = mark_query_failed ns id

unfoldable pub run : List DhtNode → List Call → List DhtNode
unfolding step
run ns [] = ns
run ns (c ∷ cs) = run (step ns c) cs

step-IsBucket : (ns : List DhtNode) (c : Call) → IsBucket ns → IsBucket (step ns c)
unfolding step update_last_seen mark_query_sent mark_query_failed
step-IsBucket ns (adds now n) h = add_node-IsBucket now ns n h
step-IsBucket ns (removes id) h = remove_node-IsBucket ns id h
step-IsBucket ns (sees now id) h =
    IsBucket-updated (has_id id) (λ n. record n { last_seen = now; failed_queries = 0 }) ns
      (λ m t. refl) h
step-IsBucket ns (queries now id) h =
    IsBucket-updated (has_id id) (λ n. record n { last_query = now }) ns (λ m t. refl) h
step-IsBucket ns (fails id) h =
    IsBucket-updated (has_id id) (λ n. record n { failed_queries = n.failed_queries + 1 }) ns
      (λ m t. refl) h

-- Whatever calls are made on a bucket of at most eight nodes with distinct ids, in whatever order and
-- at whatever times, it stays one.
pub run-IsBucket : (ns : List DhtNode) (cs : List Call) → IsBucket ns → IsBucket (run ns cs)
unfolding run
run-IsBucket ns [] h = h
run-IsBucket ns (c ∷ cs) h = run-IsBucket (step ns c) cs (step-IsBucket ns c h)
