-- ===== src/Dht/KBucket/Lookup.antt =====
-- What `KBucket::add_node` does to the bucket.
use pixel_scrape.Base.{
  ℕ, ◌≤◌, ◌≡◌, refl, sym, ◌∙◌, inl, inr, Bool, true, false, none, some, List, [], ◌∷◌, ◌++◌, ltb,
  length, arith, All, Bool-cases, Option-cases, some_eq,
}
use pixel_scrape.Base.Bytes.{equal_self}
use pixel_scrape.Dht.Node.{DhtNode, is_bad}
use pixel_scrape.Dht.KBucket.{
  capacity, has_id, update_first, try_replace_bad_node, add_node, get_node,
}

true-ne-false : true ≡ false → ⊥
true-ne-false e = cc

-- No node passes a test.
abbrev pub NonePass : (DhtNode → Bool) → List DhtNode → Type 0
NonePass p = All (λ n. p n ≡ false)

pub update_first-NonePass :
    (p : DhtNode → Bool) (f : DhtNode → DhtNode) (ns : List DhtNode)
    → update_first p f ns ≡ none
    → NonePass p ns
unfolding update_first
update_first-NonePass p f [] e = tt
update_first-NonePass p f (n ∷ ns) e = elim (Bool-cases (p n)) [
  | inl t ↦ let k : some (f n ∷ ns) ≡ none = rw t at e in cc
  | inr t ↦ elim (Option-cases (update_first p f ns)) [
    | inl o ↦ (t, update_first-NonePass p f ns o)
    | inr (ms, o) ↦ let k : some (n ∷ ms) ≡ none = rw (t, o) at e in cc
  ]
]

-- A node put in place of the first that passes a test is found, where the nodes with its id pass it.
get_node-update_first :
    (p : DhtNode → Bool) (n : DhtNode) (ns ms : List DhtNode)
    → All (λ m. has_id n.id m ≡ true → p m ≡ true) ns
    → update_first p (λ _. n) ns ≡ some ms
    → get_node ms n.id ≡ some n
unfolding update_first get_node
get_node-update_first p n [] ms c e = cc
get_node-update_first p n (m ∷ ns) ms c e = elim (Bool-cases (p m)) [
  | inl t ↦ let k : some (n ∷ ns) ≡ some ms = rw t at e in rw (← some_eq k, equal_self n.id) refl
  | inr t ↦ elim (Option-cases (update_first p (λ _. n) ns)) [
    | inl o ↦ let k : none ≡ some ms = rw (t, o) at e in cc
    | inr (ms', o) ↦
        let k : some (m ∷ ms') ≡ some ms = rw (t, o) at e in
        let other : has_id n.id m ≡ false = other_id m c.0 t in
        rw (← some_eq k, other) (get_node-update_first p n ns ms' c.1 o)
  ]
]
  where
    other_id :
        (m : DhtNode) → (has_id n.id m ≡ true → p m ≡ true) → p m ≡ false → has_id n.id m ≡ false
    other_id m c t = elim (Bool-cases (has_id n.id m)) [
      | inl h ↦ absurd (true-ne-false (sym (c h) ∙ t))
      | inr h ↦ h
    ]

get_node-append :
    (n : DhtNode) (ns : List DhtNode)
    → NonePass (has_id n.id) ns
    → get_node (ns ++ n ∷ []) n.id ≡ some n
unfolding get_node
get_node-append n [] h = rw (equal_self n.id) refl
get_node-append n (m ∷ ns) h = rw h.0 (get_node-append n ns h.1)

All-always : (P : DhtNode → Type 0) → ((m : DhtNode) → P m) → (ns : List DhtNode) → All P ns
All-always P f [] = tt
All-always P f (n ∷ ns) = (f n, All-always P f ns)

NonePass-any :
    (p q : DhtNode → Bool) (ns : List DhtNode)
    → NonePass p ns
    → All (λ m. p m ≡ true → q m ≡ true) ns
NonePass-any p q [] h = tt
NonePass-any p q (n ∷ ns) h = ((λ t. absurd (true-ne-false (sym t ∙ h.0))), NonePass-any p q ns h.1)

-- What a call of `KBucket::add_node` promises. Where it returns true, the node is the one that is found
-- under its id; where it returns false, the bucket is as before, full, without a node of this id and
-- without a bad node.
pub add_node-get_node :
    (now : ℕ) (ns : List DhtNode) (n : DhtNode)
    → ((add_node now ns n).1 ≡ true → get_node (add_node now ns n).0 n.id ≡ some n)
      × ((add_node now ns n).1 ≡ false
          → ((add_node now ns n).0 ≡ ns)
            × ((capacity ≤ length ns) × (NonePass (has_id n.id) ns × NonePass (is_bad now) ns)))
unfolding add_node try_replace_bad_node
add_node-get_node now ns n = elim (Option-cases (update_first (has_id n.id) (λ _. n) ns)) [
  | inr (ms, o) ↦
      rw (o, add_node)
        (
          (λ t.
              get_node-update_first (has_id n.id) n ns ms
                (All-always (λ m. has_id n.id m ≡ true → has_id n.id m ≡ true) (λ m h. h) ns) o),
          (λ f. absurd (true-ne-false f)),
        )
  | inl o ↦
      let absent = update_first-NonePass (has_id n.id) (λ _. n) ns o in
      elim (Bool-cases (ltb (length ns) capacity)) [
        | inl l ↦
            rw (o, l, add_node)
              ((λ t. get_node-append n ns absent), (λ f. absurd (true-ne-false f)))
        | inr l ↦ elim (Option-cases (update_first (is_bad now) (λ _. n) ns)) [
          | inr (ms, r) ↦
              rw (o, l, r, add_node, try_replace_bad_node)
                (
                  (λ t.
                      get_node-update_first (is_bad now) n ns ms
                        (NonePass-any (has_id n.id) (is_bad now) ns absent) r),
                  (λ f. absurd (true-ne-false f)),
                )
          | inl r ↦
              rw (o, l, r, add_node, try_replace_bad_node)
                (
                  (λ t. absurd (true-ne-false (sym t))),
                  λ f. (
                    refl,
                    (ground arith, (absent, update_first-NonePass (is_bad now) (λ _. n) ns r)),
                  ),
                )
        ]
      ]
]
