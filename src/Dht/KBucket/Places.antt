-- ===== src/Dht/KBucket/Places.antt =====
-- The ids of the nodes in a bucket, and what a write through an iterator does to them.
use pixel_scrape.Base.{
  suc, ◌≤◌, ◌≡◌, ◌≢◌, sym, ap, subst, ◌∙◌, inl, inr, Bool, true, none, some, List, [], ◌∷◌, ◌++◌,
  map, length, length-map, arith, All, Bool-cases, Option-cases, some_eq,
}
use pixel_scrape.Base.Bytes.{equal-ne}
use pixel_scrape.Dht.Node.{NodeId, DhtNode}
use pixel_scrape.Dht.KBucket.{capacity, has_id, update_first, updated}
use pixel_scrape.Dht.KBucket.Lookup.{NonePass}

abbrev pub ids : List DhtNode → List NodeId
ids = map (λ n. n.id)

abbrev pub Absent : NodeId → List NodeId → Type 0
Absent x = All (λ y. y ≢ x)

abbrev pub Distinct : List NodeId → Type 0
Distinct [] = Unit
Distinct (x ∷ xs) = Absent x xs × Distinct xs

pub record IsBucket (ns : List DhtNode) : Type 0 where
  pub size : length ns ≤ capacity
  pub distinct : Distinct (ids ns)

pub NonePass-Absent : (x : NodeId) (ns : List DhtNode) → NonePass (has_id x) ns → Absent x (ids ns)
NonePass-Absent x [] h = tt
NonePass-Absent x (n ∷ ns) h = (equal-ne n.id x h.0, NonePass-Absent x ns h.1)

-- An update that leaves the id of the node that it changes.
module _ (p : DhtNode → Bool) (f : DhtNode → DhtNode)
    (k : (m : DhtNode) → p m ≡ true → (f m).id ≡ m.id) where
  pub ids-update_first : (ns ms : List DhtNode) → update_first p f ns ≡ some ms → ids ms ≡ ids ns
  unfolding update_first
  ids-update_first [] ms e = cc
  ids-update_first (m ∷ ns) ms e = elim (Bool-cases (p m)) [
    | inl t ↦
        let q : some (f m ∷ ns) ≡ some ms = rw t at e in
        ap ids (sym (some_eq q)) ∙ ap (λ x. x ∷ ids ns) (k m t)
    | inr t ↦ elim (Option-cases (update_first p f ns)) [
      | inl o ↦ let q : none ≡ some ms = rw (t, o) at e in cc
      | inr (ms', o) ↦
          let q : some (m ∷ ms') ≡ some ms = rw (t, o) at e in
          ap ids (sym (some_eq q)) ∙ ap (λ xs. m.id ∷ xs) (ids-update_first ns ms' o)
    ]
  ]

pub IsBucket-of_ids : (ns ms : List DhtNode) → ids ms ≡ ids ns → IsBucket ns → IsBucket ms
IsBucket-of_ids ns ms e h = record {
  size = omega (
    arith,
    ap length e,
    length-map (λ (n : DhtNode). n.id) ns,
    length-map (λ (n : DhtNode). n.id) ms,
    h.size,
  );
  distinct = subst Distinct (sym e) h.distinct;
}

pub IsBucket-updated :
    (p : DhtNode → Bool) (f : DhtNode → DhtNode) (ns : List DhtNode)
    → ((m : DhtNode) → p m ≡ true → (f m).id ≡ m.id)
    → IsBucket ns
    → IsBucket (updated ns (update_first p f ns))
IsBucket-updated p f ns k h = elim (Option-cases (update_first p f ns)) [
  | inl o ↦ rw o h
  | inr (ms, o) ↦ rw o (IsBucket-of_ids ns ms (ids-update_first p f k ns ms o) h)
]

-- A node whose id is new, in place of another.
Absent-update_first :
    (p : DhtNode → Bool) (n : DhtNode) (x : NodeId) (ns ms : List DhtNode)
    → update_first p (λ _. n) ns ≡ some ms
    → Absent x (ids ns)
    → n.id ≢ x
    → Absent x (ids ms)
unfolding update_first
Absent-update_first p n x [] ms e a d = cc
Absent-update_first p n x (m ∷ ns) ms e a d = elim (Bool-cases (p m)) [
  | inl t ↦
      let q : some (n ∷ ns) ≡ some ms = rw t at e in
      subst (λ ks. Absent x (ids ks)) (some_eq q) (d, a.1)
  | inr t ↦ elim (Option-cases (update_first p (λ _. n) ns)) [
    | inl o ↦ let q : none ≡ some ms = rw (t, o) at e in cc
    | inr (ms', o) ↦
        let q : some (m ∷ ms') ≡ some ms = rw (t, o) at e in
        subst (λ ks. Absent x (ids ks)) (some_eq q) (a.0, Absent-update_first p n x ns ms' o a.1 d)
  ]
]

pub Distinct-update_first :
    (p : DhtNode → Bool) (n : DhtNode) (ns ms : List DhtNode)
    → update_first p (λ _. n) ns ≡ some ms
    → Absent n.id (ids ns)
    → Distinct (ids ns)
    → Distinct (ids ms)
unfolding update_first
Distinct-update_first p n [] ms e a d = cc
Distinct-update_first p n (m ∷ ns) ms e a d = elim (Bool-cases (p m)) [
  | inl t ↦
      let q : some (n ∷ ns) ≡ some ms = rw t at e in
      subst (λ ks. Distinct (ids ks)) (some_eq q) (a.1, d.1)
  | inr t ↦ elim (Option-cases (update_first p (λ _. n) ns)) [
    | inl o ↦ let q : none ≡ some ms = rw (t, o) at e in cc
    | inr (ms', o) ↦
        let q : some (m ∷ ms') ≡ some ms = rw (t, o) at e in
        subst (λ ks. Distinct (ids ks)) (some_eq q)
          (
            Absent-update_first p n m.id ns ms' o d.0 (λ s. a.0 (sym s)),
            Distinct-update_first p n ns ms' o a.1 d.1,
          )
  ]
]

pub length-update_first :
    (p : DhtNode → Bool) (f : DhtNode → DhtNode) (ns ms : List DhtNode)
    → update_first p f ns ≡ some ms
    → length ms ≡ length ns
unfolding update_first
length-update_first p f [] ms e = cc
length-update_first p f (m ∷ ns) ms e = elim (Bool-cases (p m)) [
  | inl t ↦ let q : some (f m ∷ ns) ≡ some ms = rw t at e in ap length (sym (some_eq q))
  | inr t ↦ elim (Option-cases (update_first p f ns)) [
    | inl o ↦ let q : none ≡ some ms = rw (t, o) at e in cc
    | inr (ms', o) ↦
        let q : some (m ∷ ms') ≡ some ms = rw (t, o) at e in
        ap length (sym (some_eq q)) ∙ ap suc (length-update_first p f ns ms' o)
  ]
]

pub Absent-append :
    (x : NodeId) (n : DhtNode) (ns : List DhtNode)
    → Absent x (ids ns)
    → n.id ≢ x
    → Absent x (ids (ns ++ n ∷ []))
Absent-append x n [] a d = (d, tt)
Absent-append x n (m ∷ ns) a d = (a.0, Absent-append x n ns a.1 d)

pub Distinct-append :
    (n : DhtNode) (ns : List DhtNode)
    → Distinct (ids ns)
    → Absent n.id (ids ns)
    → Distinct (ids (ns ++ n ∷ []))
Distinct-append n [] d a = (tt, tt)
Distinct-append n (m ∷ ns) d a =
    (Absent-append m.id n ns d.0 (λ s. a.0 (sym s)), Distinct-append n ns d.1 a.1)
