-- ===== src/Bencode/RoundTrip/Sorting.antt =====
-- Dictionaries whose keys stand in order already.
use pixel_scrape.Base.{◌≡◌, refl, ap, subst, ◌∙◌, inl, inr, true, false, [], ◌∷◌, arith, Bool-cases}
use pixel_scrape.Base.Bytes.{Bytes, equal, equal→eq}
use pixel_scrape.Bencode.{
  Value, Fields, no_fields, field, assign, less, insert_entry, sort_entries, encode, encode_fields,
}

pub less_irrefl : (xs : Bytes) → less xs xs ≡ false
unfolding less
less_irrefl [] = refl
less_irrefl (x ∷ xs) = ground (arith, less_irrefl xs)

pub less_trans : (xs ys zs : Bytes) → less xs ys ≡ true → less ys zs ≡ true → less xs zs ≡ true
unfolding less
less_trans [] [] zs h k = cc
less_trans [] (y ∷ ys) [] h k = cc
less_trans [] (y ∷ ys) (z ∷ zs) h k = refl
less_trans (x ∷ xs) [] zs h k = cc
less_trans (x ∷ xs) (y ∷ ys) [] h k = cc
less_trans (x ∷ xs) (y ∷ ys) (z ∷ zs) h k = ground (arith, less_trans xs ys zs)

pub less_asymm : (xs ys : Bytes) → less xs ys ≡ true → less ys xs ≡ false
less_asymm xs ys h = elim (Bool-cases (less ys xs)) [
  | inr e ↦ e
  | inl e ↦ let t = less_trans xs ys xs h e in cc (t, less_irrefl xs)
]

-- The keys of a dictionary rise strictly, and lie above `k` where that is asked.
abbrev pub IsAbove : Bytes → Fields → Type 0
IsAbove k no_fields = Unit
IsAbove k (field j v fs) = (less k j ≡ true) × IsAbove k fs

abbrev pub IsRising : Fields → Type 0
IsRising no_fields = Unit
IsRising (field k v fs) = IsAbove k fs × IsRising fs

insert_entry-Above :
    (k : Bytes) (v : Value) (fs : Fields)
    → IsAbove k fs
    → insert_entry (k, encode v) (encode_fields fs) ≡ (k, encode v) ∷ encode_fields fs
unfolding insert_entry
insert_entry-Above k v no_fields h = unfold encode_fields in refl
insert_entry-Above k v (field j w fs) h =
    unfold encode_fields in rw (less_asymm k j h.0, insert_entry)

-- Sorting leaves them as they are.
pub sort_entries-Rising :
    (fs : Fields) → IsRising fs → sort_entries (encode_fields fs) ≡ encode_fields fs
unfolding sort_entries encode_fields
sort_entries-Rising no_fields h = refl
sort_entries-Rising (field k v fs) h =
    ap (insert_entry (k, encode v)) (sort_entries-Rising fs h.1) ∙ insert_entry-Above k v fs h.0

unfoldable pub append_fields : Fields → Fields → Fields
append_fields no_fields gs = gs
append_fields (field k v fs) gs = field k v (append_fields fs gs)

pub append_fields_assoc :
    (fs : Fields) (k : Bytes) (v : Value) (gs : Fields)
    → append_fields (append_fields fs (field k v no_fields)) gs ≡ append_fields fs (field k v gs)
unfolding append_fields
append_fields_assoc no_fields k v gs = refl
append_fields_assoc (field j w fs) k v gs = ap (field j w) (append_fields_assoc fs k v gs)

-- All keys lie below `k`.
abbrev pub AreBelow : Fields → Bytes → Type 0
AreBelow no_fields k = Unit
AreBelow (field j v fs) k = (less j k ≡ true) × AreBelow fs k

pub AreBelow-trans : (fs : Fields) (k l : Bytes) → less k l ≡ true → AreBelow fs k → AreBelow fs l
AreBelow-trans no_fields k l h b = tt
AreBelow-trans (field j v fs) k l h b = (less_trans j k l b.0 h, AreBelow-trans fs k l h b.1)

pub AreBelow-snoc :
    (fs : Fields) (j k : Bytes) (v : Value)
    → less j k ≡ true
    → AreBelow fs k
    → AreBelow (append_fields fs (field j v no_fields)) k
unfolding append_fields
AreBelow-snoc no_fields j k v h b = (h, tt)
AreBelow-snoc (field i w fs) j k v h b = (b.0, AreBelow-snoc fs j k v h b.1)

equal_of_less : (j k : Bytes) → less j k ≡ true → equal j k ≡ false
equal_of_less j k h = elim (Bool-cases (equal j k)) [
  | inr e ↦ e
  | inl e ↦
      let same = equal→eq j k e in
      let clash : less k k ≡ true = subst (λ x. less x k ≡ true) same h in cc (clash, less_irrefl k)
]

-- A key above all others is added at the end.
pub assign-append :
    (fs : Fields) (k : Bytes) (v : Value)
    → AreBelow fs k
    → assign k v fs ≡ append_fields fs (field k v no_fields)
unfolding assign append_fields
assign-append no_fields k v b = refl
assign-append (field j w fs) k v b =
    rw (equal_of_less j k b.0, assign) (ap (field j w) (assign-append fs k v b.1))

-- All keys lie below the next one to come.
abbrev pub Follows : Fields → Fields → Type 0
Follows acc no_fields = Unit
Follows acc (field k v fs) = AreBelow acc k

pub Follows-none : (fs : Fields) → Follows no_fields fs
Follows-none no_fields = tt
Follows-none (field k v fs) = tt

pub Follows-next :
    (acc : Fields) (k : Bytes) (v : Value) (fs : Fields)
    → AreBelow acc k
    → IsAbove k fs
    → Follows (append_fields acc (field k v no_fields)) fs
Follows-next acc k v no_fields b a = tt
Follows-next acc k v (field j w fs) b a = AreBelow-snoc acc k j v a.0 (AreBelow-trans acc k j a.0 b)

pub append_fields_none : (fs : Fields) → append_fields fs no_fields ≡ fs
unfolding append_fields
append_fields_none no_fields = refl
append_fields_none (field k v fs) = ap (field k v) (append_fields_none fs)
