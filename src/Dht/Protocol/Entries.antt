-- ===== src/Dht/Protocol/Entries.antt =====
-- Dictionaries that may or may not have an entry, and how they are written and looked up.
use pixel_scrape.Base.{
  ℕ, suc, ◌+◌, ◌≡◌, refl, sym, ap, ◌∙◌, inl, inr, false, Option, none, some, [], ◌∷◌, ◌++◌, arith,
  append_assoc, length, Bool-cases,
}
use pixel_scrape.Base.Bytes.{Bytes, equal, equal→eq, equal_self}
use pixel_scrape.Bencode.{Value, Fields, no_fields, field, assign, find, encode, encode_string}
use pixel_scrape.Bencode.Parser.{ok}
use pixel_scrape.Bencode.RoundTrip.Canonical.{IsCanonical, calls}
use pixel_scrape.Bencode.Writing.{ReadsFields, Reads-entry, Reads-canonical}

-- An entry that stands there if there is a value for it.
abbrev pub put : Bytes → Option Value → Fields → Fields
put k none fs = fs
put k (some v) fs = assign k v fs

abbrev pub entry_text : Bytes → Option Value → Bytes
entry_text k none = []
entry_text k (some v) = encode_string k ++ encode v

abbrev pub HoldsCanonical : Option Value → Type 0
HoldsCanonical none = Unit
HoldsCanonical (some v) = IsCanonical v

abbrev pub calls_of : Option Value → ℕ
calls_of none = 0
calls_of (some v) = calls v

pub ReadsFields-put :
    (k more : Bytes) (o : Option Value) (fs fs' : Fields) (m : ℕ)
    → HoldsCanonical o
    → ReadsFields more (put k o fs) fs' m
    → ReadsFields (entry_text k o ++ more) fs fs' (suc (calls_of o + m))
ReadsFields-put k more none fs fs' m c reads f xs p rest small enough at =
    reads f xs p rest small (omega arith) at
ReadsFields-put k more (some v) fs fs' m c reads f xs p rest small enough at =
    Reads-entry k (encode v) more v fs fs' (calls v) m (Reads-canonical v c) reads f xs p rest small
      enough (at ∙ ap (λ t. t ++ b'e' ∷ rest) (append_assoc (encode_string k) (encode v) more))
    ∙ ap (λ t. ok (fs', p + length t + 1)) (sym (append_assoc (encode_string k) (encode v) more))

pub find-assign_self : (k : Bytes) (v : Value) (fs : Fields) → find k (assign k v fs) ≡ some v
unfolding find assign
find-assign_self k v no_fields = rw (equal_self k)
find-assign_self k v (field j w fs) = elim (Bool-cases (equal j k)) [
  | inl same ↦ rw (same, assign) (rw same)
  | inr other ↦ rw (other, assign) (rw (other, find) (find-assign_self k v fs))
]

pub find-assign_other :
    (k j : Bytes) (v : Value) (fs : Fields) → equal k j ≡ false → find j (assign k v fs) ≡ find j fs
unfolding find assign
find-assign_other k j v no_fields ne = rw ne
find-assign_other k j v (field i w fs) ne = elim (Bool-cases (equal i k)) [
  | inl same ↦
      let apart : equal i j ≡ false = ap (λ t. equal t j) (equal→eq i k same) ∙ ne in
      rw (same, assign) (rw apart)
  | inr other ↦
      rw (other, assign)
        (elim (Bool-cases (equal i j)) [
          | inl here ↦ rw here
          | inr past ↦ rw past (find-assign_other k j v fs ne)
        ])
]

pub find-put_self :
    (k : Bytes) (o : Option Value) (fs : Fields) → find k fs ≡ none → find k (put k o fs) ≡ o
find-put_self k none fs e = e
find-put_self k (some v) fs e = find-assign_self k v fs

pub find-put_other :
    (k j : Bytes) (o : Option Value) (fs : Fields)
    → equal k j ≡ false
    → find j (put k o fs) ≡ find j fs
find-put_other k j none fs ne = refl
find-put_other k j (some v) fs ne = find-assign_other k j v fs ne
