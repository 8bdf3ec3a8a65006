-- ===== src/Bencode/RoundTrip.antt =====
-- A value that was encoded is parsed back.
pub mod Tokens
pub mod Sorting
pub mod Canonical
pub mod Dispatch
use pixel_scrape.Base.{
  ℕ, zero, suc, ◌+◌, ◌-◌, ◌*◌, ◌%◌, ◌≤◌, ◌<◌, ◌≡◌, ◌≢◌, refl, sym, ap, ap₂, subst, ◌∙◌, Bool, true,
  false, ◌&&◌, Option, none, some, List, [], ◌∷◌, ◌++◌, arith, append_assoc, append-nil, ◌==◌,
  if◌then◌else◌, length, get_elem?, drop, drop_past, drop-length_append, length-append, length-drop,
  length-drop_cons, get_elem?-drop,
}
use pixel_scrape.Base.Bytes.{Bytes, size_mod}
use pixel_scrape.Decimal.{is_digit, print_nat, print_int}
use pixel_scrape.Decimal.ReadBack.{AreDigits, print_nat-IsNumeral, FitsInt64}
use pixel_scrape.Bencode.{
  Value, Items, Fields, integer, string, list, dict, no_items, item, no_fields, field, assign,
  encode_string, join_entries, sort_entries, encode, encode_items, encode_fields,
}
use pixel_scrape.Bencode.Parser.{
  ◌>>=◌, Result, ok, parse_integer, parse_string, parse_value, parse_items, parse_fields, parse,
}
use Tokens.{parse_string-encode_string, parse_integer-print_int}
use Sorting.{
  IsAbove, IsRising, sort_entries-Rising, append_fields, append_fields_assoc, append_fields_none,
  assign-append, Follows, Follows-none, Follows-next,
}
use Canonical.{IsCanonical, AreCanonical, HoldCanonical, calls, calls_items, calls_fields}
use Dispatch.{
  digit-ne, encode_string-head, encode-head, parse_value-i, parse_value-l, parse_value-d,
  parse_value_digit, parse_items_end, parse_items_more, parse_fields_end, parse_fields_more,
}

-- What a closing `e` stands behind.
after_open :
    (p c : ℕ) (xs body rest : Bytes)
    → drop p xs ≡ (c ∷ (body ++ b'e' ∷ [])) ++ rest
    → drop (p + 1) xs ≡ body ++ b'e' ∷ rest
after_open p c xs body rest e =
    drop_past p xs (c ∷ []) ((body ++ b'e' ∷ []) ++ rest) e ∙ append_assoc body (b'e' ∷ []) rest

mutual
  unfolding encode calls join_entries append_fields

  pub reads_value :
      (v : Value) (f : ℕ) (xs : Bytes) (p : ℕ) (rest : Bytes)
      → IsCanonical v
      → length xs < size_mod
      → calls v ≤ f
      → drop p xs ≡ encode v ++ rest
      → parse_value f xs p ≡ ok (v, p + length (encode v))
  reads_value (integer z) zero xs p rest c small h e = absurd (omega arith)
  reads_value (string s) zero xs p rest c small h e = absurd (omega arith)
  reads_value (list ys) zero xs p rest c small h e = absurd (omega arith)
  reads_value (dict fs) zero xs p rest c small h e = absurd (omega arith)
  reads_value (integer z) (suc f) xs p rest c small h e =
      parse_value-i f xs p (get_elem?-drop p xs e)
      ∙ ap (λ r. r >>= λ (z, q). ok (integer z, q))
          (parse_integer-print_int xs p z rest c
            (e ∙ ap (◌∷◌ b'i') (append_assoc (print_int z) (b'e' ∷ []) rest)))
      ∙ ap (λ q. ok (integer z, q)) (omega (arith, length-append (print_int z) (b'e' ∷ [])))
  reads_value (string s) (suc f) xs p rest c small h e =
      let (d, ds, split, digit) = encode_string-head s in
      parse_value_digit f xs p d (get_elem?-drop p xs (e ∙ ap (λ t. t ++ rest) split)) digit
      ∙ ap (λ r. r >>= λ (s, q). ok (string s, q)) (parse_string-encode_string xs p s rest small e)
  reads_value (list ys) (suc f) xs p rest c small h e =
      parse_value-l f xs p (get_elem?-drop p xs e)
      ∙ ap (λ r. r >>= λ (vs, q). ok (list vs, q))
          (reads_items ys f xs (p + 1) rest c small (omega arith)
            (after_open p b'l' xs (encode_items ys) rest e))
      ∙ ap (λ q. ok (list ys, q)) (omega (arith, length-append (encode_items ys) (b'e' ∷ [])))
  reads_value (dict fs) (suc f) xs p rest c small h e =
      let body = join_entries (encode_fields fs) in
      let sorted = ap join_entries (sort_entries-Rising fs c.0) in
      parse_value-d f xs p (get_elem?-drop p xs e)
      ∙ ap (λ r. r >>= λ (fs, q). ok (dict fs, q))
          (reads_fields fs no_fields f xs (p + 1) rest c.0 c.1 (Follows-none fs) small (omega arith)
            (after_open p b'd' xs _ rest e ∙ ap (λ t. t ++ b'e' ∷ rest) sorted))
      ∙ ap (λ q. ok (dict fs, q))
          (omega (
            arith,
            ap length sorted,
            length-append (join_entries (sort_entries (encode_fields fs))) (b'e' ∷ []),
          ))

  reads_items :
      (ys : Items) (f : ℕ) (xs : Bytes) (p : ℕ) (rest : Bytes)
      → AreCanonical ys
      → length xs < size_mod
      → calls_items ys ≤ f
      → drop p xs ≡ encode_items ys ++ b'e' ∷ rest
      → parse_items f xs p ≡ ok (ys, p + length (encode_items ys) + 1)
  reads_items no_items zero xs p rest c small h e = absurd (omega arith)
  reads_items (item v ys) zero xs p rest c small h e = absurd (omega arith)
  reads_items no_items (suc f) xs p rest c small h e =
      parse_items_end f xs p (get_elem?-drop p xs e) ∙ ap (λ q. ok (no_items, q)) (omega arith)
  reads_items (item v ys) (suc f) xs p rest c small h e =
      let (d, ds, split, ne) = encode-head v in
      let at_v : drop p xs ≡ encode v ++ (encode_items ys ++ b'e' ∷ rest) =
        e ∙ append_assoc (encode v) (encode_items ys) (b'e' ∷ rest) in
      parse_items_more f xs p d
        (get_elem?-drop p xs (at_v ∙ ap (λ t. t ++ (encode_items ys ++ b'e' ∷ rest)) split)) ne
      ∙ ap (λ r. r >>= λ (v, q). parse_items f xs q >>= λ (vs, r). ok (item v vs, r))
          (reads_value v f xs p (encode_items ys ++ b'e' ∷ rest) c.0 small (omega arith) at_v)
      ∙ ap (λ r. r >>= λ (vs, r). ok (item v vs, r))
          (reads_items ys f xs (p + length (encode v)) rest c.1 small (omega arith)
            (drop_past p xs (encode v) (encode_items ys ++ b'e' ∷ rest) at_v))
      ∙ ap (λ q. ok (item v ys, q)) (omega (arith, length-append (encode v) (encode_items ys)))

  reads_fields :
      (fs acc : Fields) (f : ℕ) (xs : Bytes) (p : ℕ) (rest : Bytes)
      → IsRising fs
      → HoldCanonical fs
      → Follows acc fs
      → length xs < size_mod
      → calls_fields fs ≤ f
      → drop p xs ≡ join_entries (encode_fields fs) ++ b'e' ∷ rest
      → parse_fields f xs p acc
        ≡ ok (append_fields acc fs, p + length (join_entries (encode_fields fs)) + 1)
  reads_fields no_fields acc zero xs p rest i c w small h e = absurd (omega arith)
  reads_fields (field k v fs) acc zero xs p rest i c w small h e = absurd (omega arith)
  reads_fields no_fields acc (suc f) xs p rest i c w small h e =
      parse_fields_end f xs p acc (get_elem?-drop p xs e)
      ∙ ap₂ (λ (fs : Fields) (q : ℕ). ok (fs, q)) (sym (append_fields_none acc)) (omega arith)
  reads_fields (field k v fs) acc (suc f) xs p rest i c w small h e =
      let others = join_entries (encode_fields fs) in
      let end = b'e' ∷ rest in
      let ek = encode_string k in
      let ev = encode v in
      let (d, ds, split, digit) = encode_string-head k in
      let at_k : drop p xs ≡ ek ++ ((ev ++ others) ++ end) =
        e ∙ append_assoc ek (ev ++ others) end in
      let at_v : drop (p + length ek) xs ≡ ev ++ (others ++ end) =
        drop_past p xs ek ((ev ++ others) ++ end) at_k ∙ append_assoc ev others end in
      let at_rest = drop_past (p + length ek) xs ev (others ++ end) at_v in
      parse_fields_more f xs p acc d
        (get_elem?-drop p xs (at_k ∙ ap (λ t. t ++ ((ev ++ others) ++ end)) split))
        (digit-ne d b'e' (omega arith) digit)
      ∙ ap
          (λ r.
            r >>= λ (k, q). parse_value f xs q >>= λ (v, r). parse_fields f xs r (assign k v acc))
          (parse_string-encode_string xs p k ((ev ++ others) ++ end) small at_k)
      ∙ ap (λ r. r >>= λ (v, r). parse_fields f xs r (assign k v acc))
          (reads_value v f xs (p + length ek) (others ++ end) c.0 small (omega arith) at_v)
      ∙ ap (parse_fields f xs (p + length ek + length ev)) (assign-append acc k v w)
      ∙ reads_fields fs (append_fields acc (field k v no_fields)) f xs (p + length ek + length ev)
          rest i.1 c.1 (Follows-next acc k v fs w i.0) small (omega arith) at_rest
      ∙ ap₂ (λ (fs : Fields) (q : ℕ). ok (fs, q)) (append_fields_assoc acc k v fs)
          (omega (arith, length-append ek (ev ++ others), length-append ev others))

-- The parser reads back what `encode` wrote, wherever it stands in the data, with fuel for the
-- calls that the value takes, and goes on behind it.
pub parse_value-encode :
    (v : Value) (before rest : Bytes) (f : ℕ)
    → IsCanonical v
    → length (before ++ (encode v ++ rest)) < size_mod
    → calls v ≤ f
    → parse_value f (before ++ (encode v ++ rest)) (length before)
      ≡ ok (v, length before + length (encode v))
parse_value-encode v before rest f c small h =
    reads_value v f (before ++ (encode v ++ rest)) (length before) rest c small h
      (drop-length_append before (encode v ++ rest))
