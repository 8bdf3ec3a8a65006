-- ===== src/Bencode/Writing.antt =====
-- Bencoded text that is written piece by piece, its keys in any order, and what it is parsed as.
use pixel_scrape.Base.{
  ℕ, zero, suc, ◌+◌, ◌≤◌, ◌<◌, ◌≡◌, sym, ap, ◌∙◌, [], ◌∷◌, ◌++◌, arith, append_assoc, append-nil,
  length, drop, drop_past, get_elem?-drop, length-append,
}
use pixel_scrape.Base.Bytes.{Bytes, size_mod}
use pixel_scrape.Bencode.{Value, Fields, dict, no_fields, assign, encode_string, encode}
use pixel_scrape.Bencode.Parser.{◌>>=◌, ok, parse_value, parse_fields, parse}
use pixel_scrape.Bencode.RoundTrip.{reads_value}
use pixel_scrape.Bencode.RoundTrip.Canonical.{IsCanonical, calls}
use pixel_scrape.Bencode.RoundTrip.Tokens.{parse_string-encode_string}
use pixel_scrape.Bencode.RoundTrip.Dispatch.{
  digit-ne, encode_string-head, parse_value-d, parse_fields_end, parse_fields_more,
}

-- `text` is read as `v` wherever it stands, with `n` calls.
abbrev pub Reads : Bytes → Value → ℕ → Type 0
Reads text v n =
    (f : ℕ) (xs : Bytes) (p : ℕ) (rest : Bytes)
    → length xs < size_mod
    → n ≤ f
    → drop p xs ≡ text ++ rest
    → parse_value f xs p ≡ ok (v, p + length text)

-- `text` before the end of a dictionary takes its entries from `fs` to `fs'`.
abbrev pub ReadsFields : Bytes → Fields → Fields → ℕ → Type 0
ReadsFields text fs fs' n =
    (f : ℕ) (xs : Bytes) (p : ℕ) (rest : Bytes)
    → length xs < size_mod
    → n ≤ f
    → drop p xs ≡ text ++ b'e' ∷ rest
    → parse_fields f xs p fs ≡ ok (fs', p + length text + 1)

pub Reads-canonical : (v : Value) → IsCanonical v → Reads (encode v) v (calls v)
Reads-canonical v c f xs p rest small enough at = reads_value v f xs p rest c small enough at

pub ReadsFields-end : (fs : Fields) → ReadsFields [] fs fs 1
ReadsFields-end fs zero xs p rest small enough at = absurd (omega arith)
ReadsFields-end fs (suc f) xs p rest small enough at =
    parse_fields_end f xs p fs (get_elem?-drop p xs at) ∙ ap (λ q. ok (fs, q)) (omega arith)

pub Reads-entry :
    (k text more : Bytes) (v : Value) (fs fs' : Fields) (n m : ℕ)
    → Reads text v n
    → ReadsFields more (assign k v fs) fs' m
    → ReadsFields (encode_string k ++ (text ++ more)) fs fs' (suc (n + m))
Reads-entry k text more v fs fs' n m reads_text reads_more zero xs p rest small enough at =
    absurd (omega arith)
Reads-entry k text more v fs fs' n m reads_text reads_more (suc f) xs p rest small enough at =
    let ek = encode_string k in
    let end = b'e' ∷ rest in
    let (d, ds, split, digit) = encode_string-head k in
    let at_k : drop p xs ≡ ek ++ ((text ++ more) ++ end) =
      at ∙ append_assoc ek (text ++ more) end in
    let at_v : drop (p + length ek) xs ≡ text ++ (more ++ end) =
      drop_past p xs ek ((text ++ more) ++ end) at_k ∙ append_assoc text more end in
    let at_more = drop_past (p + length ek) xs text (more ++ end) at_v in
    parse_fields_more f xs p fs d
      (get_elem?-drop p xs (at_k ∙ ap (λ t. t ++ ((text ++ more) ++ end)) split))
      (digit-ne d b'e' (omega arith) digit)
    ∙ ap (λ r. r >>= λ (k, q). parse_value f xs q >>= λ (v, r). parse_fields f xs r (assign k v fs))
        (parse_string-encode_string xs p k ((text ++ more) ++ end) small at_k)
    ∙ ap (λ r. r >>= λ (v, r). parse_fields f xs r (assign k v fs))
        (reads_text f xs (p + length ek) (more ++ end) small (omega arith) at_v)
    ∙ reads_more f xs (p + length ek + length text) rest small (omega arith) at_more
    ∙ ap (λ (q : ℕ). ok (fs', q))
        (omega (arith, length-append ek (text ++ more), length-append text more))

-- A dictionary with its entries between `d` and `e`.
pub Reads-dict :
    (text : Bytes) (fs : Fields) (n : ℕ)
    → ReadsFields text no_fields fs n
    → Reads (b'd' ∷ (text ++ b'e' ∷ [])) (dict fs) (suc n)
Reads-dict text fs n reads_text zero xs p rest small enough at = absurd (omega arith)
Reads-dict text fs n reads_text (suc f) xs p rest small enough at =
    parse_value-d f xs p (get_elem?-drop p xs at)
    ∙ ap (λ r. r >>= λ (fs, q). ok (dict fs, q))
        (reads_text f xs (p + 1) rest small (omega arith) (
          drop_past p xs (b'd' ∷ []) ((text ++ b'e' ∷ []) ++ rest) at
          ∙ append_assoc text (b'e' ∷ []) rest))
    ∙ ap (λ q. ok (dict fs, q)) (omega (arith, length-append text (b'e' ∷ [])))

-- A whole text.
pub parse-Reads :
    (text : Bytes) (v : Value) (n fuel : ℕ)
    → Reads text v n
    → length text < size_mod
    → n ≤ fuel
    → parse fuel text ≡ ok (v, length text)
unfolding parse
parse-Reads text v n fuel reads small enough =
    reads fuel text 0 [] small enough (sym (append-nil text)) ∙ ap (λ q. ok (v, q)) (omega arith)
