-- ===== src/Dht/Protocol/QueryText.antt =====
-- The text of a query, and the dictionary that it is read as.
use pixel_scrape.Base.{
  ℕ, suc, ◌+◌, ◌≡◌, refl, sym, ap, ap₂, ◌∙◌, Bool, true, false, Option, none, some, [], ◌∷◌, ◌++◌,
  append_assoc, append-nil, if◌then◌else◌, length,
}
use pixel_scrape.Base.Bytes.{Bytes, codes, equal}
use pixel_scrape.Decimal.{print_nat, print_int}
use pixel_scrape.Bencode.{Fields, string, dict, no_fields, field, assign, encode, encode_string}
use pixel_scrape.Bencode.RoundTrip.Canonical.{calls}
use pixel_scrape.Bencode.Writing.{Reads, Reads-canonical, ReadsFields-end, Reads-entry, Reads-dict}
use pixel_scrape.Dht.Protocol.{QueryMessage, query_name, where_some, encode_arguments, encode_query}
use pixel_scrape.Dht.Protocol.Entries.{entry_text}
use pixel_scrape.Dht.Protocol.Query.{
  string_of, port_of, flag_of, IsTwenty, IsWhole, argument_fields, argument_text, argument_calls,
  arguments-ReadsFields,
}

pub encode_twenty : (s : Bytes) → length s ≡ 20 → encode (string s) ≡ codes "20:" ++ s
unfolding encode encode_string print_nat
encode_twenty s h = rw h refl

target_text :
    (o : Option Bytes)
    → IsTwenty o
    → where_some o (λ t. codes "6:target20:" ++ t) ≡ entry_text (codes "target") (string_of o)
unfolding encode_string print_nat
target_text none h = refl
target_text (some s) h = rw (encode_twenty s h) refl

info_text :
    (o : Option Bytes)
    → IsTwenty o
    → where_some o (λ t. codes "9:info_hash20:" ++ t) ≡ entry_text (codes "info_hash") (string_of o)
unfolding encode_string print_nat
info_text none h = refl
info_text (some s) h = rw (encode_twenty s h) refl

port_text :
    (o : Option ℕ)
    → where_some o (λ p. codes "4:porti" ++ (print_nat p ++ codes "e"))
      ≡ entry_text (codes "port") (port_of o)
unfolding encode_string print_nat encode print_int
port_text none = refl
port_text (some p) = refl

token_text :
    (o : Option Bytes)
    → where_some o (λ t. codes "5:token" ++ encode_string t)
      ≡ entry_text (codes "token") (string_of o)
unfolding encode
token_text none = refl
token_text (some s) = unfold encode_string print_nat in refl

flag_text :
    (o : Option Bool)
    → where_some o (λ b. if b then codes "12:implied_porti1e" else [])
      ≡ entry_text (codes "implied_port") (flag_of o)
unfolding encode_string print_nat encode print_int
flag_text none = refl
flag_text (some true) = refl
flag_text (some false) = refl

encode_arguments-argument_text :
    (m : QueryMessage) → IsWhole m → encode_arguments m ≡ argument_text m
unfolding encode_arguments encode_string print_nat
encode_arguments-argument_text m w = rw (encode_twenty m.querying_node_id w.id) (
    ap (λ t. codes "2:id20:" ++ (m.querying_node_id ++ t))
      (ap₂ ◌++◌ (target_text m.target_id w.target) (
        ap₂ ◌++◌ (info_text m.info_hash w.info) (
          ap₂ ◌++◌ (port_text m.port)
            (ap₂ ◌++◌ (token_text m.token) (flag_text m.implied_port ∙ sym (append-nil _)))))))

-- The whole text, as entries.
abbrev after_t : Bytes
after_t = encode_string (codes "y") ++ (encode_string (codes "q") ++ [])

abbrev after_q : Bytes → Bytes
after_q tid = encode_string (codes "t") ++ (tid ++ after_t)

abbrev after_a : Bytes → Bytes → Bytes
after_a name tid = encode_string (codes "q") ++ (name ++ after_q tid)

abbrev pub body : Bytes → Bytes → Bytes → Bytes
body arguments name tid =
    encode_string (codes "a") ++ ((b'd' ∷ (arguments ++ b'e' ∷ [])) ++ after_a name tid)

body-text :
    (arguments name tid : Bytes)
    → codes "d1:ad"
        ++ (arguments ++ (codes "e1:q" ++ (name ++ (codes "1:t" ++ (tid ++ codes "1:y1:qe")))))
      ≡ b'd' ∷ (body arguments name tid ++ b'e' ∷ [])
unfolding encode_string print_nat
body-text arguments name tid = simp append_assoc

pub encode_query-body :
    (m : QueryMessage)
    → IsWhole m
    → encode_query m
      ≡ b'd'
        ∷ (body
              (argument_text m)
              (encode_string (query_name m.query_type))
              (encode_string m.transaction_id)
            ++ b'e' ∷ [])
unfolding encode_query
encode_query-body m w =
    ap
      (λ t.
        codes "d1:ad"
        ++ (t
            ++ (codes "e1:q"
                ++ (encode_string (query_name m.query_type)
                    ++ (codes "1:t" ++ (encode_string m.transaction_id ++ codes "1:y1:qe"))))))
      (encode_arguments-argument_text m w)
    ∙ body-text (argument_text m) (encode_string (query_name m.query_type))
        (encode_string m.transaction_id)

abbrev pub query_fields : QueryMessage → Fields
query_fields m = field (codes "a") (dict (argument_fields m)) (
    field (codes "q") (string (query_name m.query_type)) (
      field (codes "t") (string m.transaction_id)
        (field (codes "y") (string (codes "q")) no_fields)))

pub string-Reads : (s : Bytes) → Reads (encode_string s) (string s) 1
unfolding encode calls
string-Reads s = Reads-canonical (string s) tt

pub query-Reads :
    (m : QueryMessage)
    → IsWhole m
    → Reads
        (b'd'
          ∷ (body
                (argument_text m)
                (encode_string (query_name m.query_type))
                (encode_string m.transaction_id)
              ++ b'e' ∷ []))
        (dict (query_fields m))
        (suc (suc (suc (argument_calls m) + suc (1 + suc (1 + suc (1 + 1))))))
unfolding assign equal
query-Reads m w =
    let name = encode_string (query_name m.query_type) in
    let tid = encode_string m.transaction_id in
    let a = assign (codes "a") (dict (argument_fields m)) no_fields in
    let q = assign (codes "q") (string (query_name m.query_type)) a in
    let t = assign (codes "t") (string m.transaction_id) q in
    Reads-dict (body (argument_text m) name tid) (query_fields m)
      (suc (suc (argument_calls m) + suc (1 + suc (1 + suc (1 + 1)))))
      (Reads-entry (codes "a") (b'd' ∷ (argument_text m ++ b'e' ∷ [])) (after_a name tid)
        (dict (argument_fields m)) no_fields (query_fields m) (suc (argument_calls m))
        (suc (1 + suc (1 + suc (1 + 1))))
        (Reads-dict (argument_text m) (argument_fields m) (argument_calls m)
          (arguments-ReadsFields m w))
        (Reads-entry (codes "q") name (after_q tid) (string (query_name m.query_type)) a
          (query_fields m) 1 (suc (1 + suc (1 + 1))) (string-Reads (query_name m.query_type))
          (Reads-entry (codes "t") tid after_t (string m.transaction_id) q (query_fields m) 1
            (suc (1 + 1)) (string-Reads m.transaction_id)
            (Reads-entry (codes "y") (encode_string (codes "q")) [] (string (codes "q")) t
              (query_fields m) 1 1 (string-Reads (codes "q")) (ReadsFields-end (query_fields m))))))

-- The flag as it is written: where it is not set, nothing is.
abbrev pub shown : Option Bool → Option Bool
shown (some true) = some true
shown _ = none
