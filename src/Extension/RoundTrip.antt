-- ===== src/Extension/RoundTrip.antt =====
-- Extension messages built and parsed.
use pixel_scrape.Base.{
  ℕ, ◌+◌, ◌%◌, ◌^◌, ◌≤◌, ◌<◌, ◌≡◌, refl, ap, ◌∙◌, false, [], ◌∷◌, ◌++◌, arith, lt→ltb, length, drop,
  drop-length_append, is_empty,
}
use pixel_scrape.Base.Bytes.{Bytes, codes, equal, size_mod}
use pixel_scrape.Decimal.{pos}
use pixel_scrape.Bencode.{
  Value, Fields, integer, dict, no_fields, field, assign, find, encode, less,
}
use pixel_scrape.Bencode.Parser.{ok, parse}
use pixel_scrape.Bencode.RoundTrip.{parse_value-encode}
use pixel_scrape.Bencode.RoundTrip.Canonical.{IsCanonical, calls}
use pixel_scrape.Torrent.Reading.{to_size, find_integer}
use pixel_scrape.Extension.{
  to_int64, build_metadata_data, MetadataMessage, parse_metadata_message, read_message,
}

-- A canonical value at the front of a text.
pub parse-encode :
    (v : Value) (rest : Bytes) (fuel : ℕ)
    → IsCanonical v
    → length (encode v ++ rest) < size_mod
    → calls v ≤ fuel
    → parse fuel (encode v ++ rest) ≡ ok (v, length (encode v))
unfolding parse
parse-encode v rest fuel canonical small enough =
    let start : 0 + length (encode v) ≡ length (encode v) = omega arith in
    parse_value-encode v [] rest fuel canonical small enough ∙ ap (λ n. ok (v, n)) start

pub to_int64_small : (n : ℕ) → n < 2 ^ 63 → to_int64 n ≡ pos n
unfolding to_int64
to_int64_small n h = rw (lt→ltb n (2 ^ 63) h)

to_size_pos : (n : ℕ) → n < size_mod → to_size (pos n) ≡ n
unfolding to_size
to_size_pos n h = omega arith

-- The dictionary of a data message, as it is parsed.
abbrev data_fields : ℕ → ℕ → Fields
data_fields piece total = field (codes "msg_type") (integer (pos 1)) (
    field (codes "piece") (integer (pos piece))
      (field (codes "total_size") (integer (pos total)) no_fields))

data_fields-IsCanonical :
    (piece total : ℕ)
    → piece < 2 ^ 63
    → total < 2 ^ 63
    → IsCanonical (dict (data_fields piece total))
unfolding less
data_fields-IsCanonical piece total h k =
    (((refl, (refl, tt)), ((refl, tt), (tt, tt))), (omega arith, (h, (k, tt))))

build_metadata_data-fields :
    (id piece total : ℕ) (bytes : Bytes)
    → piece < 2 ^ 63
    → total < 2 ^ 63
    → build_metadata_data id piece total bytes
      ≡ id ∷ (encode (dict (data_fields piece total)) ++ bytes)
unfolding build_metadata_data assign equal
build_metadata_data-fields id piece total bytes h k =
    rw (to_int64_small piece h) (rw (to_int64_small total k) refl)

parse_metadata_message-dict :
    (fs : Fields) (rest : Bytes) (fuel : ℕ) (msg : MetadataMessage)
    → IsCanonical (dict fs)
    → length (encode (dict fs) ++ rest) < size_mod
    → calls (dict fs) ≤ fuel
    → parse_metadata_message fuel (encode (dict fs) ++ rest) msg ≡ read_message fs rest msg
unfolding parse_metadata_message
parse_metadata_message-dict fs rest fuel msg canonical small enough =
    let nonempty : is_empty (encode (dict fs) ++ rest) ≡ false = unfold encode in refl in
    rw (nonempty, parse_metadata_message)
      (rw (parse-encode (dict fs) rest fuel canonical small enough)
        (rw (drop-length_append (encode (dict fs)) rest) refl))

read_message-data_fields :
    (piece total : ℕ) (bytes : Bytes) (msg : MetadataMessage)
    → piece < 2 ^ 63
    → total < 2 ^ 63
    → read_message (data_fields piece total) bytes msg
      ≡ ok (record { msg_type = 1; piece = piece; total_size = total; bytes = bytes })
unfolding read_message find_integer find equal to_size
read_message-data_fields piece total bytes msg h k =
    let p : piece % size_mod ≡ piece = omega arith in
    let t : total % size_mod ≡ total = omega arith in rw p (rw t refl)

-- The data of a piece arrive as they were sent, with their number and the total size.
pub parse_metadata_message-build_metadata_data :
    (id piece total : ℕ) (bytes : Bytes) (fuel : ℕ) (msg : MetadataMessage)
    → piece < 2 ^ 63
    → total < 2 ^ 63
    → length (build_metadata_data id piece total bytes) < size_mod
    → 8 ≤ fuel
    → parse_metadata_message fuel (drop 1 (build_metadata_data id piece total bytes)) msg
      ≡ ok (record { msg_type = 1; piece = piece; total_size = total; bytes = bytes })
parse_metadata_message-build_metadata_data id piece total bytes fuel msg h k small enough =
    let built = build_metadata_data-fields id piece total bytes h k in
    ap (λ xs. parse_metadata_message fuel (drop 1 xs) msg) built
    ∙ parse_metadata_message-dict (data_fields piece total) bytes fuel msg
        (data_fields-IsCanonical piece total h k) (omega (arith, ap length built))
        (unfold calls in omega arith)
    ∙ read_message-data_fields piece total bytes msg h k
