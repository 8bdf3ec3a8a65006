-- ===== src/Bencode/Examples.antt =====
-- A dictionary with a list and a negative number, written and read.
use pixel_scrape.Base.{◌+◌, ◌≡◌, refl, ◌++◌, arith, length}
use pixel_scrape.Base.Bytes.{codes}
use pixel_scrape.Decimal.{pos, negsuc, print_int, print_nat}
use pixel_scrape.Bencode.{
  Value, integer, string, list, dict, no_items, item, no_fields, field, encode, less, join_entries,
  sort_entries,
}
use pixel_scrape.Bencode.Parser.{ok, out_of_fuel, parse, parse_value}
use pixel_scrape.Bencode.RoundTrip.{parse_value-encode}
use pixel_scrape.Bencode.RoundTrip.Canonical.{IsCanonical, calls}
use pixel_scrape.Bencode.Jump.{jumping, parse-jumping}

abbrev sample : Value
sample = dict (
    field (codes "a") (list (item (string (codes "xy")) (item (integer (negsuc 41)) no_items)))
      (field (codes "b") (integer (pos 0)) no_fields))

sample_text : encode sample ≡ codes "d1:al2:xyi-42ee1:bi0ee"
unfolding encode join_entries sort_entries less print_int print_nat
sample_text = refl

sample-IsCanonical : IsCanonical sample
unfolding less
sample-IsCanonical = (((refl, tt), (tt, tt)), ((tt, (omega arith, tt)), (omega arith, tt)))

parse_value-encode_example :
    parse_value 20 (codes "l" ++ (encode sample ++ codes "e")) 1
    ≡ ok (sample, 1 + length (encode sample))
unfolding encode join_entries sort_entries less print_int print_nat calls
parse_value-encode_example =
    parse_value-encode sample (codes "l") (codes "e") 20 sample-IsCanonical (omega arith)
      (omega arith)

parse-jumping_example : parse 1000 (jumping ++ codes "abc") ≡ out_of_fuel
parse-jumping_example = parse-jumping (codes "abc") 1000
