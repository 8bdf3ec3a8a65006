-- ===== src/Dht/Protocol/Examples.antt =====
-- An announcement that is written and read, and tokens and ids in use.
use pixel_scrape.Base.{◌*◌, ◌≡◌, ◌≢◌, refl, true, none, some, [], ◌∷◌, ◌++◌, arith, replicate}
use pixel_scrape.Base.Bytes.{codes}
use pixel_scrape.Decimal.{print_nat}
use pixel_scrape.Bencode.{encode_string}
use pixel_scrape.Bencode.Parser.{ok}
use pixel_scrape.Dht.Node.{DhtNode, minute}
use pixel_scrape.Dht.Protocol.{
  ping, announce_peer, QueryMessage, query_name, encode_arguments, encode_query, decode_query,
}
use pixel_scrape.Dht.Protocol.QueryText.{shown}
use pixel_scrape.Dht.Protocol.QueryRoundTrip.{decode_query-encode_query}
use pixel_scrape.Dht.Protocol.Compact.{encode_nodes}
use pixel_scrape.Dht.Protocol.Response.{
  ResponseMessage, write_peers, unless_empty, encode_response, decode_response,
}
use pixel_scrape.Dht.Protocol.ResponseRoundTrip.{shown_response, decode_response-encode_response}
use pixel_scrape.Dht.Protocol.Tokens.{
  TokenManager, generate_token, validate_token, rotations, validate_token-rotations, nth_id,
  nth_id_inj,
}

abbrev announcement : QueryMessage
announcement = record {
  transaction_id = 0 ∷ 0 ∷ 0 ∷ 7 ∷ [];
  query_type = announce_peer;
  querying_node_id = replicate 20 3;
  target_id = none;
  info_hash = some (replicate 20 9);
  port = some 6881;
  token = some (codes "tok");
  implied_port = some true;
}

announcement_text :
    encode_query announcement
    ≡ codes "d1:ad2:id20:"
      ++ (replicate 20 3
          ++ (codes "9:info_hash20:"
              ++ (replicate 20 9
                  ++ (codes "4:porti6881e5:token3:tok12:implied_porti1ee1:q13:announce_peer1:t4:"
                      ++ (0 ∷ 0 ∷ 0 ∷ 7 ∷ codes "1:y1:qe")))))
unfolding encode_query encode_arguments encode_string print_nat query_name
announcement_text = refl

decode_query-encode_query_example :
    decode_query 30 (encode_query announcement) ping
    ≡ ok (record announcement { implied_port = shown (some true) })
decode_query-encode_query_example =
    decode_query-encode_query announcement ping 30
      (record { id = refl; target = tt; info = refl; port = omega arith })
      (unfold encode_query encode_arguments encode_string print_nat query_name in omega arith)
      (omega arith)

abbrev secrets : TokenManager
secrets = record {
  current_secret = replicate 20 1;
  previous_secret = replicate 20 2;
  last_rotation = 0;
}

validate_token-rotations_example :
    validate_token
      (replicate 64 0)
      (rotations ((6 * minute, replicate 20 5) ∷ (9 * minute, replicate 20 6) ∷ []) secrets)
      (generate_token (replicate 64 0) secrets (10 ∷ 0 ∷ 0 ∷ 1 ∷ []))
      (10 ∷ 0 ∷ 0 ∷ 1 ∷ [])
    ≡ true
validate_token-rotations_example =
    validate_token-rotations (replicate 64 0)
      ((6 * minute, replicate 20 5) ∷ (9 * minute, replicate 20 6) ∷ []) secrets
      (10 ∷ 0 ∷ 0 ∷ 1 ∷ []) (omega arith, (omega arith, tt))

nth_id_inj_example : nth_id 4294967295 0 ≢ nth_id 4294967295 1
nth_id_inj_example = nth_id_inj 4294967295 0 1 (omega arith) (omega arith) (omega arith)

abbrev contact : DhtNode
contact = record {
  id = replicate 20 4;
  ip = 10 ∷ 0 ∷ 0 ∷ 2 ∷ [];
  port = 6881;
  last_seen = 5;
  last_query = 6;
  failed_queries = 1;
}

abbrev answer : ResponseMessage
answer = record {
  transaction_id = 0 ∷ 0 ∷ 0 ∷ 7 ∷ [];
  responding_node_id = replicate 20 3;
  nodes = some (contact ∷ []);
  peers = some (contact ∷ contact ∷ []);
  token = some (codes "tok");
}

decode_response-encode_response_example :
    decode_response (30 * minute) 24 (encode_response answer)
    ≡ ok (shown_response (30 * minute) answer)
decode_response-encode_response_example =
    decode_response-encode_response (30 * minute) answer 24
      (record {
        id = refl;
        whole_nodes = (record { id_size = refl; ip_size = refl; port_bound = omega arith }, tt);
        addresses = (
          record { ip_size = refl; port_bound = omega arith },
          (record { ip_size = refl; port_bound = omega arith }, tt),
        );
      })
      (unfold encode_response unless_empty encode_nodes write_peers encode_string print_nat in
        omega arith)
      (omega arith)
