-- ===== src/Extension/Examples.antt =====
-- Handshakes and metadata messages on concrete bytes, and an exchange that gets stuck.
use pixel_scrape.Base.{◌≡◌, refl, true, false, some, List, [], ◌∷◌, ◌++◌, arith, replicate}
use pixel_scrape.Base.Bytes.{Bytes, codes, equal}
use pixel_scrape.Decimal.{
  print_int, print_nat, stoll, stoul, skip_spaces, read_sign, read_magnitude, read_digits,
  signed_of, unsigned_of,
}
use pixel_scrape.Bencode.{encode, less, join_entries, sort_entries, assign, find}
use pixel_scrape.Bencode.Parser.{
  ok, failed, parse, parse_value, parse_integer, parse_string, read_string, read_integer, bad_zero,
  find_byte, prefix,
}
use pixel_scrape.Sha1.{hash, compress}
use pixel_scrape.PieceManager.{concat}
use pixel_scrape.Torrent.Reading.{find_integer, to_size}
use pixel_scrape.Extension.{
  no_peer, build_extended_handshake, handshake_fields, extension_fields, parse_extended_handshake,
  read_m, read_extensions, read_v, read_p, read_metadata_size, read_upload_only, lookup, to_int64,
  build_metadata_request, MetadataMessage, parse_metadata_message, read_message,
}
use pixel_scrape.Extension.Handshake.{
  told, parse_extended_handshake-build_extended_handshake,
  parse_metadata_message-build_metadata_request,
}
use pixel_scrape.Extension.Metadata.{
  MetadataExchange, Event, handshakes, messages, requests, new_exchange, adopt_size, learn_size,
  handle_extension_handshake, verify_metadata, accept, finish_assembly, assemble_metadata,
  store_piece, handle_parsed, handle_metadata_message, request_missing, request_metadata, step, run,
}
use pixel_scrape.Extension.Metadata.Outcome.{Sound, new_exchange-IsSound}
use pixel_scrape.Extension.Metadata.Runs.{run-Sound}
use pixel_scrape.Extension.Metadata.Stuck.{Stays, run-Stays}

abbrev stale : MetadataMessage
stale = record { msg_type = 0; piece = 0; total_size = 0; bytes = [] }

parse_extended_handshake-build_extended_handshake_example :
    parse_extended_handshake 30 (build_extended_handshake 6881 (codes "PS") 40000) no_peer
    ≡ ok (told 6881 (codes "PS") 40000 no_peer)
parse_extended_handshake-build_extended_handshake_example =
    parse_extended_handshake-build_extended_handshake 6881 (codes "PS") 40000 30 no_peer
      (omega arith) (omega arith) (omega arith)
      (unfold build_extended_handshake handshake_fields extension_fields encode less join_entries
          sort_entries assign equal to_int64 print_int print_nat in
        omega arith)
      (omega arith)

parse_metadata_message-build_metadata_request_example :
    parse_metadata_message 9 (build_metadata_request 3 0) stale ≡ failed
parse_metadata_message-build_metadata_request_example =
    parse_metadata_message-build_metadata_request 3 0 8 stale (omega arith)

abbrev junk : Bytes
junk = replicate 64 0

-- A peer tells a size of one byte, and sends a wrong one.
abbrev events : List Event
events =
    handshakes (codes "d1:md11:ut_metadatai3ee13:metadata_sizei1ee")
    ∷ messages (codes "d8:msg_typei1e5:piecei0ee" ++ 7 ∷ []) stale
    ∷ requests
    ∷ []

abbrev ended : MetadataExchange
ended = record {
  info_hash = replicate 20 0;
  metadata_complete = false;
  metadata_size = some 1;
  peer_ut_metadata_id = some 3;
  received_pieces = (7 ∷ []) ∷ [];
  piece_status = true ∷ [];
  complete_metadata = 7 ∷ [];
  callback_set = false;
}

history_ends : run junk 40 (new_exchange (replicate 20 0)) events ≡ ok (ended, [])
unfolding run step new_exchange handle_extension_handshake parse_extended_handshake parse
    parse_value parse_integer parse_string read_string read_integer bad_zero find_byte prefix stoll
    stoul skip_spaces read_sign read_magnitude read_digits signed_of unsigned_of assign equal find
    read_m read_extensions read_v read_p read_metadata_size read_upload_only to_size lookup
    learn_size adopt_size handle_metadata_message parse_metadata_message read_message find_integer
    handle_parsed store_piece assemble_metadata finish_assembly accept verify_metadata hash compress
    concat request_metadata request_missing
history_ends = refl

run-Sound_example : Sound junk (replicate 20 0) (ended, [])
run-Sound_example =
    run-Sound junk (replicate 20 0) 40 (new_exchange (replicate 20 0)) events (ended, [])
      (new_exchange-IsSound junk (replicate 20 0)) history_ends

more_run :
    run junk 40 ended (requests ∷ messages (codes "d8:msg_typei1e5:piecei0ee" ++ 9 ∷ []) stale ∷ [])
    ≡ ok (ended, [])
unfolding run step parse parse_value parse_integer parse_string read_string read_integer bad_zero
    find_byte prefix stoll stoul skip_spaces read_sign read_magnitude read_digits signed_of
    unsigned_of assign equal find to_size handle_metadata_message parse_metadata_message
    read_message find_integer handle_parsed store_piece request_metadata request_missing
more_run = refl

run-Stays_example : Stays (ended, [])
run-Stays_example =
    run-Stays junk 40 ended
      (requests ∷ messages (codes "d8:msg_typei1e5:piecei0ee" ++ 9 ∷ []) stale ∷ []) (ended, [])
      (record { size = 1; sized = refl; whole = refl; incomplete = refl }) more_run
