-- ===== src/Rc4/Examples.antt =====
-- A known key stream.
use pixel_scrape.Base.{◌≡◌, refl, none, some, [], ◌∷◌, bit_xor, arith, length, get_or}
use pixel_scrape.Base.Bytes.{Bytes, codes}
use pixel_scrape.Rc4.{Rc4, count_up, swap, schedule, init, advance, key_byte, process}
use pixel_scrape.Rc4.Stream.{stream, process-stream}

-- The test vector of the key "Key" and the text "Plaintext", its first bytes.
abbrev written : Bytes → Bytes → Bytes
unfolding init process
written key text = elim (init key) [ none ↦ [] | some r ↦ (process r text).1 ]

known_stream : written (codes "Key") (codes "Pla") ≡ 0xBB ∷ 0xF3 ∷ 0x16 ∷ []
unfolding written init schedule swap count_up process advance key_byte
known_stream = refl

-- The state that the key "Key" makes.
abbrev keyed : Rc4
keyed = record { s = schedule 256 (codes "Key") 0 0 (count_up 256 0); i = 0; j = 0 }

process-stream_example :
    (length (process keyed (codes "Pla")).1 ≡ 3)
    × (get_or (process keyed (codes "Pla")).1 2 0 ≡ bit_xor b'a' (stream (codes "Key") 2))
process-stream_example =
    process-stream (codes "Key") keyed (codes "Pla") 2 (unfold init in refl) (omega arith)
