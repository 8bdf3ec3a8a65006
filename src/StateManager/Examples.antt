-- ===== src/StateManager/Examples.antt =====
-- Texts in base 64 and in hexadecimal.
use pixel_scrape.Base.{◌≡◌, refl, [], ◌∷◌, arith}
use pixel_scrape.Base.Bytes.{codes, equal}
use pixel_scrape.StateManager.{
  base64_char, quad_0, quad_1, quad_2, quad_3, base64_encode, base64_decode, hex_value,
  is_hex_digit, list_saved_torrents, saved_name, read_hex_pair,
}
use pixel_scrape.StateManager.Base64.{base64_decode-base64_encode}

encoded : base64_encode (codes "torrent") ≡ codes "dG9ycmVudA=="
unfolding base64_encode base64_char quad_0 quad_1 quad_2 quad_3
encoded = refl

base64_decode-base64_encode_example :
    base64_decode (base64_encode (255 ∷ 0 ∷ 7 ∷ 128 ∷ [])) ≡ 255 ∷ 0 ∷ 7 ∷ 128 ∷ []
base64_decode-base64_encode_example =
    base64_decode-base64_encode (255 ∷ 0 ∷ 7 ∷ 128 ∷ [])
      (omega arith, (omega arith, (omega arith, (omega arith, tt))))

listed :
    list_saved_torrents (
      codes "0123456789abcdefABCDEF6789abcdef01234567.json"
      ∷ codes "notes.json"
      ∷ codes "0123456789abcdefgBCDEF6789abcdef01234567.json"
      ∷ [])
    ≡ codes "0123456789abcdefABCDEF6789abcdef01234567" ∷ []
unfolding list_saved_torrents saved_name is_hex_digit hex_value equal
listed = refl

prefix_read : read_hex_pair b'0' b'x' ≡ 0
unfolding read_hex_pair hex_value
prefix_read = refl
