-- ===== src/StateManager.antt =====
-- src/storage/state_manager.cpp: the texts in the saved state of a torrent. The JSON and the files
-- are another library's.
pub mod Base64
pub mod Hex
mod Examples
use pixel_scrape.Base.{
  ℕ, zero, suc, ◌+◌, ◌-◌, ◌*◌, ◌/◌, ◌%◌, ◌^◌, bit_and, Bool, true, false, ◌&&◌, ◌||◌, Option, none,
  some, List, [], ◌∷◌, ◌++◌, leb, ◌==◌, if◌then◌else◌, length, get_or, take, drop, all,
}
use pixel_scrape.Base.Bytes.{Bytes, codes, equal}
use pixel_scrape.Bencode.Parser.{find_byte}
use pixel_scrape.Decimal.{is_space}

abbrev pub base64_chars : Bytes
base64_chars = codes "ABCDEFGHIJKLMNOPQRSTUVWXYZabcdefghijklmnopqrstuvwxyz0123456789+/"

unfoldable pub base64_char : ℕ → ℕ
base64_char i = get_or base64_chars i 0

-- `char_array_4` from `char_array_3`.
unfoldable pub quad_0 : ℕ → ℕ
quad_0 a = bit_and a 0xfc / 4

unfoldable pub quad_1 : ℕ → ℕ → ℕ
quad_1 a b = (bit_and a 0x03 * 16 + bit_and b 0xf0 / 16) % 256

unfoldable pub quad_2 : ℕ → ℕ → ℕ
quad_2 b c = (bit_and b 0x0f * 4 + bit_and c 0xc0 / 64) % 256

unfoldable pub quad_3 : ℕ → ℕ
quad_3 c = bit_and c 0x3f

-- The loop takes three bytes at a time; what is left is filled up with zeros.
unfoldable pub base64_encode : Bytes → Bytes
base64_encode [] = []
base64_encode (a ∷ []) = base64_char (quad_0 a) ∷ base64_char (quad_1 a 0) ∷ b'=' ∷ b'=' ∷ []
base64_encode (a ∷ b ∷ []) =
    base64_char (quad_0 a) ∷ base64_char (quad_1 a b) ∷ base64_char (quad_2 b 0) ∷ b'=' ∷ []
base64_encode (a ∷ b ∷ c ∷ rest) =
    base64_char (quad_0 a)
    ∷ base64_char (quad_1 a b)
    ∷ base64_char (quad_2 b c)
    ∷ base64_char (quad_3 c)
    ∷ base64_encode rest

-- `T[c]`, where `none` is -1.
unfoldable pub sextet : ℕ → Option ℕ
sextet c = find_byte c base64_chars

-- The loop. `value` is the `int` in two's complement, and `bits` is `valb` + 8.
unfoldable pub decode_sextets : ℕ → ℕ → Bytes → Bytes
decode_sextets value bits [] = []
decode_sextets value bits (c ∷ cs) = elim (sextet c) [
  | none ↦ decode_sextets value bits cs
  | some t ↦
      let next = (value * 64 + t) % 2 ^ 32 in
      elim (leb 8 (bits + 6)) [
        | true ↦ (next / 2 ^ (bits + 6 - 8) % 256) ∷ decode_sextets next (bits + 6 - 8) cs
        | false ↦ decode_sextets next (bits + 6) cs
      ]
]

unfoldable pub base64_decode : Bytes → Bytes
base64_decode encoded = decode_sextets 0 0 encoded

-- `std::hex` of a byte with two digits.
abbrev pub hex_digits : Bytes
hex_digits = codes "0123456789abcdef"

unfoldable pub hex_byte : ℕ → Bytes
hex_byte b = get_or hex_digits (b / 16) 0 ∷ get_or hex_digits (b % 16) 0 ∷ []

unfoldable pub info_hash_to_hex : Bytes → Bytes
unfolding hex_byte
info_hash_to_hex [] = []
info_hash_to_hex (b ∷ bs) = hex_byte b ++ info_hash_to_hex bs

-- `isxdigit`, with the value of the digit.
unfoldable pub hex_value : ℕ → Option ℕ
hex_value c =
    if leb b'0' c && leb c b'9'
    then some (c - b'0')
    else if leb b'a' c && leb c b'f'
    then some (c - b'a' + 10)
    else if leb b'A' c && leb c b'F'
    then some (c - b'A' + 10)
    else none

-- `isxdigit`.
unfoldable pub is_hex_digit : ℕ → Bool
is_hex_digit c = elim (hex_value c) [ none ↦ false | some _ ↦ true ]

-- `ss >> std::hex >> byte` of a text of two characters, cast to a byte: white space is skipped, a
-- sign is taken, `0x` is a prefix, and a text without a digit gives 0.
unfoldable pub read_hex_digit : ℕ → ℕ
read_hex_digit d = elim (hex_value d) [ none ↦ 0 | some y ↦ y ]

unfoldable pub read_hex_pair : ℕ → ℕ → ℕ
unfolding read_hex_digit
read_hex_pair c d =
    if is_space c || c == b'+'
    then read_hex_digit d
    else if c == b'-'
    then (256 - read_hex_digit d) % 256
    else elim (hex_value c) [
      | none ↦ 0
      | some x ↦
          if c == b'0' && (d == b'x' || d == b'X')
          then 0
          else elim (hex_value d) [ none ↦ x | some y ↦ x * 16 + y ]
    ]

unfoldable pub read_hex_pairs : Bytes → Bytes
unfolding read_hex_pair
read_hex_pairs (c ∷ d ∷ rest) = read_hex_pair c d ∷ read_hex_pairs rest
read_hex_pairs _ = []

-- `none` is the exception.
unfoldable pub hex_to_info_hash : Bytes → Option Bytes
hex_to_info_hash hex = if length hex == 40 then some (read_hex_pairs hex) else none

-- The names that `list_saved_torrents` takes out of the names in the directory.
unfoldable pub saved_name : Bytes → Bool
saved_name entry =
    length entry == 45 && equal (drop 40 entry) (codes ".json") && all is_hex_digit (take 40 entry)

unfoldable pub list_saved_torrents : List Bytes → List Bytes
unfolding saved_name
list_saved_torrents [] = []
list_saved_torrents (entry ∷ rest) =
    let others = list_saved_torrents rest in
    if saved_name entry then take 40 entry ∷ others else others

-- The name of the file of a state, in the directory of the states.
unfoldable pub get_state_file_name : Bytes → Bytes
get_state_file_name info_hash_hex = info_hash_hex ++ codes ".json"
