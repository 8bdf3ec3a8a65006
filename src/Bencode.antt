-- ===== src/Bencode.antt =====
-- include/bencode_parser.hpp and src/bencode/parser.cpp: bencoded values and `BencodeParser`.
pub mod Parser
pub mod RoundTrip
pub mod Writing
pub mod Jump
mod Examples
use pixel_scrape.Base.{
  ℕ, suc, ◌+◌, Bool, true, false, ◌&&◌, ◌||◌, Option, none, some, List, [], ◌∷◌, ◌++◌, ltb, ◌==◌,
  if◌then◌else◌, length,
}
use pixel_scrape.Base.Bytes.{Bytes, equal}
use pixel_scrape.Decimal.{ℤ, print_int, print_nat}

-- `Fields` is an `unordered_map`: at most one entry for a key, in the order of their insertion.
mutual
  pub data Value : Type 0 where
    integer : ℤ → Value
    string : Bytes → Value
    list : Items → Value
    dict : Fields → Value

  pub data Items : Type 0 where
    no_items : Items
    item : Value → Items → Items

  pub data Fields : Type 0 where
    no_fields : Fields
    field : Bytes → Value → Fields → Fields

-- `values[key] = value`.
unfoldable pub assign : Bytes → Value → Fields → Fields
assign k v no_fields = field k v no_fields
assign k v (field j w fs) = if equal j k then field j v fs else field j w (assign k v fs)

-- `values.find(key)`.
unfoldable pub find : Bytes → Fields → Option Value
find k no_fields = none
find k (field j w fs) = if equal j k then some w else find k fs

-- `std::string::operator<`.
unfoldable pub less : Bytes → Bytes → Bool
less [] [] = false
less [] (_ ∷ _) = true
less (_ ∷ _) [] = false
less (x ∷ xs) (y ∷ ys) = ltb x y || (x == y && less xs ys)

-- An entry of a dictionary, its value encoded.
abbrev pub Entry : Type 0
Entry = Bytes × Bytes

unfoldable pub insert_entry : Entry → List Entry → List Entry
insert_entry e [] = e ∷ []
insert_entry e (x ∷ xs) = if less x.0 e.0 then x ∷ insert_entry e xs else e ∷ x ∷ xs

-- `std::sort` of the keys; no two are equal.
unfoldable pub sort_entries : List Entry → List Entry
unfolding insert_entry
sort_entries [] = []
sort_entries (e ∷ es) = insert_entry e (sort_entries es)

unfoldable pub encode_string : Bytes → Bytes
encode_string s = print_nat (length s) ++ b':' ∷ s

unfoldable pub join_entries : List Entry → Bytes
unfolding encode_string
join_entries [] = []
join_entries ((k, bytes) ∷ es) = encode_string k ++ (bytes ++ join_entries es)

unfoldable mutual
  pub encode : Value → Bytes
  encode (integer z) = b'i' ∷ (print_int z ++ b'e' ∷ [])
  encode (string s) = encode_string s
  encode (list xs) = b'l' ∷ (encode_items xs ++ b'e' ∷ [])
  encode (dict fs) = b'd' ∷ (join_entries (sort_entries (encode_fields fs)) ++ b'e' ∷ [])

  pub encode_items : Items → Bytes
  encode_items no_items = []
  encode_items (item v xs) = encode v ++ encode_items xs

  pub encode_fields : Fields → List Entry
  encode_fields no_fields = []
  encode_fields (field k v fs) = (k, encode v) ∷ encode_fields fs
