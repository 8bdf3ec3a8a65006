-- ===== src/Bencode/RoundTrip/Canonical.antt =====
-- The values that the round trip is stated for, and the calls that parsing them takes.
use pixel_scrape.Base.{ℕ, suc, ◌+◌}
use pixel_scrape.Decimal.ReadBack.{FitsInt64}
use pixel_scrape.Bencode.{
  Value, Items, Fields, integer, string, list, dict, no_items, item, no_fields, field,
}
use pixel_scrape.Bencode.RoundTrip.Sorting.{IsRising}

-- Integers of 64 bits, and dictionaries whose keys stand in order.
abbrev mutual
  pub IsCanonical : Value → Type 0
  IsCanonical (integer z) = FitsInt64 z
  IsCanonical (string s) = Unit
  IsCanonical (list xs) = AreCanonical xs
  IsCanonical (dict fs) = IsRising fs × HoldCanonical fs

  pub AreCanonical : Items → Type 0
  AreCanonical no_items = Unit
  AreCanonical (item v xs) = IsCanonical v × AreCanonical xs

  pub HoldCanonical : Fields → Type 0
  HoldCanonical no_fields = Unit
  HoldCanonical (field k v fs) = IsCanonical v × HoldCanonical fs

-- The calls that the parser makes on a value.
unfoldable mutual
  pub calls : Value → ℕ
  calls (integer z) = 1
  calls (string s) = 1
  calls (list xs) = suc (calls_items xs)
  calls (dict fs) = suc (calls_fields fs)

  pub calls_items : Items → ℕ
  calls_items no_items = 1
  calls_items (item v xs) = suc (calls v + calls_items xs)

  pub calls_fields : Fields → ℕ
  calls_fields no_fields = 1
  calls_fields (field k v fs) = suc (calls v + calls_fields fs)
