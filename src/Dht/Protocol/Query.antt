-- ===== src/Dht/Protocol/Query.antt =====
-- The arguments of a query as the entries of a dictionary.
use pixel_scrape.Base.{
  ℕ, suc, ◌+◌, ◌≤◌, ◌<◌, ◌≡◌, Bool, true, false, Option, none, some, [], ◌++◌, arith, length,
}
use pixel_scrape.Base.Bytes.{Bytes, codes}
use pixel_scrape.Decimal.{pos}
use pixel_scrape.Bencode.{Value, Fields, integer, string, no_fields}
use pixel_scrape.Bencode.RoundTrip.Canonical.{calls}
use pixel_scrape.Bencode.Writing.{ReadsFields, ReadsFields-end}
use pixel_scrape.Dht.Protocol.{QueryMessage}
use pixel_scrape.Dht.Protocol.Entries.{put, entry_text, HoldsCanonical, calls_of, ReadsFields-put}

abbrev pub string_of : Option Bytes → Option Value
string_of none = none
string_of (some s) = some (string s)

abbrev pub port_of : Option ℕ → Option Value
port_of none = none
port_of (some p) = some (integer (pos p))

abbrev pub flag_of : Option Bool → Option Value
flag_of (some true) = some (integer (pos 1))
flag_of _ = none

-- An optional value of twenty bytes, and a port of 16 bits.
abbrev pub IsTwenty : Option Bytes → Type 0
IsTwenty none = Unit
IsTwenty (some s) = length s ≡ 20

abbrev pub IsPort : Option ℕ → Type 0
IsPort none = Unit
IsPort (some p) = p < 65536

pub record IsWhole (m : QueryMessage) : Type 0 where
  pub id : length m.querying_node_id ≡ 20
  pub target : IsTwenty m.target_id
  pub info : IsTwenty m.info_hash
  pub port : IsPort m.port

pub string_of-HoldsCanonical : (o : Option Bytes) → HoldsCanonical (string_of o)
string_of-HoldsCanonical none = tt
string_of-HoldsCanonical (some s) = tt

port_of-HoldsCanonical : (o : Option ℕ) → IsPort o → HoldsCanonical (port_of o)
port_of-HoldsCanonical none h = tt
port_of-HoldsCanonical (some p) h = omega arith

flag_of-HoldsCanonical : (o : Option Bool) → HoldsCanonical (flag_of o)
flag_of-HoldsCanonical none = tt
flag_of-HoldsCanonical (some true) = omega arith
flag_of-HoldsCanonical (some false) = tt

pub calls_of-string_of : (o : Option Bytes) → calls_of (string_of o) ≤ 1
unfolding calls
calls_of-string_of none = omega arith
calls_of-string_of (some s) = omega arith

calls_of-port_of : (o : Option ℕ) → calls_of (port_of o) ≤ 1
unfolding calls
calls_of-port_of none = omega arith
calls_of-port_of (some s) = omega arith

calls_of-flag_of : (o : Option Bool) → calls_of (flag_of o) ≤ 1
unfolding calls
calls_of-flag_of none = omega arith
calls_of-flag_of (some true) = omega arith
calls_of-flag_of (some false) = omega arith

module _ (m : QueryMessage) where
  abbrev pub id_fields : Fields
  id_fields = put (codes "id") (some (string m.querying_node_id)) no_fields

  abbrev pub target_fields : Fields
  target_fields = put (codes "target") (string_of m.target_id) id_fields

  abbrev pub info_fields : Fields
  info_fields = put (codes "info_hash") (string_of m.info_hash) target_fields

  abbrev pub port_fields : Fields
  port_fields = put (codes "port") (port_of m.port) info_fields

  abbrev pub token_fields : Fields
  token_fields = put (codes "token") (string_of m.token) port_fields

  abbrev pub argument_fields : Fields
  argument_fields = put (codes "implied_port") (flag_of m.implied_port) token_fields

  abbrev pub argument_text : Bytes
  argument_text =
      entry_text (codes "id") (some (string m.querying_node_id))
      ++ (entry_text (codes "target") (string_of m.target_id)
          ++ (entry_text (codes "info_hash") (string_of m.info_hash)
              ++ (entry_text (codes "port") (port_of m.port)
                  ++ (entry_text (codes "token") (string_of m.token)
                      ++ (entry_text (codes "implied_port") (flag_of m.implied_port) ++ [])))))

  abbrev pub argument_calls : ℕ
  argument_calls = suc (
      calls_of (some (string m.querying_node_id))
      + suc (
          calls_of (string_of m.target_id)
          + suc (
              calls_of (string_of m.info_hash)
              + suc (
                  calls_of (port_of m.port)
                  + suc (
                      calls_of (string_of m.token)
                      + suc (calls_of (flag_of m.implied_port) + 1))))))

  pub argument_calls_le : argument_calls ≤ 13
  unfolding calls
  argument_calls_le = omega (
    arith,
    calls_of-string_of m.target_id,
    calls_of-string_of m.info_hash,
    calls_of-port_of m.port,
    calls_of-string_of m.token,
    calls_of-flag_of m.implied_port,
  )

  pub arguments-ReadsFields :
      IsWhole m → ReadsFields argument_text no_fields argument_fields argument_calls
  arguments-ReadsFields w =
      ReadsFields-put (codes "id") _ (some (string m.querying_node_id)) no_fields argument_fields _
        tt
        (ReadsFields-put (codes "target") _ (string_of m.target_id) id_fields argument_fields _
          (string_of-HoldsCanonical m.target_id)
          (ReadsFields-put (codes "info_hash") _ (string_of m.info_hash) target_fields
            argument_fields _ (string_of-HoldsCanonical m.info_hash)
            (ReadsFields-put (codes "port") _ (port_of m.port) info_fields argument_fields _
              (port_of-HoldsCanonical m.port w.port)
              (ReadsFields-put (codes "token") _ (string_of m.token) port_fields argument_fields _
                (string_of-HoldsCanonical m.token)
                (ReadsFields-put (codes "implied_port") [] (flag_of m.implied_port) token_fields
                  argument_fields 1 (flag_of-HoldsCanonical m.implied_port)
                  (ReadsFields-end argument_fields))))))
