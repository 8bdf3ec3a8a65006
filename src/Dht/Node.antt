-- ===== src/Dht/Node.antt =====
-- src/dht/node.cpp: node ids and nodes.
pub mod Metric
pub mod Order
use pixel_scrape.Base.{
  ℕ, zero, suc, ◌+◌, ◌-◌, ◌*◌, ◌/◌, ◌^◌, bit_and, bit_xor, Bool, true, false, not, List, [], ◌∷◌,
  ltb, leb, ◌==◌, if◌then◌else◌,
}
use pixel_scrape.Base.Bytes.{Bytes}

-- The 20 bytes of a node id.
abbrev pub NodeId : Type 0
NodeId = Bytes

unfoldable pub distance : NodeId → NodeId → NodeId
distance [] ys = []
distance (x ∷ xs) [] = []
distance (x ∷ xs) (y ∷ ys) = bit_xor x y ∷ distance xs ys

-- `operator<` of the arrays: lexicographic.
unfoldable pub id_less : NodeId → NodeId → Bool
id_less [] [] = false
id_less [] (_ ∷ _) = true
id_less (_ ∷ _) [] = false
id_less (x ∷ xs) (y ∷ ys) =
    let rest = id_less xs ys in if ltb x y then true else if ltb y x then false else rest

-- The zeros before the first bit that is set, from the bit `bit - 1` down.
unfoldable pub leading_zeros : ℕ → ℕ → ℕ
leading_zeros zero byte = 0
leading_zeros (suc bit) byte =
    let rest = leading_zeros bit byte in if not (bit_and byte (2 ^ bit) == 0) then 0 else suc rest

-- The index that the byte number `i` and the bytes behind it give.
unfoldable pub bucket_index_from : ℕ → NodeId → ℕ
bucket_index_from i [] = 0
bucket_index_from i (b ∷ bs) =
    let rest = bucket_index_from (suc i) bs in
    if not (b == 0) then 159 - (i * 8 + leading_zeros 8 b) else rest

unfoldable pub bucket_index : NodeId → ℕ
bucket_index d = bucket_index_from 0 d

-- A time is a number of nanoseconds, counted from 20 minutes before the start of the clock.
pub record DhtNode : Type 0 where
  pub id : NodeId
  pub ip : Bytes
  pub port : ℕ
  pub last_seen : ℕ
  pub last_query : ℕ
  pub failed_queries : ℕ

pub data State : Type 0 where
  good questionable bad : State

abbrev pub minute : ℕ
minute = 60000000000

-- The state at the time `now`.
unfoldable pub get_state : ℕ → DhtNode → State
get_state now n =
    let time_since_seen = (now - n.last_seen) / minute in
    if leb 3 n.failed_queries
    then bad
    else if ltb time_since_seen 15
    then good
    else if ltb time_since_seen 60
    then questionable
    else bad

unfoldable pub is_good : ℕ → DhtNode → Bool
is_good now n = elim (get_state now n) [ good ↦ true | questionable ↦ false | bad ↦ false ]

unfoldable pub is_bad : ℕ → DhtNode → Bool
is_bad now n = elim (get_state now n) [ good ↦ false | questionable ↦ false | bad ↦ true ]
