-- ===== src/Dht/Buckets.antt =====
-- src/dht/buckets.rs: the known DHT nodes by the length of the prefix that their ids share with the
-- local id. An id is a list of 32 bytes. A bucket is a list of nodes, in the order in which its
-- iterator gives them.
pub mod Affinity
pub mod Insert
pub mod Scan
pub mod Find
mod Tests
use Prim.Native.Nat.{bit_xor}
use tiny_adnl.Prelude.{
  ℕ, zero, suc, ◌+◌, ◌-◌, ◌*◌, ◌%◌, ◌^◌, Bool, true, false, List, [], ◌∷◌, ◌++◌, ite, if◌then◌else◌,
  ltb, leb, ◌==◌, length, min, take,
}

-- `u8::leading_zeros`
pub leading_zeros : ℕ → ℕ
leading_zeros d =
    if leb 128 d
    then 0
    else if leb 64 d
    then 1
    else if leb 32 d
    then 2
    else if leb 16 d
    then 3
    else if leb 8 d
    then 4
    else if leb 4 d
    then 5
    else if leb 2 d
    then 6
    else if leb 1 d
    then 7
    else 8

-- The loop from byte `i` on; `as u8` at the end.
pub affinity_from : ℕ → List ℕ → List ℕ → ℕ
affinity_from i (a ∷ xs) (b ∷ ys) =
    let rest = affinity_from (i + 1) xs ys in
    if bit_xor a b == 0 then rest else (i * 8 + leading_zeros (bit_xor a b)) % 256
affinity_from i _ _ = 255

unfoldable pub get_affinity : List ℕ → List ℕ → ℕ
get_affinity key1 key2 = affinity_from 0 key1 key2

-- The `while` loop over one byte: the buckets that it visits. A byte has no more than eight.
pub scan : ℕ → ℕ → ℕ → List ℕ
scan zero distance diff = []
scan (suc fuel) distance diff =
    let equal_bits = leading_zeros diff in
    let visited = (distance + equal_bits) % 256 in
    let more = scan fuel (min 255 (visited + 1)) (diff * 2 ^ (equal_bits + 1) % 256) in
    if diff == 0 then [] else visited ∷ (if ltb equal_bits 7 then more else [])

-- The buckets that `find` visits, from byte `i` on.
pub visited_from : ℕ → List ℕ → List ℕ → List ℕ
visited_from i (a ∷ xs) (b ∷ ys) = scan 8 (i * 8 % 256) (bit_xor a b) ++ visited_from (i + 1) xs ys
visited_from i _ _ = []

module _ {N : Type 0} where
  -- One bucket: the nodes go to the result until it has `k`; then the loops end.
  pub push_nodes : ℕ → List N → List N → List N × Bool
  push_nodes k nodes [] = (nodes, false)
  push_nodes k nodes (n ∷ ns) =
      let more = push_nodes k (nodes ++ (n ∷ [])) ns in
      if leb k (length (nodes ++ (n ∷ []))) then (nodes ++ (n ∷ []), true) else more

  pub collect : ℕ → (ℕ → List N) → List N → List ℕ → List N
  collect k buckets nodes [] = nodes
  collect k buckets nodes (d ∷ ds) =
      let (nodes', stop) = push_nodes k nodes (buckets d) in
      let more = collect k buckets nodes' ds in if stop then nodes' else more

  pub find : List ℕ → (ℕ → List N) → List ℕ → ℕ → List N
  find local_id buckets peer_id k = collect k buckets [] (visited_from 0 local_id peer_id)

-- `proto::dht::NodeOwned`: its version, and what the table does not read.
pub record DhtNode : Type 0 where
  pub version : ℕ
  pub body : ℕ

abbrev pub Bucket : Type 0
Bucket = List (List ℕ × DhtNode)

module _ (dec : Discrete (List ℕ)) where
  -- `entry(peer_id)`: an older node is replaced, a new one is added.
  pub insert_entry : List ℕ → DhtNode → Bucket → Bucket
  insert_entry peer_id node [] = (peer_id, node) ∷ []
  insert_entry peer_id node ((id, old) ∷ rest) =
      ite (dec id peer_id) ((id, if ltb old.version node.version then node else old) ∷ rest)
        ((id, old) ∷ insert_entry peer_id node rest)

  pub insert : List ℕ → (ℕ → Bucket) → List ℕ → DhtNode → ℕ → Bucket
  insert local_id buckets peer_id node i =
      if get_affinity local_id peer_id == i
      then insert_entry peer_id node (buckets i)
      else buckets i
