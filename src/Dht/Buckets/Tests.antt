-- ===== src/Dht/Buckets/Tests.antt =====
-- Runs of src/dht/buckets.rs, and the theorems at short keys.
use mathlib.Core.List
use tiny_adnl.Prelude.{ℕ, ◌+◌, ◌*◌, ◌≡◌, ◌≢◌, ◌⊎◌, refl, some, List, [], ◌∷◌, arith, ℕ_discrete}
use tiny_adnl.Dht.Buckets.{
  DhtNode, Bucket, leading_zeros, affinity_from, get_affinity, scan, visited_from, push_nodes,
  collect, find, insert,
}
use tiny_adnl.Dht.Buckets.Insert.{lookup, newer, insert-lookup}
use tiny_adnl.Dht.Buckets.Scan.{differing, visited_from-differing}

abbrev key_discrete : Discrete (List ℕ)
key_discrete = List.List-discrete ℕ_discrete

abbrev local_id : List ℕ
local_id = 0x80 ∷ 0x01 ∷ []

abbrev peer_id : List ℕ
peer_id = 0x90 ∷ 0xc1 ∷ []

-- Two nodes in each bucket, by number.
abbrev full_table : ℕ → List ℕ
full_table d = (10 * d) ∷ (10 * d + 1) ∷ []

runs : get_affinity local_id peer_id ≡ 3
unfolding get_affinity affinity_from leading_zeros
runs = refl

visits : visited_from 0 local_id peer_id ≡ 3 ∷ 8 ∷ 9 ∷ []
unfolding visited_from scan leading_zeros
visits = refl

-- Without a limit there is still one node.
finds_none : find local_id full_table peer_id 0 ≡ 30 ∷ []
unfolding find collect push_nodes visited_from scan leading_zeros
finds_none = refl

finds_three : find local_id full_table peer_id 3 ≡ 30 ∷ 31 ∷ 80 ∷ []
unfolding find collect push_nodes visited_from scan leading_zeros
finds_three = refl

visited_from-differing_example : visited_from 0 local_id peer_id ≡ differing 0 local_id peer_id
visited_from-differing_example =
    visited_from-differing 0 local_id peer_id (omega arith) (omega arith, (omega arith, tt))
      (omega arith, (omega arith, tt))

abbrev node : DhtNode
node = record { version = 5; body = 0 }

abbrev no_nodes : ℕ → Bucket
no_nodes i = []

insert-lookup_example :
    (lookup key_discrete peer_id
        (insert key_discrete local_id no_nodes peer_id node (get_affinity local_id peer_id))
      ≡ some (newer key_discrete (lookup key_discrete peer_id []) node))
    × ((id : List ℕ) (i : ℕ)
        → (id ≢ peer_id) ⊎ (i ≢ get_affinity local_id peer_id)
        → lookup key_discrete id (insert key_discrete local_id no_nodes peer_id node i)
          ≡ lookup key_discrete id [])
insert-lookup_example = insert-lookup key_discrete local_id no_nodes peer_id node
