-- ===== src/Dht/Buckets/Affinity.antt =====
-- `get_affinity` of src/dht/buckets.rs against the buckets that `find` visits.
use Prim.Native.Nat.{bit_xor}
use tiny_adnl.Prelude.{ℕ, ◌+◌, ◌≡◌, refl, List, [], ◌∷◌, ◌==◌, arith, Bool-cases, inl, inr}
use tiny_adnl.Dht.Buckets.{affinity_from, get_affinity, scan, visited_from}

-- The first of a list, or 255.
pub first_or_last : List ℕ → ℕ
first_or_last [] = 255
first_or_last (d ∷ ds) = d

affinity_from-visited_from :
    (i : ℕ) (key1 key2 : List ℕ)
    → affinity_from i key1 key2 ≡ first_or_last (visited_from i key1 key2)
unfolding affinity_from visited_from scan first_or_last
affinity_from-visited_from i [] key2 = refl
affinity_from-visited_from i (a ∷ xs) [] = refl
affinity_from-visited_from i (a ∷ xs) (b ∷ ys) = elim (Bool-cases (bit_xor a b == 0)) [
  | inl same ↦ rw same (affinity_from-visited_from (i + 1) xs ys)
  | inr other ↦ rw other (omega arith)
]

-- The affinity of two keys is the first bucket that a search for the one from the other visits, so
-- the search starts where the peer itself would stand; of two equal keys it is 255.
pub get_affinity-visited_from :
    (key1 key2 : List ℕ) → get_affinity key1 key2 ≡ first_or_last (visited_from 0 key1 key2)
unfolding get_affinity
get_affinity-visited_from key1 key2 = affinity_from-visited_from 0 key1 key2
