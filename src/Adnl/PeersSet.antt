-- ===== src/Adnl/PeersSet.antt =====
-- src/adnl/peers_set.rs: a set of node ids of a fixed capacity, a ring of ids with a hash map
-- from an id to its place. The map is a function, since the code never walks over it; a lock
-- that is held for a whole call makes each call one step.
pub mod Inv
pub mod Fifo
pub mod Fill
pub mod Choose
pub mod Members
pub mod Sample
mod Tests
use tiny_adnl.Prelude.{
  ℕ, ◌+◌, ◌%◌, Bool, true, false, Option, none, some, List, [], ◌∷◌, ◌++◌, ite, if◌then◌else◌, leb,
  ◌==◌, not, get_elem?, set, length, max, take,
}
use tiny_adnl.Prelude.Bytes.{add64, add32}

pub record PeersSetState (K : Type 0) : Type 0 where
  pub version : ℕ
  pub cache : K → Option ℕ
  pub index : List K
  pub capacity : ℕ
  pub upper : ℕ

abbrev pub make_capacity : ℕ → ℕ
make_capacity capacity = max 1 capacity

pub empty_state : {K : Type 0} → ℕ → PeersSetState K
empty_state capacity = record {
  version = 0;
  cache = λ _. none;
  index = [];
  capacity = capacity;
  upper = 0;
}

pub with_capacity : {K : Type 0} → ℕ → PeersSetState K
unfolding empty_state
with_capacity capacity = empty_state (make_capacity capacity)

pub is_full : {K : Type 0} → PeersSetState K → Bool
is_full s = leb s.capacity (length s.index)

pub contains : {K : Type 0} → PeersSetState K → K → Bool
contains s k = elim (s.cache k) [ none ↦ false | some _ ↦ true ]

pub get : {K : Type 0} → PeersSetState K → ℕ → Option K
get s i = get_elem? s.index i

module _ {K : Type 0} (dec : Discrete K) where
  -- `entry(k)`, then `insert` or `remove`
  abbrev pub insert_entry : (K → Option ℕ) → K → ℕ → K → Option ℕ
  insert_entry cache k i j = ite (dec k j) (some i) (cache j)

  abbrev pub remove_entry : (K → Option ℕ) → K → K → Option ℕ
  remove_entry cache k j = ite (dec k j) none (cache j)

  -- The old peer leaves the map if the map has it at this place.
  pub evict : (K → Option ℕ) → K → ℕ → K → Option ℕ
  evict cache old i = elim (cache old) [
    | none ↦ cache
    | some j ↦ if j == i then remove_entry cache old else cache
  ]

  pub insert : PeersSetState K → K → PeersSetState K × Bool
  insert s k = elim (s.cache k) [
    | some _ ↦ (s, false)
    | none ↦
        let cache = insert_entry s.cache k s.upper in
        let upper = add32 s.upper 1 % s.capacity in
        elim (get_elem? s.index s.upper) [
          | some old ↦ (
            record s {
              version = add64 s.version 1;
              cache = evict cache old s.upper;
              index = set s.index s.upper k;
              upper = upper;
            },
            true,
          )
          | none ↦ (
            record s {
              version = add64 s.version 1;
              cache = cache;
              index = s.index ++ (k ∷ []);
              upper = upper;
            },
            true,
          )
        ]
  ]

  pub extend : PeersSetState K → List K → PeersSetState K
  extend s [] = s
  extend s (k ∷ ks) = extend (insert s k).0 ks

  -- The loop of `with_peers_and_capacity`.
  pub fill : PeersSetState K → List K → PeersSetState K
  fill s [] = s
  fill s (k ∷ ks) =
      let next : PeersSetState K = elim (s.cache k) [
        | none ↦
            fill
              (record s {
                cache = insert_entry s.cache k s.upper;
                index = s.index ++ (k ∷ []);
                upper = add32 s.upper 1;
              })
              ks
        | some _ ↦ fill s ks
      ] in
      if leb s.capacity s.upper then s else next

  pub with_peers_and_capacity : List K → ℕ → PeersSetState K
  with_peers_and_capacity peers capacity =
      let s = fill (empty_state (make_capacity capacity)) peers in
      record s { upper = s.upper % s.capacity }
