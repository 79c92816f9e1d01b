-- ===== src/Dht/PeersIter.antt =====
-- src/dht/peers_iter.rs: the order in which peers are asked for a key. The peers are kept from the
-- end of the vector, where `next` takes them. The known peers that are not bad, in the order of
-- their indices, are an argument; `sort` is the sort by descending affinity of the standard library.
use tiny_adnl.Prelude.{
  ℕ, ◌+◌, Bool, true, Option, none, some, List, [], ◌∷◌, ◌++◌, if◌then◌else◌, ltb, leb, ◌||◌,
  length,
}
use tiny_adnl.Dht.Buckets.{get_affinity}

abbrev pub Peers : Type 0
Peers = List (ℕ × List ℕ)

pub record PeersIter : Type 0 where
  pub key_id : List ℕ
  pub peer_ids : Peers
  pub index : ℕ

pub with_key_id : List ℕ → PeersIter
with_key_id key_id = record { key_id = key_id; peer_ids = []; index = 0 }

-- `Vec::last` and `Vec::pop`
pub last_peer : Peers → Option (ℕ × List ℕ)
last_peer [] = none
last_peer (x ∷ xs) = let rest = last_peer xs in elim rest [ none ↦ some x | some y ↦ some y ]

pub without_last : Peers → Peers
without_last [] = []
without_last (x ∷ []) = []
without_last (x ∷ y ∷ xs) = x ∷ without_last (y ∷ xs)

pub next : PeersIter → PeersIter × Option (List ℕ)
next it = elim (last_peer it.peer_ids) [
  | none ↦ (it, none)
  | some (_, peer_id) ↦ (record it { peer_ids = without_last it.peer_ids }, some peer_id)
]

-- Whether a peer of this affinity is added.
pub should_add : Peers → Option ℕ → ℕ → Bool
should_add peer_ids none affinity = true
should_add peer_ids (some batch_len) affinity = elim (last_peer peer_ids) [
  | none ↦ true
  | some (top_affinity, _) ↦ leb top_affinity affinity || ltb (length peer_ids) batch_len
]

-- The first loop of `fill`.
pub add_peers : List ℕ → Option ℕ → Peers → List (List ℕ) → Peers
add_peers key_id batch_len peer_ids [] = peer_ids
add_peers key_id batch_len peer_ids (peer_id ∷ rest) =
    let affinity = get_affinity key_id peer_id in
    let added =
      if should_add peer_ids batch_len affinity
      then peer_ids ++ ((affinity, peer_id) ∷ [])
      else peer_ids in
    add_peers key_id batch_len added rest

-- The closure of `retain`, from an offset on.
pub retain_best : ℕ → ℕ → ℕ → Peers → Peers
retain_best batch_len top_affinity offset [] = []
retain_best batch_len top_affinity offset (p ∷ ps) =
    let rest = retain_best batch_len top_affinity (offset + 1) ps in
    if ltb offset batch_len || leb top_affinity p.0 then p ∷ rest else rest

pub clear_peers : Option ℕ → Peers → Peers
clear_peers none peer_ids = peer_ids
clear_peers (some batch_len) [] = []
clear_peers (some batch_len) (p ∷ ps) = retain_best batch_len p.0 0 (p ∷ ps)

-- `known` are the peers from the index on, each with whether it is bad.
pub next_known_peer : List (List ℕ × Bool) → ℕ → Option (List ℕ) × ℕ
next_known_peer [] index = (none, index + 1)
next_known_peer ((peer, bad) ∷ rest) index =
    let later = next_known_peer rest (index + 1) in if bad then later else (some peer, index + 1)

-- All that `next_known_peer` gives until it gives none, and the index after that.
pub good_peers : List (List ℕ × Bool) → List (List ℕ)
good_peers [] = []
good_peers ((peer, bad) ∷ rest) = let later = good_peers rest in if bad then later else peer ∷ later

pub fill : (Peers → Peers) → PeersIter → List (List ℕ × Bool) → Option ℕ → PeersIter
fill sort it known batch_len = record it {
  peer_ids =
      clear_peers batch_len (sort (add_peers it.key_id batch_len it.peer_ids (good_peers known)));
  index = it.index + length known + 1;
}
