-- ===== src/Adnl/Queries.antt =====
-- The queries that wait for an answer, src/adnl/queries_cache.rs. Query ids are numbers. The
-- one-shot channels stand in a table, and a sender is a place in it; a place is never used again.
pub mod Linked
pub mod Answered
mod Tests
use tiny_adnl.Prelude.{ℕ, ◌+◌, Option, none, some, List, [], ◌∷◌, if◌then◌else◌, ◌==◌}

-- A one-shot channel: its sender is there, has sent, or is dropped.
pub data Slot : Type 0 where
  open_slot closed_slot : Slot
  sent_slot : List ℕ → Slot

pub record QueriesCache : Type 0 where
  pub queries : ℕ → Option ℕ
  pub slots : ℕ → Slot
  pub next_slot : ℕ

pub record PendingAdnlQuery : Type 0 where
  pub query_id : ℕ
  pub data_rx : ℕ

pub empty_cache : QueriesCache
empty_cache = record { queries = λ _. none; slots = λ _. open_slot; next_slot = 0 }

abbrev pub put_slot : (ℕ → Slot) → ℕ → Slot → ℕ → Slot
put_slot slots i slot j = if j == i then slot else slots j

-- The sender that leaves the map is dropped.
pub drop_sender : (ℕ → Slot) → Option ℕ → ℕ → Slot
drop_sender slots none = slots
drop_sender slots (some tx) = put_slot slots tx closed_slot

pub add_query : QueriesCache → ℕ → QueriesCache × PendingAdnlQuery
add_query q id = (
  record {
    queries = λ i. if i == id then some q.next_slot else q.queries i;
    slots = put_slot (drop_sender q.slots (q.queries id)) q.next_slot open_slot;
    next_slot = q.next_slot + 1;
  },
  record { query_id = id; data_rx = q.next_slot },
)

abbrev pub without_query : (ℕ → Option ℕ) → ℕ → ℕ → Option ℕ
without_query queries id i = if i == id then none else queries i

pub update_query : QueriesCache → ℕ → List ℕ → QueriesCache
update_query q id answer = elim (q.queries id) [
  | none ↦ q
  | some tx ↦ record q {
    queries = without_query q.queries id;
    slots = put_slot q.slots tx (sent_slot answer);
  }
]

-- `none` is a call that is still waiting, and `some none` one whose sender is dropped.
pub wait : QueriesCache → PendingAdnlQuery → Option (Option (List ℕ))
wait q p = elim (q.slots p.data_rx) [
  | open_slot ↦ none
  | closed_slot ↦ some none
  | sent_slot answer ↦ some (some answer)
]

-- `Drop` of a query that has not finished.
pub drop_pending : QueriesCache → ℕ → QueriesCache
drop_pending q id = record q {
  queries = without_query q.queries id;
  slots = drop_sender q.slots (q.queries id);
}
