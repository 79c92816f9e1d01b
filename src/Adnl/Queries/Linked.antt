-- ===== src/Adnl/Queries/Linked.antt =====
-- The invariant of the queries of src/adnl/queries_cache.rs: senders in the map are open, and each is
-- there once.
use tiny_adnl.Prelude.{ℕ, ◌<◌, ◌≡◌, ◌≢◌, some, List, [], ◌∷◌, arith, Option-cases, inl, inr}
use tiny_adnl.Adnl.Queries.{
  open_slot, QueriesCache, empty_cache, drop_sender, add_query, update_query, drop_pending,
}

-- What is done with a query id: a query, an answer, or the end of a query that has not finished.
pub data QueryStep : Type 0 where
  asked dropped : ℕ → QueryStep
  answered : ℕ → List ℕ → QueryStep

unfoldable pub step : QueriesCache → QueryStep → QueriesCache
step q (asked id) = (add_query q id).0
step q (answered id answer) = update_query q id answer
step q (dropped id) = drop_pending q id

unfoldable pub run : QueriesCache → List QueryStep → QueriesCache
run q [] = q
run q (s ∷ rest) = run (step q s) rest

abbrev pub step_id : QueryStep → ℕ
step_id (asked id) = id
step_id (answered id answer) = id
step_id (dropped id) = id

-- No step is for this id.
abbrev pub AllOther : ℕ → List QueryStep → Type 0
AllOther id [] = Unit
AllOther id (s ∷ rest) = (step_id s ≢ id) × AllOther id rest

pub record Linked (q : QueriesCache) : Type 0 where
  pub below : (id tx : ℕ) → q.queries id ≡ some tx → tx < q.next_slot
  pub opened : (id tx : ℕ) → q.queries id ≡ some tx → q.slots tx ≡ open_slot
  pub apart : (i j tx : ℕ) → q.queries i ≡ some tx → q.queries j ≡ some tx → i ≡ j

pub empty_cache-Linked : Linked empty_cache
unfolding empty_cache
empty_cache-Linked = record {
  below = λ id tx e. absurd (cc);
  opened = λ id tx e. absurd (cc);
  apart = λ i j tx e f. absurd (cc);
}

pub add_query-Linked : (q : QueriesCache) (id : ℕ) → Linked q → Linked (add_query q id).0
unfolding add_query drop_sender
add_query-Linked q id l = elim (Option-cases (q.queries id)) [
  | inl new ↦
      rw (new, drop_sender)
        (record {
          below = λ i tx e. ground (arith, l.below i tx);
          opened = λ i tx e. ground (arith, l.below i tx, l.opened i tx);
          apart = λ i j tx e f. ground (arith, l.below i tx, l.below j tx, l.apart i j tx);
        })
  | inr (old, known) ↦
      rw (known, drop_sender)
        (record {
          below = λ i tx e. ground (arith, l.below i tx);
          opened = λ i tx e. ground (arith, l.below i tx, l.opened i tx, l.apart i id tx);
          apart = λ i j tx e f. ground (arith, l.below i tx, l.below j tx, l.apart i j tx);
        })
]

pub update_query-Linked :
    (q : QueriesCache) (id : ℕ) (answer : List ℕ) → Linked q → Linked (update_query q id answer)
unfolding update_query
update_query-Linked q id answer l = elim (Option-cases (q.queries id)) [
  | inl unknown ↦ rw (update_query, unknown) l
  | inr (tx, known) ↦
      rw (update_query, known)
        (record {
          below = λ i t e. ground (arith, l.below i t);
          opened = λ i t e. ground (arith, l.opened i t, l.apart i id t);
          apart = λ i j t e f. ground (arith, l.apart i j t);
        })
]

drop_pending-Linked : (q : QueriesCache) (id : ℕ) → Linked q → Linked (drop_pending q id)
unfolding drop_pending drop_sender
drop_pending-Linked q id l = elim (Option-cases (q.queries id)) [
  | inl unknown ↦
      rw (drop_pending, unknown, drop_sender)
        (record {
          below = λ i t e. ground (arith, l.below i t);
          opened = λ i t e. ground (arith, l.opened i t);
          apart = λ i j t e f. ground (arith, l.apart i j t);
        })
  | inr (tx, known) ↦
      rw (drop_pending, known, drop_sender)
        (record {
          below = λ i t e. ground (arith, l.below i t);
          opened = λ i t e. ground (arith, l.opened i t, l.apart i id t);
          apart = λ i j t e f. ground (arith, l.apart i j t);
        })
]

pub step-Linked : (q : QueriesCache) (s : QueryStep) → Linked q → Linked (step q s)
unfolding step
step-Linked q (asked id) l = add_query-Linked q id l
step-Linked q (answered id answer) l = update_query-Linked q id answer l
step-Linked q (dropped id) l = drop_pending-Linked q id l

pub run-Linked : (q : QueriesCache) (steps : List QueryStep) → Linked q → Linked (run q steps)
unfolding run
run-Linked q [] l = l
run-Linked q (s ∷ rest) l = run-Linked (step q s) rest (step-Linked q s l)
