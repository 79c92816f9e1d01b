-- ===== src/Adnl/Queries/Answered.antt =====
-- What comes of a query, src/adnl/queries_cache.rs, whatever else goes on in between.
use tiny_adnl.Prelude.{
  ℕ, ◌<◌, ◌≡◌, ◌≢◌, refl, ap, ◌∙◌, Bool, true, false, none, some, List, [], ◌∷◌, arith,
  Option-cases, inl, inr,
}
use tiny_adnl.Adnl.Queries.{
  Slot, open_slot, closed_slot, sent_slot, QueriesCache, empty_cache, drop_sender, add_query,
  update_query, wait, drop_pending,
}
use tiny_adnl.Adnl.Queries.Linked.{
  QueryStep, asked, dropped, answered, step, run, step_id, AllOther, Linked, empty_cache-Linked,
  add_query-Linked, update_query-Linked, step-Linked, run-Linked,
}

-- A step for another id leaves the query in the map.
step-other :
    (q : QueriesCache) (s : QueryStep) (id : ℕ)
    → step_id s ≢ id
    → (step q s).queries id ≡ q.queries id
unfolding step add_query update_query drop_pending
step-other q (asked i) id apart = ground arith
step-other q (dropped i) id apart = ground arith
step-other q (answered i answer) id apart = elim (Option-cases (q.queries i)) [
  | inl unknown ↦ rw (update_query, unknown) refl
  | inr (tx, known) ↦ rw (update_query, known) (ground arith)
]

run-other :
    (q : QueriesCache) (steps : List QueryStep) (id : ℕ)
    → AllOther id steps
    → (run q steps).queries id ≡ q.queries id
unfolding run
run-other q [] id h = refl
run-other q (s ∷ rest) id (apart, h) = run-other (step q s) rest id h ∙ step-other q s id apart

-- A sender that has sent.
record Sent (q : QueriesCache) (tx : ℕ) (answer : List ℕ) : Type 0 where
  below : tx < q.next_slot
  sent : q.slots tx ≡ sent_slot answer

is_open : Slot → Bool
is_open open_slot = true
is_open closed_slot = false
is_open (sent_slot _) = false

open-ne-sent : (answer : List ℕ) → open_slot ≢ sent_slot answer
unfolding is_open
open-ne-sent answer e = absurd (ground (arith, ap is_open e))

-- What has been sent stays.
step-Sent :
    (q : QueriesCache) (s : QueryStep) (tx : ℕ) (answer : List ℕ)
    → Linked q
    → Sent q tx answer
    → Sent (step q s) tx answer
unfolding step add_query update_query drop_pending drop_sender
step-Sent q (asked id) tx answer l s = elim (Option-cases (q.queries id)) [
  | inl new ↦ record {
    below = omega (arith, s.below);
    sent = rw (new, drop_sender) (ground (arith, s.below, s.sent));
  }
  | inr (old, known) ↦ record {
    below = omega (arith, s.below);
    sent =
        rw (known, drop_sender)
          (ground (arith, s.below, s.sent, l.opened id old known, open-ne-sent answer));
  }
]
step-Sent q (dropped id) tx answer l s = elim (Option-cases (q.queries id)) [
  | inl new ↦ record { below = s.below; sent = rw (new, drop_sender) s.sent }
  | inr (old, known) ↦ record {
    below = s.below;
    sent =
        rw (known, drop_sender)
          (ground (arith, s.sent, l.opened id old known, open-ne-sent answer));
  }
]
step-Sent q (answered id other_answer) tx answer l s = elim (Option-cases (q.queries id)) [
  | inl new ↦ rw (update_query, new) s
  | inr (old, known) ↦
      rw (update_query, known)
        (record {
          below = s.below;
          sent = ground (arith, s.sent, l.opened id old known, open-ne-sent answer);
        })
]

run-Sent :
    (q : QueriesCache) (steps : List QueryStep) (tx : ℕ) (answer : List ℕ)
    → Linked q
    → Sent q tx answer
    → Sent (run q steps) tx answer
unfolding run
run-Sent q [] tx answer l s = s
run-Sent q (x ∷ rest) tx answer l s =
    run-Sent (step q x) rest tx answer (step-Linked q x l) (step-Sent q x tx answer l s)

-- A query that is asked waits while other queries are asked, answered and dropped; the first answer
-- to its id reaches it, whatever is done before and after.
pub wait-answered :
    (before between after : List QueryStep) (id : ℕ) (answer : List ℕ)
    → AllOther id between
    → let asked_for = add_query (run empty_cache before) id in
      let here = run asked_for.0 between in
      (wait here asked_for.1 ≡ none)
      × (wait (run (update_query here id answer) after) asked_for.1 ≡ some (some answer))
unfolding wait add_query update_query
wait-answered before between after id answer others =
    let q = run empty_cache before in
    let linked = run-Linked empty_cache before empty_cache-Linked in
    let asked_for = add_query q id in
    let here = run asked_for.0 between in
    let l : Linked here = run-Linked asked_for.0 between (add_query-Linked q id linked) in
    let there : here.queries id ≡ some q.next_slot =
      run-other asked_for.0 between id others ∙ ground arith in
    let s : Sent (update_query here id answer) q.next_slot answer =
      rw (update_query, there)
        (record { below = l.below id q.next_slot there; sent = ground arith }) in
    let kept =
      run-Sent (update_query here id answer) after q.next_slot answer
        (update_query-Linked here id answer l) s in
    (rw (wait, l.opened id q.next_slot there) refl, rw (wait, kept.sent) refl)
