-- ===== src/Adnl/Queries/Tests.antt =====
-- The theorems on src/adnl/queries_cache.rs at concrete queries.
use tiny_adnl.Prelude.{◌≡◌, none, some, [], ◌∷◌, arith}
use tiny_adnl.Adnl.Queries.{empty_cache, add_query, update_query, wait}
use tiny_adnl.Adnl.Queries.Linked.{asked, dropped, answered, run}
use tiny_adnl.Adnl.Queries.Answered.{wait-answered}

wait-answered_example :
    let asked_for = add_query (run empty_cache (asked 3 ∷ asked 4 ∷ [])) 3 in
    let here = run asked_for.0 (answered 4 (1 ∷ []) ∷ dropped 5 ∷ []) in
    (wait here asked_for.1 ≡ none)
    × (wait (run (update_query here 3 (7 ∷ 8 ∷ [])) (asked 3 ∷ dropped 3 ∷ [])) asked_for.1
        ≡ some (some (7 ∷ 8 ∷ [])))
wait-answered_example =
    wait-answered (asked 3 ∷ asked 4 ∷ []) (answered 4 (1 ∷ []) ∷ dropped 5 ∷ [])
      (asked 3 ∷ dropped 3 ∷ []) 3 (7 ∷ 8 ∷ [])
      (λ e. absurd (omega arith), (λ e. absurd (omega arith), tt))
