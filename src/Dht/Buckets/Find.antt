-- ===== src/Dht/Buckets/Find.antt =====
-- `find` of src/dht/buckets.rs against the nodes of the visited buckets.
use mathlib.Core.List.{append_assoc, append-nil}
use tiny_adnl.Prelude.{
  ℕ, zero, suc, ◌+◌, ◌<◌, ◌≡◌, ◌∙◌, refl, sym, ap, Bool, true, false, List, [], ◌∷◌, ◌++◌, leb,
  length, max, take, take-all, length-append, arith, Bool-cases, inl, inr,
}
use tiny_adnl.Dht.Buckets.{push_nodes, collect, find, visited_from}

take-append_left : {A : Type 0} (xs ys : List A) (n : ℕ) → length xs ≡ n → take n (xs ++ ys) ≡ xs
take-append_left [] ys zero e = refl
take-append_left [] ys (suc n) e = absurd (omega arith)
take-append_left (x ∷ xs) ys zero e = absurd (omega arith)
take-append_left (x ∷ xs) ys (suc n) e = ap (◌∷◌ x) (take-append_left xs ys n (omega arith))

module _ {N : Type 0} where
  -- The nodes of the buckets, one bucket behind another.
  pub all_nodes : (ℕ → List N) → List ℕ → List N
  all_nodes buckets [] = []
  all_nodes buckets (d ∷ ds) = buckets d ++ all_nodes buckets ds

  -- What one bucket makes of a result that is not full, given the nodes of both.
  record Pushed (k : ℕ) (nodes : List N) (r : List N × Bool) : Type 0 where
    full : (r.1 ≡ true) → (rest : List N) → r.0 ≡ take (max 1 k) (nodes ++ rest)
    open_still : (r.1 ≡ false) → (r.0 ≡ nodes) × (length nodes < max 1 k)

  push_nodes-Pushed :
      (k : ℕ) (nodes ns : List N)
      → length nodes < max 1 k
      → Pushed k (nodes ++ ns) (push_nodes k nodes ns)
  unfolding push_nodes
  push_nodes-Pushed k nodes [] h = record {
    full = λ e. absurd cc;
    open_still = λ e. (sym (append-nil nodes), rw append-nil h);
  }
  push_nodes-Pushed k nodes (n ∷ ns) h =
      let l : length (nodes ++ (n ∷ [])) ≡ length nodes + 1 = length-append nodes (n ∷ []) in
      let assoc : nodes ++ (n ∷ ns) ≡ (nodes ++ (n ∷ [])) ++ ns =
        sym (append_assoc nodes (n ∷ []) ns) in
      elim (Bool-cases (leb k (length (nodes ++ (n ∷ []))))) [
        | inl filled ↦
            let size : length (nodes ++ (n ∷ [])) ≡ max 1 k = ground arith in
            rw (filled, push_nodes)
              (record {
                full = λ e rest. sym (
                    rw (assoc, append_assoc)
                      (take-append_left (nodes ++ (n ∷ [])) (ns ++ rest) (max 1 k) size));
                open_still = λ e. absurd cc;
              })
        | inr not_yet ↦
            let more = push_nodes-Pushed k (nodes ++ (n ∷ [])) ns (ground arith) in
            rw (not_yet, assoc) more
      ]

  collect-take :
      (k : ℕ) (buckets : ℕ → List N) (nodes : List N) (ds : List ℕ)
      → length nodes < max 1 k
      → collect k buckets nodes ds ≡ take (max 1 k) (nodes ++ all_nodes buckets ds)
  unfolding collect all_nodes
  collect-take k buckets nodes [] h = rw append-nil (sym (take-all nodes (max 1 k) (omega arith)))
  collect-take k buckets nodes (d ∷ ds) h =
      let pushed = push_nodes-Pushed k nodes (buckets d) h in
      elim (Bool-cases (push_nodes k nodes (buckets d)).1) [
        | inl stop ↦ rw stop (pushed.full stop (all_nodes buckets ds) ∙ rw append_assoc)
        | inr go ↦
            let still = pushed.open_still go in
            let rest = collect-take k buckets (nodes ++ buckets d) ds still.1 in
            rw (go, still.0) (rest ∙ rw append_assoc)
      ]

  -- The search gives the first `k` nodes of the visited buckets in their order, or all of them if
  -- there are fewer; for `k` 0 it gives one.
  pub find-take :
      (local_id : List ℕ) (buckets : ℕ → List N) (peer_id : List ℕ) (k : ℕ)
      → find local_id buckets peer_id k
        ≡ take (max 1 k) (all_nodes buckets (visited_from 0 local_id peer_id))
  unfolding find
  find-take local_id buckets peer_id k =
      collect-take k buckets [] (visited_from 0 local_id peer_id) (omega arith)
