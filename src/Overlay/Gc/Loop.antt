-- ===== src/Overlay/Gc/Loop.antt =====
-- The garbage collector of src/overlay/overlay.rs: what its loop removes, and that it ends.
use tiny_adnl.Prelude.Bytes.{sub32}
use tiny_adnl.Prelude.{
  ℕ, zero, suc, ◌-◌, ◌^◌, ◌<◌, ◌≡◌, refl, true, false, none, some, List, ◌∷◌, ltb, length,
  List-cases, take, drop, arith, inl, inr, ℕ_discrete,
}
use tiny_adnl.Adnl.PeersSet.Fifo.{elem}
use tiny_adnl.Overlay.Defs.{Overlay, put_broadcast}
use tiny_adnl.Overlay.Gc.{gc_step, gc_loop}

module _ {D : Type 0} where
  -- What the loop has left.
  pub record Collected (o o' : Overlay D) (n : ℕ) : Type 0 where
    pub queue : o'.finished_broadcasts ≡ drop n o.finished_broadcasts
    pub counted : o'.finished_broadcast_count ≡ length o'.finished_broadcasts
    pub removed :
        (id : ℕ)
        → elem ℕ_discrete id (take n o.finished_broadcasts) ≡ true
        → o'.owned_broadcasts id ≡ none
    pub kept :
        (id : ℕ)
        → elem ℕ_discrete id (take n o.finished_broadcasts) ≡ false
        → o'.owned_broadcasts id ≡ o.owned_broadcasts id
    pub same_options : o'.options ≡ o.options
    pub same_tasks : (o'.cleanups ≡ o.cleanups) × (o'.gc_tasks ≡ o.gc_tasks)

  -- One more of the oldest.
  Collected-suc :
      (o o' : Overlay D) (id : ℕ) (rest : List ℕ) (k : ℕ)
      → o.finished_broadcasts ≡ id ∷ rest
      → Collected (gc_step o) o' k
      → Collected o o' (suc k)
  unfolding gc_step elem
  Collected-suc o o' id rest k e c =
      let finished : (gc_step o).finished_broadcasts ≡ rest = rw e refl in
      let forgotten : (gc_step o).owned_broadcasts ≡ put_broadcast o.owned_broadcasts id none =
        rw e refl in
      record {
        queue = ground (arith, c.queue);
        counted = c.counted;
        removed = λ i h. ground (arith, c.removed i, c.kept i);
        kept = λ i h. ground (arith, c.kept i);
        same_options = rw e at c.same_options;
        same_tasks = rw e at c.same_tasks;
      }

  is_over :
      (o : Overlay D) (k : ℕ)
      → o.finished_broadcast_count - o.options.max_broadcast_log ≡ suc k
      → ltb o.options.max_broadcast_log o.finished_broadcast_count ≡ true
  is_over o k l = ground arith

  is_not_over :
      (o : Overlay D)
      → o.finished_broadcast_count - o.options.max_broadcast_log ≡ 0
      → ltb o.options.max_broadcast_log o.finished_broadcast_count ≡ false
  is_not_over o l = ground arith

  -- A loop with fuel for the broadcasts that are too many ends, with the oldest of them forgotten
  -- and the others as they were.
  pub gc_loop-Collected :
      (n k : ℕ) (o : Overlay D)
      → o.finished_broadcast_count ≡ length o.finished_broadcasts
      → o.finished_broadcast_count < 2 ^ 32
      → o.finished_broadcast_count - o.options.max_broadcast_log ≡ k
      → k < n
      → (o' : Overlay D) × (gc_loop n o ≡ some o') × Collected o o' k
  unfolding gc_loop gc_step elem
  gc_loop-Collected zero k o e small l h = absurd (omega arith)
  gc_loop-Collected (suc n) zero o e small l h = (
    o,
    rw (is_not_over o l) refl,
    record {
      queue = refl;
      counted = e;
      removed = λ i t. absurd (cc);
      kept = λ i t. refl;
      same_options = refl;
      same_tasks = (refl, refl);
    },
  )
  gc_loop-Collected (suc n) (suc k) o e small l h = elim (List-cases o.finished_broadcasts) [
    | inl q ↦ absurd (ground (arith, e, q))
    | inr (id, rest, q) ↦
        let stepped : (gc_step o).finished_broadcasts ≡ rest = rw q refl in
        let count : (gc_step o).finished_broadcast_count ≡ sub32 o.finished_broadcast_count 1 =
          rw q refl in
        let opts : (gc_step o).options ≡ o.options = rw q refl in
        let len : length o.finished_broadcasts ≡ suc (length rest) = rw q refl in
        let (o', ends, c) =
          gc_loop-Collected n k (gc_step o) (rw (count, stepped) (omega (arith, e, len)))
            (rw count (omega arith)) (rw (count, opts) (omega (arith, l, e, len))) (omega arith) in
        (o', rw (is_over o k l) ends, Collected-suc o o' id rest k q c)
  ]
