-- ===== src/Overlay/Gc/Tracked.antt =====
-- The tasks of src/overlay/overlay.rs that end a broadcast: each known broadcast is with exactly one
-- of them or in the queue of the finished ones.
use mathlib.Core.Path.{subst}
use mathlib.Core.Option.{none-ne-some, some-injective}
use tiny_adnl.Prelude.{
  ℕ, zero, suc, ◌+◌, ◌^◌, ◌≤◌, ◌<◌, ◌≡◌, Option, none, some, List, [], ◌∷◌, ◌++◌, if◌then◌else◌,
  ltb, ◌==◌, length, arith, Bool-cases, List-cases, inl, inr, length-append,
}
use tiny_adnl.Overlay.Defs.{OwnedBroadcast, Overlay, put_broadcast, without}
use tiny_adnl.Overlay.Gc.{finish_broadcast, gc_step, gc_loop}

-- How often an id stands in a list.
abbrev pub occurrences : ℕ → List ℕ → ℕ
occurrences id [] = 0
occurrences id (i ∷ rest) = if i == id then 1 + occurrences id rest else occurrences id rest

abbrev pub owned_once : {D : Type 0} → Option (OwnedBroadcast D) → ℕ
owned_once none = 0
owned_once (some _) = 1

-- The queue has as many broadcasts as are counted, and each known broadcast, and no other, is once
-- with a waiting task, with a sleeping task or in the queue.
pub record TracksAll {D : Type 0} (owned : ℕ → Option (OwnedBroadcast D))
    (cleanups gc_tasks finished : List ℕ) (count : ℕ) : Type 0 where
  pub counted : count ≡ length finished
  pub once :
      (id : ℕ)
      → occurrences id cleanups + occurrences id gc_tasks + occurrences id finished
        ≡ owned_once (owned id)

abbrev pub Tracked : {D : Type 0} → Overlay D → Type 0
Tracked o =
    TracksAll o.owned_broadcasts o.cleanups o.gc_tasks o.finished_broadcasts
      o.finished_broadcast_count

occurrences-append :
    (id : ℕ) (xs ys : List ℕ) → occurrences id (xs ++ ys) ≡ occurrences id xs + occurrences id ys
occurrences-append id [] ys = omega arith
occurrences-append id (x ∷ xs) ys = ground (arith, occurrences-append id xs ys)

occurrences-without :
    (id j : ℕ) (xs : List ℕ)
    → 1 ≤ occurrences id xs
    → occurrences j (without id xs) + occurrences j (id ∷ []) ≡ occurrences j xs
unfolding without
occurrences-without id j [] h = absurd (omega arith)
occurrences-without id j (x ∷ xs) h = ground (arith, occurrences-without id j xs)

module _ {D : Type 0} (o : Overlay D) (t : Tracked o) where
  -- A new broadcast with a task that sleeps.
  pub Tracked-sleeping :
      (id : ℕ) (b : OwnedBroadcast D)
      → o.owned_broadcasts id ≡ none
      → TracksAll
          (put_broadcast o.owned_broadcasts id (some b))
          o.cleanups
          (id ∷ o.gc_tasks)
          o.finished_broadcasts
          o.finished_broadcast_count
  Tracked-sleeping id b new = record { counted = t.counted; once = λ j. ground (arith, t.once j) }

  -- A new broadcast with a task that waits.
  pub Tracked-waiting :
      (id : ℕ) (b : OwnedBroadcast D)
      → o.owned_broadcasts id ≡ none
      → TracksAll
          (put_broadcast o.owned_broadcasts id (some b))
          (id ∷ o.cleanups)
          o.gc_tasks
          o.finished_broadcasts
          o.finished_broadcast_count
  Tracked-waiting id b new = record { counted = t.counted; once = λ j. ground (arith, t.once j) }

  -- A known broadcast in another state.
  pub Tracked-changed :
      (id : ℕ) (old b : OwnedBroadcast D)
      → o.owned_broadcasts id ≡ some old
      → TracksAll
          (put_broadcast o.owned_broadcasts id (some b))
          o.cleanups
          o.gc_tasks
          o.finished_broadcasts
          o.finished_broadcast_count
  Tracked-changed id old b known = record {
    counted = t.counted;
    once = λ j. ground (arith, t.once j);
  }

  pub finish_broadcast-Tracked :
      (id : ℕ)
      → 1 ≤ occurrences id o.gc_tasks
      → o.finished_broadcast_count + 1 < 2 ^ 32
      → Tracked (finish_broadcast o id)
  unfolding finish_broadcast
  finish_broadcast-Tracked id h small = record {
    counted = omega (arith, t.counted, length-append o.finished_broadcasts (id ∷ []));
    once = λ j. omega (
      arith,
      t.once j,
      occurrences-without id j o.gc_tasks h,
      occurrences-append j o.finished_broadcasts (id ∷ []),
    );
  }

  -- A task that waited starts to sleep.
  pub Tracked-moved :
      (id : ℕ)
      → 1 ≤ occurrences id o.cleanups
      → TracksAll o.owned_broadcasts
          (without id o.cleanups)
          (id ∷ o.gc_tasks)
          o.finished_broadcasts
          o.finished_broadcast_count
  Tracked-moved id h = record {
    counted = t.counted;
    once = λ j. ground (arith, t.once j, occurrences-without id j o.cleanups h);
  }

  pub gc_step-Tracked :
      1 ≤ o.finished_broadcast_count → o.finished_broadcast_count < 2 ^ 32 → Tracked (gc_step o)
  unfolding gc_step
  gc_step-Tracked h small = elim (List-cases o.finished_broadcasts) [
    | inl q ↦ absurd (ground (arith, t.counted, q))
    | inr (id, rest, q) ↦
        rw q (record {
          counted = ground (arith, t.counted, q);
          once = λ j. ground (arith, t.once j, q);
        })
  ]

module _ {D : Type 0} where
  gc_step-small :
      (o : Overlay D)
      → 1 ≤ o.finished_broadcast_count
      → o.finished_broadcast_count < 2 ^ 32
      → (gc_step o).finished_broadcast_count < 2 ^ 32
  unfolding gc_step
  gc_step-small o h small = elim (List-cases o.finished_broadcasts) [
    | inl q ↦ rw q (omega arith)
    | inr (id, rest, q) ↦ rw q (omega arith)
  ]

  pub gc_loop-Tracked :
      (n : ℕ) (o : Overlay D) {o' : Overlay D}
      → o.finished_broadcast_count < 2 ^ 32
      → gc_loop n o ≡ some o'
      → Tracked o
      → Tracked o'
  unfolding gc_loop
  gc_loop-Tracked zero o small h t = absurd (none-ne-some _ h)
  gc_loop-Tracked (suc n) o small h t =
      elim (Bool-cases (ltb o.options.max_broadcast_log o.finished_broadcast_count)) [
        | inl over ↦
            gc_loop-Tracked n (gc_step o) (gc_step-small o (ground arith) small) (rw over at h)
              (gc_step-Tracked o t (ground arith) small)
        | inr under ↦ subst Tracked (some-injective _ _ (rw under at h)) t
      ]
