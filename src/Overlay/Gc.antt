-- ===== src/Overlay/Gc.antt =====
-- How an overlay forgets broadcasts, src/overlay/overlay.rs: the end of the task that
-- `spawn_broadcast_gc_task` starts, whose two statements are one step here, and the inner loop of
-- the task that `Overlay::new` starts.
pub mod Loop
pub mod Owned
pub mod Tracked
pub mod Reach
use tiny_adnl.Prelude.Bytes.{add32, sub32}
use tiny_adnl.Prelude.{ℕ, zero, suc, Option, none, some, [], ◌∷◌, ◌++◌, if◌then◌else◌, ltb}
use tiny_adnl.Overlay.Defs.{Overlay, put_broadcast, without}

module _ {D : Type 0} where
  unfoldable pub finish_broadcast : Overlay D → ℕ → Overlay D
  finish_broadcast o id = record o {
    gc_tasks = without id o.gc_tasks;
    finished_broadcast_count = add32 o.finished_broadcast_count 1;
    finished_broadcasts = o.finished_broadcasts ++ (id ∷ []);
  }

  -- The body of the loop.
  pub gc_step : Overlay D → Overlay D
  gc_step o = elim o.finished_broadcasts [
    | [] ↦ record o { finished_broadcast_count = sub32 o.finished_broadcast_count 1 }
    | id ∷ rest ↦ record o {
      owned_broadcasts = put_broadcast o.owned_broadcasts id none;
      finished_broadcasts = rest;
      finished_broadcast_count = sub32 o.finished_broadcast_count 1;
    }
  ]

  -- `none` is a loop that has not ended.
  pub gc_loop : ℕ → Overlay D → Option (Overlay D)
  gc_loop zero o = none
  gc_loop (suc n) o =
      let rest = gc_loop n (gc_step o) in
      if ltb o.options.max_broadcast_log o.finished_broadcast_count then rest else some o
