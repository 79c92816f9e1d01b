-- ===== src/Adnl/Transfers.antt =====
-- The transfers that `process_message` of src/adnl/node/receiver.rs keeps, by their hash, and the
-- parts of messages that it puts into them. `none` is a part whose joining loop is still running.
pub mod Interleaved
mod Tests
use tiny_adnl.Prelude.{ℕ, Option, none, some, List, [], ◌∷◌, if◌then◌else◌, ◌==◌}
use tiny_adnl.Adnl.Transfer.{Transfer, Outcome, pending, complete, failed, new, add_part}

abbrev pub Transfers : Type 0
Transfers = ℕ → Option Transfer

pub record PartMessage : Type 0 where
  pub hash : ℕ
  pub total_size : ℕ
  pub offset : ℕ
  pub bytes : List ℕ

pub put_transfer : Transfers → ℕ → Option Transfer → Transfers
put_transfer ts id t i = if i == id then t else ts i

-- The transfer of this hash, or a new one.
pub current : Transfers → ℕ → ℕ → Transfer
current ts id total_size = elim (ts id) [ none ↦ new total_size | some t ↦ t ]

-- A transfer that is complete or has failed is taken out of the table.
pub kept : Transfer → Option Outcome → Option Transfer
kept t none = some t
kept t (some pending) = some t
kept t (some (complete message)) = none
kept t (some (failed error)) = none

-- The first half of `process_message`, for a part.
pub process_part : (List ℕ → ℕ) → ℕ → Transfers → PartMessage → Transfers × Option Outcome
process_part digest fuel ts m =
    let t = current ts m.hash m.total_size in
    let (t', outcome) = add_part digest m.hash fuel t m.offset m.bytes in
    (put_transfer ts m.hash (kept t' outcome), outcome)
