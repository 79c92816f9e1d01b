-- ===== src/Rldp/Cache.antt =====
-- `TransfersCache` of src/rldp/transfers_cache.rs: the map from transfer ids to transfers, and what
-- `handle_message` does with each message. A channel is the list of the parts sent into it. Other
-- tasks may change the map in the course of a call: `env` says how. Tasks
-- that are spawned act later, by `mark_done` and `clear`.
pub mod Queue
pub mod Ids
mod Tests
use mathlib.Core.List
use Prim.Native.Nat.{bit_xor}
use tiny_adnl.Prelude.Bytes.{add32}
use tiny_adnl.Prelude.{
  ℕ, zero, suc, ◌+◌, ◌*◌, Bool, true, false, Option, none, some, Result, ok, err, List, [], ◌∷◌,
  ◌++◌, ite, if◌then◌else◌, ◌==◌, ℕ_discrete, map,
}
use tiny_adnl.Rldp.Incoming.{MessagePart, Reply, complete, confirm}
use tiny_adnl.Rldp.Outgoing.{OutgoingTransferState, set_part, set_seqno_in}

abbrev pub TransferId : Type 0
TransferId = List ℕ

pub id_discrete : Discrete TransferId
id_discrete = List.List-discrete ℕ_discrete

-- The parts in the channel of an incoming transfer stand in the order in which they were sent.
pub data RldpTransfer : Type 0 where
  incoming : List MessagePart → RldpTransfer
  outgoing : OutgoingTransferState → RldpTransfer
  done : RldpTransfer

abbrev pub Transfers : Type 0
Transfers = TransferId → Option RldpTransfer

abbrev pub insert_transfer : Transfers → TransferId → RldpTransfer → Transfers
insert_transfer ts id t j = ite (id_discrete id j) (some t) (ts j)

-- What the spawned tasks do: after the transfer is received or has timed out, and later on.
abbrev pub mark_done : Transfers → TransferId → Transfers
mark_done ts id = insert_transfer ts id done

abbrev pub clear : Transfers → TransferId → Transfers
clear ts id j = ite (id_discrete id j) none (ts j)

pub data RldpMessage : Type 0 where
  message_part : TransferId → MessagePart → RldpMessage
  confirm_part : TransferId → ℕ → ℕ → RldpMessage
  complete_part : TransferId → ℕ → RldpMessage

-- The map after the call, the messages that were sent, and whether the call succeeded.
pub record Handled : Type 0 where
  pub transfers : Transfers
  pub sent : List Reply
  pub success : Bool

-- `create_answer_handler`: a new channel, unless the id is taken by now.
pub create_answer_handler : Transfers → TransferId → Transfers × Bool
create_answer_handler ts id = elim (ts id) [
  | none ↦ (insert_transfer ts id (incoming []), true)
  | some _ ↦ (ts, false)
]

-- `parts_tx.send`
pub send_part : Transfers → TransferId → MessagePart → Transfers
send_part ts id m = elim (ts id) [
  | some (incoming parts) ↦ insert_transfer ts id (incoming (parts ++ (m ∷ [])))
  | _ ↦ ts
]

module _ (sends : Reply → Bool) where
  -- The two replies; the second is not sent if the first fails.
  pub answer_blindly : Transfers → TransferId → MessagePart → Handled
  answer_blindly ts id m =
      let first = confirm id m.part m.seqno in
      let second = complete id m.part in
      if sends first
      then (if sends second
          then record { transfers = ts; sent = first ∷ second ∷ []; success = true }
          else record { transfers = ts; sent = first ∷ []; success = false })
      else record { transfers = ts; sent = []; success = false }

  -- The loop for a part, with fuel; `env` acts between the look-up and the insertion, and between
  -- an insertion that fails and the next look-up.
  pub handle_part :
      ℕ → (ℕ → Transfers → Transfers) → Transfers → TransferId → MessagePart → Option Handled
  handle_part zero env ts id m = none
  handle_part (suc fuel) env ts id m = elim (ts id) [
    | some (incoming _) ↦ some (record { transfers = send_part ts id m; sent = []; success = true })
    | some (outgoing _) ↦ some (answer_blindly ts id m)
    | some done ↦ some (answer_blindly ts id m)
    | none ↦ elim (create_answer_handler (env (2 * fuel + 1) ts) id).1 [
      | true ↦ some (record {
        transfers = send_part (create_answer_handler (env (2 * fuel + 1) ts) id).0 id m;
        sent = [];
        success = true;
      })
      | false ↦ handle_part fuel env (env (2 * fuel) (env (2 * fuel + 1) ts)) id m
    ]
  ]

  pub handle_message : ℕ → (ℕ → Transfers → Transfers) → Transfers → RldpMessage → Option Handled
  handle_message fuel env ts (message_part id m) = handle_part fuel env ts id m
  handle_message fuel env ts (confirm_part id part seqno) = some (record {
    transfers = elim (ts id) [
      | some (outgoing s) ↦
          if s.part == part then insert_transfer ts id (outgoing (set_seqno_in s seqno)) else ts
      | _ ↦ ts
    ];
    sent = [];
    success = true;
  })
  handle_message fuel env ts (complete_part id part) = some (record {
    transfers = elim (ts id) [
      | some (outgoing s) ↦ insert_transfer ts id (outgoing (set_part s (add32 part 1)))
      | _ ↦ ts
    ];
    sent = [];
    success = true;
  })

-- The id of the answer to a query.
pub negate_id : TransferId → TransferId
negate_id id = map (λ item. bit_xor item 0xff) id
