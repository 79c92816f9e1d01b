-- ===== src/Adnl/Transfer.antt =====
-- src/adnl/transfer.rs: the parts of one multipart ADNL message, by offset. The map is a function,
-- since the code never walks over it. The hash is a parameter, and hashes are numbers. The loop
-- that joins the parts takes fuel, and `none` means that it is still running.
pub mod Join
pub mod Parts
pub mod Order
pub mod Stuck
pub mod Short
mod Tests
use tiny_adnl.Prelude.Bytes.{add64, mul64}
use tiny_adnl.Prelude.{
  ℕ, zero, suc, ◌+◌, Bool, true, false, Option, none, some, List, [], ◌∷◌, ◌++◌, if◌then◌else◌, ltb,
  ◌==◌, length,
}

pub data TransferError : Type 0 where
  received_too_much part_missing invalid_hash : TransferError

-- `Ok(None)`, `Ok(Some(buffer))` and `Err(error)`
pub data Outcome : Type 0 where
  pending : Outcome
  complete : List ℕ → Outcome
  failed : TransferError → Outcome

pub record Transfer : Type 0 where
  pub parts : ℕ → Option (List ℕ)
  pub received_len : ℕ
  pub total_len : ℕ

pub new : ℕ → Transfer
new total_len = record { parts = λ _. none; received_len = 0; total_len = total_len }

abbrev pub store : (ℕ → Option (List ℕ)) → ℕ → List ℕ → ℕ → Option (List ℕ)
store parts offset part i = if offset == i then some part else parts i

-- The `while` loop; the inner `none` is the return with `PartMissing`.
pub join : ℕ → (ℕ → Option (List ℕ)) → ℕ → ℕ → List ℕ → Option (Option (List ℕ))
join zero parts total received buffer = none
join (suc fuel) parts total received buffer = elim (ltb received total) [
  | false ↦ some (some buffer)
  | true ↦ elim (parts received) [
    | none ↦ some none
    | some part ↦ join fuel parts total (received + length part) (buffer ++ part)
  ]
]

module _ (digest : List ℕ → ℕ) (transfer_id : ℕ) where
  -- The branch `Equal`: the parts are joined and the hash is checked.
  pub finish : ℕ → (ℕ → Option (List ℕ)) → ℕ → Option Outcome
  finish fuel parts total = elim (join fuel parts total 0 []) [
    | none ↦ none
    | some none ↦ some (failed TransferError.part_missing)
    | some (some buffer) ↦
        if digest buffer == transfer_id
        then some (complete buffer)
        else some (failed TransferError.invalid_hash)
  ]

  -- The counter goes to twice the total when it meets the total; `received` is what it was.
  pub add_part : ℕ → Transfer → ℕ → List ℕ → Transfer × Option Outcome
  add_part fuel t offset part =
      let parts = store t.parts offset part in
      elim (t.parts offset) [
        | some _ ↦ (record t { parts = parts }, some pending)
        | none ↦
            let received = add64 t.received_len (length part) in
            (
              record t {
                parts = parts;
                received_len = if received == t.total_len then mul64 t.total_len 2 else received;
              },
              if received == t.total_len
                  then finish fuel parts t.total_len
                  else if ltb t.total_len received
                  then some (failed TransferError.received_too_much)
                  else some pending,
            )
      ]
