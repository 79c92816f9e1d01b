-- ===== src/Adnl/Transfer/Stuck.antt =====
-- When `add_part` of src/adnl/transfer.rs returns, and what its answers mean.
use mathlib.Core.Path.{subst}
use tiny_adnl.Prelude.{
  ℕ, zero, suc, ◌+◌, ◌^◌, ◌≤◌, ◌<◌, ◌≡◌, ◌≢◌, ◌∙◌, refl, ap, Option, none, some, List, [], ◌++◌,
  ◌==◌, length, arith, inl, inr, ◌⊎◌, Option-cases, Bool-cases,
}
use tiny_adnl.Adnl.Transfer.{
  Transfer, Outcome, pending, complete, failed, TransferError, new, store, join, finish, add_part,
}
use tiny_adnl.Adnl.Transfer.Join.{join_ends, join-le-length}

join_stuck :
    (fuel total offset : ℕ) (parts : ℕ → Option (List ℕ)) (buffer : List ℕ)
    → parts offset ≡ some []
    → offset < total
    → join fuel parts total offset buffer ≡ none
unfolding join
join_stuck zero total offset parts buffer here lt = refl
join_stuck (suc fuel) total offset parts buffer here lt =
    let e : offset + 0 ≡ offset = omega arith in
    ground (arith, e, join_stuck fuel total offset parts (buffer ++ []) here lt)

module _ (digest : List ℕ → ℕ) (id : ℕ) where
  -- Two parts make a receiver run for ever: an empty part at the start, then a part elsewhere with
  -- as many bytes as were announced. Whatever the fuel, the second call has no answer.
  pub add_part-none :
      (first fuel total offset : ℕ) (part : List ℕ)
      → 0 < total
      → total < 2 ^ 64
      → offset ≢ 0
      → length part ≡ total
      → (add_part digest id fuel (add_part digest id first (new total) 0 []).0 offset part).1 ≡ none
  unfolding add_part new finish
  add_part-none first fuel total offset part pos small away e =
      ground (arith, join_stuck fuel total 0 (store (store (λ _. none) 0 []) offset part) [])

  -- Every answer of `add_part` to a part that is not empty.
  pub data Answered (t : Transfer) (offset : ℕ) (part : List ℕ) (out : Option Outcome)
      : Type 0 where
    repeated :
        (old : List ℕ) → t.parts offset ≡ some old → out ≡ some pending → Answered t offset part out
    more :
        t.parts offset ≡ none
        → t.received_len + length part < t.total_len
        → out ≡ some pending
        → Answered t offset part out
    too_much :
        t.parts offset ≡ none
        → t.total_len < t.received_len + length part
        → out ≡ some (failed TransferError.received_too_much)
        → Answered t offset part out
    missing :
        t.received_len + length part ≡ t.total_len
        → out ≡ some (failed TransferError.part_missing)
        → Answered t offset part out
    bad_hash :
        (buffer : List ℕ)
        → t.received_len + length part ≡ t.total_len
        → t.total_len ≤ length buffer
        → digest buffer ≢ id
        → out ≡ some (failed TransferError.invalid_hash)
        → Answered t offset part out
    joined :
        (buffer : List ℕ)
        → t.received_len + length part ≡ t.total_len
        → t.total_len ≤ length buffer
        → digest buffer ≡ id
        → out ≡ some (complete buffer)
        → Answered t offset part out

  finish-Answered :
      (fuel : ℕ) (t : Transfer) (offset : ℕ) (part : List ℕ)
      → t.received_len + length part ≡ t.total_len
      → ((i : ℕ) → store t.parts offset part i ≢ some [])
      → t.total_len < fuel
      → Answered t offset part (finish digest id fuel (store t.parts offset part) t.total_len)
  unfolding finish
  finish-Answered fuel t offset part e solid enough = elim (Option-cases joined_up) [
    | inl running ↦
        absurd
          (join_ends fuel t.total_len 0 (store t.parts offset part) [] solid (omega arith) running)
    | inr (o, done) ↦ elim (Option-cases o) [
      | inl gap ↦ missing e (ground arith)
      | inr (buffer, whole) ↦
          let le : t.total_len ≤ length buffer =
            join-le-length fuel t.total_len 0 (store t.parts offset part) [] {out = buffer} refl
              (done ∙ ap some whole) in
          elim (Bool-cases (digest buffer == id)) [
            | inl ok ↦ joined buffer e le (ground arith) (ground arith)
            | inr bad ↦ bad_hash buffer e le (ground arith) (ground arith)
          ]
    ]
  ]
    where
      joined_up : Option (Option (List ℕ))
      joined_up = join fuel (store t.parts offset part) t.total_len 0 []

  solid_store :
      (parts : ℕ → Option (List ℕ)) (offset : ℕ) (part : List ℕ)
      → ((i : ℕ) → parts i ≢ some [])
      → part ≢ []
      → (i : ℕ) → store parts offset part i ≢ some []
  solid_store parts offset part solid p i = ground (arith, solid i)

  -- With no empty part stored, `add_part` always has an answer, and the answer is one of six: a
  -- repetition, a part on the way, too many bytes, a gap, a wrong hash, or a message with the
  -- announced hash and no fewer bytes than announced.
  pub add_part-Answered :
      (fuel : ℕ) (t : Transfer) (offset : ℕ) (part : List ℕ)
      → ((i : ℕ) → t.parts i ≢ some [])
      → part ≢ []
      → t.received_len + length part < 2 ^ 64
      → t.total_len < fuel
      → Answered t offset part (add_part digest id fuel t offset part).1
  unfolding add_part
  add_part-Answered fuel t offset part solid p small enough = elim (Option-cases (t.parts offset)) [
    | inr (old, known) ↦ repeated old known (ground arith)
    | inl free ↦ elim (cmp (t.received_len + length part) t.total_len) [
      | inl less ↦ more free less (ground arith)
      | inr (inl e) ↦
          subst (Answered t offset part) (ground arith)
            (finish-Answered fuel t offset part e (solid_store t.parts offset part solid p) enough)
      | inr (inr greater) ↦ too_much free greater (ground arith)
    ]
  ]
    where
      cmp : (a b : ℕ) → (a < b) ⊎ ((a ≡ b) ⊎ (b < a))
      cmp a b = grind arith
