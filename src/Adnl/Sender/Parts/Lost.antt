-- ===== src/Adnl/Sender/Parts/Lost.antt =====
-- Longer messages: the loop of src/adnl/node/sender.rs adds the end of a part to its offset, so the
-- parts leave bytes out, and the receiver never has them all.
use tiny_adnl.Prelude.{
  ℕ, zero, suc, ◌+◌, ◌-◌, ◌^◌, ◌≤◌, ◌<◌, ◌≡◌, ◌∙◌, ap, sym, Option, none, some, List, ◌∷◌, length,
  drop, min, replicate, arith, length-take, length-drop, dec_lt,
}
use tiny_adnl.Adnl.Transfer.Short.{AllFrom, add_parts-pending}
use tiny_adnl.Adnl.Transfer.{new, pending}
use tiny_adnl.Adnl.Transfer.Parts.{Part, part_bytes}
use tiny_adnl.Adnl.Transfer.Order.{add_parts}
use tiny_adnl.Adnl.Sender.Parts.{build_part_message, part_loop, split_parts}
use tiny_adnl.Adnl.Sender.Parts.Arrive.{first_size, part_loop-suc, part_loop_end}

part_size :
    (bytes : List ℕ) (m offset : ℕ)
    → (length (build_part_message bytes m offset).0.1 ≡ min (length bytes) (offset + m) - offset)
      × ((build_part_message bytes m offset).1 ≡ offset + min (length bytes) (offset + m))
unfolding build_part_message
part_size bytes m offset = elim (dec_lt offset (min (length bytes) (offset + m))) [
  | yes p ↦
      let l = length-take (min (length bytes) (offset + m) - offset) (drop offset bytes) in
      let d = length-drop offset bytes in ground (arith, l, d)
  | no p ↦ ground arith
]

-- From an offset on, the parts have no more bytes than there are.
loop_bytes :
    (fuel : ℕ) (bytes : List ℕ) (offset : ℕ)
    → part_bytes (part_loop fuel bytes offset) ≤ length bytes - offset
unfolding part_loop
loop_bytes zero bytes offset = omega arith
loop_bytes (suc fuel) bytes offset =
    let size = part_size bytes 1024 offset in
    let rest = loop_bytes fuel bytes (build_part_message bytes 1024 offset).1 in
    ground (arith, size.0, size.1, rest)

first_bytes :
    (fuel : ℕ) (bytes : List ℕ) (m : ℕ)
    → 0 < m
    → m + 1024 < length bytes
    → length (build_part_message bytes m 0).0.1
        + part_bytes (part_loop fuel bytes (build_part_message bytes m 0).1)
      < length bytes
unfolding part_loop
first_bytes zero bytes m h long = omega (arith, part_size bytes m 0)
first_bytes (suc fuel) bytes m h long =
    let first = part_size bytes m 0 in
    let at = (build_part_message bytes m 0).1 in
    let size = part_size bytes 1024 at in
    let rest = loop_bytes fuel bytes (build_part_message bytes 1024 at).1 in
    ground (arith, first.0, first.1, size.0, size.1, rest)

-- A message that needs more than the first part and one more is never sent whole, however long the
-- loop runs.
pub split_parts_bytes :
    (fuel : ℕ) (bytes : List ℕ) (additional : Option ℕ)
    → 0 < first_size additional
    → first_size additional + 1024 < length bytes
    → part_bytes (split_parts fuel bytes additional) < length bytes
unfolding split_parts
split_parts_bytes zero bytes none h long = unfold part_loop in omega arith
split_parts_bytes (suc fuel) bytes none h long =
    let e = part_loop-suc fuel bytes 0 (omega arith) in rw e (first_bytes fuel bytes 1024 h long)
split_parts_bytes fuel bytes (some additional) h long =
    first_bytes fuel bytes (984 - additional) h long

-- Each part moves the offset, so the loop ends after at most as many rounds as there are bytes.
pub part_loop_enough :
    (fuel more : ℕ) (bytes : List ℕ) (offset : ℕ)
    → length bytes ≤ offset + fuel
    → part_loop (more + fuel) bytes offset ≡ part_loop fuel bytes offset
part_loop_enough zero more bytes offset h =
    part_loop_end (more + 0) bytes offset (omega arith)
    ∙ sym (part_loop_end 0 bytes offset (omega arith))
part_loop_enough (suc fuel) more bytes offset h = elim (dec_lt offset (length bytes)) [
  | no p ↦
      part_loop_end (more + suc fuel) bytes offset (omega arith)
      ∙ sym (part_loop_end (suc fuel) bytes offset (omega arith))
  | yes p ↦
      let part = build_part_message bytes 1024 offset in
      let e : more + suc fuel ≡ suc (more + fuel) = omega arith in
      let size = part_size bytes 1024 offset in
      ap (λ f. part_loop f bytes offset) e
      ∙ part_loop-suc (more + fuel) bytes offset p
      ∙ ap (λ l. part.0 ∷ l) (part_loop_enough fuel more bytes part.1 (omega (arith, size.1)))
      ∙ sym (part_loop-suc fuel bytes offset p)
]

-- Of a message of fewer than 2^32 bytes that needs more than the first part and one more, with room
-- for bytes in the first part, each part is answered with nothing, however often and in whatever
-- order the parts come: the message is never put together.
pub split_parts-pending :
    (digest : List ℕ → ℕ) (id send_fuel fuel : ℕ) (bytes : List ℕ) (additional : Option ℕ)
    (order : List Part)
    → 0 < first_size additional
    → first_size additional + 1024 < length bytes
    → length bytes < 2 ^ 32
    → AllFrom (split_parts send_fuel bytes additional) order
    → add_parts digest id fuel (new (length bytes)) order ≡ replicate (length order) (some pending)
split_parts-pending digest id send_fuel fuel bytes additional order h long small all =
    add_parts-pending digest id fuel (length bytes) (split_parts send_fuel bytes additional) order
      (split_parts_bytes send_fuel bytes additional h long) (omega (arith, small)) all
