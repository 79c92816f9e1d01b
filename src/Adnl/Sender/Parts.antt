-- ===== src/Adnl/Sender/Parts.antt =====
-- How `send_message` of src/adnl/node/sender.rs cuts a serialized message that is too long for one
-- packet. A part is its offset and its bytes. The loop takes fuel, one round for each part.
pub mod Arrive
pub mod Lost
mod Tests
use tiny_adnl.Prelude.{
  ℕ, zero, suc, ◌+◌, ◌-◌, ◌%◌, ◌^◌, Option, none, some, List, [], ◌∷◌, if◌then◌else◌, ltb, length,
  min, take, drop,
}

abbrev pub max_adnl_message_size : ℕ
max_adnl_message_size = 1024

abbrev pub msg_part_prefix_size : ℕ
msg_part_prefix_size = 40

-- The part, and the next offset: `len` is the end of the part, and it is added to the offset.
pub build_part_message : List ℕ → ℕ → ℕ → (ℕ × List ℕ) × ℕ
build_part_message bytes max_size offset =
    let len = min (length bytes) (offset + max_size) in
    (
      (offset % 2 ^ 32, if ltb offset len then take (len - offset) (drop offset bytes) else []),
      offset + len,
    )

-- `while offset < data.len()`
pub part_loop : ℕ → List ℕ → ℕ → List (ℕ × List ℕ)
part_loop zero bytes offset = []
part_loop (suc fuel) bytes offset =
    let (part, next) = build_part_message bytes max_adnl_message_size offset in
    let rest = part_loop fuel bytes next in if ltb offset (length bytes) then part ∷ rest else []

-- With an additional message of this size, the first part goes with it and is smaller.
unfoldable pub split_parts : ℕ → List ℕ → Option ℕ → List (ℕ × List ℕ)
split_parts fuel bytes none = part_loop fuel bytes 0
split_parts fuel bytes (some additional_size) =
    let (part, next) =
      build_part_message bytes (max_adnl_message_size - msg_part_prefix_size - additional_size) 0 in
    part ∷ part_loop fuel bytes next
