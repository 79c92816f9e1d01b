-- ===== src/Util/PacketsHistory.antt =====
-- src/util/packets_history.rs: the sequence numbers of one direction of a channel, with the
-- window of 512 bits that a receiver keeps. An atomic operation is a read or a write of the
-- record; a thread that waits for another to leave `IN_TRANSIT` is the result `none`.
pub mod Window
pub mod Replay
pub mod Start
mod Tests
use Prim.Native.Nat.{bit_or}
use tiny_adnl.Prelude.Bytes.{add64, test_bit, set_bit}
use tiny_adnl.Prelude.{
  ℕ, ◌+◌, ◌-◌, ◌*◌, ◌/◌, ◌%◌, ◌^◌, Bool, true, false, Option, none, some, List, [], ◌∷◌, ◌++◌,
  if◌then◌else◌, ltb, ◌==◌, get_or, set, drop, replicate,
}

abbrev pub history_bits : ℕ
history_bits = 512

abbrev pub history_size : ℕ
history_size = history_bits / 64

abbrev pub index_mask : ℕ
index_mask = history_bits / 2 - 1

abbrev pub in_transit : ℕ
in_transit = 0xffff_ffff_ffff_ffff

-- `x & INDEX_MASK` and `x & !INDEX_MASK`
abbrev pub masked : ℕ → ℕ
masked x = x % 256

abbrev pub normalized : ℕ → ℕ
normalized x = x / 256 * 256

pub record HistoryBits : Type 0 where
  pub index : ℕ
  pub bits : List ℕ

pub record PacketsHistory : Type 0 where
  pub mask : Option HistoryBits
  pub seqno : ℕ

pub for_send : PacketsHistory
for_send = record { mask = none; seqno = 0 }

unfoldable pub for_recv : PacketsHistory
for_recv = record { mask = some (record { index = 0; bits = replicate history_size 0 }); seqno = 0 }

-- The loop over `0..HISTORY_SIZE`: the middle word is one, the others are zero.
abbrev pub reset_bits : List ℕ
reset_bits = 0 ∷ 0 ∷ 0 ∷ 0 ∷ 1 ∷ 0 ∷ 0 ∷ 0 ∷ []

pub reset : PacketsHistory → Option PacketsHistory
reset h = elim h.mask [
  | none ↦ some (record h { seqno = 0 })
  | some m ↦
      if m.index == in_transit
      then none
      else some (record { mask = some (record { index = 0; bits = reset_bits }); seqno = 0 })
]

-- The new number is also the result.
unfoldable pub bump_seqno : PacketsHistory → PacketsHistory × ℕ
bump_seqno h = (record h { seqno = add64 h.seqno 1 }, add64 h.seqno 1)

-- `fetch_max` by hand, of both kinds of history
abbrev pub raise : ℕ → ℕ → ℕ
raise last seqno = if ltb last seqno then seqno else last

-- The end of the loop body: the number, and the index that replaces `IN_TRANSIT`.
unfoldable pub publish : HistoryBits → ℕ → List ℕ → ℕ → ℕ → HistoryBits × ℕ
publish m next_index bits last seqno = (
  record { index = bit_or next_index (normalized (masked m.index + 1)); bits = bits },
  raise last seqno,
)

-- `Some(mask_offset)`: the number lies in one of the two halves of the window.
unfoldable pub deliver_in_window : HistoryBits → ℕ → ℕ → ℕ → Bool × HistoryBits × ℕ
deliver_in_window m half last seqno =
    let offset = half + masked seqno / 64 in
    let word = get_or m.bits offset 0 in
    let bit = masked seqno % 64 in
    if test_bit word bit
    then (false, m, last)
    else (let (m', last') = publish m m.index (set m.bits offset (set_bit word bit)) last seqno in
        (true, m', last'))

-- `None`: the number lies beyond the window, which moves by a half or is cleared.
pub deliver_beyond : HistoryBits → ℕ → ℕ → Bool × HistoryBits × ℕ
deliver_beyond m last seqno =
    let bits : List ℕ =
      if add64 (add64 (normalized m.index) index_mask) 1 == normalized seqno
      then drop (history_size / 2) m.bits ++ replicate (history_size / 2) 0
      else replicate history_size 0 in
    let (m', last') = publish m (normalized m.index) bits last seqno in (true, m', last')

unfoldable pub deliver_recv : HistoryBits → ℕ → ℕ → Option (Bool × HistoryBits × ℕ)
deliver_recv m last seqno =
    if m.index == in_transit
    then none
    else if ltb (add64 (add64 (normalized seqno) index_mask) 1) (normalized m.index)
    then some (false, m, last)
    else if ltb (normalized seqno) (normalized m.index)
    then some (deliver_in_window m 0 last seqno)
    else if normalized seqno == normalized m.index
    then some (deliver_in_window m (history_size / 2) last seqno)
    else some (deliver_beyond m last seqno)

unfoldable pub deliver_packet : PacketsHistory → ℕ → Option (Bool × PacketsHistory)
deliver_packet h seqno = elim h.mask [
  | none ↦ some (true, record h { seqno = raise h.seqno seqno })
  | some m ↦ elim (deliver_recv m h.seqno seqno) [
    | none ↦ none
    | some (fresh, m', last) ↦ some (fresh, record { mask = some m'; seqno = last })
  ]
]
