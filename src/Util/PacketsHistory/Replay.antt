-- ===== src/Util/PacketsHistory/Replay.antt =====
-- The receiving side of src/util/packets_history.rs for the numbers beyond the first half-window.
use tiny_adnl.Prelude.Bytes.{test_bit-zero}
use tiny_adnl.Prelude.{
  ℕ, suc, ◌+◌, ◌*◌, ◌/◌, ◌≤◌, ◌<◌, ◌≡◌, ◌∙◌, refl, ap, Bool, true, false, some, List, [], ◌∷◌, ◌++◌,
  arith, if◌then◌else◌, ◌==◌, get_or, length, Bool-cases, inl, inr, drop, replicate,
  get_or-append_right, get_or-replicate, length-append, length-drop, dec_lt,
}
use tiny_adnl.Util.PacketsHistory.{
  PacketsHistory, raise, publish, deliver_beyond, deliver_recv, deliver_packet,
}
use tiny_adnl.Util.PacketsHistory.Window.{
  receiver, seen, mark, length-mark, deliver_packet-receiver, deliver_all,
}

-- What a packet from beyond leaves of the words.
abbrev pub moved : List ℕ → ℕ → List ℕ
moved bits s = if s / 256 * 256 == 256 then drop 4 bits ++ replicate 4 0 else replicate 8 0

pub length-moved : (bits : List ℕ) (s : ℕ) → length bits ≡ 8 → length (moved bits s) ≡ 8
length-moved bits s size =
    ground (arith, length-append (drop 4 bits) (replicate 4 0), length-drop 4 bits)

pub deliver_packet-moved :
    (bits : List ℕ) (last s : ℕ)
    → 256 ≤ s
    → deliver_packet (receiver bits last) s ≡ some (true, receiver (moved bits s) (raise last s))
unfolding deliver_packet deliver_recv deliver_beyond publish
deliver_packet-moved bits last s h = ground arith

get_or-moved :
    (bits : List ℕ) (s i : ℕ) → length bits ≡ 8 → i < 4 → get_or (moved bits s) (4 + i) 0 ≡ 0
get_or-moved bits s i size h = ground (
  arith,
  get_or-append_right (drop 4 bits) (replicate 4 0) i (4 + i) 0 (omega (arith, length-drop 4 bits)),
  get_or-replicate {A = ℕ} 4 i 0,
  get_or-replicate {A = ℕ} 8 (4 + i) 0,
)

-- A packet from beyond clears every mark.
pub seen-moved :
    (bits : List ℕ) (s t : ℕ) → length bits ≡ 8 → t < 256 → seen (moved bits s) t ≡ false
unfolding seen
seen-moved bits s t size h = rw (get_or-moved bits s (t / 64) size (omega arith)) (test_bit-zero _)

-- A receiver answers every packet, keeps its eight words, and never lowers its number.
pub record Answers (h : PacketsHistory) (ss : List ℕ) (last : ℕ) : Type 0 where
  pub answers : List Bool
  pub bits : List ℕ
  pub top : ℕ
  pub run : deliver_all h ss ≡ some (answers, receiver bits top)
  pub each : length answers ≡ length ss
  pub size : length bits ≡ 8
  pub grows : last ≤ top

answer_one :
    (bits : List ℕ) (last s : ℕ)
    → length bits ≡ 8
    → (a : Bool) × (bits' : List ℕ) × (last' : ℕ) × (deliver_packet (receiver bits last) s
        ≡ some (a, receiver bits' last'))
      × (length bits' ≡ 8)
      × (last ≤ last')
answer_one bits last s size = elim (dec_lt s 256) [
  | yes p ↦ elim (Bool-cases (seen bits s)) [
    | inl old ↦
        (false, bits, last, deliver_packet-receiver bits last s p ∙ rw old, size, omega arith)
    | inr fresh ↦ (
      true,
      mark bits s,
      raise last s,
      deliver_packet-receiver bits last s p ∙ rw fresh,
      length-mark bits s ∙ size,
      ground arith,
    )
  ]
  | no p ↦ (
    true,
    moved bits s,
    raise last s,
    deliver_packet-moved bits last s (omega arith),
    length-moved bits s size,
    ground arith,
  )
]

-- No packet makes a receiver at rest wait or fail: whatever the numbers are, each packet gets an
-- answer, the eight words and the index at zero stay, and the number never falls.
pub deliver_all-Answers :
    (bits : List ℕ) (last : ℕ) (ss : List ℕ)
    → length bits ≡ 8
    → Answers (receiver bits last) ss last
unfolding deliver_all
deliver_all-Answers bits last [] size = record {
  answers = [];
  bits = bits;
  top = last;
  run = refl;
  each = refl;
  size = size;
  grows = omega arith;
}
deliver_all-Answers bits last (s ∷ ss) size =
    let (a, bits', last', one, size', up) = answer_one bits last s size in
    let rest = deliver_all-Answers bits' last' ss size' in
    record {
      answers = a ∷ rest.answers;
      bits = rest.bits;
      top = rest.top;
      run = ground (arith, one, rest.run);
      each = ap suc rest.each;
      size = rest.size;
      grows = omega (arith, rest.grows);
    }

-- Beyond the first 256 numbers nothing is refused: a packet is accepted each time that it comes,
-- and after it every number of the first 256 is accepted once more.
pub deliver_all-replayed :
    (bits : List ℕ) (last s t : ℕ)
    → length bits ≡ 8
    → 256 ≤ s
    → t < 256
    → (h' : PacketsHistory) × (deliver_all (receiver bits last) (s ∷ s ∷ t ∷ [])
        ≡ some (true ∷ true ∷ true ∷ [], h'))
unfolding deliver_all
deliver_all-replayed bits last s t size hs ht =
    let bits' = moved (moved bits s) s in
    let last' = raise (raise last s) s in
    (
      receiver (mark bits' t) (raise last' t),
      ground (
        arith,
        deliver_packet-moved bits last s hs,
        deliver_packet-moved (moved bits s) (raise last s) s hs,
        deliver_packet-receiver bits' last' t ht,
        seen-moved (moved bits s) s t (length-moved bits s size) ht,
      ),
    )
