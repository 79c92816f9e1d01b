-- ===== src/Util/PacketsHistory/Window.antt =====
-- The receiving side of src/util/packets_history.rs for the numbers of the first half-window,
-- against the set of the numbers seen so far.
use tiny_adnl.Prelude.Bytes.{test_bit, set_bit, test_bit-set_bit}
use tiny_adnl.Prelude.{
  ℕ, ◌+◌, ◌/◌, ◌%◌, ◌<◌, ◌≡◌, ◌∙◌, refl, ap, Bool, true, false, not, Option, none, some, List, [],
  ◌∷◌, arith, if◌then◌else◌, ◌==◌, get_or, set, length, length-set, get_or-set_self, get_or-set_ne,
  Bool-cases, inl, inr, ℕ_discrete,
}
use tiny_adnl.Util.PacketsHistory.{
  PacketsHistory, raise, publish, deliver_in_window, deliver_recv, deliver_packet,
}

-- A receiver at rest: eight words, and the index at its start.
abbrev pub receiver : List ℕ → ℕ → PacketsHistory
receiver bits last = record { mask = some (record { index = 0; bits = bits }); seqno = last }

-- The bit that stands for a number of the first half-window.
unfoldable pub seen : List ℕ → ℕ → Bool
seen bits seqno = test_bit (get_or bits (4 + seqno / 64) 0) (seqno % 64)

-- The words after the number is marked.
unfoldable pub mark : List ℕ → ℕ → List ℕ
mark bits seqno = set bits (4 + seqno / 64) (set_bit (get_or bits (4 + seqno / 64) 0) (seqno % 64))

pub length-mark : (bits : List ℕ) (seqno : ℕ) → length (mark bits seqno) ≡ length bits
unfolding mark
length-mark bits seqno = length-set bits _ _

pub seen-mark :
    (bits : List ℕ) (s t : ℕ)
    → length bits ≡ 8
    → s < 256
    → t < 256
    → seen (mark bits s) t ≡ (if s == t then true else seen bits t)
unfolding seen mark
seen-mark bits s t size hs ht = elim (ℕ_discrete (s / 64) (t / 64)) [
  | yes e ↦
      rw (← e, get_or-set_self bits (4 + s / 64) _ 0 (omega arith), test_bit-set_bit) (ground arith)
  | no ne ↦ rw (get_or-set_ne bits (4 + s / 64) (4 + t / 64) _ 0 (omega arith)) (ground arith)
]

-- One packet of the first half-window.
pub deliver_packet-receiver :
    (bits : List ℕ) (last s : ℕ)
    → s < 256
    → deliver_packet (receiver bits last) s
      ≡ some (
          if seen bits s
          then (false, receiver bits last)
          else (true, receiver (mark bits s) (raise last s)))
unfolding deliver_packet deliver_recv deliver_in_window publish seen mark
deliver_packet-receiver bits last s h =
    let e : s % 256 ≡ s = omega arith in let z : s / 256 ≡ 0 = omega arith in ground arith

-- Packets one after another, each with the answer that it got.
unfoldable pub deliver_all : PacketsHistory → List ℕ → Option (List Bool × PacketsHistory)
deliver_all h [] = some ([], h)
deliver_all h (s ∷ rest) = elim (deliver_packet h s) [
  | none ↦ none
  | some (fresh, h') ↦ elim (deliver_all h' rest) [
    | none ↦ none
    | some (answers, end) ↦ some (fresh ∷ answers, end)
  ]
]

-- A packet is fresh if it is not among those before it.
unfoldable pub first_seen : (ℕ → Bool) → List ℕ → List Bool
first_seen old [] = []
first_seen old (s ∷ rest) = not (old s) ∷ first_seen (λ t. if s == t then true else old t) rest

abbrev pub AllBelow : ℕ → List ℕ → Type 0
AllBelow n [] = Unit
AllBelow n (s ∷ rest) = (s < n) × AllBelow n rest

-- What has been seen after the packets.
abbrev pub seen_after : List ℕ → List ℕ → List ℕ
seen_after bits [] = bits
seen_after bits (s ∷ rest) = seen_after (if seen bits s then bits else mark bits s) rest

abbrev pub last_after : List ℕ → ℕ → List ℕ → ℕ
last_after bits last [] = last
last_after bits last (s ∷ rest) =
    last_after (if seen bits s then bits else mark bits s)
      (if seen bits s then last else raise last s) rest

pub first_seen-congr :
    (f g : ℕ → Bool) (ss : List ℕ)
    → AllBelow 256 ss
    → ((t : ℕ) → t < 256 → f t ≡ g t)
    → first_seen f ss ≡ first_seen g ss
unfolding first_seen
first_seen-congr f g [] h e = refl
first_seen-congr f g (s ∷ ss) h e = rw (e s h.0) (
    ap (◌∷◌ (not (g s))) (
      first_seen-congr (λ t. if s == t then true else f t) (λ t. if s == t then true else g t) ss
        h.1 (λ t ht. rw (e t ht))))

seen_again :
    (bits : List ℕ) (s t : ℕ)
    → seen bits s ≡ true
    → seen bits t ≡ (if s == t then true else seen bits t)
seen_again bits s t old = ground arith

-- The window of the first 256 numbers is the set of the numbers delivered: a packet is accepted
-- exactly if it was not seen before, over any sequence of such packets.
pub deliver_all-first_seen :
    (bits : List ℕ) (last : ℕ) (ss : List ℕ)
    → length bits ≡ 8
    → AllBelow 256 ss
    → deliver_all (receiver bits last) ss
      ≡ some (first_seen (seen bits) ss, receiver (seen_after bits ss) (last_after bits last ss))
unfolding deliver_all first_seen
deliver_all-first_seen bits last [] size h = refl
deliver_all-first_seen bits last (s ∷ ss) size h = elim (Bool-cases (seen bits s)) [
  | inl old ↦ ground (
    arith,
    deliver_packet-receiver bits last s h.0,
    deliver_all-first_seen bits last ss size h.1,
    first_seen-congr (seen bits) (λ t. if s == t then true else seen bits t) ss h.1
        (λ t _. seen_again bits s t old),
  )
  | inr fresh ↦ ground (
    arith,
    deliver_packet-receiver bits last s h.0,
    deliver_all-first_seen (mark bits s) (raise last s) ss (length-mark bits s ∙ size) h.1,
    first_seen-congr (seen (mark bits s)) (λ t. if s == t then true else seen bits t) ss h.1
        (λ t ht. seen-mark bits s t size h.0 ht),
  )
]
