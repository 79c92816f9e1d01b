-- ===== src/Util/PacketsHistory/Start.antt =====
-- The histories of src/util/packets_history.rs at their start: a new receiver, a receiver after
-- `reset`, and a sender.
use mathlib.Core.Path.{◌∙◌}
use mathlib.Core.Option.{none-ne-some, some-injective}
use tiny_adnl.Prelude.Bytes.{test_bit-zero, test_bit-one}
use tiny_adnl.Prelude.{
  ℕ, zero, suc, ◌+◌, ◌/◌, ◌%◌, ◌^◌, ◌<◌, ◌≡◌, refl, ap, false, some, List, [], ◌∷◌, arith,
  if◌then◌else◌, ◌==◌, get_or, Bool-cases, Option-cases, true, Bool, inl, inr, replicate,
  get_or-replicate,
}
use tiny_adnl.Util.PacketsHistory.{
  PacketsHistory, for_recv, deliver_packet, reset, reset_bits, bump_seqno,
}
use tiny_adnl.Util.PacketsHistory.Window.{
  receiver, seen, deliver_all, AllBelow, first_seen, first_seen-congr, seen_after, last_after,
  deliver_all-first_seen,
}

seen-fresh : (t : ℕ) → seen (replicate 8 0) t ≡ false
unfolding seen
seen-fresh t = rw (get_or-replicate {A = ℕ} 8 (4 + t / 64) 0) (test_bit-zero _)

reset_word : (i : ℕ) → i < 4 → get_or reset_bits (4 + i) 0 ≡ (if i == 0 then 1 else 0)
reset_word zero h = refl
reset_word (suc zero) h = refl
reset_word (suc (suc zero)) h = refl
reset_word (suc (suc (suc zero))) h = refl
reset_word (suc (suc (suc (suc i)))) h = absurd (omega arith)

seen-reset : (t : ℕ) → t < 256 → seen reset_bits t ≡ (t == 0)
unfolding seen
seen-reset t h = rw (reset_word (t / 64) (omega arith)) (elim (Bool-cases (t / 64 == 0)) [
  | inl low ↦ rw (low, test_bit-one) (ground arith)
  | inr high ↦ rw (high, test_bit-zero) (ground arith)
])

-- A new receiver accepts a packet of the first 256 numbers exactly if it is not a repetition.
pub for_recv-first_seen :
    (ss : List ℕ)
    → AllBelow 256 ss
    → (h' : PacketsHistory) × (deliver_all for_recv ss ≡ some (first_seen (λ t. false) ss, h'))
unfolding for_recv
for_recv-first_seen ss h = (
  receiver (seen_after (replicate 8 0) ss) (last_after (replicate 8 0) 0 ss),
  rw (
    deliver_all-first_seen (replicate 8 0) 0 ss refl h,
    first_seen-congr (seen (replicate 8 0)) (λ t. false) ss h (λ t _. seen-fresh t),
  ),
)

first_answer : List Bool → Bool
first_answer [] = false
first_answer (a ∷ rest) = a

-- The first packet of a new receiver is fresh.
pub for_recv-first :
    (s : ℕ) → s < 256 → (h : PacketsHistory) × (deliver_packet for_recv s ≡ some (true, h))
unfolding deliver_all first_seen first_answer
for_recv-first s small =
    let (h', e) = for_recv-first_seen (s ∷ []) (small, tt) in
    elim (Option-cases (deliver_packet for_recv s)) [
      | inl busy ↦ absurd (none-ne-some _ (rw (deliver_all, busy) at e))
      | inr ((fresh, h), here) ↦
          let same = some-injective _ _ (rw (deliver_all, here) at e) in
          (h, here ∙ ap (λ b. some (b, h)) (ap (λ w. first_answer w.0) same))
    ]

-- `reset` starts a receiver anew, whatever it had seen, with the number 0 taken as a repetition
-- from the start.
pub reset-first_seen :
    (bits : List ℕ) (last : ℕ) (ss : List ℕ)
    → AllBelow 256 ss
    → (h h' : PacketsHistory) × (reset (receiver bits last) ≡ some h)
      × (deliver_all h ss ≡ some (first_seen (λ t. t == 0) ss, h'))
unfolding reset
reset-first_seen bits last ss h = (
  receiver reset_bits 0,
  receiver (seen_after reset_bits ss) (last_after reset_bits 0 ss),
  refl,
  rw (
    deliver_all-first_seen reset_bits 0 ss refl h,
    first_seen-congr (seen reset_bits) (λ t. t == 0) ss h seen-reset,
  ),
)

-- The numbers that a sender gives out, one after another.
pub bumps : ℕ → PacketsHistory → List ℕ
bumps zero h = []
bumps (suc n) h = let (h', s) = bump_seqno h in s ∷ bumps n h'

abbrev pub count_up : ℕ → ℕ → List ℕ
count_up zero from = []
count_up (suc n) from = (from + 1) ∷ count_up n (from + 1)

-- A sender numbers its packets one by one, each number above the last, as long as the counter
-- does not wrap.
pub bumps-count_up :
    (n : ℕ) (h : PacketsHistory) → h.seqno + n < 2 ^ 64 → bumps n h ≡ count_up n h.seqno
unfolding bumps bump_seqno
bumps-count_up zero h lt = refl
bumps-count_up (suc n) h lt =
    let e : (h.seqno + 1) % 2 ^ 64 ≡ h.seqno + 1 = omega arith in
    rw e
      (ap (◌∷◌ (h.seqno + 1)) (bumps-count_up n (record h { seqno = h.seqno + 1 }) (omega arith)))
