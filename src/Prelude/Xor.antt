-- ===== src/Prelude/Xor.antt =====
-- The exclusive or of bytes.
use Prim.Native.Nat.{bit_xor}
use mathlib.Core.Path.{◌≡◌, refl, ap}
use mathlib.Core.Bool.{Bool, true, false}
use Prim.Native.Nat.{ℕ, zero, suc, ◌+◌, ◌*◌, ◌/◌, ◌%◌, ◌<◌}
use native.Mathlib.Omega.{arith}
use tiny_adnl.Prelude.Tests.{ltb, ◌==◌, ==_iff, if◌then◌else◌}

-- The result is a byte, and its lowest bit is the sum of the lowest bits.
digit_law : ℕ → ℕ → Bool
digit_law a b =
    if ltb (bit_xor a b) 256
    then bit_xor a b == bit_xor (a / 2) (b / 2) * 2 + (a + b) % 2
    else false

law_for : ℕ → ℕ → Bool
law_for a zero = true
law_for a (suc b) = let below = law_for a b in if digit_law a b then below else false

law_up_to : ℕ → Bool
law_up_to zero = true
law_up_to (suc a) = let below = law_up_to a in if law_for a 256 then below else false

law_for_lem : (a bound b : ℕ) → law_for a bound ≡ true → b < bound → digit_law a b ≡ true
unfolding law_for
law_for_lem a zero b h lt = absurd (omega arith)
law_for_lem a (suc bound) b h lt = ground (arith, law_for_lem a bound b)

law_up_to_lem : (bound a : ℕ) → law_up_to bound ≡ true → a < bound → law_for a 256 ≡ true
unfolding law_up_to
law_up_to_lem zero a h lt = absurd (omega arith)
law_up_to_lem (suc bound) a h lt = ground (arith, law_up_to_lem bound a)

bytes_follow : law_up_to 256 ≡ true
unfolding law_up_to law_for digit_law
bytes_follow = refl

digit : (a b : ℕ) → a < 256 → b < 256 → digit_law a b ≡ true
digit a b ha hb = law_for_lem a 256 b (law_up_to_lem 256 a bytes_follow ha) hb

pub bit_xor-lt : (a b : ℕ) → a < 256 → b < 256 → bit_xor a b < 256
unfolding digit_law
bit_xor-lt a b ha hb = ground (arith, digit a b ha hb)

lowest : (a b : ℕ) → a < 256 → b < 256 → bit_xor a b ≡ bit_xor (a / 2) (b / 2) * 2 + (a + b) % 2
unfolding digit_law
lowest a b ha hb =
    ground
      (arith, digit a b ha hb, ==_iff (bit_xor a b) (bit_xor (a / 2) (b / 2) * 2 + (a + b) % 2))

halves : (a b : ℕ) → a < 256 → b < 256 → bit_xor a b / 2 ≡ bit_xor (a / 2) (b / 2)
halves a b ha hb = omega (arith, lowest a b ha hb)

-- A byte with its last `k` bits taken away.
shorten : ℕ → ℕ → ℕ
shorten zero a = a
shorten (suc k) a = shorten k (a / 2)

shorten-byte : (a : ℕ) → a < 256 → shorten 8 a ≡ 0
unfolding shorten
shorten-byte a h = omega arith

swap_shortened :
    (k a b c : ℕ)
    → shorten k a ≡ 0
    → shorten k b ≡ 0
    → shorten k c ≡ 0
    → a < 256
    → b < 256
    → c < 256
    → bit_xor (bit_xor a b) c ≡ bit_xor (bit_xor a c) b
unfolding shorten
swap_shortened zero a b c ha hb hc pa pb pc = rw (ha, hb, hc) refl
swap_shortened (suc k) a b c ha hb hc pa pb pc =
    let rest =
      swap_shortened k (a / 2) (b / 2) (c / 2) ha hb hc (omega arith) (omega arith) (omega arith) in
    omega (
      arith,
      lowest (bit_xor a b) c (bit_xor-lt a b pa pb) pc,
      lowest (bit_xor a c) b (bit_xor-lt a c pa pc) pb,
      lowest a b pa pb,
      lowest a c pa pc,
      ap (λ (t : ℕ). bit_xor t (c / 2)) (halves a b pa pb),
      ap (λ (t : ℕ). bit_xor t (b / 2)) (halves a c pa pc),
      rest,
    )

undo_shortened :
    (k a b : ℕ)
    → shorten k a ≡ 0
    → shorten k b ≡ 0
    → a < 256
    → b < 256
    → bit_xor (bit_xor a b) b ≡ a
unfolding shorten
undo_shortened zero a b ha hb pa pb = rw (ha, hb) refl
undo_shortened (suc k) a b ha hb pa pb =
    let rest = undo_shortened k (a / 2) (b / 2) ha hb (omega arith) (omega arith) in
    omega (
      arith,
      lowest (bit_xor a b) b (bit_xor-lt a b pa pb) pb,
      lowest a b pa pb,
      ap (λ (t : ℕ). bit_xor t (b / 2)) (halves a b pa pb),
      rest,
    )

-- The order of two masks does not matter.
pub bit_xor_swap :
    (a b c : ℕ) → a < 256 → b < 256 → c < 256 → bit_xor (bit_xor a b) c ≡ bit_xor (bit_xor a c) b
bit_xor_swap a b c ha hb hc =
    swap_shortened 8 a b c (shorten-byte a ha) (shorten-byte b hb) (shorten-byte c hc) ha hb hc

-- A mask undoes itself.
pub bit_xor_undo : (a b : ℕ) → a < 256 → b < 256 → bit_xor (bit_xor a b) b ≡ a
bit_xor_undo a b ha hb = undo_shortened 8 a b (shorten-byte a ha) (shorten-byte b hb) ha hb
