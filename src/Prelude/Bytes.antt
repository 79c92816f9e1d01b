-- ===== src/Prelude/Bytes.antt =====
-- Machine words as native numbers, and the single bits of a word, the lowest first.
use Prim.Native.Nat.{ℕ, ◌<◌, zero, suc, ◌+◌, ◌-◌, ◌*◌, ◌/◌, ◌%◌, ◌^◌}
use mathlib.Core.Path.{◌≡◌, refl}
use mathlib.Core.Bool.{Bool, true, false}
use mathlib.Core.List.{List, [], ◌∷◌}
use native.Mathlib.Omega.{arith}
use tiny_adnl.Prelude.Tests.{◌==◌, if◌then◌else◌}

-- `u64` addition and `u32` addition and subtraction, as a release build makes them.
abbrev pub add64 : ℕ → ℕ → ℕ
add64 a b = (a + b) % 2 ^ 64

abbrev pub mul64 : ℕ → ℕ → ℕ
mul64 a b = a * b % 2 ^ 64

abbrev pub add32 : ℕ → ℕ → ℕ
add32 a b = (a + b) % 2 ^ 32

abbrev pub sub32 : ℕ → ℕ → ℕ
sub32 a b = (a + 2 ^ 32 - b) % 2 ^ 32

-- `word & (1 << k) != 0`
unfoldable pub test_bit : ℕ → ℕ → Bool
test_bit word zero = word % 2 == 1
test_bit word (suc k) = test_bit (word / 2) k

-- `word | (1 << k)`
unfoldable pub set_bit : ℕ → ℕ → ℕ
set_bit word zero = word / 2 * 2 + 1
set_bit word (suc k) = set_bit (word / 2) k * 2 + word % 2

set_bit-half : (word k : ℕ) → (set_bit (word / 2) k * 2 + word % 2) / 2 ≡ set_bit (word / 2) k
set_bit-half word k = omega arith

-- A bit that was set reads as set, and the others are as they were.
pub test_bit-set_bit :
    (word j k : ℕ) → test_bit (set_bit word j) k ≡ (if j == k then true else test_bit word k)
unfolding test_bit set_bit
test_bit-set_bit word zero zero = ground arith
test_bit-set_bit word zero (suc k) =
    let e : (word / 2 * 2 + 1) / 2 ≡ word / 2 = omega arith in rw e (ground arith)
test_bit-set_bit word (suc j) zero = ground arith
test_bit-set_bit word (suc j) (suc k) =
    rw (set_bit-half word j) (ground (arith, test_bit-set_bit (word / 2) j k))

-- No bit of zero is set.
pub test_bit-zero : (k : ℕ) → test_bit 0 k ≡ false
unfolding test_bit
test_bit-zero zero = refl
test_bit-zero (suc k) = test_bit-zero k

pub test_bit-one : (k : ℕ) → test_bit 1 k ≡ (k == 0)
unfolding test_bit
test_bit-one zero = refl
test_bit-one (suc k) = rw (test_bit-zero k) (ground arith)

-- A sequence of bytes.
abbrev pub AllBytes : List ℕ → Type 0
AllBytes [] = Unit
AllBytes (x ∷ xs) = (x < 256) × AllBytes xs
