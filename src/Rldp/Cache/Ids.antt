-- ===== src/Rldp/Cache/Ids.antt =====
-- The two ids of one query, src/rldp/transfers_cache.rs.
use Prim.Native.Nat.{bit_xor}
use tiny_adnl.Prelude.Bytes.{AllBytes}
use tiny_adnl.Prelude.{
  ℕ, zero, suc, ◌-◌, ◌<◌, false, if◌then◌else◌, ◌≡◌, ◌≢◌, refl, Bool, true, List, [], ◌∷◌, ◌==◌,
  arith, ==_iff,
}
use tiny_adnl.Rldp.Cache.{TransferId, negate_id}

-- The mask flips each byte below `n`.
flips : ℕ → Bool
flips zero = true
flips (suc byte) = if bit_xor byte 0xff == 255 - byte then flips byte else false

flipped : (bound byte : ℕ) → flips bound ≡ true → byte < bound → bit_xor byte 0xff ≡ 255 - byte
unfolding flips
flipped zero byte all small = absurd (omega arith)
flipped (suc bound) byte all small =
    ground (arith, flipped bound byte, ==_iff (bit_xor bound 0xff) (255 - bound))

bytes_flip : flips 256 ≡ true
unfolding flips
bytes_flip = refl

flip : (x : ℕ) → x < 256 → bit_xor x 0xff ≡ 255 - x
flip x h = flipped 256 x bytes_flip h

cons_lem : {x y : ℕ} {xs ys : List ℕ} → x ≡ y → xs ≡ ys → x ∷ xs ≡ y ∷ ys
cons_lem p q = cc

head_lem : {x y : ℕ} {xs ys : List ℕ} → x ∷ xs ≡ y ∷ ys → x ≡ y
head_lem p = cc

involutive : (id : List ℕ) → AllBytes id → negate_id (negate_id id) ≡ id
unfolding negate_id
involutive [] h = refl
involutive (x ∷ xs) h =
    rw (flip x h.0, flip (255 - x) (omega arith)) (cons_lem (omega arith) (involutive xs h.1))

-- The query and its answer have two different ids, and each is the other's negation.
pub negate_id-negate_id :
    (x : ℕ) (rest : TransferId)
    → AllBytes (x ∷ rest)
    → (negate_id (negate_id (x ∷ rest)) ≡ x ∷ rest) × (negate_id (x ∷ rest) ≢ x ∷ rest)
unfolding negate_id
negate_id-negate_id x rest h = (involutive (x ∷ rest) h, λ e. omega (arith, flip x h.0, head_lem e))
