-- ===== src/Dht/Buckets/Scan.antt =====
-- The loop of `find` in src/dht/buckets.rs over the bits of one byte.
use Prim.Native.Nat.{bit_xor}
use tiny_adnl.Prelude.Bytes.{AllBytes}
use tiny_adnl.Prelude.{
  ℕ, zero, suc, ◌+◌, ◌*◌, ◌/◌, ◌%◌, ◌^◌, ◌≤◌, ◌<◌, ◌≡◌, ◌∙◌, ap, refl, Bool, true, false, List, [],
  ◌∷◌, ◌++◌, if◌then◌else◌, ◌==◌, ltb, length, arith, Bool-cases, inl, inr, ◌&&◌,
}
use tiny_adnl.Dht.Buckets.{leading_zeros, scan, visited_from}

-- The places of the `n` highest ones among the last `n` bits of a byte, the highest bit first.
pub ones : ℕ → ℕ → ℕ → List ℕ
ones zero distance byte = []
ones (suc n) distance byte =
    let rest = ones n (distance + 1) byte in if byte / 2 ^ n % 2 == 1 then distance ∷ rest else rest

same_list : List ℕ → List ℕ → Bool
same_list [] [] = true
same_list (x ∷ xs) (y ∷ ys) = x == y && same_list xs ys
same_list _ _ = false

same_list_sound : (xs ys : List ℕ) → same_list xs ys ≡ true → xs ≡ ys
unfolding same_list
same_list_sound [] [] h = refl
same_list_sound [] (y ∷ ys) h = cc
same_list_sound (x ∷ xs) [] h = cc
same_list_sound (x ∷ xs) (y ∷ ys) h = ground (arith, same_list_sound xs ys)

-- Each byte below the bound, at byte `i` of the key.
scans_right : ℕ → ℕ → Bool
scans_right i zero = true
scans_right i (suc byte) =
    let rest = scans_right i byte in
    if same_list (scan 8 (i * 8 % 256) byte) (ones 8 (i * 8) byte) then rest else false

keys_right : ℕ → Bool
keys_right zero = true
keys_right (suc i) = let rest = keys_right i in if scans_right i 256 then rest else false

scans_right_sound :
    (i bound byte : ℕ)
    → scans_right i bound ≡ true
    → byte < bound
    → scan 8 (i * 8 % 256) byte ≡ ones 8 (i * 8) byte
unfolding scans_right
scans_right_sound i zero byte h lt = absurd (omega arith)
scans_right_sound i (suc bound) byte h lt = ground (
  arith,
  scans_right_sound i bound byte,
  same_list_sound (scan 8 (i * 8 % 256) bound) (ones 8 (i * 8) bound),
)

keys_right_sound : (bound i : ℕ) → keys_right bound ≡ true → i < bound → scans_right i 256 ≡ true
unfolding keys_right
keys_right_sound zero i h lt = absurd (omega arith)
keys_right_sound (suc bound) i h lt = ground (arith, keys_right_sound bound i)

table : keys_right 32 ≡ true
unfolding keys_right scans_right same_list scan ones leading_zeros
table = refl

-- The lowest `n` bits of the bytes differ where the exclusive or has a one.
agree : ℕ → ℕ → ℕ → Bool
agree zero a b = ltb (bit_xor a b) 256
agree (suc n) a b =
    let rest = agree n a b in
    if a / 2 ^ n % 2 == b / 2 ^ n % 2
    then (if bit_xor a b / 2 ^ n % 2 == 1 then false else rest)
    else (if bit_xor a b / 2 ^ n % 2 == 1 then rest else false)

row_agrees : ℕ → ℕ → Bool
row_agrees a zero = true
row_agrees a (suc b) = let rest = row_agrees a b in if agree 8 a b then rest else false

rows_agree : ℕ → Bool
rows_agree zero = true
rows_agree (suc a) = let rest = rows_agree a in if row_agrees a 256 then rest else false

row_agrees_sound : (a bound b : ℕ) → row_agrees a bound ≡ true → b < bound → agree 8 a b ≡ true
unfolding row_agrees
row_agrees_sound a zero b h lt = absurd (omega arith)
row_agrees_sound a (suc bound) b h lt = ground (arith, row_agrees_sound a bound b)

rows_agree_sound : (bound a : ℕ) → rows_agree bound ≡ true → a < bound → row_agrees a 256 ≡ true
unfolding rows_agree
rows_agree_sound zero a h lt = absurd (omega arith)
rows_agree_sound (suc bound) a h lt = ground (arith, rows_agree_sound bound a)

xor_table : rows_agree 256 ≡ true
unfolding rows_agree row_agrees agree
xor_table = refl

-- The places in which the lowest `n` bits of two bytes differ, the highest bit first.
pub differing_bits : ℕ → ℕ → ℕ → ℕ → List ℕ
differing_bits zero distance a b = []
differing_bits (suc n) distance a b =
    let rest = differing_bits n (distance + 1) a b in
    if a / 2 ^ n % 2 == b / 2 ^ n % 2 then rest else distance ∷ rest

-- The places in which two keys differ, from byte `i` on.
pub differing : ℕ → List ℕ → List ℕ → List ℕ
differing i (a ∷ xs) (b ∷ ys) = differing_bits 8 (i * 8) a b ++ differing (i + 1) xs ys
differing i _ _ = []

ones-differing_bits :
    (n distance a b : ℕ)
    → agree n a b ≡ true
    → (ones n distance (bit_xor a b) ≡ differing_bits n distance a b) × (bit_xor a b < 256)
unfolding agree ones differing_bits
ones-differing_bits zero distance a b h = (refl, ground arith)
ones-differing_bits (suc n) distance a b h = elim (Bool-cases (a / 2 ^ n % 2 == b / 2 ^ n % 2)) [
  | inl same ↦ elim (Bool-cases (bit_xor a b / 2 ^ n % 2 == 1)) [
    | inl one ↦ absurd (ground arith)
    | inr none_there ↦
        let rest = ones-differing_bits n (distance + 1) a b (ground arith) in
        rw (same, none_there) rest
  ]
  | inr other ↦ elim (Bool-cases (bit_xor a b / 2 ^ n % 2 == 1)) [
    | inl one ↦
        let rest = ones-differing_bits n (distance + 1) a b (ground arith) in
        rw (other, one) (ap (◌∷◌ distance) rest.0, rest.1)
    | inr none_there ↦ absurd (ground arith)
  ]
]

scan-differing_bits :
    (i a b : ℕ)
    → i < 32
    → a < 256
    → b < 256
    → scan 8 (i * 8 % 256) (bit_xor a b) ≡ differing_bits 8 (i * 8) a b
scan-differing_bits i a b hi ha hb =
    let e =
      ones-differing_bits 8 (i * 8) a b
        (row_agrees_sound a 256 b (rows_agree_sound 256 a xor_table ha) hb) in
    scans_right_sound i 256 (bit_xor a b) (keys_right_sound 32 i table hi) e.1 ∙ e.0

-- A search visits, for keys of at most 32 bytes, exactly the buckets whose number is a place in
-- which the two keys differ, each once and in ascending order.
pub visited_from-differing :
    (i : ℕ) (key1 key2 : List ℕ)
    → i + length key1 ≤ 32
    → AllBytes key1
    → AllBytes key2
    → visited_from i key1 key2 ≡ differing i key1 key2
unfolding visited_from differing
visited_from-differing i [] key2 h h1 h2 = refl
visited_from-differing i (a ∷ xs) [] h h1 h2 = refl
visited_from-differing i (a ∷ xs) (b ∷ ys) h h1 h2 =
    rw
      (
        scan-differing_bits i a b (omega arith) h1.0 h2.0,
        visited_from-differing (i + 1) xs ys (omega arith) h1.1 h2.1,
      )
      refl
