-- ===== src/Adnl/Sender/Parts/Arrive.antt =====
-- The parts that src/adnl/node/sender.rs sends of a message that fits two packets, received by
-- src/adnl/transfer.rs.
use mathlib.Core.List.{Permᴰ}
use tiny_adnl.Prelude.{
  ℕ, zero, suc, ltb→lt, ◌+◌, ◌-◌, ◌^◌, ◌≤◌, ◌<◌, ◌≡◌, ◌∙◌, refl, ap, sym, Option, none, some, List,
  [], ◌∷◌, ◌++◌, length, take, drop, min, replicate, ltb, if◌then◌else◌, arith, length-take,
  length-drop, take-append-drop, take-all, Bool-cases, inl, inr, dec_lt,
}
use mathlib.Core.List.{append-nil}
use mathlib.Core.Path.{subst}
use tiny_adnl.Adnl.Transfer.{new, pending, complete}
use tiny_adnl.Adnl.Transfer.Join.{concat, size, length-concat}
use tiny_adnl.Adnl.Transfer.Parts.{Part, cut, Solid}
use tiny_adnl.Adnl.Transfer.Order.{add_parts, add_parts-complete}
use tiny_adnl.Adnl.Sender.Parts.{build_part_message, part_loop, split_parts}

-- The size of the first part.
abbrev pub first_size : Option ℕ → ℕ
first_size none = 1024
first_size (some additional_size) = 984 - additional_size

-- Two chunks, or one.
abbrev pub chunks : List ℕ → ℕ → List (List ℕ)
chunks bytes m = if ltb m (length bytes) then take m bytes ∷ drop m bytes ∷ [] else bytes ∷ []

chunks-concat : (bytes : List ℕ) (m : ℕ) → concat (chunks bytes m) ≡ bytes
chunks-concat bytes m = elim (Bool-cases (ltb m (length bytes))) [
  | inl two ↦ rw (two, append-nil (drop m bytes)) (take-append-drop m bytes)
  | inr one ↦ rw one (append-nil bytes)
]

pub part_loop_end :
    (fuel : ℕ) (bytes : List ℕ) (offset : ℕ)
    → length bytes ≤ offset
    → part_loop fuel bytes offset ≡ []
unfolding part_loop
part_loop_end zero bytes offset h = refl
part_loop_end (suc fuel) bytes offset h = ground arith

rest_lem : (bytes : List ℕ) (m : ℕ) → take (length bytes - m) (drop m bytes) ≡ drop m bytes
rest_lem bytes m = take-all (drop m bytes) (length bytes - m) (omega (arith, length-drop m bytes))

-- One round that takes all that is left.
part_loop_last :
    (fuel : ℕ) (bytes : List ℕ) (m : ℕ)
    → m < length bytes
    → length bytes ≤ m + 1024
    → length bytes < 2 ^ 32
    → part_loop (suc fuel) bytes m ≡ (m, drop m bytes) ∷ []
unfolding part_loop build_part_message
part_loop_last fuel bytes m h k small =
    ground (arith, part_loop_end fuel bytes (m + length bytes), rest_lem bytes m)

take-min : (n : ℕ) (xs : List ℕ) → take (min (length xs) n) xs ≡ take n xs
take-min n xs = elim (dec_lt (length xs) n) [
  | yes p ↦
      ap (λ i. take i xs) (min_left (length xs) n p)
      ∙ take-all xs (length xs) (omega arith)
      ∙ sym (take-all xs n (omega arith))
  | no p ↦ ap (λ i. take i xs) (min_right (length xs) n p)
]
  where
    min_left : (a b : ℕ) → a < b → min a b ≡ a
    min_left a b h = omega arith

    min_right : (a b : ℕ) → ¬ (a < b) → min a b ≡ b
    min_right a b h = omega arith

first_part :
    (bytes : List ℕ) (m : ℕ)
    → 0 < length bytes
    → 0 < m
    → build_part_message bytes m 0 ≡ ((0, take m bytes), min (length bytes) m)
unfolding build_part_message
first_part bytes m h k = ground (arith, take-min m bytes)

-- After the first part, what is left goes in one more, if anything is.
after_first :
    (fuel : ℕ) (bytes : List ℕ) (m : ℕ)
    → length bytes ≤ m + 1024
    → length bytes < 2 ^ 32
    → (0, take m bytes) ∷ part_loop (suc fuel) bytes (min (length bytes) m) ≡ cut 0 (chunks bytes m)
after_first fuel bytes m h small = elim (Bool-cases (ltb m (length bytes))) [
  | inl two ↦
      let lt : m < length bytes = ground arith in
      let e : min (length bytes) m ≡ m = omega arith in
      let l : length (take m bytes) ≡ m = omega (arith, length-take m bytes) in
      rw (two, e, part_loop_last fuel bytes m lt h small, l) (ground arith)
  | inr one ↦
      let ge : length bytes ≤ m = ground arith in
      let e : min (length bytes) m ≡ length bytes = omega arith in
      rw (one, e, part_loop_end (suc fuel) bytes (length bytes) (omega arith), take-all bytes m ge)
        refl
]

pub part_loop-suc :
    (fuel : ℕ) (bytes : List ℕ) (offset : ℕ)
    → offset < length bytes
    → part_loop (suc fuel) bytes offset
      ≡ (build_part_message bytes 1024 offset).0
        ∷ part_loop fuel bytes (build_part_message bytes 1024 offset).1
unfolding part_loop
part_loop-suc fuel bytes offset h = ground arith

split_parts-cut :
    (fuel : ℕ) (bytes : List ℕ) (additional : Option ℕ)
    → 0 < length bytes
    → 0 < first_size additional
    → length bytes ≤ first_size additional + 1024
    → length bytes < 2 ^ 32
    → split_parts (suc (suc fuel)) bytes additional ≡ cut 0 (chunks bytes (first_size additional))
unfolding split_parts
split_parts-cut fuel bytes none h k fits small =
    part_loop-suc (suc fuel) bytes 0 h
    ∙ rw (first_part bytes 1024 h k) (after_first fuel bytes 1024 fits small)
split_parts-cut fuel bytes (some additional) h k fits small =
    rw (first_part bytes (984 - additional) h k)
      (after_first (suc fuel) bytes (984 - additional) fits small)

Solid-chunks : (bytes : List ℕ) (m : ℕ) → 0 < length bytes → 0 < m → Solid (chunks bytes m)
Solid-chunks bytes m h k = elim (Bool-cases (ltb m (length bytes))) [
  | inl two ↦ rw two (
    omega (arith, length-take m bytes, ltb→lt m (length bytes) two),
    (omega (arith, length-drop m bytes, ltb→lt m (length bytes) two), tt),
  )
  | inr one ↦ rw one (h, tt)
]

size-chunks : (bytes : List ℕ) (m : ℕ) → size (chunks bytes m) ≡ length bytes
size-chunks bytes m = sym (length-concat (chunks bytes m)) ∙ ap length (chunks-concat bytes m)

-- A message that fits the first part and one more arrives: whatever the order in which the parts
-- come, the receiver answers the last of them with the message, and the others with nothing.
pub split_parts-add_parts :
    (digest : List ℕ → ℕ) (fuel : ℕ) (bytes : List ℕ) (additional : Option ℕ) (order : List Part)
    → 0 < length bytes
    → 0 < first_size additional
    → length bytes ≤ first_size additional + 1024
    → length bytes < 2 ^ 32
    → Permᴰ (split_parts (suc (suc fuel)) bytes additional) order
    → add_parts digest (digest bytes) (length bytes + 1) (new (length bytes)) order
      ≡ replicate (length order - 1) (some pending) ++ (some (complete bytes) ∷ [])
split_parts-add_parts digest fuel bytes additional order h k fits small perm =
    let m : ℕ = first_size additional in
    let s : size (chunks bytes m) ≡ length bytes = size-chunks bytes m in
    let e : concat (chunks bytes m) ≡ bytes = chunks-concat bytes m in
    let perm' : Permᴰ (cut 0 (chunks bytes m)) order =
      subst (λ l. Permᴰ l order) (split_parts-cut fuel bytes additional h k fits small) perm in
    let done =
      add_parts-complete digest (digest bytes) (chunks bytes m) order (Solid-chunks bytes m h k)
        (omega arith) (omega arith) (ap digest e) perm' in
    ap (λ n. add_parts digest (digest bytes) (n + 1) (new n) order) (sym s)
    ∙ done
    ∙ ap (λ b. replicate (length order - 1) (some pending) ++ (some (complete b) ∷ [])) e
