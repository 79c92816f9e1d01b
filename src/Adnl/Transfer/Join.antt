-- ===== src/Adnl/Transfer/Join.antt =====
-- The loop of `add_part` in src/adnl/transfer.rs that joins the parts.
use mathlib.Core.List.{append-nil, append_assoc}
use tiny_adnl.Prelude.{
  ℕ, zero, suc, ◌+◌, ◌-◌, ◌≤◌, ◌<◌, ◌≡◌, ◌∙◌, refl, ap, Option, none, some, List, [], ◌∷◌, ◌++◌,
  length, arith, length-append, ◌≢◌, Option-cases, inl, inr,
}
use tiny_adnl.Adnl.Transfer.{join}

abbrev pub concat : List (List ℕ) → List ℕ
concat [] = []
concat (c ∷ cs) = c ++ concat cs

abbrev pub size : List (List ℕ) → ℕ
size [] = 0
size (c ∷ cs) = length c + size cs

-- The chunks stand one behind another from the offset on, and none is empty.
abbrev pub Placed : (ℕ → Option (List ℕ)) → ℕ → List (List ℕ) → Type 0
Placed parts offset [] = Unit
Placed parts offset (c ∷ cs) =
    (parts offset ≡ some c) × (0 < length c) × Placed parts (offset + length c) cs

pub length-concat : (cs : List (List ℕ)) → length (concat cs) ≡ size cs
length-concat [] = refl
length-concat (c ∷ cs) = omega (arith, length-append c (concat cs), length-concat cs)

-- One round for each chunk, and one to stop.
pub join-Placed :
    (fuel total offset : ℕ) (parts : ℕ → Option (List ℕ)) (buffer : List ℕ) (cs : List (List ℕ))
    → Placed parts offset cs
    → offset + size cs ≡ total
    → length cs < fuel
    → join fuel parts total offset buffer ≡ some (some (buffer ++ concat cs))
unfolding join
join-Placed zero total offset parts buffer cs p e h = absurd (omega arith)
join-Placed (suc fuel) total offset parts buffer [] p e h = ground (arith, append-nil buffer)
join-Placed (suc fuel) total offset parts buffer (c ∷ cs) p e h = ground (
  arith,
  join-Placed fuel total (offset + length c) parts (buffer ++ c) cs p.2,
  append_assoc buffer c (concat cs),
)

length-pos : (c : List ℕ) → c ≢ [] → 0 < length c
length-pos [] h = absurd (h refl)
length-pos (x ∷ c) h = omega arith

-- With no empty part stored the loop ends: each round goes on by one byte at least.
pub join_ends :
    (fuel total offset : ℕ) (parts : ℕ → Option (List ℕ)) (buffer : List ℕ)
    → ((i : ℕ) → parts i ≢ some [])
    → total - offset < fuel
    → join fuel parts total offset buffer ≢ none
unfolding join
join_ends zero total offset parts buffer solid h = absurd (omega arith)
join_ends (suc fuel) total offset parts buffer solid h = elim (Option-cases (parts offset)) [
  | inl missing ↦ ground arith
  | inr (c, here) ↦ ground (
    arith,
    length-pos c (λ z. solid offset (here ∙ ap some z)),
    join_ends fuel total (offset + length c) parts (buffer ++ c) solid,
  )
]

-- What it joins has all the bytes that were announced.
pub join-le-length :
    (fuel total offset : ℕ) (parts : ℕ → Option (List ℕ)) (buffer : List ℕ) {out : List ℕ}
    → length buffer ≡ offset
    → join fuel parts total offset buffer ≡ some (some out)
    → total ≤ length out
unfolding join
join-le-length zero total offset parts buffer e h = absurd (cc)
join-le-length (suc fuel) total offset parts buffer {out} e h = elim (Option-cases (parts offset)) [
  | inl missing ↦ ground arith
  | inr (c, here) ↦ ground (
    arith,
    length-append buffer c,
    join-le-length fuel total (offset + length c) parts (buffer ++ c) {out = out},
  )
]
