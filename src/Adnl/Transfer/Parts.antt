-- ===== src/Adnl/Transfer/Parts.antt =====
-- The parts of a cut message as a list: what holds of them in every order, and the map of
-- src/adnl/transfer.rs after all of them.
use mathlib.Core.List.{Permᴰ}
use mathlib.Core.Path.{subst, subst₂}
use tiny_adnl.Prelude.{
  ℕ, ◌+◌, ◌≤◌, ◌<◌, ◌≡◌, ◌≢◌, ◌∙◌, refl, sym, ap, Option, some, List, [], ◌∷◌, length, arith, inl,
  inr, ◌⊎◌,
}
use tiny_adnl.Adnl.Transfer.{store}
use tiny_adnl.Adnl.Transfer.Join.{size, Placed}

-- A part with its offset.
abbrev pub Part : Type 0
Part = ℕ × List ℕ

-- The parts of a message that is cut into the chunks.
abbrev pub cut : ℕ → List (List ℕ) → List Part
cut offset [] = []
cut offset (c ∷ cs) = (offset, c) ∷ cut (offset + length c) cs

abbrev pub part_bytes : List Part → ℕ
part_bytes [] = 0
part_bytes (p ∷ r) = length p.1 + part_bytes r

-- No part starts at the offset.
abbrev pub Absent : ℕ → List Part → Type 0
Absent o [] = Unit
Absent o (p ∷ r) = (o ≢ p.0) × Absent o r

-- No two parts start at one offset, and none is empty.
abbrev pub Uniq : List Part → Type 0
Uniq [] = Unit
Uniq (p ∷ r) = Absent p.0 r × (0 < length p.1) × Uniq r

abbrev pub Has : List Part → ℕ → List ℕ → Type 0
Has [] o c = ⊥
Has (p ∷ r) o c = ((p.0 ≡ o) × (p.1 ≡ c)) ⊎ Has r o c

-- The three facts go with any order of the parts.
pub part_bytes-Permᴰ : {l r : List Part} → Permᴰ l r → part_bytes l ≡ part_bytes r
part_bytes-Permᴰ Permᴰ.nil = refl
part_bytes-Permᴰ (Permᴰ.cons e d) = ground (arith, e, part_bytes-Permᴰ d)
part_bytes-Permᴰ (Permᴰ.swap e f) = ground (arith, e, f)
part_bytes-Permᴰ (Permᴰ.trans d e) = part_bytes-Permᴰ d ∙ part_bytes-Permᴰ e

Absent-Permᴰ : {l r : List Part} (o : ℕ) → Permᴰ l r → Absent o l → Absent o r
Absent-Permᴰ o Permᴰ.nil h = h
Absent-Permᴰ o (Permᴰ.cons e d) h = (rw (← e) h.0, Absent-Permᴰ o d h.1)
Absent-Permᴰ o (Permᴰ.swap e f) h = (rw (← f) h.1.0, (rw (← e) h.0, h.1.1))
Absent-Permᴰ o (Permᴰ.trans d e) h = Absent-Permᴰ o e (Absent-Permᴰ o d h)

pub Uniq-Permᴰ : {l r : List Part} → Permᴰ l r → Uniq l → Uniq r
Uniq-Permᴰ Permᴰ.nil h = h
Uniq-Permᴰ (Permᴰ.cons {l₂ = m} e d) h =
    subst (λ (x : Part). Uniq (x ∷ m)) e (Absent-Permᴰ _ d h.0, h.1, Uniq-Permᴰ d h.2)
Uniq-Permᴰ (Permᴰ.swap {l = l} e f) h =
    subst₂ (λ (x y : Part). Uniq (y ∷ x ∷ l)) e f
      ((λ z. h.0.0 (sym z), h.2.0), h.2.1, (h.0.1, h.1, h.2.2))
Uniq-Permᴰ (Permᴰ.trans d e) h = Uniq-Permᴰ e (Uniq-Permᴰ d h)

pub Has-Permᴰ : {l r : List Part} (o : ℕ) (c : List ℕ) → Permᴰ l r → Has l o c → Has r o c
Has-Permᴰ o c Permᴰ.nil h = h
Has-Permᴰ o c (Permᴰ.cons e d) (inl h) = inl (rw (← e) h)
Has-Permᴰ o c (Permᴰ.cons e d) (inr h) = inr (Has-Permᴰ o c d h)
Has-Permᴰ o c (Permᴰ.swap e f) (inl h) = inr (inl (rw (← e) h))
Has-Permᴰ o c (Permᴰ.swap e f) (inr (inl h)) = inl (rw (← f) h)
Has-Permᴰ o c (Permᴰ.swap e f) (inr (inr h)) = inr (inr h)
Has-Permᴰ o c (Permᴰ.trans d e) h = Has-Permᴰ o c e (Has-Permᴰ o c d h)

Absent-cut : (o offset : ℕ) (cs : List (List ℕ)) → o < offset → Absent o (cut offset cs)
Absent-cut o offset [] h = tt
Absent-cut o offset (c ∷ cs) h = (omega arith, Absent-cut o (offset + length c) cs (omega arith))

-- No chunk is empty.
abbrev pub Solid : List (List ℕ) → Type 0
Solid [] = Unit
Solid (c ∷ cs) = (0 < length c) × Solid cs

pub length-le-size : (cs : List (List ℕ)) → Solid cs → length cs ≤ size cs
length-le-size [] h = omega arith
length-le-size (c ∷ cs) h = omega (arith, length-le-size cs h.1)

pub Uniq-cut : (offset : ℕ) (cs : List (List ℕ)) → Solid cs → Uniq (cut offset cs)
Uniq-cut offset [] h = tt
Uniq-cut offset (c ∷ cs) h = (
  Absent-cut offset (offset + length c) cs (omega arith),
  h.0,
  Uniq-cut (offset + length c) cs h.1,
)

pub part_bytes-cut : (offset : ℕ) (cs : List (List ℕ)) → part_bytes (cut offset cs) ≡ size cs
part_bytes-cut offset [] = refl
part_bytes-cut offset (c ∷ cs) = ap (λ n. length c + n) (part_bytes-cut (offset + length c) cs)

-- The map after all the parts.
abbrev pub store_all : (ℕ → Option (List ℕ)) → List Part → ℕ → Option (List ℕ)
store_all parts [] = parts
store_all parts (p ∷ r) = store_all (store parts p.0 p.1) r

store_all-Absent :
    (parts : ℕ → Option (List ℕ)) (r : List Part) (o : ℕ)
    → Absent o r
    → store_all parts r o ≡ parts o
store_all-Absent parts [] o h = refl
store_all-Absent parts (p ∷ r) o h = store_all-Absent (store parts p.0 p.1) r o h.1 ∙ ground arith

pub store_all-Has :
    (parts : ℕ → Option (List ℕ)) (r : List Part) (o : ℕ) (c : List ℕ)
    → Uniq r
    → Has r o c
    → store_all parts r o ≡ some c
store_all-Has parts [] o c u h = absurd h
store_all-Has parts (p ∷ r) o c u (inl h) =
    store_all-Absent (store parts p.0 p.1) r o (rw (← h.0) u.0) ∙ ground arith
store_all-Has parts (p ∷ r) o c u (inr h) = store_all-Has (store parts p.0 p.1) r o c u.2 h

pub Placed-of_Has :
    (parts : ℕ → Option (List ℕ)) (offset : ℕ) (cs : List (List ℕ))
    → Solid cs
    → ((o : ℕ) (c : List ℕ) → Has (cut offset cs) o c → parts o ≡ some c)
    → Placed parts offset cs
Placed-of_Has parts offset [] s h = tt
Placed-of_Has parts offset (c ∷ cs) s h = (
  h offset c (inl (refl, refl)),
  s.0,
  Placed-of_Has parts (offset + length c) cs s.1 (λ o d q. h o d (inr q)),
)
