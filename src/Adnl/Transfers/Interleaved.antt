-- ===== src/Adnl/Transfers/Interleaved.antt =====
-- Messages whose parts arrive in between those of others, src/adnl/node/receiver.rs.
use mathlib.Core.List.{Permᴰ}
use tiny_adnl.Prelude.{
  ℕ, zero, suc, ◌+◌, ◌-◌, ◌^◌, ◌<◌, ◌≡◌, ◌∙◌, refl, sym, ap, true, false, Option, none, some, List,
  [], ◌∷◌, ◌++◌, if◌then◌else◌, ◌==◌, length, replicate, arith, Bool-cases, inl, inr,
}
use tiny_adnl.Adnl.Transfer.{Transfer, Outcome, pending, complete, new, add_part}
use tiny_adnl.Adnl.Transfer.Join.{concat, size}
use tiny_adnl.Adnl.Transfer.Parts.{Part, Solid, cut}
use tiny_adnl.Adnl.Transfer.Order.{add_parts, add_parts-complete}
use tiny_adnl.Adnl.Transfers.{Transfers, PartMessage, put_transfer, current, kept, process_part}

module _ (digest : List ℕ → ℕ) (fuel : ℕ) where
  -- The answers to the parts with this hash.
  pub answers_to : ℕ → Transfers → List PartMessage → List (Option Outcome)
  answers_to id ts [] = []
  answers_to id ts (m ∷ ms) =
      let (ts', outcome) = process_part digest fuel ts m in
      let rest = answers_to id ts' ms in if m.hash == id then outcome ∷ rest else rest

  -- The table after the parts.
  pub table_after : Transfers → List PartMessage → Transfers
  table_after ts [] = ts
  table_after ts (m ∷ ms) = table_after (process_part digest fuel ts m).0 ms

-- The parts with this hash, and that each of them announces this size.
unfoldable pub parts_of : ℕ → List PartMessage → List Part
parts_of id [] = []
parts_of id (m ∷ ms) =
    let rest = parts_of id ms in if m.hash == id then (m.offset, m.bytes) ∷ rest else rest

unfoldable pub Announces : ℕ → ℕ → List PartMessage → Type 0
Announces id total [] = Unit
Announces id total (m ∷ ms) = (m.hash ≡ id → m.total_size ≡ total) × Announces id total ms

module _ (digest : List ℕ → ℕ) (fuel id total : ℕ) where
  other_part :
      (ts : Transfers) (m : PartMessage)
      → (m.hash == id) ≡ false
      → (process_part digest fuel ts m).0 id ≡ ts id
  unfolding process_part put_transfer
  other_part ts m other = ground arith

  current_congr : (ts ts' : Transfers) → ts id ≡ ts' id → current ts id total ≡ current ts' id total
  unfolding current
  current_congr ts ts' e = ap (λ o. elim o [ none ↦ new total | some t ↦ t ]) e

  -- Without parts of this hash its place in the table stays.
  no_parts :
      (ts : Transfers) (ms : List PartMessage)
      → parts_of id ms ≡ []
      → (answers_to digest fuel id ts ms ≡ []) × (table_after digest fuel ts ms id ≡ ts id)
  unfolding answers_to table_after parts_of
  no_parts ts [] e = (refl, refl)
  no_parts ts (m ∷ ms) e = elim (Bool-cases (m.hash == id)) [
    | inl own ↦ absurd (ground (arith, own))
    | inr other ↦
        let (a, b) = no_parts (process_part digest fuel ts m).0 ms (ground (arith, other)) in
        (ground (arith, other, a), b ∙ other_part ts m other)
  ]

  own_parts :
      (m : PartMessage) (ms : List PartMessage)
      → (m.hash == id) ≡ true
      → parts_of id (m ∷ ms) ≡ (m.offset, m.bytes) ∷ parts_of id ms
  unfolding parts_of
  own_parts m ms own = ground (arith, own)

  other_parts :
      (m : PartMessage) (ms : List PartMessage)
      → (m.hash == id) ≡ false
      → parts_of id (m ∷ ms) ≡ parts_of id ms
  unfolding parts_of
  other_parts m ms other = ground (arith, other)

  -- A part of this hash goes into the transfer that is there, or into a new one.
  own_part :
      (ts : Transfers) (m : PartMessage) (t : Transfer)
      → (m.hash == id) ≡ true
      → (m.hash ≡ id → m.total_size ≡ total)
      → current ts id total ≡ t
      → let a = add_part digest id fuel t m.offset m.bytes in
        ((process_part digest fuel ts m).0 id ≡ kept a.0 a.1)
        × ((process_part digest fuel ts m).1 ≡ a.1)
  unfolding process_part put_transfer
  own_part ts m t own all e =
      let w : m.hash ≡ id = ground arith in
      let v : current ts m.hash m.total_size ≡ t =
        ap (λ i. current ts i m.total_size) w ∙ ap (current ts id) (all w) ∙ e in
      let a : add_part digest m.hash fuel (current ts m.hash m.total_size) m.offset m.bytes
          ≡ add_part digest id fuel t m.offset m.bytes =
        ap (λ i. add_part digest i fuel (current ts m.hash m.total_size) m.offset m.bytes) w
        ∙ ap (λ x. add_part digest id fuel x m.offset m.bytes) v in
      let x = add_part digest m.hash fuel (current ts m.hash m.total_size) m.offset m.bytes in
      let this : (id == m.hash) ≡ true = ground arith in
      (ap (λ b. if b then kept x.0 x.1 else ts id) this ∙ ap (λ x. kept x.0 x.1) a, ap (λ x. x.1) a)

  empty_of : (ps : List Part) → length ps ≡ 0 → ps ≡ []
  empty_of [] e = refl
  empty_of (p ∷ ps) e = absurd (omega arith)

  -- The answers to the parts of one hash are those of its transfer alone, as long as none but the
  -- last is complete.
  follows :
      (ts : Transfers) (ms : List PartMessage) (message : List ℕ) (t : Transfer) (n : ℕ)
      → Announces id total ms
      → current ts id total ≡ t
      → length (parts_of id ms) ≡ n + 1
      → add_parts digest id fuel t (parts_of id ms)
        ≡ replicate n (some pending) ++ (some (complete message) ∷ [])
      → (answers_to digest fuel id ts ms
          ≡ replicate n (some pending) ++ (some (complete message) ∷ []))
        × (table_after digest fuel ts ms id ≡ none)
  unfolding answers_to table_after Announces parts_of kept current add_parts
  follows ts [] message t n all e len run = absurd (omega (arith, len))
  follows ts (m ∷ ms) message t zero all e len run = elim (Bool-cases (m.hash == id)) [
    | inr other ↦
        let q = other_parts m ms other in
        let (a, b) =
          follows (process_part digest fuel ts m).0 ms message t zero all.1
            (current_congr (process_part digest fuel ts m).0 ts (other_part ts m other) ∙ e)
            (sym (ap length q) ∙ len) (ap (add_parts digest id fuel t) (sym q) ∙ run) in
        (ground (arith, other, a), b)
    | inl own ↦
        let (kept_as, answer) = own_part ts m t own all.0 e in
        let q = own_parts m ms own in
        let u = add_part digest id fuel t m.offset m.bytes in
        let r : u.1 ∷ add_parts digest id fuel u.0 (parts_of id ms) ≡ some (complete message) ∷ [] =
          ap (add_parts digest id fuel t) (sym q) ∙ run in
        let none_left : parts_of id ms ≡ [] =
          empty_of (parts_of id ms) (omega (arith, ap length q)) in
        let done : u.1 ≡ some (complete message) = cc in
        let (a, b) = no_parts (process_part digest fuel ts m).0 ms none_left in
        (ground (arith, own, answer, done, a), b ∙ kept_as ∙ ap (kept u.0) done)
  ]
  follows ts (m ∷ ms) message t (suc n) all e len run = elim (Bool-cases (m.hash == id)) [
    | inr other ↦
        let o = other_part ts m other in
        let q = other_parts m ms other in
        let (a, b) =
          follows (process_part digest fuel ts m).0 ms message t (suc n) all.1
            (current_congr (process_part digest fuel ts m).0 ts o ∙ e) (sym (ap length q) ∙ len)
            (ap (add_parts digest id fuel t) (sym q) ∙ run) in
        (ground (arith, other, a), b)
    | inl own ↦
        let (kept_as, answer) = own_part ts m t own all.0 e in
        let q = own_parts m ms own in
        let u = add_part digest id fuel t m.offset m.bytes in
        let r : u.1 ∷ add_parts digest id fuel u.0 (parts_of id ms)
            ≡ some pending ∷ (replicate n (some pending) ++ (some (complete message) ∷ [])) =
          ap (add_parts digest id fuel t) (sym q) ∙ run in
        let waits : u.1 ≡ some pending = cc in
        let later : add_parts digest id fuel u.0 (parts_of id ms)
            ≡ replicate n (some pending) ++ (some (complete message) ∷ []) =
          cc in
        let there : (process_part digest fuel ts m).0 id ≡ some u.0 =
          kept_as ∙ ap (kept u.0) waits in
        let (a, b) =
          follows (process_part digest fuel ts m).0 ms message u.0 n all.1
            (ap (λ o. elim o [ none ↦ new total | some t ↦ t ]) there) (omega (arith, ap length q))
            later in
        (ground (arith, own, answer, waits, a), b)
  ]

  answered :
      (t : Transfer) (order : List Part) (answer : Option Outcome)
      → add_parts digest id fuel t order
        ≡ replicate (length order - 1) (some pending) ++ (answer ∷ [])
      → length order ≡ length order - 1 + 1
  unfolding add_parts
  answered t [] answer e = cc
  answered t (p ∷ order) answer e = omega arith

  started : (ts : Transfers) → ts id ≡ none → current ts id total ≡ new total
  unfolding current
  started ts e = ap (λ o. elim o [ none ↦ new total | some t ↦ t ]) e

-- The parts of a message, none of them empty, may arrive in any order and in between any other
-- parts: the message is put together again with its last part, each part before it is answered with
-- `pending`, and then the table holds nothing under its hash.
pub answers_to-complete :
    (digest : List ℕ → ℕ) (id : ℕ) (cs : List (List ℕ)) (ts : Transfers) (ms : List PartMessage)
    → Solid cs
    → 0 < size cs
    → size cs < 2 ^ 64
    → digest (concat cs) ≡ id
    → ts id ≡ none
    → Announces id (size cs) ms
    → Permᴰ (cut 0 cs) (parts_of id ms)
    → (answers_to digest (size cs + 1) id ts ms
        ≡ replicate (length (parts_of id ms) - 1) (some pending)
          ++ (some (complete (concat cs)) ∷ []))
      × (table_after digest (size cs + 1) ts ms id ≡ none)
answers_to-complete digest id cs ts ms solid pos small hash free all d =
    let run = add_parts-complete digest id cs (parts_of id ms) solid pos small hash d in
    follows digest (size cs + 1) id (size cs) ts ms (concat cs) (new (size cs))
      (length (parts_of id ms) - 1) all (started digest (size cs + 1) id (size cs) ts free)
      (answered digest (size cs + 1) id (size cs) (new (size cs)) (parts_of id ms) _ run) run
