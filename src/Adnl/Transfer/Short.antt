-- ===== src/Adnl/Transfer/Short.antt =====
-- Parts that do not make up the message: src/adnl/transfer.rs goes on waiting.
use tiny_adnl.Prelude.{
  ℕ, ◌+◌, ◌^◌, ◌≤◌, ◌<◌, ◌≡◌, refl, Option, none, some, List, [], ◌∷◌, length, replicate, arith,
  Option-cases, inl, inr,
}
use tiny_adnl.Adnl.Transfer.{Transfer, new, pending, add_part}
use tiny_adnl.Adnl.Transfer.Parts.{Part, part_bytes, Has}
use tiny_adnl.Adnl.Transfer.Order.{add_parts}

-- Each part of the second list is one of the first, however often and in whatever order.
abbrev pub AllFrom : List Part → List Part → Type 0
AllFrom source [] = Unit
AllFrom source (p ∷ r) = Has source p.0 p.1 × AllFrom source r

abbrev if_missing : Option (List ℕ) → ℕ → ℕ
if_missing none n = n
if_missing (some _) n = 0

-- The bytes of the parts at offsets at which nothing is stored yet.
abbrev missing : (ℕ → Option (List ℕ)) → List Part → ℕ
missing parts [] = 0
missing parts (p ∷ r) = if_missing (parts p.0) (length p.1) + missing parts r

missing-empty : (source : List Part) → missing (λ _. none) source ≡ part_bytes source
missing-empty [] = refl
missing-empty (p ∷ r) = omega (arith, missing-empty r)

-- A store that has all that another one has, misses no more.
missing_mono :
    (parts parts' : ℕ → Option (List ℕ)) (source : List Part)
    → ((i n : ℕ) → if_missing (parts' i) n ≤ if_missing (parts i) n)
    → missing parts' source ≤ missing parts source
missing_mono parts parts' [] h = omega arith
missing_mono parts parts' (p ∷ r) h =
    omega (arith, h p.0 (length p.1), missing_mono parts parts' r h)

-- A part that is stored for the first time is missing no longer.
missing-store :
    (parts parts' : ℕ → Option (List ℕ)) (source : List Part) (offset : ℕ) (part stored : List ℕ)
    → ((i n : ℕ) → if_missing (parts' i) n ≤ if_missing (parts i) n)
    → parts offset ≡ none
    → parts' offset ≡ some stored
    → Has source offset part
    → missing parts' source + length part ≤ missing parts source
missing-store parts parts' [] offset part stored h before now has = absurd has
missing-store parts parts' (p ∷ r) offset part stored h before now (inl (o, c)) =
    rw (o, before, now, c) (omega (arith, missing_mono parts parts' r h))
missing-store parts parts' (p ∷ r) offset part stored h before now (inr has) =
    omega
      (arith, h p.0 (length p.1), missing-store parts parts' r offset part stored h before now has)

module _ (digest : List ℕ → ℕ) (id : ℕ) where
  add_part-stores :
      (fuel : ℕ) (t : Transfer) (p : Part) (i n : ℕ)
      → if_missing ((add_part digest id fuel t p.0 p.1).0.parts i) n ≤ if_missing (t.parts i) n
  unfolding add_part
  add_part-stores fuel t p i n = elim (Option-cases (t.parts p.0)) [
    | inl new_one ↦ ground arith
    | inr (old, there) ↦ ground arith
  ]

  -- Bytes are counted only for a part at an offset with nothing stored.
  add_part-pending :
      (fuel : ℕ) (t : Transfer) (source : List Part) (p : Part)
      → t.received_len + missing t.parts source < t.total_len
      → t.total_len < 2 ^ 64
      → Has source p.0 p.1
      → ((add_part digest id fuel t p.0 p.1).1 ≡ some pending)
        × ((add_part digest id fuel t p.0 p.1).0.total_len ≡ t.total_len)
        × ((add_part digest id fuel t p.0 p.1).0.received_len
              + missing (add_part digest id fuel t p.0 p.1).0.parts source
            ≤ t.received_len + missing t.parts source)
  add_part-pending fuel t source p h small has =
      let t' = (add_part digest id fuel t p.0 p.1).0 in
      let stores = add_part-stores fuel t p in
      elim (Option-cases (t.parts p.0)) [
        | inl new_one ↦
            let less =
              missing-store t.parts t'.parts source p.0 p.1 p.1 stores new_one
                (unfold add_part in ground arith) has in
            (
              unfold add_part in ground (arith, less),
              unfold add_part in ground arith,
              let counted : t'.received_len ≡ t.received_len + length p.1 =
                    unfold add_part in ground (arith, less) in
                  omega (arith, less, counted),
            )
        | inr (old, there) ↦
            let less = missing_mono t.parts t'.parts source stores in
            let counted : t'.received_len ≡ t.received_len = unfold add_part in ground arith in
            (
              unfold add_part in ground arith,
              unfold add_part in ground arith,
              omega (arith, less, counted),
            )
      ]

  pending_from :
      (fuel : ℕ) (t : Transfer) (source parts : List Part)
      → t.received_len + missing t.parts source < t.total_len
      → t.total_len < 2 ^ 64
      → AllFrom source parts
      → add_parts digest id fuel t parts ≡ replicate (length parts) (some pending)
  unfolding add_parts
  pending_from fuel t source [] h small all = refl
  pending_from fuel t source (p ∷ r) h small all =
      let one = add_part-pending fuel t source p h small all.0 in
      let rest =
        pending_from fuel (add_part digest id fuel t p.0 p.1).0 source r
          (omega (arith, one.1, one.2, h)) (omega (arith, one.1)) all.1 in
      rw (one.0, rest) refl

  -- Parts taken from some that have fewer bytes than announced are each answered with nothing,
  -- however often they come.
  pub add_parts-pending :
      (fuel total : ℕ) (source parts : List Part)
      → part_bytes source < total
      → total < 2 ^ 64
      → AllFrom source parts
      → add_parts digest id fuel (new total) parts ≡ replicate (length parts) (some pending)
  unfolding new
  add_parts-pending fuel total source parts h small all =
      pending_from fuel (new total) source parts (omega (arith, h, missing-empty source)) small all
