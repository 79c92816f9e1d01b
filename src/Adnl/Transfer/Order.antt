-- ===== src/Adnl/Transfer/Order.antt =====
-- A message cut into parts that arrive in any order: src/adnl/transfer.rs puts it together again.
use mathlib.Core.List.{Permᴰ}
use tiny_adnl.Prelude.{
  ℕ, ◌+◌, ◌-◌, ◌^◌, ◌<◌, ◌≡◌, refl, ap, Option, none, some, List, [], ◌∷◌, ◌++◌, length, arith,
  replicate,
}
use tiny_adnl.Adnl.Transfer.{Transfer, Outcome, pending, complete, new, store, finish, add_part}
use tiny_adnl.Adnl.Transfer.Parts.{
  Part, cut, part_bytes, Absent, Uniq, Solid, part_bytes-Permᴰ, Uniq-Permᴰ, Has-Permᴰ, Uniq-cut,
  length-le-size, part_bytes-cut, store_all, store_all-Has, Placed-of_Has,
}
use tiny_adnl.Adnl.Transfer.Join.{concat, size, Placed, join-Placed}

abbrev Clear : (ℕ → Option (List ℕ)) → List Part → Type 0
Clear parts [] = Unit
Clear parts (p ∷ r) = (parts p.0 ≡ none) × Clear parts r

Clear-start : (r : List Part) → Clear (λ _. none) r
Clear-start [] = tt
Clear-start (p ∷ r) = (refl, Clear-start r)

Clear-store :
    (parts : ℕ → Option (List ℕ)) (o : ℕ) (c : List ℕ) (r : List Part)
    → Absent o r
    → Clear parts r
    → Clear (store parts o c) r
Clear-store parts o c [] h k = tt
Clear-store parts o c (p ∷ r) h k = (ground arith, Clear-store parts o c r h.1 k.1)

module _ (digest : List ℕ → ℕ) (id : ℕ) where
  -- The answers to the parts, one after another.
  unfoldable pub add_parts : ℕ → Transfer → List Part → List (Option Outcome)
  add_parts fuel t [] = []
  add_parts fuel t (p ∷ r) =
      let (t', out) = add_part digest id fuel t p.0 p.1 in out ∷ add_parts fuel t' r

  abbrev stored : Transfer → Part → Transfer
  stored t p = record t {
    parts = store t.parts p.0 p.1;
    received_len = t.received_len + length p.1;
  }

  add_part_more :
      (fuel : ℕ) (t : Transfer) (p : Part)
      → t.parts p.0 ≡ none
      → t.received_len + length p.1 < t.total_len
      → t.total_len < 2 ^ 64
      → add_part digest id fuel t p.0 p.1 ≡ (stored t p, some pending)
  unfolding add_part
  add_part_more fuel t p none_yet lt small = ground arith

  add_part_last :
      (fuel : ℕ) (t : Transfer) (p : Part) (cs : List (List ℕ))
      → t.parts p.0 ≡ none
      → t.received_len + length p.1 ≡ t.total_len
      → t.total_len < 2 ^ 64
      → Placed (store t.parts p.0 p.1) 0 cs
      → size cs ≡ t.total_len
      → length cs < fuel
      → digest (concat cs) ≡ id
      → (add_part digest id fuel t p.0 p.1).1 ≡ some (complete (concat cs))
  unfolding add_part finish
  add_part_last fuel t p cs none_yet e small placed all enough hash = ground (
    arith,
    join-Placed fuel t.total_len 0 (store t.parts p.0 p.1) [] cs placed (omega arith) enough,
  )

  -- What is left to arrive completes the transfer.
  record Due (t : Transfer) (rest : List Part) (cs : List (List ℕ)) : Type 0 where
    clear : Clear t.parts rest
    uniq : Uniq rest
    bytes : t.received_len + part_bytes rest ≡ t.total_len
    placed : Placed (store_all t.parts rest) 0 cs

  Due-stored :
      (t : Transfer) (p : Part) (r : List Part) (cs : List (List ℕ))
      → Due t (p ∷ r) cs
      → Due (stored t p) r cs
  Due-stored t p r cs d = record {
    clear = Clear-store t.parts p.0 p.1 r d.uniq.0 d.clear.1;
    uniq = d.uniq.2;
    bytes = omega (arith, d.bytes);
    placed = d.placed;
  }

  add_parts-Due :
      (fuel : ℕ) (t : Transfer) (p : Part) (r : List Part) (cs : List (List ℕ))
      → Due t (p ∷ r) cs
      → t.total_len < 2 ^ 64
      → size cs ≡ t.total_len
      → length cs < fuel
      → digest (concat cs) ≡ id
      → add_parts fuel t (p ∷ r)
        ≡ replicate (length r) (some pending) ++ (some (complete (concat cs)) ∷ [])
  unfolding add_parts
  add_parts-Due fuel t p [] cs d small all enough hash =
      rw (
        add_part_last fuel t p cs d.clear.0 (omega (arith, d.bytes)) small d.placed all enough hash)
  add_parts-Due fuel t p (q ∷ r) cs d small all enough hash =
      rw (add_part_more fuel t p d.clear.0 (omega (arith, d.bytes, d.uniq.2.1)) small) (
        ap (◌∷◌ (some pending)) (
          add_parts-Due fuel (stored t p) q r cs (Due-stored t p (q ∷ r) cs d) small all enough
            hash))

  -- A message that is cut into parts, none of them empty, is put together again whatever the order
  -- in which the parts arrive: each part but the last gets `pending`, and the last the message.
  pub add_parts-complete :
      (cs : List (List ℕ)) (order : List Part)
      → Solid cs
      → 0 < size cs
      → size cs < 2 ^ 64
      → digest (concat cs) ≡ id
      → Permᴰ (cut 0 cs) order
      → add_parts (size cs + 1) (new (size cs)) order
        ≡ replicate (length order - 1) (some pending) ++ (some (complete (concat cs)) ∷ [])
  unfolding new
  add_parts-complete cs [] solid pos small hash d =
      absurd (omega (arith, part_bytes-Permᴰ d, part_bytes-cut 0 cs))
  add_parts-complete cs (p ∷ r) solid pos small hash d =
      let u : Uniq (p ∷ r) = Uniq-Permᴰ d (Uniq-cut 0 cs solid) in
      let e : length (p ∷ r) - 1 ≡ length r = omega arith in
      let due : Due (new (size cs)) (p ∷ r) cs = record {
        clear = Clear-start (p ∷ r);
        uniq = u;
        bytes = omega (arith, part_bytes-Permᴰ d, part_bytes-cut 0 cs);
        placed =
            Placed-of_Has (store_all (λ _. none) (p ∷ r)) 0 cs solid
              (λ o c h. store_all-Has (λ _. none) (p ∷ r) o c u (Has-Permᴰ o c d h));
      } in
      rw e (
        add_parts-Due (size cs + 1) (new (size cs)) p r cs due small refl
          (omega (arith, length-le-size cs solid)) hash)
