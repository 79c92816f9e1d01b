-- ===== src/Adnl/PeersSet/Members.antt =====
-- Which ids a set of src/adnl/peers_set.rs has after a call.
use tiny_adnl.Prelude.{
  ℕ, ◌≡◌, ◌∙◌, refl, ap, Bool, true, false, some, List, [], ◌∷◌, not, arith, length, Bool-cases,
  Option-cases, inl, inr, get_elem?, take,
}
use tiny_adnl.Prelude.Bytes.{add64}
use tiny_adnl.Adnl.PeersSet.{PeersSetState, contains, insert, extend, evict}
use tiny_adnl.Adnl.PeersSet.Inv.{IsValid, insert-pushed, insert-replaced, insert_known}
use tiny_adnl.Adnl.PeersSet.Fifo.{elem}
use tiny_adnl.Adnl.PeersSet.Choose.{keep, IsChoice, randomly_fill_from, keep-Picked}

module _ {K : Type 0} (dec : Discrete K) where
  -- What is inserted is there.
  pub insert-contains :
      (s : PeersSetState K) (k : K) → IsValid s → contains (insert dec s k).0 k ≡ true
  unfolding contains evict
  insert-contains s k v = elim (Option-cases (s.cache k)) [
    | inr (i, known) ↦ rw (insert_known dec s k known) (ground arith)
    | inl new ↦ elim (Option-cases (get_elem? s.index s.upper)) [
      | inl free ↦ rw (insert-pushed dec s k new free) (ground arith)
      | inr (old, here) ↦
          rw (insert-replaced dec s k new here) (ground (arith, v.agrees.complete old s.upper))
    ]
  ]

  pub insert_contained :
      (s : PeersSetState K) (k : K) → contains s k ≡ true → (insert dec s k).0 ≡ s
  unfolding contains
  insert_contained s k h = elim (Option-cases (s.cache k)) [
    | inr (i, known) ↦ ap (λ r. r.0) (insert_known dec s k known)
    | inl new ↦ absurd (ground arith)
  ]

  -- Ids that are there already change nothing.
  pub extend_contained :
      (s : PeersSetState K) (ks : List K)
      → ((k : K) → elem dec k ks ≡ true → contains s k ≡ true)
      → extend dec s ks ≡ s
  unfolding extend elem
  extend_contained s [] h = refl
  extend_contained s (k ∷ ks) h =
      ap (λ t. extend dec t ks) (insert_contained s k (h k (ground arith)))
      ∙ extend_contained s ks (λ j e. h j (ground arith))

  -- A set that has all of the other one, but for the excepted ids, stays as it is.
  pub randomly_fill_from_contained :
      (choose : List K → ℕ → List K) (s from : PeersSetState K) (amount : ℕ) (es : List K)
      → IsChoice dec choose
      → ((k : K) → elem dec k from.index ≡ true → elem dec k es ≡ false → contains s k ≡ true)
      → randomly_fill_from dec choose false s from amount (some es) ≡ s
  unfolding randomly_fill_from
  randomly_fill_from_contained choose s from amount es c h =
      let n = add64 amount (length es) in
      let p = keep-Picked dec es (choose from.index n) amount in
      extend_contained s (take amount (keep (λ k. not (elem dec k es)) (choose from.index n)))
        (λ k here. h k (c.from from.index n k (p.among k here)) (elim (Bool-cases (elem dec k es)) [
          | inr out ↦ out
          | inl ex ↦ absurd (ground (arith, p.avoids k ex))
        ]))

-- What is kept passes the test.
pub elem-keep_out :
    {K : Type 0} (dec : Discrete K) (k : K) (p : K → Bool) (xs : List K)
    → p k ≡ false
    → elem dec k (keep p xs) ≡ false
unfolding elem keep
elem-keep_out dec k p [] h = refl
elem-keep_out dec k p (x ∷ xs) h = ground (arith, elem-keep_out dec k p xs)
