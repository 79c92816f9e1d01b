-- ===== src/Adnl/PeersSet/Fill.antt =====
-- `with_peers_and_capacity` of src/adnl/peers_set.rs.
use mathlib.Core.List.{append-nil, append_assoc}
use tiny_adnl.Prelude.{
  ℕ, zero, suc, ◌-◌, ◌%◌, ◌^◌, ◌≤◌, ◌<◌, ◌≡◌, ◌∙◌, refl, sym, ap, none, List, [], ◌∷◌, ◌++◌,
  if◌then◌else◌, leb, length, max, arith, Option-cases, Bool-cases, inl, inr, length-append, take,
}
use tiny_adnl.Adnl.PeersSet.{
  PeersSetState, make_capacity, empty_state, fill, with_peers_and_capacity, insert_entry,
}
use tiny_adnl.Adnl.PeersSet.Inv.{Agrees, Agrees-push, IsValid}
use tiny_adnl.Adnl.PeersSet.Fifo.{elem, queue_end, elem-index_known, elem-index_new, queue}
use tiny_adnl.Prelude.Bytes.{add32}

-- The state while the loop runs: nothing has been driven out.
pub record IsFilling {K : Type 0} (s : PeersSetState K) : Type 0 where
  pub positive : 0 < s.capacity
  pub small : s.capacity < 2 ^ 32
  pub bounded : length s.index ≤ s.capacity
  pub at_end : s.upper ≡ length s.index
  pub agrees : Agrees s.cache s.index

take-nil : {K : Type 0} (n : ℕ) → take {A = K} n [] ≡ []
take-nil zero = refl
take-nil (suc n) = refl

append-take_full :
    {K : Type 0} (cap : ℕ) (xs ds : List K) → cap ≤ length xs → xs ++ take (cap - length xs) ds ≡ xs
append-take_full cap xs ds h = let e : cap - length xs ≡ 0 = omega arith in rw e (append-nil xs)

append-take_room :
    {K : Type 0} (cap : ℕ) (xs ds : List K) (k : K)
    → length xs < cap
    → (xs ++ (k ∷ [])) ++ take (cap - length (xs ++ (k ∷ []))) ds
      ≡ xs ++ take (cap - length xs) (k ∷ ds)
append-take_room cap xs ds k h =
    let e : cap - length xs ≡ suc (cap - suc (length xs)) = omega arith in
    let e' : cap - length (xs ++ (k ∷ [])) ≡ cap - suc (length xs) =
      omega (arith, length-append xs (k ∷ [])) in
    rw (e, e', append_assoc)

module _ {K : Type 0} (dec : Discrete K) where
  -- The ids that are not among the old ones, each at its first place.
  pub distinct : List K → List K → List K
  distinct old [] = []
  distinct old (k ∷ ks) =
      if elem dec k old then distinct old ks else k ∷ distinct (old ++ (k ∷ [])) ks

  abbrev added : PeersSetState K → K → PeersSetState K
  added s k = record s {
    cache = insert_entry dec s.cache k s.upper;
    index = s.index ++ (k ∷ []);
    upper = add32 s.upper 1;
  }

  added-IsFilling :
      (s : PeersSetState K) (k : K)
      → s.cache k ≡ none
      → s.upper < s.capacity
      → IsFilling s
      → IsFilling (added s k)
  added-IsFilling s k new lt v =
      let e : s.upper ≡ length s.index = v.at_end in
      record {
        positive = v.positive;
        small = v.small;
        bounded = omega (arith, length-append s.index (k ∷ []));
        at_end = omega (arith, length-append s.index (k ∷ []));
        agrees = rw e (Agrees-push dec k new v.agrees);
      }

  -- The loop takes the new ids in order until the set is full.
  record Filled (s : PeersSetState K) (ks : List K) (r : PeersSetState K) : Type 0 where
    filling : IsFilling r
    taken : r.index ≡ s.index ++ take (s.capacity - length s.index) (distinct s.index ks)
    same : r.capacity ≡ s.capacity

  fill-Filled : (s : PeersSetState K) (ks : List K) → IsFilling s → Filled s ks (fill dec s ks)
  unfolding fill distinct
  fill-Filled s [] v = record { filling = v; taken = rw (take-nil, append-nil); same = refl }
  fill-Filled s (k ∷ ks) v = elim (Bool-cases (leb s.capacity s.upper)) [
    | inl full ↦ rw full (record {
      filling = v;
      taken = sym (append-take_full s.capacity s.index _ (ground arith));
      same = refl;
    })
    | inr room ↦ elim (Option-cases (s.cache k)) [
      | inl new ↦
          let lt : length s.index < s.capacity = ground arith in
          let rest = fill-Filled (added s k) ks (added-IsFilling s k new (ground arith) v) in
          ground (
            arith,
            rest,
            elem-index_new dec k v.agrees new,
            append-take_room s.capacity s.index (distinct (s.index ++ (k ∷ [])) ks) k lt,
          )
      | inr (i, known) ↦ ground (arith, fill-Filled s ks v, elem-index_known dec k v.agrees known)
    ]
  ]

  abbrev closed : PeersSetState K → PeersSetState K
  closed r = record r { upper = r.upper % r.capacity }

  closed-IsValid : (r : PeersSetState K) → IsFilling r → IsValid (closed r)
  closed-IsValid r v = record {
    positive = v.positive;
    small = v.small;
    upper_in = omega (arith, v.positive);
    bounded = v.bounded;
    filling = λ lt. grind (arith, v.at_end);
    agrees = v.agrees;
  }

  queue-closed : (r : PeersSetState K) → IsFilling r → queue (closed r) ≡ r.index
  queue-closed r v = queue_end (closed r) v.positive v.bounded (ap (λ n. n % r.capacity) v.at_end)

  -- `with_peers_and_capacity` makes a valid set of the first distinct ids of the list, as many as
  -- fit, in the order of the list.
  pub with_peers_and_capacity-distinct :
      (ks : List K) (capacity : ℕ)
      → capacity < 2 ^ 32
      → IsValid (with_peers_and_capacity dec ks capacity)
        × (queue (with_peers_and_capacity dec ks capacity) ≡ take (max 1 capacity) (distinct [] ks))
  unfolding with_peers_and_capacity empty_state
  with_peers_and_capacity-distinct ks capacity h =
      let start = empty_state {K = K} (make_capacity capacity) in
      let v : IsFilling start = record {
        positive = omega arith;
        small = omega arith;
        bounded = omega arith;
        at_end = refl;
        agrees = record { sound = λ k i e. cc; complete = λ k i e. cc };
      } in
      let f = fill-Filled start ks v in
      (
        closed-IsValid _ f.filling,
        queue-closed _ f.filling ∙ f.taken ∙ ap (λ n. take n (distinct [] ks)) (omega arith),
      )
