-- ===== src/Adnl/PeersSet/Inv.antt =====
-- The invariant of the state of src/adnl/peers_set.rs: the map and the ring agree, and the ring
-- fills up before it goes round.
use tiny_adnl.Prelude.{
  ℕ, ◌%◌, ◌^◌, ◌≤◌, ◌<◌, ◌≡◌, refl, true, false, Option, none, some, List, [], ◌∷◌, ◌++◌, get_elem?,
  set, length, arith, Option-cases, inl, inr, length-append, length-set, get_elem?-some-lt,
  get_elem?-none-le, get_elem?-append_last, get_elem?-set,
}
use tiny_adnl.Prelude.Bytes.{add64, add32}
use tiny_adnl.Adnl.PeersSet.{PeersSetState, with_capacity, insert_entry, evict, insert}

-- The map and the ring agree on where each id is.
pub record Agrees {K : Type 0} (cache : K → Option ℕ) (index : List K) : Type 0 where
  pub sound : (k : K) (i : ℕ) → cache k ≡ some i → get_elem? index i ≡ some k
  pub complete : (k : K) (i : ℕ) → get_elem? index i ≡ some k → cache k ≡ some i

pub record IsValid {K : Type 0} (s : PeersSetState K) : Type 0 where
  pub positive : 0 < s.capacity
  pub small : s.capacity < 2 ^ 32
  pub upper_in : s.upper < s.capacity
  pub bounded : length s.index ≤ s.capacity
  pub filling : length s.index < s.capacity → s.upper ≡ length s.index
  pub agrees : Agrees s.cache s.index

-- The set that `with_capacity` makes is valid.
pub with_capacity-IsValid :
    {K : Type 0} (capacity : ℕ) → capacity < 2 ^ 32 → IsValid (with_capacity {K = K} capacity)
unfolding with_capacity
with_capacity-IsValid capacity h = record {
  positive = omega arith;
  small = omega arith;
  upper_in = omega arith;
  bounded = omega arith;
  filling = λ _. refl;
  agrees = record { sound = λ k i e. cc; complete = λ k i e. cc };
}

module _ {K : Type 0} (dec : Discrete K) where
  pub Agrees-push :
      {cache : K → Option ℕ} {index : List K} (k : K)
      → cache k ≡ none
      → Agrees cache index
      → Agrees (insert_entry dec cache k (length index)) (index ++ (k ∷ []))
  Agrees-push {cache} {index} k new a = record {
    sound = λ j i e.
        ground
          (arith, get_elem?-append_last index k i, a.sound j i, get_elem?-some-lt index i {a = j});
    complete = λ j i e. ground (arith, get_elem?-append_last index k i, a.complete j i);
  }

  Agrees-replace :
      {cache : K → Option ℕ} {index : List K} (k old : K) (n : ℕ)
      → cache k ≡ none
      → get_elem? index n ≡ some old
      → Agrees cache index
      → Agrees (evict dec (insert_entry dec cache k n) old n) (set index n k)
  unfolding evict
  Agrees-replace {cache} {index} k old n new here a = record {
    sound = λ j i e. ground (
      arith,
      get_elem?-set index n i k (get_elem?-some-lt index n here),
      a.sound j i,
      a.complete old n here,
    );
    complete = λ j i e. ground (
      arith,
      get_elem?-set index n i k (get_elem?-some-lt index n here),
      a.complete j i,
      a.complete old n here,
    );
  }

  -- The state after a new id, while the ring fills up and when it goes round.
  abbrev pub pushed : PeersSetState K → K → PeersSetState K
  pushed s k = record s {
    version = add64 s.version 1;
    cache = insert_entry dec s.cache k s.upper;
    index = s.index ++ (k ∷ []);
    upper = add32 s.upper 1 % s.capacity;
  }

  abbrev pub replaced : PeersSetState K → K → K → PeersSetState K
  replaced s k old = record s {
    version = add64 s.version 1;
    cache = evict dec (insert_entry dec s.cache k s.upper) old s.upper;
    index = set s.index s.upper k;
    upper = add32 s.upper 1 % s.capacity;
  }

  pub insert-pushed :
      (s : PeersSetState K) (k : K)
      → s.cache k ≡ none
      → get_elem? s.index s.upper ≡ none
      → insert dec s k ≡ (pushed s k, true)
  unfolding insert
  insert-pushed s k new free = rw (new, insert, free)

  pub insert-replaced :
      (s : PeersSetState K) (k : K) {old : K}
      → s.cache k ≡ none
      → get_elem? s.index s.upper ≡ some old
      → insert dec s k ≡ (replaced s k old, true)
  unfolding insert
  insert-replaced s k new here = rw (new, insert, here)

  pub insert_known :
      (s : PeersSetState K) (k : K) {i : ℕ} → s.cache k ≡ some i → insert dec s k ≡ (s, false)
  unfolding insert
  insert_known s k known = rw (known, insert)

  -- A free place is the end of the ring.
  pub upper-eq-length :
      {s : PeersSetState K}
      → IsValid s
      → get_elem? s.index s.upper ≡ none
      → s.upper ≡ length s.index
  upper-eq-length {s} v free = omega (arith, get_elem?-none-le s.index s.upper free)

  pub next_upper-lt : (s : PeersSetState K) → IsValid s → add32 s.upper 1 % s.capacity < s.capacity
  next_upper-lt s v = omega (arith, v.positive)

  pushed-IsValid :
      (s : PeersSetState K) (k : K)
      → s.cache k ≡ none
      → get_elem? s.index s.upper ≡ none
      → IsValid s
      → IsValid (pushed s k)
  pushed-IsValid s k new free v =
      let e : s.upper ≡ length s.index = upper-eq-length v free in
      record {
        positive = v.positive;
        small = v.small;
        upper_in = next_upper-lt s v;
        bounded = omega (arith, length-append s.index (k ∷ []));
        filling = λ h. grind (arith, length-append s.index (k ∷ []));
        agrees = rw e (Agrees-push k new v.agrees);
      }

  replaced-IsValid :
      (s : PeersSetState K) (k old : K)
      → s.cache k ≡ none
      → get_elem? s.index s.upper ≡ some old
      → IsValid s
      → IsValid (replaced s k old)
  replaced-IsValid s k old new here v = record {
    positive = v.positive;
    small = v.small;
    upper_in = next_upper-lt s v;
    bounded = omega (arith, length-set s.index s.upper k);
    filling = λ h.
        absurd
          (omega (arith, length-set s.index s.upper k, get_elem?-some-lt s.index s.upper here));
    agrees = Agrees-replace k old s.upper new here v.agrees;
  }

  -- `insert` keeps the invariant.
  pub insert-IsValid : {s : PeersSetState K} (k : K) → IsValid s → IsValid (insert dec s k).0
  insert-IsValid {s} k v = elim (Option-cases (s.cache k)) [
    | inr (i, known) ↦ rw (insert_known s k known) v
    | inl new ↦ elim (Option-cases (get_elem? s.index s.upper)) [
      | inl free ↦ rw (insert-pushed s k new free) (pushed-IsValid s k new free v)
      | inr (old, here) ↦ rw (insert-replaced s k new here) (replaced-IsValid s k old new here v)
    ]
  ]
