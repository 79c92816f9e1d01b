-- ===== src/Adnl/PeersSet/Fifo.antt =====
-- src/adnl/peers_set.rs against its specification: a bounded queue with no id twice, the oldest
-- id first.
use mathlib.Core.List.{append-nil, append_assoc}
use tiny_adnl.Prelude.{
  ℕ, zero, suc, ◌%◌, ◌^◌, ◌≤◌, ◌<◌, ◌≡◌, ◌∙◌, refl, sym, ap, Bool, true, false, Option, none, some,
  List, [], ◌∷◌, ◌++◌, ◌||◌, ite, if_neg, if◌then◌else◌, ◌==◌, get_elem?, set, length, arith,
  Option-cases, Bool-cases, inl, inr, length-append, length-set, get_elem?-some-lt,
  get_elem?-none-le, take, drop, length-take, length-drop, drop-all, take-all, drop-suc-set,
  take-suc-set, tail-drop-append, take-append-drop, dec_lt,
}
use tiny_adnl.Prelude.Bytes.{add32}
use tiny_adnl.Adnl.PeersSet.{PeersSetState, insert, extend, contains}
use tiny_adnl.Adnl.PeersSet.Inv.{
  Agrees, IsValid, pushed, replaced, insert-pushed, insert-replaced, insert_known, insert-IsValid,
}

-- The ids from the oldest to the newest.
abbrev pub rotated : {K : Type 0} → ℕ → List K → List K
rotated n xs = drop n xs ++ take n xs

pub queue : {K : Type 0} → PeersSetState K → List K
queue s = rotated s.upper s.index

rotated_all : {K : Type 0} (n : ℕ) (xs : List K) → length xs ≤ n → rotated n xs ≡ xs
rotated_all n xs h = rw (drop-all xs n h, take-all xs n h)

length-rotated : {K : Type 0} (n : ℕ) (xs : List K) → length (rotated n xs) ≡ length xs
length-rotated n xs =
    omega (arith, length-append (drop n xs) (take n xs), length-drop n xs, length-take n xs)

next_in : (n cap : ℕ) → suc n < cap → cap < 2 ^ 32 → add32 n 1 % cap ≡ suc n
next_in n cap h small = grind arith

next_out : (n cap : ℕ) → n < cap → ¬ (suc n < cap) → cap < 2 ^ 32 → add32 n 1 % cap ≡ 0
next_out n cap h p small = grind arith

pub length-queue : {K : Type 0} (s : PeersSetState K) → length (queue s) ≡ length s.index
unfolding queue
length-queue s = length-rotated s.upper s.index

-- At its end and at its start a full ring is read alike.
rotated_end :
    {K : Type 0} (cap : ℕ) (xs : List K)
    → 0 < cap
    → length xs ≤ cap
    → rotated (length xs % cap) xs ≡ xs
rotated_end cap xs pos le = elim (dec_lt (length xs) cap) [
  | yes p ↦ rotated_all (length xs % cap) xs (grind arith)
  | no p ↦ let e : length xs % cap ≡ 0 = grind arith in rw e (append-nil xs)
]

-- The queue of a state that has only been filled up.
pub queue_end :
    {K : Type 0} (s : PeersSetState K)
    → 0 < s.capacity
    → length s.index ≤ s.capacity
    → s.upper ≡ length s.index % s.capacity
    → queue s ≡ s.index
unfolding queue
queue_end s pos le e = rw e (rotated_end s.capacity s.index pos le)

-- Where the next place is, the last one of the ring and the first one are read alike.
rotated-next :
    {K : Type 0} (n cap : ℕ) (xs : List K)
    → n < cap
    → cap < 2 ^ 32
    → length xs ≤ cap
    → rotated (add32 n 1 % cap) xs ≡ rotated (suc n) xs
rotated-next n cap xs h small le = elim (dec_lt (suc n) cap) [
  | yes p ↦ ap (λ k. rotated k xs) (next_in n cap p small)
  | no p ↦
      ap (λ k. rotated k xs) (next_out n cap h p small)
      ∙ append-nil xs
      ∙ sym (rotated_all (suc n) xs (omega arith))
]

module _ {K : Type 0} (dec : Discrete K) where
  unfoldable pub elem : K → List K → Bool
  elem k [] = false
  elem k (x ∷ xs) = ite (dec k x) true (elem k xs)

  elem-append : (k : K) (xs ys : List K) → elem k (xs ++ ys) ≡ (elem k xs || elem k ys)
  unfolding elem
  elem-append k [] ys = refl
  elem-append k (x ∷ xs) ys = ground (arith, elem-append k xs ys)

  elem-rotated : (k : K) (n : ℕ) (xs : List K) → elem k (rotated n xs) ≡ elem k xs
  elem-rotated k n xs = ground (
    arith,
    elem-append k (drop n xs) (take n xs),
    elem-append k (take n xs) (drop n xs),
    take-append-drop n xs,
  )

  elem_of_get : (k : K) (xs : List K) (i : ℕ) → get_elem? xs i ≡ some k → elem k xs ≡ true
  unfolding elem
  elem_of_get k [] i e = cc
  elem_of_get k (x ∷ xs) zero e = ground arith
  elem_of_get k (x ∷ xs) (suc i) e = ground (arith, elem_of_get k xs i e)

  pub get_of_elem : (k : K) (xs : List K) → elem k xs ≡ true → (i : ℕ) × (get_elem? xs i ≡ some k)
  unfolding elem
  get_of_elem k [] e = absurd (cc)
  get_of_elem k (x ∷ xs) e = elim (dec k x) [
    | yes p ↦ (0, ap some (sym p))
    | no p ↦ let (i, h) = get_of_elem k xs (rw (if_neg (dec k x) p) at e) in (suc i, h)
  ]

  -- What a set of at most `cap` ids does with one more: a known id changes nothing, a new one
  -- goes to the end and, where the set is full, drives out the oldest.
  pub push_bounded : ℕ → List K → K → List K × Bool
  push_bounded cap q k =
      if elem k q then (q, false) else ((if length q == cap then drop 1 q else q) ++ (k ∷ []), true)

  pub elem-index_known :
      {cache : K → Option ℕ} {index : List K} (k : K) {i : ℕ}
      → Agrees cache index
      → cache k ≡ some i
      → elem k index ≡ true
  elem-index_known {index = index} k {i} a e = elem_of_get k index i (a.sound k i e)

  pub elem-index_new :
      {cache : K → Option ℕ} {index : List K} (k : K)
      → Agrees cache index
      → cache k ≡ none
      → elem k index ≡ false
  elem-index_new {index = index} k a e = elim (Bool-cases (elem k index)) [
    | inr f ↦ f
    | inl t ↦ let (i, h) = get_of_elem k index t in absurd (cc (a.complete k i h))
  ]

  -- `contains` is membership in the queue.
  pub contains-elem : {s : PeersSetState K} (k : K) → IsValid s → contains s k ≡ elem k (queue s)
  unfolding contains queue
  contains-elem {s} k v = elim (Option-cases (s.cache k)) [
    | inl new ↦ rw (new, contains, elem-rotated, elem-index_new k v.agrees new)
    | inr (i, known) ↦ rw (known, contains, elem-rotated, elem-index_known k v.agrees known)
  ]

  queue-pushed :
      (s : PeersSetState K) (k : K)
      → IsValid s
      → get_elem? s.index s.upper ≡ none
      → queue (pushed dec s k) ≡ queue s ++ (k ∷ [])
  unfolding queue
  queue-pushed s k v free =
      let le : length s.index ≤ s.upper = get_elem?-none-le s.index s.upper free in
      let more : length (s.index ++ (k ∷ [])) ≤ suc s.upper =
        omega (arith, length-append s.index (k ∷ [])) in
      rotated-next s.upper s.capacity (s.index ++ (k ∷ [])) v.upper_in v.small (omega arith)
      ∙ rotated_all (suc s.upper) (s.index ++ (k ∷ [])) more
      ∙ ap (λ q. q ++ (k ∷ [])) (sym (rotated_all s.upper s.index le))

  queue-replaced :
      (s : PeersSetState K) (k old : K)
      → IsValid s
      → get_elem? s.index s.upper ≡ some old
      → queue (replaced dec s k old) ≡ drop 1 (queue s) ++ (k ∷ [])
  unfolding queue
  queue-replaced s k old v here =
      let lt : s.upper < length s.index = get_elem?-some-lt s.index s.upper here in
      let le : length (set s.index s.upper k) ≤ s.capacity =
        omega (arith, length-set s.index s.upper k) in
      rotated-next s.upper s.capacity (set s.index s.upper k) v.upper_in v.small le
      ∙ rw (
        drop-suc-set,
        take-suc-set s.index s.upper k lt,
        tail-drop-append s.index (take s.upper s.index) s.upper lt,
        append_assoc,
      )

  -- `insert` is the insertion into a bounded queue without repetitions, result and state: a known
  -- id is refused and changes nothing, a new one becomes the newest, and exactly the oldest id
  -- is driven out when the set is full.
  pub insert-push_bounded :
      {s : PeersSetState K} (k : K)
      → IsValid s
      → (queue (insert dec s k).0, (insert dec s k).1) ≡ push_bounded s.capacity (queue s) k
  unfolding push_bounded
  insert-push_bounded {s} k v = elim (Option-cases (s.cache k)) [
    | inr (i, known) ↦
        rw (insert_known dec s k known, elem_queue k, elem-index_known k v.agrees known)
    | inl new ↦ elim (Option-cases (get_elem? s.index s.upper)) [
      | inl free ↦
          rw
            (
              insert-pushed dec s k new free,
              elem_queue k,
              elem-index_new k v.agrees new,
              queue-pushed s k v free,
            )
            (ground (arith, length-queue s, get_elem?-none-le s.index s.upper free))
      | inr (old, here) ↦
          rw
            (
              insert-replaced dec s k new here,
              elem_queue k,
              elem-index_new k v.agrees new,
              queue-replaced s k old v here,
            )
            (ground (arith, length-queue s, get_elem?-some-lt s.index s.upper here))
    ]
  ]
    where
      elem_queue : (j : K) → elem j (queue s) ≡ elem j s.index
      elem_queue j = unfold queue in elem-rotated j s.upper s.index

  pub push_all : ℕ → List K → List K → List K
  push_all cap q [] = q
  push_all cap q (k ∷ ks) = push_all cap (push_bounded cap q k).0 ks

  cap-insert : (s : PeersSetState K) (k : K) → (insert dec s k).0.capacity ≡ s.capacity
  unfolding insert
  cap-insert s k = ground arith

  -- `extend` keeps the invariant, and its state is that of the bounded queue after the same
  -- insertions in the same order.
  pub extend-push_all :
      {s : PeersSetState K} (ks : List K)
      → IsValid s
      → IsValid (extend dec s ks) × (queue (extend dec s ks) ≡ push_all s.capacity (queue s) ks)
  unfolding extend push_all
  extend-push_all [] v = (v, refl)
  extend-push_all {s} (k ∷ ks) v =
      let rest = extend-push_all {s = (insert dec s k).0} ks (insert-IsValid dec k v) in
      (rest.0, rest.1 ∙ rw (cap-insert s k, ap (λ r. r.0) (insert-push_bounded k v)))
