-- ===== src/Adnl/PeersSet/Choose.antt =====
-- `get_random_peers` and `randomly_fill_from` of src/adnl/peers_set.rs. The choice itself,
-- `choose_multiple` of the crate `rand`, is a parameter.
use mathlib.Core.Path.{subst}
use tiny_adnl.Prelude.{
  ℕ, zero, suc, ◌+◌, ◌-◌, ◌^◌, ◌≤◌, ◌<◌, ◌≡◌, refl, Bool, true, false, Option, none, some, List, [],
  ◌∷◌, not, if◌then◌else◌, length, min, arith, take, Bool-cases, get_elem?, length-take, inl, inr,
}
use tiny_adnl.Prelude.Bytes.{add32, add64}
use tiny_adnl.Adnl.PeersSet.{PeersSetState, extend}
use tiny_adnl.Adnl.PeersSet.Inv.{IsValid}
use tiny_adnl.Adnl.PeersSet.Fifo.{elem, get_of_elem, queue, push_all, extend-push_all}

unfoldable pub keep : {K : Type 0} → (K → Bool) → List K → List K
keep p [] = []
keep p (x ∷ xs) = if p x then x ∷ keep p xs else keep p xs

module _ {K : Type 0} (dec : Discrete K) where
  -- No id stands twice.
  abbrev pub AllDistinct : List K → Type 0
  AllDistinct [] = Unit
  AllDistinct (x ∷ xs) = (elem dec x xs ≡ false) × AllDistinct xs

  -- What `choose_multiple` documents: as many different elements as were asked for, or all.
  pub record IsChoice (choose : List K → ℕ → List K) : Type 0 where
    pub from :
        (xs : List K) (n : ℕ) (k : K) → elem dec k (choose xs n) ≡ true → elem dec k xs ≡ true
    pub size : (xs : List K) (n : ℕ) → length (choose xs n) ≡ min n (length xs)
    pub different : (xs : List K) (n : ℕ) → AllDistinct xs → AllDistinct (choose xs n)

  module _ (choose : List K → ℕ → List K) where
    pub get_random_peers : PeersSetState K → ℕ → Option K → List K
    get_random_peers s amount except = elim except [
      | some e ↦
          take amount (keep (λ k. not (elem dec k (e ∷ []))) (choose s.index (add32 amount 1)))
      | none ↦ choose s.index amount
    ]

    -- `same` is the test that both arguments are one object.
    unfoldable pub randomly_fill_from :
        Bool → PeersSetState K → PeersSetState K → ℕ → Option (List K) → PeersSetState K
    randomly_fill_from same s other amount except = if same then s else elim except [
      | some es ↦ extend dec s (
          take amount
            (keep (λ k. not (elem dec k es)) (choose other.index (add64 amount (length es)))))
      | none ↦ extend dec s (choose other.index amount)
    ]

  -- What a choice of at most `amount` ids from a list without the excluded ones is.
  pub record Picked (from excluded : List K) (amount : ℕ) (picked : List K) : Type 0 where
    pub few : length picked ≤ amount
    pub among : (k : K) → elem dec k picked ≡ true → elem dec k from ≡ true
    pub avoids : (k : K) → elem dec k excluded ≡ true → elem dec k picked ≡ false

  elem-take : (k : K) (n : ℕ) (xs : List K) → elem dec k (take n xs) ≡ true → elem dec k xs ≡ true
  unfolding elem
  elem-take k zero xs h = absurd (cc)
  elem-take k (suc n) [] h = absurd (cc)
  elem-take k (suc n) (x ∷ xs) h = ground (arith, elem-take k n xs)

  elem-keep :
      (k : K) (p : K → Bool) (xs : List K)
      → elem dec k (keep p xs) ≡ true
      → (elem dec k xs ≡ true) × (p k ≡ true)
  unfolding keep elem
  elem-keep k p [] h = absurd (cc)
  elem-keep k p (x ∷ xs) h = ground (arith, elem-keep k p xs)

  pub keep-Picked :
      (es xs : List K) (n : ℕ) → Picked xs es n (take n (keep (λ k. not (elem dec k es)) xs))
  keep-Picked es xs n = record {
    few = omega (arith, length-take n (keep (λ k. not (elem dec k es)) xs));
    among = λ k h. (elem-keep k _ xs (elem-take k n _ h)).0;
    avoids = λ k h. elim (Bool-cases (elem dec k (take n (keep (λ j. not (elem dec j es)) xs)))) [
      | inr f ↦ f
      | inl t ↦
          absurd (ground (arith, elem-keep k (λ j. not (elem dec j es)) xs (elem-take k n _ t)))
    ];
  }

  keep-all :
      (e : K) (xs : List K) → elem dec e xs ≡ false → keep (λ k. not (elem dec k (e ∷ []))) xs ≡ xs
  unfolding keep elem
  keep-all e [] h = refl
  keep-all e (x ∷ xs) h = ground (arith, keep-all e xs)

  -- At most one element of a list without repetitions is left out.
  length-keep :
      (e : K) (xs : List K)
      → AllDistinct xs
      → length xs ≤ length (keep (λ k. not (elem dec k (e ∷ []))) xs) + 1
  unfolding keep elem
  length-keep e [] d = omega arith
  length-keep e (x ∷ xs) d = elim (dec x e) [
    | yes p ↦ ground (arith, keep-all e xs (subst (λ y. elem dec y xs ≡ false) p d.0))
    | no p ↦ ground (arith, length-keep e xs d.1)
  ]

  -- The ring of a valid set has no id twice.
  distinct_of_positions :
      (xs : List K)
      → ((i j : ℕ) (k : K) → get_elem? xs i ≡ some k → get_elem? xs j ≡ some k → i ≡ j)
      → AllDistinct xs
  distinct_of_positions [] inj = tt
  distinct_of_positions (x ∷ xs) inj = (
    elim (Bool-cases (elem dec x xs)) [
      | inr f ↦ f
      | inl t ↦
          let (i, h) = get_of_elem dec x xs t in absurd (omega (arith, inj 0 (suc i) x refl h))
    ],
    distinct_of_positions xs (λ i j k hi hj. omega (arith, inj (suc i) (suc j) k hi hj)),
  )

  pub IsValid-AllDistinct : (s : PeersSetState K) → IsValid s → AllDistinct s.index
  IsValid-AllDistinct s v =
      distinct_of_positions s.index
        (λ i j k hi hj. ground (arith, v.agrees.complete k i hi, v.agrees.complete k j hj))

  abbrev pub excluded : Option K → List K
  excluded none = []
  excluded (some e) = e ∷ []

  -- `get_random_peers` gives ids of the set, never the excluded one, and no more than asked for;
  -- it gives as many as asked for, or as many as the set has without the excluded one.
  pub get_random_peers-Picked :
      (choose : List K → ℕ → List K) (s : PeersSetState K) (amount : ℕ) (except : Option K)
      → IsChoice choose
      → IsValid s
      → amount + 1 < 2 ^ 32
      → Picked s.index (excluded except) amount (get_random_peers choose s amount except)
        × (min amount (length s.index - length (excluded except))
            ≤ length (get_random_peers choose s amount except))
  unfolding get_random_peers elem
  get_random_peers-Picked choose s amount none c v small = (
    record {
      few = omega (arith, c.size s.index amount);
      among = c.from s.index amount;
      avoids = λ k h. absurd (cc);
    },
    omega (arith, c.size s.index amount),
  )
  get_random_peers-Picked choose s amount (some e) c v small =
      let n : add32 amount 1 ≡ amount + 1 = omega arith in
      let xs = choose s.index (add32 amount 1) in
      let kept = keep (λ k. not (elem dec k (e ∷ []))) xs in
      let p = keep-Picked (e ∷ []) xs amount in
      (
        record {
          few = p.few;
          among = λ k h. c.from s.index (add32 amount 1) k (p.among k h);
          avoids = p.avoids;
        },
        omega (
          arith,
          n,
          length-take amount kept,
          length-keep e xs (c.different s.index (add32 amount 1) (IsValid-AllDistinct s v)),
          c.size s.index (add32 amount 1),
        ),
      )

  abbrev pub excepted : Option (List K) → List K
  excepted none = []
  excepted (some es) = es

  -- What `randomly_fill_from` inserts.
  pub record FilledFrom (s other r : PeersSetState K) (amount : ℕ) (es : List K) : Type 0 where
    pub picked : List K
    pub choice : Picked other.index es amount picked
    pub valid : IsValid r
    pub inserted : queue r ≡ push_all dec s.capacity (queue s) picked

  -- `randomly_fill_from` inserts at most `amount` ids of the other set, none of the excepted ones,
  -- by the rules of the bounded queue, and keeps the invariant; on one and the same set it does
  -- nothing.
  pub randomly_fill_from-FilledFrom :
      (choose : List K → ℕ → List K) (s other : PeersSetState K) (amount : ℕ)
      (except : Option (List K))
      → IsChoice choose
      → IsValid s
      → (randomly_fill_from choose true s other amount except ≡ s)
        × FilledFrom s other
            (randomly_fill_from choose false s other amount except)
            amount
            (excepted except)
  unfolding randomly_fill_from elem
  randomly_fill_from-FilledFrom choose s other amount none c v = (
    refl,
    let picked = choose other.index amount in
        let e = extend-push_all dec {s = s} picked v in
        record {
          picked = picked;
          choice = record {
            few = omega (arith, c.size other.index amount);
            among = c.from other.index amount;
            avoids = λ k h. absurd (cc);
          };
          valid = e.0;
          inserted = e.1;
        },
  )
  randomly_fill_from-FilledFrom choose s other amount (some es) c v = (
    refl,
    let n = add64 amount (length es) in
        let xs = choose other.index n in
        let p = keep-Picked es xs amount in
        let e = extend-push_all dec {s = s} (take amount (keep (λ k. not (elem dec k es)) xs)) v in
        record {
          picked = take amount (keep (λ k. not (elem dec k es)) xs);
          choice = record {
            few = p.few;
            among = λ k h. c.from other.index n k (p.among k h);
            avoids = p.avoids;
          };
          valid = e.0;
          inserted = e.1;
        },
  )
