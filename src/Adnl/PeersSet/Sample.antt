-- ===== src/Adnl/PeersSet/Sample.antt =====
-- A choice to run src/adnl/peers_set.rs and its users with.
use mathlib.Core.Path.{subst, sym}
use tiny_adnl.Prelude.{
  ℕ, ◌≡◌, refl, true, false, List, [], ◌∷◌, arith, ℕ_discrete as dec, take, length-take,
}
use tiny_adnl.Adnl.PeersSet.{PeersSetState, with_capacity, contains, insert, extend, evict}
use tiny_adnl.Adnl.PeersSet.Fifo.{elem}
use tiny_adnl.Adnl.PeersSet.Choose.{IsChoice, AllDistinct}

-- A choice that is not random: the first elements.
abbrev pub choose_first : List ℕ → ℕ → List ℕ
choose_first xs n = take n xs

elem-take : (k : ℕ) (n : ℕ) (xs : List ℕ) → elem dec k (take n xs) ≡ true → elem dec k xs ≡ true
unfolding elem
elem-take k ℕ.zero xs h = absurd (cc)
elem-take k (ℕ.suc n) [] h = absurd (cc)
elem-take k (ℕ.suc n) (x ∷ xs) h = ground (arith, elem-take k n xs)

absent-take : (k : ℕ) (n : ℕ) (xs : List ℕ) → elem dec k xs ≡ false → elem dec k (take n xs) ≡ false
unfolding elem
absent-take k ℕ.zero xs h = refl
absent-take k (ℕ.suc n) [] h = refl
absent-take k (ℕ.suc n) (x ∷ xs) h = ground (arith, absent-take k n xs)

AllDistinct-take : (xs : List ℕ) (n : ℕ) → AllDistinct dec xs → AllDistinct dec (take n xs)
AllDistinct-take xs ℕ.zero h = tt
AllDistinct-take [] (ℕ.suc n) h = tt
AllDistinct-take (x ∷ xs) (ℕ.suc n) h = (absent-take x n xs h.0, AllDistinct-take xs n h.1)

pub choose_first-IsChoice : IsChoice dec choose_first
choose_first-IsChoice = record {
  from = λ xs n k h. elem-take k n xs h;
  size = λ xs n. length-take n xs;
  different = AllDistinct-take;
}

-- Sets with two peers.
abbrev pub two_peers : ℕ → PeersSetState ℕ
two_peers capacity = extend dec (with_capacity capacity) (1 ∷ 2 ∷ [])

pub two_peers-contains : contains (two_peers 4) 1 ≡ true
unfolding contains insert extend with_capacity dec evict
two_peers-contains = refl

two_peers-index : (two_peers 8).index ≡ 1 ∷ 2 ∷ []
unfolding insert extend with_capacity dec evict
two_peers-index = refl

two_peers-contains_two : contains (two_peers 4) 2 ≡ true
unfolding contains insert extend with_capacity dec evict
two_peers-contains_two = refl

pub two_peers-near :
    (k : ℕ) → elem dec k (two_peers 8).index ≡ true → contains (two_peers 4) k ≡ true
unfolding elem
two_peers-near k known = elim (dec k 1) [
  | yes one ↦ subst (λ j. contains (two_peers 4) j ≡ true) (sym one) two_peers-contains
  | no not_one ↦ elim (dec k 2) [
    | yes two ↦ subst (λ j. contains (two_peers 4) j ≡ true) (sym two) two_peers-contains_two
    | no not_two ↦ absurd (ground (arith, rw two_peers-index at known))
  ]
]
