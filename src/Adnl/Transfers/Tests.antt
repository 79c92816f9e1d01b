-- ===== src/Adnl/Transfers/Tests.antt =====
-- Two messages of src/adnl/node/receiver.rs whose parts arrive in between each other.
use mathlib.Core.List.{Permᴰ}
use tiny_adnl.Prelude.{
  ℕ, ◌+◌, ◌-◌, ◌≡◌, refl, none, some, List, [], ◌∷◌, ◌++◌, arith, length, replicate,
}
use tiny_adnl.Adnl.Transfer.{pending, complete}
use tiny_adnl.Adnl.Transfer.Join.{concat, size}
use tiny_adnl.Adnl.Transfers.{Transfers, PartMessage}
use tiny_adnl.Adnl.Transfers.Interleaved.{
  answers_to, table_after, parts_of, Announces, answers_to-complete,
}

-- A hash to run with: the number of bytes.
abbrev digest : List ℕ → ℕ
digest = length

abbrev chunks : List (List ℕ)
chunks = (1 ∷ 2 ∷ []) ∷ (3 ∷ []) ∷ []

abbrev mixed : List PartMessage
mixed =
    record { hash = 3; total_size = 3; offset = 2; bytes = 3 ∷ [] }
    ∷ record { hash = 5; total_size = 5; offset = 0; bytes = 7 ∷ [] }
    ∷ record { hash = 3; total_size = 3; offset = 0; bytes = 1 ∷ 2 ∷ [] }
    ∷ []

abbrev empty : Transfers
empty _ = none

announced : Announces 3 3 mixed
unfolding Announces
announced = (λ _. refl, (λ e. absurd (omega arith), (λ _. refl, tt)))

answers_to-complete_example :
    (answers_to digest (size chunks + 1) 3 empty mixed
      ≡ replicate (length (parts_of 3 mixed) - 1) (some pending)
        ++ (some (complete (concat chunks)) ∷ []))
    × (table_after digest (size chunks + 1) empty mixed 3 ≡ none)
unfolding parts_of
answers_to-complete_example =
    answers_to-complete digest 3 chunks empty mixed (omega arith) (omega arith) (omega arith) refl
      refl announced (Permᴰ.swap refl refl)
