-- ===== src/Adnl/Transfer/Tests.antt =====
-- Runs of src/adnl/transfer.rs, and the theorems at concrete parts.
use mathlib.Core.List.{Permᴰ}
use tiny_adnl.Prelude.{
  ℕ, ◌+◌, ◌-◌, ◌≡◌, refl, none, some, List, [], ◌∷◌, ◌++◌, arith, length, replicate,
}
use tiny_adnl.Adnl.Transfer.{Transfer, pending, complete, new, join, finish, add_part}
use tiny_adnl.Adnl.Transfer.Join.{concat, size}
use tiny_adnl.Adnl.Transfer.Parts.{Part}
use tiny_adnl.Adnl.Transfer.Order.{add_parts, add_parts-complete}
use tiny_adnl.Adnl.Transfer.Stuck.{add_part-none}

-- A hash to run with: the number of bytes.
abbrev digest : List ℕ → ℕ
digest = length

abbrev chunks : List (List ℕ)
chunks = (1 ∷ 2 ∷ []) ∷ (3 ∷ []) ∷ []

abbrev backwards : List Part
backwards = (2, 3 ∷ []) ∷ (0, 1 ∷ 2 ∷ []) ∷ []

backwards_runs :
    add_parts digest 3 4 (new 3) backwards ≡ some pending ∷ some (complete (1 ∷ 2 ∷ 3 ∷ [])) ∷ []
unfolding add_parts add_part finish join new
backwards_runs = refl

-- A part that comes again replaces the one that was stored, and the message has the new bytes.
replaced_runs :
    add_parts digest 3 4 (new 3) ((0, 1 ∷ 2 ∷ []) ∷ (0, 8 ∷ 9 ∷ []) ∷ (2, 3 ∷ []) ∷ [])
    ≡ some pending ∷ some pending ∷ some (complete (8 ∷ 9 ∷ 3 ∷ [])) ∷ []
unfolding add_parts add_part finish join new
replaced_runs = refl

add_parts-complete_example :
    add_parts digest 3 (size chunks + 1) (new (size chunks)) backwards
    ≡ replicate (length backwards - 1) (some pending) ++ (some (complete (concat chunks)) ∷ [])
add_parts-complete_example =
    add_parts-complete digest 3 chunks backwards (omega arith) (omega arith) (omega arith) refl
      (Permᴰ.swap refl refl)

add_part-none_example :
    (add_part digest 3 9 (add_part digest 3 9 (new 3) 0 []).0 5 (1 ∷ 2 ∷ 3 ∷ [])).1 ≡ none
add_part-none_example =
    add_part-none digest 3 9 9 3 5 (1 ∷ 2 ∷ 3 ∷ []) (omega arith) (omega arith) (omega arith) refl

-- The last part of the message.
abbrev halfway : Transfer
halfway = record (new 3) { parts = λ i. none; received_len = 2 }
