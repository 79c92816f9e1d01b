-- ===== src/Adnl/Sender/Parts/Tests.antt =====
-- Messages that src/adnl/node/sender.rs cuts into parts.
use mathlib.Core.List.{Permᴰ}
use tiny_adnl.Prelude.{
  ℕ, ◌+◌, ◌-◌, ◌≡◌, refl, none, some, List, [], ◌∷◌, ◌++◌, length, replicate, arith, inl, inr,
}
use tiny_adnl.Adnl.Transfer.{new, pending, complete}
use tiny_adnl.Adnl.Transfer.Order.{add_parts}
use tiny_adnl.Adnl.Transfer.Short.{AllFrom}
use tiny_adnl.Adnl.Sender.Parts.{build_part_message, part_loop, split_parts}
use tiny_adnl.Adnl.Sender.Parts.Arrive.{split_parts-add_parts}
use tiny_adnl.Adnl.Sender.Parts.Lost.{split_parts-pending}

abbrev long_message : List ℕ
long_message = replicate 1500 7

abbrev longer_message : List ℕ
longer_message = replicate 5000 7

abbrev sizes : List (ℕ × List ℕ) → List (ℕ × ℕ)
sizes [] = []
sizes ((offset, bytes) ∷ rest) = (offset, length bytes) ∷ sizes rest

-- The bytes from 2048 to 3071 are missing, and those from 4096 on.
offsets : sizes (split_parts 20 longer_message none) ≡ (0, 1024) ∷ (1024, 1024) ∷ (3072, 1024) ∷ []
unfolding split_parts part_loop build_part_message
offsets = refl

backwards : List (ℕ × List ℕ)
backwards = (984 - 40, replicate 556 7) ∷ (0, replicate 944 7) ∷ []

backwards-Permᴰ : Permᴰ (split_parts 2 long_message (some 40)) backwards
unfolding split_parts part_loop build_part_message backwards
backwards-Permᴰ = Permᴰ.swap refl refl

split_parts-add_parts_example :
    add_parts length 1500 (length long_message + 1) (new (length long_message)) backwards
    ≡ replicate (length backwards - 1) (some pending) ++ (some (complete long_message) ∷ [])
split_parts-add_parts_example =
    split_parts-add_parts length 0 long_message (some 40) backwards (omega arith) (omega arith)
      (omega arith) (omega arith) backwards-Permᴰ

abbrev twice_the_middle : List (ℕ × List ℕ)
twice_the_middle = (1024, replicate 1024 7) ∷ (0, replicate 1024 7) ∷ (1024, replicate 1024 7) ∷ []

from_the_parts : AllFrom (split_parts 20 longer_message none) twice_the_middle
unfolding split_parts part_loop build_part_message
from_the_parts = (inr (inl (refl, refl)), (inl (refl, refl), (inr (inl (refl, refl)), tt)))

split_parts-pending_example :
    add_parts length 5000 9 (new 5000) twice_the_middle
    ≡ replicate (length twice_the_middle) (some pending)
split_parts-pending_example =
    split_parts-pending length 5000 20 9 longer_message none twice_the_middle (omega arith)
      (omega arith) (omega arith) from_the_parts
