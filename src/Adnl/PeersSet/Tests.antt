-- ===== src/Adnl/PeersSet/Tests.antt =====
-- Runs of src/adnl/peers_set.rs, and the theorems at concrete sets.
use tiny_adnl.Prelude.{ℕ, ◌≡◌, refl, true, false, some, [], ◌∷◌, arith, ℕ_discrete as dec}
use tiny_adnl.Adnl.PeersSet.{
  PeersSetState, with_capacity, is_full, contains, get, evict, insert, extend,
}
use tiny_adnl.Adnl.PeersSet.Inv.{IsValid, with_capacity-IsValid}
use tiny_adnl.Adnl.PeersSet.Fifo.{queue, push_bounded, insert-push_bounded, extend-push_all}

abbrev small : PeersSetState ℕ
small = with_capacity 3

abbrev full : PeersSetState ℕ
full = extend dec small (5 ∷ 6 ∷ 7 ∷ [])

full-IsValid : IsValid full
full-IsValid =
    (extend-push_all dec {s = small} (5 ∷ 6 ∷ 7 ∷ []) (with_capacity-IsValid 3 (omega arith))).0

-- `test_entries_replacing`
replacing :
    (is_full full ≡ true)
    × (contains full 5 ≡ true)
    × (contains (insert dec full 8).0 8 ≡ true)
    × (contains (insert dec full 8).0 5 ≡ false)
    × ((insert dec full 6).1 ≡ false)
    × (get (insert dec full 8).0 0 ≡ some 8)
unfolding is_full contains get insert extend with_capacity evict dec
replacing = (refl, refl, refl, refl, refl, refl)

insert-push_bounded_example :
    (queue (insert dec full 8).0, (insert dec full 8).1)
    ≡ push_bounded dec full.capacity (queue full) 8
insert-push_bounded_example = insert-push_bounded dec 8 full-IsValid
