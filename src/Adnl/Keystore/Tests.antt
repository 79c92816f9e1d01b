-- ===== src/Adnl/Keystore/Tests.antt =====
-- src/adnl/keystore.rs at concrete keys.
use tiny_adnl.Prelude.{ℕ, ◌≡◌, refl, ok, err, List, [], ◌∷◌, length}
use tiny_adnl.Adnl.Keystore.{duplicated_key, empty, insert_tag, insert_key, from_bytes, add_key}

-- An id to run with: the length.
abbrev short_id : List ℕ → ℕ
short_id = length

added : (add_key short_id empty (1 ∷ 2 ∷ []) 7).1 ≡ ok 2
unfolding add_key empty
added = refl

-- The same key under another tag is an error, but the other tag is there from then on.
tag_stays :
    (add_key short_id (add_key short_id empty (1 ∷ 2 ∷ []) 7).0 (1 ∷ 2 ∷ []) 8).1
    ≡ err (duplicated_key 8)
unfolding add_key empty insert_tag insert_key from_bytes
tag_stays = refl
