-- ===== src/Adnl/Keystore/Lookup.antt =====
-- What can be found in a key store of src/adnl/keystore.rs.
use tiny_adnl.Prelude.{
  ℕ, ◌≡◌, refl, some, ok, List, ◌==◌, arith, Option-cases, Bool-cases, inl, inr,
}
use tiny_adnl.Adnl.Keystore.{
  Key, Keystore, empty, key_by_id, key_by_tag, insert_tag, insert_key, from_bytes, add_key,
}

-- Each tag leads to a key of its own id.
pub Linked : Keystore → Type 0
Linked s =
    (tag id : ℕ) → s.tags tag ≡ some id → (key : Key) × (s.keys id ≡ some key) × (key.short_id ≡ id)

pub empty-Linked : Linked empty
unfolding Linked empty
empty-Linked tag id h = cc

module _ (short_id : List ℕ → ℕ) where
  -- A key that is added is found by its tag.
  pub add_key-key_by_tag :
      (s : Keystore) (secret : List ℕ) (tag id : ℕ)
      → Linked s
      → (add_key short_id s secret tag).1 ≡ ok id
      → (key : Key) × (key_by_tag (add_key short_id s secret tag).0 tag ≡ ok key)
        × (key.short_id ≡ short_id secret)
        × (id ≡ short_id secret)
  unfolding add_key key_by_tag key_by_id insert_tag insert_key from_bytes Linked
  add_key-key_by_tag s secret tag id linked h = elim (Option-cases (s.tags tag)) [
    | inl new ↦ elim (Option-cases (s.keys (short_id secret))) [
      | inl fresh ↦ (from_bytes short_id secret, ground arith, refl, ground arith)
      | inr (k, there) ↦ absurd (ground arith)
    ]
    | inr (old, known) ↦ elim (Bool-cases (old == short_id secret)) [
      | inl same ↦
          let (key, found, named) = linked tag old known in
          (key, ground arith, ground arith, ground arith)
      | inr other ↦ absurd (ground arith)
    ]
  ]
