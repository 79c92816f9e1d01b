-- ===== src/Adnl/Keystore.antt =====
-- src/adnl/keystore.rs: the keys of a node by their ids and by tags. The ids that a secret key
-- gives are a parameter.
pub mod Lookup
mod Tests
use tiny_adnl.Prelude.{
  ℕ, Bool, true, false, Option, none, some, Result, ok, err, List, [], ◌∷◌, ite, if◌then◌else◌,
  ◌==◌,
}

pub data KeystoreError : Type 0 where
  duplicated_key_tag duplicated_key key_tag_not_found : ℕ → KeystoreError
  key_id_not_found : ℕ → KeystoreError
  unexpected_key : KeystoreError

-- `Key`, its full id and its expanded secret key being made from the secret key. The id stands for
-- the 32 bytes as a number.
pub record Key : Type 0 where
  pub short_id : ℕ
  pub secret_key : List ℕ

pub record Keystore : Type 0 where
  pub keys : ℕ → Option Key
  pub tags : ℕ → Option ℕ

pub empty : Keystore
empty = record { keys = λ id. none; tags = λ tag. none }

pub key_by_id : Keystore → ℕ → Result KeystoreError Key
key_by_id s id = elim (s.keys id) [ some key ↦ ok key | none ↦ err (key_id_not_found id) ]

pub key_by_tag : Keystore → ℕ → Result KeystoreError Key
key_by_tag s tag = elim (s.tags tag) [
  | some id ↦ key_by_id s id
  | none ↦ err (key_tag_not_found tag)
]

pub insert_tag : Keystore → ℕ → ℕ → Keystore
insert_tag s tag id = record s { tags = λ t. if t == tag then some id else s.tags t }

pub insert_key : Keystore → Key → Keystore
insert_key s key = record s { keys = λ i. if i == key.short_id then some key else s.keys i }

module _ (short_id : List ℕ → ℕ) where
  pub from_bytes : List ℕ → Key
  from_bytes secret = record { short_id = short_id secret; secret_key = secret }

  -- The tag is inserted before the key is looked for, and stays if the key is there.
  pub add_key : Keystore → List ℕ → ℕ → Keystore × Result KeystoreError ℕ
  add_key s secret tag = elim (s.tags tag) [
    | none ↦ elim (s.keys (short_id secret)) [
      | none ↦ (
        insert_key (insert_tag s tag (short_id secret)) (from_bytes secret),
        ok (short_id secret),
      )
      | some _ ↦ (insert_tag s tag (short_id secret), err (duplicated_key tag))
    ]
    | some id ↦ (s, if id == short_id secret then ok id else err (duplicated_key_tag tag))
  ]

  -- The builder: the first error ends it.
  pub with_tagged_keys : Keystore → List (List ℕ × ℕ) → Result KeystoreError Keystore
  with_tagged_keys s [] = ok s
  with_tagged_keys s ((secret, tag) ∷ rest) =
      let next = with_tagged_keys (add_key s secret tag).0 rest in
      elim (add_key s secret tag).1 [ ok _ ↦ next | err x ↦ err x ]
