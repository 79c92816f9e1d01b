-- ===== src/Dht/Storage.antt =====
-- src/dht/storage.rs: the values that a DHT node stores. What the cryptography and the serializer
-- do with keys, signatures and lists of nodes is a parameter, and so is the time. The map is a
-- function from the hash of a key, a number.
pub mod Insert
mod Tests
use tiny_adnl.Prelude.{
  ℕ, ◌+◌, Bool, true, false, Option, none, some, Result, ok, err, List, [], ◌∷◌, ◌++◌,
  if◌then◌else◌, ltb, leb, ◌==◌, ◌&&◌, ◌||◌, not, length,
}

pub record StorageOptions : Type 0 where
  pub max_key_name_len : ℕ
  pub max_key_index : ℕ

-- The last two stand for the errors that the key's parser and check, and the deserializer, return.
pub data StorageError : Type 0 where
  unsupported_update_rule invalid_signature_value invalid_key_description : StorageError
  invalid_dht_key empty_overlay_nodes value_expired invalid_key : StorageError
  bad_signature bad_nodes : StorageError

pub data UpdateRule : Type 0 where
  signed anybody overlay_nodes : UpdateRule

-- `proto::dht::Key`
pub record DhtKey : Type 0 where
  pub id : ℕ
  pub name : List ℕ
  pub idx : ℕ

-- `proto::dht::Value` and the key description in it; `id` is the public key.
pub record Value : Type 0 where
  pub key : DhtKey
  pub id : ℕ
  pub update_rule : UpdateRule
  pub key_signature : List ℕ
  pub value : List ℕ
  pub ttl : ℕ
  pub signature : List ℕ

-- `proto::overlay::Node`: its id, its version, and what the storage does not read.
pub record OverlayNode : Type 0 where
  pub node_id : ℕ
  pub version : ℕ
  pub body : ℕ

-- What the crates do.
pub record Crypto : Type 0 where
  pub hash_id : ℕ → ℕ
  pub hash_key : DhtKey → ℕ
  pub is_overlay : ℕ → Bool
  pub verify_key : Value → Bool
  pub verify_value : Value → Bool
  pub verify_node : ℕ → OverlayNode → Bool
  pub read_nodes : List ℕ → Option (List OverlayNode)
  pub write_nodes : List OverlayNode → List ℕ

abbrev pub Storage : Type 0
Storage = ℕ → Option Value

abbrev pub Inserted : Type 0
Inserted = Storage × Result StorageError Bool

pub put : Storage → ℕ → Value → Storage
put s key value k = if k == key then some value else s k

pub get_ref : Storage → ℕ → ℕ → Option Value
get_ref s now key = elim (s key) [
  | some item ↦ if ltb now item.ttl then some item else none
  | none ↦ none
]

pub gc : Storage → ℕ → Storage
gc s now key = elim (s key) [
  | some value ↦ if ltb now value.ttl then some value else none
  | none ↦ none
]

-- One node goes into the merged map.
pub merge_node : List OverlayNode → OverlayNode → List OverlayNode
merge_node [] node = node ∷ []
merge_node (old ∷ rest) node =
    let others = merge_node rest node in
    if old.node_id == node.node_id
    then (if ltb old.version node.version then node else old) ∷ rest
    else old ∷ others

pub merge_nodes : List OverlayNode → List OverlayNode → List OverlayNode
merge_nodes old [] = old
merge_nodes old (node ∷ rest) = merge_nodes (merge_node old node) rest

-- Collecting into a map: the last node of an id stands.
pub collect_node : List OverlayNode → OverlayNode → List OverlayNode
collect_node [] node = node ∷ []
collect_node (old ∷ rest) node =
    let others = collect_node rest node in
    if old.node_id == node.node_id then node ∷ rest else old ∷ others

pub collect_nodes : List OverlayNode → List OverlayNode → List OverlayNode
collect_nodes nodes [] = nodes
collect_nodes nodes (node ∷ rest) = collect_nodes (collect_node nodes node) rest

pub retain_nodes : (OverlayNode → Bool) → List OverlayNode → List OverlayNode
retain_nodes keep [] = []
retain_nodes keep (node ∷ rest) =
    let others = retain_nodes keep rest in if keep node then node ∷ others else others

module _ (c : Crypto) where
  pub make_overlay_nodes_value : Value → List OverlayNode → Option (List OverlayNode) → Value
  make_overlay_nodes_value value new_nodes none = record value {
    value = c.write_nodes (merge_nodes [] new_nodes);
  }
  make_overlay_nodes_value value new_nodes (some old_nodes) = record value {
    value = c.write_nodes (merge_nodes (collect_nodes [] old_nodes) new_nodes);
  }

  pub insert_signed_value : Storage → Value → Inserted
  insert_signed_value s value =
      let key = c.hash_key value.key in
      if not (c.verify_key value && c.verify_value value)
      then (s, err StorageError.bad_signature)
      else elim (s key) [
        | some old ↦ if ltb old.ttl value.ttl then (put s key value, ok true) else (s, ok false)
        | none ↦ (put s key value, ok true)
      ]

  -- The nodes that are left are checked; then the entry of the key.
  pub insert_checked_nodes : Storage → ℕ → Value → List OverlayNode → Inserted
  insert_checked_nodes s now value nodes =
      let key = c.hash_key value.key in
      elim (s key) [
        | none ↦ (put s key (make_overlay_nodes_value value nodes none), ok true)
        | some old ↦
            if ltb old.ttl now
            then (put s key (make_overlay_nodes_value value nodes none), ok true)
            else if ltb value.ttl old.ttl
            then (s, ok false)
            else elim (c.read_nodes old.value) [
              | none ↦ (s, err StorageError.bad_nodes)
              | some old_nodes ↦
                  (put s key (make_overlay_nodes_value value nodes (some old_nodes)), ok true)
            ]
      ]

  pub is_empty : {A : Type 0} → List A → Bool
  is_empty [] = true
  is_empty (x ∷ xs) = false

  -- `key_nodes` is the name that the key of overlay nodes must have.
  pub insert_overlay_nodes : (List ℕ → Bool) → Storage → ℕ → Value → Inserted
  insert_overlay_nodes is_key_nodes s now value =
      let overlay_id = c.hash_id value.id in
      if not (is_empty value.signature) || not (is_empty value.key_signature)
      then (s, err StorageError.invalid_signature_value)
      else if not (c.is_overlay value.id)
      then (s, err StorageError.invalid_key_description)
      else if not
          (value.key.id == overlay_id && (is_key_nodes value.key.name && value.key.idx == 0))
      then (s, err StorageError.invalid_dht_key)
      else elim (c.read_nodes value.value) [
        | none ↦ (s, err StorageError.bad_nodes)
        | some new_nodes ↦ elim (retain_nodes (c.verify_node overlay_id) new_nodes) [
          | [] ↦ (s, err StorageError.empty_overlay_nodes)
          | n ∷ ns ↦ insert_checked_nodes s now value (n ∷ ns)
        ]
      ]

  pub insert : StorageOptions → (List ℕ → Bool) → Storage → ℕ → Value → Inserted
  insert o is_key_nodes s now value =
      if leb value.ttl now
      then (s, err StorageError.value_expired)
      else if not (leb (length value.key.name) o.max_key_name_len)
          || ltb o.max_key_index value.key.idx
      then (s, err StorageError.invalid_key)
      else if not (value.key.id == c.hash_id value.id)
      then (s, err StorageError.invalid_key)
      else elim value.update_rule [
        | signed ↦ insert_signed_value s value
        | overlay_nodes ↦ insert_overlay_nodes is_key_nodes s now value
        | anybody ↦ (s, err StorageError.unsupported_update_rule)
      ]
