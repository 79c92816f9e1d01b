-- ===== src/Dht/Storage/Insert.antt =====
-- What the operations of src/dht/storage.rs leave in the map.
use tiny_adnl.Prelude.{
  ℕ, some, none, leb, Bool, List, [], ◌∷◌, ◌≤◌, ◌<◌, ◌⊎◌, ◌∙◌, sym, ap, ltb, ◌&&◌, ℕ_discrete, inl,
  inr, Bool-cases, refl, ◌≡◌, arith, Option-cases,
}
use tiny_adnl.Dht.Storage.{
  Value, Storage, Crypto, put, get_ref, gc, insert_signed_value, insert_checked_nodes,
  insert_overlay_nodes, make_overlay_nodes_value, retain_nodes, insert, OverlayNode, StorageOptions,
}

-- The removal of outdated values cannot be seen by a look-up at that time or later.
pub get_ref-gc :
    (s : Storage) (time now key : ℕ) → time ≤ now → get_ref (gc s time) now key ≡ get_ref s now key
unfolding get_ref gc
get_ref-gc s time now key h = elim (Option-cases (s key)) [
  | inl absent ↦ ground arith
  | inr (value, there) ↦ ground arith
]

-- What one call of an insertion may do to the entry of one key: nothing, or it stores a value with
-- the time to live of the new one, which is later than now and not before that of the old one.
pub Advances : Storage → Storage → ℕ → ℕ → ℕ → ℕ → Type 0
Advances before after now hash ttl key =
    (after key ≡ before key)
    ⊎ ((v : Value) × (after key ≡ some v)
        × (v.ttl ≡ ttl)
        × (key ≡ hash)
        × (now < ttl)
        × ((old : Value) → before key ≡ some old → old.ttl ≤ ttl))

put-Advances :
    (s : Storage) (now hash key : ℕ) (v : Value)
    → now < v.ttl
    → ((old : Value) → s hash ≡ some old → old.ttl ≤ v.ttl)
    → Advances s (put s hash v) now hash v.ttl key
unfolding Advances put
put-Advances s now hash key v fresh above = elim (ℕ_discrete key hash) [
  | yes p ↦ inr (v, ground arith, refl, p, fresh, λ old e. above old (ap s (sym p) ∙ e))
  | no p ↦ inl (ground arith)
]

insert_signed_value-Advances :
    (c : Crypto) (s : Storage) (now key : ℕ) (v : Value)
    → now < v.ttl
    → Advances s (insert_signed_value c s v).0 now (c.hash_key v.key) v.ttl key
unfolding insert_signed_value
insert_signed_value-Advances c s now key v fresh =
    let same : Advances s s now (c.hash_key v.key) v.ttl key = unfold Advances in inl refl in
    elim (Bool-cases (c.verify_key v && c.verify_value v)) [
      | inr bad ↦ rw (bad, insert_signed_value) same
      | inl good ↦ elim (Option-cases (s (c.hash_key v.key))) [
        | inl absent ↦
            rw (good, insert_signed_value)
              (rw absent (
                put-Advances s now (c.hash_key v.key) key v fresh
                  (λ old e. absurd (ground (arith, absent, e)))))
        | inr (old, there) ↦ elim (Bool-cases (ltb old.ttl v.ttl)) [
          | inl later ↦
              rw (good, insert_signed_value)
                (rw there (
                  rw later (
                    put-Advances s now (c.hash_key v.key) key v fresh
                      (λ o e. ground (arith, there, e)))))
          | inr earlier ↦ rw (good, insert_signed_value) (rw there (rw earlier same))
        ]
      ]
    ]

unchanged : (s : Storage) (now hash ttl key : ℕ) → Advances s s now hash ttl key
unfolding Advances
unchanged s now hash ttl key = inl refl

insert_checked_nodes-Advances :
    (c : Crypto) (s : Storage) (now key : ℕ) (v : Value) (nodes : List OverlayNode)
    → now < v.ttl
    → Advances s (insert_checked_nodes c s now v nodes).0 now (c.hash_key v.key) v.ttl key
unfolding insert_checked_nodes make_overlay_nodes_value
insert_checked_nodes-Advances c s now key v nodes fresh =
    let same = unchanged s now (c.hash_key v.key) v.ttl key in
    elim (Option-cases (s (c.hash_key v.key))) [
      | inl absent ↦
          rw (absent, insert_checked_nodes)
            (put-Advances s now (c.hash_key v.key) key (make_overlay_nodes_value c v nodes none)
              fresh (λ old e. absurd (ground (arith, absent, e))))
      | inr (old, there) ↦ elim (Bool-cases (ltb old.ttl now)) [
        | inl outdated ↦
            rw (there, insert_checked_nodes)
              (rw outdated (
                put-Advances s now (c.hash_key v.key) key (make_overlay_nodes_value c v nodes none)
                  fresh (λ o e. ground (arith, there, e))))
        | inr current ↦ elim (Bool-cases (ltb v.ttl old.ttl)) [
          | inl later ↦ rw (there, insert_checked_nodes) (rw current (rw later same))
          | inr earlier ↦ elim (Option-cases (c.read_nodes old.value)) [
            | inl unread ↦
                rw (there, insert_checked_nodes) (rw current (rw earlier (rw unread same)))
            | inr (ns, read) ↦
                rw (there, insert_checked_nodes)
                  (rw current (
                    rw earlier (
                      rw read (
                        put-Advances s now (c.hash_key v.key) key
                          (make_overlay_nodes_value c v nodes (some ns)) fresh
                          (λ o e. ground (arith, there, e))))))
          ]
        ]
      ]
    ]

List-cases : {A : Type 0} (xs : List A) → (xs ≡ []) ⊎ ((x : A) × (rest : List A) × (xs ≡ x ∷ rest))
List-cases [] = inl refl
List-cases (x ∷ xs) = inr (x, xs, refl)

insert_overlay_nodes-Advances :
    (c : Crypto) (is_key_nodes : List ℕ → Bool) (s : Storage) (now key : ℕ) (v : Value)
    → now < v.ttl
    → Advances s (insert_overlay_nodes c is_key_nodes s now v).0 now (c.hash_key v.key) v.ttl key
unfolding insert_overlay_nodes
insert_overlay_nodes-Advances c is_key_nodes s now key v fresh =
    let same = unchanged s now (c.hash_key v.key) v.ttl key in
    elim (Option-cases (c.read_nodes v.value)) [
      | inl unread ↦ ground (arith, same)
      | inr (nodes, read) ↦
          elim (List-cases (retain_nodes (c.verify_node (c.hash_id v.id)) nodes)) [
            | inl none_left ↦ ground (arith, same)
            | inr (n, ns, left) ↦
                ground (arith, same, insert_checked_nodes-Advances c s now key v (n ∷ ns) fresh)
          ]
    ]

-- Whatever value comes and whatever the signatures and the nodes in it are, an insertion changes at
-- most the entry of the value's key, stores nothing that is outdated, and replaces no value by one
-- with an earlier time to live.
pub insert-Advances :
    (c : Crypto) (o : StorageOptions) (is_key_nodes : List ℕ → Bool) (s : Storage) (now key : ℕ)
    (v : Value)
    → Advances s (insert c o is_key_nodes s now v).0 now (c.hash_key v.key) v.ttl key
unfolding insert
insert-Advances c o is_key_nodes s now key v =
    let same = unchanged s now (c.hash_key v.key) v.ttl key in
    elim (Bool-cases (leb v.ttl now)) [
      | inl outdated ↦ rw (outdated, insert) same
      | inr current ↦
          let fresh : now < v.ttl = ground arith in
          ground (
            arith,
            same,
            insert_signed_value-Advances c s now key v fresh,
            insert_overlay_nodes-Advances c is_key_nodes s now key v fresh,
          )
    ]
