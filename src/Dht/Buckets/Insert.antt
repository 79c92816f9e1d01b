-- ===== src/Dht/Buckets/Insert.antt =====
-- `insert` of src/dht/buckets.rs.
use mathlib.Core.Path.{subst}
use tiny_adnl.Prelude.{
  ℕ, ◌≡◌, ◌≢◌, ◌∙◌, refl, sym, ap, Option, none, some, List, [], ◌∷◌, ite, if_pos, if_neg,
  if◌then◌else◌, ltb, ◌==◌, arith, Bool-cases, inl, inr, ◌⊎◌,
}
use tiny_adnl.Dht.Buckets.{DhtNode, Bucket, insert_entry, insert, get_affinity}

-- Each id of a bucket has this affinity.
abbrev pub AllAt : List ℕ → ℕ → Bucket → Type 0
AllAt local_id i [] = Unit
AllAt local_id i (n ∷ ns) = (get_affinity local_id n.0 ≡ i) × AllAt local_id i ns

module _ (dec : Discrete (List ℕ)) where
  pub lookup : List ℕ → Bucket → Option DhtNode
  lookup id [] = none
  lookup id (n ∷ ns) = ite (dec n.0 id) (some n.1) (lookup id ns)

  -- The node with the higher version; the old one of two equals.
  pub newer : Option DhtNode → DhtNode → DhtNode
  newer none node = node
  newer (some old) node = if ltb old.version node.version then node else old

  lookup_here :
      (id : List ℕ) (n : List ℕ × DhtNode) (ns : Bucket) → n.0 ≡ id → lookup id (n ∷ ns) ≡ some n.1
  unfolding lookup
  lookup_here id n ns p = if_pos (dec n.0 id) p _ _

  lookup_next :
      (id : List ℕ) (n : List ℕ × DhtNode) (ns : Bucket)
      → n.0 ≢ id
      → lookup id (n ∷ ns) ≡ lookup id ns
  unfolding lookup
  lookup_next id n ns p = if_neg (dec n.0 id) p _ _

  lookup_behind :
      (id : List ℕ) (n : List ℕ × DhtNode) (ns ms : Bucket)
      → lookup id ns ≡ lookup id ms
      → lookup id (n ∷ ns) ≡ lookup id (n ∷ ms)
  unfolding lookup
  lookup_behind id n ns ms p = ap (ite (dec n.0 id) (some n.1)) p

  entry_old :
      (peer : List ℕ) (node : DhtNode) (n : List ℕ × DhtNode) (ns : Bucket)
      → n.0 ≡ peer
      → insert_entry dec peer node (n ∷ ns) ≡ (n.0, newer (some n.1) node) ∷ ns
  unfolding insert_entry newer
  entry_old peer node n ns p = if_pos (dec n.0 peer) p _ _

  entry_next :
      (peer : List ℕ) (node : DhtNode) (n : List ℕ × DhtNode) (ns : Bucket)
      → n.0 ≢ peer
      → insert_entry dec peer node (n ∷ ns) ≡ n ∷ insert_entry dec peer node ns
  unfolding insert_entry
  entry_next peer node n ns p = if_neg (dec n.0 peer) p _ _

  insert_entry-lookup_same :
      (peer : List ℕ) (node : DhtNode) (b : Bucket)
      → lookup peer (insert_entry dec peer node b) ≡ some (newer (lookup peer b) node)
  unfolding insert_entry
  insert_entry-lookup_same peer node [] =
      lookup_here peer (peer, node) [] refl ∙ (unfold lookup newer in refl)
  insert_entry-lookup_same peer node (n ∷ ns) = elim (dec n.0 peer) [
    | yes p ↦
        ap (lookup peer) (entry_old peer node n ns p)
        ∙ lookup_here peer (n.0, newer (some n.1) node) ns p
        ∙ ap (λ o. some (newer o node)) (sym (lookup_here peer n ns p))
    | no p ↦
        ap (lookup peer) (entry_next peer node n ns p)
        ∙ lookup_next peer n (insert_entry dec peer node ns) p
        ∙ insert_entry-lookup_same peer node ns
        ∙ ap (λ o. some (newer o node)) (sym (lookup_next peer n ns p))
  ]

  insert_entry-lookup_other :
      (peer id : List ℕ) (node : DhtNode) (b : Bucket)
      → id ≢ peer
      → lookup id (insert_entry dec peer node b) ≡ lookup id b
  unfolding insert_entry
  insert_entry-lookup_other peer id node [] ne = lookup_next id (peer, node) [] (λ e. ne (sym e))
  insert_entry-lookup_other peer id node (n ∷ ns) ne = elim (dec n.0 peer) [
    | yes p ↦
        let ne' : n.0 ≢ id = λ e. ne (sym e ∙ p) in
        ap (lookup id) (entry_old peer node n ns p)
        ∙ lookup_next id (n.0, newer (some n.1) node) ns ne'
        ∙ sym (lookup_next id n ns ne')
    | no p ↦
        ap (lookup id) (entry_next peer node n ns p)
        ∙ lookup_behind id n (insert_entry dec peer node ns) ns
            (insert_entry-lookup_other peer id node ns ne)
  ]

  insert_entry-AllAt :
      (local_id : List ℕ) (i : ℕ) (peer : List ℕ) (node : DhtNode) (b : Bucket)
      → get_affinity local_id peer ≡ i
      → AllAt local_id i b
      → AllAt local_id i (insert_entry dec peer node b)
  unfolding insert_entry
  insert_entry-AllAt local_id i peer node [] e h = (e, tt)
  insert_entry-AllAt local_id i peer node (n ∷ ns) e h = elim (dec n.0 peer) [
    | yes p ↦ subst (AllAt local_id i) (sym (entry_old peer node n ns p)) (h.0, h.1)
    | no p ↦
        subst (AllAt local_id i) (sym (entry_next peer node n ns p))
          (h.0, insert_entry-AllAt local_id i peer node ns e h.1)
  ]

  -- `insert` puts the node into the bucket of its affinity, where a look-up for its id then finds
  -- it or the one that was there, whichever has the higher version; a look-up for any other id, or
  -- in any other bucket, finds what it found before.
  pub insert-lookup :
      (local_id : List ℕ) (buckets : ℕ → Bucket) (peer : List ℕ) (node : DhtNode)
      → (lookup peer (insert dec local_id buckets peer node (get_affinity local_id peer))
          ≡ some (newer (lookup peer (buckets (get_affinity local_id peer))) node))
        × ((id : List ℕ) (i : ℕ)
            → (id ≢ peer) ⊎ (i ≢ get_affinity local_id peer)
            → lookup id (insert dec local_id buckets peer node i) ≡ lookup id (buckets i))
  unfolding insert
  insert-lookup local_id buckets peer node = (
    ground (arith, insert_entry-lookup_same peer node (buckets (get_affinity local_id peer))),
    λ id i other. elim (Bool-cases (get_affinity local_id peer == i)) [
      | inl at ↦ elim other [
        | inl ne ↦ rw at (insert_entry-lookup_other peer id node (buckets i) ne)
        | inr off ↦ absurd (ground arith)
      ]
      | inr away ↦ rw away refl
    ],
  )

  -- A table whose buckets hold only ids of their own affinity stays one.
  pub insert-AllAt :
      (local_id : List ℕ) (buckets : ℕ → Bucket) (peer : List ℕ) (node : DhtNode)
      → ((i : ℕ) → AllAt local_id i (buckets i))
      → (i : ℕ) → AllAt local_id i (insert dec local_id buckets peer node i)
  unfolding insert
  insert-AllAt local_id buckets peer node all i =
      elim (Bool-cases (get_affinity local_id peer == i)) [
        | inl at ↦
            rw at (insert_entry-AllAt local_id i peer node (buckets i) (ground arith) (all i))
        | inr away ↦ rw away (all i)
      ]
