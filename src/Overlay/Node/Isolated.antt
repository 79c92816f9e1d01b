-- ===== src/Overlay/Node/Isolated.antt =====
-- A message reaches the overlay that it names, src/overlay/node.rs.
use tiny_adnl.Prelude.{
  ℕ, ◌≡◌, ◌≢◌, ◌⊎◌, refl, ap, Bool, true, false, Option, none, some, Result, List, ◌==◌, arith,
  Bool-cases, Option-cases, inl, inr,
}
use tiny_adnl.Rldp.Compression.{Zstd}
use tiny_adnl.Rldp.Incoming.{DecoderEngine}
use tiny_adnl.Overlay.Defs.{OverlayError, Overlay}
use tiny_adnl.Overlay.Broadcasts.{OverlayCrypto, receive_broadcast}
use tiny_adnl.Overlay.Fec.{receive_fec_broadcast}
use tiny_adnl.Overlay.Node.{
  Broadcast, whole, in_parts, unsupported, NodeError, OverlayReader, NodeState, consumed,
  try_consume_custom,
}

module _ (choose : List ℕ → ℕ → List ℕ) (c : OverlayCrypto) (z : Zstd) {D : Type 0}
    (d : DecoderEngine D) (reader : OverlayReader) where
  -- What a message may change of an overlay.
  abbrev pub Touches : NodeState D → NodeState D → ℕ → List ℕ → ℕ → Type 0
  Touches s s' constructor bytes i =
      (s'.overlays i ≡ s.overlays i)
      ⊎ ((o : Overlay D) × (b : Broadcast) × (constructor ≡ reader.message_id)
          × (reader.read_message bytes ≡ some (i, b))
          × (s.overlays i ≡ some o)
          × (b ≢ unsupported))

  -- What a call leaves, if it ends.
  abbrev pub TouchesAfter :
      NodeState D → ℕ → List ℕ → ℕ → Option (NodeState D × Result NodeError Bool) → Type 0
  TouchesAfter s constructor bytes i none = Unit
  TouchesAfter s constructor bytes i (some (s', _)) =
      (s'.subscribers ≡ s.subscribers) × Touches s s' constructor bytes i

  is_unsupported : Broadcast → Bool
  is_unsupported (whole _) = false
  is_unsupported (in_parts _) = false
  is_unsupported unsupported = true

  whole-taken : (b : _) → whole b ≢ unsupported
  unfolding is_unsupported
  whole-taken b e = absurd (ground (arith, ap is_unsupported e))

  in_parts-taken : (b : _) → in_parts b ≢ unsupported
  unfolding is_unsupported
  in_parts-taken b e = absurd (ground (arith, ap is_unsupported e))

  consumed-Touches :
      (s : NodeState D) (constructor : ℕ) (bytes : List ℕ) (i id : ℕ) (o : Overlay D)
      (b : Broadcast) (after : Overlay D × Result OverlayError (List ℕ))
      → (constructor == reader.message_id) ≡ true
      → reader.read_message bytes ≡ some (id, b)
      → s.overlays id ≡ some o
      → b ≢ unsupported
      → TouchesAfter s constructor bytes i (some (consumed choose c z d reader s id after))
  unfolding consumed
  consumed-Touches s constructor bytes i id o b after k read there known = (
    refl,
    elim (Bool-cases (i == id)) [
      | inr apart ↦ inl (rw apart refl)
      | inl same ↦
          let e : i ≡ id = ground arith in inr (o, b, ground arith, rw e read, rw e there, known)
    ],
  )

  -- A message changes no subscriber, and of the overlays only the one that it names, if it is an
  -- overlay's message, can be read, and is a broadcast that the node takes.
  pub try_consume_custom-TouchesAfter :
      (s : NodeState D) (now peer_id constructor : ℕ) (bytes : List ℕ) (i : ℕ)
      → TouchesAfter s constructor bytes i
          (try_consume_custom choose c z d reader s now peer_id constructor bytes)
  unfolding try_consume_custom
  try_consume_custom-TouchesAfter s now peer_id constructor bytes i =
      elim (Bool-cases (constructor == reader.message_id)) [
        | inr alien ↦ rw (try_consume_custom, alien) (refl, inl refl)
        | inl k ↦ elim (Option-cases (reader.read_message bytes)) [
          | inl bad ↦ rw (try_consume_custom, k, bad) (refl, inl refl)
          | inr ((id, unsupported), read) ↦ elim (Option-cases (s.overlays id)) [
            | inl unknown ↦ rw (try_consume_custom, k, read, unknown) (refl, inl refl)
            | inr (o, there) ↦ rw (try_consume_custom, k, read, there) (refl, inl refl)
          ]
          | inr ((id, whole b), read) ↦ elim (Option-cases (s.overlays id)) [
            | inl unknown ↦ rw (try_consume_custom, k, read, unknown) (refl, inl refl)
            | inr (o, there) ↦
                rw (try_consume_custom, k, read, there)
                  (consumed-Touches s constructor bytes i id o (whole b)
                    (receive_broadcast c z choose o now peer_id b) k read there (whole-taken b))
          ]
          | inr ((id, in_parts b), read) ↦ elim (Option-cases (s.overlays id)) [
            | inl unknown ↦ rw (try_consume_custom, k, read, unknown) (refl, inl refl)
            | inr (o, there) ↦
                elim (Option-cases (receive_fec_broadcast c d z choose o now peer_id b)) [
                  | inl held ↦ rw (try_consume_custom, k, read, there, held) tt
                  | inr (after, ends) ↦
                      rw (try_consume_custom, k, read, there, ends)
                        (consumed-Touches s constructor bytes i id o (in_parts b) after k read there
                          (in_parts-taken b))
                ]
          ]
        ]
      ]
