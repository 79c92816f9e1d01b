-- ===== src/Overlay/Outgoing/RoundTrip.antt =====
-- A broadcast in one message, src/overlay/overlay.rs, from `send_broadcast` of one overlay to
-- `receive_broadcast` of another.
use tiny_adnl.Prelude.{
  ℕ, ◌^◌, ◌<◌, ◌≡◌, refl, true, false, none, some, ok, List, [], ◌∷◌, ◌++◌, ◌⊎◌, inl, inr, length,
  arith, Bool-cases, Option-cases, ℕ_discrete,
}
use tiny_adnl.Adnl.PeersSet.Choose.{get_random_peers}
use tiny_adnl.Rldp.Compression.{Zstd, compress, decompress}
use tiny_adnl.Rldp.Compression.RoundTrip.{IsCodec, decompress-compress}
use tiny_adnl.Overlay.Defs.{OverlayBroadcast, other, Overlay, put_broadcast}
use tiny_adnl.Overlay.Broadcasts.{
  OverlayCrypto, broadcast_flag_any_sender, is_broadcast_outdated, make_broadcast_to_sign,
  receive_broadcast, signed_data, spawn_broadcast_gc_task, has_any_sender,
}
use tiny_adnl.Overlay.Broadcasts.Tracked.{create_broadcast_new, create_broadcast_known}
use tiny_adnl.Overlay.Broadcasts.Signed.{signed_data_back, signed_data_plain}
use tiny_adnl.Overlay.Outgoing.{BroadcastTarget, recipients, packed, send_broadcast}

-- What the crates document of keys: a serialized key is read back, and a key verifies what it has
-- signed.
pub record IsSigning (c : OverlayCrypto) : Type 0 where
  pub reads : (full : ℕ) → c.to_full (c.as_tl full) ≡ some full
  pub verifies : (key : ℕ) (m : _) → c.verify (c.full_id key) m (c.sign key m) ≡ true

module _ (c : OverlayCrypto) (z : Zstd) where
  -- The signature of some data is not one of other data that the data decompresses to.
  abbrev pub SignsOnly : ℕ → ℕ → List ℕ → Type 0
  SignsOnly now key bytes =
      (out : List ℕ)
      → decompress z bytes ≡ some out
      → c.verify (c.full_id key) (make_broadcast_to_sign c out now none)
          (c.sign key (make_broadcast_to_sign c bytes now none))
        ≡ false

module _ (c : OverlayCrypto) (z : Zstd) (choose : List ℕ → ℕ → List ℕ) {D : Type 0} where
  -- The message of `send_broadcast`.
  abbrev pub sent_broadcast : Overlay D → ℕ → List ℕ → ℕ → OverlayBroadcast
  sent_broadcast o now bytes key = record {
    src = c.as_tl (c.full_id key);
    flags = broadcast_flag_any_sender;
    bytes = packed c z choose o bytes;
    date = now;
    signature = c.sign key (make_broadcast_to_sign c bytes now none);
  }

  packed-cases :
      (o : Overlay D) (bytes : List ℕ)
      → IsCodec z
      → length bytes < 2 ^ 32
      → (packed c z choose o bytes ≡ bytes)
        ⊎ (decompress z (packed c z choose o bytes) ≡ some bytes)
  unfolding packed
  packed-cases o bytes codec small = elim (Bool-cases o.options.force_compression) [
    | inr plain ↦ inl (rw plain refl)
    | inl force ↦ elim (Option-cases (compress z bytes)) [
      | inl failed ↦ inl (rw (force, failed) refl)
      | inr (out, made) ↦ elim (decompress-compress z bytes out codec small made) [
        | inl (_, same) ↦ inl (rw (force, made) same)
        | inr (_, back) ↦ inr (rw (force, made) back)
      ]
    ]
  ]

  signed_data-packed :
      (o : Overlay D) (now : ℕ) (bytes : List ℕ) (key : ℕ)
      → IsSigning c
      → IsCodec z
      → length bytes < 2 ^ 32
      → SignsOnly c z now key bytes
      → signed_data c z choose (c.full_id key) none (sent_broadcast o now bytes key) ≡ some bytes
  signed_data-packed o now bytes key s codec small only =
      let own = s.verifies key (make_broadcast_to_sign c bytes now none) in
      elim (packed-cases o bytes codec small) [
        | inr back ↦
            signed_data_back c z choose (c.full_id key) none (sent_broadcast o now bytes key) bytes
              back own
        | inl same ↦
            signed_data_plain c z choose (c.full_id key) none (sent_broadcast o now bytes key) bytes
              same own only
      ]

  -- The receiver's overlay once it has the broadcast.
  abbrev pub with_broadcast : Overlay D → ℕ → List ℕ → ℕ → Overlay D
  with_broadcast o id bytes from = record o {
    owned_broadcasts = put_broadcast o.owned_broadcasts id (some other);
    received_broadcasts =
        o.received_broadcasts ++ (record { packets = 1; bytes = bytes; from = from } ∷ []);
    gc_tasks = id ∷ o.gc_tasks;
  }

  -- What `send_broadcast` of a new broadcast sends.
  send_broadcast-sent :
      (o : Overlay D) (now : ℕ) (bytes : List ℕ) (key : ℕ) (target : BroadcastTarget)
      → o.owned_broadcasts (c.hash_to_sign (make_broadcast_to_sign c bytes now none)) ≡ none
      → (send_broadcast c z choose o now bytes key target).1.1
        ≡ some (sent_broadcast o now bytes key, recipients c z choose o target)
  unfolding send_broadcast
  send_broadcast-sent o now bytes key target new =
      rw
        (
          send_broadcast,
          create_broadcast_new o (c.hash_to_sign (make_broadcast_to_sign c bytes now none)) new,
        )
        refl

  receive_broadcast-first :
      (o r : Overlay D) (now now' peer_id : ℕ) (bytes : List ℕ) (key : ℕ)
      → IsSigning c
      → IsCodec z
      → length bytes < 2 ^ 32
      → SignsOnly c z now key bytes
      → is_broadcast_outdated r now' now ≡ false
      → r.owned_broadcasts (c.hash_to_sign (make_broadcast_to_sign c bytes now none)) ≡ none
      → receive_broadcast c z choose r now' peer_id (sent_broadcast o now bytes key) ≡ (
        with_broadcast r
            (c.hash_to_sign (make_broadcast_to_sign c bytes now none))
            bytes
            (c.compute_short_id (c.full_id key)),
        ok (
            get_random_peers ℕ_discrete choose r.neighbours
              r.options.secondary_broadcast_target_count
              (some peer_id)),
      )
  unfolding receive_broadcast spawn_broadcast_gc_task has_any_sender
  receive_broadcast-first o r now now' peer_id bytes key s codec small only early new =
      rw
        (
          receive_broadcast,
          early,
          s.reads (c.full_id key),
          signed_data-packed o now bytes key s codec small only,
          create_broadcast_new r (c.hash_to_sign (make_broadcast_to_sign c bytes now none)) new,
        )
        refl

  receive_broadcast-again :
      (o r : Overlay D) (now now' peer_id : ℕ) (bytes : List ℕ) (key : ℕ)
      → IsSigning c
      → IsCodec z
      → length bytes < 2 ^ 32
      → SignsOnly c z now key bytes
      → r.owned_broadcasts (c.hash_to_sign (make_broadcast_to_sign c bytes now none)) ≡ some other
      → receive_broadcast c z choose r now' peer_id (sent_broadcast o now bytes key) ≡ (r, ok [])
  unfolding receive_broadcast has_any_sender
  receive_broadcast-again o r now now' peer_id bytes key s codec small only old =
      elim (Bool-cases (is_broadcast_outdated r now' now)) [
        | inl late ↦ rw (receive_broadcast, late) refl
        | inr early ↦
            rw
              (
                receive_broadcast,
                early,
                s.reads (c.full_id key),
                signed_data-packed o now bytes key s codec small only,
                create_broadcast_known r (c.hash_to_sign (make_broadcast_to_sign c bytes now none))
                    old,
              )
              refl
      ]

  -- What one overlay sends as a new broadcast, another that does not know it and does not find it
  -- outdated receives: it delivers the data with the sender as its source, once, and sends the
  -- message on to neighbours other than the peer that it came from. Whenever and from whomever the
  -- message comes again, nothing changes. The data is shorter than 2^32 bytes, and where it
  -- decompresses to other data, its signature is not one of that.
  pub receive_broadcast-send_broadcast :
      (o r : Overlay D) (now now' peer_id : ℕ) (bytes : List ℕ) (key : ℕ) (target : BroadcastTarget)
      → IsSigning c
      → IsCodec z
      → length bytes < 2 ^ 32
      → SignsOnly c z now key bytes
      → o.owned_broadcasts (c.hash_to_sign (make_broadcast_to_sign c bytes now none)) ≡ none
      → is_broadcast_outdated r now' now ≡ false
      → r.owned_broadcasts (c.hash_to_sign (make_broadcast_to_sign c bytes now none)) ≡ none
      → (b : OverlayBroadcast) × (r' : Overlay D) × ((send_broadcast c z choose o now bytes key
            target).1.1
          ≡ some (b, recipients c z choose o target))
        × (receive_broadcast c z choose r now' peer_id b ≡ (
          r',
          ok (
              get_random_peers ℕ_discrete choose r.neighbours
                r.options.secondary_broadcast_target_count
                (some peer_id)),
        ))
        × (r'.received_broadcasts
            ≡ r.received_broadcasts
              ++ (record { packets = 1; bytes = bytes; from = c.compute_short_id (c.full_id key) }
                  ∷ []))
        × ((later peer : ℕ) → receive_broadcast c z choose r' later peer b ≡ (r', ok []))
  receive_broadcast-send_broadcast o r now now' peer_id bytes key target s codec small only new
        early unknown =
      let id = c.hash_to_sign (make_broadcast_to_sign c bytes now none) in
      let r' = with_broadcast r id bytes (c.compute_short_id (c.full_id key)) in
      (
        sent_broadcast o now bytes key,
        r',
        send_broadcast-sent o now bytes key target new,
        receive_broadcast-first o r now now' peer_id bytes key s codec small only early unknown,
        refl,
        λ later peer.
            receive_broadcast-again o r' now later peer bytes key s codec small only (ground arith),
      )
