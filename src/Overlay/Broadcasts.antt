-- ===== src/Overlay/Broadcasts.antt =====
-- How an overlay receives a broadcast in one message, src/overlay/overlay.rs. What a call sends is
-- the list of its recipients.
use Prim.Native.Nat.{bit_and}
pub mod Tracked
pub mod Signed
use tiny_adnl.Prelude.Bytes.{add32}
use tiny_adnl.Prelude.{
  ℕ, ◌/◌, ◌%◌, ◌^◌, Bool, true, false, Option, none, some, Result, ok, err, List, [], ◌∷◌, ◌++◌,
  if◌then◌else◌, ltb, ◌==◌, not, ℕ_discrete,
}
use tiny_adnl.Adnl.PeersSet.Choose.{get_random_peers}
use tiny_adnl.Rldp.Compression.{Zstd, decompress}
use tiny_adnl.Rldp.Incoming.{FecType}
use tiny_adnl.Overlay.Defs.{
  OverlayError, NodeToSign, OverlayBroadcastToSign, OverlayBroadcast, other, Overlay, put_broadcast,
}

-- SHA-256, the serializer's hashes, and the keys of the other crates. A hash and a short id are
-- numbers, and `id_bytes` is their 32 bytes; a serialized public key is a number, `as_tl` of the
-- key, and `ed25519_key` its bytes if it is of that kind.
pub record OverlayCrypto : Type 0 where
  pub sha256 : List ℕ → ℕ
  pub id_bytes : ℕ → List ℕ
  pub hash_to_sign : OverlayBroadcastToSign → ℕ
  pub hash_params : FecType → List ℕ
  pub broadcast_id : ℕ
  pub broadcast_fec_id : ℕ
  pub broadcast_fec_part_id : ℕ
  pub to_full : ℕ → Option ℕ
  pub as_tl : ℕ → ℕ
  pub ed25519_key : ℕ → Option ℕ
  pub full_id : ℕ → ℕ
  pub key_bytes : ℕ → ℕ
  pub compute_short_id : ℕ → ℕ
  pub sign : ℕ → OverlayBroadcastToSign → List ℕ
  pub verify : ℕ → OverlayBroadcastToSign → List ℕ → Bool
  pub sign_node : ℕ → NodeToSign → List ℕ
  pub verify_node : ℕ → NodeToSign → List ℕ → Bool

abbrev pub broadcast_flag_any_sender : ℕ
broadcast_flag_any_sender = 1

-- `u32::to_le_bytes`
unfoldable pub to_le_bytes : ℕ → List ℕ
to_le_bytes n = n % 256 ∷ n / 2 ^ 8 % 256 ∷ n / 2 ^ 16 % 256 ∷ n / 2 ^ 24 % 256 ∷ []

unfoldable pub is_broadcast_outdated : {D : Type 0} → Overlay D → ℕ → ℕ → Bool
is_broadcast_outdated o now date = ltb (add32 date (o.options.broadcast_timeout_sec % 2 ^ 32)) now

unfoldable pub create_broadcast : {D : Type 0} → Overlay D → ℕ → Overlay D × Bool
create_broadcast o id = elim (o.owned_broadcasts id) [
  | some _ ↦ (o, false)
  | none ↦ (record o { owned_broadcasts = put_broadcast o.owned_broadcasts id (some other) }, true)
]

unfoldable pub spawn_broadcast_gc_task : {D : Type 0} → Overlay D → ℕ → Overlay D
spawn_broadcast_gc_task o id = record o { gc_tasks = id ∷ o.gc_tasks }

module _ (c : OverlayCrypto) where
  unfoldable pub source_bytes : Option ℕ → List ℕ
  source_bytes none = c.id_bytes 0
  source_bytes (some id) = c.id_bytes id

  unfoldable pub make_broadcast_to_sign : List ℕ → ℕ → Option ℕ → OverlayBroadcastToSign
  make_broadcast_to_sign bytes date source = record {
    hash = c.sha256 (
        to_le_bytes c.broadcast_id
        ++ (source_bytes source
            ++ (c.id_bytes (c.sha256 bytes) ++ to_le_bytes broadcast_flag_any_sender)));
    date = date;
  }

  unfoldable pub make_fec_part_to_sign :
      ℕ → ℕ → ℕ → ℕ → FecType → List ℕ → ℕ → Option ℕ → OverlayBroadcastToSign
  make_fec_part_to_sign data_hash data_size date flags params part seqno source =
      let broadcast_hash = c.sha256 (
        to_le_bytes c.broadcast_fec_id
        ++ (source_bytes source
            ++ (c.hash_params params
                ++ (c.id_bytes data_hash ++ (to_le_bytes data_size ++ to_le_bytes flags))))) in
      record {
        hash = c.sha256 (
            to_le_bytes c.broadcast_fec_part_id
            ++ (c.id_bytes broadcast_hash ++ (c.id_bytes (c.sha256 part) ++ to_le_bytes seqno)));
        date = date;
      }

  unfoldable pub has_any_sender : ℕ → Bool
  has_any_sender flags = not (bit_and flags broadcast_flag_any_sender == 0)

  module _ (z : Zstd) (choose : List ℕ → ℕ → List ℕ) where
    -- The signature may be for the data with its compression undone, or for the data itself.
    pub signed_data : ℕ → Option ℕ → OverlayBroadcast → Option (List ℕ)
    signed_data node_id source b =
        let is_signed : List ℕ → Bool =
          λ bytes. c.verify node_id (make_broadcast_to_sign bytes b.date source) b.signature in
        let plain : Option (List ℕ) = if is_signed b.bytes then some b.bytes else none in
        elim (decompress z b.bytes) [
          | none ↦ plain
          | some bytes ↦ if is_signed bytes then some bytes else plain
        ]

    unfoldable pub receive_broadcast :
        {D : Type 0}
        → Overlay D
        → ℕ
        → ℕ
        → OverlayBroadcast
        → Overlay D × Result OverlayError (List ℕ)
    receive_broadcast o now peer_id b =
        if is_broadcast_outdated o now b.date then (o, ok []) else elim (c.to_full b.src) [
          | none ↦ (o, err OverlayError.invalid_public_key)
          | some node_id ↦
              let node_peer_id = c.compute_short_id node_id in
              let source : Option ℕ = if has_any_sender b.flags then none else some node_peer_id in
              elim (signed_data node_id source b) [
                | none ↦ (o, err OverlayError.bad_signature)
                | some bytes ↦
                    let id = c.hash_to_sign (make_broadcast_to_sign bytes b.date source) in
                    let (o', is_new) = create_broadcast o id in
                    if is_new
                    then (
                      spawn_broadcast_gc_task
                          (record o' {
                            received_broadcasts =
                                o'.received_broadcasts
                                ++ (record { packets = 1; bytes = bytes; from = node_peer_id }
                                    ∷ []);
                          })
                          id,
                      ok (
                          get_random_peers ℕ_discrete choose o.neighbours
                            o.options.secondary_broadcast_target_count (some peer_id)),
                    )
                    else (o, ok [])
              ]
        ]
