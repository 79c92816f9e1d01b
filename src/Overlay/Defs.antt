-- ===== src/Overlay/Defs.antt =====
-- The state of an overlay, src/overlay/overlay.rs. Ids and hashes are numbers, which stand for their
-- 32 bytes. The tasks that an overlay has started are part of its state.
use tiny_adnl.Prelude.{ℕ, Bool, Option, List, [], ◌∷◌, if◌then◌else◌, ◌==◌}
use tiny_adnl.Util.PacketsHistory.{PacketsHistory}
use tiny_adnl.Adnl.PeersSet.{PeersSetState}
use tiny_adnl.Rldp.Incoming.{FecType, RaptorQDecoder}

pub record OverlayOptions : Type 0 where
  pub max_neighbours : ℕ
  pub max_broadcast_log : ℕ
  pub max_ordinary_broadcast_len : ℕ
  pub broadcast_target_count : ℕ
  pub secondary_broadcast_target_count : ℕ
  pub secondary_fec_broadcast_target_count : ℕ
  pub fec_broadcast_wave_len : ℕ
  pub broadcast_timeout_sec : ℕ
  pub force_compression : Bool

-- The last three are errors of what the overlay calls: of the key's parser, of `verify`, and of
-- src/overlay/overlay_id.rs.
pub data OverlayError : Type 0 where
  unsupported_signature data_size_mismatch data_hash_mismatch : OverlayError
  invalid_public_key bad_signature overlay_id_mismatch : OverlayError

pub record OverlayBroadcastToSign : Type 0 where
  pub hash : ℕ
  pub date : ℕ

-- `proto::overlay::OverlayBroadcast` and `OverlayBroadcastFec`, without the certificate
pub record OverlayBroadcast : Type 0 where
  pub src : ℕ
  pub flags : ℕ
  pub bytes : List ℕ
  pub date : ℕ
  pub signature : List ℕ

pub record OverlayBroadcastFec : Type 0 where
  pub src : ℕ
  pub data_hash : ℕ
  pub data_size : ℕ
  pub flags : ℕ
  pub bytes : List ℕ
  pub seqno : ℕ
  pub fec : FecType
  pub date : ℕ
  pub signature : List ℕ

pub record IncomingBroadcastInfo : Type 0 where
  pub packets : ℕ
  pub bytes : List ℕ
  pub from : ℕ

-- The message to the task of a transfer.
pub record BroadcastFec : Type 0 where
  pub node_id : ℕ
  pub data_hash : ℕ
  pub data_size : ℕ
  pub flags : ℕ
  pub bytes : List ℕ
  pub seqno : ℕ
  pub fec_type : FecType
  pub date : ℕ
  pub signature : List ℕ

-- `proto::overlay::NodeOwned` and `NodeToSign`
pub record OverlayNode : Type 0 where
  pub node_id : ℕ
  pub overlay : ℕ
  pub version : ℕ
  pub signature : List ℕ

pub record NodeToSign : Type 0 where
  pub short_id : ℕ
  pub overlay_id : ℕ
  pub node_version : ℕ

-- A transfer with its task: `queue` is the channel between them, and `decoder` and `packets` are
-- variables of the task.
pub record IncomingFecTransfer (D : Type 0) : Type 0 where
  pub completed : Bool
  pub history : PacketsHistory
  pub queue : List BroadcastFec
  pub source : ℕ
  pub updated_at : ℕ
  pub decoder : RaptorQDecoder D
  pub packets : ℕ

pub data OwnedBroadcast (D : Type 0) : Type 0 where
  other : OwnedBroadcast D
  incoming : IncomingFecTransfer D → OwnedBroadcast D

-- `cleanups` are the tasks that wait for a transfer's end, and `gc_tasks` those that sleep before
-- they put a broadcast into the queue of the finished ones.
pub record Overlay (D : Type 0) : Type 0 where
  pub id : ℕ
  pub node_key : ℕ
  pub options : OverlayOptions
  pub owned_broadcasts : ℕ → Option (OwnedBroadcast D)
  pub finished_broadcasts : List ℕ
  pub finished_broadcast_count : ℕ
  pub received_broadcasts : List IncomingBroadcastInfo
  pub received_peers : ℕ → Option OverlayNode
  pub nodes : ℕ → Option OverlayNode
  pub ignored_peers : List ℕ
  pub known_peers : PeersSetState ℕ
  pub neighbours : PeersSetState ℕ
  pub cleanups : List ℕ
  pub gc_tasks : List ℕ

abbrev pub put_broadcast :
    {D : Type 0}
    → (ℕ → Option (OwnedBroadcast D))
    → ℕ
    → Option (OwnedBroadcast D)
    → ℕ
    → Option (OwnedBroadcast D)
put_broadcast owned id b i = if i == id then b else owned i

-- The tasks that are left when the one for an id ends.
unfoldable pub without : ℕ → List ℕ → List ℕ
without id [] = []
without id (i ∷ rest) = if i == id then rest else i ∷ without id rest
