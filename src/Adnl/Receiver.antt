-- ===== src/Adnl/Receiver.antt =====
-- `check_packet` of src/adnl/node/receiver.rs: what a decrypted packet must fulfil, and what it does
-- to the peers. `none` is an answer that does not come, since a history is held by another task.
pub mod Stages
pub mod Source
pub mod Entered
pub mod Accepted
pub mod Unsigned
pub mod Repeated
mod Tests
use tiny_adnl.Prelude.Bytes.{add32}
use tiny_adnl.Prelude.{
  ℕ, Bool, true, false, Option, none, some, Result, ok, err, List, if◌then◌else◌, ltb, ◌==◌, ◌&&◌,
  ◌||◌, not,
}
use tiny_adnl.Util.PacketsHistory.{PacketsHistory, deliver_packet}
use tiny_adnl.Util.AddressList.{AdnlAddressListError, parse_address_list}
use tiny_adnl.Adnl.Packet.{ReinitDates, PacketContentsSignature, IncomingPacketContents, extract}
use tiny_adnl.Adnl.Peer.{SocketAddr, PeerState, Peer, history, try_reinit_sender}
use tiny_adnl.Adnl.Node.{Node, NodeError, NewPeerContext, Peers, add_peer, put_peer}

pub data AdnlPacketError : Type 0 where
  explicit_source_for_channel invalid_peer_id no_key_data_in_packet : AdnlPacketError
  unknown_channel unknown_peer dst_reinit_date_too_new dst_reinit_date_too_old : AdnlPacketError
  src_reinit_date_too_new src_reinit_date_too_old confirmation_seqno_too_new : AdnlPacketError
  signature_not_found invalid_signature : AdnlPacketError

-- Every error that comes out of `check_packet`.
pub data CheckError : Type 0 where
  packet : AdnlPacketError → CheckError
  address_list : AdnlAddressListError → CheckError
  node : NodeError → CheckError
  invalid_public_key : CheckError

-- `verify_raw` of a public key, its conversion from the packet's, and its short id.
pub record Identities : Type 0 where
  pub verify_raw : ℕ → List ℕ → List ℕ → Bool
  pub to_full : ℕ → Option ℕ
  pub compute_short_id : ℕ → ℕ

unfoldable pub is_some {ℓ} : {A : Type ℓ} → Option A → Bool
is_some none = false
is_some (some _) = true

-- The option `from_short` holds another id.
pub is_other : Option ℕ → ℕ → Bool
is_other none peer_id = false
is_other (some id) peer_id = not (peer_id == id)

unfoldable pub set_history : PeerState → Bool → PacketsHistory → PeerState
set_history s true h = record s { priority_history = h }
set_history s false h = record s { ordinary_history = h }

module _ (k : Identities) where
  pub verify :
      List ℕ → Option PacketContentsSignature → ℕ → Bool → Result AdnlPacketError (Unit {0})
  verify raw none key mandatory = if mandatory then err signature_not_found else ok tt
  verify raw (some s) key mandatory = elim (extract s raw) [
    | none ↦ err signature_not_found
    | some (message, signature) ↦
        if k.verify_raw key message signature then ok tt else err invalid_signature
  ]

  -- The source of a packet with a key: the peer is entered if the packet has its address.
  pub source_of_key :
      Node
      → Option (NewPeerContext → SocketAddr → ℕ → Bool)
      → ℕ
      → ℕ
      → List ℕ
      → IncomingPacketContents
      → ℕ
      → ℕ
      → Node × Result CheckError (ℕ × Bool)
  source_of_key n filter channel_key now raw p local_id full_id =
      let peer_id = k.compute_short_id full_id in
      if is_other p.from_short peer_id
      then (n, err (packet invalid_peer_id))
      else elim (verify raw p.signature full_id n.options.packet_signature_required) [
        | err e ↦ (n, err (packet e))
        | ok _ ↦ elim p.address [
          | none ↦ (n, ok (peer_id, false))
          | some list ↦ elim (parse_address_list now list n.options.clock_tolerance_sec) [
            | err e ↦ (n, err (address_list e))
            | ok addr ↦
                let (n', added) =
                  add_peer n filter channel_key NewPeerContext.adnl_packet local_id peer_id addr
                    full_id in
                elim added [ err e ↦ (n', err (node e)) | ok _ ↦ (n', ok (peer_id, false)) ]
          ]
        ]
      ]

  -- The peer's id, and whether the signature is still to be checked.
  pub find_source :
      Node
      → Option (NewPeerContext → SocketAddr → ℕ → Bool)
      → ℕ
      → ℕ
      → List ℕ
      → IncomingPacketContents
      → ℕ
      → Option ℕ
      → Node × Result CheckError (ℕ × Bool)
  find_source n filter channel_key now raw p local_id (some peer_id) =
      if is_some p.from || is_some p.from_short
      then (n, err (packet explicit_source_for_channel))
      else (n, ok (peer_id, true))
  find_source n filter channel_key now raw p local_id none = elim p.from [
    | some public_key ↦ elim (k.to_full public_key) [
      | none ↦ (n, err invalid_public_key)
      | some full_id ↦ source_of_key n filter channel_key now raw p local_id full_id
    ]
    | none ↦ elim p.from_short [
      | some peer_id ↦ (n, ok (peer_id, true))
      | none ↦ (n, err (packet no_key_data_in_packet))
    ]
  ]

  unfoldable pub find_peer : Node → ℕ → Bool → ℕ → Result CheckError (Peers × Peer)
  find_peer n local_id from_channel peer_id = elim (n.peers local_id) [
    | none ↦ err (node NodeError.peers_not_found)
    | some peers ↦
        if from_channel && not (is_some (n.channels_by_peers peer_id))
        then err (packet unknown_channel)
        else elim (peers peer_id) [
          | none ↦ err (packet unknown_peer)
          | some peer ↦ ok (peers, peer)
        ]
  ]

  pub check_reinit :
      ℕ → ℕ → ℕ → Peer → Option ReinitDates → Option (Peer × Result AdnlPacketError (Unit {0}))
  check_reinit now start_time tolerance peer none = some (peer, ok tt)
  check_reinit now start_time tolerance peer (some dates) =
      if ltb start_time dates.target
      then some (peer, err dst_reinit_date_too_new)
      else if ltb (add32 now tolerance) dates.local
      then some (peer, err src_reinit_date_too_new)
      else elim (try_reinit_sender peer dates.local) [
        | none ↦ none
        | some (peer', accepted) ↦
            if accepted
            then (if not (dates.target == 0) && ltb dates.target start_time
                then some (peer', err dst_reinit_date_too_old)
                else some (peer', ok tt))
            else some (peer', err src_reinit_date_too_old)
      ]

  -- Whether the packet is new.
  pub check_history : Bool → Bool → Peer → Option ℕ → Option (Peer × Bool)
  check_history enabled priority peer none = some (peer, true)
  check_history enabled priority peer (some seqno) =
      if enabled
      then elim (deliver_packet (history peer.receiver_state priority) seqno) [
        | none ↦ none
        | some (fresh, h) ↦
            some
              (record peer { receiver_state = set_history peer.receiver_state priority h }, fresh)
      ]
      else some (peer, true)

  pub check_confirm : Bool → Peer → Option ℕ → Result AdnlPacketError (Unit {0})
  check_confirm priority peer none = ok tt
  check_confirm priority peer (some confirm_seqno) =
      if ltb (history peer.sender_state priority).seqno confirm_seqno
      then err confirmation_seqno_too_new
      else ok tt

  -- What comes after the peer is found and the signature is right. With the error
  -- `dst_reinit_date_too_old` a message `Nop` is sent to the peer.
  pub check_state :
      Node
      → ℕ
      → IncomingPacketContents
      → ℕ
      → Bool
      → ℕ
      → Peers
      → Peer
      → Option (Node × Result CheckError (Option ℕ))
  check_state n now p local_id priority peer_id peers peer =
      elim (check_reinit now n.start_time n.options.clock_tolerance_sec peer p.reinit_dates) [
        | none ↦ none
        | some (dated, err e) ↦
            some (put_peer n local_id peers peer_id (some dated), err (packet e))
        | some (dated, ok _) ↦
            elim (check_history n.options.packet_history_enabled priority dated p.seqno) [
              | none ↦ none
              | some (heard, fresh) ↦
                  let n' = put_peer n local_id peers peer_id (some heard) in
                  if fresh
                  then elim (check_confirm priority heard p.confirm_seqno) [
                    | err e ↦ some (n', err (packet e))
                    | ok _ ↦ some (n', ok (some peer_id))
                  ]
                  else some (n', ok none)
            ]
      ]

  pub check_packet :
      Node
      → Option (NewPeerContext → SocketAddr → ℕ → Bool)
      → ℕ
      → ℕ
      → List ℕ
      → IncomingPacketContents
      → ℕ
      → Option ℕ
      → Bool
      → Option (Node × Result CheckError (Option ℕ))
  check_packet n filter channel_key now raw p local_id from_channel priority =
      let (n', source) = find_source n filter channel_key now raw p local_id from_channel in
      elim source [
        | err e ↦ some (n', err e)
        | ok (peer_id, check_signature) ↦
            elim (find_peer n' local_id (is_some from_channel) peer_id) [
              | err e ↦ some (n', err e)
              | ok (peers, peer) ↦
                  elim (if check_signature then verify raw p.signature peer.id false else ok tt) [
                    | err e ↦ some (n', err (packet e))
                    | ok _ ↦ check_state n' now p local_id priority peer_id peers peer
                  ]
            ]
      ]
