-- ===== src/Adnl/Receiver/Stages.antt =====
-- The stages of `check_packet` of src/adnl/node/receiver.rs, one by one.
use mathlib.Core.Path.{subst}
use tiny_adnl.Prelude.Bytes.{add32}
use tiny_adnl.Prelude.{
  ℕ, ◌≤◌, ◌≡◌, ◌⊎◌, refl, sym, ap, Bool, true, false, Option, none, some, Result, ok, err, List,
  if◌then◌else◌, arith, Option-cases, Bool-cases, inl, inr, ◌&&◌, not,
}
use tiny_adnl.Util.PacketsHistory.{PacketsHistory, deliver_packet}
use tiny_adnl.Adnl.Packet.{ReinitDates, IncomingPacketContents}
use tiny_adnl.Adnl.Peer.{SocketAddr, PeerState, Peer, history, try_reinit_sender}
use tiny_adnl.Adnl.Peer.Reinit.{try_reinit_sender-Reinit}
use tiny_adnl.Adnl.Node.{Node, NewPeerContext, Peers, put_peer}
use tiny_adnl.Adnl.Receiver.{
  Identities, is_some, set_history, verify, find_source, find_peer, check_reinit, check_history,
  check_confirm, check_state, check_packet,
}

pub Result-cases {ℓ κ} :
    {E : Type ℓ} {A : Type κ} (r : Result E A) → ((e : E) × (r ≡ err e)) ⊎ ((a : A) × (r ≡ ok a))
Result-cases (err e) = inl (e, refl)
Result-cases (ok a) = inr (a, refl)

history-set_history :
    (s : PeerState) (priority : Bool) (h : PacketsHistory)
    → history (set_history s priority h) priority ≡ h
unfolding history set_history
history-set_history s true h = refl
history-set_history s false h = refl

module _ (k : Identities) where
  -- Dates that are let through are not in the future, and the peer's is known from then on.
  pub check_reinit-ok :
      (now start_time tolerance : ℕ) (peer after : Peer) (dates : ReinitDates)
      → check_reinit k now start_time tolerance peer (some dates) ≡ some (after, ok tt)
      → (dates.target ≤ start_time)
        × (dates.local ≤ add32 now tolerance)
        × (after.sender_state.reinit_date ≡ dates.local)
  unfolding check_reinit
  check_reinit-ok now start_time tolerance peer after dates h =
      elim (Option-cases (try_reinit_sender peer dates.local)) [
        | inl waits ↦ absurd (ground arith)
        | inr ((q, accepted), e) ↦
            let r = try_reinit_sender-Reinit peer q dates.local accepted e in
            ground (arith, r.taken)
      ]

  pub check_history-new :
      (enabled priority : Bool) (peer after : Peer) (seqno : ℕ)
      → check_history k enabled priority peer (some seqno) ≡ some (after, true)
      → enabled ≡ true
      → deliver_packet (history peer.receiver_state priority) seqno
        ≡ some (true, history after.receiver_state priority)
  unfolding check_history
  check_history-new enabled priority peer after seqno h on =
      elim (Option-cases (deliver_packet (history peer.receiver_state priority) seqno)) [
        | inl waits ↦ absurd (ground arith)
        | inr ((fresh, m), e) ↦ ground (arith, history-set_history peer.receiver_state priority m)
      ]

  pub check_history-sender :
      (enabled priority fresh : Bool) (peer after : Peer) (seqno : Option ℕ)
      → check_history k enabled priority peer seqno ≡ some (after, fresh)
      → after.sender_state ≡ peer.sender_state
  unfolding check_history
  check_history-sender enabled priority fresh peer after none h = ground arith
  check_history-sender enabled priority fresh peer after (some seqno) h =
      elim (Option-cases (deliver_packet (history peer.receiver_state priority) seqno)) [
        | inl waits ↦ ground arith
        | inr ((f, m), e) ↦ ground arith
      ]

  pub check_history-id :
      (enabled priority fresh : Bool) (peer after : Peer) (seqno : Option ℕ)
      → check_history k enabled priority peer seqno ≡ some (after, fresh)
      → after.id ≡ peer.id
  unfolding check_history
  check_history-id enabled priority fresh peer after none h = ground arith
  check_history-id enabled priority fresh peer after (some seqno) h =
      elim (Option-cases (deliver_packet (history peer.receiver_state priority) seqno)) [
        | inl waits ↦ ground arith
        | inr ((f, m), e) ↦ ground arith
      ]

  -- A packet with no number leaves the peer as it is.
  pub check_history-none :
      (enabled priority fresh : Bool) (peer after : Peer)
      → check_history k enabled priority peer none ≡ some (after, fresh)
      → after ≡ peer
  unfolding check_history
  check_history-none enabled priority fresh peer after h = ground arith

  pub check_reinit-none :
      (now start_time tolerance : ℕ) (peer after : Peer)
      → check_reinit k now start_time tolerance peer none ≡ some (after, ok tt)
      → after ≡ peer
  unfolding check_reinit
  check_reinit-none now start_time tolerance peer after h = ground arith

  -- Dates that are let through are those with which the peer is made new, if it has to be.
  pub check_reinit-taken :
      (now start_time tolerance : ℕ) (peer after : Peer) (dates : ReinitDates)
      → check_reinit k now start_time tolerance peer (some dates) ≡ some (after, ok tt)
      → try_reinit_sender peer dates.local ≡ some (after, true)
  unfolding check_reinit
  check_reinit-taken now start_time tolerance peer after dates h =
      elim (Option-cases (try_reinit_sender peer dates.local)) [
        | inl waits ↦ absurd (ground arith)
        | inr ((q, accepted), e) ↦ ground arith
      ]

  pub find_peer-found :
      (n : Node) (local_id peer_id : ℕ) (from_channel : Bool) (peers : Peers) (peer : Peer)
      → find_peer k n local_id from_channel peer_id ≡ ok (peers, peer)
      → (n.peers local_id ≡ some peers) × (peers peer_id ≡ some peer)
  unfolding find_peer
  find_peer-found n local_id peer_id from_channel peers peer h =
      elim (Option-cases (n.peers local_id)) [
        | inl e ↦ absurd (ground (arith, e))
        | inr (ps, e) ↦
            elim (Bool-cases (from_channel && not (is_some (n.channels_by_peers peer_id)))) [
              | inl gone ↦ absurd (ground (arith, e, gone))
              | inr there ↦ elim (Option-cases (ps peer_id)) [
                | inl f ↦ absurd (ground (arith, e, there, f))
                | inr (q, f) ↦ ground (arith, e, there, f)
              ]
            ]
      ]

  pub check_confirm-ok :
      (priority : Bool) (peer : Peer) (confirm_seqno : ℕ)
      → check_confirm k priority peer (some confirm_seqno) ≡ ok tt
      → confirm_seqno ≤ (history peer.sender_state priority).seqno
  unfolding check_confirm
  check_confirm-ok priority peer confirm_seqno h = ground arith

  -- A packet that the last stage accepts went through each of its tests.
  pub record Passed (n : Node) (now : ℕ) (p : IncomingPacketContents) (local_id : ℕ)
      (priority : Bool) (peer_id : ℕ) (peers : Peers) (peer : Peer) (n' : Node) : Type 0 where
    pub dated : Peer
    pub heard : Peer
    pub in_time :
        check_reinit k now n.start_time n.options.clock_tolerance_sec peer p.reinit_dates
        ≡ some (dated, ok tt)
    pub is_new :
        check_history k n.options.packet_history_enabled priority dated p.seqno ≡ some (heard, true)
    pub confirms : check_confirm k priority heard p.confirm_seqno ≡ ok tt
    pub state : n' ≡ put_peer n local_id peers peer_id (some heard)

  pub check_state-Passed :
      (n n' : Node) (now : ℕ) (p : IncomingPacketContents) (local_id : ℕ) (priority : Bool)
      (peer_id accepted : ℕ) (peers : Peers) (peer : Peer)
      → check_state k n now p local_id priority peer_id peers peer ≡ some (n', ok (some accepted))
      → Passed n now p local_id priority peer_id peers peer n' × (accepted ≡ peer_id)
  unfolding check_state
  check_state-Passed n n' now p local_id priority peer_id accepted peers peer h =
      let tol = n.options.clock_tolerance_sec in
      elim (Option-cases (check_reinit k now n.start_time tol peer p.reinit_dates)) [
        | inl waits ↦ absurd (ground (arith, waits))
        | inr ((dated, err e), f) ↦ absurd (ground (arith, f))
        | inr ((dated, ok _), f) ↦
            let enabled = n.options.packet_history_enabled in
            elim (Option-cases (check_history k enabled priority dated p.seqno)) [
              | inl waits ↦ absurd (ground (arith, f, waits))
              | inr ((heard, false), g) ↦ absurd (ground (arith, f, g))
              | inr ((heard, true), g) ↦
                  elim (Result-cases (check_confirm k priority heard p.confirm_seqno)) [
                    | inl (e, c) ↦ absurd (ground (arith, f, g, c))
                    | inr (_, c) ↦ (
                      record {
                        dated = dated;
                        heard = heard;
                        in_time = f;
                        is_new = g;
                        confirms = c;
                        state = ground (arith, f, g, c);
                      },
                      ground (arith, f, g, c),
                    )
                  ]
            ]
      ]

  -- A packet that is accepted went through each stage.
  pub record Staged (n : Node) (filter : Option (NewPeerContext → SocketAddr → ℕ → Bool))
      (channel_key now : ℕ) (raw : List ℕ) (p : IncomingPacketContents) (local_id : ℕ)
      (from_channel : Option ℕ) (priority : Bool) (accepted : ℕ) (n' : Node) : Type 0 where
    pub known : Node
    pub check_signature : Bool
    pub peers : Peers
    pub peer : Peer
    pub source :
        find_source k n filter channel_key now raw p local_id from_channel
        ≡ (known, ok (accepted, check_signature))
    pub found : find_peer k known local_id (is_some from_channel) accepted ≡ ok (peers, peer)
    pub signed : (if check_signature then verify k raw p.signature peer.id false else ok tt) ≡ ok tt
    pub passed : Passed known now p local_id priority accepted peers peer n'

  pub check_packet-Staged :
      (n n' : Node) (filter : Option (NewPeerContext → SocketAddr → ℕ → Bool)) (channel_key now : ℕ)
      (raw : List ℕ) (p : IncomingPacketContents) (local_id : ℕ) (from_channel : Option ℕ)
      (priority : Bool) (accepted : ℕ)
      → check_packet k n filter channel_key now raw p local_id from_channel priority
        ≡ some (n', ok (some accepted))
      → Staged n filter channel_key now raw p local_id from_channel priority accepted n'
  unfolding check_packet
  check_packet-Staged n n' filter channel_key now raw p local_id from_channel priority accepted h =
      let s = find_source k n filter channel_key now raw p local_id from_channel in
      elim (Result-cases s.1) [
        | inl (e, f) ↦ absurd (ground (arith, f))
        | inr ((peer_id, chk), f) ↦
            elim (Result-cases (find_peer k s.0 local_id (is_some from_channel) peer_id)) [
              | inl (e, g) ↦ absurd (ground (arith, f, g))
              | inr ((peers, peer), g) ↦
                  elim (Result-cases
                    (if chk then verify k raw p.signature peer.id false else ok tt)) [
                      | inl (e, c) ↦ absurd (ground (arith, f, g, c))
                      | inr (_, c) ↦
                          let (passed, same) =
                            check_state-Passed s.0 n' now p local_id priority peer_id accepted peers
                              peer (ground (arith, f, g, c)) in
                          subst
                            (λ i.
                              Staged n filter channel_key now raw p local_id from_channel priority i
                                n')
                            (sym same)
                            (record {
                              known = s.0;
                              check_signature = chk;
                              peers = peers;
                              peer = peer;
                              source = ap (λ r. (s.0, r)) f;
                              found = g;
                              signed = c;
                              passed = passed;
                            })
                    ]
            ]
      ]
