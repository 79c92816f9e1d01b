-- ===== src/Adnl/Receiver/Repeated.antt =====
-- A packet that comes a second time, in `check_packet` of src/adnl/node/receiver.rs.
use mathlib.Core.Path.{subst}
use mathlib.Core.Option.{some-injective}
use tiny_adnl.Prelude.{
  ℕ, ◌<◌, ◌≡◌, ◌∙◌, refl, sym, ap, Bool, true, false, Option, none, some, ok, List, if◌then◌else◌,
  ◌==◌, arith, length, Option-cases, Bool-cases, inl, inr,
}
use tiny_adnl.Util.PacketsHistory.{PacketsHistory, raise, deliver_packet}
use tiny_adnl.Util.PacketsHistory.Window.{receiver, seen, mark, seen-mark, deliver_packet-receiver}
use tiny_adnl.Adnl.Packet.{IncomingPacketContents}
use tiny_adnl.Adnl.Peer.{SocketAddr, Peer, history}
use tiny_adnl.Adnl.Node.{Node, NewPeerContext, Peers, put_peer}
use tiny_adnl.Adnl.Receiver.{
  Identities, is_some, verify, find_source, find_peer, check_reinit, check_history, check_state,
  check_packet, set_history,
}
use tiny_adnl.Adnl.Receiver.Source.{find_source-Source}
use tiny_adnl.Adnl.Receiver.Stages.{
  Passed, check_packet-Staged, check_history-new, check_history-id,
}

-- A number of the window that was taken for new is not taken again.
deliver_packet-again :
    (bits : List ℕ) (last s : ℕ) (h : PacketsHistory)
    → length bits ≡ 8
    → s < 256
    → deliver_packet (receiver bits last) s ≡ some (true, h)
    → deliver_packet h s ≡ some (false, h)
deliver_packet-again bits last s h size small first = elim (Bool-cases (seen bits s)) [
  | inl old ↦ absurd (ground (arith, deliver_packet-receiver bits last s small, old))
  | inr fresh ↦
      let r = receiver (mark bits s) (raise last s) in
      let e : ◌≡◌ {A = Option (Bool × PacketsHistory)} (some (true, h)) (some (true, r)) =
        sym first
        ∙ deliver_packet-receiver bits last s small
        ∙ ap (λ b. some (if b then (false, receiver bits last) else (true, r))) fresh in
      let w : h ≡ r = ap (λ x. x.1) (some-injective _ _ e) in
      let marked : seen (mark bits s) s ≡ true =
        ground (arith, seen-mark bits s s size small small) in
      subst (λ m. deliver_packet m s ≡ some (false, m)) (sym w)
        (ground (arith, deliver_packet-receiver (mark bits s) (raise last s) s small, marked))
]

module _ (k : Identities) where
  -- In a channel that is there, only the signature and the state of the peer are left to be checked.
  check_packet-channel :
      (n : Node) (filter : Option (NewPeerContext → SocketAddr → ℕ → Bool)) (channel_key now : ℕ)
      (raw : List ℕ) (p : IncomingPacketContents) (local_id peer_id : ℕ) (priority : Bool)
      (peers : Peers) (peer : Peer)
      → p.from ≡ none
      → p.from_short ≡ none
      → find_peer k n local_id true peer_id ≡ ok (peers, peer)
      → verify k raw p.signature peer.id false ≡ ok tt
      → check_packet k n filter channel_key now raw p local_id (some peer_id) priority
        ≡ check_state k n now p local_id priority peer_id peers peer
  unfolding check_packet find_source is_some
  check_packet-channel n filter channel_key now raw p local_id peer_id priority peers peer a b c d =
      ground (arith, a, b, c, d)

  check_state-old :
      (n : Node) (now : ℕ) (p : IncomingPacketContents) (local_id : ℕ) (priority : Bool)
      (peer_id seqno : ℕ) (peers : Peers) (peer : Peer) (h : PacketsHistory)
      → n.options.packet_history_enabled ≡ true
      → p.reinit_dates ≡ none
      → p.seqno ≡ some seqno
      → deliver_packet (history peer.receiver_state priority) seqno ≡ some (false, h)
      → (n' : Node) × (check_state k n now p local_id priority peer_id peers peer
          ≡ some (n', ok none))
  unfolding check_state check_reinit check_history
  check_state-old n now p local_id priority peer_id seqno peers peer h a b c d = (
    put_peer n local_id peers peer_id
        (some (record peer { receiver_state = set_history peer.receiver_state priority h })),
    ground (arith, a, b, c, d),
  )

  -- What stays of a peer after a packet without dates.
  peer_after :
      (n n' : Node) (now : ℕ) (p : IncomingPacketContents) (local_id : ℕ) (priority : Bool)
      (peer_id : ℕ) (peers : Peers) (peer : Peer)
      → (q : Passed k n now p local_id priority peer_id peers peer n') → p.reinit_dates ≡ none
      → (q.dated ≡ peer) × (q.heard.id ≡ peer.id)
  unfolding check_reinit check_history
  peer_after n n' now p local_id priority peer_id peers peer q e =
      let tol = n.options.clock_tolerance_sec in
      let first : check_reinit k now n.start_time tol peer none ≡ some (q.dated, ok tt) =
        ap (check_reinit k now n.start_time tol peer) (sym e) ∙ q.in_time in
      let same : q.dated ≡ peer = ground (arith, first) in
      (
        same,
        check_history-id k n.options.packet_history_enabled priority true q.dated q.heard p.seqno
              q.is_new
            ∙ ap (λ x. x.id) same,
      )

  find_peer-again :
      (n : Node) (local_id peer_id : ℕ) (peers : Peers) (peer after : Peer)
      → find_peer k n local_id true peer_id ≡ ok (peers, peer)
      → find_peer k (put_peer n local_id peers peer_id (some after)) local_id true peer_id
        ≡ ok (λ i. if i == peer_id then some after else peers i, after)
  unfolding find_peer
  find_peer-again n local_id peer_id peers peer after h = elim (Option-cases (n.peers local_id)) [
    | inl e ↦ absurd (ground (arith, e))
    | inr (ps, e) ↦ elim (Bool-cases (is_some (n.channels_by_peers peer_id))) [
      | inl there ↦ ground (arith, there)
      | inr gone ↦ absurd (ground (arith, e, gone))
    ]
  ]

  -- The packet again, after the peer was found and the packet had passed.
  repeated_known :
      (m n' : Node) (filter : Option (NewPeerContext → SocketAddr → ℕ → Bool))
      (channel_key now now' : ℕ) (raw : List ℕ) (p : IncomingPacketContents) (local_id peer_id : ℕ)
      (priority : Bool) (peers : Peers) (peer : Peer) (bits : List ℕ) (last seqno : ℕ)
      → Passed k m now p local_id priority peer_id peers peer n'
      → find_peer k m local_id true peer_id ≡ ok (peers, peer)
      → verify k raw p.signature peer.id false ≡ ok tt
      → m.options.packet_history_enabled ≡ true
      → history peer.receiver_state priority ≡ receiver bits last
      → length bits ≡ 8
      → seqno < 256
      → p.seqno ≡ some seqno
      → p.reinit_dates ≡ none
      → p.from ≡ none
      → p.from_short ≡ none
      → (n'' : Node) × (check_packet k n' filter channel_key now' raw p local_id
            (some peer_id)
            priority
          ≡ some (n'', ok none))
  repeated_known m n' filter channel_key now now' raw p local_id peer_id priority peers peer bits
        last seqno q found signed on window size small number undated direct long =
      let (same, id) = peer_after m n' now p local_id priority peer_id peers peer q undated in
      let enabled = m.options.packet_history_enabled in
      let h = history q.heard.receiver_state priority in
      let new : deliver_packet (history q.dated.receiver_state priority) seqno ≡ some (true, h) =
        check_history-new k enabled priority q.dated q.heard seqno
          (ap (check_history k enabled priority q.dated) (sym number) ∙ q.is_new) on in
      let old : deliver_packet h seqno ≡ some (false, h) =
        deliver_packet-again bits last seqno h size small (
          ap (λ g. deliver_packet g seqno)
            (sym window ∙ ap (λ x. history x.receiver_state priority) (sym same))
          ∙ new) in
      let n1 = put_peer m local_id peers peer_id (some q.heard) in
      let table : Peers = λ i. if i == peer_id then some q.heard else peers i in
      let (n'', state) =
        check_state-old n1 now' p local_id priority peer_id seqno table q.heard h on undated number
          old in
      let channel =
        check_packet-channel n1 filter channel_key now' raw p local_id peer_id priority table
          q.heard direct long (find_peer-again m local_id peer_id peers peer q.heard found)
          (ap (λ i. verify k raw p.signature i false) id ∙ signed) in
      (
        n'',
        ap (λ z. check_packet k z filter channel_key now' raw p local_id (some peer_id) priority)
              q.state
            ∙ channel
            ∙ state,
      )

  source_known :
      (n m : Node) (filter : Option (NewPeerContext → SocketAddr → ℕ → Bool)) (channel_key now : ℕ)
      (raw : List ℕ) (p : IncomingPacketContents) (local_id peer_id : ℕ) (chk : Bool)
      → find_source k n filter channel_key now raw p local_id (some peer_id)
        ≡ (m, ok (peer_id, chk))
      → m ≡ n
  unfolding find_source
  source_known n m filter channel_key now raw p local_id peer_id chk h = ground arith

  found_peer :
      (m : Node) (local_id peer_id : ℕ) (peers ps : Peers) (peer pr : Peer)
      → m.peers local_id ≡ some peers
      → peers peer_id ≡ some peer
      → find_peer k m local_id true peer_id ≡ ok (ps, pr)
      → pr ≡ peer
  unfolding find_peer
  found_peer m local_id peer_id peers ps peer pr e f h =
      elim (Bool-cases (is_some (m.channels_by_peers peer_id))) [
        | inl there ↦ ground (arith, there)
        | inr gone ↦ absurd (ground (arith, gone))
      ]

  -- Where packet histories are enabled: a packet of a channel, without dates, that is accepted with a
  -- number below 256 while the peer's history has its first window, is taken for a repetition when it
  -- is the next packet again, whatever the time then.
  pub check_packet-repeated :
      (n n' : Node) (filter filter' : Option (NewPeerContext → SocketAddr → ℕ → Bool))
      (channel_key channel_key' now now' : ℕ) (raw : List ℕ) (p : IncomingPacketContents)
      (local_id peer_id : ℕ) (priority : Bool) (peers : Peers) (peer : Peer) (bits : List ℕ)
      (last seqno : ℕ)
      → n.options.packet_history_enabled ≡ true
      → n.peers local_id ≡ some peers
      → peers peer_id ≡ some peer
      → history peer.receiver_state priority ≡ receiver bits last
      → length bits ≡ 8
      → seqno < 256
      → p.seqno ≡ some seqno
      → p.reinit_dates ≡ none
      → check_packet k n filter channel_key now raw p local_id (some peer_id) priority
        ≡ some (n', ok (some peer_id))
      → (n'' : Node) × (check_packet k n' filter' channel_key' now' raw p local_id
            (some peer_id)
            priority
          ≡ some (n'', ok none))
  unfolding is_some
  check_packet-repeated n n' filter filter' channel_key channel_key' now now' raw p local_id peer_id
        priority peers peer bits last seqno on known there window size small number undated h =
      let s =
        check_packet-Staged k n n' filter channel_key now raw p local_id (some peer_id) priority
          peer_id h in
      let source =
        find_source-Source k n s.known filter channel_key now raw p local_id (some peer_id) peer_id
          s.check_signature s.source in
      let (_, direct, long, checked) = source.by_channel peer_id refl in
      let same =
        source_known n s.known filter channel_key now raw p local_id peer_id s.check_signature
          s.source in
      let own : s.peer ≡ peer =
        found_peer n local_id peer_id peers s.peers peer s.peer known there
          (ap (λ z. find_peer k z local_id true peer_id) (sym same) ∙ s.found) in
      repeated_known s.known n' filter' channel_key' now now' raw p local_id peer_id priority
        s.peers s.peer bits last seqno s.passed s.found
        (ap (λ b. if b then verify k raw p.signature s.peer.id false else ok tt) (sym checked)
          ∙ s.signed)
        (ap (λ z. z.options.packet_history_enabled) same ∙ on)
        (ap (λ x. history x.receiver_state priority) own ∙ window) size small number undated direct
        long
