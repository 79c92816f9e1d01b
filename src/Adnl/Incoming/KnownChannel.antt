-- ===== src/Adnl/Incoming/KnownChannel.antt =====
-- The channel of a packet that src/adnl/node/receiver.rs has decrypted.
use mathlib.Core.Path.{subst}
use mathlib.Core.Option.{some-injective, none-ne-some}
use tiny_adnl.Prelude.{
  ℕ, ◌≡◌, ◌≢◌, ◌∙◌, sym, ap, true, Option, none, some, ok, err, List, take, arith, Option-cases,
  inl, inr,
}
use tiny_adnl.Adnl.Encryption.{Cipher}
use tiny_adnl.Adnl.Channel.{decrypt}
use tiny_adnl.Adnl.Handshake.{HandshakeKeys, parse_handshake_packet}
use tiny_adnl.Adnl.Node.{Node, touch_channel}
use tiny_adnl.Adnl.Node.Linked.{Linked, touch_channel-Linked}
use tiny_adnl.Adnl.Receiver.{Identities, is_some, find_peer, packet, unknown_channel}
use tiny_adnl.Adnl.Receiver.Stages.{Result-cases}
use tiny_adnl.Adnl.Incoming.{Reading, Opened, open_channel, open_packet}

module _ (c : Cipher) (hk : HandshakeKeys) (k : Identities) (r : Reading) where
  -- The tables stay linked, and the peer that is found has a channel.
  pub record Known (n : Node) (o : Opened) : Type 0 where
    pub linked : Linked n
    pub found :
        (peer_id : ℕ) → o.peer_id ≡ some peer_id → is_some (n.channels_by_peers peer_id) ≡ true

  open_channel-Known :
      (n n' : Node) (buffer : List ℕ) (o : Opened)
      → Linked n
      → open_channel c hk k r n buffer ≡ (n', ok (some o))
      → Known n' o
  unfolding open_channel touch_channel is_some
  open_channel-Known n n' buffer o l h = elim (Option-cases (n.channels_by_id (take 32 buffer))) [
    | inl e ↦ absurd (ground (arith, e))
    | inr ((place, priority), e) ↦
        let i = l.by_id (take 32 buffer) place priority e in
        elim (Result-cases (decrypt c i.channel buffer priority)) [
          | inl (x, d) ↦ absurd (ground (arith, e, i.stored, d))
          | inr ((version, bytes), d) ↦
              let same : n' ≡ touch_channel n place i.channel = ground (arith, e, i.stored, d) in
              let peer : o.peer_id ≡ some i.channel.peer_id = ground (arith, e, i.stored, d) in
              let owner : (touch_channel n place i.channel).channels_by_peers i.channel.peer_id
                  ≡ some place =
                i.current in
              record {
                linked =
                    subst Linked (sym same) (touch_channel-Linked n place i.channel l i.stored);
                found = λ q f.
                    let w : i.channel.peer_id ≡ q = some-injective _ _ (sym peer ∙ f) in
                    ap is_some (
                      ap (λ m. m.channels_by_peers q) same
                      ∙ ap (touch_channel n place i.channel).channels_by_peers (sym w)
                      ∙ owner);
              }
        ]
  ]

  open_packet-Known :
      (n n' : Node) (keys : List ℕ → Option ℕ) (buffer : List ℕ) (o : Opened)
      → Linked n
      → open_packet c hk k r n keys buffer ≡ (n', ok (some o))
      → Known n' o
  unfolding open_packet
  open_packet-Known n n' keys buffer o l h =
      elim (Result-cases (parse_handshake_packet c hk keys buffer)) [
        | inl (x, e) ↦ absurd (ground (arith, e))
        | inr (none, e) ↦ open_channel-Known n n' buffer o l (ground (arith, e))
        | inr (some (local_id, version, bytes), e) ↦
            let same : n' ≡ n = ground (arith, e) in
            let direct : o.peer_id ≡ none = ground (arith, e) in
            record {
              linked = subst Linked (sym same) l;
              found = λ q f. absurd (none-ne-some q (sym direct ∙ f));
            }
      ]

  -- From a node whose tables are linked, a packet that is decrypted leaves the tables linked; and if
  -- it came over a channel, its peer is never refused for want of a channel.
  pub open_packet-find_peer :
      (n n' : Node) (keys : List ℕ → Option ℕ) (buffer : List ℕ) (o : Opened)
      → Linked n
      → open_packet c hk k r n keys buffer ≡ (n', ok (some o))
      → Linked n'
        × ((peer_id : ℕ)
            → o.peer_id ≡ some peer_id
            → find_peer k n' o.local_id true peer_id ≢ err (packet unknown_channel))
  unfolding find_peer
  open_packet-find_peer n n' keys buffer o l h =
      let known = open_packet-Known n n' keys buffer o l h in
      (
        known.linked,
        λ peer_id e refused.
            let there = known.found peer_id e in
            elim (Option-cases (n'.peers o.local_id)) [
              | inl f ↦ absurd (ground (arith, there, f))
              | inr (peers, f) ↦ elim (Option-cases (peers peer_id)) [
                | inl g ↦ absurd (ground (arith, there, f, g))
                | inr (peer, g) ↦ absurd (ground (arith, there, f, g))
              ]
            ],
      )
