-- ===== src/Adnl/Receiver/Entered.antt =====
-- How a sender comes into the table of peers, in `check_packet` of src/adnl/node/receiver.rs.
use tiny_adnl.Prelude.{
  ℕ, ◌≡◌, ◌≢◌, ◌⊎◌, ◌∙◌, refl, ap, Bool, Option, none, some, ok, List, arith, Option-cases,
  Bool-cases, inl, inr,
}
use tiny_adnl.Util.AddressList.{AddressList, parse_address_list}
use tiny_adnl.Adnl.Packet.{IncomingPacketContents}
use tiny_adnl.Adnl.Peer.{SocketAddr}
use tiny_adnl.Adnl.Node.{Node, NewPeerContext, adnl_packet, add_peer}
use tiny_adnl.Adnl.Receiver.{Identities, is_other, verify, find_source, source_of_key}
use tiny_adnl.Adnl.Receiver.Stages.{Result-cases}

module _ (k : Identities) where
  -- The node is as it was, or the sender of a packet from no channel, of which the address is
  -- right, is added by `add_peer`.
  abbrev pub Entered :
      Node
      → Option (NewPeerContext → SocketAddr → ℕ → Bool)
      → ℕ
      → ℕ
      → IncomingPacketContents
      → ℕ
      → Option ℕ
      → ℕ
      → Node
      → Type 0
  Entered n filter channel_key now p local_id from_channel peer_id known =
      (known ≡ n)
      ⊎ ((full_id : ℕ) × (list : AddressList) × (addr : SocketAddr) × (from_channel ≡ none)
          × (p.from ≢ none)
          × (p.address ≡ some list)
          × (parse_address_list now list n.options.clock_tolerance_sec ≡ ok addr)
          × (k.compute_short_id full_id ≡ peer_id)
          × (known ≡ (add_peer n filter channel_key adnl_packet local_id peer_id addr full_id).0))

  source_of_key-Entered :
      (n known : Node) (filter : Option (NewPeerContext → SocketAddr → ℕ → Bool))
      (channel_key now : ℕ) (raw : List ℕ) (p : IncomingPacketContents)
      (local_id full_id peer_id : ℕ) (check_signature : Bool)
      → p.from ≢ none
      → source_of_key k n filter channel_key now raw p local_id full_id
        ≡ (known, ok (peer_id, check_signature))
      → Entered n filter channel_key now p local_id none peer_id known
  unfolding source_of_key
  source_of_key-Entered n known filter channel_key now raw p local_id full_id peer_id
        check_signature named h =
      let required = n.options.packet_signature_required in
      let pid = k.compute_short_id full_id in
      elim (Bool-cases (is_other p.from_short pid)) [
        | inl other ↦ absurd (ground (arith, other))
        | inr this ↦ elim (Result-cases (verify k raw p.signature full_id required)) [
          | inl (e, v) ↦ absurd (ground (arith, this, v))
          | inr (_, v) ↦ elim (Option-cases p.address) [
            | inl a ↦ inl (ground (arith, this, v, a))
            | inr (list, a) ↦
                elim (Result-cases (parse_address_list now list n.options.clock_tolerance_sec)) [
                  | inl (e, l) ↦ absurd (ground (arith, this, v, a, l))
                  | inr (addr, l) ↦
                      let added =
                        add_peer n filter channel_key adnl_packet local_id pid addr full_id in
                      elim (Result-cases added.1) [
                        | inl (e, q) ↦ absurd (ground (arith, this, v, a, l, q))
                        | inr (_, q) ↦
                            let same : pid ≡ peer_id = ground (arith, this, v, a, l, q) in
                            let at : known ≡ added.0 = ground (arith, this, v, a, l, q) in
                            inr (
                              full_id,
                              list,
                              addr,
                              refl,
                              named,
                              a,
                              l,
                              same,
                              at
                                  ∙ ap
                                      (λ i.
                                        (add_peer n filter channel_key adnl_packet local_id i addr
                                          full_id).0)
                                      same,
                            )
                      ]
                ]
          ]
        ]
      ]

  pub find_source-Entered :
      (n known : Node) (filter : Option (NewPeerContext → SocketAddr → ℕ → Bool))
      (channel_key now : ℕ) (raw : List ℕ) (p : IncomingPacketContents) (local_id : ℕ)
      (from_channel : Option ℕ) (peer_id : ℕ) (check_signature : Bool)
      → find_source k n filter channel_key now raw p local_id from_channel
        ≡ (known, ok (peer_id, check_signature))
      → Entered n filter channel_key now p local_id from_channel peer_id known
  unfolding find_source
  find_source-Entered n known filter channel_key now raw p local_id (some q) peer_id check_signature
        h =
      inl (ground arith)
  find_source-Entered n known filter channel_key now raw p local_id none peer_id check_signature h =
      elim (Option-cases p.from) [
        | inr (key, f) ↦ elim (Option-cases (k.to_full key)) [
          | inl g ↦ absurd (ground (arith, f, g))
          | inr (full_id, g) ↦
              source_of_key-Entered n known filter channel_key now raw p local_id full_id peer_id
                check_signature (λ e. absurd (ground (arith, f, e))) (ground (arith, f, g))
        ]
        | inl f ↦ elim (Option-cases p.from_short) [
          | inl g ↦ absurd (ground (arith, f, g))
          | inr (id, g) ↦ inl (ground (arith, f, g))
        ]
      ]
