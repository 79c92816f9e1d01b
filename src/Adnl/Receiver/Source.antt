-- ===== src/Adnl/Receiver/Source.antt =====
-- Where the sender's id comes from in `check_packet` of src/adnl/node/receiver.rs.
use tiny_adnl.Prelude.{
  ℕ, ◌≡◌, ◌≢◌, Bool, true, false, Option, none, some, ok, List, arith, Option-cases, Bool-cases,
  inl, inr,
}
use tiny_adnl.Util.AddressList.{parse_address_list}
use tiny_adnl.Adnl.Packet.{PacketContentsSignature, IncomingPacketContents, extract}
use tiny_adnl.Adnl.Peer.{SocketAddr}
use tiny_adnl.Adnl.Node.{Node, NewPeerContext, adnl_packet, add_peer}
use tiny_adnl.Adnl.Receiver.{Identities, is_some, is_other, verify, find_source, source_of_key}
use tiny_adnl.Adnl.Receiver.Stages.{Result-cases}

module _ (k : Identities) where
  -- The signature of the packet is right for some key.
  pub record Signed (raw : List ℕ) (s : PacketContentsSignature) (key : ℕ) : Type 0 where
    pub message : List ℕ
    pub signature : List ℕ
    pub cut : extract s raw ≡ some (message, signature)
    pub right : k.verify_raw key message signature ≡ true

  pub verify-Signed :
      (raw : List ℕ) (s : PacketContentsSignature) (key : ℕ) (mandatory : Bool)
      → verify k raw (some s) key mandatory ≡ ok tt
      → Signed raw s key
  unfolding verify
  verify-Signed raw s key mandatory h = elim (Option-cases (extract s raw)) [
    | inl e ↦ absurd (ground (arith, e))
    | inr ((message, signature), e) ↦ record {
      message = message;
      signature = signature;
      cut = e;
      right = ground (arith, e);
    }
  ]

  pub verify-required :
      (raw : List ℕ) (s : Option PacketContentsSignature) (key : ℕ)
      → verify k raw s key true ≡ ok tt
      → s ≢ none
  unfolding verify
  verify-required raw none key h e = absurd (ground arith)
  verify-required raw (some s) key h e = cc

  -- Who the sender is, by the channel or by the packet.
  pub record Source (n : Node) (raw : List ℕ) (p : IncomingPacketContents) (from_channel : Option ℕ)
      (peer_id : ℕ) (check_signature : Bool) : Type 0 where
    pub by_channel :
        (q : ℕ)
        → from_channel ≡ some q
        → (peer_id ≡ q) × (p.from ≡ none) × (p.from_short ≡ none) × (check_signature ≡ true)
    pub by_key :
        check_signature ≡ false
        → (key : ℕ) × (full_id : ℕ) × (p.from ≡ some key)
          × (k.to_full key ≡ some full_id)
          × (k.compute_short_id full_id ≡ peer_id)
          × (verify k raw p.signature full_id n.options.packet_signature_required ≡ ok tt)
    pub by_short_id : from_channel ≡ none → check_signature ≡ true → p.from_short ≡ some peer_id

  source_of_key-ok :
      (n n' : Node) (filter : Option (NewPeerContext → SocketAddr → ℕ → Bool)) (channel_key now : ℕ)
      (raw : List ℕ) (p : IncomingPacketContents) (local_id full_id : ℕ) (peer_id : ℕ)
      (check_signature : Bool)
      → source_of_key k n filter channel_key now raw p local_id full_id
        ≡ (n', ok (peer_id, check_signature))
      → (k.compute_short_id full_id ≡ peer_id)
        × (check_signature ≡ false)
        × (verify k raw p.signature full_id n.options.packet_signature_required ≡ ok tt)
  unfolding source_of_key
  source_of_key-ok n n' filter channel_key now raw p local_id full_id peer_id check_signature h =
      let required = n.options.packet_signature_required in
      let pid = k.compute_short_id full_id in
      elim (Bool-cases (is_other p.from_short pid)) [
        | inl other ↦ absurd (ground (arith, other))
        | inr this ↦ elim (Result-cases (verify k raw p.signature full_id required)) [
          | inl (e, v) ↦ absurd (ground (arith, this, v))
          | inr (_, v) ↦ elim (Option-cases p.address) [
            | inl a ↦ ground (arith, this, v, a)
            | inr (list, a) ↦
                elim (Result-cases (parse_address_list now list n.options.clock_tolerance_sec)) [
                  | inl (e, l) ↦ absurd (ground (arith, this, v, a, l))
                  | inr (addr, l) ↦
                      elim (Result-cases
                        (add_peer n filter channel_key adnl_packet local_id pid addr full_id).1) [
                          | inl (e, q) ↦ absurd (ground (arith, this, v, a, l, q))
                          | inr (_, q) ↦ ground (arith, this, v, a, l, q)
                        ]
                ]
          ]
        ]
      ]

  pub find_source-Source :
      (n n' : Node) (filter : Option (NewPeerContext → SocketAddr → ℕ → Bool)) (channel_key now : ℕ)
      (raw : List ℕ) (p : IncomingPacketContents) (local_id : ℕ) (from_channel : Option ℕ)
      (peer_id : ℕ) (check_signature : Bool)
      → find_source k n filter channel_key now raw p local_id from_channel
        ≡ (n', ok (peer_id, check_signature))
      → Source n raw p from_channel peer_id check_signature
  unfolding find_source is_some
  find_source-Source n n' filter channel_key now raw p local_id (some q) peer_id check_signature h =
      elim (Option-cases p.from) [
        | inr (key, f) ↦ absurd (ground (arith, f))
        | inl f ↦ elim (Option-cases p.from_short) [
          | inr (id, g) ↦ absurd (ground (arith, f, g))
          | inl g ↦ record {
            by_channel = λ q' e. ground (arith, f, g, h, e);
            by_key = λ e. absurd (ground (arith, f, g, h, e));
            by_short_id = λ e. absurd (ground arith);
          }
        ]
      ]
  find_source-Source n n' filter channel_key now raw p local_id none peer_id check_signature h =
      elim (Option-cases p.from) [
        | inr (key, f) ↦ elim (Option-cases (k.to_full key)) [
          | inl g ↦ absurd (ground (arith, f, g))
          | inr (full_id, g) ↦
              let (short, unchecked, v) =
                source_of_key-ok n n' filter channel_key now raw p local_id full_id peer_id
                  check_signature (ground (arith, f, g)) in
              record {
                by_channel = λ q e. absurd (ground arith);
                by_key = λ e. (key, full_id, f, g, short, v);
                by_short_id = λ e e'. absurd (ground arith);
              }
        ]
        | inl f ↦ elim (Option-cases p.from_short) [
          | inl g ↦ absurd (ground (arith, f, g))
          | inr (id, g) ↦ record {
            by_channel = λ q e. absurd (ground arith);
            by_key = λ e. absurd (ground (arith, f, g, h, e));
            by_short_id = λ e e'. ground (arith, f, g, h);
          }
        ]
      ]
