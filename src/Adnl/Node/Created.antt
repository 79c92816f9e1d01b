-- ===== src/Adnl/Node/Created.antt =====
-- What creation does to the channel of a peer, `create_channel` of src/adnl/node/receiver.rs.
use mathlib.Core.Option.{some-injective, none-ne-some}
use tiny_adnl.Prelude.{
  ℕ, ◌≤◌, ◌≡◌, ◌∙◌, refl, sym, ap, Bool, true, false, Option, none, some, ok, List, arith,
  Option-cases, Bool-cases, inl, inr,
}
use tiny_adnl.Adnl.Channel.{
  Channel, ChannelCreationContext, Keys, is_still_valid, is_confirmed, set_ready,
}
use tiny_adnl.Adnl.Channel
use tiny_adnl.Adnl.Peer.{Peer}
use tiny_adnl.Adnl.Node.{Node, Peers, put_channel, forget_channel, insert_channel, create_channel}
use tiny_adnl.Adnl.Node.Linked.{Linked}

module _ (ks : Keys) where
  -- The peer has a channel that is valid for the key and the date.
  pub record Serves (n : Node) (peer_id public_key date : ℕ) : Type 0 where
    pub place : ℕ
    pub channel : Channel
    pub current : n.channels_by_peers peer_id ≡ some place
    pub stored : n.store place ≡ some channel
    pub owned : channel.peer_id ≡ peer_id
    pub valid : is_still_valid channel public_key date ≡ true

  -- The channel that the peer had before is not dated later than that.
  pub NotAfter : Node → ℕ → ℕ → Type 0
  NotAfter before peer_id date =
      (old : ℕ) (was : Channel)
      → before.channels_by_peers peer_id ≡ some old
      → before.store old ≡ some was
      → was.peer_channel_date ≤ date

  inserted-Serves :
      (n : Node) (by_id : List ℕ → Option (ℕ × Bool)) (local_id peer_id key public_key date : ℕ)
      (context : ChannelCreationContext)
      → Serves
          (insert_channel ks n by_id peer_id
            (Channel.new ks local_id peer_id key public_key date context))
          peer_id
          public_key
          date
  unfolding insert_channel Channel.new is_still_valid
  inserted-Serves n by_id local_id peer_id key public_key date context = record {
    place = n.next_place;
    channel = Channel.new ks local_id peer_id key public_key date context;
    current = ground arith;
    stored = ground arith;
    owned = refl;
    valid = ground arith;
  }

  pub record Created (before after : Node) (peer_id public_key date : ℕ) : Type 0 where
    pub serves : Serves after peer_id public_key date
    pub later : NotAfter before peer_id serves.channel.peer_channel_date

  absent-NotAfter :
      (n : Node) (peer_id date : ℕ) → n.channels_by_peers peer_id ≡ none → NotAfter n peer_id date
  unfolding NotAfter
  absent-NotAfter n peer_id date absent old was e f = absurd (none-ne-some old (sym absent ∙ e))

  outdated-NotAfter :
      (n : Node) (peer_id place public_key date : ℕ) (ch : Channel)
      → n.channels_by_peers peer_id ≡ some place
      → n.store place ≡ some ch
      → is_still_valid ch public_key date ≡ false
      → NotAfter n peer_id date
  unfolding NotAfter is_still_valid
  outdated-NotAfter n peer_id place public_key date ch present there outdated old was e f =
      let p : place ≡ old = some-injective _ _ (sym present ∙ e) in
      let w : ch.peer_channel_date ≡ was.peer_channel_date =
        ap (λ c. c.peer_channel_date) (some-injective _ _ (sym there ∙ ap n.store p ∙ f)) in
      let d : ch.peer_channel_date ≤ date = ground arith in omega (arith, w, d)

  kept-Created :
      (n after : Node) (peer_id place public_key date : ℕ) (ch ch' : Channel)
      → n.channels_by_peers peer_id ≡ some place
      → n.store place ≡ some ch
      → after.channels_by_peers peer_id ≡ some place
      → after.store place ≡ some ch'
      → ch'.peer_id ≡ peer_id
      → ch'.peer_channel_date ≡ ch.peer_channel_date
      → is_still_valid ch' public_key date ≡ true
      → Created n after peer_id public_key date
  unfolding NotAfter
  kept-Created n after peer_id place public_key date ch ch' present there now stored owned same
        valid =
      record {
        serves = record {
          place = place;
          channel = ch';
          current = now;
          stored = stored;
          owned = owned;
          valid = valid;
        };
        later = λ old was e f.
            let p : place ≡ old = some-injective _ _ (sym present ∙ e) in
            let w : ch ≡ was = some-injective _ _ (sym there ∙ ap n.store p ∙ f) in
            let d : was.peer_channel_date ≡ ch'.peer_channel_date =
              ap (λ c. c.peer_channel_date) (sym w) ∙ sym same in
            omega (arith, d);
      }

  ready-Created :
      (n : Node) (peer_id place public_key date : ℕ) (ch : Channel)
      → n.channels_by_peers peer_id ≡ some place
      → n.store place ≡ some ch
      → ch.peer_id ≡ peer_id
      → is_still_valid ch public_key date ≡ true
      → Created n
          (record n { store = put_channel n.store place (set_ready ch) })
          peer_id
          public_key
          date
  unfolding set_ready is_still_valid
  ready-Created n peer_id place public_key date ch present there owned valid =
      kept-Created n _ peer_id place public_key date ch (set_ready ch) present there present
        (ground arith) owned refl valid

  replaced-Created :
      (n : Node) (by_id : List ℕ → Option (ℕ × Bool)) (local_id peer_id key public_key date : ℕ)
      (context : ChannelCreationContext)
      → NotAfter n peer_id date
      → Created n
          (insert_channel ks n by_id peer_id
            (Channel.new ks local_id peer_id key public_key date context))
          peer_id
          public_key
          date
  unfolding Channel.new inserted-Serves
  replaced-Created n by_id local_id peer_id key public_key date context later = record {
    serves = inserted-Serves n by_id local_id peer_id key public_key date context;
    later = later;
  }

  -- Where the peer is known, no error comes up, and after it the peer has a channel that is valid for
  -- the key and the date, and that is not dated before the channel it had.
  pub create_channel-Created :
      (n : Node) (local_id peer_id public_key date : ℕ) (context : ChannelCreationContext)
      (peers : Peers) (peer : Peer)
      → Linked n
      → n.peers local_id ≡ some peers
      → peers peer_id ≡ some peer
      → ((create_channel ks n local_id peer_id public_key date context).1 ≡ ok tt)
        × Created n
            (create_channel ks n local_id peer_id public_key date context).0
            peer_id
            public_key
            date
  unfolding create_channel
  create_channel-Created n local_id peer_id public_key date context peers peer k e u =
      elim (Option-cases (n.channels_by_peers peer_id)) [
        | inl absent ↦
            rw (e, u, absent, create_channel)
              (
                refl,
                replaced-Created n n.channels_by_id local_id peer_id peer.channel_key public_key
                    date context (absent-NotAfter n peer_id date absent),
              )
        | inr (place, present) ↦
            let l = k.by_peer peer_id place present in
            elim (Bool-cases (is_still_valid l.channel public_key date)) [
              | inr outdated ↦
                  rw (e, u, present, l.stored, outdated, create_channel)
                    (
                      refl,
                      replaced-Created n (forget_channel n.channels_by_id l.channel) local_id
                          peer_id peer.channel_key public_key date context
                          (outdated-NotAfter n peer_id place public_key date l.channel present
                            l.stored outdated),
                    )
              | inl valid ↦ elim (Bool-cases (is_confirmed context)) [
                | inl confirmed ↦
                    rw (e, u, present, l.stored, valid, confirmed, create_channel)
                      (
                        refl,
                        ready-Created n peer_id place public_key date l.channel present l.stored
                            l.owned valid,
                      )
                | inr created ↦
                    rw (e, u, present, l.stored, valid, created, create_channel)
                      (
                        refl,
                        kept-Created n n peer_id place public_key date l.channel l.channel present
                            l.stored present l.stored l.owned refl valid,
                      )
              ]
            ]
      ]
