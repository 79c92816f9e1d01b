-- ===== src/Overlay/Fec/Ended.antt =====
-- A transfer of a broadcast in parts that has ended, src/overlay/overlay.rs: parts that come later
-- change nothing that counts.
use mathlib.Core.Path.{subst}
use tiny_adnl.Prelude.{
  ℕ, ◌≡◌, ◌≢◌, ◌∙◌, refl, sym, ap, List-cases, Bool, true, false, Option, none, some, Result, List,
  length, ◌==◌, arith, Bool-cases, Option-cases, inl, inr,
}
use tiny_adnl.Util.PacketsHistory.{deliver_packet}
use tiny_adnl.Rldp.Compression.{Zstd}
use tiny_adnl.Rldp.Incoming.{DecoderEngine}
use tiny_adnl.Overlay.Defs.{
  OverlayError, OverlayBroadcastFec, OwnedBroadcast, other, IncomingFecTransfer, incoming, Overlay,
}
use tiny_adnl.Overlay.Broadcasts.{OverlayCrypto, is_broadcast_outdated}
use tiny_adnl.Overlay.Fec.{
  deliver_fec, receive_fec_broadcast, transfer_task, cleanup_task, put_transfer,
}
use tiny_adnl.Overlay.Fec.Filed.{cleanup_task-owned}
use tiny_adnl.Overlay.Gc.{finish_broadcast, gc_loop}
use tiny_adnl.Overlay.Gc.Owned.{gc_loop-Forgets}

module _ (c : OverlayCrypto) {D : Type 0} (e : DecoderEngine D) (z : Zstd)
    (choose : List ℕ → ℕ → List ℕ) where
  -- The overlay has ended the transfer of a broadcast, with nothing left to do for its task.
  pub record Ended (id : ℕ) (o : Overlay D) : Type 0 where
    pub transfer : IncomingFecTransfer D
    pub known : o.owned_broadcasts id ≡ some (incoming transfer)
    pub ended : transfer.completed ≡ true

  -- What parts of one broadcast and rounds of its task make of an overlay, and the tasks that clean
  -- up after any broadcast, as long as the collector has not forgotten this one.
  pub data Later (id : ℕ) (start : Overlay D) : Overlay D → Type 0 where
    now_here : Later id start start
    part :
        {o o' : Overlay D} (now peer_id : ℕ) (b : OverlayBroadcastFec)
        (r : Result OverlayError (List ℕ))
        → b.data_hash ≡ id
        → receive_fec_broadcast c e z choose o now peer_id b ≡ some (o', r)
        → Later id start o
        → Later id start o'
    round :
        {o : Overlay D} (t : IncomingFecTransfer D)
        → o.owned_broadcasts id ≡ some (incoming t)
        → Later id start o
        → Later id start (transfer_task c e z o id t)
    waits :
        {o : Overlay D} (is_expired : ℕ → Bool) (any : ℕ)
        → Later id start o
        → Later id start (cleanup_task is_expired o any)
    sleeps : {o : Overlay D} (any : ℕ) → Later id start o → Later id start (finish_broadcast o any)
    collects :
        {o o' : Overlay D} (n : ℕ)
        → gc_loop n o ≡ some o'
        → o'.owned_broadcasts id ≢ none
        → Later id start o
        → Later id start o'

  -- What a call leaves of a ended transfer, if it ends.
  abbrev EndedAfter : ℕ → Overlay D → Option (Overlay D × Result OverlayError (List ℕ)) → Type 0
  EndedAfter id o none = Unit
  EndedAfter id o (some (o', _)) = Ended id o' × (o'.received_broadcasts ≡ o.received_broadcasts)

  pub put_transfer-Ended :
      (o : Overlay D) (id : ℕ) (t : IncomingFecTransfer D)
      → t.completed ≡ true
      → Ended id (put_transfer c e z o id t)
  put_transfer-Ended o id t ended = record { transfer = t; known = ground arith; ended = ended }

  deliver_fec-EndedAfter :
      (o : Overlay D) (now peer_id node_id : ℕ) (b : OverlayBroadcastFec)
      (t : IncomingFecTransfer D)
      → t.completed ≡ true
      → EndedAfter b.data_hash o (deliver_fec c e z choose o now peer_id node_id b t)
  unfolding deliver_fec
  deliver_fec-EndedAfter o now peer_id node_id b t ended =
      elim (Bool-cases (t.source == c.compute_short_id node_id)) [
        | inr f ↦
            rw f (put_transfer-Ended o b.data_hash (record t { updated_at = now }) ended, refl)
        | inl s ↦ elim (Option-cases (deliver_packet t.history b.seqno)) [
          | inl busy ↦ rw (s, busy) tt
          | inr ((true, history), here) ↦
              rw (s, here, ended)
                (
                  put_transfer-Ended o b.data_hash
                      (record t { completed = true; updated_at = now; history = history }) refl,
                  refl,
                )
          | inr ((false, history), here) ↦
              rw (s, here)
                (
                  put_transfer-Ended o b.data_hash
                      (record t { updated_at = now; history = history }) ended,
                  refl,
                )
        ]
      ]

  receive_fec_broadcast-EndedAfter :
      (o : Overlay D) (now peer_id : ℕ) (b : OverlayBroadcastFec)
      → Ended b.data_hash o
      → EndedAfter b.data_hash o (receive_fec_broadcast c e z choose o now peer_id b)
  unfolding receive_fec_broadcast
  receive_fec_broadcast-EndedAfter o now peer_id b s =
      elim (Bool-cases (is_broadcast_outdated o now b.date)) [
        | inl late ↦ rw late (s, refl)
        | inr early ↦ elim (Option-cases (c.to_full b.src)) [
          | inl bad ↦ rw (early, bad) (s, refl)
          | inr (node_id, good) ↦ elim (Bool-cases (length b.signature == 64)) [
            | inr short ↦ rw (early, good, short) (s, refl)
            | inl long ↦
                rw (early, good, long, s.known)
                  (deliver_fec-EndedAfter o now peer_id node_id b s.transfer s.ended)
          ]
        ]
      ]

  transfer_task-ended :
      (o : Overlay D) (id : ℕ) (t : IncomingFecTransfer D)
      → t.completed ≡ true
      → transfer_task c e z o id t ≡ o
  unfolding transfer_task
  transfer_task-ended o id t ended = elim (List-cases t.queue) [
    | inl q ↦ rw q refl
    | inr (m, rest, q) ↦ rw (q, ended) refl
  ]

  has_ended : Option (OwnedBroadcast D) → Bool
  has_ended none = false
  has_ended (some other) = false
  has_ended (some (incoming t)) = t.completed

  -- Broadcasts that are as they were.
  Ended-owned :
      {id : ℕ} {o o' : Overlay D}
      → o'.owned_broadcasts id ≡ o.owned_broadcasts id
      → Ended id o
      → Ended id o'
  Ended-owned h s = record { transfer = s.transfer; known = h ∙ s.known; ended = s.ended }

  -- A ended transfer stays ended, and nothing is delivered.
  pub Later-Ended :
      {id : ℕ} {start o : Overlay D}
      → Ended id start
      → Later id start o
      → Ended id o × (o.received_broadcasts ≡ start.received_broadcasts)
  unfolding has_ended finish_broadcast
  Later-Ended s now_here = (s, refl)
  Later-Ended s (part {o = o} {o' = o'} now peer_id b r same h l) =
      let (s', kept) = Later-Ended s l in
      let (s2, kept2) =
        subst (EndedAfter b.data_hash o) h (
          receive_fec_broadcast-EndedAfter o now peer_id b
            (subst (λ i. Ended i o) (sym same) s')) in
      (subst (λ i. Ended i o') same s2, kept2 ∙ kept)
  Later-Ended {id} s (round {o = o} t known l) =
      let (s', kept) = Later-Ended s l in
      let ended : t.completed ≡ true = ap has_ended (sym known ∙ s'.known) ∙ s'.ended in
      let e = transfer_task-ended o id t ended in (rw e s', rw e kept)
  Later-Ended {id} s (waits {o = o} is_expired any l) =
      let (s', kept) = Later-Ended s l in
      let (owned, received) = cleanup_task-owned is_expired o any in
      (Ended-owned (ap (λ f. f id) owned) s', received ∙ kept)
  Later-Ended s (sleeps any l) = let (s', kept) = Later-Ended s l in (Ended-owned refl s', kept)
  Later-Ended {id} s (collects {o = o} n h there l) =
      let (s', kept) = Later-Ended s l in
      let g = gc_loop-Forgets n o h in
      (
        elim (g.owned id) [ inl gone ↦ absurd (there gone) | inr same ↦ Ended-owned same s' ],
        g.delivered ∙ kept,
      )
