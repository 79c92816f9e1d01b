-- ===== src/Rldp/Cache/Queue.antt =====
-- The parts that `handle_message` of src/rldp/transfers_cache.rs puts into the channels.
use mathlib.Core.List.{append_assoc, append-nil}
use tiny_adnl.Prelude.{
  ℕ, suc, ◌+◌, ◌*◌, ◌≡◌, ◌≢◌, ◌∙◌, refl, sym, Bool, true, Option, none, some, List, [], ◌∷◌, ◌++◌,
  if_pos, if_neg, arith, Option-cases, inl, inr,
}
use tiny_adnl.Rldp.Incoming.{MessagePart, Reply}
use tiny_adnl.Rldp.Cache.{
  TransferId, id_discrete, RldpTransfer, incoming, outgoing, done, Transfers, insert_transfer,
  message_part, create_answer_handler, send_part, handle_part, handle_message,
}

insert_self :
    (ts : Transfers) (id : TransferId) (r : RldpTransfer) → insert_transfer ts id r id ≡ some r
insert_self ts id r = if_pos (id_discrete id id) refl _ _

insert_ne :
    (ts : Transfers) (id other : TransferId) (r : RldpTransfer)
    → other ≢ id
    → insert_transfer ts id r other ≡ ts other
insert_ne ts id other r ne = if_neg (id_discrete id other) (λ p. ne (sym p)) _ _

module _ (sends : Reply → Bool) where
  known_total :
      (fuel : ℕ) (env : ℕ → Transfers → Transfers) (ts : Transfers) (id : TransferId)
      (m : MessagePart) (r : RldpTransfer)
      → ts id ≡ some r
      → handle_part sends (suc fuel) env ts id m ≢ none
  unfolding handle_part
  known_total fuel env ts id m (incoming q) e = rw (e, handle_part) (λ z. cc)
  known_total fuel env ts id m (outgoing s) e = rw (e, handle_part) (λ z. cc)
  known_total fuel env ts id m done e = rw (e, handle_part) (λ z. cc)

  -- No other task takes the id out of the map.
  abbrev pub Keeps : (ℕ → Transfers → Transfers) → TransferId → Type 0
  Keeps env id = (i : ℕ) (ts : Transfers) → ts id ≢ none → env i ts id ≢ none

  taken_total :
      (fuel : ℕ) (env : ℕ → Transfers → Transfers) (ts : Transfers) (id : TransferId)
      (m : MessagePart)
      → ts id ≢ none
      → handle_part sends (suc fuel) env ts id m ≢ none
  taken_total fuel env ts id m taken = elim (Option-cases (ts id)) [
    | inl new ↦ absurd (taken new)
    | inr (r, known) ↦ known_total fuel env ts id m r known
  ]

  -- Two rounds of the loop are enough for an answer, as long as no other task takes the id out of
  -- the map in the course of the call; other tasks may put it in at any time.
  pub handle_part-ne-none :
      (fuel : ℕ) (env : ℕ → Transfers → Transfers) (ts : Transfers) (id : TransferId)
      (m : MessagePart)
      → Keeps env id
      → handle_part sends (suc (suc fuel)) env ts id m ≢ none
  unfolding handle_part create_answer_handler
  handle_part-ne-none fuel env ts id m keeps = elim (Option-cases (ts id)) [
    | inr (r, known) ↦ known_total (suc fuel) env ts id m r known
    | inl new ↦ elim (Option-cases (env (2 * suc fuel + 1) ts id)) [
      | inl still ↦ ground arith
      | inr (r, taken) ↦
          let there : env (2 * suc fuel + 1) ts id ≢ none = λ e. cc in
          ground (
            arith,
            taken_total fuel env (env (2 * suc fuel) (env (2 * suc fuel + 1) ts)) id m
                (keeps (2 * suc fuel) (env (2 * suc fuel + 1) ts) there),
          )
    ]
  ]

  -- The parts of one transfer, one after another, with no other task at work on the map.
  pub handle_parts : ℕ → Transfers → TransferId → List MessagePart → Option Transfers
  handle_parts fuel ts id [] = some ts
  handle_parts fuel ts id (m ∷ ms) =
      elim (handle_message sends fuel (λ _ t. t) ts (message_part id m)) [
        | none ↦ none
        | some h ↦ handle_parts fuel h.transfers id ms
      ]

  part_known :
      (fuel : ℕ) (env : ℕ → Transfers → Transfers) (ts : Transfers) (id : TransferId)
      (m : MessagePart) (q : List MessagePart)
      → ts id ≡ some (incoming q)
      → handle_part sends (suc fuel) env ts id m
        ≡ some (record {
          transfers = insert_transfer ts id (incoming (q ++ (m ∷ [])));
          sent = [];
          success = true;
        })
  unfolding handle_part send_part
  part_known fuel env ts id m q e = ground arith

  part_new :
      (fuel : ℕ) (ts : Transfers) (id : TransferId) (m : MessagePart)
      → ts id ≡ none
      → handle_part sends (suc fuel) (λ _ t. t) ts id m
        ≡ some (record {
          transfers = insert_transfer (insert_transfer ts id (incoming [])) id (incoming (m ∷ []));
          sent = [];
          success = true;
        })
  unfolding handle_part send_part create_answer_handler
  part_new fuel ts id m e = ground (arith, insert_self ts id (incoming []))

  -- What a channel holds after parts are sent into it, and that the other transfers are as before.
  pub record Queued (before after : Transfers) (id : TransferId) (parts : List MessagePart)
      : Type 0 where
    pub channel : after id ≡ some (incoming parts)
    pub others : (other : TransferId) → other ≢ id → after other ≡ before other

  queue_more :
      (fuel : ℕ) (ts : Transfers) (id : TransferId) (q ms : List MessagePart)
      → ts id ≡ some (incoming q)
      → (ts' : Transfers) × (handle_parts (suc fuel) ts id ms ≡ some ts')
        × Queued ts ts' id (q ++ ms)
  unfolding handle_parts handle_message
  queue_more fuel ts id q [] e =
      (ts, refl, record { channel = rw append-nil e; others = λ o ne. refl })
  queue_more fuel ts id q (m ∷ ms) e =
      let ts1 = insert_transfer ts id (incoming (q ++ (m ∷ []))) in
      let (ts', run, k) = queue_more fuel ts1 id (q ++ (m ∷ [])) ms (insert_self ts id _) in
      (
        ts',
        rw (part_known fuel (λ _ t. t) ts id m q e, handle_parts) run,
        record {
          channel = k.channel ∙ rw append_assoc;
          others = λ o ne. k.others o ne ∙ insert_ne ts id o _ ne;
        },
      )

  -- The parts of a transfer that is not known yet open one channel and stand in it in the order in
  -- which they came, none lost and none twice; the other transfers are not touched.
  pub handle_parts-Queued :
      (fuel : ℕ) (ts : Transfers) (id : TransferId) (m : MessagePart) (ms : List MessagePart)
      → ts id ≡ none
      → (ts' : Transfers) × (handle_parts (suc fuel) ts id (m ∷ ms) ≡ some ts')
        × Queued ts ts' id (m ∷ ms)
  unfolding handle_parts handle_message
  handle_parts-Queued fuel ts id m ms e =
      let ts1 = insert_transfer ts id (incoming []) in
      let ts2 = insert_transfer ts1 id (incoming (m ∷ [])) in
      let (ts', run, k) = queue_more fuel ts2 id (m ∷ []) ms (insert_self ts1 id _) in
      (
        ts',
        rw (part_new fuel ts id m e, handle_parts) run,
        record {
          channel = k.channel;
          others = λ o ne. k.others o ne ∙ insert_ne ts1 id o _ ne ∙ insert_ne ts id o _ ne;
        },
      )
