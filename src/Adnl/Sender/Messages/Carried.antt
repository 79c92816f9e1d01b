-- ===== src/Adnl/Sender/Messages/Carried.antt =====
-- What the packets of a message hold, src/adnl/node/sender.rs.
use tiny_adnl.Prelude.{
  ℕ, ◌+◌, ◌≤◌, ◌<◌, ◌≡◌, ◌⊎◌, refl, none, some, List, [], ◌∷◌, ◌++◌, leb, length, arith, Bool-cases,
  inl, inr,
}
use tiny_adnl.Adnl.Packet.{OutgoingMessages}
use tiny_adnl.Adnl.Sender.Parts.{max_adnl_message_size, split_parts}
use tiny_adnl.Adnl.Sender.Messages.{AdnlMessage, write_part, single_parts, bodies}

split_parts-first :
    (fuel : ℕ) (bytes : List ℕ) (extra : ℕ)
    → (p : ℕ × List ℕ) × (ps : List (ℕ × List ℕ)) × (split_parts fuel bytes (some extra) ≡ p ∷ ps)
unfolding split_parts
split_parts-first fuel bytes extra = (_, _, refl)

module _ (write : AdnlMessage → List ℕ) (digest : List ℕ → ℕ) where
  -- A message of a ready channel: it goes whole, if it fits into a packet, and else in its parts.
  abbrev pub Carried : ℕ → AdnlMessage → List OutgoingMessages → Type 0
  Carried size message ms =
      ((size ≤ 1024) × (ms ≡ OutgoingMessages.single (write message) ∷ []))
      ⊎ ((1024 < size)
          × (ms
              ≡ single_parts write digest (write message)
                  (split_parts (length (write message)) (write message) none)))

  -- A message behind an additional one, which is in the first packet.
  abbrev pub CarriedWith : ℕ → AdnlMessage → ℕ → AdnlMessage → List OutgoingMessages → Type 0
  CarriedWith extra additional size message ms =
      ((extra + size ≤ 1024)
        × (ms ≡ OutgoingMessages.pair (write additional ++ write message) ∷ []))
      ⊎ ((1024 < extra + size)
          × ((p : ℕ × List ℕ) × (ps : List (ℕ × List ℕ)) × (split_parts (length (write message))
                  (write message) (some extra)
                ≡ p ∷ ps)
              × (ms
                  ≡ OutgoingMessages.pair
                      (write additional ++ write_part write digest (write message) p)
                    ∷ single_parts write digest (write message) ps)))

  pub bodies-Carried :
      (size : ℕ) (message : AdnlMessage)
      → Carried size message (bodies write digest none size message)
  unfolding bodies
  bodies-Carried size message = elim (Bool-cases (leb size max_adnl_message_size)) [
    | inl fits ↦ inl (ground (arith, fits), rw (bodies, fits) refl)
    | inr long ↦ inr (ground (arith, long), rw (bodies, long) refl)
  ]

  pub bodies-CarriedWith :
      (extra size : ℕ) (additional message : AdnlMessage)
      → CarriedWith extra additional size message
          (bodies write digest (some (extra, additional)) size message)
  unfolding bodies
  bodies-CarriedWith extra size additional message =
      elim (Bool-cases (leb (extra + size) max_adnl_message_size)) [
        | inl fits ↦ inl (ground (arith, fits), rw (bodies, fits) refl)
        | inr long ↦
            let (p, ps, e) = split_parts-first (length (write message)) (write message) extra in
            inr (ground (arith, long), (p, ps, e, rw (bodies, long, e) refl))
      ]
