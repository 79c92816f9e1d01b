-- ===== src/Overlay/Gc/Owned.antt =====
-- What the collector of src/overlay/overlay.rs does to the broadcasts that are known.
use mathlib.Core.Option.{none-ne-some, some-injective}
use mathlib.Core.Path.{subst}
use tiny_adnl.Prelude.{
  ℕ, zero, suc, ◌≡◌, ◌⊎◌, ◌∙◌, refl, none, some, ◌==◌, ltb, Bool-cases, List-cases, inl, inr,
}
use tiny_adnl.Overlay.Defs.{Overlay}
use tiny_adnl.Overlay.Gc.{gc_step, gc_loop}

module _ {D : Type 0} where
  -- Broadcasts are forgotten or stay as they were, and nothing is delivered.
  pub record Forgets (o o' : Overlay D) : Type 0 where
    pub delivered : o'.received_broadcasts ≡ o.received_broadcasts
    pub owned :
        (id : ℕ)
        → (o'.owned_broadcasts id ≡ none) ⊎ (o'.owned_broadcasts id ≡ o.owned_broadcasts id)

  gc_step-Forgets : (o : Overlay D) → Forgets o (gc_step o)
  unfolding gc_step
  gc_step-Forgets o = elim (List-cases o.finished_broadcasts) [
    | inl q ↦ rw (gc_step, q) (record { delivered = refl; owned = λ i. inr refl })
    | inr (id, rest, q) ↦ record {
      delivered = rw (gc_step, q) refl;
      owned = λ i. elim (Bool-cases (i == id)) [
        | inl same ↦ inl (rw (gc_step, q, same) refl)
        | inr differs ↦ inr (rw (gc_step, q, differs) refl)
      ];
    }
  ]

  Forgets-trans : {o p q : Overlay D} → Forgets o p → Forgets p q → Forgets o q
  Forgets-trans f g = record {
    delivered = g.delivered ∙ f.delivered;
    owned = λ i. elim (g.owned i) [
      | inl gone ↦ inl gone
      | inr kept ↦ elim (f.owned i) [ inl gone ↦ inl (kept ∙ gone) | inr same ↦ inr (kept ∙ same) ]
    ];
  }

  pub gc_loop-Forgets :
      (n : ℕ) (o : Overlay D) {o' : Overlay D} → gc_loop n o ≡ some o' → Forgets o o'
  unfolding gc_loop
  gc_loop-Forgets zero o h = absurd (none-ne-some _ h)
  gc_loop-Forgets (suc n) o h =
      elim (Bool-cases (ltb o.options.max_broadcast_log o.finished_broadcast_count)) [
        | inl over ↦
            Forgets-trans (gc_step-Forgets o) (gc_loop-Forgets n (gc_step o) (rw over at h))
        | inr under ↦
            subst (Forgets o) (some-injective _ _ (rw under at h))
              (record { delivered = refl; owned = λ i. inr refl })
      ]
