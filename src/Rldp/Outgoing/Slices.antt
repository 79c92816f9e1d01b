-- ===== src/Rldp/Outgoing/Slices.antt =====
-- The slices of the data that src/rldp/outgoing_transfer.rs sends as parts.
use tiny_adnl.Prelude.{
  ℕ, zero, suc, ◌+◌, ◌-◌, ◌*◌, ◌≤◌, ◌<◌, ◌≡◌, ◌∙◌, refl, sym, ap, true, false, none, some, List, [],
  ◌∷◌, ◌++◌, length, arith, min, take, drop, take-append-drop, length-drop, drop-all, take-all,
  dec_lt, Bool-cases, inl, inr, ◌⊎◌,
}
use tiny_adnl.Rldp.Outgoing.{
  OutgoingTransfer, EncoderEngine, slice, slice_of, slice_len, with_data, start_next_part,
  is_finished,
}

drop-drop : (n m : ℕ) (xs : List ℕ) → drop n (drop m xs) ≡ drop (m + n) xs
drop-drop n zero xs = let e : 0 + n ≡ n = omega arith in rw e
drop-drop zero (suc m) [] = let e : suc m + 0 ≡ suc m = omega arith in rw e
drop-drop (suc n) (suc m) [] = let e : suc m + suc n ≡ suc (m + suc n) = omega arith in rw e
drop-drop n (suc m) (x ∷ xs) =
    let e : suc m + n ≡ suc (m + n) = omega arith in rw e (drop-drop n m xs)

take-min : (n : ℕ) (xs : List ℕ) → take (min (length xs) n) xs ≡ take n xs
take-min n xs = elim (dec_lt (length xs) n) [
  | yes p ↦
      let e : min (length xs) n ≡ length xs = omega arith in
      rw (e, take-all xs n (omega arith)) (take-all xs (length xs) (omega arith))
  | no p ↦ let e : min (length xs) n ≡ n = omega arith in rw e
]

module _ (len : ℕ) where
  -- The slices from one part on.
  abbrev pub slices_of : List ℕ → ℕ → ℕ → List ℕ
  slices_of bytes part zero = []
  slices_of bytes part (suc n) = slice_of len bytes part ++ slices_of bytes (part + 1) n

  slice_of_lem :
      (bytes : List ℕ) (part : ℕ) → slice_of len bytes part ≡ take len (drop (part * len) bytes)
  unfolding slice_of
  slice_of_lem bytes part =
      let e : length bytes - part * len ≡ length (drop (part * len) bytes) =
        sym (length-drop (part * len) bytes) in
      rw e (take-min len (drop (part * len) bytes))

  slices_of-drop :
      (bytes : List ℕ) (part n : ℕ)
      → length bytes ≤ (part + n) * len
      → slices_of bytes part n ≡ drop (part * len) bytes
  slices_of-drop bytes part zero h = sym (drop-all bytes (part * len) (omega arith))
  slices_of-drop bytes part (suc n) h =
      let e : part * len + len ≡ (part + 1) * len = omega arith in
      let rest = slices_of-drop bytes (part + 1) n (omega arith) in
      rw (slice_of_lem bytes part, rest, ← e, ← drop-drop len (part * len) bytes)
        (take-append-drop len (drop (part * len) bytes))

-- The slices of all the parts of the data.
pub slices : List ℕ → ℕ → ℕ → List ℕ
slices bytes part zero = []
slices bytes part (suc n) = slice bytes part ++ slices bytes (part + 1) n

slices-slices_of :
    (bytes : List ℕ) (part n : ℕ) → slices bytes part n ≡ slices_of slice_len bytes part n
unfolding slices slice
slices-slices_of bytes part zero = refl
slices-slices_of bytes part (suc n) =
    ap (λ r. slice_of slice_len bytes part ++ r) (slices-slices_of bytes (part + 1) n)

-- The slices of the first parts, one behind another, are the data, as soon as there are enough of
-- them to cover it: no byte is lost, repeated or moved.
pub slices_cover :
    (bytes : List ℕ) (n : ℕ) → length bytes ≤ n * slice_len → slices bytes 0 n ≡ bytes
slices_cover bytes n h =
    slices-slices_of bytes 0 n ∙ slices_of-drop slice_len bytes 0 n (omega (arith, h))

module _ {E : Type 0} (e : EncoderEngine E) where
  nothing_left :
      (t : OutgoingTransfer E)
      → length t.bytes ≤ t.state.part * slice_len
      → start_next_part e t ≡ (t, none)
  unfolding start_next_part
  nothing_left t h = elim (Bool-cases (is_finished t)) [
    | inl done ↦ rw (done, start_next_part)
    | inr more ↦ rw (more, start_next_part) (ground arith)
  ]

  started :
      (t : OutgoingTransfer E)
      → t.state.part * slice_len < length t.bytes
      → is_finished t ≡ false
      → (start_next_part e t).0 ≡ record t {
        current_message_part = t.state.part;
        encoder = some (with_data e (slice t.bytes t.state.part));
      }
  unfolding start_next_part
  started t h more = rw (more, start_next_part) (ground arith)

  -- `start_next_part` starts the encoder on the slice of the part that the peer waits for, as long
  -- as there is one, and otherwise changes nothing.
  pub start_next_part-slice :
      (t : OutgoingTransfer E)
      → ((length t.bytes ≤ t.state.part * slice_len) × (start_next_part e t ≡ (t, none)))
        ⊎ ((t.state.part * slice_len < length t.bytes)
            × (is_finished t ≡ true)
            × (start_next_part e t ≡ (t, none)))
        ⊎ ((t.state.part * slice_len < length t.bytes)
            × (is_finished t ≡ false)
            × ((start_next_part e t).0 ≡ record t {
              current_message_part = t.state.part;
              encoder = some (with_data e (slice t.bytes t.state.part));
            }))
  unfolding start_next_part
  start_next_part-slice t = elim (dec_lt (t.state.part * slice_len) (length t.bytes)) [
    | no p ↦ inl (omega arith, nothing_left t (omega arith))
    | yes p ↦ elim (Bool-cases (is_finished t)) [
      | inl done ↦ inr (inl (p, done, rw (done, start_next_part)))
      | inr more ↦ inr (inr (p, more, started t p more))
    ]
  ]
