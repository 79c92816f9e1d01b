-- ===== src/Adnl/Node/Links.antt =====
-- The links between the tables of channels of src/adnl/node/mod.rs.
use tiny_adnl.Prelude.{
  ℕ, ◌+◌, ◌<◌, ◌≡◌, ◌≢◌, ◌⊎◌, ◌∙◌, sym, ap, Bool, true, false, Option, none, some, List, ◌==◌,
  if◌then◌else◌, arith, Bool-cases, inl, inr, same_bytes, same_bytes_refl, same_bytes-true,
}
use mathlib.Core.Option.{some-injective, none-ne-some}
use tiny_adnl.Adnl.Channel.{Channel}
use tiny_adnl.Adnl.Node.{
  in_id, put_channel, forget_id, forget_channel, remember_id, remember_channel,
}

abbrev pub Store : Type 0
Store = ℕ → Option Channel

abbrev pub Ids : Type 0
Ids = List ℕ → Option (ℕ × Bool)

abbrev pub Owners : Type 0
Owners = ℕ → Option ℕ

-- An id leads to a channel that receives under it and is the present one of its peer.
pub record IdLink (store : Store) (owners : Owners) (id : List ℕ) (place : ℕ) (priority : Bool)
    : Type 0 where
  pub channel : Channel
  pub stored : store place ≡ some channel
  pub named : in_id channel priority ≡ id
  pub current : owners channel.peer_id ≡ some place

-- A peer leads to a channel with it.
pub record PeerLink (store : Store) (next_place : ℕ) (peer_id place : ℕ) : Type 0 where
  pub below : place < next_place
  pub channel : Channel
  pub stored : store place ≡ some channel
  pub owned : channel.peer_id ≡ peer_id

pub record Links (store : Store) (next_place : ℕ) (ids : Ids) (owners : Owners) : Type 0 where
  pub by_id :
      (id : List ℕ) (place : ℕ) (priority : Bool)
      → ids id ≡ some (place, priority)
      → IdLink store owners id place priority
  pub by_peer :
      (peer_id place : ℕ) → owners peer_id ≡ some place → PeerLink store next_place peer_id place

abbrev pub without : Owners → ℕ → Owners
without owners peer_id p = if p == peer_id then none else owners p

abbrev pub with_owner : Owners → ℕ → ℕ → Owners
with_owner owners peer_id place p = if p == peer_id then some place else owners p

same_bytes-ne : (xs ys : List ℕ) → same_bytes xs ys ≡ false → xs ≢ ys
same_bytes-ne xs ys h q =
    let e : same_bytes ys ys ≡ false = ap (λ z. same_bytes z ys) (sym q) ∙ h in
    absurd (ground (arith, same_bytes_refl ys, e))

never_named :
    (ch : Channel) (id : List ℕ) (priority : Bool)
    → same_bytes (in_id ch true) id ≡ false
    → same_bytes (in_id ch false) id ≡ false
    → in_id ch priority ≢ id
never_named ch id true h g = same_bytes-ne _ id h
never_named ch id false h g = same_bytes-ne _ id g

-- What is left in the table of ids is not under the ids of the channel.
pub forget_channel-some :
    (ids : Ids) (ch : Channel) (id : List ℕ) (e : ℕ × Bool)
    → forget_channel ids ch id ≡ some e
    → (ids id ≡ some e) × ((priority : Bool) → in_id ch priority ≢ id)
unfolding forget_channel forget_id
forget_channel-some ids ch id e h = elim (Bool-cases (same_bytes (in_id ch true) id)) [
  | inl same ↦ absurd (ground arith)
  | inr other ↦ elim (Bool-cases (same_bytes (in_id ch false) id)) [
    | inl same ↦ absurd (ground arith)
    | inr other' ↦ (ground arith, λ priority. never_named ch id priority other other')
  ]
]

named_by :
    (ch : Channel) {place found : ℕ} {id : List ℕ} {priority : Bool} (own : Bool)
    → same_bytes (in_id ch own) id ≡ true
    → ◌≡◌ {A = Option (ℕ × Bool)} (some (place, own)) (some (found, priority))
    → (found ≡ place) × (in_id ch priority ≡ id)
named_by ch own same h =
    let e = some-injective _ _ h in
    (sym (ap (λ x. x.0) e), ap (λ x. in_id ch x.1) (sym e) ∙ same_bytes-true _ _ same)

-- What is in the table after a channel is entered is of the channel or was there.
pub remember_channel-some :
    (ids : Ids) (ch : Channel) (place : ℕ) (id : List ℕ) (found : ℕ) (priority : Bool)
    → remember_channel ids ch place id ≡ some (found, priority)
    → ((found ≡ place) × (in_id ch priority ≡ id)) ⊎ (ids id ≡ some (found, priority))
unfolding remember_channel remember_id
remember_channel-some ids ch place id found priority h =
    elim (Bool-cases (same_bytes (in_id ch true) id)) [
      | inl same ↦ inl (named_by ch true same (ground arith))
      | inr other ↦ elim (Bool-cases (same_bytes (in_id ch false) id)) [
        | inl same ↦ inl (named_by ch false same (ground arith))
        | inr other' ↦ inr (ground arith)
      ]
    ]

module _ (store : Store) (next_place : ℕ) (ids : Ids) (owners : Owners) where
  -- A channel may change in its place as long as its peer and its ids stay.
  pub replace-Links :
      Links store next_place ids owners
      → (place : ℕ) (ch ch' : Channel) → store place ≡ some ch
      → ch'.peer_id ≡ ch.peer_id
      → ((priority : Bool) → in_id ch' priority ≡ in_id ch priority)
      → Links (put_channel store place ch') next_place ids owners
  replace-Links k place ch ch' there peer named = record {
    by_id = λ id found priority e.
        let l = k.by_id id found priority e in
        elim (Bool-cases (found == place)) [
          | inl same ↦
              let q : found ≡ place = ground arith in
              let w : l.channel ≡ ch = some-injective _ _ (sym l.stored ∙ ap store q ∙ there) in
              record {
                channel = ch';
                stored = ground arith;
                named = named priority ∙ ap (λ c. in_id c priority) (sym w) ∙ l.named;
                current = ap owners (peer ∙ ap (λ c. c.peer_id) (sym w)) ∙ l.current;
              }
          | inr other ↦ record {
            channel = l.channel;
            stored = ground arith;
            named = l.named;
            current = l.current;
          }
        ];
    by_peer = λ peer_id found e.
        let l = k.by_peer peer_id found e in
        elim (Bool-cases (found == place)) [
          | inl same ↦
              let q : found ≡ place = ground arith in
              let w : l.channel ≡ ch = some-injective _ _ (sym l.stored ∙ ap store q ∙ there) in
              record {
                below = l.below;
                channel = ch';
                stored = ground arith;
                owned = peer ∙ ap (λ c. c.peer_id) (sym w) ∙ l.owned;
              }
          | inr other ↦ record {
            below = l.below;
            channel = l.channel;
            stored = ground arith;
            owned = l.owned;
          }
        ];
  }

  -- A peer's entry is taken out with its channel's ids.
  pub remove-Links :
      Links store next_place ids owners
      → (peer_id place : ℕ) (removed : Channel) → owners peer_id ≡ some place
      → store place ≡ some removed
      → Links store next_place (forget_channel ids removed) (without owners peer_id)
  remove-Links k peer_id place removed present there = record {
    by_id = λ id found priority e.
        let (e', ne) = forget_channel-some ids removed id (found, priority) e in
        let l = k.by_id id found priority e' in
        record {
          channel = l.channel;
          stored = l.stored;
          named = l.named;
          current = elim (Bool-cases (l.channel.peer_id == peer_id)) [
            | inl same ↦
                let p : l.channel.peer_id ≡ peer_id = ground arith in
                let q : found ≡ place =
                  some-injective _ _ (sym l.current ∙ ap owners p ∙ present) in
                let w : l.channel ≡ removed =
                  some-injective _ _ (sym l.stored ∙ ap store q ∙ there) in
                absurd (ne priority (ap (λ c. in_id c priority) (sym w) ∙ l.named))
            | inr other ↦ ap (λ b. if b then none else owners l.channel.peer_id) other ∙ l.current
          ];
        };
    by_peer = λ p found e. elim (Bool-cases (p == peer_id)) [
      | inl same ↦ absurd (ground arith)
      | inr other ↦ k.by_peer p found (ground arith)
    ];
  }

  -- A peer without a channel may as well be taken out.
  pub absent-Links :
      Links store next_place ids owners
      → (peer_id : ℕ) → owners peer_id ≡ none
      → Links store next_place ids (without owners peer_id)
  absent-Links k peer_id absent = record {
    by_id = λ id found priority e.
        let l = k.by_id id found priority e in
        record {
          channel = l.channel;
          stored = l.stored;
          named = l.named;
          current = elim (Bool-cases (l.channel.peer_id == peer_id)) [
            | inl same ↦
                let p : l.channel.peer_id ≡ peer_id = ground arith in
                absurd (none-ne-some found (sym absent ∙ ap owners (sym p) ∙ l.current))
            | inr other ↦ ap (λ b. if b then none else owners l.channel.peer_id) other ∙ l.current
          ];
        };
    by_peer = λ p found e. elim (Bool-cases (p == peer_id)) [
      | inl same ↦ absurd (ground arith)
      | inr other ↦ k.by_peer p found (ground arith)
    ];
  }

  -- A channel that is entered under its peer and its ids is linked.
  pub enter-Links :
      (peer_id : ℕ) (ch : Channel)
      → Links store next_place ids (without owners peer_id)
      → ch.peer_id ≡ peer_id
      → Links
          (put_channel store next_place ch)
          (next_place + 1)
          (remember_channel ids ch next_place)
          (with_owner owners peer_id next_place)
  enter-Links peer_id ch k peer = record {
    by_id = λ id found priority e.
        elim (remember_channel-some ids ch next_place id found priority e) [
          | inl (new, named) ↦ record {
            channel = ch;
            stored = ground arith;
            named = named;
            current = ground arith;
          }
          | inr e' ↦
              let l = k.by_id id found priority e' in
              let b = (k.by_peer l.channel.peer_id found l.current).below in
              record {
                channel = l.channel;
                stored = ground (arith, l.stored, b);
                named = l.named;
                current = elim (Bool-cases (l.channel.peer_id == peer_id)) [
                  | inl same ↦ absurd (ground (arith, l.current))
                  | inr other ↦ ground (arith, l.current)
                ];
              }
        ];
    by_peer = λ p found e. elim (Bool-cases (p == peer_id)) [
      | inl same ↦
          let q : found ≡ next_place =
            some-injective _ _ (sym e ∙ ap (λ b. if b then some next_place else owners p) same) in
          record { below = omega arith; channel = ch; stored = ground arith; owned = ground arith }
      | inr other ↦
          let l = k.by_peer p found (ground arith) in
          record {
            below = omega (arith, l.below);
            channel = l.channel;
            stored = ground (arith, l.stored, l.below);
            owned = l.owned;
          }
    ];
  }
