-- ===== src/Application/Subscribers.antt =====
-- internal/relay/service/live.go: who is listed after an insertion or a deletion, and what a signal keeps.
use yukh_coordination.Base.{
  ℕ, ◌≡◌, inl, inr, ◌⊎◌, subst, Bool, true, some, List, [], ◌∷◌, ◌==◌, nat_eq, text_eq, Map, lookup,
  insert, delete, lookup-insert, lookup-delete, arith, Bool-cases,
}
use yukh_coordination.Relay.{ChannelKey, channel_key_eq}
use yukh_coordination.Application.Live.{
  LiveChanges, listed, ids_of, member, without, remaining, signal,
}

pub signal_kept :
    (ids : List ℕ) (id : ℕ) (channels : Map ℕ Bool)
    → lookup id channels ≡ some true
    → lookup id (signal ids channels) ≡ some true
unfolding signal
signal_kept [] id channels h = h
signal_kept (i ∷ ids) id channels h =
    signal_kept ids id (insert i true channels) (ground (arith, lookup-insert i id true channels))

pub signal-member :
    (ids : List ℕ) (id : ℕ) (channels : Map ℕ Bool)
    → member id ids ≡ true
    → lookup id (signal ids channels) ≡ some true
unfolding signal member
signal-member [] id channels h = absurd (cc)
signal-member (i ∷ ids) id channels h = elim (Bool-cases (i == id)) [
  | inl a ↦
      signal_kept ids id (insert i true channels) (ground (arith, lookup-insert i id true channels))
  | inr a ↦ signal-member ids id (insert i true channels) (ground arith)
]

pub member-without :
    (id i : ℕ) (ids : List ℕ) → member id (without i ids) ≡ true → member id ids ≡ true
unfolding member without
member-without id i [] h = h
member-without id i (j ∷ ids) h = ground (arith, member-without id i ids)

pub member-insert :
    (key k : ChannelKey) (ids : List ℕ) (m : Map ChannelKey (List ℕ)) (i : ℕ)
    → member i (listed (lookup k (insert key ids m))) ≡ true
    → ((key ≡ k) × (member i ids ≡ true)) ⊎ (member i (listed (lookup k m)) ≡ true)
member-insert key k ids m i h = elim (channel_key_eq.dec key k) [
  | yes same ↦ inl (same, ground (arith, h, same, lookup-insert key k ids m))
  | no other ↦ inr (ground (arith, h, other, lookup-insert key k ids m))
]

member-delete :
    (key k : ChannelKey) (m : Map ChannelKey (List ℕ)) (i : ℕ)
    → member i (listed (lookup k (delete key m))) ≡ true
    → member i (listed (lookup k m)) ≡ true
unfolding member
member-delete key k m i h = elim (channel_key_eq.dec key k) [
  | yes same ↦ absurd (ground (arith, h, same, lookup-delete key k m))
  | no other ↦ ground (arith, h, other, lookup-delete key k m)
]

-- What is left of the subscribers of a channel is some of them.
pub member-remaining :
    (key k : ChannelKey) (ids : List ℕ) (l : LiveChanges) (i : ℕ)
    → ((j : ℕ) → member j ids ≡ true → member j (ids_of key l) ≡ true)
    → member i (ids_of k (remaining key ids l)) ≡ true
    → member i (ids_of k l) ≡ true
member-remaining key k [] l i inside h = member-delete key k l.subscribers i h
member-remaining key k (j ∷ ids) l i inside h =
    elim (member-insert key k (j ∷ ids) l.subscribers i h) [
      | inl (same, there) ↦ subst (λ x. member i (ids_of x l) ≡ true) same (inside i there)
      | inr there ↦ there
    ]

pub member-cons :
    (i j : ℕ) (ids : List ℕ) → member i (j ∷ ids) ≡ true → (j ≡ i) ⊎ (member i ids ≡ true)
unfolding member
member-cons i j ids h = elim (Bool-cases (j == i)) [
  | inl a ↦ inl (ground arith)
  | inr a ↦ inr (ground arith)
]
