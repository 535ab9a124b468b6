-- ===== src/Application/Signals.antt =====
-- internal/relay/service/live.go: no notification is lost.
use yukh_coordination.Base.{
  ℕ, ◌+◌, ◌^◌, ◌≤◌, ◌<◌, ◌≡◌, ap, ◌∙◌, inl, inr, subst, true, false, Option, none, some, List, [],
  ◌∷◌, nat_eq, text_eq, lookup, lookup-insert, length, All, arith, refl, Bool-cases,
}
use yukh_coordination.Relay.{Error, ChannelKey, channel_key_eq, is_blank_key}
use yukh_coordination.Application.Live.{
  LiveChanges, Subscription, new, listed, ids_of, member, without, next, subscribe, remaining,
  unsubscribe, notify, receive, Call, subscribes, unsubscribes, notifies, receives, perform, run,
  Spares,
}
use yukh_coordination.Application.Subscribers.{
  signal_kept, signal-member, member-without, member-insert, member-remaining, member-cons,
}

-- After `n` calls the identifiers have not wrapped round, and every subscription has one that was given.
record IsBounded (l : LiveChanges) (n : ℕ) : Type 0 where
  low : l.next_id ≤ n
  given : (key : ChannelKey) (i : ℕ) → member i (ids_of key l) ≡ true → i ≤ l.next_id

next_lem : (n : ℕ) → n + 1 < 2 ^ 64 → next n ≡ n + 1
next_lem n h = omega arith

subscribe-IsBounded :
    (ctx : Option Error) (key : ChannelKey) (l : LiveChanges) (n : ℕ)
    → n + 1 < 2 ^ 64
    → IsBounded l n
    → IsBounded (subscribe ctx key l).0 (n + 1)
unfolding subscribe
subscribe-IsBounded (some e) key l n h b = record { low = omega (arith, b.low); given = b.given }
subscribe-IsBounded none key l n h b = elim (Bool-cases (is_blank_key key)) [
  | inl a ↦ rw (a, subscribe) (record { low = omega (arith, b.low); given = b.given })
  | inr a ↦
      let up : next l.next_id ≡ l.next_id + 1 = next_lem l.next_id (omega (arith, b.low)) in
      rw (a, subscribe)
        (record {
          low = omega (arith, b.low, up);
          given = λ k i m.
              elim (member-insert key k (next l.next_id ∷ ids_of key l) l.subscribers i m) [
                | inr there ↦ omega (arith, b.given k i there, up)
                | inl (same, there) ↦ elim (member-cons i (next l.next_id) (ids_of key l) there) [
                  | inl e ↦ omega (arith, e)
                  | inr old ↦ omega (arith, b.given key i old, up)
                ]
              ];
        })
]

remaining_next :
    (key : ChannelKey) (ids : List ℕ) (l : LiveChanges) → (remaining key ids l).next_id ≡ l.next_id
remaining_next key [] l = refl
remaining_next key (i ∷ ids) l = refl

remaining_channels :
    (key : ChannelKey) (ids : List ℕ) (l : LiveChanges)
    → (remaining key ids l).channels ≡ l.channels
remaining_channels key [] l = refl
remaining_channels key (i ∷ ids) l = refl

-- A receive writes the channel alone.
receive_same :
    (id : ℕ) (l : LiveChanges)
    → ((receive id l).0.next_id ≡ l.next_id) × ((receive id l).0.subscribers ≡ l.subscribers)
unfolding receive
receive_same id l = (ground arith, ground arith)

unsubscribe-IsBounded :
    (s : Subscription) (l : LiveChanges) (n : ℕ)
    → IsBounded l n
    → IsBounded (unsubscribe s l).0 (n + 1)
unfolding unsubscribe
unsubscribe-IsBounded s l n b = elim (Bool-cases s.ended) [
  | inl a ↦ rw (a, unsubscribe) (record { low = omega (arith, b.low); given = b.given })
  | inr a ↦
      let ids = without s.id (ids_of s.key l) in
      let same = remaining_next s.key ids l in
      rw (a, unsubscribe)
        (record {
          low = omega (arith, b.low, same);
          given = λ k i m. omega (
            arith,
            same,
            b.given k i
                (member-remaining s.key k ids l i (λ j. member-without j s.id (ids_of s.key l)) m),
          );
        })
]

perform-IsBounded :
    (c : Call) (l : LiveChanges) (n : ℕ)
    → n + 1 < 2 ^ 64
    → IsBounded l n
    → IsBounded (perform c l) (n + 1)
unfolding perform notify
perform-IsBounded (subscribes ctx key) l n h b = subscribe-IsBounded ctx key l n h b
perform-IsBounded (unsubscribes s) l n h b = unsubscribe-IsBounded s l n b
perform-IsBounded (notifies key) l n h b = record { low = omega (arith, b.low); given = b.given }
perform-IsBounded (receives id) l n h b =
    let (same, kept) = receive_same id l in
    record {
      low = omega (arith, b.low, same);
      given = λ k i m.
          omega
            (arith, same, b.given k i (subst (λ x. member i (listed (lookup k x)) ≡ true) kept m));
    }

run-IsBounded :
    (cs : List Call) (l : LiveChanges) (n : ℕ)
    → n + length cs < 2 ^ 64
    → IsBounded l n
    → IsBounded (run l cs) (n + length cs)
unfolding run
run-IsBounded [] l n h b = record { low = omega (arith, b.low); given = b.given }
run-IsBounded (c ∷ cs) l n h b =
    subst (λ m. IsBounded (run (perform c l) cs) m) (omega arith)
      (run-IsBounded cs (perform c l) (n + 1) (omega arith)
        (perform-IsBounded c l n (omega arith) b))

-- A signal stays until the subscriber takes it.
perform_kept :
    (c : Call) (l : LiveChanges) (n id : ℕ)
    → n + 1 < 2 ^ 64
    → IsBounded l n
    → id ≤ l.next_id
    → Spares id c
    → lookup id l.channels ≡ some true
    → (lookup id (perform c l).channels ≡ some true) × (id ≤ (perform c l).next_id)
unfolding perform subscribe unsubscribe notify receive
perform_kept (subscribes (some e) key) l n id h b given spared full = (full, given)
perform_kept (subscribes none key) l n id h b given spared full =
    let up : next l.next_id ≡ l.next_id + 1 = next_lem l.next_id (omega (arith, b.low)) in
    (ground (arith, up, lookup-insert (next l.next_id) id false l.channels), ground (arith, up))
perform_kept (unsubscribes s) l n id h b given spared full = elim (Bool-cases s.ended) [
  | inl a ↦ rw (a, unsubscribe) (full, given)
  | inr a ↦
      let same = remaining_next s.key (without s.id (ids_of s.key l)) l in
      let kept = remaining_channels s.key (without s.id (ids_of s.key l)) l in
      rw (a, unsubscribe) (ap (lookup id) kept ∙ full, omega (arith, same))
]
perform_kept (notifies key) l n id h b given spared full =
    (signal_kept (ids_of key l) id l.channels full, given)
perform_kept (receives i) l n id h b given spared full =
    (ground (arith, lookup-insert i id false l.channels), ground arith)

run_kept :
    (cs : List Call) (l : LiveChanges) (n id : ℕ)
    → n + length cs < 2 ^ 64
    → IsBounded l n
    → id ≤ l.next_id
    → All (Spares id) cs
    → lookup id l.channels ≡ some true
    → lookup id (run l cs).channels ≡ some true
unfolding run
run_kept [] l n id h b given spared full = full
run_kept (c ∷ cs) l n id h b given spared full =
    let (still, low) = perform_kept c l n id (omega arith) b given spared.0 full in
    run_kept cs (perform c l) (n + 1) id (omega arith) (perform-IsBounded c l n (omega arith) b) low
      spared.1 still

new-IsBounded : IsBounded new 0
unfolding member lookup
new-IsBounded = record { low = omega arith; given = λ k i m. cc }

-- In a history of fewer than 2^64 calls: if a channel of the relay is notified while a subscription to
-- it stands, then whatever calls follow, the subscription has a signal to take until it takes one.
pub run-notify :
    (cs cs' : List Call) (key : ChannelKey) (id : ℕ)
    → length cs + 1 + length cs' < 2 ^ 64
    → member id (ids_of key (run new cs)) ≡ true
    → All (Spares id) cs'
    → lookup id (run (notify key (run new cs)) cs').channels ≡ some true
unfolding notify
run-notify cs cs' key id h there spared =
    let b = run-IsBounded cs new 0 (omega arith) new-IsBounded in
    let l = run new cs in
    run_kept cs' (notify key l) (length cs) id (omega arith)
      (record { low = omega (arith, b.low); given = b.given }) (b.given key id there) spared
      (signal-member (ids_of key l) id l.channels there)
