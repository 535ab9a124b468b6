-- ===== src/LeaseStore/Nonces.antt =====
-- Nonce keys over a history.
use yukh_coordination.Base.{
  ◌≡◌, ◌≢◌, inl, inr, none, List, [], ◌∷◌, arith, Text, lookup, lookup-insert, nat_eq, text_eq, ok,
  Option-cases,
}
use yukh_coordination.Time.{Time}
use yukh_coordination.Coordination.{NonceOutcome, NonceValue, consumed}
use yukh_coordination.LeaseStore.{Store, consume}
use yukh_coordination.LeaseStore.World.{
  World, Call, consumes, acquires, resumes, renews, releases, perform, run,
}
use yukh_coordination.LeaseStore.Cases.{acquire_cases, renew_cases, release_cases}

abbrev IsSpent : Text → Store → Type 0
IsSpent key s = lookup key s.nonces ≢ none

consume-keeps :
    (s : Store) (key k : Text) (v : NonceValue) (now : Time)
    → IsSpent key s
    → IsSpent key (consume s k v now).0
unfolding consume
consume-keeps s key k v now spent = ground (arith, lookup-insert k key v s.nonces)

perform-keeps :
    (w : World) (key : Text) (c : Call) → IsSpent key w.store → IsSpent key (perform w c).store
unfolding perform
perform-keeps w key (consumes k v now) spent = consume-keeps w.store key k v now spent
perform-keeps w key (acquires at k v now later) spent =
    acquire_cases (λ p. IsSpent key p.0) w.store k v now later (λ e. spent) (λ _ _. spent)
perform-keeps w key (resumes at k v now) spent = spent
perform-keeps w key (renews at expires now) spent = elim (Option-cases (lookup at w.handles)) [
  | inl a ↦ rw (a, perform) spent
  | inr (h, a) ↦
      rw (a, perform)
        (renew_cases (λ p. IsSpent key p.0) w.store h expires now spent (λ _ _ _. spent))
]
perform-keeps w key (releases at) spent = elim (Option-cases (lookup at w.handles)) [
  | inl a ↦ rw (a, perform) spent
  | inr (h, a) ↦
      rw (a, perform) (release_cases (λ p. IsSpent key p.0) w.store h spent (λ _ _ _ _. spent))
]

run-keeps :
    (w : World) (key : Text) (cs : List Call) → IsSpent key w.store → IsSpent key (run w cs).store
unfolding run
run-keeps w key [] spent = spent
run-keeps w key (c ∷ cs) spent = run-keeps (perform w c) key cs (perform-keeps w key c spent)

spent-consume :
    (s : Store) (key : Text) (v : NonceValue) (now : Time)
    → IsSpent key s
    → (consume s key v now).1 ≢ ok consumed
unfolding consume
spent-consume s key v now spent = ground arith

consumed-IsSpent :
    (s : Store) (key : Text) (v : NonceValue) (now : Time)
    → (consume s key v now).1 ≡ ok consumed
    → IsSpent key (consume s key v now).0
unfolding consume
consumed-IsSpent s key v now first = ground (arith, lookup-insert key key v s.nonces)

-- The first time Consume succeeds with a key is the last: whatever calls follow, no Consume with
-- this key reports `consumed` again.
pub consume_at_most_once :
    (w : World) (key : Text) (v v' : NonceValue) (now now' : Time) (cs : List Call)
    → (consume w.store key v now).1 ≡ ok NonceOutcome.consumed
    → (consume (run (perform w (consumes key v now)) cs).store key v' now').1
      ≢ ok NonceOutcome.consumed
unfolding perform
consume_at_most_once w key v v' now now' cs first =
    spent-consume _ key v' now'
      (run-keeps (perform w (consumes key v now)) key cs (consumed-IsSpent w.store key v now first))
