-- ===== src/LeaseStore/Tests.antt =====
-- Runs of the lease store, and the theorems about it at concrete histories.
use yukh_coordination.Base.{
  ℕ, ◌<◌, ◌≡◌, ◌≢◌, ◌↔◌, refl, true, false, some, List, [], ◌∷◌, arith, Text, lookup, insert,
  nat_eq, text_eq, ok, err, ℕ_discrete, Text-discrete, replicate,
}
use yukh_coordination.Time.{Time, utc, Time-discrete}
use yukh_coordination.Coordination.{
  Error, NonceOutcome, NonceValue, LeaseValue, LeaseStatus, is_digest,
}
use yukh_coordination.LeaseStore.{
  Store, Lease, acquire, renew, release, consume, resume, inspect, is_valid, is_valid_lease, new,
}
use yukh_coordination.LeaseStore.World.{Call, consumes, acquires, perform, run}
use yukh_coordination.LeaseStore.Invariant.{fresh}
use yukh_coordination.LeaseStore.Safety.{
  valid_leases_agree, acquire_token_fresh, acquire_fences_out,
}
use yukh_coordination.LeaseStore.Nonces.{consume_at_most_once}
use yukh_coordination.LeaseStore.Capability.{
  capability, is_ok, resume-iff-inspect, inspect-renew, inspect-release,
}

abbrev at : ℕ → Time
at n = record { instant = n; location = utc }

abbrev key_a : Text
key_a = replicate 64 b'a'

abbrev key_b : Text
key_b = replicate 64 b'b'

abbrev empty : Store
empty = record { max_lifetime = 1000; epoch = 7; nonces = []; leases = []; revision = 0 }

abbrev wish : Text → LeaseValue
wish holder = record { holder_digest = holder; expires_at = at 500; epoch = 7 }

-- Acquire by one client, Resume by none, then expiry and a second client.
abbrev history : List Call
history = acquires 1 key_a (wish key_a) (at 10) (at 10) ∷ []

abbrev first : Lease
first = record { key = key_a; holder = key_a; expires = at 500; revision = 1; released = false }

made : new 1000 7 true ≡ ok empty
unfolding new ℕ_discrete
made = refl

runs : lookup 1 (run (fresh empty) history).handles ≡ some first
unfolding run perform acquire is_valid is_digest lookup insert ℕ_discrete Text-discrete
runs = refl

held : is_valid_lease (run (fresh empty) history).store first (at 20) ≡ true
unfolding run perform acquire is_valid is_valid_lease is_digest lookup insert ℕ_discrete
    Text-discrete
held = refl

valid_leases_agree_example :
    (first.holder ≡ first.holder)
    × (first.expires ≡ first.expires)
    × (first.revision ≡ first.revision)
valid_leases_agree_example =
    valid_leases_agree 1000 7 empty history 1 1 first first (at 20) made (omega arith) runs runs
      refl held held

abbrev second : Lease
second = record { key = key_a; holder = key_b; expires = at 900; revision = 2; released = false }

abbrev late : LeaseValue
late = record { holder_digest = key_b; expires_at = at 900; epoch = 7 }

abbrev taken : Store
taken = (acquire (run (fresh empty) history).store key_a late (at 600) (at 600)).0

takes_over :
    acquire (run (fresh empty) history).store key_a late (at 600) (at 600) ≡ (taken, ok second)
unfolding run perform acquire is_valid is_digest lookup insert ℕ_discrete Text-discrete
takes_over = refl

acquire_token_fresh_example : first.revision < second.revision
acquire_token_fresh_example =
    acquire_token_fresh 1000 7 empty taken history key_a late (at 600) (at 600) second first 1 made
      (omega arith) takes_over runs

acquire_fences_out_example :
    (is_valid_lease taken first (at 610) ≡ false)
    × (renew taken first (at 950) (at 610) ≡ (taken, first, err Error.conflict))
    × (release taken first ≡ (taken, first, err Error.conflict))
acquire_fences_out_example =
    acquire_fences_out 1000 7 empty taken history key_a late (at 600) (at 600) second first 1
      (at 950) (at 610) made (omega arith) takes_over runs refl

abbrev nonce : NonceValue
nonce = record { value_digest = key_b; expires_at = at 500; epoch = 7 }

consume_first : (consume (fresh empty).store key_a nonce (at 10)).1 ≡ ok NonceOutcome.consumed
unfolding consume is_valid is_digest lookup ℕ_discrete
consume_first = refl

consume_at_most_once_example :
    (consume
      (run (perform (fresh empty) (consumes key_a nonce (at 10))) history).store
      key_a
      nonce
      (at 20)).1
    ≢ ok NonceOutcome.consumed
consume_at_most_once_example =
    consume_at_most_once (fresh empty) key_a nonce nonce (at 10) (at 20) history consume_first

resume-iff-inspect_example :
    (is_ok (resume taken key_a (capability second 7) (at 700)) ≡ true)
    ↔ (inspect taken key_a (capability second 7) (at 700) ≡ ok LeaseStatus.valid)
resume-iff-inspect_example = resume-iff-inspect taken key_a (capability second 7) (at 700)

abbrev longer : Lease
longer = record second { expires = at 1200; revision = 3 }

abbrev extended : Store
extended = (renew taken second (at 1200) (at 700)).0

renew_runs : renew taken second (at 1200) (at 700) ≡ (extended, longer, ok tt)
unfolding run perform acquire renew is_valid is_digest lookup insert ℕ_discrete Text-discrete
renew_runs = refl

inspect-renew_example :
    (inspect extended key_a (capability second 7) (at 800) ≡ ok LeaseStatus.stale)
    × (inspect extended key_a (capability longer 7) (at 800) ≡ ok LeaseStatus.valid)
unfolding run perform acquire renew is_valid is_digest ℕ_discrete lookup insert Text-discrete
inspect-renew_example =
    inspect-renew taken extended second longer (at 1200) (at 700) (at 800) (omega arith)
      (omega arith) renew_runs

-- Another key is acquired between: its token is newer, and the released lease reads as stale.
abbrev busy : Store
busy = (acquire taken key_b late (at 600) (at 600)).0

abbrev closed : Lease
closed = record second { revision = 4; released = true }

abbrev freed_store : Store
freed_store = (release busy second).0

release_runs : release busy second ≡ (freed_store, closed, ok tt)
unfolding run perform acquire release is_valid is_digest lookup insert ℕ_discrete Text-discrete
release_runs = refl

busy_valid : inspect busy key_a (capability second 7) (at 700) ≡ ok LeaseStatus.valid
unfolding run perform acquire inspect is_valid is_digest lookup insert ℕ_discrete Text-discrete
    Time-discrete
busy_valid = refl

busy_revision : busy.revision ≡ 3
unfolding run perform acquire is_valid is_digest lookup insert ℕ_discrete Text-discrete
busy_revision = refl

inspect-release_example :
    inspect freed_store key_a (capability second 7) (at 800) ≡ ok LeaseStatus.stale
unfolding run perform acquire release is_valid is_digest lookup insert ℕ_discrete Text-discrete
    Time-discrete
inspect-release_example =
    inspect-release busy freed_store second closed (at 700) (at 800) (omega (arith, busy_revision))
      busy_valid release_runs
