-- ===== src/Budget/Tests.antt =====
-- Runs of the capability budget, and the theorems about it at concrete histories.
use yukh_coordination.Base.{
  ℕ, ◌≡◌, ◌≢◌, refl, true, List, [], ◌∷◌, arith, Text, ok, err, if◌then◌else◌, replicate, lookup,
  insert, text_eq, ℕ_discrete, Text-discrete,
}
use yukh_coordination.Time.{Time, utc, after}
use yukh_coordination.Coordination.{Error, is_digest}
use yukh_coordination.Budget.{
  CapabilityBudget, Call, reserves, commits, new, reserve, commit, pending_until, entries_of, run,
  perform,
}
use yukh_coordination.Budget.Invariant.{run-new-IsBounded}
use yukh_coordination.Budget.Kept.{IsBounded}
use yukh_coordination.Budget.Phases.{commit-reserve}
use yukh_coordination.Budget.Isolation.{run-isolates}

abbrev at : ℕ → Time
at n = record { instant = n; location = utc }

abbrev alice : Text
alice = replicate 64 b'a'

abbrev bob : Text
bob = replicate 64 b'b'

abbrev empty : CapabilityBudget
empty = record { limit = 1; pending_ttl = 1_000; epoch = 7; entries = [] }

abbrev token : Text
token = replicate 16 1

abbrev history : List Call
history =
    reserves alice token (at 5_000_000) 7 (at 10) (at 10) (at 10)
    ∷ commits alice token 7 (at 20)
    ∷ []

made : new 1 1_000 7 true ≡ ok empty
unfolding new ℕ_discrete
made = refl

run-new-IsBounded_example : IsBounded 1 (entries_of alice (run empty history).entries)
run-new-IsBounded_example = run-new-IsBounded 1 1_000 7 empty history alice made

-- Full: the one place that the limit leaves is taken.
full :
    (perform
      (run empty history)
      (reserves alice (replicate 16 2) (at 5_000_000) 7 (at 30) (at 30) (at 30))).1
    ≡ err Error.unavailable
unfolding run perform reserve commit is_digest lookup insert ℕ_discrete Text-discrete
full = refl

other : alice ≢ bob
other = λ e. ground arith

run-isolates_example : entries_of bob (run empty history).entries ≡ []
unfolding lookup
run-isolates_example = run-isolates bob empty history (other, (other, tt))

abbrev reserved_budget : CapabilityBudget
reserved_budget = (reserve empty alice token (at 5_000_000) 7 (at 10) (at 10) (at 10)).0

reserved :
    reserve empty alice token (at 5_000_000) 7 (at 10) (at 10) (at 10) ≡ (reserved_budget, ok tt)
unfolding reserve is_digest lookup insert ℕ_discrete Text-discrete
reserved = refl

commit-reserve_example : (commit reserved_budget alice token 7 (at 20)).1 ≡ (
    if after (pending_until empty (at 5_000_000) (at 10)) (at 20)
    then ok tt
    else err Error.conflict)
commit-reserve_example =
    commit-reserve empty reserved_budget alice token (at 5_000_000) 7 (at 10) (at 10) (at 10)
      (at 20) reserved
