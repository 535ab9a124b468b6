-- ===== src/Budget.antt =====
-- internal/coordination/memory/budget.go: the bounded set of live capabilities of each principal. A
-- call is one atomic step under the mutex; each reading of the clock is an argument.
pub mod Entries
pub mod Kept
pub mod Invariant
pub mod Isolation
pub mod Phases
mod Tests
use yukh_coordination.Base.{
  ℕ, suc, zero, ◌+◌, Bool, true, false, not, ◌&&◌, ◌||◌, Option, none, some, List, [], ◌∷◌, ◌++◌,
  ltb, leb, ◌==◌, ◌!=◌, nat_eq, text_eq, Text, Map, lookup, insert, Result, ok, err, length, set,
  get_elem?, if◌then◌else◌,
}
use yukh_coordination.Time.{Time, to_utc, add, after, is_utc, whole_millis}
use yukh_coordination.Coordination.{Error, is_digest}

pub record BudgetEntry : Type 0 where
  pub token : Text
  pub expires : Time
  pub lease_expires : Time
  pub active : Bool

pub record CapabilityBudget : Type 0 where
  pub limit : ℕ
  pub pending_ttl : ℕ
  pub epoch : ℕ
  pub entries : Map Text (List BudgetEntry)

-- Five seconds, in nanoseconds.
abbrev pub max_pending_ttl : ℕ
max_pending_ttl = 5_000_000_000

-- Limits and lifetimes that are not positive are 0; `clock` says that a clock was given.
unfoldable pub new : ℕ → ℕ → ℕ → Bool → Result Error CapabilityBudget
new limit pending_ttl epoch clock =
    if ltb limit 1
      || ltb 32 limit
      || pending_ttl == 0
      || ltb max_pending_ttl pending_ttl
      || epoch == 0
      || not clock
    then err Error.invalid_argument
    else ok (record { limit = limit; pending_ttl = pending_ttl; epoch = epoch; entries = [] })

-- `budget.entries[principal]`, which is empty where it was never written.
abbrev pub entries_of : Text → Map Text (List BudgetEntry) → List BudgetEntry
entries_of principal m = elim (lookup principal m) [ none ↦ [] | some es ↦ es ]

-- The loop of prune.
abbrev pub keep_live : Time → List BudgetEntry → List BudgetEntry
keep_live now [] = []
keep_live now (e ∷ es) = if after e.expires now then e ∷ keep_live now es else keep_live now es

abbrev pub write : CapabilityBudget → Text → List BudgetEntry → CapabilityBudget
write b principal es = record b { entries = insert principal es b.entries }

-- prune: the entries that it keeps, and the budget that holds them.
abbrev pub live : CapabilityBudget → Text → Time → List BudgetEntry
live b principal now = keep_live now (entries_of principal b.entries)

unfoldable pub prune : CapabilityBudget → Text → Time → CapabilityBudget
prune b principal now = write b principal (live b principal now)

-- The index of the first entry with the token.
abbrev pub index_of : Text → List BudgetEntry → Option ℕ
index_of token [] = none
index_of token (e ∷ es) =
    if e.token == token
    then some 0
    else elim (index_of token es) [ none ↦ none | some i ↦ some (suc i) ]

-- `copy(entries[index:], entries[index+1:])`, and one entry less.
abbrev pub remove_at : ℕ → List BudgetEntry → List BudgetEntry
remove_at i [] = []
remove_at zero (e ∷ es) = es
remove_at (suc i) (e ∷ es) = e ∷ remove_at i es

abbrev pub locate : Text → List BudgetEntry → Result Error (ℕ × BudgetEntry)
locate token es = elim (index_of token es) [
  | none ↦ err Error.conflict
  | some i ↦ elim (get_elem? es i) [ none ↦ err Error.conflict | some e ↦ ok (i, e) ]
]

-- find: the index of the entry, and the entry, once the principal's list is pruned. A refused
-- argument prunes nothing.
unfoldable pub find :
    CapabilityBudget → Text → Text → ℕ → Time → CapabilityBudget × Result Error (ℕ × BudgetEntry)
unfolding prune
find b principal token epoch now =
    if not (is_digest principal) || epoch != b.epoch
    then (b, err Error.invalid_argument)
    else (prune b principal now, locate token (live b principal now))

abbrev pub holds_token : Text → List BudgetEntry → Bool
holds_token token [] = false
holds_token token (e ∷ es) = e.token == token || holds_token token es

-- The earlier of the end of the pending time and of the lease.
abbrev pub pending_until : CapabilityBudget → Time → Time → Time
pending_until b expires now =
    let pending = add (to_utc now) b.pending_ttl in
    if after pending expires then expires else pending

-- Reserve, once its arguments are in order and the list is pruned to `es`.
abbrev pub reserve_among :
    CapabilityBudget
    → Text
    → Text
    → Time
    → Time
    → List BudgetEntry
    → CapabilityBudget × Result Error (Unit {0})
reserve_among b principal token expires stamped es =
    if holds_token token es
    then (b, err Error.conflict)
    else if leb b.limit (length es)
    then (b, err Error.unavailable)
    else (
      write b principal (
          es
          ++ record {
            token = token;
            expires = pending_until b expires stamped;
            lease_expires = expires;
            active = false;
          }
            ∷ []),
      ok tt,
    )

-- The clock is read for the check of the expiry, for the prune and for the pending time.
unfoldable pub reserve :
    CapabilityBudget
    → Text
    → Text
    → Time
    → ℕ
    → Time
    → Time
    → Time
    → CapabilityBudget × Result Error (Unit {0})
unfolding prune
reserve b principal token expires epoch checked pruned stamped =
    if not (is_digest principal)
      || epoch != b.epoch
      || not (is_utc expires)
      || not (whole_millis expires)
      || not (after expires checked)
    then (b, err Error.invalid_argument)
    else reserve_among (prune b principal pruned) principal token expires stamped
        (live b principal pruned)

-- What the four other calls do with the entry that `find` located.
abbrev pub on_found :
    CapabilityBudget × Result Error (ℕ × BudgetEntry)
    → (CapabilityBudget → ℕ → BudgetEntry → CapabilityBudget × Result Error (Unit {0}))
    → CapabilityBudget × Result Error (Unit {0})
on_found (b, err e) act = (b, err e)
on_found (b, ok (i, e)) act = act b i e

unfoldable pub commit :
    CapabilityBudget → Text → Text → ℕ → Time → CapabilityBudget × Result Error (Unit {0})
unfolding find
commit b principal token epoch now = on_found (find b principal token epoch now) λ b' i e.
    if e.active then (b', err Error.conflict) else (
      write b' principal
          (set (live b principal now) i (record e { active = true; expires = e.lease_expires })),
      ok tt,
    )

unfoldable pub cancel :
    CapabilityBudget → Text → Text → ℕ → Time → CapabilityBudget × Result Error (Unit {0})
unfolding find
cancel b principal token epoch now = on_found (find b principal token epoch now) λ b' i e.
    if e.active
    then (b', err Error.conflict)
    else (write b' principal (remove_at i (live b principal now)), ok tt)

-- Replace, once the active entry is found at `i` in the pruned list `es`.
abbrev pub replace_at :
    CapabilityBudget
    → Text
    → Text
    → Time
    → Time
    → ℕ
    → List BudgetEntry
    → CapabilityBudget × Result Error (Unit {0})
replace_at b principal next expires checked i es =
    if holds_token next es
    then (b, err Error.conflict)
    else if not (after expires checked) || not (is_utc expires) || not (whole_millis expires)
    then (b, err Error.invalid_argument)
    else (
      write b principal (
          set es i
            (record { token = next; expires = expires; lease_expires = expires; active = true })),
      ok tt,
    )

-- The clock is read again for the check of the new expiry.
unfoldable pub replace :
    CapabilityBudget
    → Text
    → Text
    → Text
    → Time
    → ℕ
    → Time
    → Time
    → CapabilityBudget × Result Error (Unit {0})
unfolding find
replace b principal old next expires epoch now checked =
    on_found (find b principal old epoch now) λ b' i e.
      if not e.active
      then (b', err Error.conflict)
      else replace_at b' principal next expires checked i (live b principal now)

unfoldable pub retire :
    CapabilityBudget → Text → Text → ℕ → Time → CapabilityBudget × Result Error (Unit {0})
unfolding find
retire b principal token epoch now = on_found (find b principal token epoch now) λ b' i e.
    if not e.active
    then (b', err Error.conflict)
    else (write b' principal (remove_at i (live b principal now)), ok tt)

pub data Call : Type 0 where
  reserves : Text → Text → Time → ℕ → Time → Time → Time → Call
  commits cancels retires : Text → Text → ℕ → Time → Call
  replaces : Text → Text → Text → Time → ℕ → Time → Time → Call

unfoldable pub perform : CapabilityBudget → Call → CapabilityBudget × Result Error (Unit {0})
perform b (reserves p token expires epoch t t' t'') = reserve b p token expires epoch t t' t''
perform b (commits p token epoch t) = commit b p token epoch t
perform b (cancels p token epoch t) = cancel b p token epoch t
perform b (retires p token epoch t) = retire b p token epoch t
perform b (replaces p old next expires epoch t t') = replace b p old next expires epoch t t'

unfoldable pub run : CapabilityBudget → List Call → CapabilityBudget
run b [] = b
run b (c ∷ cs) = run (perform b c).0 cs
