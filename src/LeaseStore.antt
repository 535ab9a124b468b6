-- ===== src/LeaseStore.antt =====
-- internal/coordination/memory/store.go: single-use nonces and fenced leases behind one mutex. A
-- call is one atomic step that returns the new state; each reading of the clock is an argument.
pub mod World
mod Cases
pub mod Invariant
pub mod Safety
pub mod Nonces
pub mod Capability
mod Tests
use yukh_coordination.Base.{
  ℕ, ◌+◌, ◌-◌, ◌%◌, ◌^◌, Bool, true, false, not, ◌&&◌, ◌||◌, Option, none, some, [], ltb, ◌==◌,
  ◌!=◌, nat_eq, text_eq, Text, Map, lookup, insert, Result, ok, err, if◌then◌else◌,
}
use yukh_coordination.Time.{Time, time_eq, to_utc, add, after}
use yukh_coordination.Coordination.{
  Error, NonceOutcome, NonceValue, LeaseValue, LeaseResumeValue, LeaseStatus, is_digest,
}

abbrev pub u64_mod : ℕ
u64_mod = 2 ^ 64

pub record LeaseRecord : Type 0 where
  pub holder : Text
  pub expires : Time
  pub epoch : ℕ
  pub revision : ℕ
  pub released : Bool

pub record Store : Type 0 where
  pub max_lifetime : ℕ
  pub epoch : ℕ
  pub nonces : Map Text NonceValue
  pub leases : Map Text LeaseRecord
  pub revision : ℕ

-- The handle that Acquire and Resume return: an object of its own, which Renew and Release update.
pub record Lease : Type 0 where
  pub key : Text
  pub holder : Text
  pub expires : Time
  pub revision : ℕ
  pub released : Bool

-- A lifetime that is not positive is 0; `clock` says that a clock was given.
unfoldable pub new : ℕ → ℕ → Bool → Result Error Store
new max_lifetime epoch clock =
    if max_lifetime == 0 || epoch == 0 || not clock
    then err Error.invalid_argument
    else ok (record {
      max_lifetime = max_lifetime;
      epoch = epoch;
      nonces = [];
      leases = [];
      revision = 0;
    })

unfoldable pub is_valid : Store → Text → Text → Time → ℕ → Time → Bool
is_valid s key identity expires epoch now =
    is_digest key
    && is_digest identity
    && epoch == s.epoch
    && after expires now
    && not (after expires (add (to_utc now) s.max_lifetime))

unfoldable pub consume : Store → Text → NonceValue → Time → Store × Result Error NonceOutcome
consume s key value now =
    if not (is_valid s key value.value_digest value.expires_at value.epoch now)
    then (s, err Error.invalid_argument)
    else elim (lookup key s.nonces) [
      | some _ ↦ (s, ok NonceOutcome.replayed)
      | none ↦ (record s { nonces = insert key value s.nonces }, ok NonceOutcome.consumed)
    ]

-- `exists && !current.released && current.expires.After(now)`
abbrev pub is_held : Option LeaseRecord → Time → Bool
is_held none now = false
is_held (some r) now = not r.released && after r.expires now

abbrev pub next_revision : Store → ℕ
next_revision s = (s.revision + 1) % u64_mod

abbrev pub new_record : Store → LeaseValue → LeaseRecord
new_record s value = record {
  holder = value.holder_digest;
  expires = value.expires_at;
  epoch = value.epoch;
  revision = next_revision s;
  released = false;
}

-- Acquire, once its guards have passed.
abbrev pub granted : Store → Text → LeaseValue → Store × Result Error Lease
granted s key value = (
  record s { revision = next_revision s; leases = insert key (new_record s value) s.leases },
  ok (record {
    key = key;
    holder = value.holder_digest;
    expires = value.expires_at;
    revision = next_revision s;
    released = false;
  }),
)

unfoldable pub acquire : Store → Text → LeaseValue → Time → Time → Store × Result Error Lease
acquire s key value now later =
    if not (is_valid s key value.holder_digest value.expires_at value.epoch now)
    then (s, err Error.invalid_argument)
    else if is_held (lookup key s.leases) later
    then (s, err Error.conflict)
    else granted s key value

-- The record is the one that the capability names, and it still runs.
abbrev pub matches : LeaseRecord → LeaseResumeValue → Time → Bool
matches r value now = not (
    r.released
    || r.holder != value.holder_digest
    || r.expires != value.expires_at
    || r.epoch != value.epoch
    || r.revision != value.fencing_token
    || not (after r.expires now))

abbrev pub reopened : Text → LeaseRecord → Lease
reopened key r = record {
  key = key;
  holder = r.holder;
  expires = r.expires;
  revision = r.revision;
  released = false;
}

unfoldable pub resume : Store → Text → LeaseResumeValue → Time → Result Error Lease
resume s key value now =
    if not (is_digest key) || value.epoch != s.epoch
    then err Error.invalid_argument
    else elim (lookup key s.leases) [
      | none ↦ err Error.conflict
      | some r ↦ if matches r value now then ok (reopened key r) else err Error.conflict
    ]

-- Inspect, once the record is found.
abbrev pub status_of : LeaseRecord → LeaseResumeValue → Time → LeaseStatus
status_of r value now =
    if r.holder != value.holder_digest || r.expires != value.expires_at || r.epoch != value.epoch
    then LeaseStatus.stale
    else if r.released
        && ltb value.fencing_token (u64_mod - 1)
        && r.revision == value.fencing_token + 1
    then LeaseStatus.released
    else if r.revision != value.fencing_token || r.released
    then LeaseStatus.stale
    else if not (after r.expires now)
    then LeaseStatus.expired
    else LeaseStatus.valid

unfoldable pub inspect : Store → Text → LeaseResumeValue → Time → Result Error LeaseStatus
inspect s key value now =
    if not (is_digest key) || value.epoch != s.epoch
    then err Error.invalid_argument
    else elim (lookup key s.leases) [
      | none ↦ ok LeaseStatus.stale
      | some r ↦ ok (status_of r value now)
    ]

-- `current, exists := leases[key]; exists && current.revision == held.revision`
abbrev pub is_current : Option LeaseRecord → Lease → Bool
is_current none h = false
is_current (some r) h = r.revision == h.revision

abbrev pub renewed_record : Store → Lease → Time → LeaseRecord
renewed_record s h expires = record {
  holder = h.holder;
  expires = expires;
  epoch = s.epoch;
  revision = next_revision s;
  released = false;
}

-- Renew, once its guards have passed.
abbrev pub renewed : Store → Lease → Time → Store × Lease × Result Error (Unit {0})
renewed s h expires = (
  record s {
    revision = next_revision s;
    leases = insert h.key (renewed_record s h expires) s.leases;
  },
  record h { revision = next_revision s; expires = expires },
  ok tt,
)

unfoldable pub renew : Store → Lease → Time → Time → Store × Lease × Result Error (Unit {0})
renew s h expires now =
    if h.released || not (is_valid s h.key h.holder expires s.epoch now)
    then (s, h, err Error.conflict)
    else if not (is_current (lookup h.key s.leases) h)
    then (s, h, err Error.conflict)
    else renewed s h expires

unfoldable pub is_valid_lease : Store → Lease → Time → Bool
is_valid_lease s h now = elim (lookup h.key s.leases) [
  | none ↦ false
  | some r ↦ not h.released && r.revision == h.revision && after r.expires now
]

-- Release, once its guards have passed.
abbrev pub freed : Store → Lease → LeaseRecord → Store × Lease × Result Error (Unit {0})
freed s h r = (
  record s {
    revision = next_revision s;
    leases = insert h.key (record r { revision = next_revision s; released = true }) s.leases;
  },
  record h { revision = next_revision s; released = true },
  ok tt,
)

unfoldable pub release : Store → Lease → Store × Lease × Result Error (Unit {0})
release s h = elim (lookup h.key s.leases) [
  | none ↦ (s, h, err Error.conflict)
  | some r ↦
      if h.released || r.revision != h.revision then (s, h, err Error.conflict) else freed s h r
]
