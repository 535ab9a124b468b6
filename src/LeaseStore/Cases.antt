-- ===== src/LeaseStore/Cases.antt =====
-- How the methods of the lease store end: one rule for each, with what its guards tell.
use yukh_coordination.Base.{
  ◌≡◌, inl, inr, ◌!=◌, ◌||◌, not, true, false, some, arith, nat_eq, text_eq, Text, lookup, Result,
  ok, err, Option-cases, Bool-cases,
}
use yukh_coordination.Time.{Time}
use yukh_coordination.Coordination.{LeaseValue, LeaseResumeValue, Error, is_digest}
use yukh_coordination.LeaseStore.{
  Store, LeaseRecord, Lease, granted, reopened, renewed, freed, acquire, resume, renew, release,
  is_current, is_held, is_valid, matches,
}

pub acquire_cases {ℓ} :
    (P : Store × Result Error Lease → Type ℓ) (s : Store) (key : Text) (v : LeaseValue)
    (now later : Time)
    → ((e : Error) → P (s, err e))
    → (is_valid s key v.holder_digest v.expires_at v.epoch now ≡ true
        → is_held (lookup key s.leases) later ≡ false
        → P (granted s key v))
    → P (acquire s key v now later)
unfolding acquire
acquire_cases P s key v now later refused done =
    elim (Bool-cases (is_valid s key v.holder_digest v.expires_at v.epoch now)) [
      | inl a ↦ elim (Bool-cases (is_held (lookup key s.leases) later)) [
        | inl b ↦ rw (a, b) (refused Error.conflict)
        | inr b ↦ rw (a, b) (done a b)
      ]
      | inr a ↦ rw a (refused Error.invalid_argument)
    ]

pub resume_cases {ℓ} :
    (P : Result Error Lease → Type ℓ) (s : Store) (key : Text) (v : LeaseResumeValue) (now : Time)
    → ((e : Error) → P (err e))
    → ((r : LeaseRecord)
        → lookup key s.leases ≡ some r
        → matches r v now ≡ true
        → P (ok (reopened key r)))
    → P (resume s key v now)
unfolding resume
resume_cases P s key v now refused done =
    elim (Bool-cases (not (is_digest key) || v.epoch != s.epoch)) [
      | inl a ↦ rw a (refused Error.invalid_argument)
      | inr a ↦ elim (Option-cases (lookup key s.leases)) [
        | inl b ↦ rw (a, b) (refused Error.conflict)
        | inr (r, b) ↦ elim (Bool-cases (matches r v now)) [
          | inl c ↦ rw (a, b, c) (done r b c)
          | inr c ↦ rw (a, b, c) (refused Error.conflict)
        ]
      ]
    ]

pub renew_cases {ℓ} :
    (P : Store × Lease × Result Error (Unit {0}) → Type ℓ) (s : Store) (h : Lease)
    (expires now : Time)
    → P (s, h, err Error.conflict)
    → (h.released ≡ false
        → is_valid s h.key h.holder expires s.epoch now ≡ true
        → is_current (lookup h.key s.leases) h ≡ true
        → P (renewed s h expires))
    → P (renew s h expires now)
unfolding renew
renew_cases P s h expires now refused done =
    elim (Bool-cases (h.released || not (is_valid s h.key h.holder expires s.epoch now))) [
      | inl a ↦ rw a refused
      | inr a ↦ elim (Bool-cases (is_current (lookup h.key s.leases) h)) [
        | inl b ↦ rw (a, b) (done (ground arith) (ground arith) b)
        | inr b ↦ rw (a, b) refused
      ]
    ]

pub release_cases {ℓ} :
    (P : Store × Lease × Result Error (Unit {0}) → Type ℓ) (s : Store) (h : Lease)
    → P (s, h, err Error.conflict)
    → ((r : LeaseRecord)
        → lookup h.key s.leases ≡ some r
        → h.released ≡ false
        → r.revision ≡ h.revision
        → P (freed s h r))
    → P (release s h)
unfolding release
release_cases P s h refused done = elim (Option-cases (lookup h.key s.leases)) [
  | inl a ↦ rw (a, release) refused
  | inr (r, a) ↦ elim (Bool-cases (h.released || r.revision != h.revision)) [
    | inl b ↦ rw (a, release) (rw b refused)
    | inr b ↦ rw (a, release) (rw b (done r a (ground arith) (ground arith)))
  ]
]
