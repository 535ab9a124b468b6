-- ===== src/LeaseStore/Capability.antt =====
-- What Inspect and Resume say of the capability that Acquire and Renew hand out.
use yukh_coordination.Base.{
  ℕ, ◌+◌, ◌≤◌, ◌<◌, ◌≡◌, ◌↔◌, refl, inl, inr, Bool, true, false, not, some, arith, Text, lookup,
  lookup-insert, nat_eq, text_eq, Result, ok, err, ap, ◌∙◌, ◌!=◌, ◌||◌, Option-cases, Bool-cases,
  if◌then◌else◌, ◌==◌,
}
use yukh_coordination.Time.{Time, time_eq, after}
use yukh_coordination.Coordination.{LeaseValue, LeaseResumeValue, LeaseStatus, is_digest}
use yukh_coordination.LeaseStore.{
  Store, LeaseRecord, Lease, u64_mod, new_record, renewed_record, next_revision, acquire, renew,
  release, resume, inspect, is_valid, matches, status_of,
}
use yukh_coordination.LeaseStore.Cases.{acquire_cases, renew_cases, release_cases}

-- The capability that a handle stands for, in a store of the given epoch.
abbrev pub capability : Lease → ℕ → LeaseResumeValue
capability h epoch = record {
  holder_digest = h.holder;
  expires_at = h.expires;
  epoch = epoch;
  fencing_token = h.revision;
}

abbrev pub is_ok : {E A : Type 0} → Result E A → Bool
is_ok (ok _) = true
is_ok (err _) = false

matches-status :
    (r : LeaseRecord) (v : LeaseResumeValue) (now : Time)
    → (matches r v now ≡ true) ↔ (status_of r v now ≡ LeaseStatus.valid)
matches-status r v now = ground arith

-- On every store and capability, Resume succeeds exactly when Inspect answers `valid`.
pub resume-iff-inspect :
    (s : Store) (key : Text) (v : LeaseResumeValue) (now : Time)
    → (is_ok (resume s key v now) ≡ true) ↔ (inspect s key v now ≡ ok LeaseStatus.valid)
unfolding resume inspect
resume-iff-inspect s key v now = elim (Bool-cases (not (is_digest key) || v.epoch != s.epoch)) [
  | inl a ↦ rw a (ground arith)
  | inr a ↦ elim (Option-cases (lookup key s.leases)) [
    | inl b ↦ rw (a, b) (ground arith)
    | inr (r, b) ↦ rw (a, b) (ground (arith, matches-status r v now))
  ]
]

-- `valid` until the expiry, then `expired`.
abbrev pub running : Time → Time → LeaseStatus
running expires t = if after expires t then LeaseStatus.valid else LeaseStatus.expired

inspect_found :
    (s : Store) (key : Text) (v : LeaseResumeValue) (r : LeaseRecord) (t : Time)
    → is_digest key ≡ true
    → v.epoch ≡ s.epoch
    → lookup key s.leases ≡ some r
    → inspect s key v t ≡ ok (status_of r v t)
unfolding inspect
inspect_found s key v r t digest same found = rw found (ground arith)

digest_of_valid :
    (s : Store) (key holder : Text) (expires : Time) (epoch : ℕ) (now : Time)
    → is_valid s key holder expires epoch now ≡ true
    → (is_digest key ≡ true) × (epoch ≡ s.epoch)
unfolding is_valid
digest_of_valid s key holder expires epoch now h = ground arith

-- Inspect of the capability that a successful Acquire gave, before any other call: `valid` until
-- the expiry, and `expired` from then on.
pub inspect-acquire :
    (s s' : Store) (key : Text) (v : LeaseValue) (now later t : Time) (h : Lease)
    → acquire s key v now later ≡ (s', ok h)
    → inspect s' key (capability h s'.epoch) t ≡ ok (running v.expires_at t)
inspect-acquire s s' key v now later t h =
    acquire_cases
      (λ p. p ≡ (s', ok h) → inspect s' key (capability h s'.epoch) t ≡ ok (running v.expires_at t))
      s key v now later (λ e x. absurd (cc))
      (λ fine _ x.
        let (digest, same) = digest_of_valid s key v.holder_digest v.expires_at v.epoch now fine in
        let self = lookup-insert key key (new_record s v) s.leases in
        inspect_found s' key _ (new_record s v) t digest (ground arith) (ground (arith, self))
        ∙ ap ok (ground arith))

-- The capability is what was asked, with the token of the handle.
pub acquire-capability :
    (s s' : Store) (key : Text) (v : LeaseValue) (now later : Time) (h : Lease)
    → acquire s key v now later ≡ (s', ok h)
    → capability h s'.epoch ≡ record {
      holder_digest = v.holder_digest;
      expires_at = v.expires_at;
      epoch = v.epoch;
      fencing_token = h.revision;
    }
acquire-capability s s' key v now later h =
    acquire_cases
      (λ p.
        p ≡ (s', ok h)
        → capability h s'.epoch ≡ record {
          holder_digest = v.holder_digest;
          expires_at = v.expires_at;
          epoch = v.epoch;
          fencing_token = h.revision;
        })
      s key v now later (λ e x. absurd (cc))
      (λ fine _ x.
        let (digest, same) = digest_of_valid s key v.holder_digest v.expires_at v.epoch now fine in
        ground (arith, same))

-- A successful Renew moves the capability on: the old one is `stale`, and the new one is `valid`
-- until the new expiry.
pub inspect-renew :
    (s s' : Store) (h h' : Lease) (expires now t : Time)
    → s.revision + 1 < u64_mod
    → h.revision ≤ s.revision
    → renew s h expires now ≡ (s', h', ok tt)
    → (inspect s' h.key (capability h s'.epoch) t ≡ ok LeaseStatus.stale)
      × (inspect s' h.key (capability h' s'.epoch) t ≡ ok (running expires t))
inspect-renew s s' h h' expires now t fits old =
    renew_cases
      (λ p.
        p ≡ (s', h', ok tt)
        → (inspect s' h.key (capability h s'.epoch) t ≡ ok LeaseStatus.stale)
          × (inspect s' h.key (capability h' s'.epoch) t ≡ ok (running expires t)))
      s h expires now (λ x. absurd (cc))
      (λ _ fine _ x.
        let (digest, _) = digest_of_valid s h.key h.holder expires s.epoch now fine in
        let r = renewed_record s h expires in
        let self = lookup-insert h.key h.key r s.leases in
        (
          inspect_found s' h.key _ r t digest refl (ground (arith, self)) ∙ ap ok (ground arith),
          inspect_found s' h.key _ r t digest refl (ground (arith, self)) ∙ ap ok (ground arith),
        ))

-- What a `valid` answer tells of the record.
valid_found :
    (s : Store) (key : Text) (v : LeaseResumeValue) (t : Time)
    → inspect s key v t ≡ ok LeaseStatus.valid
    → (is_digest key ≡ true)
      × ((r : LeaseRecord) → lookup key s.leases ≡ some r → status_of r v t ≡ LeaseStatus.valid)
unfolding inspect
valid_found s key v t h = elim (Bool-cases (not (is_digest key) || v.epoch != s.epoch)) [
  | inl a ↦ absurd (ground arith)
  | inr a ↦ elim (Option-cases (lookup key s.leases)) [
    | inl b ↦ absurd (ground arith)
    | inr (r, b) ↦ (ground arith, λ r' found. ground arith)
  ]
]

-- After a successful Release, Inspect of the capability that was valid answers `released` if that
-- capability holds the newest token of the whole store, and `stale` if the store has written any
-- lease, on this key or another, since the token was given.
pub inspect-release :
    (s s' : Store) (h h' : Lease) (t t' : Time)
    → s.revision + 1 < u64_mod
    → inspect s h.key (capability h s.epoch) t ≡ ok LeaseStatus.valid
    → release s h ≡ (s', h', ok tt)
    → inspect s' h.key (capability h s'.epoch) t'
      ≡ ok (if h.revision == s.revision then LeaseStatus.released else LeaseStatus.stale)
inspect-release s s' h h' t t' fits was =
    release_cases
      (λ p.
        p ≡ (s', h', ok tt)
        → inspect s' h.key (capability h s'.epoch) t'
          ≡ ok (if h.revision == s.revision then LeaseStatus.released else LeaseStatus.stale))
      s h (λ x. absurd (cc))
      (λ r found _ _ x.
        let (digest, valid_at) = valid_found s h.key (capability h s.epoch) t was in
        let r' = record r { revision = next_revision s; released = true } in
        let self = lookup-insert h.key h.key r' s.leases in
        inspect_found s' h.key _ r' t' digest refl (ground (arith, self))
        ∙ ap ok (ground (arith, valid_at r found)))
