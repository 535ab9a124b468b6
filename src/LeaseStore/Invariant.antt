-- ===== src/LeaseStore/Invariant.antt =====
-- The invariant of the lease store and its handles, over every history.
use yukh_coordination.Base.{
  ℕ, ◌+◌, ◌≤◌, ◌<◌, ◌≡◌, refl, inl, inr, true, false, some, List, [], ◌∷◌, arith, nat_eq, text_eq,
  Text, lookup, insert, lookup-insert, ok, length, Option-cases,
}
use yukh_coordination.Time.{Time}
use yukh_coordination.Coordination.{LeaseValue, LeaseResumeValue, NonceValue}
use yukh_coordination.LeaseStore.{
  Store, LeaseRecord, Lease, u64_mod, next_revision, reopened, new, consume,
}
use yukh_coordination.LeaseStore.World.{
  World, Call, consumes, acquires, resumes, renews, releases, keep, perform, run,
}
use yukh_coordination.LeaseStore.Cases.{acquire_cases, resume_cases, renew_cases, release_cases}

-- What a handle and the record of its key have to do with one another.
pub record Agree (h : Lease) (r : LeaseRecord) : Type 0 where
  pub holder : h.holder ≡ r.holder
  pub expires : h.expires ≡ r.expires
  pub released : h.released ≡ r.released

-- No token exceeds the revision, and a handle that carries its key's revision agrees with it.
pub record Inv (w : World) : Type 0 where
  pub records :
      (k : Text) (r : LeaseRecord)
      → lookup k w.store.leases ≡ some r
      → r.revision ≤ w.store.revision
  pub handles : (i : ℕ) (h : Lease) → lookup i w.handles ≡ some h → h.revision ≤ w.store.revision
  pub agree :
      (i : ℕ) (h : Lease) (r : LeaseRecord)
      → lookup i w.handles ≡ some h
      → lookup h.key w.store.leases ≡ some r
      → r.revision ≡ h.revision
      → Agree h r

consume-Inv :
    (w : World) (key : Text) (v : NonceValue) (now : Time)
    → Inv w
    → Inv (perform w (consumes key v now))
unfolding perform consume
consume-Inv w key v now inv = record {
  records = λ k r. ground (arith, inv.records k r);
  handles = λ i h. ground (arith, inv.handles i h);
  agree = λ i h r. ground (arith, inv.agree i h r);
}

-- The part of the invariant that a fresh record at `key` and a handle that agrees with it keep.
module _ (w : World) (inv : Inv w) (n : ℕ) (above : w.store.revision < n) (at : ℕ) (h0 : Lease)
    (r0 : LeaseRecord) (hrev : h0.revision ≡ n) (rrev : r0.revision ≡ n)
    (agrees : Agree h0 r0) where
  grown : World
  grown = record {
    store = record (w.store) { revision = n; leases = insert h0.key r0 w.store.leases };
    handles = insert at h0 w.handles;
  }

  grown-Inv : Inv grown
  unfolding grown
  grown-Inv = record {
    records = λ k r. ground (arith, lookup-insert h0.key k r0 w.store.leases, inv.records k r);
    handles = λ i h. ground (arith, lookup-insert at i h0 w.handles, inv.handles i h);
    agree = λ i h r. ground (
      arith,
      lookup-insert at i h0 w.handles,
      lookup-insert h0.key h.key r0 w.store.leases,
      inv.agree i h r,
      inv.handles i h,
    );
  }

next_lt : (s : Store) → s.revision + 1 < u64_mod → s.revision < next_revision s
next_lt s fits = omega arith

acquire-Inv :
    (w : World) (at : ℕ) (key : Text) (v : LeaseValue) (now later : Time)
    → w.store.revision + 1 < u64_mod
    → Inv w
    → Inv (perform w (acquires at key v now later))
unfolding perform grown
acquire-Inv w at key v now later fits inv =
    acquire_cases (λ p. Inv (record { store = p.0; handles = keep at p.1 w.handles })) w.store key v
      now later (λ e. inv)
      (λ _ _.
        grown-Inv w inv (next_revision w.store) (next_lt w.store fits) at _ _ refl refl
          (record { holder = refl; expires = refl; released = refl }))

-- A second handle on a record that is not released.
handle-Inv :
    (w : World) (inv : Inv w) (at : ℕ) (key : Text) (r : LeaseRecord)
    → lookup key w.store.leases ≡ some r
    → r.released ≡ false
    → Inv (record w { handles = insert at (reopened key r) w.handles })
handle-Inv w inv at key r found free = record {
  records = inv.records;
  handles = λ i h.
      ground
        (arith, lookup-insert at i (reopened key r) w.handles, inv.handles i h, inv.records key r);
  agree = λ i h r'. ground (arith, lookup-insert at i (reopened key r) w.handles, inv.agree i h r');
}

resume-Inv :
    (w : World) (at : ℕ) (key : Text) (v : LeaseResumeValue) (now : Time)
    → Inv w
    → Inv (perform w (resumes at key v now))
unfolding perform
resume-Inv w at key v now inv =
    resume_cases (λ p. Inv (record w { handles = keep at p w.handles })) w.store key v now
      (λ e. inv) (λ r found m. handle-Inv w inv at key r found (ground arith))

-- A refused call writes the handle back as it was.
same-Inv :
    (w : World) (at : ℕ) (h : Lease)
    → Inv w
    → lookup at w.handles ≡ some h
    → Inv (record w { handles = insert at h w.handles })
same-Inv w at h inv found = record {
  records = inv.records;
  handles = λ i h'. ground (arith, lookup-insert at i h w.handles, inv.handles i h');
  agree = λ i h' r. ground (arith, lookup-insert at i h w.handles, inv.agree i h' r);
}

renew-Inv :
    (w : World) (at : ℕ) (expires now : Time)
    → w.store.revision + 1 < u64_mod
    → Inv w
    → Inv (perform w (renews at expires now))
unfolding perform grown
renew-Inv w at expires now fits inv = elim (Option-cases (lookup at w.handles)) [
  | inl a ↦ rw (a, perform) inv
  | inr (h, a) ↦
      rw (a, perform)
        (renew_cases (λ p. Inv (record { store = p.0; handles = insert at p.1 w.handles })) w.store
          h expires now (same-Inv w at h inv a)
          (λ open_ _ _.
            grown-Inv w inv (next_revision w.store) (next_lt w.store fits) at _ _ refl refl
              (record { holder = refl; expires = refl; released = open_ })))
]

release-Inv :
    (w : World) (at : ℕ) → w.store.revision + 1 < u64_mod → Inv w → Inv (perform w (releases at))
unfolding perform grown
release-Inv w at fits inv = elim (Option-cases (lookup at w.handles)) [
  | inl a ↦ rw (a, perform) inv
  | inr (h, a) ↦
      rw (a, perform)
        (release_cases (λ p. Inv (record { store = p.0; handles = insert at p.1 w.handles }))
          w.store h (same-Inv w at h inv a)
          (λ r found _ same.
            let old = inv.agree at h r a found same in
            grown-Inv w inv (next_revision w.store) (next_lt w.store fits) at _ _ refl refl
              (record { holder = old.holder; expires = old.expires; released = refl })))
]

-- One call moves the revision by one at most, and never down.
perform-revision :
    (w : World) (c : Call)
    → w.store.revision + 1 < u64_mod
    → ((perform w c).store.revision ≤ w.store.revision + 1)
      × (w.store.revision ≤ (perform w c).store.revision)
unfolding perform consume
perform-revision w (consumes key v now) fits = ground arith
perform-revision w (acquires at key v now later) fits =
    acquire_cases (λ p. (p.0.revision ≤ w.store.revision + 1) × (w.store.revision ≤ p.0.revision))
      w.store key v now later (λ e. omega arith) (λ _ _. omega arith)
perform-revision w (resumes at key v now) fits = omega arith
perform-revision w (renews at expires now) fits = elim (Option-cases (lookup at w.handles)) [
  | inl a ↦ rw (a, perform) (omega arith)
  | inr (h, a) ↦
      rw (a, perform)
        (renew_cases
          (λ p. (p.0.revision ≤ w.store.revision + 1) × (w.store.revision ≤ p.0.revision)) w.store h
          expires now (omega arith) (λ _ _ _. omega arith))
]
perform-revision w (releases at) fits = elim (Option-cases (lookup at w.handles)) [
  | inl a ↦ rw (a, perform) (omega arith)
  | inr (h, a) ↦
      rw (a, perform)
        (release_cases
          (λ p. (p.0.revision ≤ w.store.revision + 1) × (w.store.revision ≤ p.0.revision)) w.store h
          (omega arith) (λ _ _ _ _. omega arith))
]

perform-Inv : (w : World) (c : Call) → w.store.revision + 1 < u64_mod → Inv w → Inv (perform w c)
perform-Inv w (consumes key v now) fits inv = consume-Inv w key v now inv
perform-Inv w (acquires at key v now later) fits inv = acquire-Inv w at key v now later fits inv
perform-Inv w (resumes at key v now) fits inv = resume-Inv w at key v now inv
perform-Inv w (renews at expires now) fits inv = renew-Inv w at expires now fits inv
perform-Inv w (releases at) fits inv = release-Inv w at fits inv

-- The invariant holds after every history that cannot use up the 64-bit revision.
pub run-Inv :
    (w : World) (cs : List Call)
    → w.store.revision + length cs < u64_mod
    → Inv w
    → Inv (run w cs) × ((run w cs).store.revision ≤ w.store.revision + length cs)
unfolding run
run-Inv w [] fits inv = (inv, omega arith)
run-Inv w (c ∷ cs) fits inv =
    let moved = perform-revision w c (omega arith) in
    let (kept, low) = run-Inv (perform w c) cs (omega arith) (perform-Inv w c (omega arith) inv) in
    (kept, omega arith)

-- The world of a store that was just made.
abbrev pub fresh : Store → World
fresh s = record { store = s; handles = [] }

pub fresh-Inv :
    (max epoch : ℕ) (s : Store) → new max epoch true ≡ ok s → Inv (fresh s) × (s.revision ≡ 0)
unfolding new lookup
fresh-Inv max epoch s e = (
  record { records = λ k r. ground arith; handles = λ i h f. cc; agree = λ i h r f. cc },
  ground arith,
)
