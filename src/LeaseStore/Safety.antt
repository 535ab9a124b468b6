-- ===== src/LeaseStore/Safety.antt =====
-- Mutual exclusion and fencing of leases, over every history.
use yukh_coordination.Base.{
  ℕ, ◌+◌, ◌≤◌, ◌<◌, ◌≡◌, refl, inl, inr, true, false, some, List, arith, Text, lookup,
  lookup-insert, nat_eq, text_eq, ok, err, length, sym, ap, ◌∙◌, Option-cases,
}
use yukh_coordination.Time.{Time}
use yukh_coordination.Coordination.{Error, LeaseValue}
use yukh_coordination.LeaseStore.{
  Store, Lease, LeaseRecord, u64_mod, new_record, granted, new, acquire, renew, release,
  is_valid_lease,
}
use yukh_coordination.LeaseStore.World.{Call, run}
use yukh_coordination.LeaseStore.Cases.{acquire_cases, renew_cases, release_cases}
use yukh_coordination.LeaseStore.Invariant.{Inv, run-Inv, fresh, fresh-Inv}

reach-Inv :
    (max epoch : ℕ) (s : Store) (cs : List Call)
    → new max epoch true ≡ ok s
    → length cs < u64_mod
    → Inv (run (fresh s) cs) × ((run (fresh s) cs).store.revision ≤ length cs)
reach-Inv max epoch s cs made fits =
    let (inv, start) = fresh-Inv max epoch s made in
    let (kept, low) = run-Inv (fresh s) cs (omega arith) inv in (kept, omega arith)

valid-record :
    (s : Store) (h : Lease) (now : Time)
    → is_valid_lease s h now ≡ true
    → (r : LeaseRecord) × (lookup h.key s.leases ≡ some r) × (r.revision ≡ h.revision)
unfolding is_valid_lease
valid-record s h now ok_ = elim (Option-cases (lookup h.key s.leases)) [
  | inl a ↦ absurd (ground arith)
  | inr (r, a) ↦ (r, a, ground arith)
]

-- After every history of fewer than 2^64 calls on a new store, two handles on one key that are both
-- valid have the same holder, the same expiry and the same fencing token.
pub valid_leases_agree :
    (max epoch : ℕ) (s : Store) (cs : List Call) (i j : ℕ) (h h' : Lease) (now : Time)
    → new max epoch true ≡ ok s
    → length cs < u64_mod
    → lookup i (run (fresh s) cs).handles ≡ some h
    → lookup j (run (fresh s) cs).handles ≡ some h'
    → h.key ≡ h'.key
    → is_valid_lease (run (fresh s) cs).store h now ≡ true
    → is_valid_lease (run (fresh s) cs).store h' now ≡ true
    → (h.holder ≡ h'.holder) × (h.expires ≡ h'.expires) × (h.revision ≡ h'.revision)
valid_leases_agree max epoch s cs i j h h' now made fits at_i at_j same v v' =
    let (inv, _) = reach-Inv max epoch s cs made fits in
    let w = run (fresh s) cs in
    let (r, found, rev) = valid-record w.store h now v in
    let (r', found', rev') = valid-record w.store h' now v' in
    let one : some r ≡ some r' = sym found ∙ (ap (λ k. lookup k w.store.leases) same ∙ found') in
    ground (arith, one, inv.agree i h r at_i found rev, inv.agree j h' r' at_j found' rev')

-- What Acquire returns when it succeeds.
acquired :
    (s s' : Store) (key : Text) (v : LeaseValue) (now later : Time) (h : Lease)
    → acquire s key v now later ≡ (s', ok h)
    → granted s key v ≡ (s', ok h)
acquired s s' key v now later h =
    acquire_cases (λ p. p ≡ (s', ok h) → granted s key v ≡ (s', ok h)) s key v now later
      (λ e x. absurd (cc)) (λ _ _ x. x)

-- A token that Acquire returns, after every history of fewer than 2^64 - 1 calls on a new store, is
-- greater than the token of every handle that any client holds, on whatever key.
pub acquire_token_fresh :
    (max epoch : ℕ) (s s' : Store) (cs : List Call) (key : Text) (v : LeaseValue) (now later : Time)
    (h h' : Lease) (i : ℕ)
    → new max epoch true ≡ ok s
    → length cs + 1 < u64_mod
    → acquire (run (fresh s) cs).store key v now later ≡ (s', ok h)
    → lookup i (run (fresh s) cs).handles ≡ some h'
    → h'.revision < h.revision
acquire_token_fresh max epoch s s' cs key v now later h h' i made fits done at_i =
    let (inv, low) = reach-Inv max epoch s cs made (omega arith) in
    let w = run (fresh s) cs in
    ground (arith, acquired w.store s' key v now later h done, inv.handles i h' at_i)

-- A handle whose token is not that of its key's record can do nothing.
fenced :
    (s : Store) (h : Lease) (r : LeaseRecord) (expires t : Time)
    → lookup h.key s.leases ≡ some r
    → h.revision < r.revision
    → (is_valid_lease s h t ≡ false)
      × (renew s h expires t ≡ (s, h, err Error.conflict))
      × (release s h ≡ (s, h, err Error.conflict))
unfolding is_valid_lease
fenced s h r expires t found older = (
  rw (found, is_valid_lease) (ground arith),
  renew_cases (λ p. p ≡ (s, h, err Error.conflict)) s h expires t refl
      (λ _ _ current. absurd (ground arith)),
  release_cases (λ p. p ≡ (s, h, err Error.conflict)) s h refl
      (λ r' found' _ same. absurd (ground arith)),
)

-- After every history of fewer than 2^64 - 1 calls on a new store, once a key is acquired again, every
-- handle on it that was there before is fenced out: it is not valid at any time, and its Renew and
-- Release are refused and change nothing.
pub acquire_fences_out :
    (max epoch : ℕ) (s s' : Store) (cs : List Call) (key : Text) (v : LeaseValue) (now later : Time)
    (h h' : Lease) (i : ℕ) (expires t : Time)
    → new max epoch true ≡ ok s
    → length cs + 1 < u64_mod
    → acquire (run (fresh s) cs).store key v now later ≡ (s', ok h)
    → lookup i (run (fresh s) cs).handles ≡ some h'
    → h'.key ≡ key
    → (is_valid_lease s' h' t ≡ false)
      × (renew s' h' expires t ≡ (s', h', err Error.conflict))
      × (release s' h' ≡ (s', h', err Error.conflict))
acquire_fences_out max epoch s s' cs key v now later h h' i expires t made fits done at_i same =
    let w = run (fresh s) cs in
    let older = acquire_token_fresh max epoch s s' cs key v now later h h' i made fits done at_i in
    let done' = acquired w.store s' key v now later h done in
    let rec = lookup-insert key h'.key (new_record w.store v) w.store.leases in
    fenced s' h' (new_record w.store v) expires t (ground (arith, rec)) (ground arith)
