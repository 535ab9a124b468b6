-- ===== src/Budget/Invariant.antt =====
-- What holds of every principal's entries after every history of calls.
use yukh_coordination.Base.{
  ℕ, ◌<◌, ◌≡◌, refl, true, false, not, some, List, [], ◌∷◌, ◌++◌, arith, nat_eq, text_eq, Text,
  length, length-append, set, get_elem?, length-set, lookup, ok, err,
}
use yukh_coordination.Time.{Time}
use yukh_coordination.Coordination.{Error}
use yukh_coordination.Budget.{
  BudgetEntry, CapabilityBudget, remove_at, holds_token, entries_of, live, write, prune,
  pending_until, reserve_among, replace_at, new, reserve, commit, cancel, replace, retire, Call,
  reserves, commits, cancels, retires, replaces, perform, run,
}
use yukh_coordination.Budget.Entries.{
  Fits, remove_at-All, set-All, snoc-All, length-remove_at, remove_at-Distinct, holds_token-Lacks,
  snoc-Distinct, set-Distinct, set-Distinct_same,
}
use yukh_coordination.Budget.Kept.{
  IsBounded, Inv, write-Inv, live-IsBounded, prune-Inv, find_cases, if-Inv,
}

-- Writing back a list that is still bounded, after the prune.
module _ (limit : ℕ) (b : CapabilityBudget) (p : Text) (now : Time) (inv : Inv limit b) where
  update-Inv : (es : List BudgetEntry) → IsBounded limit es → Inv limit (write (prune b p now) p es)
  unfolding prune
  update-Inv es h = write-Inv limit (prune b p now) p es (prune-Inv limit b p now inv) h

  removed : (i : ℕ) → IsBounded limit (remove_at i (live b p now))
  removed i =
      let h = live-IsBounded limit b p now inv in
      record {
        bounded = omega (arith, length-remove_at i (live b p now), h.bounded);
        distinct = remove_at-Distinct i _ h.distinct;
        fits = remove_at-All Fits i _ h.fits;
      }

  activated :
      (i : ℕ) (e : BudgetEntry)
      → get_elem? (live b p now) i ≡ some e
      → IsBounded limit
          (set (live b p now) i (record e { active = true; expires = e.lease_expires }))
  activated i e at =
      let h = live-IsBounded limit b p now inv in
      record {
        bounded = omega (arith, length-set (live b p now) i _, h.bounded);
        distinct = set-Distinct_same i _ e _ at refl h.distinct;
        fits = set-All Fits i _ _ (omega arith, λ _. refl) h.fits;
      }

  replaced :
      (i : ℕ) (next : Text) (expires : Time)
      → holds_token next (live b p now) ≡ false
      → IsBounded limit (
          set
            (live b p now)
            i
            (record { token = next; expires = expires; lease_expires = expires; active = true }))
  replaced i next expires new_ =
      let h = live-IsBounded limit b p now inv in
      record {
        bounded = omega (arith, length-set (live b p now) i _, h.bounded);
        distinct = set-Distinct i _ _ (holds_token-Lacks next _ new_) h.distinct;
        fits = set-All Fits i _ _ (omega arith, λ _. refl) h.fits;
      }

  reserved :
      (token : Text) (expires stamped : Time)
      → holds_token token (live b p now) ≡ false
      → length (live b p now) < b.limit
      → IsBounded limit (
          live b p now
          ++ record {
            token = token;
            expires = pending_until b expires stamped;
            lease_expires = expires;
            active = false;
          }
            ∷ [])
  reserved token expires stamped new_ room =
      let h = live-IsBounded limit b p now inv in
      record {
        bounded = omega (arith, length-append {0} (live b p now), room, inv.0);
        distinct = snoc-Distinct _ _ (holds_token-Lacks token _ new_) h.distinct;
        fits = snoc-All Fits _ _ (ground arith, λ a. absurd (cc)) h.fits;
      }

  reserve_among-Inv :
      (token : Text) (expires stamped : Time)
      → Inv limit (reserve_among (prune b p now) p token expires stamped (live b p now)).0
  unfolding prune
  reserve_among-Inv token expires stamped =
      if-Inv limit _ _ _ (λ _. prune-Inv limit b p now inv)
        λ new_.
          if-Inv limit _ _ _ (λ _. prune-Inv limit b p now inv)
            λ room. update-Inv _ (reserved token expires stamped new_ (ground arith))

  commit-Inv : (token : Text) (epoch : ℕ) → Inv limit (commit b p token epoch now).0
  unfolding commit
  commit-Inv token epoch =
      find_cases (λ r. Inv limit r.0) b p token epoch now _ inv (λ _. prune-Inv limit b p now inv)
        λ i e at _.
          if-Inv limit _ _ _ (λ _. prune-Inv limit b p now inv)
            (λ _. update-Inv _ (activated i e at))

  cancel-Inv : (token : Text) (epoch : ℕ) → Inv limit (cancel b p token epoch now).0
  unfolding cancel
  cancel-Inv token epoch =
      find_cases (λ r. Inv limit r.0) b p token epoch now _ inv (λ _. prune-Inv limit b p now inv)
        λ i e at _.
          if-Inv limit _ _ _ (λ _. prune-Inv limit b p now inv) (λ _. update-Inv _ (removed i))

  retire-Inv : (token : Text) (epoch : ℕ) → Inv limit (retire b p token epoch now).0
  unfolding retire
  retire-Inv token epoch =
      find_cases (λ r. Inv limit r.0) b p token epoch now _ inv (λ _. prune-Inv limit b p now inv)
        λ i e at _.
          if-Inv limit _ _ _ (λ _. prune-Inv limit b p now inv) (λ _. update-Inv _ (removed i))

  replace_at-Inv :
      (next : Text) (expires checked : Time) (i : ℕ)
      → Inv limit (replace_at (prune b p now) p next expires checked i (live b p now)).0
  unfolding prune
  replace_at-Inv next expires checked i =
      if-Inv limit _ _ _ (λ _. prune-Inv limit b p now inv)
        λ new_.
          if-Inv limit _ _ _ (λ _. prune-Inv limit b p now inv)
            (λ _. update-Inv _ (replaced i next expires new_))

  replace-Inv :
      (old next : Text) (expires : Time) (epoch : ℕ) (checked : Time)
      → Inv limit (replace b p old next expires epoch now checked).0
  unfolding replace
  replace-Inv old next expires epoch checked =
      find_cases (λ r. Inv limit r.0) b p old epoch now _ inv (λ _. prune-Inv limit b p now inv)
        λ i e at _.
          if-Inv limit (not e.active) (prune b p now, err Error.conflict)
            (replace_at (prune b p now) p next expires checked i (live b p now))
            (λ _. prune-Inv limit b p now inv) (λ _. replace_at-Inv next expires checked i)

perform-Inv :
    (limit : ℕ) (b : CapabilityBudget) (c : Call) → Inv limit b → Inv limit (perform b c).0
unfolding perform reserve
perform-Inv limit b (reserves p token expires epoch t t' t'') inv =
    if-Inv limit _ _ _ (λ _. inv) (λ _. reserve_among-Inv limit b p t' inv token expires t'')
perform-Inv limit b (commits p token epoch t) inv = commit-Inv limit b p t inv token epoch
perform-Inv limit b (cancels p token epoch t) inv = cancel-Inv limit b p t inv token epoch
perform-Inv limit b (retires p token epoch t) inv = retire-Inv limit b p t inv token epoch
perform-Inv limit b (replaces p old next expires epoch t t') inv =
    replace-Inv limit b p t inv old next expires epoch t'

run-Inv : (limit : ℕ) (b : CapabilityBudget) (cs : List Call) → Inv limit b → Inv limit (run b cs)
unfolding run
run-Inv limit b [] inv = inv
run-Inv limit b (c ∷ cs) inv = run-Inv limit (perform b c).0 cs (perform-Inv limit b c inv)

-- After every history of calls on a new budget, every principal has at most `limit` entries, no
-- token twice, and no entry that outlives its lease; an active entry ends with its lease.
pub run-new-IsBounded :
    (limit ttl epoch : ℕ) (b : CapabilityBudget) (cs : List Call) (p : Text)
    → new limit ttl epoch true ≡ ok b
    → IsBounded limit (entries_of p (run b cs).entries)
unfolding new lookup
run-new-IsBounded limit ttl epoch b cs p made =
    (run-Inv limit b cs (ground arith, λ q. ground arith)).1 p
