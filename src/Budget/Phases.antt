-- ===== src/Budget/Phases.antt =====
-- Reserve, then Commit or Cancel; Retire at the end.
use yukh_coordination.Base.{
  ℕ, suc, ◌≡◌, ◌≢◌, refl, ◌∙◌, ap, inl, inr, true, false, List, [], ◌∷◌, ◌++◌, arith, Text, ok, err,
  if◌then◌else◌, Bool-cases, text_eq, nat_eq,
}
use yukh_coordination.Time.{Time, after}
use yukh_coordination.Coordination.{Error, is_digest}
use yukh_coordination.Budget.{
  CapabilityBudget, BudgetEntry, entries_of, keep_live, prune, live, locate, pending_until, reserve,
  commit, find,
}
use yukh_coordination.Budget.Entries.{Lacks, holds_token-Lacks}
use yukh_coordination.Budget.Kept.{entries_of-insert_self}

locate-skip_ok :
    (token : Text) (e x : BudgetEntry) (es : List BudgetEntry) (i : ℕ)
    → e.token ≢ token
    → locate token es ≡ ok (i, x)
    → locate token (e ∷ es) ≡ ok (suc i, x)
locate-skip_ok token e x es i other h = ground arith

locate-skip_err :
    (token : Text) (e : BudgetEntry) (es : List BudgetEntry)
    → e.token ≢ token
    → locate token es ≡ err Error.conflict
    → locate token (e ∷ es) ≡ err Error.conflict
locate-skip_err token e es other h = ground arith

-- Where no other entry has its token, the last entry is found while it is live, and only then.
locate-last_live :
    (now : Time) (x : BudgetEntry) (es : List BudgetEntry)
    → Lacks x.token es
    → after x.expires now ≡ true
    → (i : ℕ) × (locate x.token (keep_live now (es ++ x ∷ [])) ≡ ok (i, x))
locate-last_live now x [] l h = (0, ground arith)
locate-last_live now x (e ∷ es) l h = elim (Bool-cases (after e.expires now)) [
  | inl a ↦
      let (i, found) = locate-last_live now x es l.1 h in
      rw a (suc i, locate-skip_ok x.token e x _ i l.0 found)
  | inr a ↦ rw a (locate-last_live now x es l.1 h)
]

locate-last_gone :
    (now : Time) (x : BudgetEntry) (es : List BudgetEntry)
    → Lacks x.token es
    → after x.expires now ≡ false
    → locate x.token (keep_live now (es ++ x ∷ [])) ≡ err Error.conflict
locate-last_gone now x [] l h = ground arith
locate-last_gone now x (e ∷ es) l h = elim (Bool-cases (after e.expires now)) [
  | inl a ↦ rw a (locate-skip_err x.token e _ l.0 (locate-last_gone now x es l.1 h))
  | inr a ↦ rw a (locate-last_gone now x es l.1 h)
]

-- The entry that a successful Reserve appends.
abbrev pending_entry : CapabilityBudget → Text → Time → Time → BudgetEntry
pending_entry b token expires stamped = record {
  token = token;
  expires = pending_until b expires stamped;
  lease_expires = expires;
  active = false;
}

-- What a successful Reserve leaves behind.
reserved :
    (b b' : CapabilityBudget) (p token : Text) (expires : Time) (epoch : ℕ) (t t' t'' : Time)
    → reserve b p token expires epoch t t' t'' ≡ (b', ok tt)
    → (is_digest p ≡ true)
      × (epoch ≡ b'.epoch)
      × Lacks token (live b p t')
      × (entries_of p b'.entries ≡ live b p t' ++ pending_entry b token expires t'' ∷ [])
unfolding reserve
reserved b b' p token expires epoch t t' t'' done =
    let es = live b p t' in
    let x = pending_entry b token expires t'' in
    (
      ground arith,
      ground arith,
      holds_token-Lacks token es (ground arith),
      ground (arith, entries_of-insert_self p p (es ++ x ∷ []) (prune b p t').entries refl),
    )

module _ (b : CapabilityBudget) (p token : Text) (epoch : ℕ) (now : Time)
    (digest : is_digest p ≡ true) (same : epoch ≡ b.epoch) where
  commit_found :
      (i : ℕ) (e : BudgetEntry)
      → locate token (live b p now) ≡ ok (i, e)
      → e.active ≡ false
      → (commit b p token epoch now).1 ≡ ok tt
  unfolding commit find
  commit_found i e found pending = rw found (ground arith)

  commit_missing :
      locate token (live b p now) ≡ err Error.conflict
      → (commit b p token epoch now).1 ≡ err Error.conflict
  unfolding commit find
  commit_missing gone = rw gone (ground arith)

-- After a successful Reserve, the Commit of that token by the same principal in the same epoch succeeds
-- while the pending time runs, and reports a conflict from its end on.
pub commit-reserve :
    (b b' : CapabilityBudget) (p token : Text) (expires : Time) (epoch : ℕ) (t t' t'' now : Time)
    → reserve b p token expires epoch t t' t'' ≡ (b', ok tt)
    → (commit b' p token epoch now).1
      ≡ (if after (pending_until b expires t'') now then ok tt else err Error.conflict)
commit-reserve b b' p token expires epoch t t' t'' now done =
    let (digest, same, lacks, held) = reserved b b' p token expires epoch t t' t'' done in
    let es = live b p t' in
    let x = pending_entry b token expires t'' in
    let at = ap (λ l. locate token (keep_live now l)) held in
    elim (Bool-cases (after x.expires now)) [
      | inl a ↦
          let (i, found) = locate-last_live now x es lacks a in
          rw a (commit_found b' p token epoch now digest same i x (at ∙ found) refl)
      | inr a ↦
          rw a (
            commit_missing b' p token epoch now digest same
              (at ∙ locate-last_gone now x es lacks a))
    ]
