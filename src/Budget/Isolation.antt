-- ===== src/Budget/Isolation.antt =====
-- The entries of one principal under the calls for others.
use yukh_coordination.Base.{
  ℕ, ◌≡◌, ◌≢◌, refl, ◌∙◌, Bool, true, false, not, ◌||◌, List, [], ◌∷◌, Text, All, ok, err, Result,
  if◌then◌else◌, Bool-cases, inl, inr, leb, length, text_eq, insert,
}
use yukh_coordination.Time.{Time, after, is_utc, whole_millis}
use yukh_coordination.Coordination.{Error}
use yukh_coordination.Budget.{
  CapabilityBudget, BudgetEntry, entries_of, write, prune, live, reserve, reserve_among, commit,
  cancel, retire, replace, holds_token, replace_at, Call, reserves, commits, cancels, retires,
  replaces, perform, run,
}
use yukh_coordination.Budget.Kept.{find_cases, entries_of-insert_ne}

-- The principal that a call is for.
abbrev pub principal_of : Call → Text
principal_of (reserves p token expires epoch t t' t'') = p
principal_of (commits p token epoch t) = p
principal_of (cancels p token epoch t) = p
principal_of (retires p token epoch t) = p
principal_of (replaces p old next expires epoch t t') = p

-- The entries of `q` are those of `b`.
record Spares (q : Text) (b : CapabilityBudget) (r : CapabilityBudget × Result Error (Unit {0}))
    : Type 0 where
  same : entries_of q r.0.entries ≡ entries_of q b.entries

module _ (q p : Text) (b : CapabilityBudget) (now : Time) (other : p ≢ q) where
  prune-same : entries_of q (prune b p now).entries ≡ entries_of q b.entries
  unfolding prune
  prune-same = entries_of-insert_ne p q _ b.entries other

  write-same :
      (es : List BudgetEntry)
      → entries_of q (insert p es (prune b p now).entries) ≡ entries_of q b.entries
  write-same es = entries_of-insert_ne p q es _ other ∙ prune-same

  choose :
      (c : Bool) (x y : CapabilityBudget × Result Error (Unit {0}))
      → Spares q b x
      → Spares q b y
      → Spares q b (if c then x else y)
  choose true x y h k = h
  choose false x y h k = k

  pruned : (e : Error) → Spares q b (prune b p now, err e)
  pruned e = record { same = prune-same }

  written : (es : List BudgetEntry) → Spares q b (write (prune b p now) p es, ok tt)
  written es = record { same = write-same es }

unchanged : (q : Text) (b : CapabilityBudget) (e : Error) → Spares q b (b, err e)
unchanged q b e = record { same = refl }

reserve_among-Spares :
    (q p : Text) (b : CapabilityBudget) (token : Text) (expires t t' : Time)
    → p ≢ q
    → Spares q b (reserve_among (prune b p t) p token expires t' (live b p t))
reserve_among-Spares q p b token expires t t' o =
    elim (Bool-cases (holds_token token (live b p t))) [
      | inl a ↦ rw (a, reserve_among) (pruned q p b t o _)
      | inr a ↦ elim (Bool-cases (leb (prune b p t).limit (length (live b p t)))) [
        | inl c ↦ rw (a, c, reserve_among) (pruned q p b t o _)
        | inr c ↦ rw (a, c, reserve_among) (written q p b t o _)
      ]
    ]

replace_at-Spares :
    (q p : Text) (b : CapabilityBudget) (next : Text) (expires t t' : Time) (i : ℕ)
    → p ≢ q
    → Spares q b (replace_at (prune b p t) p next expires t' i (live b p t))
replace_at-Spares q p b next expires t t' i o = elim (Bool-cases (holds_token next (live b p t))) [
  | inl a ↦ rw (a, replace_at) (pruned q p b t o _)
  | inr a ↦
      elim (Bool-cases
        (not (after expires t') || not (is_utc expires) || not (whole_millis expires))) [
          | inl c ↦ rw (a, c, replace_at) (pruned q p b t o _)
          | inr c ↦ rw (a, c, replace_at) (written q p b t o _)
        ]
]

perform-Spares :
    (q : Text) (b : CapabilityBudget) (c : Call) → principal_of c ≢ q → Spares q b (perform b c)
unfolding perform reserve commit cancel retire replace
perform-Spares q b (reserves p token expires epoch t t' t'') o =
    choose q p b t' o _ _ _ (unchanged q b _) (reserve_among-Spares q p b token expires t' t'' o)
perform-Spares q b (commits p token epoch t) o =
    find_cases (Spares q b) b p token epoch t _ (unchanged q b _) (pruned q p b t o)
      λ i e _ _. choose q p b t o _ _ _ (pruned q p b t o _) (written q p b t o _)
perform-Spares q b (cancels p token epoch t) o =
    find_cases (Spares q b) b p token epoch t _ (unchanged q b _) (pruned q p b t o)
      λ i e _ _. choose q p b t o _ _ _ (pruned q p b t o _) (written q p b t o _)
perform-Spares q b (retires p token epoch t) o =
    find_cases (Spares q b) b p token epoch t _ (unchanged q b _) (pruned q p b t o)
      λ i e _ _. choose q p b t o _ _ _ (pruned q p b t o _) (written q p b t o _)
perform-Spares q b (replaces p old next expires epoch t t') o =
    find_cases (Spares q b) b p old epoch t _ (unchanged q b _) (pruned q p b t o) λ i e _ _.
      choose q p b t o (not e.active) (prune b p t, err Error.conflict)
        (replace_at (prune b p t) p next expires t' i (live b p t)) (pruned q p b t o _)
        (replace_at-Spares q p b next expires t t' i o)

-- Calls for other principals, however many, leave a principal's entries as they are.
pub run-isolates :
    (q : Text) (b : CapabilityBudget) (cs : List Call)
    → All (λ c. principal_of c ≢ q) cs
    → entries_of q (run b cs).entries ≡ entries_of q b.entries
unfolding run
run-isolates q b [] h = refl
run-isolates q b (c ∷ cs) h =
    run-isolates q (perform b c).0 cs h.1 ∙ (perform-Spares q b c h.0).same
