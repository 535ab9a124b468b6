-- ===== src/Budget/Kept.antt =====
-- internal/coordination/budget.go: what the pruning, the write and the search of a call keep.
use yukh_coordination.Base.{
  ℕ, ◌≤◌, ◌≡◌, ◌≢◌, refl, inl, inr, Bool, true, false, not, ◌||◌, some, List, sym, subst, Map,
  arith, ◌!=◌, nat_eq, text_eq, Text, All, length, get_elem?, insert, lookup-insert, Result, err,
  if◌then◌else◌, Bool-cases, Result-cases,
}
use yukh_coordination.Time.{Time}
use yukh_coordination.Coordination.{Error, is_digest}
use yukh_coordination.Budget.{
  BudgetEntry, CapabilityBudget, keep_live, locate, entries_of, live, write, prune, find, on_found,
}
use yukh_coordination.Budget.Entries.{
  Distinct, Fits, keep_live-All, length-keep_live, keep_live-Distinct, locate-found,
}

-- At most `limit` entries, no token twice, and every expiry in step with its lease.
pub record IsBounded (limit : ℕ) (es : List BudgetEntry) : Type 0 where
  pub bounded : length es ≤ limit
  pub distinct : Distinct es
  pub fits : All Fits es

abbrev pub Inv : ℕ → CapabilityBudget → Type 0
Inv limit b = (b.limit ≡ limit) × ((p : Text) → IsBounded limit (entries_of p b.entries))

keep_live-IsBounded :
    (limit : ℕ) (now : Time) (es : List BudgetEntry)
    → IsBounded limit es
    → IsBounded limit (keep_live now es)
keep_live-IsBounded limit now es h = record {
  bounded = omega (arith, length-keep_live now es, h.bounded);
  distinct = keep_live-Distinct now es h.distinct;
  fits = keep_live-All Fits now es h.fits;
}

pub entries_of-insert_self :
    (p q : Text) (es : List BudgetEntry) (m : Map Text (List BudgetEntry))
    → p ≡ q
    → entries_of q (insert p es m) ≡ es
entries_of-insert_self p q es m e = ground (arith, lookup-insert p q es m)

pub entries_of-insert_ne :
    (p q : Text) (es : List BudgetEntry) (m : Map Text (List BudgetEntry))
    → p ≢ q
    → entries_of q (insert p es m) ≡ entries_of q m
entries_of-insert_ne p q es m e = ground (arith, lookup-insert p q es m)

pub write-Inv :
    (limit : ℕ) (b : CapabilityBudget) (p : Text) (es : List BudgetEntry)
    → Inv limit b
    → IsBounded limit es
    → Inv limit (write b p es)
write-Inv limit b p es inv h = (
  inv.0,
  λ q. elim (text_eq.dec p q) [
    | yes e ↦ subst (IsBounded limit) (sym (entries_of-insert_self p q es b.entries e)) h
    | no e ↦ subst (IsBounded limit) (sym (entries_of-insert_ne p q es b.entries e)) (inv.1 q)
  ],
)

pub live-IsBounded :
    (limit : ℕ) (b : CapabilityBudget) (p : Text) (now : Time)
    → Inv limit b
    → IsBounded limit (live b p now)
live-IsBounded limit b p now inv = keep_live-IsBounded limit now _ (inv.1 p)

pub prune-Inv :
    (limit : ℕ) (b : CapabilityBudget) (p : Text) (now : Time)
    → Inv limit b
    → Inv limit (prune b p now)
unfolding prune
prune-Inv limit b p now inv = write-Inv limit b p _ inv (live-IsBounded limit b p now inv)

-- How a call that starts with `find` ends.
pub find_cases {ℓ} :
    (P : CapabilityBudget × Result Error (Unit {0}) → Type ℓ) (b : CapabilityBudget)
    (p token : Text) (epoch : ℕ) (now : Time)
    (act : CapabilityBudget → ℕ → BudgetEntry → CapabilityBudget × Result Error (Unit {0}))
    → P (b, err Error.invalid_argument)
    → ((e : Error) → P (prune b p now, err e))
    → ((i : ℕ) (e : BudgetEntry)
        → get_elem? (live b p now) i ≡ some e
        → e.token ≡ token
        → P (act (prune b p now) i e))
    → P (on_found (find b p token epoch now) act)
unfolding find
find_cases P b p token epoch now act refused missing found =
    elim (Bool-cases (not (is_digest p) || epoch != b.epoch)) [
      | inl a ↦ rw a refused
      | inr a ↦ elim (Result-cases (locate token (live b p now))) [
        | inl (e, c) ↦ rw (a, c) (missing e)
        | inr ((i, e), c) ↦
            let (at, same) = locate-found token (live b p now) i e c in
            rw (a, c) (found i e at same)
      ]
    ]

pub if-Inv :
    (limit : ℕ) (c : Bool) (x y : CapabilityBudget × Result Error (Unit {0}))
    → (c ≡ true → Inv limit x.0)
    → (c ≡ false → Inv limit y.0)
    → Inv limit (if c then x else y).0
if-Inv limit true x y h k = h refl
if-Inv limit false x y h k = k refl
