-- ===== src/Budget/Entries.antt =====
-- The entries of one principal: distinct tokens, and what pruning, writing and removing keep.
use yukh_coordination.Base.{
  ℕ, suc, zero, ◌≤◌, ◌≡◌, ◌≢◌, sym, subst, ◌∙◌, true, false, some, List, [], ◌∷◌, ◌++◌, arith,
  text_eq, Text, All, length, set, get_elem?, ok,
}
use yukh_coordination.Time.{Time}
use yukh_coordination.Budget.{BudgetEntry, keep_live, remove_at, holds_token, locate}

-- No entry of the list has the token.
abbrev pub Lacks : Text → List BudgetEntry → Type 0
Lacks token = All (λ e. e.token ≢ token)

abbrev pub Distinct : List BudgetEntry → Type 0
Distinct [] = Unit
Distinct (e ∷ es) = Lacks e.token es × Distinct es

-- An active entry lasts as long as its lease, and a pending one no longer than its lease.
abbrev pub Fits : BudgetEntry → Type 0
Fits e =
    (e.expires.instant ≤ e.lease_expires.instant) × (e.active ≡ true → e.expires ≡ e.lease_expires)

module _ {ℓ} (P : BudgetEntry → Type ℓ) where
  pub keep_live-All : (now : Time) (es : List BudgetEntry) → All P es → All P (keep_live now es)
  keep_live-All now [] h = h
  keep_live-All now (e ∷ es) h = ground (arith, keep_live-All now es h.1)

  pub remove_at-All : (i : ℕ) (es : List BudgetEntry) → All P es → All P (remove_at i es)
  remove_at-All i [] h = h
  remove_at-All zero (e ∷ es) h = h.1
  remove_at-All (suc i) (e ∷ es) h = (h.0, remove_at-All i es h.1)

  pub set-All :
      (i : ℕ) (x : BudgetEntry) (es : List BudgetEntry) → P x → All P es → All P (set es i x)
  set-All i x [] p h = h
  set-All zero x (e ∷ es) p h = (p, h.1)
  set-All (suc i) x (e ∷ es) p h = (h.0, set-All i x es p h.1)

  pub snoc-All : (x : BudgetEntry) (es : List BudgetEntry) → P x → All P es → All P (es ++ x ∷ [])
  snoc-All x [] p h = (p, h)
  snoc-All x (e ∷ es) p h = (h.0, snoc-All x es p h.1)

  pub get_elem?-All :
      (i : ℕ) (es : List BudgetEntry) (x : BudgetEntry) → get_elem? es i ≡ some x → All P es → P x
  get_elem?-All i [] x e h = absurd (cc)
  get_elem?-All zero (y ∷ es) x e h = ground (arith, h.0)
  get_elem?-All (suc i) (y ∷ es) x e h = get_elem?-All i es x e h.1

pub length-keep_live : (now : Time) (es : List BudgetEntry) → length (keep_live now es) ≤ length es
length-keep_live now [] = omega arith
length-keep_live now (e ∷ es) = ground (arith, length-keep_live now es)

pub length-remove_at : (i : ℕ) (es : List BudgetEntry) → length (remove_at i es) ≤ length es
length-remove_at i [] = omega arith
length-remove_at zero (e ∷ es) = omega arith
length-remove_at (suc i) (e ∷ es) = omega (arith, length-remove_at i es)

pub keep_live-Distinct :
    (now : Time) (es : List BudgetEntry) → Distinct es → Distinct (keep_live now es)
keep_live-Distinct now [] d = d
keep_live-Distinct now (e ∷ es) d =
    ground (arith, keep_live-Distinct now es d.1, keep_live-All (λ x. x.token ≢ e.token) now es d.0)

pub remove_at-Distinct : (i : ℕ) (es : List BudgetEntry) → Distinct es → Distinct (remove_at i es)
remove_at-Distinct i [] d = d
remove_at-Distinct zero (e ∷ es) d = d.1
remove_at-Distinct (suc i) (e ∷ es) d =
    (remove_at-All (λ x. x.token ≢ e.token) i es d.0, remove_at-Distinct i es d.1)

pub holds_token-Lacks :
    (token : Text) (es : List BudgetEntry) → holds_token token es ≡ false → Lacks token es
holds_token-Lacks token [] h = tt
holds_token-Lacks token (e ∷ es) h = ground (arith, holds_token-Lacks token es)

pub snoc-Distinct :
    (x : BudgetEntry) (es : List BudgetEntry)
    → Lacks x.token es
    → Distinct es
    → Distinct (es ++ x ∷ [])
snoc-Distinct x [] l d = (tt, tt)
snoc-Distinct x (e ∷ es) l d =
    (snoc-All (λ y. y.token ≢ e.token) x es (λ q. l.0 (sym q)) d.0, snoc-Distinct x es l.1 d.1)

-- A new token at one index, which no other entry has.
pub set-Distinct :
    (i : ℕ) (x : BudgetEntry) (es : List BudgetEntry)
    → Lacks x.token es
    → Distinct es
    → Distinct (set es i x)
set-Distinct i x [] l d = d
set-Distinct zero x (e ∷ es) l d = (l.1, d.1)
set-Distinct (suc i) x (e ∷ es) l d =
    (set-All (λ y. y.token ≢ e.token) i x es (λ q. l.0 (sym q)) d.0, set-Distinct i x es l.1 d.1)

-- The same token at its own index.
pub set-Distinct_same :
    (i : ℕ) (x y : BudgetEntry) (es : List BudgetEntry)
    → get_elem? es i ≡ some y
    → x.token ≡ y.token
    → Distinct es
    → Distinct (set es i x)
set-Distinct_same i x y [] g q d = d
set-Distinct_same zero x y (e ∷ es) g q d =
    let same : e.token ≡ x.token = ground arith in (subst (λ t. Lacks t es) same d.0, d.1)
set-Distinct_same (suc i) x y (e ∷ es) g q d = (
  set-All (λ z. z.token ≢ e.token) i x es
      (λ s. get_elem?-All (λ z. z.token ≢ e.token) i es y g d.0 (sym q ∙ s)) d.0,
  set-Distinct_same i x y es g q d.1,
)

-- The entry that `locate` returns stands at its index and has the token.
pub locate-found :
    (token : Text) (es : List BudgetEntry) (i : ℕ) (e : BudgetEntry)
    → locate token es ≡ ok (i, e)
    → (get_elem? es i ≡ some e) × (e.token ≡ token)
locate-found token [] i e h = absurd (cc)
locate-found token (x ∷ es) zero e h = ground (arith, locate-found token es zero e)
locate-found token (x ∷ es) (suc i) e h = ground (arith, locate-found token es i e)
