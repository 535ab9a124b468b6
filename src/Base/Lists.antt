-- ===== src/Base/Lists.antt =====
-- Lists measured and indexed by native numbers, under the library's names.
use Prim.Native.Nat.{ℕ, zero, suc, ◌+◌, ◌-◌, ◌≤◌, min}
use mathlib.Core.Path.{◌≡◌, refl, ap, sym, ◌∙◌}
use mathlib.Core.Logic.{◌≢◌, ◌⊎◌, inl, inr}
use mathlib.Core.Bool.{Bool, true, ◌&&◌}
use mathlib.Core.List.{List, [], ◌∷◌, ◌++◌}
use mathlib.Core.Option.{Option, none, some}
use native.Mathlib.Omega.{arith}

module _ {ℓ} {A : Type ℓ} where
  abbrev pub length : List A → ℕ
  length [] = 0
  length (x ∷ xs) = suc (length xs)

  abbrev pub get_elem? : List A → ℕ → Option A
  get_elem? [] i = none
  get_elem? (x ∷ xs) zero = some x
  get_elem? (x ∷ xs) (suc i) = get_elem? xs i

  abbrev pub take : ℕ → List A → List A
  take zero xs = []
  take (suc n) [] = []
  take (suc n) (x ∷ xs) = x ∷ take n xs

  abbrev pub drop : ℕ → List A → List A
  drop zero xs = xs
  drop (suc n) [] = []
  drop (suc n) (x ∷ xs) = drop n xs

  abbrev pub replicate : ℕ → A → List A
  replicate zero a = []
  replicate (suc n) a = a ∷ replicate n a

  abbrev pub set : List A → ℕ → A → List A
  set [] i v = []
  set (x ∷ xs) zero v = v ∷ xs
  set (x ∷ xs) (suc i) v = x ∷ set xs i v

  abbrev pub all : (A → Bool) → List A → Bool
  all p [] = true
  all p (x ∷ xs) = p x && all p xs

  abbrev pub All {κ} : (A → Type κ) → List A → Type κ
  All P [] = Unit
  All P (x ∷ xs) = P x × All P xs

  pub length-append : (xs ys : List A) → length (xs ++ ys) ≡ length xs + length ys
  length-append [] ys = omega arith
  length-append (x ∷ xs) ys = omega (arith, length-append xs ys)

  pub take-append-drop : (n : ℕ) (xs : List A) → take n xs ++ drop n xs ≡ xs
  take-append-drop zero xs = refl
  take-append-drop (suc n) [] = refl
  take-append-drop (suc n) (x ∷ xs) = rw (take-append-drop n xs)

  pub length-take : (n : ℕ) (xs : List A) → length (take n xs) ≡ min n (length xs)
  length-take zero xs = omega arith
  length-take (suc n) [] = omega arith
  length-take (suc n) (x ∷ xs) = omega (arith, length-take n xs)

  pub length-drop : (n : ℕ) (xs : List A) → length (drop n xs) ≡ length xs - n
  length-drop zero xs = omega arith
  length-drop (suc n) [] = omega arith
  length-drop (suc n) (x ∷ xs) = omega (arith, length-drop n xs)

  pub length-set : (xs : List A) (i : ℕ) (v : A) → length (set xs i v) ≡ length xs
  length-set [] i v = refl
  length-set (x ∷ xs) zero v = refl
  length-set (x ∷ xs) (suc i) v = ap suc (length-set xs i v)

  pub take_at : (l : List A) (n m : ℕ) → n ≡ m → take n l ≡ take m l
  take_at l n m h = ap (λ k. take k l) h

  pub drop_at : (l : List A) (n m : ℕ) → n ≡ m → drop n l ≡ drop m l
  drop_at l n m h = ap (λ k. drop k l) h

  pub take-all : (n : ℕ) (l : List A) → length l ≤ n → take n l ≡ l
  take-all zero [] h = refl
  take-all zero (x ∷ l) h = absurd (omega arith)
  take-all (suc n) [] h = refl
  take-all (suc n) (x ∷ l) h = ap (λ r. x ∷ r) (take-all n l (omega arith))

  pub drop-all : (n : ℕ) (l : List A) → length l ≤ n → drop n l ≡ []
  drop-all zero [] h = refl
  drop-all zero (x ∷ l) h = absurd (omega arith)
  drop-all (suc n) [] h = refl
  drop-all (suc n) (x ∷ l) h = drop-all n l (omega arith)

  pub drop-add : (n m : ℕ) (l : List A) → drop (n + m) l ≡ drop m (drop n l)
  drop-add zero m l = ap (λ k. drop k l) (omega arith)
  drop-add (suc n) m [] = drop-all (suc n + m) [] (omega arith) ∙ sym (drop-all m [] (omega arith))
  drop-add (suc n) m (x ∷ l) =
      drop_at (x ∷ l) (suc n + m) (suc (n + m)) (omega arith) ∙ drop-add n m l

  module _ {κ} (P : A → Type κ) where
    pub All-append : (xs ys : List A) → All P xs → All P ys → All P (xs ++ ys)
    All-append [] ys h k = k
    All-append (x ∷ xs) ys h k = (h.0, All-append xs ys h.1 k)

    pub All-take : (n : ℕ) (xs : List A) → All P xs → All P (take n xs)
    All-take zero xs h = tt
    All-take (suc n) [] h = tt
    All-take (suc n) (x ∷ xs) h = (h.0, All-take n xs h.1)

    pub All-drop : (n : ℕ) (xs : List A) → All P xs → All P (drop n xs)
    All-drop zero xs h = h
    All-drop (suc n) [] h = tt
    All-drop (suc n) (x ∷ xs) h = All-drop n xs h.1

  pub take-take : (n m : ℕ) (l : List A) → n ≤ m → take n (take m l) ≡ take n l
  take-take zero m l h = refl
  take-take (suc n) zero l h = absurd (omega arith)
  take-take (suc n) (suc m) [] h = refl
  take-take (suc n) (suc m) (x ∷ l) h = ap (λ r. x ∷ r) (take-take n m l (omega arith))

  pub drop-take : (n m : ℕ) (l : List A) → drop n (take m l) ≡ take (m - n) (drop n l)
  drop-take zero m l = take_at l m (m - 0) (omega arith)
  drop-take (suc n) zero l = take_at (drop (suc n) l) 0 (0 - suc n) (omega arith)
  drop-take (suc n) (suc m) [] = sym (take-all (suc m - suc n) [] (omega arith))
  drop-take (suc n) (suc m) (x ∷ l) =
      drop-take n m l ∙ take_at (drop n l) (m - n) (suc m - suc n) (omega arith)

  pub take-add : (n m : ℕ) (l : List A) → take (n + m) l ≡ take n l ++ take m (drop n l)
  take-add zero m l = ap (λ k. take k l) (omega arith)
  take-add (suc n) m [] = take-all (suc n + m) [] (omega arith) ∙ sym (take-all m [] (omega arith))
  take-add (suc n) m (x ∷ l) =
      take_at (x ∷ l) (suc n + m) (suc (n + m)) (omega arith) ∙ ap (λ r. x ∷ r) (take-add n m l)

  pub take-min : (n : ℕ) (l : List A) → take (min n (length l)) l ≡ take n l
  take-min zero l = take_at l (min 0 (length l)) 0 (omega arith)
  take-min (suc n) [] = take_at [] (min (suc n) 0) 0 (omega arith)
  take-min (suc n) (x ∷ l) =
      take_at (x ∷ l) (min (suc n) (suc (length l))) (suc (min n (length l))) (omega arith)
      ∙ ap (λ r. x ∷ r) (take-min n l)

  pub drop-length : (l m : List A) → drop (length l) (l ++ m) ≡ m
  drop-length [] m = refl
  drop-length (x ∷ l) m = drop-length l m

-- Reads at an index after a write.
pub get_elem?-snoc {ℓ} :
    {A : Type ℓ} (l : List A) (x : A) (i : ℕ) (y : A)
    → get_elem? (l ++ x ∷ []) i ≡ some y
    → (get_elem? l i ≡ some y) ⊎ ((i ≡ length l) × (y ≡ x))
get_elem?-snoc [] x zero y e = inr (refl, ground arith)
get_elem?-snoc [] x (suc i) y e = absurd (cc)
get_elem?-snoc (z ∷ l) x zero y e = inl e
get_elem?-snoc (z ∷ l) x (suc i) y e = elim (get_elem?-snoc l x i y e) [
  | inl h ↦ inl h
  | inr (h, k) ↦ inr (omega arith, k)
]

pub get_elem?-append_left {ℓ} :
    {A : Type ℓ} (l r : List A) (i : ℕ) (y : A)
    → get_elem? l i ≡ some y
    → get_elem? (l ++ r) i ≡ some y
get_elem?-append_left [] r i y e = absurd (cc)
get_elem?-append_left (z ∷ l) r zero y e = e
get_elem?-append_left (z ∷ l) r (suc i) y e = get_elem?-append_left l r i y e

pub get_elem?-last {ℓ} :
    {A : Type ℓ} (l : List A) (x : A) → get_elem? (l ++ x ∷ []) (length l) ≡ some x
get_elem?-last [] x = refl
get_elem?-last (z ∷ l) x = get_elem?-last l x

-- A read after a write at an index in range.
pub get_elem?-set {ℓ} :
    {A : Type ℓ} (l : List A) (x y z : A) (i j : ℕ)
    → get_elem? l i ≡ some z
    → get_elem? (set l i x) j ≡ some y
    → ((j ≡ i) × (y ≡ x)) ⊎ ((j ≢ i) × (get_elem? l j ≡ some y))
get_elem?-set [] x y z i j g e = absurd (cc)
get_elem?-set (w ∷ l) x y z zero zero g e = inl (refl, ground arith)
get_elem?-set (w ∷ l) x y z zero (suc j) g e = inr (omega arith, e)
get_elem?-set (w ∷ l) x y z (suc i) zero g e = inr (omega arith, e)
get_elem?-set (w ∷ l) x y z (suc i) (suc j) g e = elim (get_elem?-set l x y z i j g e) [
  | inl (h, k) ↦ inl (omega arith, k)
  | inr (h, k) ↦ inr (omega arith, k)
]

pub get_elem?-set_self {ℓ} :
    {A : Type ℓ} (l : List A) (x z : A) (i : ℕ)
    → get_elem? l i ≡ some z
    → get_elem? (set l i x) i ≡ some x
get_elem?-set_self [] x z i g = absurd (cc)
get_elem?-set_self (w ∷ l) x z zero g = refl
get_elem?-set_self (w ∷ l) x z (suc i) g = get_elem?-set_self l x z i g

pub get_elem?-set_ne {ℓ} :
    {A : Type ℓ} (l : List A) (x : A) (i j : ℕ) → i ≢ j → get_elem? (set l i x) j ≡ get_elem? l j
get_elem?-set_ne [] x i j h = refl
get_elem?-set_ne (w ∷ l) x zero zero h = absurd (h refl)
get_elem?-set_ne (w ∷ l) x zero (suc j) h = refl
get_elem?-set_ne (w ∷ l) x (suc i) zero h = refl
get_elem?-set_ne (w ∷ l) x (suc i) (suc j) h = get_elem?-set_ne l x i j (λ e. h (ap suc e))
