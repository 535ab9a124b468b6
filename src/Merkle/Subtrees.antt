-- ===== src/Merkle/Subtrees.antt =====
-- The verifying loop on the path through a complete subtree.
use mathlib.Core.List.{append_assoc}
use yukh_coordination.Base.{
  ℕ, zero, suc, ◌+◌, ◌-◌, ◌*◌, ◌/◌, ◌^◌, ◌≤◌, ◌<◌, ◌≡◌, refl, ap, sym, ◌∙◌, inl, inr, true, List,
  [], ◌∷◌, ◌++◌, arith, Option, some, Text, length, take, drop, get_elem?, Bool-cases, dec_lt, ◌==◌,
  nat_eq,
}
use yukh_coordination.Merkle.{
  largest_power_less_than, merkle_node_hash, merkle_root, path_within, inclusion_loop, shifted,
  combined, odd,
}
use yukh_coordination.Merkle.Powers.{
  largest_power-two_pow, two_pow_pos, two_pow-suc, shifted-two_pow, shifted-left, shifted-right,
  odd_multiple_pos,
}
use yukh_coordination.Merkle.Root.{
  half, length-left, length-right, merkle_root-split, path_within-left, path_within-right,
}

-- Reading in the two parts of a list.
pub get_elem?-take :
    (n i : ℕ) (l : List Text) (x : Text)
    → get_elem? l i ≡ some x
    → i < n
    → get_elem? (take n l) i ≡ some x
get_elem?-take zero i l x e h = absurd (omega arith)
get_elem?-take (suc n) i [] x e h = e
get_elem?-take (suc n) zero (y ∷ l) x e h = e
get_elem?-take (suc n) (suc i) (y ∷ l) x e h = get_elem?-take n i l x e (omega arith)

pub get_elem?-drop :
    (n i j : ℕ) (l : List Text) (x : Text)
    → get_elem? l i ≡ some x
    → i ≡ n + j
    → get_elem? (drop n l) j ≡ some x
get_elem?-drop zero i j l x e h = let same : i ≡ j = omega arith in rw same at e
get_elem?-drop (suc n) i j [] x e h = absurd (cc)
get_elem?-drop (suc n) zero j (y ∷ l) x e h = absurd (omega arith)
get_elem?-drop (suc n) (suc i) j (y ∷ l) x e h = get_elem?-drop n i j l x e (omega arith)

pub get_elem?-lt {ℓ} :
    {A : Type ℓ} (l : List A) (i : ℕ) (x : A) → get_elem? l i ≡ some x → i < length l
get_elem?-lt [] i x e = absurd (cc)
get_elem?-lt (y ∷ l) zero x e = omega arith
get_elem?-lt (y ∷ l) (suc i) x e = omega (arith, get_elem?-lt l i x e)

-- An index at the right edge, seen one level down.
pub halve :
    (m w e sn : ℕ)
    → e < 2 ^ suc m
    → sn ≡ w * 2 ^ suc m + e
    → (w' : ℕ) × (e' : ℕ) × (w' / 2 ≡ w) × (2 * w ≤ w') × (e' < 2 ^ m) × (sn ≡ w' * 2 ^ m + e')
halve m w e sn small se =
    let p = ap (λ (t : ℕ). w * t) (two_pow-suc m) in
    let d = two_pow-suc m in
    elim (dec_lt e (2 ^ m)) [
      | yes lt ↦ (2 * w, e, omega arith, omega arith, lt, omega arith)
      | no ge ↦ (2 * w + 1, e - 2 ^ m, omega arith, omega arith, omega arith, omega arith)
    ]

module _ (sha256 : Text → Text) where
  -- One round of the loop.
  round_step :
      (s r r' : Text) (rest : List Text) (fn sn f w : ℕ)
      → 0 < sn
      → shifted fn sn ≡ (f, w)
      → combined sha256 fn sn s r ≡ r'
      → inclusion_loop sha256 (s ∷ rest) fn sn r ≡ inclusion_loop sha256 rest f w r'
  unfolding inclusion_loop
  round_step s r r' rest fn sn f w pos next here = elim (Bool-cases (sn == 0)) [
    | inl a ↦ absurd (ground arith)
    | inr a ↦ rw (a, next, here, inclusion_loop) refl
  ]

  pub round_left :
      (s r : Text) (rest : List Text) (q w : ℕ)
      → 2 * q < w
      → inclusion_loop sha256 (s ∷ rest) (2 * q) w r
        ≡ inclusion_loop sha256 rest q (w / 2) (merkle_node_hash sha256 r s)
  round_left s r rest q w h =
      round_step s r _ rest (2 * q) w q (w / 2) (omega arith) (shifted-left q w h) (ground arith)

  round_right :
      (s r : Text) (rest : List Text) (q w : ℕ)
      → 2 * q + 1 ≤ w
      → inclusion_loop sha256 (s ∷ rest) (2 * q + 1) w r
        ≡ inclusion_loop sha256 rest q (w / 2) (merkle_node_hash sha256 s r)
  round_right s r rest q w h =
      round_step s r _ rest (2 * q + 1) w q (w / 2) (omega arith) (shifted-right q w) (ground arith)

  -- The round at the right edge, where both indices are an odd multiple of a power of two.
  pub round_edge :
      (s r : Text) (rest : List Text) (q j : ℕ)
      → odd q ≡ true
      → inclusion_loop sha256 (s ∷ rest) (q * 2 ^ j) (q * 2 ^ j) r
        ≡ inclusion_loop sha256 rest (q / 2) (q / 2) (merkle_node_hash sha256 s r)
  round_edge s r rest q j o =
      round_step s r _ rest (q * 2 ^ j) (q * 2 ^ j) (q / 2) (q / 2) (odd_multiple_pos q j o)
        (shifted-two_pow q j o) (ground arith)

  -- The path of a tree is the path in one half, and the sibling `s`: two runs make one.
  pub run_join :
      (path p rest : List Text) (s leaf : Text) (fn sn : ℕ) (mid end : Option (ℕ × Text))
      → path ≡ p ++ s ∷ []
      → inclusion_loop sha256 (p ++ s ∷ rest) fn sn leaf ≡ mid
      → mid ≡ end
      → inclusion_loop sha256 (path ++ rest) fn sn leaf ≡ end
  run_join path p rest s leaf fn sn mid end split first second =
      ap (λ t. inclusion_loop sha256 (t ++ rest) fn sn leaf) split
      ∙ (ap (λ t. inclusion_loop sha256 t fn sn leaf) (append_assoc p (s ∷ []) rest)
          ∙ (first ∙ second))

  pub same_run :
      (rest : List Text) (fn sn fn' sn' : ℕ) (r r' : Text)
      → fn ≡ fn'
      → sn ≡ sn'
      → r ≡ r'
      → inclusion_loop sha256 rest fn sn r ≡ inclusion_loop sha256 rest fn' sn' r'
  same_run rest fn sn fn' sn' r r' a b c = cc

  -- The path through a complete subtree of height `m` at offset `q`, left of the right edge.
  pub complete_subtree :
      (fuel m : ℕ) (l : List Text) (i q w e fn sn : ℕ) (leaf : Text) (rest : List Text)
      → length l ≤ fuel
      → length l ≡ 2 ^ m
      → get_elem? l i ≡ some leaf
      → q < w
      → e < 2 ^ m
      → fn ≡ q * 2 ^ m + i
      → sn ≡ w * 2 ^ m + e
      → inclusion_loop sha256 (path_within sha256 fuel l i ++ rest) fn sn leaf
        ≡ inclusion_loop sha256 rest q w (merkle_root sha256 l)
  unfolding path_within merkle_root
  complete_subtree fuel zero [] i q w e fn sn leaf rest enough size at below small fe se =
      absurd (omega arith)
  complete_subtree fuel zero (x ∷ []) zero q w e fn sn leaf rest enough size at below small fe se =
      same_run rest fn sn q w leaf x (omega arith) (omega arith) (ground arith)
  complete_subtree fuel zero (x ∷ []) (suc i) q w e fn sn leaf rest enough size at below small fe
        se =
      absurd (cc)
  complete_subtree fuel zero (x ∷ y ∷ l) i q w e fn sn leaf rest enough size at below small fe se =
      absurd (omega arith)
  complete_subtree zero (suc m) l i q w e fn sn leaf rest enough size at below small fe se =
      absurd (omega (arith, two_pow_pos (suc m)))
  complete_subtree (suc fuel) (suc m) l i q w e fn sn leaf rest enough size at below small fe se =
      let two : 2 ≤ length l = omega (arith, two_pow-suc m, two_pow_pos m) in
      let k : half l ≡ 2 ^ m = ap largest_power_less_than size ∙ largest_power-two_pow m in
      let p = two_pow-suc m in
      let (w', e', back, wide, small', se') = halve m w e sn small se in
      let left_size = length-left l two in
      let right_size = length-right l in
      elim (dec_lt i (half l)) [
        | yes lt ↦
            run_join _ _ rest _ leaf fn sn _ _ (path_within-left sha256 fuel l i two lt)
              (complete_subtree fuel m (take (half l) l) i (2 * q) w' e' fn sn leaf
                (merkle_root sha256 (drop (half l) l) ∷ rest) (omega arith) (left_size ∙ k)
                (get_elem?-take (half l) i l leaf at lt) (omega arith) small'
                (omega (arith, ap (λ (t : ℕ). q * t) p)) se')
              (round_left _ _ rest q w' (omega arith)
                ∙ same_run rest q (w' / 2) q w _ _ refl back (sym (merkle_root-split sha256 l two)))
        | no ge ↦
            run_join _ _ rest _ leaf fn sn _ _ (path_within-right sha256 fuel l i two (omega arith))
              (complete_subtree fuel m (drop (half l) l) (i - half l) (2 * q + 1) w' e' fn sn leaf
                (merkle_root sha256 (take (half l) l) ∷ rest) (omega arith) (omega arith)
                (get_elem?-drop (half l) i (i - half l) l leaf at (omega arith)) (omega arith)
                small' (omega (arith, ap (λ (t : ℕ). q * t) p)) se')
              (round_right _ _ rest q w' (omega arith)
                ∙ same_run rest q (w' / 2) q w _ _ refl back (sym (merkle_root-split sha256 l two)))
      ]
