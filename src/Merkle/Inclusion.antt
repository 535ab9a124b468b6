-- ===== src/Merkle/Inclusion.antt =====
-- internal/relay/audit/merkle.go: BuildInclusionProof and VerifyInclusion together.
use mathlib.Core.List.{append-nil}
use yukh_coordination.Base.{
  ℕ, zero, suc, ◌+◌, ◌-◌, ◌*◌, ◌/◌, ◌^◌, ◌≤◌, ◌<◌, ◌≡◌, refl, ap, sym, subst, ◌∙◌, true, List, [],
  ◌∷◌, ◌++◌, arith, some, Text, length, take, drop, get_elem?, length-append, text_eq, dec_lt, ok,
  nat_eq,
}
use yukh_coordination.Merkle.{
  merkle_root, path_within, inclusion_loop, InclusionProof, build_inclusion_proof, verify_inclusion,
  max_json_safe_sequence, max_proof_nodes, odd,
}
use yukh_coordination.Merkle.Powers.{largest_power_bounds, two_pow-suc, two_pow-add, two_pow_mono}
use yukh_coordination.Merkle.Root.{
  half, length-left, length-right, merkle_root-split, path_within-left, path_within-right,
}
use yukh_coordination.Merkle.Subtrees.{
  get_elem?-take, get_elem?-drop, round_left, round_edge, run_join, same_run, complete_subtree,
}

-- A multiple of the larger power of two, by the smaller one.
pub scale : (q m u t : ℕ) → t ≡ suc (m + u) → q * 2 ^ t ≡ 2 * (q * 2 ^ u) * 2 ^ m
scale q m u t e =
    ap (λ v. q * 2 ^ v) e
    ∙ (ap (λ (v : ℕ). q * v) (two_pow-suc (m + u))
        ∙ (ap (λ (v : ℕ). q * (2 * v)) (two_pow-add m u) ∙ omega arith))

pub taller_lem : (m t n : ℕ) → 2 ^ m < n → n ≤ 2 ^ t → m < t
taller_lem m t n low fits = elim (dec_lt m t) [
  | yes lt ↦ lt
  | no ge ↦ absurd (omega (arith, two_pow_mono t m (omega arith)))
]

pub odd-suc_double : (a : ℕ) → odd (2 * a + 1) ≡ true
odd-suc_double a = ground arith

module _ (sha256 : Text → Text) where
  -- The path through a subtree at the right edge, of at most `2 ^ t` leaves at offset `q`.
  edge_subtree :
      (fuel t : ℕ) (l : List Text) (i q fn sn : ℕ) (leaf : Text) (rest : List Text)
      → length l ≤ fuel
      → length l ≤ 2 ^ t
      → get_elem? l i ≡ some leaf
      → fn ≡ q * 2 ^ t + i
      → sn ≡ q * 2 ^ t + (length l - 1)
      → (j : ℕ) × (inclusion_loop sha256 (path_within sha256 fuel l i ++ rest) fn sn leaf
          ≡ inclusion_loop sha256 rest (q * 2 ^ j) (q * 2 ^ j) (merkle_root sha256 l))
  unfolding path_within merkle_root
  edge_subtree fuel t [] i q fn sn leaf rest enough fits at fe se = absurd (cc)
  edge_subtree fuel t (x ∷ []) zero q fn sn leaf rest enough fits at fe se =
      (t, same_run sha256 rest fn sn _ _ leaf x (omega arith) (omega arith) (ground arith))
  edge_subtree fuel t (x ∷ []) (suc i) q fn sn leaf rest enough fits at fe se = absurd (cc)
  edge_subtree zero t (x ∷ y ∷ l) i q fn sn leaf rest enough fits at fe se = absurd (omega arith)
  edge_subtree (suc fuel) t (x ∷ y ∷ l') i q fn sn leaf rest enough fits at fe se =
      let l = x ∷ y ∷ l' in
      let two : 2 ≤ length l = omega arith in
      let (m, k, low, high) = largest_power_bounds (length l) two in
      let d = two_pow-suc m in
      let taller : m < t = taller_lem m t (length l) low fits in
      let u = t - suc m in
      let a = q * 2 ^ u in
      let whole : q * 2 ^ t ≡ 2 * a * 2 ^ m = scale q m u t (omega arith) in
      let left_size = length-left l two in
      let right_size = length-right l in
      elim (dec_lt i (half l)) [
        | yes lt ↦ (
          u,
          run_join sha256 _ _ rest _ leaf fn sn _ _ (path_within-left sha256 fuel l i two lt)
              (complete_subtree sha256 fuel m (take (half l) l) i (2 * a) (2 * a + 1)
                (length l - 1 - 2 ^ m) fn sn leaf (merkle_root sha256 (drop (half l) l) ∷ rest)
                (omega arith) (left_size ∙ k) (get_elem?-take (half l) i l leaf at lt) (omega arith)
                (omega arith) (omega arith) (omega arith))
              (round_left sha256 _ _ rest a (2 * a + 1) (omega arith)
                ∙ same_run sha256 rest a ((2 * a + 1) / 2) a a _ _ refl (omega arith)
                    (sym (merkle_root-split sha256 l two))),
        )
        | no ge ↦
            let (j, sub) =
              edge_subtree fuel m (drop (half l) l) (i - half l) (2 * a + 1) fn sn leaf
                (merkle_root sha256 (take (half l) l) ∷ rest) (omega arith) (omega arith)
                (get_elem?-drop (half l) i (i - half l) l leaf at (omega arith)) (omega arith)
                (omega arith) in
            (
              u,
              run_join sha256 _ _ rest _ leaf fn sn _ _
                  (path_within-right sha256 fuel l i two (omega arith)) sub
                  (round_edge sha256 _ _ rest (2 * a + 1) j (odd-suc_double a)
                    ∙ same_run sha256 rest ((2 * a + 1) / 2) ((2 * a + 1) / 2) a a _ _ (omega arith)
                        (omega arith) (sym (merkle_root-split sha256 l two))),
            )
      ]

  -- No more siblings than levels.
  length-path_within :
      (fuel t : ℕ) (l : List Text) (i : ℕ)
      → length l ≤ fuel
      → length l ≤ 2 ^ t
      → length (path_within sha256 fuel l i) ≤ t
  unfolding path_within
  length-path_within fuel t [] i enough fits = omega arith
  length-path_within fuel t (x ∷ []) i enough fits = omega arith
  length-path_within zero t (x ∷ y ∷ l) i enough fits = absurd (omega arith)
  length-path_within (suc fuel) t (x ∷ y ∷ l') i enough fits =
      let l = x ∷ y ∷ l' in
      let two : 2 ≤ length l = omega arith in
      let (m, k, low, high) = largest_power_bounds (length l) two in
      let d = two_pow-suc m in
      let taller : m < t = taller_lem m t (length l) low fits in
      let left_size = length-left l two in
      let right_size = length-right l in
      elim (dec_lt i (half l)) [
        | yes lt ↦
            let sub = length-path_within fuel m (take (half l) l) i (omega arith) (omega arith) in
            omega (
              arith,
              ap length (path_within-left sha256 fuel l i two lt),
              length-append {0} (path_within sha256 fuel (take (half l) l) i)
                  (merkle_root sha256 (drop (half l) l) ∷ []),
            )
        | no ge ↦
            let sub =
              length-path_within fuel m (drop (half l) l) (i - half l) (omega arith)
                (omega arith) in
            omega (
              arith,
              ap length (path_within-right sha256 fuel l i two (omega arith)),
              length-append {0} (path_within sha256 fuel (drop (half l) l) (i - half l))
                  (merkle_root sha256 (take (half l) l) ∷ []),
            )
      ]

  full_run :
      (l : List Text) (i : ℕ) (leaf : Text)
      → get_elem? l i ≡ some leaf
      → length l ≤ 2 ^ 53
      → inclusion_loop sha256 (path_within sha256 (length l) l i) i (length l - 1) leaf
        ≡ some (0, merkle_root sha256 l)
  unfolding inclusion_loop
  full_run l i leaf at fits =
      let (j, run) =
        edge_subtree (length l) 53 l i 0 i (length l - 1) leaf [] (omega arith) fits at
          (omega arith) (omega arith) in
      ap (λ p. inclusion_loop sha256 p i (length l - 1) leaf)
        (sym (append-nil (path_within sha256 (length l) l i)))
      ∙ (run ∙ ap (λ (n : ℕ). some (n, merkle_root sha256 l)) (omega arith))

  verify_of_run :
      (leaf root : Text) (proof : InclusionProof)
      → proof.leaf_index < proof.tree_size
      → proof.tree_size ≤ max_json_safe_sequence
      → length proof.path ≤ max_proof_nodes
      → inclusion_loop sha256 proof.path proof.leaf_index (proof.tree_size - 1) leaf
        ≡ some (0, root)
      → verify_inclusion sha256 leaf root proof ≡ true
  unfolding verify_inclusion
  verify_of_run leaf root proof inside safe short run = rw run (ground arith)

  -- What BuildInclusionProof returns, and when it does.
  built_proof :
      (l : List Text) (i : ℕ) (proof : InclusionProof)
      → build_inclusion_proof sha256 l i ≡ ok proof
      → (proof ≡ record {
        leaf_index = i;
        tree_size = length l;
        path = path_within sha256 (length l) l i;
      })
        × (length l ≤ max_json_safe_sequence)
        × (i < length l)
  unfolding build_inclusion_proof
  built_proof l i proof built = (ground arith, ground arith, ground arith)

  -- For every list of leaves and every index for which BuildInclusionProof gives a proof,
  -- VerifyInclusion accepts that proof for the leaf at the index and the root of the list.
  pub inclusion_complete :
      (l : List Text) (i : ℕ) (leaf : Text) (proof : InclusionProof)
      → build_inclusion_proof sha256 l i ≡ ok proof
      → get_elem? l i ≡ some leaf
      → verify_inclusion sha256 leaf (merkle_root sha256 l) proof ≡ true
  inclusion_complete l i leaf proof built at =
      let (same, safe, inside) = built_proof l i proof built in
      let short = length-path_within (length l) 53 l i (omega arith) (omega arith) in
      subst (λ p. verify_inclusion sha256 leaf (merkle_root sha256 l) p ≡ true) (sym same)
        (verify_of_run leaf (merkle_root sha256 l) _ inside safe (omega arith)
          (full_run l i leaf at (omega arith)))
