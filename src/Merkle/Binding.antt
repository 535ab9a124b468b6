-- ===== src/Merkle/Binding.antt =====
-- internal/relay/audit/merkle.go: what an accepted inclusion proof says of the leaf.
use yukh_coordination.Base.{
  ℕ, ◌-◌, ◌≡◌, ◌≢◌, ◌⊎◌, refl, ap, ◌∙◌, inl, inr, true, false, List, [], ◌∷◌, ◌++◌, arith, Text,
  length, Bool-cases, ◌==◌, nat_eq, text_eq, All, Text-discrete, ◌||◌,
}
use yukh_coordination.Merkle.{
  merkle_node_hash, inclusion_loop, shifted, combined, odd, InclusionProof, verify_inclusion,
  ends_at,
}

-- A collision of the hash function.
abbrev pub Collision : (Text → Text) → Type 0
Collision sha256 = (x : Text) × (y : Text) × (x ≢ y) × (sha256 x ≡ sha256 y)

pub append-injective : (a b c d : Text) → length a ≡ length c → a ++ b ≡ c ++ d → (a ≡ c) × (b ≡ d)
append-injective [] b [] d h e = (refl, e)
append-injective [] b (y ∷ c) d h e = absurd (omega arith)
append-injective (x ∷ a) b [] d h e = absurd (omega arith)
append-injective (x ∷ a) b (y ∷ c) d h e = ground (arith, append-injective a b c d (omega arith))

module _ (sha256 : Text → Text) (size : (x : Text) → length (sha256 x) ≡ 32) where
  node_binding :
      (a b c d : Text)
      → length a ≡ 32
      → length c ≡ 32
      → merkle_node_hash sha256 a b ≡ merkle_node_hash sha256 c d
      → ((a ≡ c) × (b ≡ d)) ⊎ Collision sha256
  unfolding merkle_node_hash
  node_binding a b c d ha hc e = elim (Text-discrete (1 ∷ a ++ b) (1 ∷ c ++ d)) [
    | yes same ↦ inl (append-injective a b c d (omega arith) (ground arith))
    | no other ↦ inr (1 ∷ a ++ b, 1 ∷ c ++ d, other, e)
  ]

  pub combined_size : (fn sn : ℕ) (s r : Text) → length (combined sha256 fn sn s r) ≡ 32
  unfolding merkle_node_hash
  combined_size fn sn s r = elim (Bool-cases (odd fn || fn == sn)) [
    | inl a ↦ rw (a, combined) (size _)
    | inr a ↦ rw (a, combined) (size _)
  ]

  pub combined_binding :
      (fn sn : ℕ) (s r s' r' : Text)
      → length s ≡ 32
      → length r ≡ 32
      → length s' ≡ 32
      → length r' ≡ 32
      → combined sha256 fn sn s r ≡ combined sha256 fn sn s' r'
      → ((s ≡ s') × (r ≡ r')) ⊎ Collision sha256
  combined_binding fn sn s r s' r' hs hr hs' hr' e = elim (Bool-cases (odd fn || fn == sn)) [
    | inl a ↦ node_binding s r s' r' hs hs' (ground arith)
    | inr a ↦ elim (node_binding r s r' s' hr hr' (ground arith)) [
      | inl (result, sibling) ↦ inl (sibling, result)
      | inr c ↦ inr c
    ]
  ]

  loop_zero :
      (s r root : Text) (p : List Text) (fn sn : ℕ)
      → (sn == 0) ≡ true
      → ends_at sha256 (inclusion_loop sha256 (s ∷ p) fn sn r) root ≡ false
  unfolding inclusion_loop
  loop_zero s r root p fn sn z = rw (z, inclusion_loop) refl

  loop_more :
      (s r root : Text) (p : List Text) (fn sn : ℕ)
      → ends_at sha256 (inclusion_loop sha256 (s ∷ p) fn sn r) root ≡ true
      → ends_at sha256
          (inclusion_loop sha256 p (shifted fn sn).0 (shifted fn sn).1 (combined sha256 fn sn s r))
          root
        ≡ true
  unfolding inclusion_loop
  loop_more s r root p fn sn e = elim (Bool-cases (sn == 0)) [
    | inl a ↦ absurd (ground (arith, loop_zero s r root p fn sn a))
    | inr a ↦ rw (a, inclusion_loop) at e
  ]

  loop_binding :
      (p p' : List Text) (fn sn : ℕ) (r r' root : Text)
      → All (λ h. length h ≡ 32) p
      → All (λ h. length h ≡ 32) p'
      → length r ≡ 32
      → length r' ≡ 32
      → ends_at sha256 (inclusion_loop sha256 p fn sn r) root ≡ true
      → ends_at sha256 (inclusion_loop sha256 p' fn sn r') root ≡ true
      → (r ≡ r') ⊎ Collision sha256
  unfolding inclusion_loop
  loop_binding [] [] fn sn r r' root hp hp' hr hr' e e' = inl (ground arith)
  loop_binding [] (s ∷ p') fn sn r r' root hp hp' hr hr' e e' =
      absurd (ground (arith, loop_zero s r' root p' fn sn))
  loop_binding (s ∷ p) [] fn sn r r' root hp hp' hr hr' e e' =
      absurd (ground (arith, loop_zero s r root p fn sn))
  loop_binding (s ∷ p) (s' ∷ p') fn sn r r' root hp hp' hr hr' e e' =
      elim (loop_binding p p' (shifted fn sn).0 (shifted fn sn).1 (combined sha256 fn sn s r)
        (combined sha256 fn sn s' r') root hp.1 hp'.1 (combined_size fn sn s r)
        (combined_size fn sn s' r') (loop_more s r root p fn sn e)
        (loop_more s' r' root p' fn sn e')) [
          | inl same ↦ elim (combined_binding fn sn s r s' r' hp.0 hr hp'.0 hr' same) [
            | inl (_, leaf) ↦ inl leaf
            | inr c ↦ inr c
          ]
          | inr c ↦ inr c
        ]

  verified_run :
      (leaf root : Text) (proof : InclusionProof)
      → verify_inclusion sha256 leaf root proof ≡ true
      → ends_at sha256
          (inclusion_loop sha256 proof.path proof.leaf_index (proof.tree_size - 1) leaf)
          root
        ≡ true
  unfolding verify_inclusion
  verified_run leaf root proof e = ground arith

  -- Where every hash has 32 bytes: if VerifyInclusion accepts two leaves for the same index, tree size
  -- and root, the leaves are equal, or two different inputs with the same SHA-256 value are at hand.
  pub inclusion_binding :
      (leaf leaf' root : Text) (proof proof' : InclusionProof)
      → proof.leaf_index ≡ proof'.leaf_index
      → proof.tree_size ≡ proof'.tree_size
      → All (λ h. length h ≡ 32) proof.path
      → All (λ h. length h ≡ 32) proof'.path
      → length leaf ≡ 32
      → length leaf' ≡ 32
      → verify_inclusion sha256 leaf root proof ≡ true
      → verify_inclusion sha256 leaf' root proof' ≡ true
      → (leaf ≡ leaf') ⊎ Collision sha256
  inclusion_binding leaf leaf' root proof proof' same_index same_size h h' hl hl' e e' =
      loop_binding proof.path proof'.path proof.leaf_index (proof.tree_size - 1) leaf leaf' root h
        h' hl hl' (verified_run leaf root proof e)
        (ap
            (λ n.
              ends_at sha256 (inclusion_loop sha256 proof'.path n (proof.tree_size - 1) leaf') root)
            same_index
          ∙ (ap
                (λ n.
                  ends_at sha256 (inclusion_loop sha256 proof'.path proof'.leaf_index (n - 1) leaf')
                    root)
                same_size
              ∙ verified_run leaf' root proof' e'))
