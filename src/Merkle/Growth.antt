-- ===== src/Merkle/Growth.antt =====
-- internal/relay/audit/merkle.go: what an accepted consistency proof says of the first tree.
use mathlib.Core.Path.{ap₂}
use yukh_coordination.Base.{
  Option, some, none, ℕ, zero, suc, ◌-◌, ◌≤◌, ◌<◌, ◌≡◌, ◌⊎◌, refl, ap, sym, subst, ◌∙◌, inl, inr,
  Bool, not, leb, ◌&&◌, true, false, List, [], ◌∷◌, arith, Text, length, take, drop, Bool-cases,
  ◌==◌, nat_eq, text_eq, All, All-append, All-take, All-drop, take-all,
}
use yukh_coordination.Merkle.{
  merkle_node_hash, shifted, combined, merkle_root, max_json_safe_sequence, empty_merkle_root,
}
use yukh_coordination.Merkle.Binding.{Collision, combined_binding, combined_size}
use yukh_coordination.Merkle.Root.{half}
use yukh_coordination.Merkle.Consistency.{
  ConsistencyProof, is_power, started, consistency_within, consistency_loop, extended, ends_with,
  verify_path, verify_consistency,
}
use yukh_coordination.Merkle.Continuation.{full_path, merkle_root-nothing}

abbrev pub IsHash : Text → Type 0
IsHash h = length h ≡ 32

ends_with_unique :
    (o : Option (ℕ × Text × Text)) (r r' root : Text)
    → ends_with o r root ≡ true
    → ends_with o r' root ≡ true
    → r ≡ r'
ends_with_unique none r r' root e e' = absurd (cc)
ends_with_unique (some (n, first, second)) r r' root e e' = ground arith

module _ (sha256 : Text → Text) (size : (x : Text) → length (sha256 x) ≡ 32) where
  agree_more :
      (s : Text) (p : List Text) (fn sn : ℕ) (a b r root : Text)
      → ends_with (consistency_loop sha256 (s ∷ p) fn sn a b) r root ≡ true
      → ends_with
          (consistency_loop sha256 p
            (shifted fn sn).0
            (shifted fn sn).1
            (extended sha256 fn sn s a)
            (combined sha256 fn sn s b))
          r
          root
        ≡ true
  unfolding consistency_loop
  agree_more s p fn sn a b r root e = elim (Bool-cases (sn == 0)) [
    | inl z ↦ let stuck = rw (z, consistency_loop) at e in absurd (cc)
    | inr z ↦ rw (z, consistency_loop) at e
  ]

  paths_agree :
      (p p' : List Text) (fn sn : ℕ) (a a' b b' r r' root : Text)
      → All IsHash p
      → All IsHash p'
      → length b ≡ 32
      → length b' ≡ 32
      → ends_with (consistency_loop sha256 p fn sn a b) r root ≡ true
      → ends_with (consistency_loop sha256 p' fn sn a' b') r' root ≡ true
      → ((b ≡ b') × (p ≡ p')) ⊎ Collision sha256
  unfolding consistency_loop
  paths_agree [] [] fn sn a a' b b' r r' root hp hp' hb hb' e e' = inl (ground arith, refl)
  paths_agree [] (s ∷ p') fn sn a a' b b' r r' root hp hp' hb hb' e e' = absurd (ground arith)
  paths_agree (s ∷ p) [] fn sn a a' b b' r r' root hp hp' hb hb' e e' = absurd (ground arith)
  paths_agree (s ∷ p) (s' ∷ p') fn sn a a' b b' r r' root hp hp' hb hb' e e' =
      elim (paths_agree p p' (shifted fn sn).0 (shifted fn sn).1 (extended sha256 fn sn s a)
        (extended sha256 fn sn s' a') (combined sha256 fn sn s b) (combined sha256 fn sn s' b') r r'
        root hp.1 hp'.1 (combined_size sha256 size fn sn s b)
        (combined_size sha256 size fn sn s' b') (agree_more s p fn sn a b r root e)
        (agree_more s' p' fn sn a' b' r' root e')) [
          | inr c ↦ inr c
          | inl (same, rest) ↦
              elim (combined_binding sha256 size fn sn s b s' b' hp.0 hb hp'.0 hb' same) [
                | inr c ↦ inr c
                | inl (node, start) ↦ inl (start, ap₂ (λ (x : Text) y. x ∷ y) node rest)
              ]
        ]

  -- The first root is determined by the path and the second.
  first_root_unique :
      (p : List Text) (m n : ℕ) (r r' root : Text)
      → verify_path sha256 p m n r root ≡ true
      → verify_path sha256 p m n r' root ≡ true
      → r ≡ r'
  unfolding verify_path
  first_root_unique [] m n r r' root e e' = absurd (ground arith)
  first_root_unique (x ∷ p) m n r r' root e e' =
      ends_with_unique (consistency_loop sha256 p _ _ x x) r r' root e e'

  -- Two paths that lead from roots of the first tree to one second root.
  verify_path-binding :
      (p p' : List Text) (m n : ℕ) (r r' root : Text)
      → All IsHash p
      → All IsHash p'
      → verify_path sha256 p m n r root ≡ true
      → verify_path sha256 p' m n r' root ≡ true
      → (r ≡ r') ⊎ Collision sha256
  unfolding verify_path
  verify_path-binding [] p' m n r r' root hp hp' e e' = absurd (ground arith)
  verify_path-binding (x ∷ p) [] m n r r' root hp hp' e e' = absurd (ground arith)
  verify_path-binding (x ∷ p) (x' ∷ p') m n r r' root hp hp' e e' =
      elim (paths_agree p p' _ _ x x' x x' r r' root hp.1 hp'.1 hp.0 hp'.0 e e') [
        | inr c ↦ inr c
        | inl (start, rest) ↦
            let same : x' ∷ p' ≡ x ∷ p = ap₂ (λ (y : Text) l. y ∷ l) (sym start) (sym rest) in
            inl (
              first_root_unique (x ∷ p) m n r r' root e
                (subst (λ q. verify_path sha256 q m n r' root ≡ true) same e'))
      ]

  -- What VerifyConsistency has checked, by the sizes.
  verified :
      (r root : Text) (proof : ConsistencyProof)
      → verify_consistency sha256 r root proof ≡ true
      → (proof.first_size ≤ proof.second_size)
        × (proof.second_size ≤ max_json_safe_sequence)
        × (((proof.first_size ≡ 0) × (r ≡ empty_merkle_root sha256))
            ⊎ ((proof.first_size ≡ proof.second_size) × (r ≡ root))
            ⊎ ((0 < proof.first_size)
                × (proof.first_size < proof.second_size)
                × (verify_path sha256 (started r proof) proof.first_size proof.second_size r root
                    ≡ true)))
  unfolding verify_consistency
  verified r root proof e = (
    ground arith,
    ground arith,
    elim (Bool-cases (proof.first_size == 0)) [
      | inl a ↦ inl (ground arith, ground arith)
      | inr a ↦ inr (elim (Bool-cases (proof.first_size == proof.second_size)) [
        | inl b ↦ inl (ground arith, ground arith)
        | inr b ↦ inr (ground arith, ground arith, ground arith)
      ])
    ],
  )

  merkle_root_size : (l : List Text) → All IsHash l → length (merkle_root sha256 l) ≡ 32
  unfolding merkle_root merkle_node_hash
  merkle_root_size [] h = size _
  merkle_root_size (x ∷ []) h = h.0
  merkle_root_size (x ∷ y ∷ l) h = size _

  consistency_within_sizes :
      (fuel : ℕ) (l : List Text) (m : ℕ) (complete : Bool)
      → All IsHash l
      → All IsHash (consistency_within sha256 fuel l m complete)
  unfolding consistency_within
  consistency_within_sizes zero l m complete h = elim (Bool-cases (m == length l && not complete)) [
    | inl a ↦ rw a (merkle_root_size l h, tt)
    | inr a ↦ rw a tt
  ]
  consistency_within_sizes (suc fuel) l m complete h = elim (Bool-cases (m == length l)) [
    | inl a ↦ elim (Bool-cases complete) [
      | inl c ↦ rw (a, c, consistency_within) tt
      | inr c ↦ rw (a, c, consistency_within) (merkle_root_size l h, tt)
    ]
    | inr a ↦ elim (Bool-cases (leb m (half l))) [
      | inl b ↦
          rw (a, b, consistency_within)
            (All-append IsHash _ _
              (consistency_within_sizes fuel (take (half l) l) m complete
                (All-take IsHash (half l) l h))
              (merkle_root_size (drop (half l) l) (All-drop IsHash (half l) l h), tt))
      | inr b ↦
          rw (a, b, consistency_within)
            (All-append IsHash _ _
              (consistency_within_sizes fuel (drop (half l) l) (m - half l) false
                (All-drop IsHash (half l) l h))
              (merkle_root_size (take (half l) l) (All-take IsHash (half l) l h), tt))
    ]
  ]

  started_sizes :
      (r : Text) (proof : ConsistencyProof)
      → All IsHash proof.path
      → length r ≡ 32
      → All IsHash (started r proof)
  started_sizes r proof hp hr = elim (Bool-cases (is_power proof.first_size)) [
    | inl a ↦ rw a (hr, hp)
    | inr a ↦ rw a hp
  ]

  -- Where all hashes have 32 bytes: if VerifyConsistency accepts a first root against the root of a list
  -- of leaves, the first tree is no larger and its root is that of the first leaves of the list, or two
  -- different inputs with the same SHA-256 value are at hand.
  pub consistency_binding :
      (l : List Text) (r : Text) (proof : ConsistencyProof)
      → All IsHash l
      → All IsHash proof.path
      → length r ≡ 32
      → proof.second_size ≡ length l
      → verify_consistency sha256 r (merkle_root sha256 l) proof ≡ true
      → (proof.first_size ≤ length l)
        × ((r ≡ merkle_root sha256 (take proof.first_size l)) ⊎ Collision sha256)
  consistency_binding l r proof hl hp hr second e =
      let (within, safe, shape) = verified r (merkle_root sha256 l) proof e in
      (
        omega arith,
        elim shape [
          | inl (start, same) ↦ inl (
              same
              ∙ (sym (merkle_root-nothing sha256)
                  ∙ ap (λ n. merkle_root sha256 (take n l)) (sym start)))
          | inr (inl (whole, same)) ↦
              inl (same ∙ ap (merkle_root sha256) (sym (take-all proof.first_size l (omega arith))))
          | inr (inr (pos, inside, run)) ↦
              elim (verify_path-binding (started r proof)
                (consistency_within sha256 (length l) l proof.first_size false) proof.first_size
                (length l) r (merkle_root sha256 (take proof.first_size l)) (merkle_root sha256 l)
                (started_sizes r proof hp hr)
                (consistency_within_sizes (length l) l proof.first_size false hl)
                (subst
                  (λ n.
                    verify_path sha256 (started r proof) proof.first_size n r (merkle_root sha256 l)
                    ≡ true)
                  second run)
                (full_path sha256 l proof.first_size pos (omega arith) (omega arith))) [
                  | inl same ↦ inl same
                  | inr c ↦ inr c
                ]
        ],
      )
