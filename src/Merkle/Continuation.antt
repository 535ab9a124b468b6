-- ===== src/Merkle/Continuation.antt =====
-- internal/relay/audit/merkle.go: BuildConsistencyProof and VerifyConsistency together.
use mathlib.Core.List.{append-nil}
use native.Mathlib.Nat.{mul-le-mul_right}
use yukh_coordination.Base.{
  ℕ, suc, ◌-◌, ◌*◌, ◌^◌, ◌≤◌, ◌<◌, ◌≡◌, ◌⊎◌, refl, ap, sym, ◌∙◌, inl, inr, true, false, List, [],
  ◌∷◌, arith, Text, length, take, take-all, text_eq, ok, nat_eq, if◌then◌else◌, Bool-cases, ◌==◌,
  ◌||◌,
}
use yukh_coordination.Merkle.{
  merkle_root, max_json_safe_sequence, max_proof_nodes, empty_merkle_root,
}
use yukh_coordination.Merkle.Powers.{lt-two_pow}
use yukh_coordination.Merkle.Consistency.{
  ConsistencyProof, is_power, started, skip_ones, consistency_within, build_consistency_proof,
  consistency_loop, ends_with, verify_path, verify_consistency,
}
use yukh_coordination.Merkle.Digits.{odd_part, is_power_exponent, skip_ones-two_pow}
use yukh_coordination.Merkle.Nodes.{
  power_path, other_path, length-consistency_within, consistency_within_pos,
}
use yukh_coordination.Merkle.Resumes.{Resumes}
use yukh_coordination.Merkle.Prefixes.{edge_prefix}

module _ (sha256 : Text → Text) where
  -- VerifyConsistency on a path that resumes the first tree.
  resumed_path :
      (path l : List Text) (m j : ℕ)
      → Resumes sha256 path l m m (length l - 1) (0 * 2 ^ j) (0 * 2 ^ j)
      → verify_path sha256 path m (length l) (merkle_root sha256 (take m l)) (merkle_root sha256 l)
        ≡ true
  unfolding verify_path consistency_loop
  resumed_path path l m j r =
      let a = merkle_root sha256 (take m l) in
      let b = merkle_root sha256 l in
      let scaled : 1 * 2 ^ r.height ≤ suc r.index * 2 ^ r.height =
        mul-le-mul_right (2 ^ r.height) (omega arith) in
      let skipped : skip_ones (m - 1) (m - 1) (length l - 1) ≡ (r.index, r.edge) =
        skip_ones-two_pow (m - 1) r.index r.height r.edge r.rest (m - 1) (length l - 1)
          (omega (arith, lt-two_pow r.height, r.first)) r.even
          (omega (arith, lt-two_pow r.height, r.first)) r.small r.second in
      ap (λ p. verify_path sha256 p m (length l) a b) r.split
      ∙ (ap (λ p. ends_with (consistency_loop sha256 r.tail p.0 p.1 r.start r.start) a b) skipped
          ∙ (ap (λ t. ends_with (consistency_loop sha256 t r.index r.edge r.start r.start) a b)
                (sym (append-nil r.tail))
              ∙ (ap (λ o. ends_with o a b) (r.run []) ∙ ground arith)))

  pub full_path :
      (l : List Text) (m : ℕ)
      → 0 < m
      → m < length l
      → length l ≤ 2 ^ 53
      → verify_path sha256
          (consistency_within sha256 (length l) l m false)
          m
          (length l)
          (merkle_root sha256 (take m l))
          (merkle_root sha256 l)
        ≡ true
  full_path l m pos inside fits =
      let (j, r) =
        edge_prefix sha256 (length l) 53 l m 0 m (length l - 1) (omega arith) fits pos inside
          (omega arith) (omega arith) in
      resumed_path _ l m j r

  -- The cases of BuildConsistencyProof.
  built_consistency :
      (l : List Text) (m : ℕ) (proof : ConsistencyProof)
      → build_consistency_proof sha256 l m ≡ ok proof
      → (proof.first_size ≡ m)
        × (proof.second_size ≡ length l)
        × (length l ≤ max_json_safe_sequence)
        × (m ≤ length l)
        × (((proof.path ≡ []) × ((m ≡ 0) ⊎ ((0 < m) × (m ≡ length l))))
            ⊎ ((proof.path ≡ consistency_within sha256 (length l) l m true)
                × (0 < m)
                × (m < length l)))
  unfolding build_consistency_proof
  built_consistency l m proof built = (
    ground arith,
    ground arith,
    ground arith,
    ground arith,
    elim (Bool-cases (m == 0 || m == length l)) [
      | inl a ↦ inl (
        ground arith,
        elim (Bool-cases (m == 0)) [
          | inl b ↦ inl (ground arith)
          | inr b ↦ inr (ground arith, ground arith)
        ],
      )
      | inr a ↦ inr (ground arith, ground arith, ground arith)
    ],
  )

  -- The three ways through the checks of VerifyConsistency.
  verify_of_start :
      (first_root second_root : Text) (proof : ConsistencyProof)
      → proof.first_size ≡ 0
      → proof.second_size ≤ max_json_safe_sequence
      → proof.path ≡ []
      → first_root ≡ empty_merkle_root sha256
      → verify_consistency sha256 first_root second_root proof ≡ true
  unfolding verify_consistency
  verify_of_start first_root second_root proof start safe bare same =
      let short = ap length bare in ground arith

  verify_of_same :
      (first_root second_root : Text) (proof : ConsistencyProof)
      → 0 < proof.first_size
      → proof.first_size ≡ proof.second_size
      → proof.second_size ≤ max_json_safe_sequence
      → proof.path ≡ []
      → first_root ≡ second_root
      → verify_consistency sha256 first_root second_root proof ≡ true
  unfolding verify_consistency
  verify_of_same first_root second_root proof pos whole safe bare same =
      let short = ap length bare in ground arith

  verify_of_path :
      (first_root second_root : Text) (proof : ConsistencyProof)
      → 0 < proof.first_size
      → proof.first_size < proof.second_size
      → proof.second_size ≤ max_json_safe_sequence
      → length proof.path ≤ max_proof_nodes
      → 0 < length proof.path
      → verify_path sha256
          (started first_root proof)
          proof.first_size
          proof.second_size
          first_root
          second_root
        ≡ true
      → verify_consistency sha256 first_root second_root proof ≡ true
  unfolding verify_consistency
  verify_of_path first_root second_root proof pos inside safe short full run = ground arith

  built_path :
      (l : List Text) (m : ℕ)
      → 0 < m
      → m < length l
      → (if is_power m
          then merkle_root sha256 (take m l) ∷ consistency_within sha256 (length l) l m true
          else consistency_within sha256 (length l) l m true)
        ≡ consistency_within sha256 (length l) l m false
  built_path l m pos inside = elim (Bool-cases (is_power m)) [
    | inl a ↦
        let (s, j, even, e) = odd_part m m (omega arith) pos in
        rw a (
          power_path sha256 (length l) j l m (omega arith) (is_power_exponent s j m even e a)
            (omega arith))
    | inr a ↦ rw a (other_path sha256 (length l) l m (omega arith) pos inside a)
  ]

  pub merkle_root-nothing : merkle_root sha256 [] ≡ empty_merkle_root sha256
  unfolding merkle_root
  merkle_root-nothing = refl

  proof_path :
      (l : List Text) (m : ℕ) (proof : ConsistencyProof)
      → proof.first_size ≡ m
      → proof.second_size ≡ length l
      → proof.path ≡ consistency_within sha256 (length l) l m true
      → 0 < m
      → m < length l
      → length l ≤ max_json_safe_sequence
      → verify_path sha256
          (started (merkle_root sha256 (take m l)) proof)
          proof.first_size
          proof.second_size
          (merkle_root sha256 (take m l))
          (merkle_root sha256 l)
        ≡ true
  proof_path l m proof first second path pos lt safe =
      rw (first, second, path, built_path l m pos lt) (full_path l m pos lt (omega arith))

  -- For every list of leaves and every size for which BuildConsistencyProof gives a proof,
  -- VerifyConsistency accepts that proof for the root of the first leaves and the root of all.
  pub consistency_complete :
      (l : List Text) (m : ℕ) (proof : ConsistencyProof)
      → build_consistency_proof sha256 l m ≡ ok proof
      → verify_consistency sha256 (merkle_root sha256 (take m l)) (merkle_root sha256 l) proof
        ≡ true
  consistency_complete l m proof built =
      let (first, second, safe, inside, shape) = built_consistency l m proof built in
      elim shape [
        | inl (bare, inl none_left) ↦
            verify_of_start _ _ proof (omega arith) (omega arith) bare
              (ap (λ n. merkle_root sha256 (take n l)) none_left ∙ merkle_root-nothing)
        | inl (bare, inr (pos, all)) ↦
            verify_of_same _ _ proof (omega arith) (omega arith) (omega arith) bare
              (ap (merkle_root sha256) (take-all m l (omega arith)))
        | inr (path, pos, lt) ↦
            verify_of_path _ _ proof (omega arith) (omega arith) (omega arith)
              (omega (
                arith,
                ap length path,
                length-consistency_within sha256 (length l) 53 l m true (omega arith) (omega arith)
                    pos inside,
              ))
              (omega (
                arith,
                ap length path,
                consistency_within_pos sha256 (length l) l m true (omega arith) lt,
              ))
              (proof_path l m proof first second path pos lt safe)
      ]
