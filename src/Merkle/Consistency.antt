-- ===== src/Merkle/Consistency.antt =====
-- internal/relay/audit/merkle.go: consistency proofs, that one tree of the ledger continues another.
use Prim.Native.Nat.{bit_and}
use yukh_coordination.Base.{
  ℕ, zero, suc, ◌-◌, ◌/◌, Bool, true, false, not, ◌&&◌, ◌||◌, Option, none, some, List, [], ◌∷◌,
  ◌++◌, ltb, leb, ◌==◌, nat_eq, text_eq, Text, Result, ok, err, length, take, drop, if◌then◌else◌,
}
use yukh_coordination.Merkle.{
  Error, max_proof_nodes, max_json_safe_sequence, largest_power_less_than, odd, shifted, combined,
  merkle_node_hash, merkle_root, empty_merkle_root,
}

pub record ConsistencyProof : Type 0 where
  pub first_size : ℕ
  pub second_size : ℕ
  pub path : List Text

-- `n&(n-1) == 0`
abbrev pub is_power : ℕ → Bool
is_power n = bit_and n (n - 1) == 0

-- The path with the first root before it, where that root is a node of the second tree.
abbrev pub started : Text → ConsistencyProof → List Text
started first_root proof = if is_power proof.first_size then first_root ∷ proof.path else proof.path

-- `for fn&1 == 1 { fn >>= 1; sn >>= 1 }`; `fuel` is `fn` at the start.
unfoldable pub skip_ones : ℕ → ℕ → ℕ → ℕ × ℕ
skip_ones zero fn sn = (fn, sn)
skip_ones (suc fuel) fn sn = elim (odd fn) [
  | true ↦ skip_ones fuel (fn / 2) (sn / 2)
  | false ↦ (fn, sn)
]

abbrev pub ends_with : Option (ℕ × Text × Text) → Text → Text → Bool
ends_with none first_root second_root = false
ends_with (some (sn, first, second)) first_root second_root =
    sn == 0 && first == first_root && second == second_root

module _ (sha256 : Text → Text) where
  -- buildConsistencyPath, with fuel; the appended sibling comes last.
  unfoldable pub consistency_within : ℕ → List Text → ℕ → Bool → List Text
  unfolding merkle_root largest_power_less_than
  consistency_within zero l first complete =
      if first == length l && not complete then merkle_root sha256 l ∷ [] else []
  consistency_within (suc fuel) l first complete = elim (first == length l) [
    | true ↦ if complete then [] else merkle_root sha256 l ∷ []
    | false ↦
        let k = largest_power_less_than (length l) in
        elim (leb first k) [
          | true ↦
              consistency_within fuel (take k l) first complete
              ++ merkle_root sha256 (drop k l) ∷ []
          | false ↦
              consistency_within fuel (drop k l) (first - k) false
              ++ merkle_root sha256 (take k l) ∷ []
        ]
  ]

  unfoldable pub build_consistency_proof : List Text → ℕ → Result Error ConsistencyProof
  unfolding consistency_within
  build_consistency_proof leaves first =
      if ltb max_json_safe_sequence (length leaves) || ltb (length leaves) first
      then err Error.unavailable
      else if first == 0 || first == length leaves
      then ok (record { first_size = first; second_size = length leaves; path = [] })
      else ok (record {
        first_size = first;
        second_size = length leaves;
        path = consistency_within (length leaves) leaves first true;
      })

  -- What a round does to the hash of the first tree.
  abbrev pub extended : ℕ → ℕ → Text → Text → Text
  extended fn sn node first =
      if odd fn || fn == sn then merkle_node_hash sha256 node first else first

  -- The loop of VerifyConsistency; `none` where it returns false.
  unfoldable pub consistency_loop : List Text → ℕ → ℕ → Text → Text → Option (ℕ × Text × Text)
  unfolding shifted merkle_node_hash
  consistency_loop [] fn sn first second = some (sn, first, second)
  consistency_loop (node ∷ path) fn sn first second = elim (sn == 0) [
    | true ↦ none
    | false ↦
        let (f, s) = shifted fn sn in
        consistency_loop path f s (extended fn sn node first) (combined sha256 fn sn node second)
  ]

  -- From the first node of the path on.
  unfoldable pub verify_path : List Text → ℕ → ℕ → Text → Text → Bool
  unfolding consistency_loop skip_ones
  verify_path [] first_size second_size first_root second_root = false
  verify_path (start ∷ path) first_size second_size first_root second_root =
      let (fn, sn) = skip_ones (first_size - 1) (first_size - 1) (second_size - 1) in
      ends_with (consistency_loop path fn sn start start) first_root second_root

  unfoldable pub verify_consistency : Text → Text → ConsistencyProof → Bool
  unfolding verify_path
  verify_consistency first_root second_root proof =
      if ltb proof.second_size proof.first_size
        || ltb max_json_safe_sequence proof.second_size
        || ltb max_proof_nodes (length proof.path)
      then false
      else if proof.first_size == 0
      then length proof.path == 0 && first_root == empty_merkle_root sha256
      else if proof.first_size == proof.second_size
      then length proof.path == 0 && first_root == second_root
      else if length proof.path == 0
      then false
      else verify_path (started first_root proof) proof.first_size proof.second_size first_root
          second_root
