-- ===== src/Merkle.antt =====
-- internal/relay/audit/merkle.go: the RFC 9162 Merkle tree over the leaves of the audit ledger. The
-- SHA-256 function is a parameter; hashes are byte lists.
pub mod Powers
pub mod Root
mod Subtrees
pub mod Inclusion
pub mod Binding
pub mod Consistency
mod Digits
mod Rounds
mod Resumes
mod Prefixes
mod Nodes
pub mod Continuation
pub mod Growth
mod Tests
use yukh_coordination.Base.{
  ℕ, zero, suc, ◌+◌, ◌-◌, ◌*◌, ◌/◌, ◌%◌, ◌^◌, Bool, true, false, not, ◌&&◌, ◌||◌, Option, none,
  some, List, [], ◌∷◌, ◌++◌, ltb, ◌==◌, ◌!=◌, nat_eq, text_eq, Text, Result, ok, err, length, take,
  drop, if◌then◌else◌, text,
}

abbrev pub max_proof_nodes : ℕ
max_proof_nodes = 54

abbrev pub max_json_safe_sequence : ℕ
max_json_safe_sequence = 9_007_199_254_740_991

pub data Error : Type 0 where
  unavailable : Error

pub record InclusionProof : Type 0 where
  pub leaf_index : ℕ
  pub tree_size : ℕ
  pub path : List Text

-- bits.Len64; `fuel` is never less than the number.
unfoldable pub bit_length : ℕ → ℕ → ℕ
bit_length zero x = 0
bit_length (suc fuel) x = elim (x == 0) [ true ↦ 0 | false ↦ suc (bit_length fuel (x / 2)) ]

unfoldable pub largest_power_less_than : ℕ → ℕ
unfolding bit_length
largest_power_less_than value = 2 ^ (bit_length (value - 1) (value - 1) - 1)

-- The eight bytes of binary.BigEndian.PutUint64, from the most significant of `n` digits down.
unfoldable pub big_endian : ℕ → ℕ → Text
big_endian zero x = []
big_endian (suc n) x = (x / 256 ^ n) % 256 ∷ big_endian n x

abbrev pub odd : ℕ → Bool
odd n = n % 2 == 1

-- `for fn != 0 && fn&1 == 0 { fn >>= 1; sn >>= 1 }`; `fuel` is `fn` at the start.
unfoldable pub skip_zeros : ℕ → ℕ → ℕ → ℕ × ℕ
skip_zeros zero fn sn = (fn, sn)
skip_zeros (suc fuel) fn sn = elim (fn == 0 || odd fn) [
  | true ↦ (fn, sn)
  | false ↦ skip_zeros fuel (fn / 2) (sn / 2)
]

-- The two indices at the end of one round of the verifying loops.
unfoldable pub shifted : ℕ → ℕ → ℕ × ℕ
unfolding skip_zeros
shifted fn sn =
    if odd fn || fn != sn
    then (fn / 2, sn / 2)
    else (let (f, s) = skip_zeros fn fn sn in (f / 2, s / 2))

module _ (sha256 : Text → Text) where
  abbrev pub empty_merkle_root : Text
  empty_merkle_root = sha256 []

  unfoldable pub merkle_leaf_hash : ℕ → Text → Result Error Text
  unfolding big_endian
  merkle_leaf_hash sequence chain_digest =
      if sequence == 0 || ltb max_json_safe_sequence sequence
      then err Error.unavailable
      else ok (
          sha256 (
            0 ∷ text "yukh-coordination:audit-merkle-leaf:v1"
            ++ (10 ∷ big_endian 8 sequence ++ chain_digest)))

  unfoldable pub merkle_node_hash : Text → Text → Text
  merkle_node_hash left right = sha256 (1 ∷ left ++ right)

  -- MerkleRoot, with fuel; `merkle_root` gives it the number of leaves.
  unfoldable pub root_within : ℕ → List Text → Text
  unfolding merkle_node_hash largest_power_less_than
  root_within fuel [] = empty_merkle_root
  root_within fuel (x ∷ []) = x
  root_within zero (x ∷ y ∷ l) = empty_merkle_root
  root_within (suc fuel) (x ∷ y ∷ l) =
      let k = largest_power_less_than (length (x ∷ y ∷ l)) in
      merkle_node_hash (root_within fuel (take k (x ∷ y ∷ l)))
        (root_within fuel (drop k (x ∷ y ∷ l)))

  unfoldable pub merkle_root : List Text → Text
  unfolding root_within
  merkle_root leaves = root_within (length leaves) leaves

  -- buildInclusionPath, with fuel; the appended sibling comes last.
  unfoldable pub path_within : ℕ → List Text → ℕ → List Text
  unfolding merkle_root largest_power_less_than
  path_within fuel [] index = []
  path_within fuel (x ∷ []) index = []
  path_within zero (x ∷ y ∷ l) index = []
  path_within (suc fuel) (x ∷ y ∷ l) index =
      let k = largest_power_less_than (length (x ∷ y ∷ l)) in
      elim (ltb index k) [
        | true ↦
            path_within fuel (take k (x ∷ y ∷ l)) index ++ merkle_root (drop k (x ∷ y ∷ l)) ∷ []
        | false ↦
            path_within fuel (drop k (x ∷ y ∷ l)) (index - k)
            ++ merkle_root (take k (x ∷ y ∷ l)) ∷ []
      ]

  unfoldable pub build_inclusion_proof : List Text → ℕ → Result Error InclusionProof
  unfolding path_within
  build_inclusion_proof leaves index =
      if length leaves == 0
        || ltb max_json_safe_sequence (length leaves)
        || not (ltb index (length leaves))
      then err Error.unavailable
      else ok (record {
        leaf_index = index;
        tree_size = length leaves;
        path = path_within (length leaves) leaves index;
      })

  abbrev pub combined : ℕ → ℕ → Text → Text → Text
  combined fn sn sibling result =
      if odd fn || fn == sn
      then merkle_node_hash sibling result
      else merkle_node_hash result sibling

  -- The loop of VerifyInclusion; `none` where it returns false.
  unfoldable pub inclusion_loop : List Text → ℕ → ℕ → Text → Option (ℕ × Text)
  unfolding shifted merkle_node_hash
  inclusion_loop [] fn sn result = some (sn, result)
  inclusion_loop (sibling ∷ path) fn sn result = elim (sn == 0) [
    | true ↦ none
    | false ↦ let (f, s) = shifted fn sn in inclusion_loop path f s (combined fn sn sibling result)
  ]

  abbrev pub ends_at : Option (ℕ × Text) → Text → Bool
  ends_at none root = false
  ends_at (some (sn, result)) root = sn == 0 && result == root

  unfoldable pub verify_inclusion : Text → Text → InclusionProof → Bool
  unfolding inclusion_loop
  verify_inclusion leaf root proof =
      if proof.tree_size == 0
        || ltb max_json_safe_sequence proof.tree_size
        || not (ltb proof.leaf_index proof.tree_size)
        || ltb max_proof_nodes (length proof.path)
      then false
      else ends_at (inclusion_loop proof.path proof.leaf_index (proof.tree_size - 1) leaf) root
