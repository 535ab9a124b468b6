-- ===== src/Merkle/Tests.antt =====
-- The Merkle tree over a stand-in for SHA-256, and the theorems about it at concrete leaves.
use yukh_coordination.Base.{
  ℕ, ◌≤◌, All, ◌≡◌, ◌⊎◌, refl, true, List, [], ◌∷◌, ◌++◌, arith, Text, length, take, drop,
  replicate, length-take, length-append, ok, ℕ_discrete,
}
use yukh_coordination.Merkle.{merkle_root, InclusionProof, build_inclusion_proof, verify_inclusion}
use yukh_coordination.Merkle.Consistency.{
  ConsistencyProof, consistency_within, build_consistency_proof, verify_consistency,
}
use yukh_coordination.Merkle.Continuation.{consistency_complete}
use yukh_coordination.Merkle.Growth.{IsHash, consistency_binding}
use yukh_coordination.Merkle.Inclusion.{inclusion_complete}
use yukh_coordination.Merkle.Binding.{Collision, inclusion_binding}

-- The first 32 bytes behind the tag, filled up with zeros.
abbrev digest : Text → Text
digest x = take 32 (drop 1 x ++ replicate 32 0)

digest_size : (x : Text) → length (digest x) ≡ 32
digest_size x = omega (
  arith,
  length-take 32 (drop 1 x ++ replicate 32 0),
  length-append {0} (drop 1 x) (replicate 32 0),
)

abbrev leaf : ℕ → Text
leaf n = replicate 32 n

abbrev five : List Text
five = leaf 1 ∷ leaf 2 ∷ leaf 3 ∷ leaf 4 ∷ leaf 5 ∷ []

-- The last of five leaves has one sibling, the root of the first four.
abbrev last_proof : InclusionProof
last_proof = record {
  leaf_index = 4;
  tree_size = 5;
  path = merkle_root digest (leaf 1 ∷ leaf 2 ∷ leaf 3 ∷ leaf 4 ∷ []) ∷ [];
}

built : build_inclusion_proof digest five 4 ≡ ok last_proof
unfolding build_inclusion_proof ℕ_discrete
built = refl

inclusion_complete_example :
    verify_inclusion digest (leaf 5) (merkle_root digest five) last_proof ≡ true
inclusion_complete_example = inclusion_complete digest five 4 (leaf 5) last_proof built refl

sibling_size : length (merkle_root digest (leaf 1 ∷ leaf 2 ∷ leaf 3 ∷ leaf 4 ∷ [])) ≡ 32
unfolding merkle_root ℕ_discrete
sibling_size = refl

inclusion_binding_example : (leaf 5 ≡ leaf 5) ⊎ Collision digest
inclusion_binding_example =
    inclusion_binding digest digest_size (leaf 5) (leaf 5) (merkle_root digest five) last_proof
      last_proof refl refl (sibling_size, tt) (sibling_size, tt) refl refl
      inclusion_complete_example inclusion_complete_example

-- The tree of three leaves is no subtree of that of five.
abbrev grown : ConsistencyProof
grown = record { first_size = 3; second_size = 5; path = consistency_within digest 5 five 3 true }

grown_built : build_consistency_proof digest five 3 ≡ ok grown
unfolding build_consistency_proof ℕ_discrete
grown_built = refl

consistency_complete_example :
    verify_consistency digest
      (merkle_root digest (leaf 1 ∷ leaf 2 ∷ leaf 3 ∷ []))
      (merkle_root digest five)
      grown
    ≡ true
consistency_complete_example = consistency_complete digest five 3 grown grown_built

leaf_sizes : All IsHash five
leaf_sizes = (refl, (refl, (refl, (refl, (refl, tt)))))

first_size : IsHash (merkle_root digest (leaf 1 ∷ leaf 2 ∷ leaf 3 ∷ []))
unfolding merkle_root ℕ_discrete
first_size = refl

path_sizes : All IsHash grown.path
unfolding consistency_within ℕ_discrete
path_sizes = (refl, (refl, (refl, (refl, tt))))

consistency_binding_example :
    (3 ≤ 5)
    × ((merkle_root digest (leaf 1 ∷ leaf 2 ∷ leaf 3 ∷ [])
          ≡ merkle_root digest (leaf 1 ∷ leaf 2 ∷ leaf 3 ∷ []))
        ⊎ Collision digest)
consistency_binding_example =
    consistency_binding digest digest_size five (merkle_root digest (leaf 1 ∷ leaf 2 ∷ leaf 3 ∷ []))
      grown leaf_sizes path_sizes first_size refl consistency_complete_example
