-- ===== src/Merkle/Root.antt =====
-- MerkleRoot and buildInclusionPath without their fuel: the equations by which they split.
use yukh_coordination.Base.{
  ℕ, zero, suc, ◌-◌, ◌≤◌, ◌<◌, ◌≡◌, refl, ◌∙◌, List, [], ◌∷◌, ◌++◌, arith, lt→ltb, le→ltb, Text,
  length, take, drop, length-take, length-drop,
}
use mathlib.Core.Path.{ap₂}
use yukh_coordination.Merkle.{
  largest_power_less_than, merkle_node_hash, root_within, merkle_root, path_within,
}
use yukh_coordination.Merkle.Powers.{largest_power_bounds, two_pow_pos}

-- The two parts of a tree with two leaves or more.
abbrev pub half : List Text → ℕ
half l = largest_power_less_than (length l)

pub half_bounds : (l : List Text) → 2 ≤ length l → (0 < half l) × (half l < length l)
half_bounds l h =
    let (m, split, low, high) = largest_power_bounds (length l) h in
    omega (arith, split, low, two_pow_pos m)

pub length-left : (l : List Text) → 2 ≤ length l → length (take (half l) l) ≡ half l
length-left l h = let (pos, low) = half_bounds l h in omega (arith, length-take (half l) l, low)

pub length-right : (l : List Text) → length (drop (half l) l) ≡ length l - half l
length-right l = length-drop (half l) l

module _ (sha256 : Text → Text) where
  root_within-step :
      (fuel : ℕ) (l : List Text)
      → 2 ≤ length l
      → root_within sha256 (suc fuel) l
        ≡ merkle_node_hash sha256
            (root_within sha256 fuel (take (half l) l))
            (root_within sha256 fuel (drop (half l) l))
  unfolding root_within
  root_within-step fuel [] h = absurd (omega arith)
  root_within-step fuel (x ∷ []) h = absurd (omega arith)
  root_within-step fuel (x ∷ y ∷ l) h = refl

  root_within-eq :
      (f g : ℕ) (l : List Text)
      → length l ≤ f
      → length l ≤ g
      → root_within sha256 f l ≡ root_within sha256 g l
  unfolding root_within
  root_within-eq f g [] h k = refl
  root_within-eq f g (x ∷ []) h k = refl
  root_within-eq zero g (x ∷ y ∷ l) h k = absurd (omega arith)
  root_within-eq (suc f) zero (x ∷ y ∷ l) h k = absurd (omega arith)
  root_within-eq (suc f) (suc g) (x ∷ y ∷ l) h k =
      let w = x ∷ y ∷ l in
      let (pos, low) = half_bounds w (omega arith) in
      let len = length-left w (omega arith) in
      let rest = length-right w in
      ap₂ (merkle_node_hash sha256)
        (root_within-eq f g (take (half w) w) (omega arith) (omega arith))
        (root_within-eq f g (drop (half w) w) (omega arith) (omega arith))

  pub merkle_root-split :
      (l : List Text)
      → 2 ≤ length l
      → merkle_root sha256 l
        ≡ merkle_node_hash sha256
            (merkle_root sha256 (take (half l) l))
            (merkle_root sha256 (drop (half l) l))
  unfolding merkle_root
  merkle_root-split l h =
      let (pos, low) = half_bounds l h in
      let len = length-left l h in
      let rest = length-right l in
      root_within-eq (length l) (suc (length l)) l (omega arith) (omega arith)
      ∙ (root_within-step (length l) l h
          ∙ ap₂ (merkle_node_hash sha256)
              (root_within-eq (length l) (length (take (half l) l)) (take (half l) l) (omega arith)
                (omega arith))
              (root_within-eq (length l) (length (drop (half l) l)) (drop (half l) l) (omega arith)
                (omega arith)))

  pub merkle_root-one : (x : Text) → merkle_root sha256 (x ∷ []) ≡ x
  unfolding merkle_root
  merkle_root-one x = refl

  -- The path in a tree with two leaves or more: the path in one half, then the root of the other.
  pub path_within-left :
      (fuel : ℕ) (l : List Text) (i : ℕ)
      → 2 ≤ length l
      → i < half l
      → path_within sha256 (suc fuel) l i
        ≡ path_within sha256 fuel (take (half l) l) i ++ merkle_root sha256 (drop (half l) l) ∷ []
  unfolding path_within
  path_within-left fuel [] i h lt = absurd (omega arith)
  path_within-left fuel (x ∷ []) i h lt = absurd (omega arith)
  path_within-left fuel (x ∷ y ∷ l) i h lt = rw (lt→ltb i (half (x ∷ y ∷ l)) lt, path_within)

  pub path_within-right :
      (fuel : ℕ) (l : List Text) (i : ℕ)
      → 2 ≤ length l
      → half l ≤ i
      → path_within sha256 (suc fuel) l i
        ≡ path_within sha256 fuel (drop (half l) l) (i - half l)
          ++ merkle_root sha256 (take (half l) l) ∷ []
  unfolding path_within
  path_within-right fuel [] i h le = absurd (omega arith)
  path_within-right fuel (x ∷ []) i h le = absurd (omega arith)
  path_within-right fuel (x ∷ y ∷ l) i h le = rw (le→ltb i (half (x ∷ y ∷ l)) le, path_within)
