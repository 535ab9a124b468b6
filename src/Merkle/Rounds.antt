-- ===== src/Merkle/Rounds.antt =====
-- The rounds of VerifyConsistency, and the roots of the first leaves of a tree.
use mathlib.Core.Path.{ap₂}
use yukh_coordination.Base.{
  ℕ, zero, suc, ◌+◌, ◌-◌, ◌*◌, ◌/◌, ◌^◌, ◌≤◌, ◌<◌, ◌≡◌, refl, ap, sym, ◌∙◌, inl, inr, true, false,
  Bool, List, [], ◌∷◌, ◌++◌, arith, Text, length, take, drop, length-take, take-take, drop-take,
  Bool-cases, dec_lt, ◌==◌, nat_eq,
}
use yukh_coordination.Merkle.{
  largest_power_less_than, merkle_node_hash, merkle_root, shifted, combined, odd,
}
use yukh_coordination.Merkle.Powers.{
  largest_power_bounds, two_pow_pos, two_pow_mono, shifted-two_pow, shifted-left, shifted-right,
  odd_multiple_pos,
}
use yukh_coordination.Merkle.Root.{half, half_bounds, merkle_root-split}
use yukh_coordination.Merkle.Consistency.{consistency_within, consistency_loop, extended}

-- A number determines the power of two below it.
pub largest_power_unique : (n a : ℕ) → 2 ^ a < n → n ≤ 2 ^ suc a → largest_power_less_than n ≡ 2 ^ a
largest_power_unique n a low high =
    let (m, split, under, over) = largest_power_bounds n (omega (arith, two_pow_pos a)) in
    elim (dec_lt m a) [
      | yes lt ↦ absurd (omega (arith, two_pow_mono (suc m) a lt))
      | no ge ↦ elim (dec_lt a m) [
        | yes gt ↦ absurd (omega (arith, two_pow_mono (suc a) m gt))
        | no le ↦ split ∙ ap (λ t. 2 ^ t) (omega arith)
      ]
    ]

half-take :
    (l : List Text) (m : ℕ) → 2 ≤ length l → half l < m → m ≤ length l → half (take m l) ≡ half l
half-take l m two low high =
    let (a, split, under, over) = largest_power_bounds (length l) two in
    ap largest_power_less_than (omega (arith, length-take m l))
    ∙ (largest_power_unique m a (omega arith) (omega arith) ∙ sym split)

module _ (sha256 : Text → Text) where
  -- The root of the first leaves, where these fill the left half.
  pub merkle_root-take :
      (l : List Text) (m : ℕ)
      → 2 ≤ length l
      → half l < m
      → m ≤ length l
      → merkle_root sha256 (take m l)
        ≡ merkle_node_hash sha256
            (merkle_root sha256 (take (half l) l))
            (merkle_root sha256 (take (m - half l) (drop (half l) l)))
  merkle_root-take l m two low high =
      let (pos, inside) = half_bounds l two in
      let k : half (take m l) ≡ half l = half-take l m two low high in
      let left : take (half (take m l)) (take m l) ≡ take (half l) l =
        ap (λ n. take n (take m l)) k ∙ take-take (half l) m l (omega arith) in
      let right : drop (half (take m l)) (take m l) ≡ take (m - half l) (drop (half l) l) =
        ap (λ n. drop n (take m l)) k ∙ drop-take (half l) m l in
      merkle_root-split sha256 (take m l) (omega (arith, length-take m l))
      ∙ ap₂ (λ a b. merkle_node_hash sha256 (merkle_root sha256 a) (merkle_root sha256 b)) left
          right

  -- The path of a tree, from that of a half.
  pub consistency_within_whole :
      (fuel m : ℕ) (l : List Text)
      → m ≡ length l
      → consistency_within sha256 fuel l m false ≡ merkle_root sha256 l ∷ []
  unfolding consistency_within
  consistency_within_whole zero m l h = ground arith
  consistency_within_whole (suc fuel) m l h = ground arith

  pub consistency_within_complete :
      (fuel m : ℕ) (l : List Text) → m ≡ length l → consistency_within sha256 fuel l m true ≡ []
  unfolding consistency_within
  consistency_within_complete zero m l h = ground arith
  consistency_within_complete (suc fuel) m l h = ground arith

  pub consistency_within_left :
      (fuel m : ℕ) (l : List Text) (complete : Bool)
      → m < length l
      → m ≤ half l
      → consistency_within sha256 (suc fuel) l m complete
        ≡ consistency_within sha256 fuel (take (half l) l) m complete
          ++ merkle_root sha256 (drop (half l) l) ∷ []
  unfolding consistency_within
  consistency_within_left fuel m l complete h low = ground arith

  pub consistency_within_right :
      (fuel m : ℕ) (l : List Text) (complete : Bool)
      → m < length l
      → half l < m
      → consistency_within sha256 (suc fuel) l m complete
        ≡ consistency_within sha256 fuel (drop (half l) l) (m - half l) false
          ++ merkle_root sha256 (take (half l) l) ∷ []
  unfolding consistency_within
  consistency_within_right fuel m l complete h low = ground arith

  -- One round of the loop.
  consistency_step :
      (s a b a' b' : Text) (rest : List Text) (fn sn f w : ℕ)
      → 0 < sn
      → shifted fn sn ≡ (f, w)
      → extended sha256 fn sn s a ≡ a'
      → combined sha256 fn sn s b ≡ b'
      → consistency_loop sha256 (s ∷ rest) fn sn a b ≡ consistency_loop sha256 rest f w a' b'
  unfolding consistency_loop
  consistency_step s a b a' b' rest fn sn f w pos next first second = elim (Bool-cases (sn == 0)) [
    | inl z ↦ absurd (ground arith)
    | inr z ↦ rw (z, next, first, second, consistency_loop) refl
  ]

  pub consistency_left :
      (s a b : Text) (rest : List Text) (q w : ℕ)
      → 2 * q < w
      → consistency_loop sha256 (s ∷ rest) (2 * q) w a b
        ≡ consistency_loop sha256 rest q (w / 2) a (merkle_node_hash sha256 b s)
  consistency_left s a b rest q w h =
      consistency_step s a b _ _ rest (2 * q) w q (w / 2) (omega arith) (shifted-left q w h)
        (ground arith) (ground arith)

  pub consistency_right :
      (s a b : Text) (rest : List Text) (q w : ℕ)
      → 2 * q + 1 ≤ w
      → consistency_loop sha256 (s ∷ rest) (2 * q + 1) w a b
        ≡ consistency_loop sha256 rest q
            (w / 2)
            (merkle_node_hash sha256 s a)
            (merkle_node_hash sha256 s b)
  consistency_right s a b rest q w h =
      consistency_step s a b _ _ rest (2 * q + 1) w q (w / 2) (omega arith) (shifted-right q w)
        (ground arith) (ground arith)

  pub consistency_edge :
      (s a b : Text) (rest : List Text) (q j : ℕ)
      → odd q ≡ true
      → consistency_loop sha256 (s ∷ rest) (q * 2 ^ j) (q * 2 ^ j) a b
        ≡ consistency_loop sha256 rest
            (q / 2)
            (q / 2)
            (merkle_node_hash sha256 s a)
            (merkle_node_hash sha256 s b)
  consistency_edge s a b rest q j o =
      consistency_step s a b _ _ rest (q * 2 ^ j) (q * 2 ^ j) (q / 2) (q / 2)
        (odd_multiple_pos q j o) (shifted-two_pow q j o) (ground arith) (ground arith)
