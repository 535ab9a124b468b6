-- ===== src/Merkle/Prefixes.antt =====
-- The loop of VerifyConsistency on the path that BuildConsistencyProof makes.
use yukh_coordination.Base.{
  ℕ, zero, suc, ◌+◌, ◌-◌, ◌*◌, ◌/◌, ◌^◌, ◌≤◌, ◌<◌, ◌≡◌, ◌⊎◌, refl, ap, ◌∙◌, inl, inr, false, List,
  arith, Text, length, take, drop, dec_lt, nat_eq,
}
use yukh_coordination.Merkle.{largest_power_less_than, odd}
use yukh_coordination.Merkle.Powers.{
  largest_power_bounds, largest_power-two_pow, two_pow_pos, two_pow-suc,
}
use yukh_coordination.Merkle.Root.{half, length-left, length-right}
use yukh_coordination.Merkle.Subtrees.{halve}
use yukh_coordination.Merkle.Inclusion.{scale, taller_lem, odd-suc_double}
use yukh_coordination.Merkle.Consistency.{consistency_within}
use yukh_coordination.Merkle.Rounds.{consistency_right, consistency_edge}
use yukh_coordination.Merkle.Resumes.{Resumes, same_loop, enter_whole, leave_left, leave_right}

odd-double : (a : ℕ) → odd (2 * a) ≡ false
odd-double a = ground arith

module _ (sha256 : Text → Text) where
  -- A complete subtree of height `t` at offset `q`, left of the right edge.
  complete_prefix :
      (fuel t : ℕ) (l : List Text) (m q w e size last : ℕ)
      → length l ≤ fuel
      → length l ≡ 2 ^ t
      → 0 < m
      → m ≤ length l
      → (m < length l) ⊎ (odd q ≡ false)
      → q < w
      → e < 2 ^ t
      → size ≡ q * 2 ^ t + m
      → last ≡ w * 2 ^ t + e
      → Resumes sha256 (consistency_within sha256 fuel l m false) l m size last q w
  complete_prefix zero t l m q w e size last enough full pos inside turn below small se le =
      absurd (omega arith)
  complete_prefix (suc fuel) zero l m q w e size last enough full pos inside turn below small se
        le =
      enter_whole sha256 (suc fuel) zero l m q w e size last full (omega arith) turn small se le
  complete_prefix (suc fuel) (suc t) l m q w e size last enough full pos inside turn below small se
        le =
      let two : 2 ≤ length l = omega (arith, two_pow-suc t, two_pow_pos t) in
      let k : half l ≡ 2 ^ t = ap largest_power_less_than full ∙ largest_power-two_pow t in
      let p = ap (λ (x : ℕ). q * x) (two_pow-suc t) in
      let d = two_pow-suc t in
      let (w', e', back, wide, small', le') = halve t w e last small le in
      let left_size = length-left l two in
      let right_size = length-right l in
      elim (dec_lt m (length l)) [
        | no whole ↦
            enter_whole sha256 (suc fuel) (suc t) l m q w e size last full (omega arith) turn small
              se le
        | yes lt ↦ elim (dec_lt (half l) m) [
          | no low ↦
              leave_left sha256 fuel l m q w' w size last two lt (omega arith) (omega arith) back (
                complete_prefix fuel t (take (half l) l) m (2 * q) w' e' size last (omega arith)
                  (left_size ∙ k) pos (omega arith) (inr (odd-double q)) (omega arith) small'
                  (omega arith) le')
          | yes high ↦
              leave_right sha256 fuel l m (2 * q + 1) w' size last q w two lt high
                (complete_prefix fuel t (drop (half l) l) (m - half l) (2 * q + 1) w' e' size last
                  (omega arith) (omega arith) (omega arith) (omega arith) (inl (omega arith))
                  (omega arith) small' (omega arith) le')
                λ node a b more.
                  consistency_right sha256 node a b more q w' (omega arith)
                  ∙ same_loop sha256 more q (w' / 2) q w _ _ _ _ refl back refl refl
        ]
      ]

  -- A subtree at the right edge, of at most `2 ^ t` leaves at offset `q`.
  pub edge_prefix :
      (fuel t : ℕ) (l : List Text) (m q size last : ℕ)
      → length l ≤ fuel
      → length l ≤ 2 ^ t
      → 0 < m
      → m < length l
      → size ≡ q * 2 ^ t + m
      → last ≡ q * 2 ^ t + (length l - 1)
      → (j : ℕ) × Resumes sha256
          (consistency_within sha256 fuel l m false)
          l
          m
          size
          last
          (q * 2 ^ j)
          (q * 2 ^ j)
  edge_prefix zero t l m q size last enough fits pos inside se le = absurd (omega arith)
  edge_prefix (suc fuel) t l m q size last enough fits pos inside se le =
      let two : 2 ≤ length l = omega arith in
      let (a, k, low, high) = largest_power_bounds (length l) two in
      let d = two_pow-suc a in
      let taller : a < t = taller_lem a t (length l) low fits in
      let u = t - suc a in
      let c = q * 2 ^ u in
      let whole : q * 2 ^ t ≡ 2 * c * 2 ^ a = scale q a u t (omega arith) in
      let left_size = length-left l two in
      let right_size = length-right l in
      elim (dec_lt (half l) m) [
        | no short ↦ (
          u,
          leave_left sha256 fuel l m c (2 * c + 1) c size last two inside (omega arith)
              (omega arith) (omega arith)
              (complete_prefix fuel a (take (half l) l) m (2 * c) (2 * c + 1) (length l - 1 - 2 ^ a)
                size last (omega arith) (left_size ∙ k) pos (omega arith) (inr (odd-double c))
                (omega arith) (omega arith) (omega arith) (omega arith)),
        )
        | yes long ↦
            let (j, sub) =
              edge_prefix fuel a (drop (half l) l) (m - half l) (2 * c + 1) size last (omega arith)
                (omega arith) (omega arith) (omega arith) (omega arith) (omega arith) in
            (
              u,
              leave_right sha256 fuel l m ((2 * c + 1) * 2 ^ j) ((2 * c + 1) * 2 ^ j) size last c c
                  two inside long sub
                  λ node a b more.
                    consistency_edge sha256 node a b more (2 * c + 1) j (odd-suc_double c)
                    ∙ same_loop sha256 more _ _ c c _ _ _ _ (omega arith) (omega arith) refl refl,
            )
      ]
