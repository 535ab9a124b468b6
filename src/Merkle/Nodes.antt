-- ===== src/Merkle/Nodes.antt =====
-- The paths of BuildConsistencyProof: their first node and their length.
use mathlib.Core.Path.{ap₂}
use yukh_coordination.Base.{
  ℕ, zero, suc, ◌-◌, ◌^◌, ◌≤◌, ◌<◌, ◌≡◌, ap, sym, ◌∙◌, inl, inr, Bool, true, false, List, [], ◌∷◌,
  ◌++◌, arith, Text, length, take, drop, take-take, take-all, length-append, text_eq, dec_lt,
  nat_eq, Bool-cases,
}
use yukh_coordination.Merkle.{merkle_root}
use yukh_coordination.Merkle.Powers.{largest_power_bounds, two_pow-suc, two_pow_mono, two_pow_pos}
use yukh_coordination.Merkle.Root.{half, length-left, length-right}
use yukh_coordination.Merkle.Inclusion.{taller_lem}
use yukh_coordination.Merkle.Consistency.{is_power, consistency_within}
use yukh_coordination.Merkle.Digits.{is_power-two_pow}
use yukh_coordination.Merkle.Rounds.{
  consistency_within_whole, consistency_within_complete, consistency_within_left,
  consistency_within_right,
}

module _ (sha256 : Text → Text) where
  -- The path without its first node, where that is the root of the first tree.
  pub power_path :
      (fuel j : ℕ) (l : List Text) (m : ℕ)
      → length l ≤ fuel
      → m ≡ 2 ^ j
      → m ≤ length l
      → merkle_root sha256 (take m l) ∷ consistency_within sha256 fuel l m true
        ≡ consistency_within sha256 fuel l m false
  power_path zero j l m enough power inside = absurd (omega (arith, two_pow_pos j))
  power_path (suc fuel) j l m enough power inside = elim (dec_lt m (length l)) [
    | no ge ↦
        let all : m ≡ length l = omega arith in
        ap₂ (λ (x : Text) y. x ∷ y) (ap (merkle_root sha256) (take-all m l (omega arith)))
          (consistency_within_complete sha256 (suc fuel) m l all)
        ∙ sym (consistency_within_whole sha256 (suc fuel) m l all)
    | yes lt ↦
        let two : 2 ≤ length l = omega (arith, two_pow_pos j) in
        let (a, k, low, high) = largest_power_bounds (length l) two in
        let short : m ≤ half l =
          omega (arith, taller_lem j (suc a) (length l) (omega arith) high, two_pow_mono j a) in
        let left_size = length-left l two in
        ap₂ (λ (x : Text) y. x ∷ y) (ap (merkle_root sha256) (sym (take-take m (half l) l short)))
          (consistency_within_left sha256 fuel m l true lt short)
        ∙ (ap (λ p. p ++ merkle_root sha256 (drop (half l) l) ∷ [])
              (power_path fuel j (take (half l) l) m (omega arith) power (omega arith))
            ∙ sym (consistency_within_left sha256 fuel m l false lt short))
  ]

  -- Every other path is the same for both.
  pub other_path :
      (fuel : ℕ) (l : List Text) (m : ℕ)
      → length l ≤ fuel
      → 0 < m
      → m < length l
      → is_power m ≡ false
      → consistency_within sha256 fuel l m true ≡ consistency_within sha256 fuel l m false
  other_path zero l m enough pos inside other = absurd (omega arith)
  other_path (suc fuel) l m enough pos inside other =
      let two : 2 ≤ length l = omega arith in
      let (a, k, low, high) = largest_power_bounds (length l) two in
      let left_size = length-left l two in
      elim (dec_lt (half l) m) [
        | yes long ↦
            consistency_within_right sha256 fuel m l true inside long
            ∙ sym (consistency_within_right sha256 fuel m l false inside long)
        | no short ↦ elim (dec_lt m (half l)) [
          | no ge ↦
              let power : m ≡ 2 ^ a = omega arith in
              absurd (ground (arith, is_power-two_pow a, ap is_power power))
          | yes lt ↦
              consistency_within_left sha256 fuel m l true inside (omega arith)
              ∙ (ap (λ p. p ++ merkle_root sha256 (drop (half l) l) ∷ [])
                    (other_path fuel (take (half l) l) m (omega arith) pos (omega arith) other)
                  ∙ sym (consistency_within_left sha256 fuel m l false inside (omega arith)))
        ]
      ]

  -- No more nodes than levels and one.
  pub length-consistency_within :
      (fuel t : ℕ) (l : List Text) (m : ℕ) (complete : Bool)
      → length l ≤ fuel
      → length l ≤ 2 ^ t
      → 0 < m
      → m ≤ length l
      → length (consistency_within sha256 fuel l m complete) ≤ suc t
  length-consistency_within zero t l m complete enough fits pos inside = absurd (omega arith)
  length-consistency_within (suc fuel) t l m complete enough fits pos inside =
      elim (dec_lt m (length l)) [
        | no ge ↦ elim (Bool-cases complete) [
          | inl c ↦ omega (
            arith,
            ap (λ b. length (consistency_within sha256 (suc fuel) l m b)) c,
            ap length (consistency_within_complete sha256 (suc fuel) m l (omega arith)),
          )
          | inr c ↦ omega (
            arith,
            ap (λ b. length (consistency_within sha256 (suc fuel) l m b)) c,
            ap length (consistency_within_whole sha256 (suc fuel) m l (omega arith)),
          )
        ]
        | yes lt ↦
            let two : 2 ≤ length l = omega arith in
            let (a, k, low, high) = largest_power_bounds (length l) two in
            let d = two_pow-suc a in
            let taller : a < t = taller_lem a t (length l) low fits in
            let left_size = length-left l two in
            let right_size = length-right l in
            elim (dec_lt (half l) m) [
              | yes long ↦
                  let sub =
                    length-consistency_within fuel a (drop (half l) l) (m - half l) false
                      (omega arith) (omega arith) (omega arith) (omega arith) in
                  omega (
                    arith,
                    ap length (consistency_within_right sha256 fuel m l complete lt long),
                    length-append {0}
                        (consistency_within sha256 fuel (drop (half l) l) (m - half l) false)
                        (merkle_root sha256 (take (half l) l) ∷ []),
                  )
              | no short ↦
                  let sub =
                    length-consistency_within fuel a (take (half l) l) m complete (omega arith)
                      (omega arith) pos (omega arith) in
                  omega (
                    arith,
                    ap length (consistency_within_left sha256 fuel m l complete lt (omega arith)),
                    length-append {0} (consistency_within sha256 fuel (take (half l) l) m complete)
                        (merkle_root sha256 (drop (half l) l) ∷ []),
                  )
            ]
      ]

  -- A tree that grows has a node on its path.
  pub consistency_within_pos :
      (fuel : ℕ) (l : List Text) (m : ℕ) (complete : Bool)
      → length l ≤ fuel
      → m < length l
      → 0 < length (consistency_within sha256 fuel l m complete)
  consistency_within_pos zero l m complete enough inside = absurd (omega arith)
  consistency_within_pos (suc fuel) l m complete enough inside = elim (dec_lt (half l) m) [
    | yes long ↦ omega (
      arith,
      ap length (consistency_within_right sha256 fuel m l complete inside long),
      length-append {0} (consistency_within sha256 fuel (drop (half l) l) (m - half l) false)
          (merkle_root sha256 (take (half l) l) ∷ []),
    )
    | no short ↦ omega (
      arith,
      ap length (consistency_within_left sha256 fuel m l complete inside (omega arith)),
      length-append {0} (consistency_within sha256 fuel (take (half l) l) m complete)
          (merkle_root sha256 (drop (half l) l) ∷ []),
    )
  ]
