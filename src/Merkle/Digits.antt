-- ===== src/Merkle/Digits.antt =====
-- The digits that VerifyConsistency looks at: trailing ones, and the test for a power of two.
use Prim.Native.Nat.{min, bit_and, digits, bit_and-bitwise}
use native.Mathlib.Nat.{mul-one, mul-pos, suc-add}
use yukh_coordination.Base.{
  ℕ, zero, suc, ◌+◌, ◌-◌, ◌*◌, ◌/◌, ◌%◌, ◌^◌, ◌≤◌, ◌<◌, ◌≡◌, refl, ap, sym, ◌∙◌, dec_lt, Bool-cases,
  inl, inr, true, false, arith, nat_eq,
}
use yukh_coordination.Merkle.{odd}
use yukh_coordination.Merkle.Powers.{two_pow-suc, two_pow_pos}
use yukh_coordination.Merkle.Consistency.{is_power, skip_ones}

-- The native operation, with rounds to spare.
abbrev rounds : ℕ → ℕ → ℕ → ℕ
rounds n a b = digits (λ x. 0) min n a b

rounds-nothing : (n b : ℕ) → rounds n 0 b ≡ 0
rounds-nothing zero b = refl
rounds-nothing (suc n) b = refl

rounds-more : (n d a b : ℕ) → a ≤ n → rounds (n + d) a b ≡ rounds n a b
rounds-more zero d a b h =
    let e : a ≡ 0 = omega arith in rw e (rounds-nothing (0 + d) b ∙ sym (rounds-nothing 0 b))
rounds-more (suc n) d zero b h = rounds-nothing (suc n + d) b ∙ sym (rounds-nothing (suc n) b)
rounds-more (suc n) d (suc a) b h =
    rw suc-add (omega (arith, rounds-more n d (suc a / 2) (b / 2) (omega arith)))

-- The lowest digit of a conjunction.
bit_and_halves : (a b : ℕ) → bit_and a b ≡ 2 * bit_and (a / 2) (b / 2) + min (a % 2) (b % 2)
bit_and_halves zero b =
    omega (arith, bit_and-bitwise 0 b, bit_and-bitwise 0 (b / 2), rounds-nothing 0 b)
bit_and_halves (suc a) b =
    let half = suc a / 2 in
    let spare : half + (a - half) ≡ a = omega arith in
    omega (
      arith,
      bit_and-bitwise (suc a) b,
      bit_and-bitwise half (b / 2),
      rounds-more half (a - half) half (b / 2) (omega arith),
      ap (λ n. rounds n half (b / 2)) spare,
    )

doubled : (q j : ℕ) → q * 2 ^ suc j ≡ 2 * (q * 2 ^ j)
doubled q j = omega (arith, ap (λ (t : ℕ). q * t) (two_pow-suc j))

skip_ones-even : (fuel fn sn : ℕ) → odd fn ≡ false → skip_ones fuel fn sn ≡ (fn, sn)
unfolding skip_ones
skip_ones-even zero fn sn h = refl
skip_ones-even (suc fuel) fn sn h = ground arith

bit_and_self : (fuel a : ℕ) → a ≤ fuel → bit_and a a ≡ a
bit_and_self fuel zero h = bit_and-bitwise 0 0
bit_and_self zero (suc a) h = absurd (omega arith)
bit_and_self (suc fuel) (suc a) h =
    omega (arith, bit_and_halves (suc a) (suc a), bit_and_self fuel (suc a / 2) (omega arith))

-- `n & (n - 1)` clears the lowest one of `n`.
bit_and_pred : (s j n : ℕ) → odd s ≡ false → n ≡ suc s * 2 ^ j → bit_and n (n - 1) ≡ s * 2 ^ j
bit_and_pred s zero n even e =
    let one : n ≡ suc s = e ∙ mul-one (suc s) in
    let parity : s % 2 ≡ 0 = ground arith in
    let low : (n - 1) / 2 ≡ n / 2 = omega arith in
    omega (
      arith,
      bit_and_halves n (n - 1),
      ap (λ (x : ℕ). bit_and (n / 2) x) low,
      bit_and_self (n / 2) (n / 2) (omega arith),
      mul-one s,
    )
bit_and_pred s (suc j) n even e =
    let twice : suc s * 2 ^ suc j ≡ 2 * (suc s * 2 ^ j) = doubled (suc s) j in
    let pos : 0 < suc s * 2 ^ j = mul-pos (omega arith) (two_pow_pos j) in
    let low : (n - 1) / 2 ≡ n / 2 - 1 = omega arith in
    omega (
      arith,
      bit_and_halves n (n - 1),
      ap (λ (x : ℕ). bit_and (n / 2) x) low,
      bit_and_pred s j (n / 2) even (omega arith),
      doubled s j,
    )

pub is_power-two_pow : (j : ℕ) → is_power (2 ^ j) ≡ true
is_power-two_pow j = ground (arith, bit_and_pred 0 j (2 ^ j) (ground arith) (omega arith))

-- A number that passes the test is a power of two.
pub is_power_exponent :
    (s j n : ℕ) → odd s ≡ false → n ≡ suc s * 2 ^ j → is_power n ≡ true → n ≡ 2 ^ j
is_power_exponent s j n even e h = elim (dec_lt 0 s) [
  | yes pos ↦ absurd (ground (arith, bit_and_pred s j n even e, mul-pos pos (two_pow_pos j)))
  | no none_left ↦
      let zero_left : s ≡ 0 = omega arith in
      e ∙ (ap (λ (t : ℕ). suc t * 2 ^ j) zero_left ∙ omega arith)
]

pub skip_ones-two_pow :
    (fuel s j v e fn sn : ℕ)
    → j ≤ fuel
    → odd s ≡ false
    → fn + 1 ≡ suc s * 2 ^ j
    → e < 2 ^ j
    → sn ≡ v * 2 ^ j + e
    → skip_ones fuel fn sn ≡ (s, v)
unfolding skip_ones
skip_ones-two_pow fuel s zero v e fn sn h even a b c =
    let same : fn ≡ s = omega (arith, mul-one (suc s)) in
    let last : sn ≡ v = omega (arith, mul-one v) in ground (arith, skip_ones-even fuel fn sn)
skip_ones-two_pow zero s (suc j) v e fn sn h even a b c = absurd (omega arith)
skip_ones-two_pow (suc fuel) s (suc j) v e fn sn h even a b c =
    let twice : suc s * 2 ^ suc j ≡ 2 * (suc s * 2 ^ j) = doubled (suc s) j in
    let pos : 0 < suc s * 2 ^ j = mul-pos (omega arith) (two_pow_pos j) in
    let wide = doubled v j in
    let p = two_pow-suc j in
    ground (
      arith,
      skip_ones-two_pow fuel s j v (e / 2) (fn / 2) (sn / 2) (omega arith) even (omega arith)
          (omega arith) (omega arith),
    )

-- Every number is an odd one times a power of two.
pub odd_part :
    (fuel n : ℕ) → n ≤ fuel → 0 < n → (s : ℕ) × (j : ℕ) × (odd s ≡ false) × (n ≡ suc s * 2 ^ j)
odd_part zero n h pos = absurd (omega arith)
odd_part (suc fuel) n h pos = elim (Bool-cases (odd n)) [
  | inl o ↦ (n - 1, 0, ground arith, ground arith)
  | inr e ↦
      let even : n % 2 ≡ 0 = ground arith in
      let (s, j, rest, product) = odd_part fuel (n / 2) (omega arith) (omega arith) in
      (s, suc j, rest, omega (arith, doubled (suc s) j))
]
