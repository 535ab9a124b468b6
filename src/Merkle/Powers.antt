-- ===== src/Merkle/Powers.antt =====
-- Powers of two, bit lengths, the bytes of a number, and the indices of the verifying loops.
use yukh_coordination.Base.{
  ℕ, zero, suc, ◌+◌, ◌-◌, ◌*◌, ◌/◌, ◌^◌, ◌≤◌, ◌<◌, ◌≡◌, refl, ap, true, arith, length, nat_eq,
  dec_lt, ◌∙◌,
}
use native.Mathlib.Nat.{pow-suc, zero-add, one-mul, mul-one, suc-add, mul-pos, mul-le-mul_right}
use yukh_coordination.Merkle.{
  big_endian, bit_length, largest_power_less_than, odd, skip_zeros, shifted,
}

pub length-big_endian : (n x : ℕ) → length (big_endian n x) ≡ n
unfolding big_endian
length-big_endian zero x = refl
length-big_endian (suc n) x = ap suc (length-big_endian n x)

pub two_pow-suc : (m : ℕ) → 2 ^ suc m ≡ 2 * 2 ^ m
two_pow-suc m = omega (arith, pow-suc 2 m)

pub two_pow_pos : (m : ℕ) → 0 < 2 ^ m
two_pow_pos zero = omega arith
two_pow_pos (suc m) = omega (arith, two_pow-suc m, two_pow_pos m)

pub lt-two_pow : (m : ℕ) → m < 2 ^ m
lt-two_pow zero = omega arith
lt-two_pow (suc m) = omega (arith, two_pow-suc m, lt-two_pow m)

pub two_pow-add : (m n : ℕ) → 2 ^ (m + n) ≡ 2 ^ m * 2 ^ n
two_pow-add zero n = simp (zero-add, one-mul)
two_pow-add (suc m) n =
    rw suc-add (
      omega
        (arith, two_pow-suc (m + n), two_pow-add m n, ap (λ (t : ℕ). t * 2 ^ n) (two_pow-suc m)))

pub two_pow_mono : (m n : ℕ) → m ≤ n → 2 ^ m ≤ 2 ^ n
two_pow_mono zero n h = omega (arith, two_pow_pos n)
two_pow_mono (suc m) zero h = absurd (omega arith)
two_pow_mono (suc m) (suc n) h = omega (arith, two_pow-suc m, two_pow-suc n, two_pow_mono m n)

bit_length-zero : (fuel : ℕ) → bit_length fuel 0 ≡ 0
unfolding bit_length
bit_length-zero zero = refl
bit_length-zero (suc fuel) = ground arith

bit_length-half : (fuel x : ℕ) → 0 < x → bit_length (suc fuel) x ≡ suc (bit_length fuel (x / 2))
unfolding bit_length
bit_length-half fuel x p = ground arith

bit_length_bounds :
    (fuel x : ℕ)
    → x ≤ fuel
    → 0 < x
    → (m : ℕ) × (bit_length fuel x ≡ suc m) × (2 ^ m ≤ x) × (x < 2 ^ suc m)
bit_length_bounds zero x h p = absurd (omega arith)
bit_length_bounds (suc fuel) x h p = elim (dec_lt 1 x) [
  | yes more ↦
      let (m, len, low, high) = bit_length_bounds fuel (x / 2) (omega arith) (omega arith) in
      (
        suc m,
        bit_length-half fuel x p ∙ ap suc len,
        omega (arith, two_pow-suc m),
        omega (arith, two_pow-suc (suc m)),
      )
  | no one ↦
      let e : x ≡ 1 = omega arith in
      (
        0,
        bit_length-half fuel x p
            ∙ ap suc (ap (bit_length fuel) (omega arith) ∙ bit_length-zero fuel),
        omega arith,
        omega arith,
      )
]

-- The split of a tree with two leaves or more.
pub largest_power_bounds :
    (n : ℕ) → 2 ≤ n → (m : ℕ) × (largest_power_less_than n ≡ 2 ^ m) × (2 ^ m < n) × (n ≤ 2 ^ suc m)
unfolding largest_power_less_than
largest_power_bounds n h =
    let (m, len, low, high) = bit_length_bounds (n - 1) (n - 1) (omega arith) (omega arith) in
    (m, ap (λ t. 2 ^ (t - 1)) len ∙ ap (λ t. 2 ^ t) (omega arith), omega arith, omega arith)

-- The split of a tree whose number of leaves is a power of two halves it.
pub largest_power-two_pow : (m : ℕ) → largest_power_less_than (2 ^ suc m) ≡ 2 ^ m
largest_power-two_pow m =
    let (k, split, low, high) =
      largest_power_bounds (2 ^ suc m) (omega (arith, two_pow-suc m, two_pow_pos m)) in
    elim (dec_lt k m) [
      | yes below ↦
          absurd (omega (arith, two_pow_mono (suc k) m below, two_pow-suc m, two_pow_pos m))
      | no not_below ↦ elim (dec_lt m k) [
        | yes above ↦ absurd (omega (arith, two_pow_mono (suc m) k above))
        | no not_above ↦ split ∙ ap (λ t. 2 ^ t) (omega arith)
      ]
    ]

-- An odd number times a power of two, from the half of the power.
odd_multiple : (q j : ℕ) → odd q ≡ true → (q * 2 ^ suc j ≡ 2 * (q * 2 ^ j)) × (0 < q * 2 ^ j)
odd_multiple q j o =
    (omega (arith, ap (λ (t : ℕ). q * t) (two_pow-suc j)), mul-pos (ground arith) (two_pow_pos j))

skip_zeros-two_pow :
    (fuel q j c : ℕ) → j ≤ fuel → odd q ≡ true → c ≡ q * 2 ^ j → skip_zeros fuel c c ≡ (q, q)
unfolding skip_zeros
skip_zeros-two_pow zero q j c h o e =
    let none_left : j ≡ 0 = omega arith in
    let one : 2 ^ j ≡ 1 = ap (λ t. 2 ^ t) none_left in
    let same : c ≡ q = e ∙ (ap (λ (t : ℕ). q * t) one ∙ mul-one q) in ap (λ (t : ℕ). (t, t)) same
skip_zeros-two_pow (suc fuel) q zero c h o e = let same : c ≡ q = e ∙ mul-one q in ground arith
skip_zeros-two_pow (suc fuel) q (suc j) c h o e =
    let (twice, pos) = odd_multiple q j o in ground (arith, skip_zeros-two_pow fuel q j (c / 2))

-- One round where both indices are the same odd multiple of a power of two ends at half of the odd
-- part.
pub shifted-two_pow : (q j : ℕ) → odd q ≡ true → shifted (q * 2 ^ j) (q * 2 ^ j) ≡ (q / 2, q / 2)
unfolding shifted
shifted-two_pow q zero o = let same : q * 2 ^ 0 ≡ q = mul-one q in rw same (ground arith)
shifted-two_pow q (suc j) o =
    let (twice, pos) = odd_multiple q j o in
    let c = q * 2 ^ suc j in
    let odd_pos : 1 ≤ q = ground arith in
    let deep : suc j ≤ c =
      omega (arith, lt-two_pow (suc j), mul-le-mul_right (2 ^ suc j) odd_pos) in
    ground (arith, skip_zeros-two_pow c q (suc j) c deep o refl)

-- One round of a left child below the right edge, and of a right child.
pub shifted-left : (q w : ℕ) → 2 * q < w → shifted (2 * q) w ≡ (q, w / 2)
unfolding shifted
shifted-left q w h = ground arith

pub shifted-right : (q w : ℕ) → shifted (2 * q + 1) w ≡ (q, w / 2)
unfolding shifted
shifted-right q w = ground arith

pub odd_multiple_pos : (q j : ℕ) → odd q ≡ true → 0 < q * 2 ^ j
odd_multiple_pos q j o = (odd_multiple q j o).1
