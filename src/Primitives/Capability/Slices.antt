-- ===== src/Primitives/Capability/Slices.antt =====
-- internal/primitives/capability.go: fixed-width parts laid end to end, and the slices that take them apart.
use yukh_coordination.Base.{
  ℕ, zero, suc, ◌+◌, ◌-◌, ◌^◌, ◌<◌, ◌≡◌, refl, ap, ◌∙◌, [], ◌∷◌, ◌++◌, nat_eq, Text, length, take,
  drop, arith, take_at, take-all, drop-add,
}
use yukh_coordination.Merkle.{big_endian}
use yukh_coordination.Primitives.Capability.{from_big_endian, slice}

pub from_big_endian-big_endian : (x : ℕ) → x < 2 ^ 64 → from_big_endian (big_endian 8 x) ≡ x
unfolding from_big_endian big_endian
from_big_endian-big_endian x h = omega arith

take_front : (n : ℕ) (a b : Text) → length a ≡ n → take n (a ++ b) ≡ a
take_front zero [] b h = refl
take_front zero (x ∷ a) b h = absurd (omega arith)
take_front (suc n) [] b h = absurd (omega arith)
take_front (suc n) (x ∷ a) b h = ap (λ r. x ∷ r) (take_front n a b (omega arith))

drop_front : (n : ℕ) (a b : Text) → length a ≡ n → drop n (a ++ b) ≡ b
drop_front zero [] b h = refl
drop_front zero (x ∷ a) b h = absurd (omega arith)
drop_front (suc n) [] b h = absurd (omega arith)
drop_front (suc n) (x ∷ a) b h = drop_front n a b (omega arith)

pub slice_here : (n : ℕ) (a b : Text) → length a ≡ n → slice (a ++ b) 0 n ≡ a
slice_here n a b h = take_at (a ++ b) (n - 0) n (omega arith) ∙ take_front n a b h

pub slice_later :
    (n i j : ℕ) (a b : Text) → length a ≡ n → slice (a ++ b) (n + i) (n + j) ≡ slice b i j
slice_later n i j a b h =
    take_at (drop (n + i) (a ++ b)) (n + j - (n + i)) (j - i) (omega arith)
    ∙ ap (take (j - i)) (drop-add n i (a ++ b) ∙ ap (drop i) (drop_front n a b h))

pub slice_whole : (n : ℕ) (a : Text) → length a ≡ n → slice a 0 n ≡ a
slice_whole n a h = take_at a (n - 0) n (omega arith) ∙ take-all n a (omega arith)
