-- ===== src/PrimitivesAuth/Identities.antt =====
-- internal/primitivesauth/pipeline.go and internal/primitives/service.go: identities of the pipeline at
-- the service.
use yukh_coordination.Base.{ℕ, ◌≡◌, refl, true, [], ◌∷◌, nat_eq, Text, all, arith, text_eq}
use yukh_coordination.Primitives.{is_identifier, is_identifier_char}
use yukh_coordination.PrimitivesAuth.{is_pattern_char, identifier_pattern}

pattern_char-identifier_char : (c : ℕ) → is_pattern_char c ≡ true → is_identifier_char c ≡ true
pattern_char-identifier_char c h = ground (arith, h)

all-identifier_char : (t : Text) → all is_pattern_char t ≡ true → all is_identifier_char t ≡ true
all-identifier_char [] h = refl
all-identifier_char (c ∷ t) h =
    let first : is_identifier_char c ≡ true = pattern_char-identifier_char c (ground (arith, h)) in
    let others = all-identifier_char t (ground (arith, h)) in ground (arith, first, others)

pub identifier_pattern-is_identifier :
    (t : Text) → identifier_pattern t ≡ true → is_identifier t ≡ true
unfolding identifier_pattern is_identifier
identifier_pattern-is_identifier [] h = absurd (ground (arith, h))
identifier_pattern-is_identifier (c ∷ t) h =
    let first : is_pattern_char c ≡ true = ground (arith, h) in
    let head = pattern_char-identifier_char c first in
    let tail = all-identifier_char t (ground (arith, h)) in ground (arith, h, head, tail)
