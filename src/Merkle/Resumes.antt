-- ===== src/Merkle/Resumes.antt =====
-- How the loop of VerifyConsistency goes on from one node of a path to the next.
use mathlib.Core.List.{append_assoc}
use native.Mathlib.Nat.{suc-mul}
use yukh_coordination.Base.{
  ℕ, suc, ◌+◌, ◌-◌, ◌*◌, ◌/◌, ◌^◌, ◌≤◌, ◌<◌, ◌≡◌, ◌⊎◌, refl, ap, sym, ◌∙◌, inl, inr, false, List,
  [], ◌∷◌, ◌++◌, arith, Text, length, take, drop, take-take, take-all, nat_eq,
}
use yukh_coordination.Merkle.{merkle_node_hash, merkle_root, odd}
use yukh_coordination.Merkle.Root.{half, merkle_root-split}
use yukh_coordination.Merkle.Consistency.{consistency_within, consistency_loop}
use yukh_coordination.Merkle.Rounds.{
  merkle_root-take, consistency_within_whole, consistency_within_left, consistency_within_right,
  consistency_left,
}

module _ (sha256 : Text → Text) where
  -- The path of a tree starts with the hash of a subtree: the loop that starts there, with the indices
  -- of that subtree, comes by the path to the roots of the first `m` leaves and of all leaves.
  pub record Resumes (path l : List Text) (m size last f s : ℕ) : Type 0 where
    pub height : ℕ
    pub start : Text
    pub tail : List Text
    pub index : ℕ
    pub edge : ℕ
    pub rest : ℕ
    pub split : path ≡ start ∷ tail
    pub even : odd index ≡ false
    pub first : size ≡ suc index * 2 ^ height
    pub small : rest < 2 ^ height
    pub second : last ≡ edge * 2 ^ height + rest
    pub run :
        (more : List Text)
        → consistency_loop sha256 (tail ++ more) index edge start start
          ≡ consistency_loop sha256 more f s (merkle_root sha256 (take m l)) (merkle_root sha256 l)

  -- One round more.
  one_round :
      (path p l l' : List Text) (node : Text) (m m' size last f s f' s' : ℕ)
      → Resumes p l m size last f s
      → path ≡ p ++ node ∷ []
      → ((more : List Text)
          → consistency_loop sha256
              (node ∷ more)
              f
              s
              (merkle_root sha256 (take m l))
              (merkle_root sha256 l)
            ≡ consistency_loop sha256 more f' s'
                (merkle_root sha256 (take m' l'))
                (merkle_root sha256 l'))
      → Resumes path l' m' size last f' s'
  one_round path p l l' node m m' size last f s f' s' r split round = record {
    height = r.height;
    start = r.start;
    tail = r.tail ++ node ∷ [];
    index = r.index;
    edge = r.edge;
    rest = r.rest;
    split = split ∙ ap (λ t. t ++ node ∷ []) r.split;
    even = r.even;
    first = r.first;
    small = r.small;
    second = r.second;
    run = λ more.
        ap (λ t. consistency_loop sha256 t r.index r.edge r.start r.start)
          (append_assoc r.tail (node ∷ []) more)
        ∙ (r.run (node ∷ more) ∙ round more);
  }

  pub same_loop :
      (more : List Text) (f s f' s' : ℕ) (a b a' b' : Text)
      → f ≡ f'
      → s ≡ s'
      → a ≡ a'
      → b ≡ b'
      → consistency_loop sha256 more f s a b ≡ consistency_loop sha256 more f' s' a' b'
  same_loop more f s f' s' a b a' b' e e' g g' = cc

  pub enter_whole :
      (fuel t : ℕ) (l : List Text) (m q w e size last : ℕ)
      → length l ≡ 2 ^ t
      → m ≡ length l
      → (m < length l) ⊎ (odd q ≡ false)
      → e < 2 ^ t
      → size ≡ q * 2 ^ t + m
      → last ≡ w * 2 ^ t + e
      → Resumes (consistency_within sha256 fuel l m false) l m size last q w
  enter_whole fuel t l m q w e size last full all (inl lt) small se le = absurd (omega arith)
  enter_whole fuel t l m q w e size last full all (inr even) small se le = record {
    height = t;
    start = merkle_root sha256 l;
    tail = [];
    index = q;
    edge = w;
    rest = e;
    split = consistency_within_whole sha256 fuel m l all;
    even = even;
    first = omega (arith, suc-mul q (2 ^ t));
    small = small;
    second = le;
    run = λ more.
        same_loop more q w q w _ _ _ _ refl refl
          (ap (merkle_root sha256) (sym (take-all m l (omega arith)))) refl;
  }

  -- The rounds that leave the left and the right half of a tree.
  pub leave_left :
      (fuel : ℕ) (l : List Text) (m q w s size last : ℕ)
      → 2 ≤ length l
      → m < length l
      → m ≤ half l
      → 2 * q < w
      → w / 2 ≡ s
      → Resumes
          (consistency_within sha256 fuel (take (half l) l) m false)
          (take (half l) l)
          m
          size
          last
          (2 * q)
          w
      → Resumes (consistency_within sha256 (suc fuel) l m false) l m size last q s
  leave_left fuel l m q w s size last two inside low below half_w r =
      one_round _ _ (take (half l) l) l (merkle_root sha256 (drop (half l) l)) m m size last (2 * q)
        w q s r (consistency_within_left sha256 fuel m l false inside low)
        λ more.
          consistency_left sha256 _ _ _ more q w below
          ∙ same_loop more q (w / 2) q s _ _ _ _ refl half_w
              (ap (merkle_root sha256) (take-take m (half l) l low))
              (sym (merkle_root-split sha256 l two))

  pub leave_right :
      (fuel : ℕ) (l : List Text) (m q w size last f s : ℕ)
      → 2 ≤ length l
      → m < length l
      → half l < m
      → Resumes
          (consistency_within sha256 fuel (drop (half l) l) (m - half l) false)
          (drop (half l) l)
          (m - half l)
          size
          last
          q
          w
      → ((node a b : Text) (more : List Text)
          → consistency_loop sha256 (node ∷ more) q w a b
            ≡ consistency_loop sha256 more f s
                (merkle_node_hash sha256 node a)
                (merkle_node_hash sha256 node b))
      → Resumes (consistency_within sha256 (suc fuel) l m false) l m size last f s
  leave_right fuel l m q w size last f s two inside low r round =
      one_round _ _ (drop (half l) l) l (merkle_root sha256 (take (half l) l)) (m - half l) m size
        last q w f s r (consistency_within_right sha256 fuel m l false inside low)
        λ more.
          round _ _ _ more
          ∙ same_loop more f s f s _ _ _ _ refl refl
              (sym (merkle_root-take sha256 l m two low (omega arith)))
              (sym (merkle_root-split sha256 l two))
