-- ===== src/Audit/Tamper.antt =====
-- internal/relay/audit/sqlite/ledger.go: what a verified chain says of the stored records.
use yukh_coordination.Base.{
  ℕ, suc, ◌≡◌, ◌⊎◌, refl, subst, inl, inr, nat_eq, text_eq, Option, List, [], ◌∷◌, ◌++◌, map, arith,
  Text, text, length, Text-discrete, ok, Option-cases, Result-cases,
}
use yukh_coordination.Merkle.{big_endian}
use yukh_coordination.Merkle.Binding.{Collision, append-injective}
use yukh_coordination.Audit.{Codec, Receipt}
use yukh_coordination.Audit.Canonical.{Json}
use yukh_coordination.Audit.Chain.{
  record_digest, genesis_digest, chain_digest, chain_preimage, chain_domain,
}
use yukh_coordination.Audit.Verified.{
  Metadata, Entry, verify_entry, verify_entries, verified_chain_state,
}

module _ (sha256 : Text → Text) (size : (x : Text) → length (sha256 x) ≡ 32) where
  prefix_binding : (p a b : Text) → sha256 (p ++ a) ≡ sha256 (p ++ b) → (a ≡ b) ⊎ Collision sha256
  prefix_binding p a b e = elim (Text-discrete (p ++ a) (p ++ b)) [
    | yes same ↦ inl (append-injective p a p b refl same).1
    | no other ↦ inr (p ++ a, p ++ b, other, e)
  ]

  chain_binding :
      (n : ℕ) (p a p' a' : Text)
      → length p ≡ 32
      → length p' ≡ 32
      → sha256 (chain_preimage n p a) ≡ sha256 (chain_preimage n p' a')
      → ((p ≡ p') × (a ≡ a')) ⊎ Collision sha256
  chain_binding n p a p' a' h h' e =
      elim (prefix_binding chain_domain (big_endian 8 n ++ (p ++ a)) (big_endian 8 n ++ (p' ++ a'))
        e) [
          | inl same ↦ inl (
              append-injective p a p' a' (omega arith)
                (append-injective (big_endian 8 n) (p ++ a) (big_endian 8 n) (p' ++ a') refl
                  same).1)
          | inr c ↦ inr c
        ]

  genesis_size :
      (codec : Codec) (id g : Text) → genesis_digest sha256 codec id ≡ ok g → length g ≡ 32
  unfolding genesis_digest
  genesis_size codec id g h = elim (Option-cases (codec.canonical_v7 id)) [
    | inl a ↦ absurd (ground (arith, h, a))
    | inr (x, a) ↦
        ground (arith, h, a, size (text "yukh-coordination:audit-chain-genesis:v1\n" ++ x))
  ]

  module _ (codec : Codec) (json : Json) (marshal : Receipt → Option Text) where
    step_digest :
        (id : Text) (n : ℕ) (previous : Text) (e : Entry) (s : Text × Text)
        → verify_entry sha256 codec json marshal id n previous e ≡ ok s
        → s.0 ≡ sha256 (chain_preimage n previous (record_digest sha256 e.canonical))
    unfolding verify_entry chain_digest
    step_digest id n previous e s h = ground (arith, h)

    abbrev linked : ℕ → Text → Entry → Text
    linked n p e = sha256 (chain_preimage n p (record_digest sha256 e.canonical))

    next_entries :
        (id : Text) (n : ℕ) (p head : Text) (e : Entry) (es : List Entry) (ls : List Text)
        → verify_entries sha256 codec json marshal id n p (e ∷ es) ≡ ok (head, ls)
        → (more : List Text) × (verify_entries sha256 codec json marshal id
              (suc n)
              (linked n p e)
              es
            ≡ ok (head, more))
    unfolding verify_entries
    next_entries id n p head e es ls h =
        elim (Result-cases (verify_entry sha256 codec json marshal id n p e)) [
          | inl (x, a) ↦ absurd (ground (arith, h, a))
          | inr (s, a) ↦
              elim (Result-cases (verify_entries sha256 codec json marshal id (suc n) s.0 es)) [
                | inl (x, b) ↦ absurd (ground (arith, h, a, b))
                | inr (m, b) ↦ (
                  m.1,
                  subst
                      (λ x.
                        verify_entries sha256 codec json marshal id (suc n) x es ≡ ok (head, m.1))
                      (step_digest id n p e s a) (ground (arith, h, a, b)),
                )
              ]
        ]

    entries_binding :
        (id : Text) (n : ℕ) (p p' head : Text) (es es' : List Entry) (ls ls' : List Text)
        → length p ≡ 32
        → length p' ≡ 32
        → length es ≡ length es'
        → verify_entries sha256 codec json marshal id n p es ≡ ok (head, ls)
        → verify_entries sha256 codec json marshal id n p' es' ≡ ok (head, ls')
        → ((p ≡ p') × (map (λ e. e.canonical) es ≡ map (λ e. e.canonical) es')) ⊎ Collision sha256
    unfolding verify_entries record_digest
    entries_binding id n p p' head [] [] ls ls' hp hp' same h h' = inl (ground arith, refl)
    entries_binding id n p p' head [] (e' ∷ es') ls ls' hp hp' same h h' = absurd (omega arith)
    entries_binding id n p p' head (e ∷ es) [] ls ls' hp hp' same h h' = absurd (omega arith)
    entries_binding id n p p' head (e ∷ es) (e' ∷ es') ls ls' hp hp' same h h' =
        let (m, k) = next_entries id n p head e es ls h in
        let (m', k') = next_entries id n p' head e' es' ls' h' in
        elim (entries_binding id (suc n) (linked n p e) (linked n p' e') head es es' m m' (size _)
          (size _) (omega arith) k k') [
            | inr c ↦ inr c
            | inl (d, rest) ↦
                elim (chain_binding n p (record_digest sha256 e.canonical) p'
                  (record_digest sha256 e'.canonical) hp hp' d) [
                    | inr c ↦ inr c
                    | inl (start, digests) ↦
                        elim (prefix_binding (text "yukh-coordination:audit-record:v1\n")
                          e.canonical e'.canonical digests) [
                            | inr c ↦ inr c
                            | inl here ↦ inl (start, ground arith)
                          ]
                  ]
          ]

    genesis_of :
        (m : Metadata) (es : List Entry) (r : ℕ × List Text)
        → verified_chain_state sha256 codec json marshal m es ≡ ok r
        → (genesis : Text) × (ls : List Text) × (length genesis ≡ 32)
          × (length es ≡ m.last_sequence)
          × (verify_entries sha256 codec json marshal m.ledger_id 1 genesis es
              ≡ ok (m.chain_head, ls))
    unfolding verified_chain_state
    genesis_of m es r h = elim (Result-cases (genesis_digest sha256 codec m.ledger_id)) [
      | inl (x, a) ↦ absurd (ground (arith, h, a))
      | inr (g, a) ↦
          elim (Result-cases (verify_entries sha256 codec json marshal m.ledger_id 1 g es)) [
            | inl (x, b) ↦ absurd (ground (arith, h, a, b))
            | inr (s, b) ↦ (
              g,
              s.1,
              genesis_size codec m.ledger_id g a,
              ground (arith, h, a, b),
              ground (arith, h, a, b),
            )
          ]
    ]

    -- Where every hash has 32 bytes: if the check of the stored chain accepts two stores with the same
    -- metadata, they hold the same canonical records in the same order, or two different inputs with
    -- the same SHA-256 value are at hand.
    pub verified_chain_state-binding :
        (m : Metadata) (es es' : List Entry) (r r' : ℕ × List Text)
        → verified_chain_state sha256 codec json marshal m es ≡ ok r
        → verified_chain_state sha256 codec json marshal m es' ≡ ok r'
        → (map (λ e. e.canonical) es ≡ map (λ e. e.canonical) es') ⊎ Collision sha256
    verified_chain_state-binding m es es' r r' h h' =
        let (g, ls, size_g, n, run) = genesis_of m es r h in
        let (g', ls', size_g', n', run') = genesis_of m es' r' h' in
        elim (entries_binding m.ledger_id 1 g g' m.chain_head es es' ls ls' size_g size_g'
          (omega arith) run run') [ inl (_, same) ↦ inl same | inr c ↦ inr c ]
