-- ===== src/Primitives/Capability/Sealing.antt =====
-- internal/primitives/capability.go: what Open answers for what Seal has returned.
use yukh_coordination.Base.{
  ℕ, suc, ◌+◌, ◌/◌, ◌≤◌, ◌≡◌, ◌≢◌, refl, ap, subst, ◌∙◌, inl, inr, Bool, true, false, Option, some,
  List, [], ◌∷◌, ◌++◌, ◌==◌, ◌!=◌, nat_eq, text_eq, Text, text, Result, ok, err, length, all,
  if◌then◌else◌, arith, Result-cases, Option-cases, Bool-cases, ℕ_discrete, Text-discrete,
}
use yukh_coordination.Time.{millisecond}
use yukh_coordination.Coordination.{max_safe_integer}
use yukh_coordination.Primitives.{Error, Identity, CapabilityState, is_identifier}
use yukh_coordination.Primitives.Capability.{
  SealingKey, SealingKeyProvider, Aead, unix_epoch, capability_aad, capability_plaintext_bytes,
  encode_state, split_first, split, capability_text, seal, open_parts, open_with, open_split,
  open_sealed,
}
use yukh_coordination.Primitives.Capability.State.{decode_state-encode_state, length-encode_state}

-- No byte of the text is the separator.
abbrev pub lacks : ℕ → Text → Bool
lacks sep t = all (λ c. c != sep) t

-- How often the separator stands in the text.
unfoldable pub count : ℕ → Text → ℕ
count sep [] = 0
count sep (c ∷ t) = if c == sep then suc (count sep t) else count sep t

split-lacks : (sep : ℕ) (a : Text) → lacks sep a ≡ true → split sep a ≡ a ∷ []
unfolding split split_first
split-lacks sep [] h = refl
split-lacks sep (c ∷ a) h = ground (arith, split-lacks sep a, h)

split-part :
    (sep : ℕ) (a rest : Text)
    → lacks sep a ≡ true
    → split sep (a ++ (sep ∷ rest)) ≡ a ∷ split sep rest
unfolding split split_first
split-part sep [] rest h = ground arith
split-part sep (c ∷ a) rest h = ground (arith, split-part sep a rest, h)

length-split : (sep : ℕ) (s : Text) → length (split sep s) ≡ suc (count sep s)
unfolding split split_first count
length-split sep [] = refl
length-split sep (c ∷ s) = ground (arith, length-split sep s)

count-append : (sep : ℕ) (a b : Text) → count sep (a ++ b) ≡ count sep a + count sep b
unfolding count
count-append sep [] b = omega arith
count-append sep (c ∷ a) b = ground (arith, count-append sep a b)

module _ (encode_base64 : Text → Text) (decode_base64 : Text → Option Text)
    (new_aead : Text → Option Aead) (keys : SealingKeyProvider) where
  -- What stands behind a capability that Seal has returned.
  record IsSealed (random : ℕ → Option Text) (i : Identity) (c : CapabilityState) (x : Text)
      : Type 0 where
    key : SealingKey
    aead : Aead
    nonce : Text
    raw : Text
    active : keys.active ≡ some key
    named : is_identifier key.id ≡ true
    ciphered : new_aead key.bytes ≡ some aead
    drawn : random aead.nonce_size ≡ some nonce
    coded : encode_state c ≡ ok raw
    printed :
        capability_text encode_base64 decode_base64 new_aead keys key.id nonce
          (aead.seal nonce raw (capability_aad i key.id))
        ≡ x

  abbrev sealing : (ℕ → Option Text) → Identity → CapabilityState → Result Error Text
  sealing = seal encode_base64 decode_base64 new_aead keys

  seal-IsSealed :
      (random : ℕ → Option Text) (i : Identity) (c : CapabilityState) (x : Text)
      → sealing random i c ≡ ok x
      → IsSealed random i c x
  unfolding seal
  seal-IsSealed random i c x h = elim (Option-cases keys.active) [
    | inl k ↦ absurd (ground (arith, k, h))
    | inr (key, k) ↦ elim (Bool-cases (is_identifier key.id)) [
      | inr v ↦ absurd (ground (arith, k, v, h))
      | inl v ↦ elim (Option-cases (new_aead key.bytes)) [
        | inl a ↦ absurd (ground (arith, k, v, a, h))
        | inr (aead, a) ↦ elim (Option-cases (random aead.nonce_size)) [
          | inl n ↦ absurd (ground (arith, k, v, a, n, h))
          | inr (nonce, n) ↦ elim (Result-cases (encode_state c)) [
            | inl (e, r) ↦ absurd (ground (arith, k, v, a, n, r, h))
            | inr (raw, r) ↦ record {
              key = key;
              aead = aead;
              nonce = nonce;
              raw = raw;
              active = k;
              named = v;
              ciphered = a;
              drawn = n;
              coded = r;
              printed = ground (arith, k, v, a, n, r, h);
            }
          ]
        ]
      ]
    ]
  ]

  split-capability_text :
      (id nonce ciphertext : Text)
      → lacks b'.' id ≡ true
      → ((t : Text) → lacks b'.' (encode_base64 t) ≡ true)
      → split b'.' (capability_text encode_base64 decode_base64 new_aead keys id nonce ciphertext)
        ≡ text "v1" ∷ id ∷ encode_base64 nonce ∷ encode_base64 ciphertext ∷ []
  unfolding capability_text ℕ_discrete
  split-capability_text id nonce ciphertext h h64 =
      split-part b'.' (text "v1")
        (id ++ (b'.' ∷ encode_base64 nonce ++ (b'.' ∷ encode_base64 ciphertext))) refl
      ∙ ap (λ l. text "v1" ∷ l)
          (split-part b'.' id (encode_base64 nonce ++ (b'.' ∷ encode_base64 ciphertext)) h
            ∙ ap (λ l. id ∷ l)
                (split-part b'.' (encode_base64 nonce) (encode_base64 ciphertext) (h64 nonce)
                  ∙ ap (λ l. encode_base64 nonce ∷ l)
                      (split-lacks b'.' (encode_base64 ciphertext) (h64 ciphertext))))

  -- Open reads back what Seal has written: where base64 decodes what it encodes and writes no dot, the
  -- AEAD opens what it seals at its documented sizes, the provider gives the active key for its name,
  -- the name has no dot, and the state can be encoded without loss, opening the returned capability for
  -- the same identity gives the sealed state.
  pub open_sealed-seal :
      (random : ℕ → Option Text) (i : Identity) (c : CapabilityState) (x : Text)
      → ((t : Text) → decode_base64 (encode_base64 t) ≡ some t)
      → ((t : Text) → lacks b'.' (encode_base64 t) ≡ true)
      → ((bytes : Text) (aead : Aead) (n p d : Text)
          → new_aead bytes ≡ some aead
          → (aead.unseal n (aead.seal n p d) d ≡ some p)
            × (length (aead.seal n p d) ≡ length p + aead.overhead))
      → ((key : SealingKey)
          → keys.active ≡ some key
          → (keys.for_opening key.id ≡ some key) × (lacks b'.' key.id ≡ true))
      → ((n : ℕ) (t : Text) → random n ≡ some t → length t ≡ n)
      → length c.token_id ≡ 16
      → unix_epoch ≤ c.expires_at.instant / millisecond
      → c.expires_at.instant / millisecond ≤ unix_epoch + max_safe_integer
      → seal encode_base64 decode_base64 new_aead keys random i c ≡ ok x
      → open_sealed encode_base64 decode_base64 new_aead keys i x ≡ ok c
  unfolding open_sealed open_split open_with open_parts Text-discrete
  open_sealed-seal random i c x h64 dots opens finds reads id_size low high h =
      let w = seal-IsSealed random i c x h in
      let aad = capability_aad i w.key.id in
      let ciphertext = w.aead.seal w.nonce w.raw aad in
      let (unsealed, sized) = opens w.key.bytes w.aead w.nonce w.raw aad w.ciphered in
      let (found, dotless) = finds w.key w.active in
      let parts = split-capability_text w.key.id w.nonce ciphertext dotless dots in
      let same_name : (w.key.id != w.key.id) ≡ false = ground arith in
      let nonce_size : (length w.nonce != w.aead.nonce_size) ≡ false =
        ground (arith, reads w.aead.nonce_size w.nonce w.drawn) in
      let raw_size = length-encode_state c w.raw id_size w.coded in
      let size : (length ciphertext != capability_plaintext_bytes + w.aead.overhead) ≡ false =
        ground (arith, sized, raw_size) in
      subst (λ y. open_sealed encode_base64 decode_base64 new_aead keys i y ≡ ok c) w.printed
        (rw (parts, open_sealed)
          (rw (w.named, open_split)
            (rw (found, open_with)
              (rw same_name (
                rw w.ciphered (
                  rw (h64 w.nonce) (
                    rw (h64 ciphertext) (
                      rw (nonce_size, open_parts)
                        (rw size (
                          rw unsealed
                            (decode_state-encode_state c w.raw id_size low high w.coded)))))))))))

  wrong_parts :
      (i : Identity) (parts : List Text)
      → length parts ≢ 4
      → open_split encode_base64 decode_base64 new_aead keys i parts ≡ err Error.conflict
  unfolding open_split
  wrong_parts i [] h = refl
  wrong_parts i (a ∷ []) h = refl
  wrong_parts i (a ∷ b ∷ []) h = refl
  wrong_parts i (a ∷ b ∷ d ∷ []) h = refl
  wrong_parts i (a ∷ b ∷ d ∷ e ∷ []) h = absurd (h refl)
  wrong_parts i (a ∷ b ∷ d ∷ e ∷ f ∷ l) h = refl

  count-capability_text :
      (id nonce ciphertext : Text)
      → count b'.' (capability_text encode_base64 decode_base64 new_aead keys id nonce ciphertext)
        ≡ 3
          + count b'.' id
          + count b'.' (encode_base64 nonce)
          + count b'.' (encode_base64 ciphertext)
  unfolding capability_text count ℕ_discrete
  count-capability_text id nonce ciphertext =
      let after_nonce = b'.' ∷ encode_base64 ciphertext in
      omega (
        arith,
        count-append b'.' id (b'.' ∷ encode_base64 nonce ++ after_nonce),
        count-append b'.' (encode_base64 nonce) after_nonce,
      )

  -- Where the name of the active key has a dot, Open answers a conflict for every capability that Seal
  -- returns.
  pub open_sealed-seal_dotted :
      (random : ℕ → Option Text) (i j : Identity) (c : CapabilityState) (x : Text)
      (key : SealingKey)
      → keys.active ≡ some key
      → count b'.' key.id ≢ 0
      → seal encode_base64 decode_base64 new_aead keys random i c ≡ ok x
      → open_sealed encode_base64 decode_base64 new_aead keys j x ≡ err Error.conflict
  unfolding open_sealed
  open_sealed-seal_dotted random i j c x key active dotted h =
      let w = seal-IsSealed random i c x h in
      let ciphertext = w.aead.seal w.nonce w.raw (capability_aad i w.key.id) in
      let printed =
        capability_text encode_base64 decode_base64 new_aead keys w.key.id w.nonce ciphertext in
      let total = count-capability_text w.key.id w.nonce ciphertext in
      let same : count b'.' w.key.id ≡ count b'.' key.id = ground (arith, w.active, active) in
      let dots : length (split b'.' printed) ≢ 4 =
        λ e. dotted (omega (arith, length-split b'.' printed, total, same, e)) in
      subst (λ y. open_sealed encode_base64 decode_base64 new_aead keys j y ≡ err Error.conflict)
        w.printed (wrong_parts j (split b'.' printed) dots)
