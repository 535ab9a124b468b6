-- ===== src/Primitives/Capability/Tests.antt =====
-- The capability codec and the sealer at work.
use yukh_coordination.Base.{
  ℕ, zero, suc, ◌+◌, ◌-◌, ◌*◌, ◌≡◌, refl, ap, ◌∙◌, true, Option, none, some, some-injective, [],
  ◌∷◌, ◌++◌, Text, text, text_eq, ◌==◌, if◌then◌else◌, replicate, arith, ℕ_discrete, Text-discrete,
  ok, err, length, take, map, length-append, take_at, subst,
}
use yukh_coordination.Time.{utc}
use yukh_coordination.Coordination.{is_digest, new_lease_resume_value, new_capability_token_id}
use yukh_coordination.Merkle.{big_endian}
use yukh_coordination.Primitives.{
  Error, Identity, CapabilityState, is_identifier, new_capability_state,
}
use yukh_coordination.Primitives.Capability.{
  SealingKey, SealingKeyProvider, Aead, encoded, encode_state, capability_text, seal, open_sealed,
}
use yukh_coordination.Primitives.Capability.Sealing.{
  lacks, count, open_sealed-seal, open_sealed-seal_dotted,
}

-- A stand-in for base64 that writes no byte below 100.
abbrev toy_encode : Text → Text
toy_encode t = map (λ c. c + 100) t

abbrev toy_decode : Text → Option Text
toy_decode t = some (map (λ c. c - 100) t)

shifted_back : (t : Text) → map (λ c. c - 100) (toy_encode t) ≡ t
shifted_back [] = refl
shifted_back (c ∷ t) = ground (arith, shifted_back t)

toy_decode-encode : (t : Text) → toy_decode (toy_encode t) ≡ some t
toy_decode-encode t = ap some (shifted_back t)

toy_lacks : (t : Text) → lacks b'.' (toy_encode t) ≡ true
toy_lacks [] = refl
toy_lacks (c ∷ t) = ground (arith, toy_lacks t)

-- A stand-in for AES-GCM with its sizes.
abbrev toy_aead : Aead
toy_aead = record {
  nonce_size = 12;
  overhead = 16;
  seal = λ n p d. p ++ replicate 16 0;
  unseal = λ n x d. some (take (length x - 16) x);
}

abbrev toy_new_aead : Text → Option Aead
toy_new_aead bytes = some toy_aead

abbrev nines : ℕ → Text
nines n = replicate n 9

abbrev toy_random : ℕ → Option Text
toy_random n = some (nines n)

length-replicate : (n : ℕ) → length (nines n) ≡ n
length-replicate zero = refl
length-replicate (suc n) = ap suc (length-replicate n)

toy_random_lem : (n : ℕ) (t : Text) → toy_random n ≡ some t → length t ≡ n
toy_random_lem n t h = ground (arith, h, length-replicate n)

take-append : (p z : Text) → take (length p) (p ++ z) ≡ p
take-append [] z = refl
take-append (x ∷ p) z = ap (λ r. x ∷ r) (take-append p z)

toy_opens :
    (bytes : Text) (aead : Aead) (n p d : Text)
    → toy_new_aead bytes ≡ some aead
    → (aead.unseal n (aead.seal n p d) d ≡ some p)
      × (length (aead.seal n p d) ≡ length p + aead.overhead)
toy_opens bytes aead n p d h =
    let size = length-append p (replicate 16 0) in
    let back : take (length (p ++ replicate 16 0) - 16) (p ++ replicate 16 0) ≡ p =
      take_at (p ++ replicate 16 0) (length (p ++ replicate 16 0) - 16) (length p)
        (omega (arith, size))
      ∙ take-append p (replicate 16 0) in
    subst
      (λ a.
        (a.unseal n (a.seal n p d) d ≡ some p) × (length (a.seal n p d) ≡ length p + a.overhead))
      (some-injective toy_aead aead h) (ap some back, size)

abbrev key_named : Text → SealingKey
key_named id = record { id = id; bytes = replicate 32 5 }

abbrev toy_keys : Text → SealingKeyProvider
toy_keys id = record {
  active = some (key_named id);
  for_opening = λ x. if x == id then some (key_named id) else none;
}

finds :
    (key : SealingKey)
    → (toy_keys (text "k1")).active ≡ some key
    → ((toy_keys (text "k1")).for_opening key.id ≡ some key) × (lacks b'.' key.id ≡ true)
unfolding Text-discrete ℕ_discrete
finds key h =
    subst (λ k. ((toy_keys (text "k1")).for_opening k.id ≡ some k) × (lacks b'.' k.id ≡ true))
      (some-injective (key_named (text "k1")) key h) (refl, refl)

abbrev state : CapabilityState
state = record {
  key = replicate 64 b'0';
  holder = replicate 64 b'a';
  expires_at = record { instant = (62_135_596_800_000 + 1234) * 1_000_000; location = utc };
  epoch = 7;
  fencing_token = 300;
  token_id = replicate 16 1;
}

abbrev alice : Identity
alice = record { tenant = text "t"; principal = text "alice" }

unfoldable raw : Text
unfolding encoded big_endian
raw = encoded state

encodes : encode_state state ≡ ok raw
unfolding raw encode_state new_capability_state new_lease_resume_value new_capability_token_id
    is_digest ℕ_discrete
encodes = refl

abbrev sealed_under : Text → Text
sealed_under id =
    capability_text toy_encode toy_decode toy_new_aead (toy_keys id) id (nines 12)
      (raw ++ replicate 16 0)

seals :
    (id : Text)
    → is_identifier id ≡ true
    → seal toy_encode toy_decode toy_new_aead (toy_keys id) toy_random alice state
      ≡ ok (sealed_under id)
unfolding seal
seals id v = rw v (rw encodes refl)

open_sealed-seal_example :
    open_sealed toy_encode toy_decode toy_new_aead
      (toy_keys (text "k1"))
      alice
      (sealed_under (text "k1"))
    ≡ ok state
unfolding is_identifier Text-discrete ℕ_discrete
open_sealed-seal_example =
    open_sealed-seal toy_encode toy_decode toy_new_aead (toy_keys (text "k1")) toy_random alice
      state (sealed_under (text "k1")) toy_decode-encode toy_lacks toy_opens finds toy_random_lem
      refl (omega arith) (omega arith) (seals (text "k1") refl)

open_sealed-seal_dotted_example :
    open_sealed toy_encode toy_decode toy_new_aead
      (toy_keys (text "k.1"))
      alice
      (sealed_under (text "k.1"))
    ≡ err Error.conflict
unfolding is_identifier count Text-discrete ℕ_discrete
open_sealed-seal_dotted_example =
    open_sealed-seal_dotted toy_encode toy_decode toy_new_aead (toy_keys (text "k.1")) toy_random
      alice alice state (sealed_under (text "k.1")) (key_named (text "k.1")) refl (omega arith)
      (seals (text "k.1") refl)
