-- ===== src/Primitives/Capability.antt =====
-- internal/primitives/capability.go: the codec of a capability state and the sealer over it. AES-GCM,
-- base64, the key provider and the source of random bytes are parameters.
pub mod Slices
pub mod State
pub mod Sealing
mod Tests
use yukh_coordination.Base.{
  ℕ, zero, suc, ◌+◌, ◌-◌, ◌*◌, ◌/◌, ◌%◌, ◌^◌, Bool, true, false, not, ◌||◌, Option, none, some,
  List, [], ◌∷◌, ◌++◌, ltb, ◌==◌, ◌!=◌, nat_eq, text_eq, Text, text, Result, ok, err, length, take,
  drop, if◌then◌else◌, ◌>>=◌,
}
use yukh_coordination.Time.{Time, utc, millisecond}
use yukh_coordination.Coordination.{max_safe_integer}
use yukh_coordination.Merkle.{big_endian}
use yukh_coordination.Primitives.{
  Error, Identity, CapabilityState, is_identifier, new_capability_state,
}

pub record SealingKey : Type 0 where
  pub id : Text
  pub bytes : Text

-- `none` where the provider returns an error.
pub record SealingKeyProvider : Type 0 where
  pub active : Option SealingKey
  pub for_opening : Text → Option SealingKey

-- cipher.AEAD: the arguments are those of the code, less the destination; `none` is an error.
pub record Aead : Type 0 where
  pub nonce_size : ℕ
  pub overhead : ℕ
  pub seal : (nonce plaintext aad : Text) → Text
  pub unseal : (nonce ciphertext aad : Text) → Option Text

abbrev pub capability_plaintext_bytes : ℕ
capability_plaintext_bytes = 168

unfoldable pub new_sealing_key : Text → Text → Result Error SealingKey
new_sealing_key id raw =
    if not (is_identifier id) || length raw != 32
    then err Error.invalid_argument
    else ok (record { id = id; bytes = raw })

unfoldable pub capability_aad : Identity → Text → Text
capability_aad i key_id =
    text "yukh:coordination-primitives:capability:v1\n"
    ++ (key_id ++ (text "\n" ++ (i.tenant ++ (text "\n" ++ i.principal))))

-- The milliseconds from Go's zero time to the Unix epoch.
abbrev pub unix_epoch : ℕ
unix_epoch = 62_135_596_800_000

-- `uint64(t.UnixMilli())`
abbrev pub unix_millis : Time → ℕ
unix_millis t = (t.instant / millisecond + 2 ^ 64 - unix_epoch) % 2 ^ 64

-- `time.UnixMilli(int64(m)).UTC()`, where `m` is at most maxSafeInteger
abbrev pub from_unix_millis : ℕ → Time
from_unix_millis m = record { instant = (m + unix_epoch) * millisecond; location = utc }

-- binary.BigEndian.Uint64
unfoldable pub from_big_endian : Text → ℕ
from_big_endian [] = 0
from_big_endian (b ∷ raw) = b * 256 ^ length raw + from_big_endian raw

-- `raw[from:to]`
abbrev pub slice : Text → ℕ → ℕ → Text
slice raw from to = take (to - from) (drop from raw)

-- The digests of an accepted state have 64 bytes and a token identifier 16, so that the copies fill
-- their parts of the 168 bytes.
unfoldable pub encoded : CapabilityState → Text
encoded c =
    c.key
    ++ (c.holder
        ++ (big_endian 8 (unix_millis c.expires_at)
            ++ (big_endian 8 c.epoch ++ (big_endian 8 c.fencing_token ++ c.token_id))))

unfoldable pub encode_state : CapabilityState → Result Error Text
encode_state c =
    elim (new_capability_state c.key c.holder c.expires_at c.epoch c.fencing_token c.token_id) [
      | err e ↦ err e
      | ok validated ↦ ok (encoded validated)
    ]

-- The last return of decodeState.
abbrev pub as_conflict : {A : Type 0} → Result Error A → Result Error A
as_conflict (err e) = err Error.conflict
as_conflict (ok a) = ok a

unfoldable pub decode_state : Text → Result Error CapabilityState
unfolding from_big_endian
decode_state raw =
    if length raw != capability_plaintext_bytes
    then err Error.conflict
    else if ltb max_safe_integer (from_big_endian (slice raw 128 136))
    then err Error.conflict
    else as_conflict (
        new_capability_state (slice raw 0 64) (slice raw 64 128)
          (from_unix_millis (from_big_endian (slice raw 128 136)))
          (from_big_endian (slice raw 136 144)) (from_big_endian (slice raw 144 152))
          (slice raw 152 168))

-- strings.Split with a separator of one byte: the first part and the others.
unfoldable pub split_first : ℕ → Text → Text × List Text
split_first sep [] = ([], [])
split_first sep (c ∷ rest) =
    let (part, parts) = split_first sep rest in
    if c == sep then ([], part ∷ parts) else (c ∷ part, parts)

unfoldable pub split : ℕ → Text → List Text
unfolding split_first
split sep s = (split_first sep s).0 ∷ (split_first sep s).1

module _ (encode_base64 : Text → Text) (decode_base64 : Text → Option Text)
    (new_aead : Text → Option Aead) (keys : SealingKeyProvider) where
  unfoldable pub capability_text : Text → Text → Text → Text
  capability_text id nonce ciphertext =
      text "v1." ++ (id ++ (b'.' ∷ encode_base64 nonce ++ (b'.' ∷ encode_base64 ciphertext)))

  -- `random n` is what io.ReadFull reads into `n` bytes.
  unfoldable pub seal : (ℕ → Option Text) → Identity → CapabilityState → Result Error Text
  unfolding capability_text
  seal random i c = elim keys.active [
    | none ↦ err Error.unavailable
    | some key ↦
        if not (is_identifier key.id) then err Error.unavailable else elim (new_aead key.bytes) [
          | none ↦ err Error.unavailable
          | some aead ↦ elim (random aead.nonce_size) [
            | none ↦ err Error.unavailable
            | some nonce ↦ elim (encode_state c) [
              | err _ ↦ err Error.invariant
              | ok plaintext ↦ ok (
                  capability_text key.id nonce
                    (aead.seal nonce plaintext (capability_aad i key.id)))
            ]
          ]
        ]
  ]

  -- Open from the decoded parts on.
  unfoldable pub open_parts :
      Aead → Identity → Text → Option Text → Option Text → Result Error CapabilityState
  open_parts aead i id none _ = err Error.conflict
  open_parts aead i id (some nonce) none = err Error.conflict
  open_parts aead i id (some nonce) (some ciphertext) =
      if length nonce != aead.nonce_size
        || length ciphertext != capability_plaintext_bytes + aead.overhead
      then err Error.conflict
      else elim (aead.unseal nonce ciphertext (capability_aad i id)) [
        | none ↦ err Error.conflict
        | some plaintext ↦ decode_state plaintext
      ]

  unfoldable pub open_with : Identity → Text → Text → Text → Result Error CapabilityState
  unfolding open_parts
  open_with i id nonce ciphertext = elim (keys.for_opening id) [
    | none ↦ err Error.unavailable
    | some key ↦ if key.id != id then err Error.unavailable else elim (new_aead key.bytes) [
      | none ↦ err Error.unavailable
      | some aead ↦ open_parts aead i key.id (decode_base64 nonce) (decode_base64 ciphertext)
    ]
  ]

  unfoldable pub open_split : Identity → List Text → Result Error CapabilityState
  unfolding open_with
  open_split i (version ∷ id ∷ nonce ∷ ciphertext ∷ []) =
      if version != text "v1" || not (is_identifier id)
      then err Error.conflict
      else open_with i id nonce ciphertext
  open_split i parts = err Error.conflict

  unfoldable pub open_sealed : Identity → Text → Result Error CapabilityState
  unfolding open_split
  open_sealed i capability = open_split i (split b'.' capability)
