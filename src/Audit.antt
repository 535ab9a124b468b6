-- ===== src/Audit.antt =====
-- internal/relay/identity/audit.go and internal/relay/audit/record.go: the records of the security audit,
-- their shapes, digests and receipts. UUIDs, base64 and SHA-256 are parameters.
pub mod Shapes
pub mod Records
pub mod Canonical
pub mod Chain
pub mod Verified
pub mod Tamper
pub mod Receipts
mod Tests
use yukh_coordination.Base.{
  ℕ, ℕ_discrete, ◌+◌, Bool, true, false, not, ◌&&◌, ◌||◌, Option, none, some, List, [], ◌∷◌, ◌++◌,
  leb, ltb, ◌==◌, ◌!=◌, Eq, nat_eq, text_eq, Text, text, Result, ok, err, if◌then◌else◌, length,
  take, drop, all,
}
use yukh_coordination.Time.{Time, is_utc, whole_millis}
use yukh_coordination.Merkle.{big_endian, max_json_safe_sequence}

pub data Error : Type 0 where
  invalid_record conflict unavailable : Error

-- A Go string type; `other` is any string that is none of the constants.
pub data Operation : Type 0 where
  bootstrap authentication revocation jwks_refresh restore_fence : Operation
  checkpoint key_lifecycle : Operation
  staging_authentication staging_authorization staging_lifecycle : Operation
  other : Text → Operation

pub data Outcome : Type 0 where
  allow deny unavailable : Outcome
  other : Text → Outcome

pub data Reason : Type 0 where
  allowed invalid_credential proof_replay inactive_session : Reason
  verification_unavailable registry_unavailable material_collision : Reason
  revoked refreshed restore_verified checkpoint_committed : Reason
  key_lifecycle_committed operation_unavailable access_denied : Reason
  dependency_unavailable credential_expired registration_loaded : Reason
  tls_ready started stopped capability_key_loaded capability_key_zeroed : Reason
  storage_epoch_validated : Reason
  other : Text → Reason

unfoldable pub Operation-discrete : Discrete Operation
unfolding ℕ_discrete
Operation-discrete = hlevel ℕ_discrete

unfoldable pub Outcome-discrete : Discrete Outcome
unfolding ℕ_discrete
Outcome-discrete = hlevel ℕ_discrete

unfoldable pub Reason-discrete : Discrete Reason
unfolding ℕ_discrete
Reason-discrete = hlevel ℕ_discrete

instance abbrev pub operation_eq : Eq Operation
operation_eq = record { dec = Operation-discrete }

instance abbrev pub outcome_eq : Eq Outcome
outcome_eq = record { dec = Outcome-discrete }

instance abbrev pub reason_eq : Eq Reason
reason_eq = record { dec = Reason-discrete }

pub record AuditRecord : Type 0 where
  pub profile_version : ℕ
  pub operation_id : Text
  pub operation : Operation
  pub outcome : Outcome
  pub reason : Reason
  pub decision_time : Time
  pub tenant_id : Text
  pub principal_id : Text
  pub participant_instance_id : Text
  pub session_epoch : ℕ
  pub dpop_thumbprint : Text
  pub has_dpop_thumbprint : Bool
  pub authority_reference : Text
  pub jwks_set_digest : Text
  pub has_jwks_set_digest : Bool
  pub checkpoint_reference : Text
  pub signing_key_reference : Text
  pub recovery_reference : Text
  pub service_profile : Text
  pub action : Text
  pub identity_reference : Text

pub record Receipt : Type 0 where
  pub profile : Text
  pub ledger_id : Text
  pub sequence : ℕ
  pub operation_id : Text
  pub record_digest : Text
  pub previous_chain_digest : Text
  pub chain_digest : Text

abbrev pub receipt_profile : Text
receipt_profile = text "yukh-security-audit-receipt/v1"

-- canonicalV7 gives the 16 bytes of a canonical UUID of version 7, base64.RawURLEncoding is strict.
pub record Codec : Type 0 where
  pub canonical_v7 : Text → Option Text
  pub encode_base64 : Text → Text
  pub decode_base64 : Text → Option Text

abbrev pub is_lower_or_digit : ℕ → Bool
is_lower_or_digit c = (leb b'a' c && leb c b'z') || (leb b'0' c && leb c b'9')

abbrev pub is_alphanumeric : ℕ → Bool
is_alphanumeric c = is_lower_or_digit c || (leb b'A' c && leb c b'Z')

abbrev pub is_punctuation : ℕ → Bool
is_punctuation c = c == b'.' || c == b'_' || c == b':' || c == b'-'

-- `^[a-z0-9][a-z0-9._:-]{0,255}$`
unfoldable pub tenant_pattern : Text → Bool
tenant_pattern [] = false
tenant_pattern (c ∷ rest) =
    is_lower_or_digit c
    && all (λ x. is_lower_or_digit x || is_punctuation x) rest
    && not (ltb 255 (length rest))

-- `^[A-Za-z0-9][A-Za-z0-9._:/-]*$`
unfoldable pub reference_pattern : Text → Bool
reference_pattern [] = false
reference_pattern (c ∷ rest) =
    is_alphanumeric c && all (λ x. is_alphanumeric x || is_punctuation x || x == b'/') rest

unfoldable pub valid_reference : Text → Bool
valid_reference value = leb 1 (length value) && leb (length value) 256 && reference_pattern value

abbrev pub is_blank : Text → Bool
is_blank t = t == []

abbrev pub checkpoint_prefix : Text
checkpoint_prefix = text "audit-checkpoint:"

abbrev pub recovery_prefix : Text
recovery_prefix = text "audit-recovery:"

-- The zero value of a [32]byte.
abbrev pub zero_digest : Text
zero_digest =
    0 ∷ 0 ∷ 0 ∷ 0 ∷ 0 ∷ 0 ∷ 0 ∷ 0 ∷ 0 ∷ 0 ∷ 0 ∷ 0 ∷ 0 ∷ 0 ∷ 0 ∷ 0 ∷ 0 ∷ 0 ∷ 0 ∷ 0 ∷ 0 ∷ 0 ∷ 0 ∷ 0
    ∷ 0 ∷ 0 ∷ 0 ∷ 0 ∷ 0 ∷ 0 ∷ 0 ∷ 0 ∷ []

module _ (codec : Codec) where
  abbrev pub is_v7 : Text → Bool
  is_v7 value = elim (codec.canonical_v7 value) [ none ↦ false | some _ ↦ true ]

  unfoldable pub valid_digest_text : Text → Bool
  valid_digest_text value = elim (codec.decode_base64 value) [
    | none ↦ false
    | some decoded ↦ length value == 43 && length decoded == 32
  ]

  unfoldable pub valid_recovery_reference : Text → Bool
  valid_recovery_reference value =
      length value == 58
      && ltb (length recovery_prefix) (length value)
      && take (length recovery_prefix) value == recovery_prefix
      && valid_digest_text (drop (length recovery_prefix) value)

  -- checkpoint.go
  unfoldable pub valid_checkpoint_reference : Text → Bool
  valid_checkpoint_reference value =
      if not (ltb (length checkpoint_prefix) (length value))
        || take (length checkpoint_prefix) value != checkpoint_prefix
      then false
      else valid_digest_text (drop (length checkpoint_prefix) value)
