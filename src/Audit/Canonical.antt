-- ===== src/Audit/Canonical.antt =====
-- internal/relay/audit/record.go: the canonical form of a record. JSON, its canonical form and the
-- layout of a time are parameters.
use yukh_coordination.Base.{
  ℕ, Bool, true, false, not, ◌||◌, Option, none, some, Text, [], text, length, ltb, ◌==◌, nat_eq,
  text_eq, Result, ok, err, if◌then◌else◌, ◌>>=◌, require, or_fail,
}
use yukh_coordination.Time.{Time}
use yukh_coordination.Audit.{
  AuditRecord, Codec, Error, Operation, Outcome, Reason, is_blank, zero_digest,
}
use yukh_coordination.Audit.Records.{valid_record}

abbrev pub profile_name : Text
profile_name = text "yukh-security-audit/v1"

abbrev pub max_canonical_bytes : ℕ
max_canonical_bytes = 4096

pub record CanonicalRecord : Type 0 where
  pub profile : Text
  pub operation_id : Text
  pub operation_kind : Operation
  pub outcome : Outcome
  pub reason : Reason
  pub decision_time : Text
  pub tenant_id : Text
  pub principal_id : Text
  pub participant_instance_id : Text
  pub session_epoch : ℕ
  pub dpop_thumbprint_digest : Text
  pub authority_reference : Text
  pub jwks_set_digest : Text
  pub checkpoint_reference : Text
  pub signing_key_reference : Text
  pub recovery_reference : Text
  pub service_profile : Text
  pub action : Text
  pub identity_reference : Text

-- `decode` refuses unknown fields and data after the value; the layout of a time has milliseconds.
pub record Json : Type 0 where
  pub marshal : CanonicalRecord → Option Text
  pub transform : Text → Option Text
  pub decode : Text → Option CanonicalRecord
  pub format_time : Time → Text
  pub parse_time : Text → Option Time

module _ (codec : Codec) (json : Json) where
  abbrev pub canonical_value : AuditRecord → CanonicalRecord
  canonical_value r = record {
    profile = profile_name;
    operation_id = r.operation_id;
    operation_kind = r.operation;
    outcome = r.outcome;
    reason = r.reason;
    decision_time = json.format_time r.decision_time;
    tenant_id = r.tenant_id;
    principal_id = r.principal_id;
    participant_instance_id = r.participant_instance_id;
    session_epoch = r.session_epoch;
    dpop_thumbprint_digest =
        if r.has_dpop_thumbprint then codec.encode_base64 r.dpop_thumbprint else [];
    authority_reference = r.authority_reference;
    jwks_set_digest = if r.has_jwks_set_digest then codec.encode_base64 r.jwks_set_digest else [];
    checkpoint_reference = r.checkpoint_reference;
    signing_key_reference = r.signing_key_reference;
    recovery_reference = r.recovery_reference;
    service_profile = r.service_profile;
    action = r.action;
    identity_reference = r.identity_reference;
  }

  unfoldable pub canonical_record : AuditRecord → Result Error Text
  canonical_record r = do
    _ ← require (valid_record codec r) Error.invalid_record
    raw ← or_fail (json.marshal (canonical_value r)) Error.invalid_record
    canonical ← or_fail (json.transform raw) Error.invalid_record
    _ ← require (not (ltb max_canonical_bytes (length canonical))) Error.invalid_record
    ok canonical

  -- An optional digest: its 32 bytes, and whether it is there.
  abbrev pub read_digest : Text → Result Error (Text × Bool)
  read_digest value =
      if is_blank value then ok (zero_digest, false) else elim (codec.decode_base64 value) [
        | none ↦ err Error.invalid_record
        | some decoded ↦
            if length decoded == 32 then ok (decoded, true) else err Error.invalid_record
      ]

  abbrev pub record_of : CanonicalRecord → Time → Text × Bool → Text × Bool → AuditRecord
  record_of value decision_time thumbprint key_set = record {
    profile_version = 1;
    operation_id = value.operation_id;
    operation = value.operation_kind;
    outcome = value.outcome;
    reason = value.reason;
    decision_time = decision_time;
    tenant_id = value.tenant_id;
    principal_id = value.principal_id;
    participant_instance_id = value.participant_instance_id;
    session_epoch = value.session_epoch;
    dpop_thumbprint = thumbprint.0;
    has_dpop_thumbprint = thumbprint.1;
    authority_reference = value.authority_reference;
    jwks_set_digest = key_set.0;
    has_jwks_set_digest = key_set.1;
    checkpoint_reference = value.checkpoint_reference;
    signing_key_reference = value.signing_key_reference;
    recovery_reference = value.recovery_reference;
    service_profile = value.service_profile;
    action = value.action;
    identity_reference = value.identity_reference;
  }

  unfoldable pub validate_canonical_record : Text → Result Error AuditRecord
  validate_canonical_record canonical = do
    _ ←
        require (not (length canonical == 0 || ltb max_canonical_bytes (length canonical)))
          Error.invalid_record
    normalized ← or_fail (json.transform canonical) Error.invalid_record
    _ ← require (normalized == canonical) Error.invalid_record
    value ← or_fail (json.decode canonical) Error.invalid_record
    _ ← require (value.profile == profile_name) Error.invalid_record
    decision_time ← or_fail (json.parse_time value.decision_time) Error.invalid_record
    _ ← require (json.format_time decision_time == value.decision_time) Error.invalid_record
    thumbprint ← read_digest value.dpop_thumbprint_digest
    key_set ← read_digest value.jwks_set_digest
    let r = record_of value decision_time thumbprint key_set
    _ ← require (valid_record codec r) Error.invalid_record
    reencoded ← canonical_record r
    _ ← require (reencoded == canonical) Error.invalid_record
    ok r
