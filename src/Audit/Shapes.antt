-- ===== src/Audit/Shapes.antt =====
-- internal/relay/audit/record.go: validRecord, and the shape of a record of each operation.
use yukh_coordination.Base.{
  Bool, true, false, not, ◌&&◌, ◌||◌, ltb, ◌==◌, ◌!=◌, nat_eq, text_eq, Text, text, if◌then◌else◌,
}
use yukh_coordination.Merkle.{max_json_safe_sequence}
use yukh_coordination.Audit.{
  Operation, Outcome, Reason, AuditRecord, Codec, operation_eq, outcome_eq, reason_eq, is_blank,
  is_v7, tenant_pattern, valid_reference, valid_digest_text, valid_recovery_reference,
  valid_checkpoint_reference,
}

abbrev pub identity_fields : AuditRecord → Bool
identity_fields r =
    not (is_blank r.tenant_id)
    || not (is_blank r.principal_id)
    || not (is_blank r.participant_instance_id)
    || r.session_epoch != 0
    || r.has_dpop_thumbprint

abbrev pub staging_fields : AuditRecord → Bool
staging_fields r =
    not (is_blank r.service_profile)
    || not (is_blank r.action)
    || not (is_blank r.identity_reference)

abbrev pub staging_profile : Text
staging_profile = text "yukh-coordination/private-primitives-staging-v1"

unfoldable pub valid_staging_shape : AuditRecord → Bool → Bool
valid_staging_shape r fields =
    fields
    && not (identity_fields r)
    && r.service_profile == staging_profile
    && (is_blank r.identity_reference || valid_reference r.identity_reference)
    && (is_blank r.action || valid_reference r.action)
    && is_blank r.authority_reference
    && not r.has_jwks_set_digest
    && is_blank r.checkpoint_reference
    && is_blank r.signing_key_reference
    && is_blank r.recovery_reference

module _ (codec : Codec) where
  unfoldable pub valid_revocation_identity : AuditRecord → Bool
  valid_revocation_identity r =
      if not (tenant_pattern r.tenant_id)
        || not (is_blank r.principal_id)
        || r.session_epoch == 0
        || ltb max_json_safe_sequence r.session_epoch
      then false
      else is_v7 codec r.participant_instance_id

  abbrev pub jwks_shape : AuditRecord → Bool
  jwks_shape r =
      (r.outcome == Outcome.allow && r.has_jwks_set_digest)
      || (r.outcome == Outcome.unavailable && not r.has_jwks_set_digest)

  abbrev pub identity_shape : AuditRecord → Bool
  identity_shape r =
      (r.outcome == Outcome.allow && not (is_blank r.identity_reference))
      || (r.outcome != Outcome.allow && is_blank r.identity_reference)

  -- The switch of validOperationShape.
  unfoldable pub operation_shape : AuditRecord → Operation → Bool
  operation_shape r Operation.bootstrap =
      not (staging_fields r)
      && is_blank r.authority_reference
      && not r.has_jwks_set_digest
      && is_blank r.checkpoint_reference
      && is_blank r.signing_key_reference
      && is_blank r.recovery_reference
  operation_shape r Operation.authentication =
      not (staging_fields r)
      && is_blank r.authority_reference
      && not r.has_jwks_set_digest
      && is_blank r.checkpoint_reference
      && is_blank r.signing_key_reference
      && is_blank r.recovery_reference
  operation_shape r Operation.revocation =
      not (staging_fields r)
      && valid_revocation_identity r
      && not r.has_dpop_thumbprint
      && not (is_blank r.authority_reference)
      && valid_reference r.authority_reference
      && not r.has_jwks_set_digest
      && is_blank r.checkpoint_reference
      && is_blank r.signing_key_reference
      && is_blank r.recovery_reference
  operation_shape r Operation.jwks_refresh =
      not (staging_fields r)
      && not (identity_fields r)
      && not (is_blank r.authority_reference)
      && valid_reference r.authority_reference
      && jwks_shape r
      && is_blank r.checkpoint_reference
      && is_blank r.signing_key_reference
      && is_blank r.recovery_reference
  operation_shape r Operation.restore_fence =
      not (staging_fields r)
      && not (identity_fields r)
      && is_blank r.authority_reference
      && not r.has_jwks_set_digest
      && valid_checkpoint_reference codec r.checkpoint_reference
      && is_blank r.signing_key_reference
      && valid_recovery_reference codec r.recovery_reference
  operation_shape r Operation.checkpoint =
      not (staging_fields r)
      && not (identity_fields r)
      && is_blank r.authority_reference
      && not r.has_jwks_set_digest
      && is_blank r.checkpoint_reference
      && valid_reference r.signing_key_reference
      && is_blank r.recovery_reference
  operation_shape r Operation.key_lifecycle =
      not (staging_fields r)
      && not (identity_fields r)
      && valid_reference r.authority_reference
      && not r.has_jwks_set_digest
      && is_blank r.checkpoint_reference
      && valid_reference r.signing_key_reference
      && is_blank r.recovery_reference
  operation_shape r Operation.staging_authentication =
      valid_staging_shape r (is_blank r.action && identity_shape r)
  operation_shape r Operation.staging_authorization =
      valid_staging_shape r (not (is_blank r.action) && not (is_blank r.identity_reference))
  operation_shape r Operation.staging_lifecycle =
      valid_staging_shape r (is_blank r.action && is_blank r.identity_reference)
  operation_shape r (Operation.other name) = false

  unfoldable pub valid_operation_shape : AuditRecord → Bool
  unfolding operation_shape
  valid_operation_shape r = operation_shape r r.operation

  abbrev pub has_tenant : AuditRecord → Bool
  has_tenant r = not (is_blank r.tenant_id) || not (is_blank r.principal_id)

  abbrev pub has_session : AuditRecord → Bool
  has_session r = not (is_blank r.participant_instance_id) || r.session_epoch != 0

  unfoldable pub valid_identity : AuditRecord → Bool → Bool
  valid_identity r required =
      if has_tenant r
        && (not (tenant_pattern r.tenant_id) || not (valid_digest_text codec r.principal_id))
      then false
      else if has_session r
          && (not (is_v7 codec r.participant_instance_id)
              || r.session_epoch == 0
              || ltb max_json_safe_sequence r.session_epoch
              || not (has_tenant r))
      then false
      else not required || (has_tenant r && has_session r)

  -- The switch of validAllowReason.
  unfoldable pub allow_reason : AuditRecord → Operation → Bool
  allow_reason r Operation.bootstrap =
      r.reason == Reason.allowed && valid_identity r true && r.has_dpop_thumbprint
  allow_reason r Operation.authentication =
      r.reason == Reason.allowed && valid_identity r true && r.has_dpop_thumbprint
  allow_reason r Operation.revocation = r.reason == Reason.revoked
  allow_reason r Operation.jwks_refresh = r.reason == Reason.refreshed
  allow_reason r Operation.restore_fence = r.reason == Reason.restore_verified
  allow_reason r Operation.checkpoint = r.reason == Reason.checkpoint_committed
  allow_reason r Operation.key_lifecycle = r.reason == Reason.key_lifecycle_committed
  allow_reason r Operation.staging_authentication = r.reason == Reason.allowed
  allow_reason r Operation.staging_authorization = r.reason == Reason.allowed
  allow_reason r Operation.staging_lifecycle =
      r.reason == Reason.registration_loaded
      || r.reason == Reason.tls_ready
      || r.reason == Reason.started
      || r.reason == Reason.stopped
      || r.reason == Reason.capability_key_loaded
      || r.reason == Reason.capability_key_zeroed
      || r.reason == Reason.storage_epoch_validated
  allow_reason r (Operation.other name) = false
