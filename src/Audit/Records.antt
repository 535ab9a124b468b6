-- ===== src/Audit/Records.antt =====
-- internal/relay/audit/record.go: validRecord, and what a valid record discloses.
use yukh_coordination.Base.{
  ◌≡◌, ◌⊎◌, ◌≤◌, inl, inr, Bool, true, false, not, ◌&&◌, ◌||◌, ◌==◌, ◌!=◌, nat_eq, text_eq, arith,
  if◌then◌else◌, subst,
}
use yukh_coordination.Time.{is_utc, whole_millis}
use yukh_coordination.Merkle.{max_json_safe_sequence}
use yukh_coordination.Audit.{
  Operation, Outcome, Reason, AuditRecord, Codec, operation_eq, outcome_eq, reason_eq, is_v7,
  tenant_pattern, valid_digest_text, zero_digest,
}
use yukh_coordination.Audit.Shapes.{
  staging_fields, operation_shape, valid_operation_shape, valid_identity, allow_reason,
}

abbrev pub is_session : Operation → Bool
is_session o = o == Operation.bootstrap || o == Operation.authentication

abbrev pub denied : AuditRecord → Bool
denied r =
    (is_session r.operation
      && (r.reason == Reason.invalid_credential
          || r.reason == Reason.proof_replay
          || r.reason == Reason.inactive_session))
    || (r.operation == Operation.staging_authentication
        && (r.reason == Reason.invalid_credential || r.reason == Reason.credential_expired))
    || (r.operation == Operation.staging_authorization && r.reason == Reason.access_denied)

abbrev pub is_unavailable : AuditRecord → Bool
is_unavailable r =
    r.reason == Reason.verification_unavailable
    || r.reason == Reason.registry_unavailable
    || r.reason == Reason.material_collision
    || r.reason == Reason.operation_unavailable
    || (r.reason == Reason.dependency_unavailable
        && (r.operation == Operation.staging_authentication
            || r.operation == Operation.staging_authorization
            || r.operation == Operation.staging_lifecycle))

module _ (codec : Codec) where
  -- The switch on the outcome.
  unfoldable pub valid_outcome : AuditRecord → Outcome → Bool
  valid_outcome r Outcome.allow = allow_reason codec r r.operation
  valid_outcome r Outcome.deny = denied r && valid_identity codec r false
  valid_outcome r Outcome.unavailable = is_unavailable r && valid_identity codec r false
  valid_outcome r (Outcome.other name) = false

  unfoldable pub valid_record : AuditRecord → Bool
  unfolding valid_outcome
  valid_record r =
      if r.profile_version != 1
        || not (is_utc r.decision_time)
        || not (whole_millis r.decision_time)
        || not (is_v7 codec r.operation_id)
        || not (valid_operation_shape codec r)
        || not (valid_outcome r r.outcome)
      then false
      else (r.has_dpop_thumbprint || r.dpop_thumbprint == zero_digest)
        && (r.has_jwks_set_digest || r.jwks_set_digest == zero_digest)

  -- What validRecord has checked.
  checked :
      (r : AuditRecord)
      → valid_record r ≡ true
      → (operation_shape codec r r.operation ≡ true) × (valid_outcome r r.outcome ≡ true)
  unfolding valid_record valid_operation_shape
  checked r h = (ground (arith, h), ground (arith, h))

  -- A full identity: tenant, principal, session and proof key, without a staging field.
  pub record IsIdentified (r : AuditRecord) : Type 0 where
    pub tenant : tenant_pattern r.tenant_id ≡ true
    pub principal : valid_digest_text codec r.principal_id ≡ true
    pub participant : is_v7 codec r.participant_instance_id ≡ true
    pub epoch_low : 1 ≤ r.session_epoch
    pub epoch_high : r.session_epoch ≤ max_json_safe_sequence
    pub thumbprint : r.has_dpop_thumbprint ≡ true
    pub unstaged : staging_fields r ≡ false

  valid_identity-IsIdentified :
      (r : AuditRecord)
      → valid_identity codec r true ≡ true
      → r.has_dpop_thumbprint ≡ true
      → staging_fields r ≡ false
      → IsIdentified r
  unfolding valid_identity
  valid_identity-IsIdentified r h thumbprint unstaged = record {
    tenant = ground (arith, h);
    principal = ground (arith, h);
    participant = ground (arith, h);
    epoch_low = ground (arith, h);
    epoch_high = ground (arith, h);
    thumbprint = thumbprint;
    unstaged = unstaged;
  }

  allow_reason-IsIdentified :
      (r : AuditRecord) (o : Operation)
      → (o ≡ Operation.bootstrap) ⊎ (o ≡ Operation.authentication)
      → operation_shape codec r o ≡ true
      → allow_reason codec r o ≡ true
      → IsIdentified r
  unfolding allow_reason operation_shape
  allow_reason-IsIdentified r o (inl e) shape h =
      let at_session = subst (λ x. allow_reason codec r x ≡ true) e h in
      let at_shape = subst (λ x. operation_shape codec r x ≡ true) e shape in
      valid_identity-IsIdentified r (ground (arith, at_session)) (ground (arith, at_session))
        (ground (arith, at_shape))
  allow_reason-IsIdentified r o (inr e) shape h =
      let at_session = subst (λ x. allow_reason codec r x ≡ true) e h in
      let at_shape = subst (λ x. operation_shape codec r x ≡ true) e shape in
      valid_identity-IsIdentified r (ground (arith, at_session)) (ground (arith, at_session))
        (ground (arith, at_shape))

  -- An accepted record of an allowed bootstrap or authentication carries a full identity: a tenant, a
  -- principal's digest, a canonical participant, an epoch from 1 to 2 ^ 53 - 1 and a proof key, and no
  -- field of the staging profile.
  pub valid_record-IsIdentified :
      (r : AuditRecord)
      → valid_record r ≡ true
      → r.outcome ≡ Outcome.allow
      → (r.operation ≡ Operation.bootstrap) ⊎ (r.operation ≡ Operation.authentication)
      → IsIdentified r
  unfolding valid_outcome
  valid_record-IsIdentified r h allowed session =
      allow_reason-IsIdentified r r.operation session (checked r h).0
        (subst (λ o. valid_outcome r o ≡ true) allowed (checked r h).1)
