-- ===== src/Audit/Tests.antt =====
-- The audit ledger at concrete records, over stand-ins for SHA-256, base64, UUIDs and JSON.
use yukh_coordination.Base.{
  ◌≡◌, ◌⊎◌, refl, inr, true, false, none, some, [], ◌∷◌, ◌++◌, arith, Text, text, length, take,
  replicate, leb, length-take, length-append, Text-discrete, if◌then◌else◌,
}
use yukh_coordination.Time
use yukh_coordination.Merkle.{merkle_leaf_hash}
use yukh_coordination.Merkle.Binding.{Collision}
use yukh_coordination.Audit.{
  Operation, Outcome, Reason, AuditRecord, Codec, zero_digest, valid_digest_text, tenant_pattern,
  Operation-discrete, Outcome-discrete, Reason-discrete,
}
use yukh_coordination.Audit.Shapes.{valid_operation_shape, allow_reason, valid_identity}
use yukh_coordination.Audit.Records.{valid_record, IsIdentified, valid_record-IsIdentified}
use yukh_coordination.Audit.Receipts.{canonical_receipt, valid_receipt, new_receipt}
use yukh_coordination.Audit.Canonical.{
  Json, canonical_record, validate_canonical_record, profile_name,
}
use yukh_coordination.Audit.Chain.{genesis_digest, chain_digest, record_digest, chain_preimage}
use yukh_coordination.Audit.Verified.{Entry, verify_entry, verify_entries, verified_chain_state}
use yukh_coordination.Audit.Tamper.{verified_chain_state-binding}

-- The first 32 bytes, filled up with zeros.
abbrev digest : Text → Text
digest x = take 32 (x ++ replicate 32 0)

digest_size : (x : Text) → length (digest x) ≡ 32
digest_size x =
    omega (arith, length-take 32 (x ++ replicate 32 0), length-append {0} x (replicate 32 0))

abbrev codec : Codec
codec = record {
  canonical_v7 = λ t. if leb 16 (length t) then some (take 16 t) else none;
  encode_base64 = λ t. t ++ replicate 11 b'A';
  decode_base64 = λ t. some (take 32 t);
}

abbrev login : AuditRecord
login = record {
  profile_version = 1;
  operation_id = replicate 36 b'7';
  operation = Operation.authentication;
  outcome = Outcome.allow;
  reason = Reason.allowed;
  decision_time = record { instant = 5_000_000; location = Time.utc };
  tenant_id = text "tenant-1";
  principal_id = replicate 43 b'p';
  participant_instance_id = replicate 36 b'7';
  session_epoch = 3;
  dpop_thumbprint = replicate 32 9;
  has_dpop_thumbprint = true;
  authority_reference = [];
  jwks_set_digest = zero_digest;
  has_jwks_set_digest = false;
  checkpoint_reference = [];
  signing_key_reference = [];
  recovery_reference = [];
  service_profile = [];
  action = [];
  identity_reference = [];
}

login_valid : valid_record codec login ≡ true
unfolding valid_record Operation-discrete Outcome-discrete Reason-discrete valid_operation_shape
    Text-discrete allow_reason valid_identity tenant_pattern valid_digest_text
login_valid = refl

valid_record-IsIdentified_example : IsIdentified codec login
valid_record-IsIdentified_example =
    valid_record-IsIdentified codec login login_valid refl (inr refl)

-- A JSON that knows one document.
abbrev json : Json
json = record {
  marshal = λ value. some (text "{login}");
  transform = λ t. some t;
  decode = λ t. some (record {
    profile = profile_name;
    operation_id = login.operation_id;
    operation_kind = login.operation;
    outcome = login.outcome;
    reason = login.reason;
    decision_time = text "now";
    tenant_id = login.tenant_id;
    principal_id = login.principal_id;
    participant_instance_id = login.participant_instance_id;
    session_epoch = login.session_epoch;
    dpop_thumbprint_digest = codec.encode_base64 login.dpop_thumbprint;
    authority_reference = [];
    jwks_set_digest = [];
    checkpoint_reference = [];
    signing_key_reference = [];
    recovery_reference = [];
    service_profile = [];
    action = [];
    identity_reference = [];
  });
  format_time = λ t. text "now";
  parse_time = λ t. some login.decision_time;
}

abbrev ledger : Text
ledger = replicate 36 b'5'

abbrev genesis : Text
genesis = digest (text "yukh-coordination:audit-chain-genesis:v1\n" ++ replicate 16 b'5')

abbrev login_hash : Text
login_hash = digest (text "yukh-coordination:audit-record:v1\n{login}")

abbrev head : Text
head = digest (chain_preimage 1 genesis login_hash)

abbrev entry : Entry
entry = record {
  sequence = 1;
  operation_id = login.operation_id;
  canonical = text "{login}";
  record_hash = login_hash;
  previous = genesis;
  chain = head;
  receipt = text "{receipt}";
}

verified_chain_state-binding_example :
    (text "{login}" ∷ [] ≡ text "{login}" ∷ []) ⊎ Collision digest
unfolding verified_chain_state validate_canonical_record canonical_record valid_record
    Operation-discrete Outcome-discrete Reason-discrete valid_operation_shape Text-discrete
    allow_reason valid_identity tenant_pattern valid_digest_text merkle_leaf_hash genesis_digest
    verify_entries verify_entry record_digest chain_digest new_receipt canonical_receipt
    valid_receipt
verified_chain_state-binding_example =
    verified_chain_state-binding digest digest_size codec json (λ r. some (text "{receipt}"))
      (record { ledger_id = ledger; last_sequence = 1; chain_head = head }) (entry ∷ [])
      (entry ∷ []) _ _ refl refl
