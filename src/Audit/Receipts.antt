-- ===== src/Audit/Receipts.antt =====
-- internal/relay/audit/record.go: the receipts of the audit ledger. JSON and its canonical form are
-- parameters.
use yukh_coordination.Base.{
  ℕ, Bool, false, not, ◌&&◌, ◌||◌, Option, none, some, Text, ltb, ◌==◌, ◌!=◌, nat_eq, text_eq,
  Result, ok, err, if◌then◌else◌,
}
use yukh_coordination.Merkle.{max_json_safe_sequence}
use yukh_coordination.Audit.{Codec, Error, Receipt, receipt_profile, is_v7, valid_digest_text}

module _ (codec : Codec) where
  unfoldable pub valid_receipt : Receipt → Bool
  valid_receipt receipt =
      if receipt.profile != receipt_profile
        || receipt.sequence == 0
        || ltb max_json_safe_sequence receipt.sequence
      then false
      else if not (is_v7 codec receipt.ledger_id) || not (is_v7 codec receipt.operation_id)
      then false
      else valid_digest_text codec receipt.record_digest
        && valid_digest_text codec receipt.previous_chain_digest
        && valid_digest_text codec receipt.chain_digest

  unfoldable pub new_receipt : Text → ℕ → Text → Text → Text → Text → Result Error Receipt
  new_receipt ledger_id sequence operation_id record_hash previous chain =
      if not (is_v7 codec ledger_id)
        || not (is_v7 codec operation_id)
        || sequence == 0
        || ltb max_json_safe_sequence sequence
      then err Error.unavailable
      else ok (record {
        profile = receipt_profile;
        ledger_id = ledger_id;
        sequence = sequence;
        operation_id = operation_id;
        record_digest = codec.encode_base64 record_hash;
        previous_chain_digest = codec.encode_base64 previous;
        chain_digest = codec.encode_base64 chain;
      })

  -- `marshal` is json.Marshal followed by jsoncanonicalizer.Transform.
  unfoldable pub canonical_receipt : (Receipt → Option Text) → Receipt → Result Error Text
  canonical_receipt marshal receipt =
      if not (valid_receipt receipt)
      then err Error.unavailable
      else elim (marshal receipt) [ none ↦ err Error.unavailable | some canonical ↦ ok canonical ]
