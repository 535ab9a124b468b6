-- ===== src/Audit/Chain.antt =====
-- internal/relay/audit/record.go: the digests of the records, and the hash chain over them.
use yukh_coordination.Base.{
  ℕ, ◌||◌, none, some, ◌++◌, Text, text, ltb, ◌==◌, nat_eq, text_eq, Result, ok, err, if◌then◌else◌,
}
use yukh_coordination.Merkle.{big_endian, max_json_safe_sequence}
use yukh_coordination.Audit.{Codec, Error}

abbrev pub chain_domain : Text
chain_domain = text "yukh-coordination:audit-chain:v1\n"

abbrev pub chain_preimage : ℕ → Text → Text → Text
chain_preimage sequence previous record_hash =
    chain_domain ++ (big_endian 8 sequence ++ (previous ++ record_hash))

module _ (sha256 : Text → Text) where
  unfoldable pub record_digest : Text → Text
  record_digest canonical = sha256 (text "yukh-coordination:audit-record:v1\n" ++ canonical)

  unfoldable pub genesis_digest : Codec → Text → Result Error Text
  genesis_digest codec ledger_id = elim (codec.canonical_v7 ledger_id) [
    | none ↦ err Error.unavailable
    | some id ↦ ok (sha256 (text "yukh-coordination:audit-chain-genesis:v1\n" ++ id))
  ]

  unfoldable pub chain_digest : ℕ → Text → Text → Result Error Text
  chain_digest sequence previous record_hash =
      if sequence == 0 || ltb max_json_safe_sequence sequence
      then err Error.unavailable
      else ok (sha256 (chain_preimage sequence previous record_hash))
