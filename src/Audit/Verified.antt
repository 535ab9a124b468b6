-- ===== src/Audit/Verified.antt =====
-- internal/relay/audit/sqlite/ledger.go: the check of the stored chain that every reader makes. A row
-- is what SQLite returns, in the order of its sequence.
use yukh_coordination.Base.{
  ℕ, suc, Bool, ◌&&◌, Option, List, [], ◌∷◌, Text, length, ◌==◌, nat_eq, text_eq, Result, ok, err,
  ◌>>=◌, require,
}
use yukh_coordination.Merkle.{merkle_leaf_hash}
use yukh_coordination.Audit.{Codec, Error, Receipt}
use yukh_coordination.Audit.Receipts.{new_receipt, canonical_receipt}
use yukh_coordination.Audit.Canonical.{Json, validate_canonical_record}
use yukh_coordination.Audit.Chain.{record_digest, genesis_digest, chain_digest}

-- A row of audit_metadata.
pub record Metadata : Type 0 where
  pub ledger_id : Text
  pub last_sequence : ℕ
  pub chain_head : Text

-- A row of audit_entries.
pub record Entry : Type 0 where
  pub sequence : ℕ
  pub operation_id : Text
  pub canonical : Text
  pub record_hash : Text
  pub previous : Text
  pub chain : Text
  pub receipt : Text

-- `if err != nil { return audit.ErrUnavailable }`
abbrev pub or_unavailable : {E A : Type 0} → Result E A → Result Error A
or_unavailable (ok a) = ok a
or_unavailable (err e) = err Error.unavailable

module _ (sha256 : Text → Text) (codec : Codec) (json : Json)
    (marshal : Receipt → Option Text) where
  abbrev pub sizes : Entry → Bool
  sizes e = length e.record_hash == 32 && length e.previous == 32 && length e.chain == 32

  -- One turn of the loop: the chain digest of the row and the leaf of the tree.
  unfoldable pub verify_entry : Text → ℕ → Text → Entry → Result Error (Text × Text)
  verify_entry ledger_id count previous e = do
    _ ← require (e.sequence == count && sizes e) Error.unavailable
    _ ← or_unavailable (validate_canonical_record codec json e.canonical)
    _ ← require (e.record_hash == record_digest sha256 e.canonical) Error.unavailable
    _ ← require (e.previous == previous) Error.unavailable
    chain ←
        or_unavailable (chain_digest sha256 e.sequence previous (record_digest sha256 e.canonical))
    _ ← require (e.chain == chain) Error.unavailable
    receipt ← or_unavailable (
        new_receipt codec ledger_id e.sequence e.operation_id (record_digest sha256 e.canonical)
          previous chain)
    expected ← or_unavailable (canonical_receipt codec marshal receipt)
    _ ← require (e.receipt == expected) Error.unavailable
    leaf ← or_unavailable (merkle_leaf_hash sha256 e.sequence chain)
    ok (chain, leaf)

  -- The loop over the rows: the last chain digest and the leaves.
  unfoldable pub verify_entries : Text → ℕ → Text → List Entry → Result Error (Text × List Text)
  verify_entries ledger_id count previous [] = ok (previous, [])
  verify_entries ledger_id count previous (e ∷ rest) = do
    step ← verify_entry ledger_id count previous e
    more ← verify_entries ledger_id (suc count) step.0 rest
    ok (more.0, step.1 ∷ more.1)

  unfoldable pub verified_chain_state : Metadata → List Entry → Result Error (ℕ × List Text)
  verified_chain_state metadata entries = do
    _ ← require (length metadata.chain_head == 32) Error.unavailable
    genesis ← or_unavailable (genesis_digest sha256 codec metadata.ledger_id)
    state ← verify_entries metadata.ledger_id 1 genesis entries
    _ ← require (length entries == metadata.last_sequence) Error.unavailable
    _ ← require (metadata.chain_head == state.0) Error.unavailable
    ok (length entries, state.1)
