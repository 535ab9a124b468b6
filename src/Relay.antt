-- ===== src/Relay.antt =====
-- internal/relay/store.go: the persistence port of the relay, its values and the checks that every
-- adapter shares. A byte slice is its bytes, so the Clone functions are the identity.
pub mod Memory
pub mod AppendService
mod Tests
use yukh_coordination.Base.{
  ℕ, ◌+◌, ◌/◌, ◌%◌, Bool, true, not, ◌&&◌, ◌||◌, Option, none, some, List, [], ◌∷◌, ◌++◌, ltb, ◌==◌,
  ◌!=◌, Eq, nat_eq, text_eq, Text, ℕ_discrete, Result, ok, err, if◌then◌else◌, text,
}

-- `external` is an error that a caller's callback or context reports.
pub data Error : Type 0 where
  channel_not_found channel_conflict event_id_collision invalid_argument commit_indeterminate :
      Error
  receipt_not_found signature_collision event_not_found signature_pending resource_limit : Error
  transition_conflict : Error
  external : ℕ → Error

pub record ChannelKey : Type 0 where
  pub tenant_id : Text
  pub channel_id : Text
  pub transcript_epoch : Text

unfoldable pub ChannelKey-discrete : Discrete ChannelKey
unfolding ℕ_discrete
ChannelKey-discrete = hlevel ℕ_discrete

instance abbrev pub channel_key_eq : Eq ChannelKey
channel_key_eq = record { dec = ChannelKey-discrete }

pub record Channel : Type 0 where
  pub key : ChannelKey
  pub uri : Text
  pub canonical_metadata : Text
  pub metadata_digest : Text
  pub lifecycle : Text

pub record AppendIntent : Type 0 where
  pub channel : ChannelKey
  pub event_id : Text
  pub canonical_event : Text

pub record AcceptedRecord : Type 0 where
  pub channel : ChannelKey
  pub sequence : ℕ
  pub event_id : Text
  pub canonical_event : Text
  pub event_digest : Text
  pub authenticated_binding : Text
  pub authorization_binding : Text
  pub receipt_id : Text
  pub signing_key_id : Text
  pub signature_algorithm : Text
  pub unsigned_receipt_preimage : Text
  pub signature : Text

pub record SignatureAttachment : Type 0 where
  pub channel : ChannelKey
  pub receipt_id : Text
  pub unsigned_receipt_preimage : Text
  pub signature : Text

abbrev pub PrepareRecord : Type 0
PrepareRecord = ℕ → Text → Result Error AcceptedRecord

pub record AdmissionView : Type 0 where
  pub lookup_event : Text → Result Error AcceptedRecord
  pub read_after : ℕ → ℕ → Result Error (List AcceptedRecord)

abbrev pub Admit : Type 0
Admit = AdmissionView → Result Error (Unit {0})

pub data AppendOutcome : Type 0 where
  appended duplicate : AppendOutcome

abbrev pub AppendResult : Type 0
AppendResult = AppendOutcome × AcceptedRecord

-- `value == ""`
abbrev pub is_empty : Text → Bool
is_empty t = t == []

unfoldable pub same_event : AppendIntent → AppendIntent → Bool
same_event left right =
    left.event_id == right.event_id && left.canonical_event == right.canonical_event

unfoldable pub validate_channel : Channel → Result Error (Unit {0})
validate_channel c =
    if is_empty c.key.tenant_id
      || is_empty c.key.channel_id
      || is_empty c.key.transcript_epoch
      || is_empty c.uri
      || is_empty c.canonical_metadata
      || is_empty c.metadata_digest
      || c.lifecycle != text "active"
    then err Error.invalid_argument
    else ok tt

unfoldable pub same_channel : Channel → Channel → Bool
same_channel left right =
    left.key == right.key
    && left.uri == right.uri
    && left.metadata_digest == right.metadata_digest
    && left.lifecycle == right.lifecycle
    && left.canonical_metadata == right.canonical_metadata

abbrev pub is_blank_key : ChannelKey → Bool
is_blank_key key =
    is_empty key.tenant_id || is_empty key.channel_id || is_empty key.transcript_epoch

unfoldable pub validate_intent : AppendIntent → Result Error (Unit {0})
validate_intent intent =
    if is_blank_key intent.channel || is_empty intent.event_id || is_empty intent.canonical_event
    then err Error.invalid_argument
    else ok tt

-- A nil callback is `none`.
unfoldable pub validate_append_intent :
    AppendIntent → Option PrepareRecord → Result Error PrepareRecord
unfolding validate_intent
validate_append_intent intent prepare = elim (validate_intent intent) [
  | err e ↦ err e
  | ok _ ↦ elim prepare [ none ↦ err Error.invalid_argument | some p ↦ ok p ]
]

unfoldable pub validate_checked_append :
    AppendIntent → Option Admit → Option PrepareRecord → Result Error (Admit × PrepareRecord)
unfolding validate_append_intent
validate_checked_append intent admit prepare = elim admit [
  | none ↦ err Error.invalid_argument
  | some a ↦ elim (validate_append_intent intent prepare) [ err e ↦ err e | ok p ↦ ok (a, p) ]
]

abbrev pub hex_digit : ℕ → ℕ
hex_digit n = if ltb n 10 then 48 + n else 87 + n

abbrev pub hex_encode : Text → Text
hex_encode [] = []
hex_encode (b ∷ t) = hex_digit (b / 16) ∷ hex_digit (b % 16) ∷ hex_encode t

unfoldable pub event_digest_of : (Text → Text) → Text → Text
event_digest_of sha256 event = text "sha-256:" ++ hex_encode (sha256 event)

unfoldable pub validate_prepared_record :
    AppendIntent → ℕ → Text → AcceptedRecord → Result Error (Unit {0})
validate_prepared_record intent sequence digest r =
    if r.channel != intent.channel
      || r.sequence != sequence
      || r.event_id != intent.event_id
      || r.canonical_event != intent.canonical_event
      || r.event_digest != digest
    then err Error.invalid_argument
    else if is_empty r.receipt_id
        || is_empty r.signing_key_id
        || is_empty r.signature_algorithm
        || is_empty r.authenticated_binding
        || is_empty r.authorization_binding
        || is_empty r.unsigned_receipt_preimage
    then err Error.invalid_argument
    else ok tt

unfoldable pub validate_signature_attachment : SignatureAttachment → Result Error (Unit {0})
validate_signature_attachment a =
    if is_blank_key a.channel
      || is_empty a.receipt_id
      || is_empty a.unsigned_receipt_preimage
      || is_empty a.signature
    then err Error.invalid_argument
    else ok tt
