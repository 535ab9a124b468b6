-- ===== src/Application/Append.antt =====
-- internal/relay/service/application.go: Append, over the append service, the transition validator and the
-- relay store in memory. The validator of events, JSON with its canonical form, the layout of times, the
-- receipt identifiers and the signer are parameters. `others` is what other clients
-- do to the store between its calls: before Lookup, before AppendChecked, and before AttachSignature.
use yukh_coordination.Base.{
  List, ℕ, suc, ◌-◌, ◌%◌, not, ◌||◌, Option, none, some, ltb, ◌==◌, ◌!=◌, nat_eq, text_eq, Text, [],
  text, Result, ok, err, if◌then◌else◌,
}
use yukh_coordination.Time.{Time, to_utc, millisecond}
use yukh_coordination.Relay.{
  Error, ChannelKey, Channel, AcceptedRecord, Admit, AppendOutcome, AppendResult,
}
use yukh_coordination.Relay.Memory.{Store}
use yukh_coordination.Relay.AppendService.{SigningSelection, PrepareSelected, append_signed}
use yukh_coordination.Transition.{Descriptor, TransitionEvent, TranscriptState, Failure, sentinel}
use yukh_coordination.Transition.Validate.{validate}
use yukh_coordination.Application.{
  AdmittedRequest, ChannelMetadata, Codec, failure, max_safe_integer, resolve, signed_receipt,
}

-- protocol.Event, as far as Append reads it.
pub record Event : Type 0 where
  pub id : Text
  pub channel_uri : Text
  pub participant_id : Text
  pub canonical : Text

pub record ReceiptDocument : Type 0 where
  pub spec_version : Text
  pub receipt_version : Text
  pub receipt_id : Text
  pub event_id : Text
  pub tenant_id : Text
  pub channel_id : Text
  pub channel_uri : Text
  pub principal_id : Text
  pub participant_id : Text
  pub participant_instance_id : Text
  pub session_epoch : ℕ
  pub cursor : Text
  pub transcript_epoch : ℕ
  pub sequence : ℕ
  pub accepted_at : Text
  pub event_digest : Text
  pub channel_metadata_digest : Text
  pub acl_policy_version : Text
  pub acl_policy_digest : Text
  pub acl_decision_receipt_id : Text
  pub append_outcome : Text
  pub key_id : Text
  pub signature_algorithm : Text

-- The map of the authenticated binding.
pub record Binding : Type 0 where
  pub participant_instance_id : Text
  pub principal_id : Text
  pub session_epoch : ℕ
  pub tenant_id : Text

-- `receipt_json` and `binding_json` are canonicalJSON.
pub record Writer : Type 0 where
  pub validate_event : Text → Option Event
  pub format_uint : ℕ → Text
  pub format_time : Time → Text
  pub receipt_json : ReceiptDocument → Option Text
  pub binding_json : Binding → Option Text

pub record AppendResponse : Type 0 where
  pub outcome : AppendOutcome
  pub canonical_receipt : Text

-- What Append leaves: the store, the channel that subscribers are told of, and the answer.
pub record Appended : Type 0 where
  pub store : Store
  pub notified : Option ChannelKey
  pub answer : Result Error AppendResponse

-- `a.clock().UTC().Truncate(time.Millisecond)`
abbrev pub accepted_time : Time → Time
accepted_time now = record (to_utc now) { instant = now.instant - now.instant % millisecond }

abbrev pub notice : AppendOutcome → ChannelKey → Option ChannelKey
notice AppendOutcome.appended key = some key
notice AppendOutcome.duplicate key = none

module _ (writer : Writer) where
  abbrev pub receipt_document :
      AdmittedRequest
      → Channel
      → ChannelMetadata
      → ℕ
      → Event
      → Text
      → Time
      → ℕ
      → Text
      → SigningSelection
      → ReceiptDocument
  receipt_document a channel m epoch event receipt_id now sequence digest selection = record {
    spec_version = text "0.1";
    receipt_version = text "0.1";
    receipt_id = receipt_id;
    event_id = event.id;
    tenant_id = a.identity.tenant_id;
    channel_id = a.channel.channel_id;
    channel_uri = channel.uri;
    principal_id = a.identity.principal_id;
    participant_id = event.participant_id;
    participant_instance_id = a.identity.participant_instance_id;
    session_epoch = a.identity.session_epoch;
    cursor = writer.format_uint sequence;
    transcript_epoch = epoch;
    sequence = sequence;
    accepted_at = writer.format_time (accepted_time now);
    event_digest = digest;
    channel_metadata_digest = m.digest;
    acl_policy_version = a.acl_policy_version;
    acl_policy_digest = a.acl_policy_digest;
    acl_decision_receipt_id = a.acl_decision_receipt_id;
    append_outcome = text "appended";
    key_id = selection.key_id;
    signature_algorithm = selection.algorithm;
  }

  abbrev pub binding_of : AdmittedRequest → Binding
  binding_of a = record {
    participant_instance_id = a.identity.participant_instance_id;
    principal_id = a.identity.principal_id;
    session_epoch = a.identity.session_epoch;
    tenant_id = a.identity.tenant_id;
  }

  -- The callback that prepares the record.
  abbrev pub prepare_record :
      AdmittedRequest → Channel → ChannelMetadata → ℕ → Event → Text → Time → PrepareSelected
  prepare_record a channel m epoch event receipt_id now sequence digest selection =
      if sequence == 0 || ltb max_safe_integer sequence
      then err Error.invalid_argument
      else elim (writer.receipt_json
          (receipt_document a channel m epoch event receipt_id now sequence digest selection)) [
            | none ↦ err failure
            | some preimage ↦ elim (writer.binding_json (binding_of a)) [
              | none ↦ err failure
              | some authenticated ↦ ok (record {
                channel = a.channel;
                sequence = sequence;
                event_id = event.id;
                canonical_event = event.canonical;
                event_digest = digest;
                authenticated_binding = authenticated;
                authorization_binding = a.authorization_binding;
                receipt_id = receipt_id;
                signing_key_id = selection.key_id;
                signature_algorithm = selection.algorithm;
                unsigned_receipt_preimage = preimage;
                signature = [];
              })
            ]
          ]

module _ (sha256 : Text → Text) (canonical_evidence : List Descriptor → Text)
    (canonical_boundary : Text → Text → Text → Text → Text → Text → Text)
    (parse : Text → Option TransitionEvent) (receipt_participant : Text → Text) where
  -- What the validator of transitions tells the store; `pages` is the fuel of its loop.
  abbrev pub verdict : Option (Result Failure TranscriptState) → Result Error (Unit {0})
  verdict none = err failure
  verdict (some (err f)) = err (sentinel f)
  verdict (some (ok t)) = ok tt

  -- The callback that admits the event.
  abbrev pub admit_event : ℕ → Event → Text → Admit
  admit_event pages event participant view = verdict (
      validate sha256 canonical_evidence canonical_boundary parse receipt_participant pages
        (some view) event.canonical participant)

  module _ (select : Result Error SigningSelection) (sign : AcceptedRecord → Option Text)
      (codec : Codec) (writer : Writer) where
    -- Append, once the append service has answered.
    abbrev pub answered : AdmittedRequest → Store × Result Error AppendResult → Appended
    answered a (s, err e) = record { store = s; notified = none; answer = err e }
    answered a (s, ok (o, r)) = record {
      store = s;
      notified = notice o a.channel;
      answer = elim (signed_receipt codec r) [
        | err e ↦ err e
        | ok receipt ↦
            if not (codec.valid_receipt receipt)
            then err failure
            else ok (record { outcome = o; canonical_receipt = receipt })
      ];
    }

    -- Append, once the request is resolved and the event is valid.
    abbrev pub append_event :
        (ℕ → Store → Store)
        → (ℕ → Option Error)
        → ℕ
        → Store
        → AdmittedRequest
        → Channel × ChannelMetadata × ℕ
        → Event
        → Text
        → Time
        → Store × Result Error AppendResult
    append_event others ctx pages s a (channel, m, epoch) event receipt_id now =
        append_signed sha256 select sign (λ n. others (suc n)) ctx (others 0 s)
          (record { channel = a.channel; event_id = event.id; canonical_event = event.canonical })
          (some (admit_event pages event a.identity.participant_instance_id))
          (some (prepare_record writer a channel m epoch event receipt_id now))

    abbrev pub refused : Store → Error → Appended
    refused s e = record { store = s; notified = none; answer = err e }

    -- `receipt_id` and `now` are what newReceiptID and the clock give.
    unfoldable pub append :
        (ℕ → Store → Store)
        → (ℕ → Option Error)
        → ℕ
        → Store
        → AdmittedRequest
        → Text
        → Option Text
        → Time
        → Appended
    append others ctx pages s a body receipt_id now = elim (resolve codec (ctx 0) s a) [
      | err e ↦ refused s e
      | ok found ↦ elim (writer.validate_event body) [
        | none ↦ refused s Error.invalid_argument
        | some event ↦
            if event.channel_uri != found.0.uri
            then refused s Error.invalid_argument
            else elim receipt_id [
              | none ↦ refused s failure
              | some id ↦
                  answered a (append_event others (λ n. ctx (suc n)) pages s a found event id now)
            ]
      ]
    ]
