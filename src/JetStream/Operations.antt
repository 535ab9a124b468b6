-- ===== src/JetStream/Operations.antt =====
-- internal/relay/jetstream/operations.go: what a round of each mutation decides on a loaded state.
use yukh_coordination.Base.{
  ℕ, ◌+◌, Bool, false, not, ◌&&◌, ◌||◌, Option, none, some, List, [], ◌∷◌, ltb, ◌==◌, ◌!=◌, nat_eq,
  text_eq, Text, Map, lookup, Result, ok, err, if◌then◌else◌, length,
}
use yukh_coordination.Relay.{
  Error, ChannelKey, channel_key_eq, Channel, AppendIntent, AcceptedRecord, SignatureAttachment,
  PrepareRecord, AdmissionView, Admit, AppendOutcome, AppendResult, is_empty, same_channel,
  event_digest_of, validate_prepared_record,
}
use yukh_coordination.Relay.Memory.{
  Transcript, channel_identity_eq, identity_of, events_of, uri_differs, window,
}
use yukh_coordination.JetStream.{
  ChannelPayload, RecordPayload, SignaturePayload, Codec, channel_created, record_appended,
  signature_attached, preimage_digest, new_command,
}
use yukh_coordination.JetStream.Reducer.{TenantState, max_json_safe_integer, is_some}

-- What an attempt does with the state that it has loaded: it answers, or it publishes a command and has
-- the answer ready.
pub data Decision (A : Type 0) : Type 0 where
  answer : Result Error A → Decision A
  publish : Text → A → Decision A

abbrev pub proposed : {A : Type 0} → Result Error Text → A → Decision A
proposed (err e) a = answer (err e)
proposed (ok data_bytes) a = publish data_bytes a

-- CreateChannel's loop over the transcripts.
abbrev pub uri_used : Channel → Map ChannelKey Transcript → Bool
uri_used channel [] = false
uri_used channel ((key, t) ∷ rest) =
    (t.channel.uri == channel.uri && key.channel_id != channel.key.channel_id)
    || uri_used channel rest

abbrev pub find_event : TenantState → ChannelKey → Text → Option AcceptedRecord
find_event s key event_id = lookup event_id (events_of (identity_of key) s.events)

unfoldable pub view_lookup : TenantState → ChannelKey → Text → Result Error AcceptedRecord
view_lookup s key event_id = elim (find_event s key event_id) [
  | none ↦ err Error.event_not_found
  | some r ↦ if r.channel != key then err Error.event_not_found else ok r
]

unfoldable pub view_read : Transcript → ℕ → ℕ → Result Error (List AcceptedRecord)
view_read t after limit =
    if ltb limit 1 || ltb 1000 limit
    then err Error.invalid_argument
    else ok (window t.records after limit)

abbrev pub state_view : TenantState → ChannelKey → Transcript → AdmissionView
state_view s key t = record { lookup_event = view_lookup s key; read_after = view_read t }

unfoldable pub same_stored_event : AcceptedRecord → AppendIntent → Bool
same_stored_event r intent =
    r.channel == intent.channel
    && r.event_id == intent.event_id
    && r.canonical_event == intent.canonical_event

module _ (codec : Codec) where
  abbrev pub channel_payload : Channel → ChannelPayload
  channel_payload channel = record {
    canonical_metadata = codec.encode_bytes channel.canonical_metadata;
    channel_id = channel.key.channel_id;
    lifecycle = channel.lifecycle;
    metadata_digest = channel.metadata_digest;
    transcript_epoch = channel.key.transcript_epoch;
    uri = channel.uri;
  }

  abbrev pub record_payload : AcceptedRecord → RecordPayload
  record_payload r = record {
    authenticated_binding = codec.encode_bytes r.authenticated_binding;
    authorization_binding = codec.encode_bytes r.authorization_binding;
    canonical_event = codec.encode_bytes r.canonical_event;
    channel_id = r.channel.channel_id;
    event_digest = r.event_digest;
    event_id = r.event_id;
    receipt_id = r.receipt_id;
    sequence = r.sequence;
    signature_algorithm = r.signature_algorithm;
    signing_key_id = r.signing_key_id;
    transcript_epoch = r.channel.transcript_epoch;
    unsigned_receipt_preimage = codec.encode_bytes r.unsigned_receipt_preimage;
  }

  abbrev pub channel_command : Option Text → Channel → Result Error Text
  channel_command id channel =
      new_command codec id channel.key.tenant_id channel_created
        (codec.marshal_channel (channel_payload channel))

  abbrev pub record_command : Option Text → AcceptedRecord → Result Error Text
  record_command id r =
      new_command codec id r.channel.tenant_id record_appended
        (codec.marshal_record (record_payload r))

  -- One round of CreateChannel.
  unfoldable pub create_decision : Option Text → Channel → TenantState → Decision (Unit {0})
  create_decision id channel s = elim (lookup channel.key s.transcripts) [
    | some t ↦ answer (if same_channel t.channel channel then ok tt else err Error.channel_conflict)
    | none ↦
        if uri_differs (lookup (identity_of channel.key) s.channel_uris) channel.uri
          || uri_used channel s.transcripts
        then answer (err Error.channel_conflict)
        else proposed (channel_command id channel) tt
  ]

module _ (sha256 : Text → Text) (codec : Codec) where
  abbrev pub signature_payload : SignatureAttachment → SignaturePayload
  signature_payload a = record {
    channel_id = a.channel.channel_id;
    preimage_digest = preimage_digest sha256 a.unsigned_receipt_preimage;
    receipt_id = a.receipt_id;
    signature = codec.encode_bytes a.signature;
    transcript_epoch = a.channel.transcript_epoch;
  }

  abbrev pub signature_command : Option Text → SignatureAttachment → Result Error Text
  signature_command id a =
      new_command codec id a.channel.tenant_id signature_attached
        (codec.marshal_signature (signature_payload a))

  -- A round of AppendChecked from the prepared record on.
  unfoldable pub record_decision :
      Option Text → AppendIntent → TenantState → ℕ → AcceptedRecord → Decision AppendResult
  record_decision id intent s sequence r =
      elim (validate_prepared_record intent sequence (event_digest_of sha256 intent.canonical_event)
        r) [
          | err e ↦ answer (err e)
          | ok _ ↦
              if not (is_empty r.signature) || ltb max_json_safe_integer r.sequence
              then answer (err Error.invalid_argument)
              else if is_some (lookup r.receipt_id s.receipts)
              then answer (err Error.invalid_argument)
              else proposed (record_command codec id r) (AppendOutcome.appended, r)
        ]

  -- One round of AppendChecked.
  unfoldable pub append_decision :
      Option Text → AppendIntent → Admit → PrepareRecord → TenantState → Decision AppendResult
  append_decision id intent admit prepare s = elim (lookup intent.channel s.transcripts) [
    | none ↦ answer (err Error.channel_not_found)
    | some t ↦ elim (find_event s intent.channel intent.event_id) [
      | some r ↦ answer (
          if not (same_stored_event r intent)
          then err Error.event_id_collision
          else ok (AppendOutcome.duplicate, r))
      | none ↦ elim (admit (state_view s intent.channel t)) [
        | err e ↦ answer (err e)
        | ok _ ↦
            elim (prepare (length t.records + 1) (event_digest_of sha256 intent.canonical_event)) [
              | err e ↦ answer (err e)
              | ok r ↦ record_decision id intent s (length t.records + 1) r
            ]
      ]
    ]
  ]

  -- One round of AttachSignature.
  unfoldable pub attach_decision :
      Option Text → SignatureAttachment → TenantState → Decision AcceptedRecord
  attach_decision id a s = elim (lookup a.receipt_id s.receipts) [
    | none ↦ answer (err Error.receipt_not_found)
    | some r ↦
        if r.channel != a.channel
        then answer (err Error.receipt_not_found)
        else if r.unsigned_receipt_preimage != a.unsigned_receipt_preimage
        then answer (err Error.signature_collision)
        else if not (is_empty r.signature)
        then answer (if r.signature != a.signature then err Error.signature_collision else ok r)
        else proposed (signature_command id a) (record r { signature = a.signature })
  ]
