-- ===== src/JetStream/Reducer.antt =====
-- internal/relay/jetstream/reducer.go: the fold of a tenant's log into its state.
use yukh_coordination.Base.{
  ℕ, ◌+◌, ◌-◌, Bool, true, false, not, ◌&&◌, ◌||◌, Option, none, some, [], ◌∷◌, ◌++◌, ltb, ◌==◌,
  ◌!=◌, nat_eq, text_eq, Text, Map, lookup, insert, Result, ok, err, ◌>>=◌, if◌then◌else◌, length,
  set,
}
use yukh_coordination.Relay.{
  Error, ChannelKey, channel_key_eq, Channel, AppendIntent, AcceptedRecord, validate_channel,
  event_digest_of, validate_prepared_record,
}
use yukh_coordination.Relay.Memory.{
  Transcript, ChannelIdentity, channel_identity_eq, identity_of, events_of, uri_differs,
}
use yukh_coordination.JetStream.{
  failure, Command, RecordPayload, Codec, channel_created, record_appended, preimage_digest,
  tenant_subject, decode_command, decode_bytes,
}

pub record TenantState : Type 0 where
  pub tenant_id : Text
  pub revision : ℕ
  pub transcripts : Map ChannelKey Transcript
  pub channel_uris : Map ChannelIdentity Text
  pub events : Map ChannelIdentity (Map Text AcceptedRecord)
  pub receipts : Map Text AcceptedRecord

abbrev pub new_tenant_state : Text → TenantState
new_tenant_state tenant_id = record {
  tenant_id = tenant_id;
  revision = 0;
  transcripts = [];
  channel_uris = [];
  events = [];
  receipts = [];
}

abbrev pub max_json_safe_integer : ℕ
max_json_safe_integer = 9_007_199_254_740_991

-- The index out of range, or the map entry that is nil: the code would panic.
abbrev pub panics : Error
panics = Error.external 1

abbrev pub key_of : TenantState → Text → Text → ChannelKey
key_of s channel_id epoch = record {
  tenant_id = s.tenant_id;
  channel_id = channel_id;
  transcript_epoch = epoch;
}

abbrev pub is_some {ℓ} : {A : Type ℓ} → Option A → Bool
is_some none = false
is_some (some a) = true

-- The loop over the transcripts: another channel of the tenant has the URI.
abbrev pub uri_taken : Text → Channel → Map ChannelKey Transcript → Bool
uri_taken tenant_id channel [] = false
uri_taken tenant_id channel ((key, t) ∷ rest) =
    (key.tenant_id == tenant_id
      && t.channel.uri == channel.uri
      && key.channel_id != channel.key.channel_id)
    || uri_taken tenant_id channel rest

-- The writes of applyChannel.
abbrev pub with_channel : TenantState → Channel → TenantState
with_channel s channel = record s {
  channel_uris = insert (identity_of channel.key) channel.uri s.channel_uris;
  events = insert (identity_of channel.key) (events_of (identity_of channel.key) s.events) s.events;
  transcripts = insert channel.key (record { channel = channel; records = [] }) s.transcripts;
}

-- applyChannel once the payload is decoded.
unfoldable pub add_channel : TenantState → Channel → Result Error TenantState
add_channel s channel = elim (validate_channel channel) [
  | err e ↦ err e
  | ok _ ↦
      if is_some (lookup channel.key s.transcripts)
      then err failure
      else if uri_differs (lookup (identity_of channel.key) s.channel_uris) channel.uri
          || uri_taken s.tenant_id channel s.transcripts
      then err Error.channel_conflict
      else ok (with_channel s channel)
]

-- The two indexes of records.
abbrev pub indexed : TenantState → AcceptedRecord → TenantState
indexed s r = record s {
  events =
      insert (identity_of r.channel)
        (insert r.event_id r (events_of (identity_of r.channel) s.events)) s.events;
  receipts = insert r.receipt_id r s.receipts;
}

-- The writes of applyRecord.
abbrev pub with_record : TenantState → Transcript → AcceptedRecord → TenantState
with_record s t r =
    indexed
      (record s {
        transcripts = insert r.channel (record t { records = t.records ++ r ∷ [] }) s.transcripts;
      })
      r

abbrev pub intent_of : AcceptedRecord → AppendIntent
intent_of r = record {
  channel = r.channel;
  event_id = r.event_id;
  canonical_event = r.canonical_event;
}

-- The writes of applySignature; the transcript and the index are those of the receipt's record.
abbrev pub with_signature : TenantState → Transcript → AcceptedRecord → TenantState
with_signature s t r =
    indexed
      (record s {
        transcripts =
            insert r.channel (record t { records = set t.records (r.sequence - 1) r })
              s.transcripts;
      })
      r

abbrev pub write_signature :
    TenantState → AcceptedRecord → Option Transcript → Result Error TenantState
write_signature s r none = err panics
write_signature s r (some t) =
    if r.sequence == 0 || ltb (length t.records) r.sequence
    then err panics
    else ok (with_signature s t r)

module _ (sha256 : Text → Text) where
  -- applyRecord once the payload is decoded.
  unfoldable pub add_record : TenantState → AcceptedRecord → Result Error TenantState
  add_record s r = elim (lookup r.channel s.transcripts) [
    | none ↦ err Error.channel_not_found
    | some t ↦
        elim (validate_prepared_record (intent_of r) (length t.records + 1)
          (event_digest_of sha256 r.canonical_event) r) [
            | err e ↦ err e
            | ok _ ↦
                if is_some (lookup r.event_id (events_of (identity_of r.channel) s.events))
                then err Error.event_id_collision
                else if is_some (lookup r.receipt_id s.receipts)
                then err failure
                else ok (with_record s t r)
          ]
  ]

  -- applySignature once the payload is decoded.
  unfoldable pub add_signature :
      TenantState → ChannelKey → Text → Text → Text → Result Error TenantState
  add_signature s key receipt_id digest signature = elim (lookup receipt_id s.receipts) [
    | none ↦ err Error.receipt_not_found
    | some r ↦
        if r.channel != key
        then err Error.receipt_not_found
        else if preimage_digest sha256 r.unsigned_receipt_preimage != digest
            || not (r.signature == [])
        then err Error.signature_collision
        else write_signature s (record r { signature = signature }) (lookup key s.transcripts)
  ]

module _ (sha256 : Text → Text) (codec : Codec) where
  unfoldable pub apply_channel : TenantState → Text → Result Error TenantState
  apply_channel s raw = elim (codec.decode_channel raw) [
    | none ↦ err failure
    | some p ↦ elim (decode_bytes codec p.canonical_metadata) [
      | err e ↦ err e
      | ok metadata ↦ add_channel s (record {
        key = key_of s p.channel_id p.transcript_epoch;
        uri = p.uri;
        canonical_metadata = metadata;
        metadata_digest = p.metadata_digest;
        lifecycle = p.lifecycle;
      })
    ]
  ]

  abbrev pub record_of :
      TenantState → RecordPayload → (event authn authz preimage : Text) → AcceptedRecord
  record_of s p event authn authz preimage = record {
    channel = key_of s p.channel_id p.transcript_epoch;
    sequence = p.sequence;
    event_id = p.event_id;
    canonical_event = event;
    event_digest = p.event_digest;
    authenticated_binding = authn;
    authorization_binding = authz;
    receipt_id = p.receipt_id;
    signing_key_id = p.signing_key_id;
    signature_algorithm = p.signature_algorithm;
    unsigned_receipt_preimage = preimage;
    signature = [];
  }

  abbrev pub decoded_record : TenantState → RecordPayload → Result Error AcceptedRecord
  decoded_record s p = decode_bytes codec p.canonical_event >>= λ event.
      decode_bytes codec p.authenticated_binding >>= λ authn.
      decode_bytes codec p.authorization_binding >>= λ authz.
      decode_bytes codec p.unsigned_receipt_preimage >>= λ preimage.
      ok (record_of s p event authn authz preimage)

  unfoldable pub apply_record : TenantState → Text → Result Error TenantState
  unfolding add_record
  apply_record s raw = elim (codec.decode_record raw) [
    | none ↦ err failure
    | some p ↦
        if p.sequence == 0 || ltb max_json_safe_integer p.sequence
        then err failure
        else decoded_record s p >>= add_record sha256 s
  ]

  unfoldable pub apply_signature : TenantState → Text → Result Error TenantState
  apply_signature s raw = elim (codec.decode_signature raw) [
    | none ↦ err failure
    | some p ↦ elim (decode_bytes codec p.signature) [
      | err e ↦ err failure
      | ok signature ↦
          if signature == []
          then err failure
          else add_signature sha256 s (key_of s p.channel_id p.transcript_epoch) p.receipt_id
              p.preimage_digest signature
    ]
  ]

  unfoldable pub apply_command : TenantState → Command → Result Error TenantState
  unfolding apply_channel apply_record apply_signature
  apply_command s c =
      if c.command_type == channel_created
      then apply_channel s c.payload
      else if c.command_type == record_appended
      then apply_record s c.payload
      else apply_signature s c.payload

  -- TenantSubject fails on no tenant that decodeCommand lets pass; its error would leave "".
  abbrev pub bound : TenantState → Text → ℕ → Command → Bool
  bound s subject revision c =
      elim (tenant_subject sha256 codec c.tenant_id) [ err _ ↦ [] == subject | ok t ↦ t == subject ]
      && c.tenant_id == s.tenant_id
      && ltb s.revision revision

  unfoldable pub apply : TenantState → Text → ℕ → Text → Result Error TenantState
  apply s subject revision raw = elim (decode_command codec raw) [
    | err e ↦ err e
    | ok c ↦ if not (bound s subject revision c) then err failure else elim (apply_command s c) [
      | err e ↦ err e
      | ok s' ↦ ok (record s' { revision = revision })
    ]
  ]
