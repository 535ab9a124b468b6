-- ===== src/Relay/Memory.antt =====
-- internal/relay/memory/store.go: the relay store in memory. A method is one step under the lock; a
-- context is the error that it reports, if any. The two indexes hold equal copies of a record.
pub mod Cases
pub mod History
mod Writes
pub mod Invariant
pub mod Retries
pub mod Admission
pub mod Reads
pub mod Windows
pub mod Signatures
use yukh_coordination.Base.{
  ℕ, zero, suc, ◌+◌, ◌-◌, Bool, true, false, not, ◌&&◌, ◌||◌, Option, none, some, List, [], ◌∷◌,
  ◌++◌, ltb, ◌==◌, ◌!=◌, Eq, nat_eq, text_eq, Text, ℕ_discrete, Map, lookup, insert, Result, ok,
  err, if◌then◌else◌, length, take, drop, set, min,
}
use yukh_coordination.Relay.{
  Error, ChannelKey, channel_key_eq, Channel, AppendIntent, AcceptedRecord, SignatureAttachment,
  PrepareRecord, AdmissionView, Admit, AppendOutcome, AppendResult, is_empty, is_blank_key,
  validate_channel, same_channel, validate_checked_append, event_digest_of,
  validate_prepared_record, validate_signature_attachment,
}

pub record Transcript : Type 0 where
  pub channel : Channel
  pub records : List AcceptedRecord

pub record ChannelIdentity : Type 0 where
  pub tenant_id : Text
  pub channel_id : Text

unfoldable pub ChannelIdentity-discrete : Discrete ChannelIdentity
unfolding ℕ_discrete
ChannelIdentity-discrete = hlevel ℕ_discrete

instance abbrev pub channel_identity_eq : Eq ChannelIdentity
channel_identity_eq = record { dec = ChannelIdentity-discrete }

pub record Store : Type 0 where
  pub transcripts : Map ChannelKey Transcript
  pub channel_uris : Map ChannelIdentity Text
  pub events : Map ChannelIdentity (Map Text AcceptedRecord)

abbrev pub new : Store
new = record { transcripts = []; channel_uris = []; events = [] }

abbrev pub identity_of : ChannelKey → ChannelIdentity
identity_of key = record { tenant_id = key.tenant_id; channel_id = key.channel_id }

-- `events[identity]`, nil where it was never written.
abbrev pub events_of :
    ChannelIdentity → Map ChannelIdentity (Map Text AcceptedRecord) → Map Text AcceptedRecord
events_of identity m = elim (lookup identity m) [ none ↦ [] | some es ↦ es ]

abbrev pub find_event : ChannelKey → Text → Store → Option AcceptedRecord
find_event key id s = lookup id (events_of (identity_of key) s.events)

-- The URI that the channel already has is another one.
abbrev pub uri_differs : Option Text → Text → Bool
uri_differs none uri = false
uri_differs (some u) uri = u != uri

-- CreateChannel, once its checks have passed.
abbrev pub created : Store → Channel → Store
created s channel = record {
  channel_uris = insert (identity_of channel.key) channel.uri s.channel_uris;
  events = insert (identity_of channel.key) (events_of (identity_of channel.key) s.events) s.events;
  transcripts = insert channel.key (record { channel = channel; records = [] }) s.transcripts;
}

unfoldable pub create_channel : Option Error → Store → Channel → Store × Result Error (Unit {0})
create_channel (some e) s channel = (s, err e)
create_channel none s channel = elim (validate_channel channel) [
  | err e ↦ (s, err e)
  | ok _ ↦
      if uri_differs (lookup (identity_of channel.key) s.channel_uris) channel.uri
      then (s, err Error.channel_conflict)
      else elim (lookup channel.key s.transcripts) [
        | some t ↦ (s, if same_channel t.channel channel then ok tt else err Error.channel_conflict)
        | none ↦ (created s channel, ok tt)
      ]
]

unfoldable pub lookup_channel : Option Error → Store → ChannelKey → Result Error Channel
lookup_channel (some e) s key = err e
lookup_channel none s key =
    if is_blank_key key then err Error.invalid_argument else elim (lookup key s.transcripts) [
      | none ↦ err Error.channel_not_found
      | some t ↦ ok t.channel
    ]

-- `records[start:end]` of Read; a start past the end reads nothing.
abbrev pub window : List AcceptedRecord → ℕ → ℕ → List AcceptedRecord
window records after limit =
    let start = if ltb after (length records) then after else length records in
    take (min (start + limit) (length records) - start) (drop start records)

unfoldable pub view_lookup : Store → ChannelKey → Text → Result Error AcceptedRecord
view_lookup s key id = elim (find_event key id s) [
  | none ↦ err Error.event_not_found
  | some r ↦ if r.channel != key then err Error.event_not_found else ok r
]

-- The view of a transcript that AppendChecked has found.
unfoldable pub view_read : Transcript → ℕ → ℕ → Result Error (List AcceptedRecord)
view_read t after limit =
    if ltb limit 1 || ltb 1000 limit
    then err Error.invalid_argument
    else ok (window t.records after limit)

abbrev pub admission_view : Store → ChannelKey → Transcript → AdmissionView
admission_view s key t = record { lookup_event = view_lookup s key; read_after = view_read t }

-- The write of AppendChecked.
abbrev pub committed : Store → ChannelKey → Transcript → AcceptedRecord → Store
committed s key t r = record s {
  transcripts = insert key (record t { records = t.records ++ r ∷ [] }) s.transcripts;
  events =
      insert (identity_of key) (insert r.event_id r (events_of (identity_of key) s.events))
        s.events;
}

module _ (sha256 : Text → Text) where
  -- AppendChecked from the call of `prepare` on, with the admission passed.
  abbrev pub append_prepared :
      Store → AppendIntent → PrepareRecord → Transcript → Store × Result Error AppendResult
  append_prepared s intent prepare t =
      let digest = event_digest_of sha256 intent.canonical_event in
      let sequence = length t.records + 1 in
      elim (prepare sequence digest) [
        | err e ↦ (s, err e)
        | ok r ↦ elim (validate_prepared_record intent sequence digest r) [
          | err e ↦ (s, err e)
          | ok _ ↦ (committed s intent.channel t r, ok (AppendOutcome.appended, r))
        ]
      ]

  abbrev pub append_in :
      Store → AppendIntent → Admit → PrepareRecord → Transcript → Store × Result Error AppendResult
  append_in s intent admit prepare t = elim (find_event intent.channel intent.event_id s) [
    | some r ↦
        if r.channel != intent.channel || r.canonical_event != intent.canonical_event
        then (s, err Error.event_id_collision)
        else (s, ok (AppendOutcome.duplicate, r))
    | none ↦ elim (admit (admission_view s intent.channel t)) [
      | err e ↦ (s, err e)
      | ok _ ↦ append_prepared s intent prepare t
    ]
  ]

  unfoldable pub append_checked :
      Option Error
      → Store
      → AppendIntent
      → Option Admit
      → Option PrepareRecord
      → Store × Result Error AppendResult
  append_checked (some e) s intent admit prepare = (s, err e)
  append_checked none s intent admit prepare = elim (validate_checked_append intent admit prepare) [
    | err e ↦ (s, err e)
    | ok (a, p) ↦ elim (lookup intent.channel s.transcripts) [
      | none ↦ (s, err Error.channel_not_found)
      | some t ↦ append_in s intent a p t
    ]
  ]

  unfoldable pub append :
      Option Error → Store → AppendIntent → Option PrepareRecord → Store × Result Error AppendResult
  unfolding append_checked
  append ctx s intent prepare = append_checked ctx s intent (some (λ _. ok tt)) prepare

unfoldable pub lookup_event : Option Error → Store → ChannelKey → Text → Result Error AcceptedRecord
lookup_event (some e) s key id = err e
lookup_event none s key id =
    if is_blank_key key || is_empty id
    then err Error.invalid_argument
    else elim (lookup key s.transcripts) [
      | none ↦ err Error.channel_not_found
      | some _ ↦ elim (find_event key id s) [ none ↦ err Error.event_not_found | some r ↦ ok r ]
    ]

unfoldable pub read : Option Error → Store → ChannelKey → ℕ → ℕ → Result Error (List AcceptedRecord)
read (some e) s key after limit = err e
read none s key after limit =
    if ltb limit 1 || ltb 1000 limit
    then err Error.invalid_argument
    else elim (lookup key s.transcripts) [
      | none ↦ err Error.channel_not_found
      | some t ↦ ok (window t.records after limit)
    ]

-- The first record with the receipt, and its index.
abbrev pub find_receipt : Text → List AcceptedRecord → Option (ℕ × AcceptedRecord)
find_receipt id [] = none
find_receipt id (r ∷ rs) =
    if r.receipt_id == id
    then some (0, r)
    else elim (find_receipt id rs) [ none ↦ none | some (i, x) ↦ some (suc i, x) ]

-- The write of AttachSignature.
abbrev pub signed : Store → ChannelKey → Transcript → ℕ → AcceptedRecord → Store
signed s key t i r = record s {
  transcripts = insert key (record t { records = set t.records i r }) s.transcripts;
  events =
      insert (identity_of key) (insert r.event_id r (events_of (identity_of key) s.events))
        s.events;
}

abbrev pub attach_to :
    Store
    → SignatureAttachment
    → Transcript
    → ℕ
    → AcceptedRecord
    → Store × Result Error AcceptedRecord
attach_to s a t i r =
    if r.unsigned_receipt_preimage != a.unsigned_receipt_preimage
    then (s, err Error.signature_collision)
    else if not (is_empty r.signature)
    then (s, if r.signature != a.signature then err Error.signature_collision else ok r)
    else (
      signed s a.channel t i (record r { signature = a.signature }),
      ok (record r { signature = a.signature }),
    )

unfoldable pub attach_signature :
    Option Error → Store → SignatureAttachment → Store × Result Error AcceptedRecord
attach_signature (some e) s a = (s, err e)
attach_signature none s a = elim (validate_signature_attachment a) [
  | err e ↦ (s, err e)
  | ok _ ↦ elim (lookup a.channel s.transcripts) [
    | none ↦ (s, err Error.receipt_not_found)
    | some t ↦ elim (find_receipt a.receipt_id t.records) [
      | none ↦ (s, err Error.receipt_not_found)
      | some (i, r) ↦ attach_to s a t i r
    ]
  ]
]
