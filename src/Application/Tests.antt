-- ===== src/Application/Tests.antt =====
-- Replay and Stream at work on a transcript with one signed record.
use yukh_coordination.Base.{
  ℕ, zero, suc, ◌≡◌, refl, subst, true, false, none, some, List, [], ◌∷◌, ◌++◌, Text, text, text_eq,
  ok, lookup, insert, get_elem?, ℕ_discrete, Text-discrete,
}
use yukh_coordination.Relay.{
  ChannelKey, Channel, AppendIntent, AcceptedRecord, ChannelKey-discrete, channel_key_eq,
  event_digest_of, validate_channel, validate_intent, validate_append_intent,
  validate_checked_append, validate_prepared_record, is_empty,
}
use yukh_coordination.Relay.Memory.{
  Transcript, Store, ChannelIdentity-discrete, new, create_channel, append_checked, lookup_channel,
  read,
}
use yukh_coordination.Relay.Memory.History.{Call, creates, appends, run, perform}
use yukh_coordination.Application.{
  ReplayRequest, Codec, resolve, signed_receipt, canonical_record, build_page,
}
use yukh_coordination.Application.Pages.{IsPage, build_page-IsPage, build_page-run_complete}
use yukh_coordination.Application.Stream.{
  StreamItem, Wake, Round, stream, stream_rounds, stream_records, stream_record,
}
use yukh_coordination.Application.Contiguous.{IsContiguous, stream-IsContiguous}

abbrev pub toy_hash : Text → Text
toy_hash t = 7 ∷ t

abbrev pub key : ChannelKey
key = record { tenant_id = text "t"; channel_id = text "c"; transcript_epoch = text "1" }

abbrev pub channel : Channel
channel = record {
  key = key;
  uri = text "u";
  canonical_metadata = text "m";
  metadata_digest = text "d";
  lifecycle = text "active";
}

abbrev pub intent : AppendIntent
intent = record { channel = key; event_id = text "a"; canonical_event = text "x" }

abbrev pub accepted : ℕ → Text → AcceptedRecord
accepted n digest = record {
  channel = key;
  sequence = n;
  event_id = text "a";
  canonical_event = text "x";
  event_digest = digest;
  authenticated_binding = text "b";
  authorization_binding = text "z";
  receipt_id = text "r";
  signing_key_id = text "k";
  signature_algorithm = text "s";
  unsigned_receipt_preimage = text "p";
  signature = text "g";
}

abbrev pub calls : List Call
calls =
    creates none channel
    ∷ appends none intent (some (λ view. ok tt)) (some (λ n digest. ok (accepted n digest)))
    ∷ []

abbrev pub stored : AcceptedRecord
unfolding event_digest_of
stored = accepted 1 (event_digest_of toy_hash (text "x"))

abbrev pub transcript : Transcript
transcript = record { channel = channel; records = stored ∷ [] }

abbrev store : Store
store = run toy_hash new calls

-- It knows one preimage and one channel.
abbrev pub codec : Codec
codec = record {
  parse_uint = λ t. some 1;
  validate_metadata = λ t. some (record {
    tenant_id = text "t";
    channel_id = text "c";
    channel_uri = text "u";
    acl_policy_version = text "v";
    acl_policy_digest = text "w";
    digest = text "d";
  });
  parse_preimage = λ t. some (record {
    event_id = some (text "a");
    event_digest = some stored.event_digest;
    tenant_id = some (text "t");
    channel_id = some (text "c");
    receipt_id = some (text "r");
    key_id = some (text "k");
    signature_algorithm = some (text "s");
    sequence = some 1;
    transcript_epoch = some 1;
  });
  transform = λ t. some t;
  encode_base64 = λ t. t;
  signed_json = λ t signature. some (t ++ signature);
  valid_receipt = λ t. true;
  record_json = λ event receipt. some (event ++ receipt);
  page_json = λ page. some [];
}

shows : canonical_record toy_hash codec stored ≡ ok (text "xpg")
unfolding canonical_record signed_receipt event_digest_of Text-discrete ℕ_discrete
shows = refl

pub found : lookup key store.transcripts ≡ some transcript
unfolding run perform create_channel append_checked validate_channel validate_intent
    validate_append_intent validate_checked_append validate_prepared_record event_digest_of lookup
    insert ChannelKey-discrete ChannelIdentity-discrete Text-discrete ℕ_discrete
found = refl

first_of : (r : AcceptedRecord) → get_elem? (stored ∷ []) 0 ≡ some r → stored ≡ r
first_of r h = cc

shown :
    (i : ℕ) (r : AcceptedRecord)
    → get_elem? (stored ∷ []) i ≡ some r
    → (is_empty r.signature ≡ false) × (x : Text) × (canonical_record toy_hash codec r ≡ ok x)
unfolding stored Text-discrete ℕ_discrete
shown zero r h =
    subst
      (λ x.
        (is_empty x.signature ≡ false) × (y : Text) × (canonical_record toy_hash codec x ≡ ok y))
      (first_of r h) (refl, text "xpg", shows)
shown (suc i) r h = absurd (cc)

build_page-IsPage_example :
    let page = build_page toy_hash codec channel 1 0 (stored ∷ []) in
    IsPage toy_hash codec 0 (stored ∷ []) page.records page.high_water_sequence page.boundary
build_page-IsPage_example = build_page-IsPage toy_hash codec channel 1 0 (stored ∷ [])

build_page-run_complete_example :
    (build_page toy_hash codec channel 1 0 (stored ∷ [])).boundary ≡ none
build_page-run_complete_example =
    build_page-run_complete toy_hash codec calls key transcript channel 1 0 5 found shown

abbrev pub request : ReplayRequest
request = record {
  admitted = record {
    identity = record {
      tenant_id = text "t";
      principal_id = text "p";
      participant_instance_id = text "i";
      session_epoch = 1;
    };
    channel = key;
    authorization_binding = text "z";
    acl_policy_version = text "v";
    acl_policy_digest = text "w";
    acl_decision_receipt_id = text "q";
  };
  after = 0;
  limit = 5;
}

abbrev rounds : List Round
rounds =
    record { context = none; store = store; wake = Wake.notified }
    ∷ record { context = none; store = store; wake = Wake.cancelled }
    ∷ []

abbrev sent : List StreamItem
sent = stream_record 1 (text "xpg") ∷ []

streams : stream toy_hash codec none store request (ok tt) rounds 9 ≡ ok sent
unfolding stream stream_rounds stream_records resolve lookup_channel read canonical_record
    signed_receipt run perform create_channel append_checked validate_channel validate_intent
    validate_append_intent validate_checked_append validate_prepared_record event_digest_of lookup
    insert ChannelKey-discrete ChannelIdentity-discrete Text-discrete ℕ_discrete
streams = refl

stream-IsContiguous_example : IsContiguous 0 sent
stream-IsContiguous_example =
    stream-IsContiguous toy_hash codec none store request (ok tt) rounds 9 sent streams
