-- ===== src/Relay/Tests.antt =====
-- The relay store in memory at work on a small transcript.
use yukh_coordination.Base.{
  false, Result, Option, ℕ, ◌-◌, ◌≡◌, refl, none, some, List, [], ◌∷◌, arith, text, Text,
  ℕ_discrete, Text-discrete, lookup, insert, ok, err, if◌then◌else◌, ◌!=◌, ◌||◌, text_eq,
}
use yukh_coordination.Relay.{
  is_empty, Error, ChannelKey, channel_key_eq, ChannelKey-discrete, Channel, AppendIntent,
  AcceptedRecord, SignatureAttachment, PrepareRecord, Admit, AppendOutcome, validate_channel,
  same_channel, validate_intent, validate_append_intent, validate_checked_append,
  validate_prepared_record, event_digest_of, validate_signature_attachment,
}
use yukh_coordination.Relay.AppendService.{
  SigningSelection, ensure_signed, append_signed, append_signed-signature,
}
use yukh_coordination.Relay.Memory.{
  Transcript, ChannelIdentity-discrete, Store, new, create_channel, append_checked,
  attach_signature, read, lookup_event,
}
use yukh_coordination.Relay.Memory.History.{Call, creates, appends, perform, run}
use yukh_coordination.Relay.Memory.Invariant.{Placed, run-records-Placed}
use yukh_coordination.Relay.Memory.Retries.{append_checked-again}
use yukh_coordination.Relay.Memory.Reads.{append_checked-read}
use yukh_coordination.Relay.Memory.Signatures.{attach_signature-again}

abbrev key : ChannelKey
key = record { tenant_id = text "t"; channel_id = text "c"; transcript_epoch = text "1" }

abbrev channel : Channel
channel = record {
  key = key;
  uri = text "u";
  canonical_metadata = text "m";
  metadata_digest = text "d";
  lifecycle = text "active";
}

-- A stand-in for the digest.
abbrev toy_hash : Text → Text
toy_hash t = 7 ∷ t

abbrev intent_b : AppendIntent
intent_b = record { channel = key; event_id = text "b"; canonical_event = text "y" }

abbrev intent_a : AppendIntent
intent_a = record { channel = key; event_id = text "a"; canonical_event = text "x" }

abbrev record_of : AppendIntent → Text → ℕ → Text → AcceptedRecord
record_of intent signature n digest = record {
  channel = intent.channel;
  sequence = n;
  event_id = intent.event_id;
  canonical_event = intent.canonical_event;
  event_digest = digest;
  authenticated_binding = text "n";
  authorization_binding = text "z";
  receipt_id = intent.event_id;
  signing_key_id = text "k";
  signature_algorithm = text "e";
  unsigned_receipt_preimage = text "p";
  signature = signature;
}

abbrev prepare : AppendIntent → PrepareRecord
prepare intent n digest = ok (record_of intent [] n digest)

abbrev admit : Admit
admit view = ok tt

abbrev calls : List (Call)
calls = creates none channel ∷ appends none intent_a (some admit) (some (prepare intent_a)) ∷ []

abbrev record_a : AcceptedRecord
record_a = record_of intent_a [] 1 (event_digest_of toy_hash (text "x"))

abbrev opened : Store
opened = (create_channel none new channel).0

abbrev one : Store
one = (append_checked toy_hash none opened intent_a (some admit) (some (prepare intent_a))).0

abbrev transcript : Transcript
transcript = record { channel = channel; records = record_a ∷ [] }

found_a : lookup key (run toy_hash new calls).transcripts ≡ some transcript
unfolding create_channel validate_channel append_checked validate_checked_append
    validate_append_intent validate_intent validate_prepared_record event_digest_of same_channel
    lookup insert ℕ_discrete Text-discrete ChannelKey-discrete ChannelIdentity-discrete run perform
found_a = refl

run-records-Placed_example : Placed toy_hash ((run toy_hash new calls).events) key 0 record_a
run-records-Placed_example =
    run-records-Placed toy_hash calls key transcript 0 record_a found_a refl

appended_a :
    append_checked toy_hash none opened intent_a (some admit) (some (prepare intent_a))
    ≡ (one, ok (AppendOutcome.appended, record_a))
unfolding create_channel validate_channel append_checked validate_checked_append
    validate_append_intent validate_intent validate_prepared_record event_digest_of same_channel
    lookup insert ℕ_discrete Text-discrete ChannelKey-discrete ChannelIdentity-discrete
appended_a = refl

abbrev refuse : Admit
refuse view = err Error.transition_conflict

abbrev clash : AppendIntent
clash = record { channel = key; event_id = text "a"; canonical_event = text "y" }

one_has : lookup key one.transcripts ≡ some transcript
unfolding create_channel validate_channel append_checked validate_checked_append
    validate_append_intent validate_intent validate_prepared_record event_digest_of same_channel
    lookup insert ℕ_discrete Text-discrete ChannelKey-discrete ChannelIdentity-discrete
one_has = refl

clash_valid : validate_intent clash ≡ ok tt
unfolding validate_intent Text-discrete ℕ_discrete
clash_valid = refl

append_checked-again_example :
    append_checked toy_hash none one clash (some refuse) (some (prepare clash)) ≡ (
      one,
      if intent_a.channel != clash.channel || intent_a.canonical_event != clash.canonical_event
          then err Error.event_id_collision
          else ok (AppendOutcome.duplicate, record_a),
    )
append_checked-again_example =
    append_checked-again toy_hash none opened one intent_a (some admit) (some (prepare intent_a))
      AppendOutcome.appended record_a clash transcript refuse (prepare clash) appended_a refl refl
      clash_valid one_has

append_checked-read_example :
    (read none one key (record_a.sequence - 1) 50 ≡ ok (record_a ∷ []))
    × (lookup_event none one key (text "a") ≡ ok record_a)
append_checked-read_example =
    append_checked-read toy_hash none opened one intent_a (some admit) (some (prepare intent_a))
      record_a 50 appended_a (omega arith) (omega arith)

abbrev record_b : AcceptedRecord
record_b = record_of intent_b [] 2 (event_digest_of toy_hash (text "y"))

abbrev two : Store
two = (append_checked toy_hash none one intent_b (some admit) (some (prepare intent_b))).0

abbrev attachment : Text → SignatureAttachment
attachment signature = record {
  channel = key;
  receipt_id = text "b";
  unsigned_receipt_preimage = text "p";
  signature = signature;
}

abbrev signed_two : Store
signed_two = (attach_signature none two (attachment (text "s"))).0

abbrev signed_b : AcceptedRecord
signed_b = record_of intent_b (text "s") 2 (event_digest_of toy_hash (text "y"))

signs : attach_signature none two (attachment (text "s")) ≡ (signed_two, ok signed_b)
unfolding create_channel validate_channel append_checked validate_checked_append
    validate_append_intent validate_intent validate_prepared_record event_digest_of same_channel
    lookup insert ℕ_discrete Text-discrete ChannelKey-discrete ChannelIdentity-discrete
    attach_signature validate_signature_attachment
signs = refl

other_valid : validate_signature_attachment (attachment (text "r")) ≡ ok tt
unfolding validate_signature_attachment ℕ_discrete Text-discrete
other_valid = refl

attach_signature-again_example : attach_signature none signed_two (attachment (text "r")) ≡ (
  signed_two,
  if text "p" != text "p" || text "s" != text "r"
      then err Error.signature_collision
      else ok signed_b,
)
attach_signature-again_example =
    attach_signature-again none two signed_two (attachment (text "s")) signed_b
      (attachment (text "r")) signs refl refl other_valid

abbrev selected : Result Error SigningSelection
selected = ok (record { key_id = text "k"; algorithm = text "e" })

abbrev toy_sign : AcceptedRecord → Option Text
toy_sign r = some (text "s")

abbrev signed_a : AcceptedRecord
signed_a = record_of intent_a (text "s") 1 (event_digest_of toy_hash (text "x"))

abbrev served : Store
served =
    (append_signed toy_hash selected toy_sign (λ n x. x) (λ n. none) opened intent_a (some admit)
      (some (λ n d selection. prepare intent_a n d))).0

serves :
    append_signed toy_hash selected toy_sign
      (λ n x. x)
      (λ n. none)
      opened
      intent_a
      (some admit)
      (some (λ n d selection. prepare intent_a n d))
    ≡ (served, ok (AppendOutcome.appended, signed_a))
unfolding create_channel validate_channel append_checked validate_checked_append
    validate_append_intent validate_intent validate_prepared_record event_digest_of same_channel
    lookup insert ℕ_discrete Text-discrete ChannelKey-discrete ChannelIdentity-discrete
    append_signed ensure_signed lookup_event attach_signature validate_signature_attachment
serves = refl

append_signed-signature_example : is_empty signed_a.signature ≡ false
append_signed-signature_example =
    append_signed-signature toy_hash selected toy_sign (λ n x. x) (λ n. none) opened served intent_a
      (some admit) (some (λ n d selection. prepare intent_a n d)) AppendOutcome.appended signed_a
      serves
