-- ===== src/JetStream/Tests.antt =====
-- The JetStream adapter at work: one channel with one record.
use yukh_coordination.Base.{
  ℕ, ◌≡◌, ◌≢◌, refl, Option, none, some, [], ◌∷◌, ◌++◌, Text, text, replicate, arith, ℕ_discrete,
  Text-discrete, ok, lookup, insert, ◌==◌, nat_eq,
}
use yukh_coordination.Relay.{
  ChannelKey, Channel, AppendIntent, AcceptedRecord, AppendOutcome, validate_channel,
  validate_intent, validate_prepared_record, event_digest_of, ChannelKey-discrete,
}
use yukh_coordination.Relay.Memory.{ChannelIdentity-discrete}
use yukh_coordination.JetStream.{
  channel_created, record_appended, tenant_subject, tenant_token, new_command, decode_command,
  decode_bytes,
}
use yukh_coordination.JetStream.Packing.{pack, packing, packing-IsCodec, anything}
use yukh_coordination.JetStream.Commands.{channel_texts, record_texts}
use yukh_coordination.JetStream.Operations.{
  publish, channel_payload, record_payload, create_decision, append_decision, record_decision,
  Decision,
}
use yukh_coordination.JetStream.Reducer.{
  TenantState, new_tenant_state, with_channel, add_channel, apply_channel, apply_command, apply,
}
use yukh_coordination.JetStream.Signatures.{IsSound}
use yukh_coordination.JetStream.Store.{Log, Round, replay, lookup_event}
use yukh_coordination.JetStream.Histories.{Reaches, IsTaken, IsReduced}
use yukh_coordination.JetStream.Reduces.{Reaches-IsReduced}
use yukh_coordination.JetStream.Visible.{lookup_event-append_decision}

abbrev toy_hash : Text → Text
toy_hash t = replicate 4 171

abbrev tenant : Text
tenant = text "t"

abbrev subject : Text
subject = text "yukh.coordination.v1.tenant." ++ (replicate 4 171 ++ text ".log")

named : tenant_subject toy_hash packing tenant ≡ ok subject
unfolding tenant_subject tenant_token Text-discrete ℕ_discrete
named = refl

abbrev key : ChannelKey
key = record { tenant_id = tenant; channel_id = text "c"; transcript_epoch = text "e" }

abbrev channel : Channel
channel = record {
  key = key;
  uri = text "u";
  canonical_metadata = text "m";
  metadata_digest = text "d";
  lifecycle = text "active";
}

abbrev intent : AppendIntent
intent = record { channel = key; event_id = text "a"; canonical_event = text "x" }

abbrev accepted : AcceptedRecord
unfolding event_digest_of
accepted = record {
  channel = key;
  sequence = 1;
  event_id = text "a";
  canonical_event = text "x";
  event_digest = event_digest_of toy_hash (text "x");
  authenticated_binding = text "b";
  authorization_binding = text "z";
  receipt_id = text "r";
  signing_key_id = text "k";
  signature_algorithm = text "s";
  unsigned_receipt_preimage = text "p";
  signature = [];
}

abbrev packed_command : Text → Text → Text → Text
packed_command id kind payload = pack (id ∷ kind ∷ text "1" ∷ payload ∷ tenant ∷ [])

abbrev channel_raw : Text
channel_raw =
    packed_command (text "1") channel_created
      (pack (channel_texts (channel_payload packing channel)))

abbrev first : Log
first = (5, channel_raw) ∷ []

abbrev created : TenantState
created = record (with_channel (new_tenant_state tenant) channel) { revision = 5 }

creates :
    create_decision packing (some (text "1")) channel (new_tenant_state tenant)
    ≡ publish channel_raw tt
unfolding create_decision new_command lookup ChannelKey-discrete ChannelIdentity-discrete
    Text-discrete ℕ_discrete
creates = refl

channel_valid : validate_channel channel ≡ ok tt
unfolding validate_channel Text-discrete ℕ_discrete
channel_valid = refl

first-IsTaken :
    IsTaken toy_hash anything packing tenant subject [] [] [] (new_tenant_state tenant) 5 (text "1")
unfolding replay
first-IsTaken = record {
  prefix = refl;
  reduced = refl;
  expected = refl;
  newer = omega arith;
  version = record { version = refl; utf8 = refl };
}

first-Reaches : Reaches toy_hash anything packing tenant subject first
first-Reaches = Reaches.channel channel Reaches.start first-IsTaken refl channel_valid refl creates

abbrev record_raw : Text
unfolding event_digest_of
record_raw =
    packed_command (text "2") record_appended
      (1 ∷ pack (record_texts (record_payload packing accepted)))

appends :
    append_decision toy_hash packing
      (some (text "2"))
      intent
      (λ view. ok tt)
      (λ n digest. ok accepted)
      created
    ≡ publish record_raw (AppendOutcome.appended, accepted)
unfolding append_decision record_decision validate_prepared_record event_digest_of new_command
    lookup insert ChannelKey-discrete ChannelIdentity-discrete Text-discrete ℕ_discrete
appends = refl

first_reduces : replay toy_hash packing (new_tenant_state tenant) subject first ≡ ok created
unfolding replay apply apply_command apply_channel add_channel decode_command decode_bytes
    tenant_subject tenant_token validate_channel lookup insert ChannelKey-discrete
    ChannelIdentity-discrete Text-discrete ℕ_discrete
first_reduces = refl

second-IsTaken :
    IsTaken toy_hash anything packing tenant subject first first [] created 9 (text "2")
second-IsTaken = record {
  prefix = refl;
  reduced = first_reduces;
  expected = refl;
  newer = omega arith;
  version = record { version = refl; utf8 = refl };
}

abbrev second : Log
second = (5, channel_raw) ∷ (9, record_raw) ∷ []

second-Reaches : Reaches toy_hash anything packing tenant subject second
second-Reaches =
    Reaches.record_ intent (λ view. ok tt) (λ n digest. ok accepted)
      (AppendOutcome.appended, accepted) first-Reaches second-IsTaken refl refl appends

tenant_filled : tenant ≢ []
tenant_filled e = absurd (ground (arith, e))

Reaches-IsReduced_example :
    (s : TenantState) × IsReduced toy_hash anything packing tenant subject second s
Reaches-IsReduced_example =
    Reaches-IsReduced toy_hash anything packing tenant subject packing-IsCodec tenant_filled named
      second second-Reaches

created-IsSound : IsSound created
unfolding lookup
created-IsSound id r h = absurd (ground (arith, h))

created-IsReduced : IsReduced toy_hash anything packing tenant subject first created
created-IsReduced = record {
  reduces = first_reduces;
  owner = refl;
  head = refl;
  sound = created-IsSound;
}

intent_valid : validate_intent intent ≡ ok tt
unfolding validate_intent Text-discrete ℕ_discrete
intent_valid = refl

lookup_event-append_decision_example :
    lookup_event none
      (replay toy_hash packing (new_tenant_state tenant) subject second)
      key
      (text "a")
    ≡ ok accepted
lookup_event-append_decision_example =
    lookup_event-append_decision toy_hash anything packing tenant subject packing-IsCodec
      tenant_filled named first created intent (λ view. ok tt) (λ n digest. ok accepted) (text "2")
      record_raw 9 (AppendOutcome.appended, accepted) created-IsReduced intent_valid refl
      (record { version = refl; utf8 = refl }) refl (omega arith) appends

-- Every round loads the empty state; the publish is acknowledged in the third round, and no context
-- ends.
abbrev rounds : ℕ → Round
rounds n = record {
  loaded = ok (new_tenant_state tenant);
  command_id = some (text "1");
  acknowledged = n == 61;
  cancelled = none;
}

abbrev creating : Option Text → TenantState → Decision (Unit {0})
creating id s = create_decision packing id channel s
