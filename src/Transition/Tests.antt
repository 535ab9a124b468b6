-- ===== src/Transition/Tests.antt =====
-- Validate at work on a transcript of one claim.
use yukh_coordination.Base.{
  ℕ, ◌≤◌, ◌≡◌, refl, Option, none, some, List, [], ◌∷◌, arith, text, Text, ℕ_discrete,
  Text-discrete, lookup, insert, Result, ok, if◌then◌else◌, ◌==◌, text_eq,
}
use yukh_coordination.Relay.{
  ChannelKey, ChannelKey-discrete, channel_key_eq, Channel, AppendIntent, AcceptedRecord,
  validate_channel, same_channel, validate_intent, validate_append_intent, validate_checked_append,
  validate_prepared_record, event_digest_of,
}
use yukh_coordination.Relay.Memory.{
  Transcript, ChannelIdentity-discrete, new, create_channel, append_checked, admission_view,
  view_read,
}
use yukh_coordination.Relay.Memory.History.{Call, creates, appends, perform, run}
use yukh_coordination.Transition.{
  Kind, Descriptor, TransitionEvent, TranscriptState, Failure, empty_state, check_causation,
  active_claims,
}
use yukh_coordination.Transition.Validate.{
  apply_kind, apply, replay, replay_all, read_pages, judge, validate,
}
use yukh_coordination.Transition.Replay.{validate-transcript}
use yukh_coordination.Transition.Limits.{validate-IsBounded}

abbrev toy_hash : Text → Text
toy_hash t = 7 ∷ t

abbrev toy_evidence : List Descriptor → Text
toy_evidence ds = []

abbrev toy_boundary : Text → Text → Text → Text → Text → Text → Text
toy_boundary a b c d e f = a

abbrev claim_event : Text → Text → TransitionEvent
claim_event id claim_id = record {
  id = id;
  kind = Kind.claim;
  channel = text "c";
  correlation = text "r";
  causation = [];
  work = text "w";
  fields = (text "claim_id", claim_id) ∷ (text "generation", text "1") ∷ [];
  unresolved_risks = [];
  evidence = [];
}

abbrev parse : Text → Option TransitionEvent
parse raw =
    if raw == text "x"
    then some (claim_event (text "a") (text "one"))
    else if raw == text "y"
    then some (claim_event (text "b") (text "two"))
    else none

abbrev participant_of : Text → Text
participant_of preimage = preimage

abbrev key : ChannelKey
key = record { tenant_id = text "t"; channel_id = text "c"; transcript_epoch = text "1" }

abbrev channel : Channel
channel = record {
  key = key;
  uri = text "u";
  canonical_metadata = text "m";
  metadata_digest = text "d";
  lifecycle = text "active";
}

abbrev intent : AppendIntent
intent = record { channel = key; event_id = text "a"; canonical_event = text "x" }

abbrev accepted_at : ℕ → Text → AcceptedRecord
accepted_at n digest = record {
  channel = key;
  sequence = n;
  event_id = text "a";
  canonical_event = text "x";
  event_digest = digest;
  authenticated_binding = text "n";
  authorization_binding = text "z";
  receipt_id = text "i";
  signing_key_id = text "k";
  signature_algorithm = text "e";
  unsigned_receipt_preimage = text "p";
  signature = [];
}

abbrev calls : List Call
calls =
    creates none channel
    ∷ appends none intent (some (λ _. ok tt)) (some (λ n d. ok (accepted_at n d)))
    ∷ []

abbrev transcript : Transcript
transcript = record {
  channel = channel;
  records = accepted_at 1 (event_digest_of toy_hash (text "x")) ∷ [];
}

has_transcript : lookup key (run toy_hash new calls).transcripts ≡ some transcript
unfolding create_channel validate_channel append_checked validate_checked_append
    validate_append_intent validate_intent validate_prepared_record event_digest_of same_channel
    lookup insert ℕ_discrete Text-discrete ChannelKey-discrete ChannelIdentity-discrete run perform
has_transcript = refl

validate-transcript_example :
    validate toy_hash toy_evidence toy_boundary parse participant_of 1
      (some (admission_view (run toy_hash new calls) key transcript))
      (text "y")
      (text "p")
    ≡ some (
        judge toy_hash toy_evidence toy_boundary parse participant_of
          (replay_all toy_hash toy_evidence toy_boundary parse participant_of empty_state
            transcript.records)
          (text "y")
          (text "p"))
unfolding Text-discrete ℕ_discrete
validate-transcript_example =
    validate-transcript toy_hash toy_evidence toy_boundary parse participant_of calls key transcript
      1 (text "y") (text "p") has_transcript (omega arith) refl

-- The state after both claims.
abbrev outcome : Option (Result Failure TranscriptState) → TranscriptState
outcome (some (ok s)) = s
outcome _ = empty_state

abbrev judged : TranscriptState
judged = outcome (
    validate toy_hash toy_evidence toy_boundary parse participant_of 1
      (some (admission_view new key transcript)) (text "y") (text "p"))

accepts :
    validate toy_hash toy_evidence toy_boundary parse participant_of 1
      (some (admission_view new key transcript))
      (text "y")
      (text "p")
    ≡ some (ok judged)
unfolding validate read_pages view_read replay_all replay apply apply_kind check_causation
    active_claims event_digest_of lookup insert ℕ_discrete Text-discrete
accepts = refl

two_active : active_claims judged.claims (text "w") ≡ 2
unfolding validate read_pages view_read replay_all replay apply apply_kind check_causation
    active_claims event_digest_of lookup insert ℕ_discrete Text-discrete
two_active = refl

validate-IsBounded_example : active_claims judged.claims (text "w") ≤ 32
validate-IsBounded_example =
    validate-IsBounded toy_hash toy_evidence toy_boundary parse participant_of 1
      (admission_view new key transcript) (text "y") (text "p") judged accepts (text "w")
