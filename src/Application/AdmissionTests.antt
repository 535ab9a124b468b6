-- ===== src/Application/AdmissionTests.antt =====
-- Append at work on a transcript of one claim.
use yukh_coordination.Base.{
  ℕ, zero, suc, ◌++◌, take, drop, nat_eq, true, false, ◌<◌, ◌*◌, ◌≡◌, refl, ap, Option, none, some,
  List, [], ◌∷◌, arith, text, Text, ℕ_discrete, Text-discrete, lookup, insert, length, ok,
  if◌then◌else◌, ◌==◌, text_eq,
}
use yukh_coordination.Time
use yukh_coordination.Relay.{
  ChannelKey-discrete, channel_key_eq, validate_channel, validate_intent, validate_append_intent,
  validate_checked_append, validate_prepared_record, event_digest_of, validate_signature_attachment,
}
use yukh_coordination.Relay.Memory.{
  Transcript, ChannelIdentity-discrete, new, create_channel, append_checked, lookup_channel,
  lookup_event, attach_signature, view_read,
}
use yukh_coordination.Relay.Memory.History.{Call, perform, run}
use yukh_coordination.Relay.AppendService.{ensure_signed, append_signed}
use yukh_coordination.Transition.{
  Kind, Descriptor, TransitionEvent, TranscriptState, empty_state, check_causation, active_claims,
}
use yukh_coordination.Transition.Validate.{
  apply_kind, apply, replay, replay_all, read_pages, judge, validate,
}
use yukh_coordination.Application.{resolve}
use yukh_coordination.Application.Append.{Event, Writer, append}
use yukh_coordination.Application.Live
use yukh_coordination.Application.Signals.{run-notify}
use yukh_coordination.Application.Admission.{append-judge}
use yukh_coordination.Application.Tests.{toy_hash, key, calls, transcript, found, codec, request}

abbrev toy_evidence : List Descriptor → Text
toy_evidence ds = []

abbrev toy_boundary : Text → Text → Text → Text → Text → Text → Text
toy_boundary a b c d e f = a

abbrev claim_event : Text → Text → TransitionEvent
claim_event id claim_id = record {
  id = id;
  kind = Kind.claim;
  channel = text "c";
  correlation = text "r";
  causation = [];
  work = text "w";
  fields = (text "claim_id", claim_id) ∷ (text "generation", text "1") ∷ [];
  unresolved_risks = [];
  evidence = [];
}

abbrev parse : Text → Option TransitionEvent
parse raw =
    if raw == text "x"
    then some (claim_event (text "a") (text "one"))
    else some (claim_event (text "b") (text "two"))

room :
    (t : Transcript)
    → lookup key (run toy_hash new calls).transcripts ≡ some t
    → length t.records < 1 * 1000
room t h =
    let same : t ≡ transcript = ground (arith, h, found) in
    omega (arith, ap (λ x. length x.records) same)

abbrev writer : Writer
writer = record {
  validate_event = λ body. some (record {
    id = text "b";
    channel_uri = text "u";
    participant_id = text "q";
    canonical = body;
  });
  format_uint = λ n. text "2";
  format_time = λ t. text "now";
  receipt_json = λ d. some (text "preimage");
  binding_json = λ d. some (text "binding");
}

-- Another client appends the first event between the lookup and the append.
abbrev between : ℕ → List Call
between (suc zero) = drop 1 calls
between _ = []

append-judge_example :
    (key ≡ key)
    × (event : Event) × (t : Transcript) × (state : TranscriptState) × (writer.validate_event
          (text "y")
        ≡ some event)
    × (lookup key (run toy_hash new ((take 1 calls ++ []) ++ between 1)).transcripts ≡ some t)
    × (judge toy_hash toy_evidence toy_boundary parse
          (λ t. t)
          (replay_all toy_hash toy_evidence toy_boundary parse (λ t. t) empty_state t.records)
          event.canonical
          (text "i")
        ≡ ok state)
unfolding append resolve run perform create_channel append_checked lookup_channel lookup_event
    attach_signature ensure_signed append_signed validate_channel validate_intent
    validate_append_intent validate_checked_append validate_prepared_record event_digest_of lookup
    insert view_read check_causation apply_kind apply replay replay_all read_pages validate
    active_claims validate_signature_attachment ChannelKey-discrete ChannelIdentity-discrete
    Text-discrete ℕ_discrete
append-judge_example =
    append-judge toy_hash toy_evidence toy_boundary parse (λ t. t)
      (ok (record { key_id = text "k"; algorithm = text "s" })) (λ r. some (text "g")) codec writer
      (take 1 calls) between (λ n. none) 1 request.admitted (text "y") (some (text "j"))
      (record { instant = 5_000_000; location = Time.utc }) key room refl

-- The first of two subscriptions ends, and the second is notified again.
abbrev subscribed : List Live.Call
subscribed = Live.subscribes none key ∷ Live.subscribes none key ∷ []

abbrev then_calls : List Live.Call
then_calls =
    Live.unsubscribes (record { key = key; id = 1; ended = false })
    ∷ Live.notifies key
    ∷ Live.receives 1
    ∷ []

run-notify_example :
    lookup 2 (Live.run (Live.notify key (Live.run Live.new subscribed)) then_calls).channels
    ≡ some true
unfolding Live.run Live.perform Live.subscribe Live.member lookup insert ChannelKey-discrete
    Text-discrete ℕ_discrete
run-notify_example =
    run-notify subscribed then_calls key 2 (omega arith) refl
      (tt, (tt, ((λ e. absurd (omega arith)), tt)))
