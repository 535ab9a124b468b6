-- ===== src/Application/Admission.antt =====
-- internal/relay/service/application.go: what Append has asked before it tells subscribers of an event.
use yukh_coordination.Base.{
  ℕ, suc, ◌*◌, ◌<◌, ◌≡◌, refl, ap, subst, ◌∙◌, ◌++◌, inl, inr, false, Option, some, List, length,
  arith, Text, text_eq, lookup, Result, ok, err, ◌!=◌, Bool-cases, Option-cases, Result-cases,
}
use yukh_coordination.Time.{Time}
use yukh_coordination.Relay.{
  Error, ChannelKey, Channel, channel_key_eq, AcceptedRecord, AppendOutcome, AppendResult, is_empty,
}
use yukh_coordination.Relay.Memory.{Transcript, Store, new}
use yukh_coordination.Relay.Memory.History.{Call, run, run-append}
use yukh_coordination.Relay.AppendService.{SigningSelection}
use yukh_coordination.Relay.AppendService.Admitted.{Admitted, append_signed-admit}
use yukh_coordination.Transition.{
  Descriptor, TransitionEvent, TranscriptState, Failure, empty_state,
}
use yukh_coordination.Transition.Validate.{judge, replay_all}
use yukh_coordination.Transition.Replay.{validate-transcript}
use yukh_coordination.Application.{AdmittedRequest, ChannelMetadata, Codec, resolve}
use yukh_coordination.Application.Append.{
  Event, Writer, verdict, admit_event, answered, append_event, append, prepare_record,
}

-- The requests that resolve name a participant instance.
resolve_participant :
    (codec : Codec) (ctx : Option Error) (s : Store) (a : AdmittedRequest)
    (found : Channel × ChannelMetadata × ℕ)
    → resolve codec ctx s a ≡ ok found
    → is_empty a.identity.participant_instance_id ≡ false
unfolding resolve
resolve_participant codec ctx s a found h = ground (arith, h)

module _ (sha256 : Text → Text) (canonical_evidence : List Descriptor → Text)
    (canonical_boundary : Text → Text → Text → Text → Text → Text → Text)
    (parse : Text → Option TransitionEvent) (receipt_participant : Text → Text) where
  verdict_ok :
      (v : Option (Result Failure TranscriptState)) (r : Result Failure TranscriptState)
      → v ≡ some r
      → verdict sha256 canonical_evidence canonical_boundary parse receipt_participant v ≡ ok tt
      → (state : TranscriptState) × (r ≡ ok state)
  verdict_ok v (ok state) e h = (state, refl)
  verdict_ok v (err f) e h = absurd (ground (arith, e, h))

  module _ (select : Result Error SigningSelection) (sign : AcceptedRecord → Option Text)
      (codec : Codec) (writer : Writer) where
    answered_notice :
        (a : AdmittedRequest) (r : Store × Result Error AppendResult) (key : ChannelKey)
        → (answered sha256 canonical_evidence canonical_boundary parse receipt_participant select
            sign codec writer a r).notified
          ≡ some key
        → (x : AcceptedRecord) × (r.1 ≡ ok (AppendOutcome.appended, x)) × (key ≡ a.channel)
    answered_notice a (s, err e) key h = absurd (cc)
    answered_notice a (s, ok (AppendOutcome.appended, x)) key h = (x, refl, ground arith)
    answered_notice a (s, ok (AppendOutcome.duplicate, x)) key h = absurd (cc)

    -- What a notice tells.
    noticed :
        (others : ℕ → Store → Store) (ctx : ℕ → Option Error) (pages : ℕ) (s : Store)
        (a : AdmittedRequest) (body : Text) (receipt_id : Option Text) (now : Time)
        (key : ChannelKey)
        → (append sha256 canonical_evidence canonical_boundary parse receipt_participant select sign
            codec writer others ctx pages s a body receipt_id now).notified
          ≡ some key
        → (event : Event) × (key ≡ a.channel)
          × (writer.validate_event body ≡ some event)
          × (is_empty a.identity.participant_instance_id ≡ false)
          × Admitted sha256 select sign
              (λ n. others (suc n))
              (others 1 (others 0 s))
              (record {
                channel = a.channel;
                event_id = event.id;
                canonical_event = event.canonical;
              })
              (admit_event sha256 canonical_evidence canonical_boundary parse receipt_participant
                pages event a.identity.participant_instance_id)
    unfolding append
    noticed others ctx pages s a body receipt_id now key h =
        elim (Result-cases (resolve codec (ctx 0) s a)) [
          | inl (e, b) ↦ absurd (ground (arith, h, b))
          | inr (found, b) ↦ elim (Option-cases (writer.validate_event body)) [
            | inl c ↦ absurd (ground (arith, h, b, c))
            | inr (event, c) ↦ elim (Bool-cases (event.channel_uri != found.0.uri)) [
              | inl d ↦ absurd (ground (arith, h, b, c, d))
              | inr d ↦ elim (Option-cases receipt_id) [
                | inl e ↦ absurd (ground (arith, h, b, c, d, e))
                | inr (id, e) ↦
                    let r : Store × Result Error AppendResult =
                      append_event sha256 canonical_evidence canonical_boundary parse
                        receipt_participant select sign codec writer others (λ n. ctx (suc n)) pages
                        s a found event id now in
                    let (x, appended, same) =
                      answered_notice a r key (ground (arith, h, b, c, d, e)) in
                    (
                      event,
                      same,
                      c,
                      resolve_participant codec (ctx 0) s a found b,
                      append_signed-admit sha256 select sign (λ n. others (suc n))
                          (λ n. ctx (suc n)) (others 0 s) (r.0)
                          (record {
                            channel = a.channel;
                            event_id = event.id;
                            canonical_event = event.canonical;
                          })
                          (admit_event sha256 canonical_evidence canonical_boundary parse
                            receipt_participant pages event a.identity.participant_instance_id)
                          (prepare_record writer a found.0 found.1 found.2 event id now) x
                          (ap (λ v. (r.0, v)) appended),
                    )
              ]
            ]
          ]
        ]

    -- After every history `cs` of calls on the relay store, while other clients make the calls
    -- `between 0` before Append looks the event up, `between 1` before it appends, and `between 2` before
    -- it attaches the signature, and with pages for the transcripts: if Append tells subscribers of a
    -- channel, that is the channel of the request, the event was valid, and the transitions of all the
    -- records of its transcript when it appends, in order, lead to a state that accepts it.
    pub append-judge :
        (cs : List Call) (between : ℕ → List Call) (ctx : ℕ → Option Error) (pages : ℕ)
        (a : AdmittedRequest) (body : Text) (receipt_id : Option Text) (now : Time)
        (key : ChannelKey)
        → ((t : Transcript)
            → lookup a.channel (run sha256 new ((cs ++ between 0) ++ between 1)).transcripts
              ≡ some t
            → length t.records < pages * 1000)
        → (append sha256 canonical_evidence canonical_boundary parse receipt_participant select sign
            codec writer
            (λ n s. run sha256 s (between n))
            ctx
            pages
            (run sha256 new cs)
            a
            body
            receipt_id
            now).notified
          ≡ some key
        → (key ≡ a.channel)
          × (event : Event) × (t : Transcript) × (state : TranscriptState) × (writer.validate_event
                body
              ≡ some event)
          × (lookup a.channel (run sha256 new ((cs ++ between 0) ++ between 1)).transcripts
              ≡ some t)
          × (judge sha256 canonical_evidence canonical_boundary parse receipt_participant
                (replay_all sha256 canonical_evidence canonical_boundary parse receipt_participant
                  empty_state t.records)
                event.canonical
                a.identity.participant_instance_id
              ≡ ok state)
    append-judge cs between ctx pages a body receipt_id now key room h =
        let others : ℕ → Store → Store = λ n s. run sha256 s (between n) in
        let now_there : others 1 (others 0 (run sha256 new cs))
            ≡ run sha256 new ((cs ++ between 0) ++ between 1) =
          ap (λ s. run sha256 s (between 1)) (run-append sha256 new cs (between 0))
          ∙ run-append sha256 new (cs ++ between 0) (between 1) in
        let (event, same, valid, named, admitted) =
          noticed others ctx pages (run sha256 new cs) a body receipt_id now key h in
        let (t, found, asked) =
          subst
            (λ s.
              Admitted sha256 select sign (λ n. others (suc n)) s
                (record {
                  channel = a.channel;
                  event_id = event.id;
                  canonical_event = event.canonical;
                })
                (admit_event sha256 canonical_evidence canonical_boundary parse receipt_participant
                  pages event a.identity.participant_instance_id))
            now_there admitted in
        let (state, accepted) =
          verdict_ok _ _
            (validate-transcript sha256 canonical_evidence canonical_boundary parse
              receipt_participant ((cs ++ between 0) ++ between 1) a.channel t pages event.canonical
              a.identity.participant_instance_id found (room t found) named)
            asked in
        (same, event, t, state, valid, found, accepted)
