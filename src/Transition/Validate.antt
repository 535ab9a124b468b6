-- ===== src/Transition/Validate.antt =====
-- internal/relay/service/transition.go: one transition, and Validate, which folds the transitions over
-- the transcript page by page. Parsing, canonical JSON and SHA-256 are parameters.
use yukh_coordination.Base.{
  ℕ, zero, suc, Bool, true, false, not, ◌&&◌, ◌||◌, Option, none, some, List, [], ◌∷◌, ◌++◌, ltb,
  ◌==◌, ◌!=◌, nat_eq, text_eq, Text, text, Map, lookup, insert, Result, ok, err, if◌then◌else◌,
  length,
}
use yukh_coordination.Relay.{AcceptedRecord, AdmissionView, hex_encode, is_empty}
use yukh_coordination.Relay as Relay
use yukh_coordination.Transition.{
  Kind, Descriptor, TransitionEvent, ClaimState, TranscriptState, empty_state, Failure, text_of,
  check_causation, apply_claim,
}
use yukh_coordination.Transition.Handoffs.{
  continued, released, progressed, offered, apply_accept, apply_answer, apply_verdict,
}

-- `after` once a page is read.
abbrev pub last_sequence : ℕ → List AcceptedRecord → ℕ
last_sequence after [] = after
last_sequence after (r ∷ rs) = last_sequence r.sequence rs

module _ (sha256 : Text → Text) (canonical_evidence : List Descriptor → Text)
    (canonical_boundary : Text → Text → Text → Text → Text → Text → Text) where
  abbrev pub prefixed_digest : Text → Text → Text
  prefixed_digest prefix canonical =
      text "sha-256:" ++ hex_encode (sha256 (prefix ++ 0 ∷ canonical))

  abbrev pub digest_evidence : List Descriptor → Text
  digest_evidence evidence =
      prefixed_digest (text "yukh.evidence-set.v0.1") (canonical_evidence evidence)

  abbrev pub digest_boundary : TransitionEvent → Text
  digest_boundary event =
      let d = event.fields in
      prefixed_digest (text "yukh.handoff-boundary.v0.1") (
        canonical_boundary event.work (text_of d (text "claim_id")) (text_of d (text "generation"))
          (text_of d (text "boundary")) (text_of d (text "next_action")) event.unresolved_risks)

  abbrev pub digests_differ : TransitionEvent → Bool
  digests_differ event =
      digest_boundary event != text_of event.fields (text "boundary_digest")
      || digest_evidence event.evidence != text_of event.fields (text "evidence_set_digest")

  -- What the count of matches decides.
  abbrev pub counted : TranscriptState → Result Failure ℕ → Result Failure TranscriptState
  counted s (err e) = err e
  counted s (ok n) = if n != 1 then err Failure.invalid_reference else ok s

  -- The loop over the parent's evidence; `n` matches so far.
  abbrev pub match_evidence : Map Text Text → ℕ → List Descriptor → Result Failure ℕ
  match_evidence d n [] = ok n
  match_evidence d n (e ∷ es) =
      let rest = match_evidence d (suc n) es in
      let others = match_evidence d n es in
      if prefixed_digest (text "yukh.evidence-descriptor.v0.1") e.canonical
        == text_of d (text "descriptor_digest")
      then (if text_of d (text "uri") != e.uri
            || text_of d (text "algorithm") != e.algorithm
            || text_of d (text "expected_digest") != text "sha-256:" ++ e.digest_value
          then err Failure.invalid_payload
          else rest)
      else others

  abbrev pub apply_verification : TranscriptState → TransitionEvent → Result Failure TranscriptState
  apply_verification s event =
      let id = text_of event.fields (text "referenced_event_id") in
      elim (lookup id s.events) [
        | none ↦ err Failure.invalid_reference
        | some parent ↦
            if event.causation != id
            then err Failure.invalid_reference
            else counted s (match_evidence event.fields 0 parent.evidence)
      ]

  abbrev pub apply_offer :
      TranscriptState → TransitionEvent → Bool → ClaimState → Result Failure TranscriptState
  apply_offer s event enforce c =
      if not (ltb (length c.offers) 32)
      then err Failure.resource_limit
      else if enforce && digests_differ event
      then err Failure.invalid_payload
      else ok (offered s event c)

  -- The switch of apply.
  unfoldable pub apply_kind :
      TranscriptState → TransitionEvent → Text → Bool → Kind → Result Failure TranscriptState
  apply_kind s event participant enforce Kind.claim = apply_claim s event participant
  apply_kind s event participant enforce Kind.progress = elim (continued s event) [
    | none ↦ err Failure.invalid_claim_transition
    | some c ↦ ok (progressed s event c)
  ]
  apply_kind s event participant enforce Kind.release = elim (continued s event) [
    | none ↦ err Failure.invalid_claim_transition
    | some c ↦ ok (released s event c)
  ]
  apply_kind s event participant enforce Kind.handoff_offer = elim (continued s event) [
    | none ↦ err Failure.invalid_claim_transition
    | some c ↦ apply_offer s event enforce c
  ]
  apply_kind s event participant enforce Kind.handoff_accept = apply_accept s event participant
  apply_kind s event participant enforce Kind.answer = apply_answer s event
  apply_kind s event participant enforce Kind.verdict = apply_verdict s event
  apply_kind s event participant enforce Kind.evidence_verification = apply_verification s event
  apply_kind s event participant enforce _ = ok s

  -- `state.events[event.id] = event`
  abbrev pub recorded : TransitionEvent → TranscriptState → TranscriptState
  recorded event s = record s { events = insert event.id event s.events }

  unfoldable pub apply :
      TranscriptState → TransitionEvent → Text → Bool → Bool → Result Failure TranscriptState
  apply s event participant enforce candidate = elim (check_causation s event) [
    | err e ↦ err e
    | ok _ ↦ elim (apply_kind s event participant enforce event.kind) [
      | err e ↦ err e
      | ok t ↦ ok (if candidate then recorded event t else t)
    ]
  ]

  module _ (parse : Text → Option TransitionEvent) (receipt_participant : Text → Text) where
    -- One stored record. A failure of a stored event is wrapped, so its code is not.
    unfoldable pub replay : TranscriptState → AcceptedRecord → Result Failure TranscriptState
    replay s r = elim (parse r.canonical_event) [
      | none ↦ err (Failure.relay_error Relay.Error.invalid_argument)
      | some event ↦
          elim (apply s event (receipt_participant r.unsigned_receipt_preimage) false false) [
            | err e ↦ err e
            | ok t ↦ ok (recorded event t)
          ]
    ]

    unfoldable pub replay_all :
        TranscriptState → List AcceptedRecord → Result Failure TranscriptState
    replay_all s [] = ok s
    replay_all s (r ∷ rs) = elim (replay s r) [ err e ↦ err e | ok t ↦ replay_all t rs ]

    -- The reading loop, on fuel for the number of pages; `none` where it runs out.
    unfoldable pub read_pages :
        ℕ → AdmissionView → TranscriptState → ℕ → Option (Result Failure TranscriptState)
    read_pages zero view s after = none
    read_pages (suc fuel) view s after = elim (view.read_after after 1000) [
      | err e ↦ some (err (Failure.relay_error e))
      | ok page ↦ elim (replay_all s page) [
        | err e ↦ some (err e)
        | ok t ↦ elim (ltb (length page) 1000) [
          | true ↦ some (ok t)
          | false ↦ read_pages fuel view t (last_sequence after page)
        ]
      ]
    ]

    -- The end of Validate, from the candidate's canonical bytes.
    abbrev pub judge : Result Failure TranscriptState → Text → Text → Result Failure TranscriptState
    judge (err e) candidate participant = err e
    judge (ok s) candidate participant = elim (parse candidate) [
      | none ↦ err (Failure.relay_error Relay.Error.invalid_argument)
      | some event ↦ apply s event participant true true
    ]

    -- Validate; `none` where the fuel runs out.
    unfoldable pub validate :
        ℕ → Option AdmissionView → Text → Text → Option (Result Failure TranscriptState)
    validate fuel none candidate participant =
        some (err (Failure.relay_error Relay.Error.invalid_argument))
    validate fuel (some view) candidate participant =
        if is_empty participant
        then some (err (Failure.relay_error Relay.Error.invalid_argument))
        else elim (read_pages fuel view empty_state 0) [
          | none ↦ none
          | some r ↦ some (judge r candidate participant)
        ]
