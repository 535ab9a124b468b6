-- ===== src/Transition/Handoffs.antt =====
-- internal/relay/service/transition.go: what the events that continue a claim, hand it over, answer a
-- question or give a verdict do to the state.
use yukh_coordination.Base.{
  ℕ, Bool, true, false, not, ◌&&◌, ◌||◌, Option, none, some, List, [], ◌∷◌, ◌++◌, ◌==◌, ◌!=◌,
  nat_eq, text_eq, Text, text, Map, lookup, insert, Result, ok, err, if◌then◌else◌, length,
  get_elem?, set,
}
use yukh_coordination.Transition.{
  handoff_precondition_failed, invalid_reference, TransitionEvent, ClaimState, OfferState,
  TranscriptState, Failure, text_of, claim_key_of, is_question, is_review_request, reference_type,
}

-- The claim that progress, release and handoff_offer continue.
abbrev pub continued : TranscriptState → TransitionEvent → Option ClaimState
continued s event =
    let parent = text_of event.fields (text "parent_claim_event_id") in
    elim (lookup (claim_key_of event.fields) s.claims) [
      | none ↦ none
      | some c ↦
          if not c.active || c.work != event.work || parent != c.last || event.causation != parent
          then none
          else some c
    ]

abbrev pub released : TranscriptState → TransitionEvent → ClaimState → TranscriptState
released s event c = record s {
  claims =
      insert (claim_key_of event.fields) (record c { active = false; last = event.id; offers = [] })
        s.claims;
}

abbrev pub progressed : TranscriptState → TransitionEvent → ClaimState → TranscriptState
progressed s event c = record s {
  claims = insert (claim_key_of event.fields) (record c { last = event.id }) s.claims;
}

abbrev pub offered : TranscriptState → TransitionEvent → ClaimState → TranscriptState
offered s event c =
    let d = event.fields in
    let key = claim_key_of d in
    let address = length s.heap in
    record s {
      heap =
          s.heap
          ++ record {
            event_id = event.id;
            handoff_id = text_of d (text "handoff_id");
            recipient = text_of d (text "to_participant_instance_id");
            boundary_digest = text_of d (text "boundary_digest");
            evidence_digest = text_of d (text "evidence_set_digest");
            claim_key = key;
            accepted = false;
          }
            ∷ [];
      offers = insert event.id address s.offers;
      claims =
          insert key (record c { last = event.id; offers = insert event.id address c.offers })
            s.claims;
    }

-- An offer with its address and the claim that it points to.
abbrev pub offer_of : TranscriptState → Text → Option (ℕ × OfferState × ClaimState)
offer_of s id = elim (lookup id s.offers) [
  | none ↦ none
  | some address ↦ elim (get_elem? s.heap address) [
    | none ↦ none
    | some o ↦ elim (lookup o.claim_key s.claims) [ none ↦ none | some c ↦ some (address, o, c) ]
  ]
]

abbrev pub acceptable : TransitionEvent → Text → OfferState → ClaimState → Bool
acceptable event participant o c =
    let d = event.fields in
    not o.accepted
    && c.active
    && elim (lookup o.event_id c.offers) [ none ↦ false | some _ ↦ true ]
    && event.causation == o.event_id
    && participant == o.recipient
    && text_of d (text "handoff_id") == o.handoff_id
    && text_of d (text "source_claim_event_id") == c.root
    && text_of d (text "claim_id") == c.id
    && text_of d (text "generation") == c.generation
    && text_of d (text "boundary_digest") == o.boundary_digest
    && text_of d (text "evidence_set_digest") == o.evidence_digest

-- `for _, current := range offer.claim.offers { current.accepted = true }`
abbrev pub accept_all : Map Text ℕ → List OfferState → List OfferState
accept_all [] heap = heap
accept_all ((id, address) ∷ rest) heap = elim (get_elem? heap address) [
  | none ↦ accept_all rest heap
  | some o ↦ accept_all rest (set heap address (record o { accepted = true }))
]

abbrev pub handed_over :
    TranscriptState → TransitionEvent → Text → ℕ → OfferState → ClaimState → TranscriptState
handed_over s event participant address o c = record s {
  heap = accept_all c.offers (set s.heap address (record o { accepted = true }));
  claims = insert o.claim_key (record c { last = event.id; offers = [] }) s.claims;
  accepted = insert event.id participant s.accepted;
}

abbrev pub apply_accept : TranscriptState → TransitionEvent → Text → Result Failure TranscriptState
apply_accept s event participant =
    elim (offer_of s (text_of event.fields (text "offer_event_id"))) [
      | none ↦ err handoff_precondition_failed
      | some (address, o, c) ↦
          if acceptable event participant o c
          then ok (handed_over s event participant address o c)
          else err handoff_precondition_failed
    ]

abbrev pub apply_answer : TranscriptState → TransitionEvent → Result Failure TranscriptState
apply_answer s event =
    if not (reference_type s event (text_of event.fields (text "question_event_id")) is_question)
    then err invalid_reference
    else ok s

-- `text(s.events[id].data, key)`
abbrev pub text_at : TranscriptState → Text → Text → Text
text_at s id key = elim (lookup id s.events) [ none ↦ [] | some p ↦ text_of p.fields key ]

abbrev pub apply_verdict : TranscriptState → TransitionEvent → Result Failure TranscriptState
apply_verdict s event =
    let id = text_of event.fields (text "review_event_id") in
    if not (reference_type s event id is_review_request)
    then err invalid_reference
    else if text_of event.fields (text "evidence_set_digest")
        != text_at s id (text "evidence_set_digest")
    then err invalid_reference
    else ok s
