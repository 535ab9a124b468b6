-- ===== src/Transition/Kinds.antt =====
-- internal/relay/service/transition.go: no transition leaves a work item with too many active claims.
use yukh_coordination.Base.{
  ℕ, ◌≡◌, inl, inr, Bool, not, ◌&&◌, some, List, arith, ltb, ◌!=◌, nat_eq, text_eq, Text, text,
  lookup, insert, Result, ok, err, if◌then◌else◌, length, subst, Result-cases, Bool-cases,
  Option-cases,
}
use yukh_coordination.Transition.{
  Kind, Descriptor, TransitionEvent, ClaimState, TranscriptState, Failure, text_of, claim_key_of,
  check_causation, reference_type, is_question, is_review_request,
}
use yukh_coordination.Transition.Handoffs.{continued, offered, text_at}
use yukh_coordination.Transition.Validate.{
  match_evidence, digests_differ, counted, apply_offer, apply_verification, apply_kind, apply,
}
use yukh_coordination.Transition.Claims.{
  guard-Kept, continued-lookup, rewritten, claim-Kept, accept-Kept, Kept, IsBounded,
}

module _ (sha256 : Text → Text) (canonical_evidence : List Descriptor → Text)
    (canonical_boundary : Text → Text → Text → Text → Text → Text → Text) where
  offer-Kept :
      (s : TranscriptState) (event : TransitionEvent) (enforce : Bool) (c : ClaimState)
      → IsBounded s
      → lookup (claim_key_of event.fields) s.claims ≡ some c
      → Kept (apply_offer sha256 canonical_evidence canonical_boundary s event enforce c)
  offer-Kept s event enforce c h found =
      guard-Kept (not (ltb (length c.offers) 32)) Failure.resource_limit
        (if enforce && digests_differ sha256 canonical_evidence canonical_boundary event
          then err Failure.invalid_payload
          else ok (offered s event c))
        (guard-Kept (enforce && digests_differ sha256 canonical_evidence canonical_boundary event)
          Failure.invalid_payload (ok (offered s event c))
          (rewritten (claim_key_of event.fields)
            (record c { last = event.id; offers = insert event.id (length s.heap) c.offers }) c
            s.claims h found (λ work. omega arith)))

  counted-Kept :
      (s : TranscriptState) (r : Result Failure ℕ)
      → IsBounded s
      → Kept (counted sha256 canonical_evidence canonical_boundary s r)
  counted-Kept s (err e) h = tt
  counted-Kept s (ok n) h = guard-Kept (n != 1) Failure.invalid_reference (ok s) h

  verification-Kept :
      (s : TranscriptState) (event : TransitionEvent)
      → IsBounded s
      → Kept (apply_verification sha256 canonical_evidence canonical_boundary s event)
  verification-Kept s event h =
      elim (Option-cases (lookup (text_of event.fields (text "referenced_event_id")) s.events)) [
        | inl a ↦ rw (a, apply_verification) tt
        | inr (p, a) ↦
            let found =
              match_evidence sha256 canonical_evidence canonical_boundary event.fields 0
                p.evidence in
            rw (a, apply_verification)
              (guard-Kept (event.causation != text_of event.fields (text "referenced_event_id"))
                Failure.invalid_reference
                (counted sha256 canonical_evidence canonical_boundary s found)
                (counted-Kept s found h))
      ]

  apply_kind-Kept :
      (s : TranscriptState) (event : TransitionEvent) (participant : Text) (enforce : Bool)
      (kind : Kind)
      → IsBounded s
      → Kept
          (apply_kind sha256 canonical_evidence canonical_boundary s event participant enforce kind)
  unfolding apply_kind
  apply_kind-Kept s event participant enforce Kind.claim h = claim-Kept s event participant h
  apply_kind-Kept s event participant enforce Kind.progress h =
      elim (Option-cases (continued s event)) [
        | inl a ↦ rw (a, apply_kind) tt
        | inr (c, a) ↦
            rw (a, apply_kind)
              (rewritten _ _ c s.claims h (continued-lookup s event c a) (λ work. omega arith))
      ]
  apply_kind-Kept s event participant enforce Kind.release h =
      elim (Option-cases (continued s event)) [
        | inl a ↦ rw (a, apply_kind) tt
        | inr (c, a) ↦
            rw (a, apply_kind)
              (rewritten _ _ c s.claims h (continued-lookup s event c a) (λ work. omega arith))
      ]
  apply_kind-Kept s event participant enforce Kind.handoff_offer h =
      elim (Option-cases (continued s event)) [
        | inl a ↦ rw (a, apply_kind) tt
        | inr (c, a) ↦
            rw (a, apply_kind) (offer-Kept s event enforce c h (continued-lookup s event c a))
      ]
  apply_kind-Kept s event participant enforce Kind.handoff_accept h =
      accept-Kept s event participant h
  apply_kind-Kept s event participant enforce Kind.answer h =
      guard-Kept
        (not (reference_type s event (text_of event.fields (text "question_event_id")) is_question))
        Failure.invalid_reference (ok s) h
  apply_kind-Kept s event participant enforce Kind.verdict h =
      let differs =
        text_of event.fields (text "evidence_set_digest")
        != text_at s (text_of event.fields (text "review_event_id")) (text "evidence_set_digest") in
      guard-Kept
        (not (
          reference_type s event (text_of event.fields (text "review_event_id")) is_review_request))
        Failure.invalid_reference (if differs then err Failure.invalid_reference else ok s)
        (guard-Kept differs Failure.invalid_reference (ok s) h)
  apply_kind-Kept s event participant enforce Kind.evidence_verification h =
      verification-Kept s event h
  apply_kind-Kept s event participant enforce Kind.question h = h
  apply_kind-Kept s event participant enforce Kind.review_request h = h
  apply_kind-Kept s event participant enforce Kind.other h = h

  pub apply-Kept :
      (s : TranscriptState) (event : TransitionEvent) (participant : Text)
      (enforce candidate : Bool)
      → IsBounded s
      → Kept
          (apply sha256 canonical_evidence canonical_boundary s event participant enforce candidate)
  unfolding apply
  apply-Kept s event participant enforce candidate h =
      elim (Result-cases (check_causation s event)) [
        | inl (e, a) ↦ rw (a, apply) tt
        | inr (u, a) ↦
            let r =
              apply_kind sha256 canonical_evidence canonical_boundary s event participant enforce
                event.kind in
            let kept = apply_kind-Kept s event participant enforce event.kind h in
            elim (Result-cases r) [
              | inl (e, b) ↦ rw (a, apply) (rw b tt)
              | inr (t, b) ↦
                  let bounded : IsBounded t = subst Kept b kept in
                  rw (a, apply) (rw b (ground (arith, Bool-cases candidate, bounded)))
            ]
      ]
