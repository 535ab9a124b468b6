-- ===== src/Transition/Limits.antt =====
-- internal/relay/service/transition.go: how many claims on one work item are active.
use yukh_coordination.Base.{
  ℕ, zero, suc, ◌≤◌, ◌≡◌, inl, inr, true, false, Option, some, List, [], ◌∷◌, arith, ltb, nat_eq,
  text_eq, Text, Result, ok, err, length, subst, Result-cases, Bool-cases, Option-cases,
}
use yukh_coordination.Relay.{AcceptedRecord, AdmissionView, is_empty}
use yukh_coordination.Transition.{
  Descriptor, TransitionEvent, TranscriptState, empty_state, Failure, active_claims,
}
use yukh_coordination.Transition.Validate.{
  apply, replay, replay_all, last_sequence, read_pages, judge, validate,
}
use yukh_coordination.Transition.Claims.{Kept, Ends, IsBounded}
use yukh_coordination.Transition.Kinds.{apply-Kept}

module _ (sha256 : Text → Text) (canonical_evidence : List Descriptor → Text)
    (canonical_boundary : Text → Text → Text → Text → Text → Text → Text)
    (parse : Text → Option TransitionEvent) (receipt_participant : Text → Text) where
  replay-Kept :
      (s : TranscriptState) (r : AcceptedRecord)
      → IsBounded s
      → Kept (replay sha256 canonical_evidence canonical_boundary parse receipt_participant s r)
  unfolding replay
  replay-Kept s r h = elim (Option-cases (parse r.canonical_event)) [
    | inl a ↦ rw (a, replay) tt
    | inr (event, a) ↦
        let participant = receipt_participant r.unsigned_receipt_preimage in
        let kept =
          apply-Kept sha256 canonical_evidence canonical_boundary s event participant false false
            h in
        elim (Result-cases
          (apply sha256 canonical_evidence canonical_boundary s event participant false false)) [
            | inl (e, b) ↦ rw (a, replay) (rw b tt)
            | inr (t, b) ↦
                let bounded : IsBounded t = subst Kept b kept in rw (a, replay) (rw b bounded)
          ]
  ]

  replay_all-Kept :
      (s : TranscriptState) (rs : List AcceptedRecord)
      → IsBounded s
      → Kept
          (replay_all sha256 canonical_evidence canonical_boundary parse receipt_participant s rs)
  unfolding replay_all
  replay_all-Kept s [] h = h
  replay_all-Kept s (r ∷ rs) h =
      let kept = replay-Kept s r h in
      elim (Result-cases
        (replay sha256 canonical_evidence canonical_boundary parse receipt_participant s r)) [
          | inl (e, b) ↦ rw (b, replay_all) tt
          | inr (t, b) ↦
              let bounded : IsBounded t = subst Kept b kept in
              rw (b, replay_all) (replay_all-Kept t rs bounded)
        ]

  pages-Kept :
      (fuel : ℕ) (view : AdmissionView) (s : TranscriptState) (after : ℕ)
      → IsBounded s
      → Ends (
          read_pages sha256 canonical_evidence canonical_boundary parse receipt_participant fuel
            view s after)
  unfolding read_pages
  pages-Kept zero view s after h = tt
  pages-Kept (suc fuel) view s after h = elim (Result-cases (view.read_after after 1000)) [
    | inl (x, a) ↦ rw (a, read_pages) tt
    | inr (page, a) ↦
        let kept = replay_all-Kept s page h in
        elim (Result-cases (
          replay_all sha256 canonical_evidence canonical_boundary parse receipt_participant s
            page)) [
              | inl (x, b) ↦ rw (a, read_pages) (rw b tt)
              | inr (t, b) ↦
                  let bounded : IsBounded t = subst Kept b kept in
                  elim (Bool-cases (ltb (length page) 1000)) [
                    | inl c ↦ rw (a, read_pages) (rw b (rw c bounded))
                    | inr c ↦
                        rw (a, read_pages)
                          (rw b (rw c (pages-Kept fuel view t (last_sequence after page) bounded)))
                  ]
            ]
  ]

  judge-Kept :
      (r : Result Failure TranscriptState) (candidate participant : Text)
      → Kept r
      → Kept (
          judge sha256 canonical_evidence canonical_boundary parse receipt_participant r candidate
            participant)
  judge-Kept (err e) candidate participant h = tt
  judge-Kept (ok s) candidate participant h = elim (Option-cases (parse candidate)) [
    | inl a ↦ rw (a, judge) tt
    | inr (event, a) ↦
        rw (a, judge)
          (apply-Kept sha256 canonical_evidence canonical_boundary s event participant true true h)
  ]

  validate-Kept :
      (fuel : ℕ) (view : AdmissionView) (candidate participant : Text)
      → Ends (
          validate sha256 canonical_evidence canonical_boundary parse receipt_participant fuel
            (some view)
            candidate
            participant)
  unfolding validate active_claims
  validate-Kept fuel view candidate participant = elim (Bool-cases (is_empty participant)) [
    | inl a ↦ rw (a, validate) tt
    | inr a ↦
        let kept = pages-Kept fuel view empty_state 0 (λ work. omega arith) in
        elim (Option-cases (
          read_pages sha256 canonical_evidence canonical_boundary parse receipt_participant fuel
            view empty_state 0)) [
              | inl b ↦ rw (a, validate) (rw b tt)
              | inr (r, b) ↦
                  let before : Kept r = subst Ends b kept in
                  rw (a, validate) (rw b (judge-Kept r candidate participant before))
            ]
  ]

  -- Whatever a view shows of a transcript, in the state that Validate accepts a candidate in, the
  -- candidate included, every work item has at most 32 active claims.
  pub validate-IsBounded :
      (fuel : ℕ) (view : AdmissionView) (candidate participant : Text) (s : TranscriptState)
      → validate sha256 canonical_evidence canonical_boundary parse receipt_participant fuel
          (some view)
          candidate
          participant
        ≡ some (ok s)
      → (work : Text) → active_claims s.claims work ≤ 32
  validate-IsBounded fuel view candidate participant s e =
      subst Ends e (validate-Kept fuel view candidate participant)
