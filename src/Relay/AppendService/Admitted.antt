-- ===== src/Relay/AppendService/Admitted.antt =====
-- What the append service has asked before it reports an event as appended.
use yukh_coordination.Base.{
  ℕ, ◌≡◌, ap, ◌∙◌, inl, inr, ◌||◌, Option, some, arith, Text, text_eq, lookup, Result, ok, ◌!=◌,
  Bool-cases, Result-cases,
}
use yukh_coordination.Relay.{
  Error, channel_key_eq, AppendIntent, AcceptedRecord, Admit, AppendOutcome, AppendResult, is_empty,
  validate_intent,
}
use yukh_coordination.Relay.Memory as Memory
use yukh_coordination.Relay.Memory.{
  Transcript, Store, lookup_event, attach_signature, admission_view,
}
use yukh_coordination.Relay.Memory.Admission.{append_checked-admit}
use yukh_coordination.Relay.AppendService.{
  SigningSelection, PrepareSelected, bound_prepare, is_not_found, ensure_signed, append_new,
  append_valid, append_signed,
}

module _ (sha256 : Text → Text) (select : Result Error SigningSelection)
    (sign : AcceptedRecord → Option Text) (others : ℕ → Store → Store) where
  -- The channel is there, and the callback has admitted its view.
  abbrev pub Admitted : Store → AppendIntent → Admit → Type 0
  Admitted s intent admit =
      (t : Transcript) × (lookup intent.channel s.transcripts ≡ some t)
      × (admit (admission_view s intent.channel t) ≡ ok tt)

  ensure_signed_outcome :
      (ctx : Option Error) (s s' : Store) (o o' : AppendOutcome) (r x : AcceptedRecord)
      → ensure_signed sha256 select sign others ctx s o r ≡ (s', ok (o', x))
      → o ≡ o'
  unfolding ensure_signed
  ensure_signed_outcome ctx s s' o o' r x h = ground (arith, h)

  append_new-admit :
      (ctx : ℕ → Option Error) (s s' : Store) (intent : AppendIntent) (admit : Admit)
      (prepare : PrepareSelected) (x : AcceptedRecord)
      → append_new sha256 select sign others ctx s intent admit prepare
        ≡ (s', ok (AppendOutcome.appended, x))
      → Admitted (others 0 s) intent admit
  append_new-admit ctx s s' intent admit prepare x h = elim (Result-cases select) [
    | inl (e, a) ↦ absurd (ground (arith, h, a))
    | inr (selection, a) ↦
        elim (Bool-cases (is_empty selection.key_id || is_empty selection.algorithm)) [
          | inl b ↦ absurd (ground (arith, h, a, b))
          | inr b ↦
              let stored : Store × Result Error AppendResult =
                Memory.append_checked sha256 (ctx 1) (others 0 s) intent (some admit)
                  (some (bound_prepare prepare selection)) in
              elim (Result-cases (stored.1)) [
                | inl (e, c) ↦ absurd (ground (arith, h, a, b, c))
                | inr ((o, r), c) ↦
                    let run : ensure_signed sha256 select sign others (ctx 2) (stored.0) o r
                        ≡ (s', ok (AppendOutcome.appended, x)) =
                      ground (arith, h, a, b, c) in
                    let new : o ≡ AppendOutcome.appended =
                      ensure_signed_outcome (ctx 2) (stored.0) s' o AppendOutcome.appended r x
                        run in
                    append_checked-admit sha256 (ctx 1) (others 0 s) (stored.0) intent admit
                      (some (bound_prepare prepare selection)) r
                      (ap (λ v. (stored.0, v)) (c ∙ ap (λ v. ok (v, r)) new))
              ]
        ]
  ]

  append_valid-admit :
      (ctx : ℕ → Option Error) (s s' : Store) (intent : AppendIntent) (admit : Admit)
      (prepare : PrepareSelected) (x : AcceptedRecord)
      → append_valid sha256 select sign others ctx s intent admit prepare
        ≡ (s', ok (AppendOutcome.appended, x))
      → Admitted (others 0 s) intent admit
  append_valid-admit ctx s s' intent admit prepare x h =
      elim (Result-cases (lookup_event (ctx 0) s intent.channel intent.event_id)) [
        | inl (e, a) ↦ elim (Bool-cases (is_not_found e)) [
          | inl b ↦ append_new-admit ctx s s' intent admit prepare x (ground (arith, h, a, b))
          | inr b ↦ absurd (ground (arith, h, a, b))
        ]
        | inr (existing, a) ↦
            elim (Bool-cases (
              existing.channel != intent.channel
              || existing.canonical_event != intent.canonical_event)) [
                | inl b ↦ absurd (ground (arith, h, a, b))
                | inr b ↦
                    let run : ensure_signed sha256 select sign others (ctx 1) s
                          AppendOutcome.duplicate existing
                        ≡ (s', ok (AppendOutcome.appended, x)) =
                      ground (arith, h, a, b) in
                    absurd (
                      ground (
                        arith,
                        ensure_signed_outcome (ctx 1) s s' AppendOutcome.duplicate
                            AppendOutcome.appended existing x run,
                      ))
              ]
      ]

  -- An append that is reported as appended: the store has the channel when AppendChecked is called, and
  -- the callback has admitted its view then.
  pub append_signed-admit :
      (ctx : ℕ → Option Error) (s s' : Store) (intent : AppendIntent) (admit : Admit)
      (prepare : PrepareSelected) (x : AcceptedRecord)
      → append_signed sha256 select sign others ctx s intent (some admit) (some prepare)
        ≡ (s', ok (AppendOutcome.appended, x))
      → Admitted (others 0 s) intent admit
  unfolding append_signed
  append_signed-admit ctx s s' intent admit prepare x h =
      elim (Result-cases (validate_intent intent)) [
        | inl (e, a) ↦ absurd (ground (arith, h, a))
        | inr (u, a) ↦ append_valid-admit ctx s s' intent admit prepare x (ground (arith, h, a))
      ]
