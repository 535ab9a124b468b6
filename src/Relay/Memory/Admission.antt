-- ===== src/Relay/Memory/Admission.antt =====
-- What AppendChecked of the relay store in memory has asked before it appends.
use yukh_coordination.Base.{
  ◌≡◌, inl, inr, Option, none, some, arith, Text, lookup, subst, ok, Option-cases, Result-cases,
  text_eq,
}
use yukh_coordination.Relay.{
  Error, channel_key_eq, AppendIntent, AcceptedRecord, PrepareRecord, Admit, AppendOutcome,
  validate_checked_append,
}
use yukh_coordination.Relay.Memory.{Transcript, Store, admission_view, append_in, append_checked}

module _ (sha256 : Text → Text) where
  append_in-admit :
      (s s' : Store) (intent : AppendIntent) (admit : Admit) (prepare : PrepareRecord)
      (t : Transcript) (r : AcceptedRecord)
      → append_in sha256 s intent admit prepare t ≡ (s', ok (AppendOutcome.appended, r))
      → admit (admission_view s intent.channel t) ≡ ok tt
  append_in-admit s s' intent admit prepare t r h = ground (arith, h)

  checked_admit :
      (intent : AppendIntent) (admit : Admit) (prepare : Option PrepareRecord) (a : Admit)
      (p : PrepareRecord)
      → validate_checked_append intent (some admit) prepare ≡ ok (a, p)
      → a ≡ admit
  unfolding validate_checked_append
  checked_admit intent admit prepare a p h = ground (arith, h)

  -- An append that is answered as new: the channel is there, and its view was admitted.
  pub append_checked-admit :
      (ctx : Option Error) (s s' : Store) (intent : AppendIntent) (admit : Admit)
      (prepare : Option PrepareRecord) (r : AcceptedRecord)
      → append_checked sha256 ctx s intent (some admit) prepare
        ≡ (s', ok (AppendOutcome.appended, r))
      → (t : Transcript) × (lookup intent.channel s.transcripts ≡ some t)
        × (admit (admission_view s intent.channel t) ≡ ok tt)
  unfolding append_checked
  append_checked-admit (some e) s s' intent admit prepare r h = absurd (ground (arith, h))
  append_checked-admit none s s' intent admit prepare r h =
      elim (Result-cases (validate_checked_append intent (some admit) prepare)) [
        | inl (e, a) ↦ absurd (ground (arith, h, a))
        | inr ((ad, p), a) ↦ elim (Option-cases (lookup intent.channel s.transcripts)) [
          | inl b ↦ absurd (ground (arith, h, a, b))
          | inr (t, b) ↦
              let run : append_in sha256 s intent ad p t ≡ (s', ok (AppendOutcome.appended, r)) =
                ground (arith, h, a, b) in
              (
                t,
                b,
                subst (λ f. f (admission_view s intent.channel t) ≡ ok tt)
                    (checked_admit intent admit prepare ad p a)
                    (append_in-admit s s' intent ad p t r run),
              )
        ]
      ]
