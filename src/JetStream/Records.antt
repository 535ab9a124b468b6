-- ===== src/JetStream/Records.antt =====
-- internal/relay/jetstream: what the reducer makes of the records that AppendChecked publishes.
use yukh_coordination.Base.{
  ℕ, ◌+◌, ◌<◌, ◌^◌, ◌≡◌, ◌≢◌, refl, sym, ap, subst, ◌∙◌, inl, inr, Bool, true, false, not, ◌||◌,
  Option, none, some, [], ◌∷◌, ltb, ◌==◌, nat_eq, text_eq, Text, lookup, ok, length, all, arith,
  Option-cases, Result-cases, Bool-cases, eq_refl,
}
use yukh_coordination.Relay.{
  channel_key_eq, AppendIntent, AcceptedRecord, Admit, PrepareRecord, AppendOutcome, AppendResult,
  event_digest_of, validate_prepared_record, is_empty,
}
use yukh_coordination.Relay.Memory.{Transcript, channel_identity_eq, identity_of, events_of}
use yukh_coordination.Relay.Memory.Cases.{Matches, validate_prepared_record-Matches}
use yukh_coordination.JetStream.{Codec, record_appended, tenant_subject, new_command}
use yukh_coordination.JetStream.Commands.{
  IsCodec, IsCommandId, IsWritten-read, record_texts, decode_bytes-encode_bytes,
}
use yukh_coordination.JetStream.Operations.{
  publish, proposed, record_payload, record_command, record_decision, find_event, state_view,
  append_decision,
}
use yukh_coordination.JetStream.Reducer.{
  TenantState, max_json_safe_integer, is_some, with_record, intent_of, add_record, decoded_record,
  apply_record, apply_command, apply,
}
use yukh_coordination.JetStream.Replay.{
  proposed-publish, apply-new_command, known_types, other_types,
}

module _ (sha256 : Text → Text) (codec : Codec) where
  -- What a prepared record satisfies when it is published.
  record IsChecked (id : Option Text) (intent : AppendIntent) (s : TenantState) (n : ℕ)
      (r : AcceptedRecord) (raw : Text) : Type 0 where
    valid :
        validate_prepared_record intent n (event_digest_of sha256 intent.canonical_event) r ≡ ok tt
    unsigned : r.signature ≡ []
    safe : ltb max_json_safe_integer r.sequence ≡ false
    new_receipt : is_some (lookup r.receipt_id s.receipts) ≡ false
    written : record_command codec id r ≡ ok raw

  record_decision-IsChecked :
      (id : Option Text) (intent : AppendIntent) (s : TenantState) (n : ℕ) (r : AcceptedRecord)
      (result : AppendResult) (raw : Text)
      → record_decision sha256 codec id intent s n r ≡ publish raw result
      → (result ≡ (AppendOutcome.appended, r)) × IsChecked id intent s n r raw
  unfolding record_decision
  record_decision-IsChecked id intent s n r result raw h =
      elim (Result-cases
        (validate_prepared_record intent n (event_digest_of sha256 intent.canonical_event) r)) [
          | inl (e, v) ↦ absurd (ground (arith, v, h))
          | inr (w, v) ↦
              elim (Bool-cases
                (not (is_empty r.signature) || ltb max_json_safe_integer r.sequence)) [
                  | inl x ↦ absurd (ground (arith, v, x, h))
                  | inr x ↦ elim (Bool-cases (is_some (lookup r.receipt_id s.receipts))) [
                    | inl y ↦ absurd (ground (arith, v, x, y, h))
                    | inr y ↦
                        let made : record_decision sha256 codec id intent s n r
                            ≡ proposed (record_command codec id r) (AppendOutcome.appended, r) =
                          rw (v, record_decision) (rw x (rw y refl)) in
                        let (written, same) =
                          proposed-publish (record_command codec id r) (AppendOutcome.appended, r)
                            result raw (sym made ∙ h) in
                        (
                          sym same,
                          record {
                            valid = v;
                            unsigned = ground (arith, x);
                            safe = ground (arith, x);
                            new_receipt = y;
                            written = written;
                          },
                        )
                  ]
                ]
        ]

  -- What a round of AppendChecked has found when it publishes.
  record IsProposed (id : Option Text) (intent : AppendIntent) (s : TenantState)
      (result : AppendResult) (raw : Text) : Type 0 where
    transcript : Transcript
    found : lookup intent.channel s.transcripts ≡ some transcript
    fresh : lookup intent.event_id (events_of (identity_of intent.channel) s.events) ≡ none
    appends : result.0 ≡ AppendOutcome.appended
    checked : IsChecked id intent s (length transcript.records + 1) result.1 raw

  append_decision-IsProposed :
      (id : Option Text) (intent : AppendIntent) (admit : Admit) (prepare : PrepareRecord)
      (s : TenantState) (result : AppendResult) (raw : Text)
      → append_decision sha256 codec id intent admit prepare s ≡ publish raw result
      → IsProposed id intent s result raw
  unfolding append_decision
  append_decision-IsProposed id intent admit prepare s result raw h =
      elim (Option-cases (lookup intent.channel s.transcripts)) [
        | inl a ↦ absurd (ground (arith, a, h))
        | inr (t, a) ↦ elim (Option-cases (find_event s intent.channel intent.event_id)) [
          | inr (old, b) ↦ absurd (ground (arith, a, b, h))
          | inl b ↦ elim (Result-cases (admit (state_view s intent.channel t))) [
            | inl (e, c) ↦ absurd (ground (arith, a, b, c, h))
            | inr (u, c) ↦
                let digest = event_digest_of sha256 intent.canonical_event in
                let n = length t.records + 1 in
                elim (Result-cases (prepare n digest)) [
                  | inl (e, d) ↦ absurd (ground (arith, a, b, c, d, h))
                  | inr (r, d) ↦
                      let made : append_decision sha256 codec id intent admit prepare s
                          ≡ record_decision sha256 codec id intent s n r =
                        rw (a, append_decision) (rw b (rw c (rw d refl))) in
                      let (same, w) =
                        record_decision-IsChecked id intent s n r result raw (sym made ∙ h) in
                      record {
                        transcript = t;
                        found = a;
                        fresh = b;
                        appends = ap (λ x. x.0) same;
                        checked =
                            subst (λ x. IsChecked id intent s n x raw) (ap (λ x. x.1) (sym same)) w;
                      }
                ]
          ]
        ]
      ]

  intent_of-Matches :
      (intent : AppendIntent) (n : ℕ) (d : Text) (r : AcceptedRecord)
      → Matches intent n d r
      → intent_of r ≡ intent
  intent_of-Matches intent n d r w =
      ap (λ k. record { channel = k; event_id = r.event_id; canonical_event = r.canonical_event })
        w.channel
      ∙ (ap
            (λ x. record {
              channel = intent.channel;
              event_id = x;
              canonical_event = r.canonical_event;
            })
            w.event_id
          ∙ ap
              (λ x. record {
                channel = intent.channel;
                event_id = intent.event_id;
                canonical_event = x;
              })
              w.canonical_event)

  add_record-IsProposed :
      (id : Option Text) (intent : AppendIntent) (s : TenantState) (result : AppendResult)
      (raw : Text) (w : IsProposed id intent s result raw)
      → add_record sha256 s result.1 ≡ ok (with_record s w.transcript result.1)
  unfolding add_record
  add_record-IsProposed id intent s result raw w =
      let r = result.1 in
      let n = length w.transcript.records + 1 in
      let digest = event_digest_of sha256 intent.canonical_event in
      let m = validate_prepared_record-Matches intent n digest r w.checked.valid in
      let same = intent_of-Matches intent n digest r m in
      let found = ap (λ k. lookup k s.transcripts) m.channel ∙ w.found in
      let valid =
        ap (λ i. validate_prepared_record i n (event_digest_of sha256 i.canonical_event) r) same
        ∙ w.checked.valid in
      let fresh =
        ap (λ i. is_some (lookup i.event_id (events_of (identity_of i.channel) s.events))) same
        ∙ ap is_some w.fresh in
      rw (found, add_record) (rw valid (rw fresh (rw w.checked.new_receipt refl)))

module _ (sha256 : Text → Text) (is_utf8 : Text → Bool) (codec : Codec)
    (laws : IsCodec is_utf8 codec) where
  decoded_record-record_payload :
      (s : TenantState) (r : AcceptedRecord)
      → r.channel.tenant_id ≡ s.tenant_id
      → r.signature ≡ []
      → decoded_record sha256 codec s (record_payload codec r) ≡ ok r
  decoded_record-record_payload s r own unsigned =
      rw (decode_bytes-encode_bytes is_utf8 codec laws r.canonical_event) (
        rw (decode_bytes-encode_bytes is_utf8 codec laws r.authenticated_binding) (
          rw (decode_bytes-encode_bytes is_utf8 codec laws r.authorization_binding) (
            rw (decode_bytes-encode_bytes is_utf8 codec laws r.unsigned_receipt_preimage)
              (rw (sym own) (rw (sym unsigned) refl)))))

  apply_record-record_payload :
      (s : TenantState) (r : AcceptedRecord) (t raw : Text)
      → r.channel.tenant_id ≡ s.tenant_id
      → r.signature ≡ []
      → (r.sequence == 0 || ltb max_json_safe_integer r.sequence) ≡ false
      → r.sequence < 2 ^ 53
      → all is_utf8 (record_texts (record_payload codec r)) ≡ true
      → codec.marshal_record (record_payload codec r) ≡ some t
      → codec.transform t ≡ some raw
      → apply_record sha256 codec s raw ≡ add_record sha256 s r
  unfolding apply_record
  apply_record-record_payload s r t raw own unsigned safe exact utf8 json form =
      rw
        (
          IsWritten-read is_utf8 codec codec.decode_record (record_payload codec r) t raw
              (laws.record_ (record_payload codec r) t utf8 exact json) form,
          apply_record,
        )
        (rw safe (rw (decoded_record-record_payload s r own unsigned) refl))

  -- What AppendChecked publishes reduces: the reducer takes the command that a round of AppendChecked
  -- decides on in a state of the tenant, at any later revision, and puts the record of the answer at the
  -- end of the transcript that the round has found, under its event and its receipt.
  pub apply-append_decision :
      (s : TenantState) (intent : AppendIntent) (admit : Admit) (prepare : PrepareRecord)
      (subject id raw : Text) (revision : ℕ) (result : AppendResult)
      → intent.channel.tenant_id ≡ s.tenant_id
      → s.tenant_id ≢ []
      → IsCommandId is_utf8 codec id
      → all is_utf8 (s.tenant_id ∷ record_texts (record_payload codec result.1)) ≡ true
      → tenant_subject sha256 codec s.tenant_id ≡ ok subject
      → s.revision < revision
      → append_decision sha256 codec (some id) intent admit prepare s ≡ publish raw result
      → (t : Transcript) × (lookup result.1.channel s.transcripts ≡ some t)
        × (result.0 ≡ AppendOutcome.appended)
        × (result.1.sequence ≡ length t.records + 1)
        × (intent_of result.1 ≡ intent)
        × (apply sha256 codec s subject revision raw
            ≡ ok (record (with_record s t result.1) { revision = revision }))
  unfolding apply_command
  apply-append_decision s intent admit prepare subject id raw revision result own tenant v7 utf8
        named newer h =
      let w =
        append_decision-IsProposed sha256 codec (some id) intent admit prepare s result raw h in
      let r = result.1 in
      let n = length w.transcript.records + 1 in
      let digest = event_digest_of sha256 intent.canonical_event in
      let m = validate_prepared_record-Matches intent n digest r w.checked.valid in
      let mine : r.channel.tenant_id ≡ s.tenant_id = ap (λ k. k.tenant_id) m.channel ∙ own in
      let safe : (r.sequence == 0 || ltb max_json_safe_integer r.sequence) ≡ false =
        ground (arith, m.sequence_is, w.checked.safe) in
      let exact : r.sequence < 2 ^ 53 = ground (arith, w.checked.safe) in
      (
        w.transcript,
        ap (λ k. lookup k s.transcripts) m.channel ∙ w.found,
        w.appends,
        m.sequence_is,
        intent_of-Matches sha256 codec intent n digest r m,
        apply-new_command sha256 is_utf8 codec laws s (with_record s w.transcript r) subject id
            record_appended raw revision (codec.marshal_record (record_payload codec r)) v7 tenant
            (ground (arith, utf8)) named newer known_types.1
            (λ t e.
              let written =
                laws.record_ (record_payload codec r) t (ground (arith, utf8)) exact e in
              (written.raw, inr (inl (record_payload codec r, e)), written.form))
            (subst
              (λ x.
                new_command codec (some id) x record_appended
                  (codec.marshal_record (record_payload codec r))
                ≡ ok raw)
              mine w.checked.written)
            (λ t p json form.
              rw (other_types.0, apply_command)
                (rw (eq_refl record_appended) (
                  apply_record-record_payload s r t p mine w.checked.unsigned safe exact
                    (ground (arith, utf8)) json form
                  ∙ add_record-IsProposed sha256 codec (some id) intent s result raw w))),
      )
