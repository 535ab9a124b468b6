-- ===== src/JetStream/Visible.antt =====
-- internal/relay/jetstream: what is appended is found again.
use yukh_coordination.Base.{
  ℕ, ◌<◌, ◌≡◌, ◌≢◌, refl, sym, ap, subst, ◌∙◌, Bool, true, false, none, some, [], ◌∷◌, ◌++◌, Text,
  lookup, insert, lookup-insert_self, ok, all, arith, ◌!=◌, ◌||◌, text_eq,
}
use yukh_coordination.Relay.{
  channel_key_eq, AppendIntent, AcceptedRecord, Admit, PrepareRecord, AppendResult, validate_intent,
  is_blank_key, is_empty,
}
use yukh_coordination.Relay.Memory.{Transcript, channel_identity_eq, identity_of, events_of}
use yukh_coordination.JetStream.{Codec, tenant_subject}
use yukh_coordination.JetStream.Commands.{IsCodec, IsCommandId, record_texts}
use yukh_coordination.JetStream.Operations.{
  publish, record_payload, append_decision, find_event, view_lookup,
}
use yukh_coordination.JetStream.Reducer.{TenantState, new_tenant_state, with_record}
use yukh_coordination.JetStream.Store.{Log, replay, lookup_event}
use yukh_coordination.JetStream.Records.{apply-append_decision}
use yukh_coordination.JetStream.Histories.{IsReduced, head_sequence, replay-append}

-- The state after the record, at whatever revision.
find_event-with_record :
    (s : TenantState) (t : Transcript) (r : AcceptedRecord)
    → find_event (with_record s t r) r.channel r.event_id ≡ some r
find_event-with_record s t r =
    ap (λ o. lookup r.event_id (elim o [ none ↦ [] | some es ↦ es ]))
      (lookup-insert_self (identity_of r.channel)
        (insert r.event_id r (events_of (identity_of r.channel) s.events)) s.events)
    ∙ lookup-insert_self r.event_id r (events_of (identity_of r.channel) s.events)

lookup_event-with_record :
    (s : TenantState) (t : Transcript) (r : AcceptedRecord) (revision : ℕ)
    → (is_blank_key r.channel || is_empty r.event_id) ≡ false
    → lookup_event none
        (ok (record (with_record s t r) { revision = revision }))
        r.channel
        r.event_id
      ≡ ok r
unfolding lookup_event view_lookup
lookup_event-with_record s t r revision filled =
    let own : (r.channel != r.channel) ≡ false = ground arith in
    rw (filled, lookup_event)
      (rw (lookup-insert_self r.channel (record t { records = t.records ++ r ∷ [] }) s.transcripts)
        (rw (find_event-with_record s t r, view_lookup) (rw own refl)))

module _ (sha256 : Text → Text) (is_utf8 : Text → Bool) (codec : Codec) (tenant subject : Text)
    (laws : IsCodec is_utf8 codec) (filled : tenant ≢ [])
    (named : tenant_subject sha256 codec tenant ≡ ok subject) where
  -- What AppendChecked answers is found again: where JSON and base64 behave as documented, the command's
  -- identifier, the tenant's and the texts of the record's payload are in UTF-8, and a log reduces to the
  -- state in which a round of AppendChecked publishes for a valid intent, the log with that command
  -- loads, and Lookup of the event in it answers the record that AppendChecked answers.
  pub lookup_event-append_decision :
      (log : Log) (s : TenantState) (intent : AppendIntent) (admit : Admit)
      (prepare : PrepareRecord) (id raw : Text) (n : ℕ) (result : AppendResult)
      → IsReduced sha256 is_utf8 codec tenant subject log s
      → validate_intent intent ≡ ok tt
      → intent.channel.tenant_id ≡ tenant
      → IsCommandId is_utf8 codec id
      → all is_utf8 (tenant ∷ record_texts (record_payload codec result.1)) ≡ true
      → head_sequence log < n
      → append_decision sha256 codec (some id) intent admit prepare s ≡ publish raw result
      → lookup_event none
          (replay sha256 codec (new_tenant_state tenant) subject (log ++ (n, raw) ∷ []))
          intent.channel
          intent.event_id
        ≡ ok result.1
  unfolding validate_intent replay
  lookup_event-append_decision log s intent admit prepare id raw n result w valid own v7 utf8 newer
        h =
      let (t, found, _, at_end, same, applied) =
        apply-append_decision sha256 is_utf8 codec laws s intent admit prepare subject id raw n
          result (own ∙ sym w.owner) (λ e. filled (sym w.owner ∙ e)) v7
          (subst (λ x. all is_utf8 (x ∷ record_texts (record_payload codec result.1)) ≡ true)
            (sym w.owner) utf8)
          (ap (tenant_subject sha256 codec) w.owner ∙ named) (omega (arith, w.head, newer)) h in
      let loaded : replay sha256 codec (new_tenant_state tenant) subject (log ++ (n, raw) ∷ [])
          ≡ ok (record (with_record s t result.1) { revision = n }) =
        replay-append sha256 is_utf8 codec tenant subject (new_tenant_state tenant) s log
          ((n, raw) ∷ []) w.reduces
        ∙ rw (applied, replay) refl in
      let checked : (is_blank_key intent.channel || is_empty intent.event_id) ≡ false =
        ground (arith, valid) in
      subst
        (λ i.
          lookup_event none
            (replay sha256 codec (new_tenant_state tenant) subject (log ++ (n, raw) ∷ [])) i.channel
            i.event_id
          ≡ ok result.1)
        same
        (rw loaded (
          lookup_event-with_record s t result.1 n
            (ap (λ i. is_blank_key i.channel || is_empty i.event_id) same ∙ checked)))
