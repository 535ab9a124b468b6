-- ===== src/JetStream/Reduces.antt =====
-- internal/relay/jetstream: every log that the mutations leave can be loaded again.
use yukh_coordination.Base.{
  ◌≤◌, ◌≡◌, ◌≢◌, refl, sym, ap, subst, ◌∙◌, Bool, true, Option, none, some, [], ◌∷◌, Text, lookup,
  ok, all, arith, Option-cases, length, inl, inr,
}
use yukh_coordination.Relay.{channel_key_eq, Channel}
use yukh_coordination.JetStream.{Codec, tenant_subject}
use yukh_coordination.JetStream.Commands.{IsCodec, record_texts, signature_texts}
use yukh_coordination.JetStream.Operations.{
  record_payload, signature_payload, publish, create_decision, append_decision, attach_decision,
}
use yukh_coordination.JetStream.Reducer.{
  TenantState, new_tenant_state, with_channel, with_record, with_signature,
}
use yukh_coordination.JetStream.Store.{Log, replay}
use yukh_coordination.JetStream.Replay.{apply-create_decision}
use yukh_coordination.JetStream.Records.{apply-append_decision}
use yukh_coordination.JetStream.Signatures.{IsSound, apply-attach_decision}
use yukh_coordination.JetStream.Soundness.{
  with_channel-IsSound, with_record-IsSound, with_signature-IsSound,
}
use yukh_coordination.JetStream.Histories.{Reaches, IsReduced, taken_state, extend}

create_decision-absent :
    (codec : Codec) (id : Option Text) (c : Channel) (s : TenantState) (raw : Text)
    → create_decision codec id c s ≡ publish raw tt
    → lookup c.key s.transcripts ≡ none
unfolding create_decision
create_decision-absent codec id c s raw h = elim (Option-cases (lookup c.key s.transcripts)) [
  | inl a ↦ a
  | inr (t, a) ↦ absurd (ground (arith, a, h))
]

new_tenant_state-IsSound : (tenant : Text) → IsSound (new_tenant_state tenant)
unfolding lookup
new_tenant_state-IsSound tenant id r h = absurd (ground (arith, h))

module _ (sha256 : Text → Text) (is_utf8 : Text → Bool) (codec : Codec) (tenant subject : Text)
    (laws : IsCodec is_utf8 codec) (filled : tenant ≢ [])
    (named : tenant_subject sha256 codec tenant ≡ ok subject) where
  -- Where JSON and base64 behave as documented, a tenant has an identifier and a subject, and the texts of
  -- every published command, its identifier and the tenant's are in UTF-8: every log that clients leave
  -- by any interleaving of the publishes of CreateChannel, AppendChecked and AttachSignature, each
  -- decided on what its client has loaded before, is loaded without an error, and every receipt then
  -- stands in its transcript.
  pub Reaches-IsReduced :
      (log : Log)
      → Reaches sha256 is_utf8 codec tenant subject log
      → (s : TenantState) × IsReduced sha256 is_utf8 codec tenant subject log s
  unfolding replay
  Reaches-IsReduced _ Reaches.start = (
    new_tenant_state tenant,
    record { reduces = refl; owner = refl; head = refl; sound = new_tenant_state-IsSound tenant },
  )
  Reaches-IsReduced _
        (Reaches.channel {log} {loaded} {later} {s} {n} {id} {raw} c before taken own valid utf8
          h) =
      let (t, w) = Reaches-IsReduced log before in
      let same =
        taken_state sha256 is_utf8 codec tenant subject log loaded later s t n id w taken in
      let decided = subst (λ x. create_decision codec (some id) c x ≡ publish raw tt) same h in
      let applied =
        apply-create_decision sha256 is_utf8 codec laws t c subject id raw n valid
          (own ∙ sym w.owner) taken.version utf8 (ap (tenant_subject sha256 codec) own ∙ named)
          (omega (arith, w.head, taken.newer)) decided in
      (
        record (with_channel t c) { revision = n },
        extend sha256 is_utf8 codec tenant subject log t (with_channel t c) n raw w applied w.owner
            (with_channel-IsSound t c w.sound
              (create_decision-absent codec (some id) c t raw decided)),
      )
  Reaches-IsReduced _
        (Reaches.record_ {log} {loaded} {later} {s} {n} {id} {raw} intent admit prepare result
          before taken own utf8 h) =
      let (t, w) = Reaches-IsReduced log before in
      let same =
        taken_state sha256 is_utf8 codec tenant subject log loaded later s t n id w taken in
      let decided =
        subst
          (λ x. append_decision sha256 codec (some id) intent admit prepare x ≡ publish raw result)
          same h in
      let (transcript, found, _, at_end, _, applied) =
        apply-append_decision sha256 is_utf8 codec laws t intent admit prepare subject id raw n
          result (own ∙ sym w.owner) (λ e. filled (sym w.owner ∙ e)) taken.version
          (subst (λ x. all is_utf8 (x ∷ record_texts (record_payload codec result.1)) ≡ true)
            (sym w.owner) utf8)
          (ap (tenant_subject sha256 codec) w.owner ∙ named) (omega (arith, w.head, taken.newer))
          decided in
      (
        record (with_record t transcript result.1) { revision = n },
        extend sha256 is_utf8 codec tenant subject log t (with_record t transcript result.1) n raw w
            applied w.owner (with_record-IsSound t transcript result.1 w.sound found at_end),
      )
  Reaches-IsReduced _
        (Reaches.signature {log} {loaded} {later} {s} {n} {id} {raw} a result before taken own valid
          utf8 h) =
      let (t, w) = Reaches-IsReduced log before in
      let same =
        taken_state sha256 is_utf8 codec tenant subject log loaded later s t n id w taken in
      let decided =
        subst (λ x. attach_decision sha256 codec (some id) a x ≡ publish raw result) same h in
      let (old, held, _, signed, applied) =
        apply-attach_decision sha256 is_utf8 codec laws t a subject id raw n result w.sound valid
          (own ∙ sym w.owner) taken.version
          (subst (λ x. all is_utf8 (x ∷ signature_texts (signature_payload sha256 codec a)) ≡ true)
            (sym w.owner) utf8)
          (ap (tenant_subject sha256 codec) w.owner ∙ named) (omega (arith, w.head, taken.newer))
          decided in
      (
        record (with_signature t held.transcript result) { revision = n },
        extend sha256 is_utf8 codec tenant subject log t (with_signature t held.transcript result) n
            raw w applied w.owner
            (with_signature-IsSound t held.transcript result w.sound
              (subst (λ x. lookup x.channel t.transcripts ≡ some held.transcript) signed held.found)
              (subst (λ x. 1 ≤ x.sequence) signed held.numbered)
              (subst (λ x. x.sequence ≤ length held.transcript.records) signed held.within)),
      )
