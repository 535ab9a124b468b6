-- ===== src/JetStream/Replay.antt =====
-- internal/relay/jetstream: what the reducer makes of the commands that the operations publish.
use yukh_coordination.Base.{
  ℕ, ◌<◌, ◌≡◌, ◌≢◌, refl, sym, subst, ◌∙◌, inl, inr, Bool, true, false, ◌||◌, Option, some, [], ◌∷◌,
  ◌==◌, nat_eq, text_eq, Text, Map, lookup, Result, ok, err, all, arith, Option-cases, Bool-cases,
  eq_refl, ℕ_discrete, Text-discrete,
}
use yukh_coordination.Relay.{Error, ChannelKey, channel_key_eq, Channel, validate_channel}
use yukh_coordination.Relay.Memory.{Transcript, channel_identity_eq, identity_of, uri_differs}
use yukh_coordination.JetStream.{
  Codec, channel_created, record_appended, signature_attached, known_type, tenant_subject,
  new_command,
}
use yukh_coordination.JetStream.Commands.{
  IsCodec, IsCommandId, IsPayload, IsWritten-read, channel_texts, decode_bytes-encode_bytes,
  envelope, decode_command-new_command,
}
use yukh_coordination.JetStream.Operations.{
  publish, proposed, uri_used, channel_payload, channel_command, create_decision,
}
use yukh_coordination.JetStream.Reducer.{
  TenantState, uri_taken, with_channel, add_channel, apply_channel, apply_command, bound, apply,
}

-- The command of a proposal.
pub proposed-publish :
    {A : Type 0} (r : Result Error Text) (a b : A) (raw : Text)
    → proposed r a ≡ publish raw b
    → (r ≡ ok raw) × (a ≡ b)
proposed-publish (err e) a b raw h = absurd (cc)
proposed-publish (ok x) a b raw h = (cc, cc)

-- CreateChannel looks at more transcripts than the reducer.
uri_used-uri_taken :
    (tenant_id : Text) (channel : Channel) (m : Map ChannelKey Transcript)
    → uri_used channel m ≡ false
    → uri_taken tenant_id channel m ≡ false
uri_used-uri_taken tenant_id channel [] h = refl
uri_used-uri_taken tenant_id channel ((key, t) ∷ m) h =
    ground (arith, h, uri_used-uri_taken tenant_id channel m)

create_decision-add_channel :
    (codec : Codec) (id : Option Text) (channel : Channel) (s : TenantState) (raw : Text)
    → validate_channel channel ≡ ok tt
    → create_decision codec id channel s ≡ publish raw tt
    → (channel_command codec id channel ≡ ok raw)
      × (add_channel s channel ≡ ok (with_channel s channel))
unfolding create_decision add_channel
create_decision-add_channel codec id channel s raw valid h =
    elim (Option-cases (lookup channel.key s.transcripts)) [
      | inr (t, a) ↦ absurd (ground (arith, a, h))
      | inl a ↦
          elim (Bool-cases (
            uri_differs (lookup (identity_of channel.key) s.channel_uris) channel.uri
            || uri_used channel s.transcripts)) [
              | inl b ↦ absurd (ground (arith, a, b, h))
              | inr b ↦
                  let made : create_decision codec id channel s
                      ≡ proposed (channel_command codec id channel) tt =
                    rw (a, create_decision) (rw b refl) in
                  let unused : uri_used channel s.transcripts ≡ false = ground (arith, b) in
                  let free = uri_used-uri_taken s.tenant_id channel s.transcripts unused in
                  let passes : (uri_differs (lookup (identity_of channel.key) s.channel_uris)
                          channel.uri
                        || uri_taken s.tenant_id channel s.transcripts)
                      ≡ false =
                    ground (arith, b, free) in
                  (
                    (proposed-publish (channel_command codec id channel) tt tt raw
                        (sym made ∙ h)).0,
                    rw (valid, add_channel) (rw a (rw passes refl)),
                  )
            ]
    ]

-- The code of a type is one of the three.
pub known_types :
    (known_type channel_created ≡ true)
    × (known_type record_appended ≡ true)
    × (known_type signature_attached ≡ true)
unfolding Text-discrete ℕ_discrete
known_types = (refl, refl, refl)

pub other_types :
    ((record_appended == channel_created) ≡ false)
    × ((signature_attached == channel_created) ≡ false)
    × ((signature_attached == record_appended) ≡ false)
unfolding Text-discrete ℕ_discrete
other_types = (refl, refl, refl)

module _ (sha256 : Text → Text) (is_utf8 : Text → Bool) (codec : Codec)
    (laws : IsCodec is_utf8 codec) where
  -- A command of this tenant, written by newCommand, is applied as its payload says.
  pub apply-new_command :
      (s after : TenantState) (subject id kind raw : Text) (revision : ℕ) (payload : Option Text)
      → IsCommandId is_utf8 codec id
      → s.tenant_id ≢ []
      → is_utf8 s.tenant_id ≡ true
      → tenant_subject sha256 codec s.tenant_id ≡ ok subject
      → s.revision < revision
      → known_type kind ≡ true
      → ((t : Text)
          → payload ≡ some t
          → (p : Text) × IsPayload codec t × (codec.transform t ≡ some p))
      → new_command codec (some id) s.tenant_id kind payload ≡ ok raw
      → ((t p : Text)
          → payload ≡ some t
          → codec.transform t ≡ some p
          → apply_command sha256 codec s (envelope is_utf8 codec laws id s.tenant_id kind p)
            ≡ ok after)
      → apply sha256 codec s subject revision raw ≡ ok (record after { revision = revision })
  unfolding apply
  apply-new_command s after subject id kind raw revision payload v7 tenant utf8 named newer known
        formed h applied =
      let (t, p, e, form, read) =
        decode_command-new_command is_utf8 codec laws id s.tenant_id kind raw payload v7 tenant
          known utf8 formed h in
      let c = envelope is_utf8 codec laws id s.tenant_id kind p in
      let own : bound sha256 codec s subject revision c ≡ true =
        rw named (rw (eq_refl subject) (rw (eq_refl s.tenant_id) (ground (arith, newer)))) in
      rw (read, apply) (rw own (rw (applied t p e form) refl))

  apply_channel-channel_payload :
      (s : TenantState) (channel : Channel) (t raw : Text)
      → channel.key.tenant_id ≡ s.tenant_id
      → all is_utf8 (channel_texts (channel_payload codec channel)) ≡ true
      → codec.marshal_channel (channel_payload codec channel) ≡ some t
      → codec.transform t ≡ some raw
      → apply_channel sha256 codec s raw ≡ add_channel s channel
  unfolding apply_channel
  apply_channel-channel_payload s channel t raw own utf8 json form =
      rw
        (
          IsWritten-read is_utf8 codec codec.decode_channel (channel_payload codec channel) t raw
              (laws.channel (channel_payload codec channel) t utf8 json) form,
          apply_channel,
        )
        (rw (decode_bytes-encode_bytes is_utf8 codec laws channel.canonical_metadata)
          (rw (sym own) refl))

  -- What CreateChannel publishes reduces: the reducer takes the command that a round of CreateChannel
  -- decides on in a state of the tenant, at any later revision, and adds the channel with an empty
  -- transcript.
  pub apply-create_decision :
      (s : TenantState) (channel : Channel) (subject id raw : Text) (revision : ℕ)
      → validate_channel channel ≡ ok tt
      → channel.key.tenant_id ≡ s.tenant_id
      → IsCommandId is_utf8 codec id
      → all is_utf8 (channel.key.tenant_id ∷ channel_texts (channel_payload codec channel)) ≡ true
      → tenant_subject sha256 codec channel.key.tenant_id ≡ ok subject
      → s.revision < revision
      → create_decision codec (some id) channel s ≡ publish raw tt
      → apply sha256 codec s subject revision raw
        ≡ ok (record (with_channel s channel) { revision = revision })
  unfolding validate_channel apply_command
  apply-create_decision s channel subject id raw revision valid own v7 utf8 named newer h =
      let (written, added) = create_decision-add_channel codec (some id) channel s raw valid h in
      let filled : channel.key.tenant_id ≢ [] = λ e. ground (arith, valid, e) in
      apply-new_command s (with_channel s channel) subject id channel_created raw revision
        (codec.marshal_channel (channel_payload codec channel)) v7 (λ e. filled (own ∙ e))
        (subst (λ x. is_utf8 x ≡ true) own (ground (arith, utf8)))
        (subst (λ x. tenant_subject sha256 codec x ≡ ok subject) own named) newer known_types.0
        (λ t e.
          let w = laws.channel (channel_payload codec channel) t (ground (arith, utf8)) e in
          (w.raw, inl (channel_payload codec channel, e), w.form))
        (subst
          (λ x.
            new_command codec (some id) x channel_created
              (codec.marshal_channel (channel_payload codec channel))
            ≡ ok raw)
          own written)
        (λ t p json form.
          rw (eq_refl channel_created, apply_command)
            (apply_channel-channel_payload s channel t p own (ground (arith, utf8)) json form
              ∙ added))
