-- ===== src/JetStream/Signatures.antt =====
-- internal/relay/jetstream: what the reducer makes of the signatures that AttachSignature publishes.
use yukh_coordination.Base.{
  ℕ, ◌≤◌, ◌<◌, ◌≡◌, ◌≢◌, refl, sym, ap, subst, ◌∙◌, inl, inr, Bool, true, false, not, ◌||◌, Option,
  some, [], ◌∷◌, ltb, ◌==◌, ◌!=◌, nat_eq, text_eq, Text, lookup, Result, ok, length, all, arith,
  Option-cases, Bool-cases,
}
use yukh_coordination.Relay.{
  ChannelKey, channel_key_eq, AcceptedRecord, SignatureAttachment, is_empty,
  validate_signature_attachment,
}
use yukh_coordination.Relay as Relay
use yukh_coordination.Relay.Memory.{Transcript}
use yukh_coordination.JetStream.{
  Codec, signature_attached, preimage_digest, tenant_subject, new_command,
}
use yukh_coordination.JetStream.Commands.{
  IsCodec, IsCommandId, IsWritten-read, signature_texts, decode_bytes-encode_bytes,
}
use yukh_coordination.JetStream.Operations.{
  publish, proposed, signature_payload, signature_command, attach_decision,
}
use yukh_coordination.JetStream.Reducer.{
  TenantState, with_signature, add_signature, apply_signature, apply_command, apply,
}
use yukh_coordination.JetStream.Replay.{
  proposed-publish, apply-new_command, known_types, other_types,
}

-- The record stands in a transcript, within its sequence numbers.
pub record IsHeld (s : TenantState) (r : AcceptedRecord) : Type 0 where
  pub transcript : Transcript
  pub found : lookup r.channel s.transcripts ≡ some transcript
  pub numbered : 1 ≤ r.sequence
  pub within : r.sequence ≤ length transcript.records

-- Every record of the receipts is held.
abbrev pub IsSound : TenantState → Type 0
IsSound s = (id : Text) (r : AcceptedRecord) → lookup id s.receipts ≡ some r → IsHeld s r

module _ (sha256 : Text → Text) (codec : Codec) where
  -- What a round of AttachSignature has found when it publishes.
  record IsUnsigned (id : Option Text) (a : SignatureAttachment) (s : TenantState)
      (result : AcceptedRecord) (raw : Text) : Type 0 where
    old : AcceptedRecord
    found : lookup a.receipt_id s.receipts ≡ some old
    channel : old.channel ≡ a.channel
    preimage : old.unsigned_receipt_preimage ≡ a.unsigned_receipt_preimage
    unsigned : old.signature ≡ []
    written : signature_command sha256 codec id a ≡ ok raw
    signed : record old { signature = a.signature } ≡ result

  attach_decision-IsUnsigned :
      (id : Option Text) (a : SignatureAttachment) (s : TenantState) (result : AcceptedRecord)
      (raw : Text)
      → attach_decision sha256 codec id a s ≡ publish raw result
      → IsUnsigned id a s result raw
  unfolding attach_decision
  attach_decision-IsUnsigned id a s result raw h =
      elim (Option-cases (lookup a.receipt_id s.receipts)) [
        | inl f ↦ absurd (ground (arith, f, h))
        | inr (r, f) ↦ elim (Bool-cases (r.channel != a.channel)) [
          | inl c ↦ absurd (ground (arith, f, c, h))
          | inr c ↦ elim (Bool-cases (r.unsigned_receipt_preimage != a.unsigned_receipt_preimage)) [
            | inl p ↦ absurd (ground (arith, f, c, p, h))
            | inr p ↦ elim (Bool-cases (not (is_empty r.signature))) [
              | inl u ↦ absurd (ground (arith, f, c, p, u, h))
              | inr u ↦
                  let next = record r { signature = a.signature } in
                  let made : attach_decision sha256 codec id a s
                      ≡ proposed (signature_command sha256 codec id a) next =
                    rw (f, attach_decision) (rw c (rw p (rw u refl))) in
                  let (written, same) =
                    proposed-publish (signature_command sha256 codec id a) next result raw
                      (sym made ∙ h) in
                  record {
                    old = r;
                    found = f;
                    channel = ground (arith, c);
                    preimage = ground (arith, p);
                    unsigned = ground (arith, u);
                    written = written;
                    signed = same;
                  }
            ]
          ]
        ]
      ]

  add_signature-IsUnsigned :
      (id : Option Text) (a : SignatureAttachment) (s : TenantState) (result : AcceptedRecord)
      (raw : Text) (w : IsUnsigned id a s result raw) (held : IsHeld s w.old)
      → add_signature sha256 s a.channel a.receipt_id
          (preimage_digest sha256 a.unsigned_receipt_preimage)
          a.signature
        ≡ ok (with_signature s held.transcript result)
  unfolding add_signature
  add_signature-IsUnsigned id a s result raw w held =
      let r = w.old in
      let mine : (r.channel != a.channel) ≡ false = ground (arith, w.channel) in
      let here = ap (λ k. lookup k s.transcripts) (sym w.channel) ∙ held.found in
      let digest = preimage_digest sha256 a.unsigned_receipt_preimage in
      let same_digest : (preimage_digest sha256 r.unsigned_receipt_preimage != digest) ≡ false =
        ground (arith, ap (λ x. preimage_digest sha256 x) w.preimage) in
      let clear : (preimage_digest sha256 r.unsigned_receipt_preimage != digest
            || not (r.signature == []))
          ≡ false =
        ground (arith, same_digest, w.unsigned) in
      let ranged : (r.sequence == 0 || ltb (length held.transcript.records) r.sequence) ≡ false =
        ground (arith, held.numbered, held.within) in
      rw (w.found, add_signature)
        (rw mine (
          rw clear (
            rw here (
              rw ranged (
                ap {B = Result Relay.Error TenantState}
                  (λ x. ok (with_signature s held.transcript x)) w.signed)))))

module _ (sha256 : Text → Text) (is_utf8 : Text → Bool) (codec : Codec)
    (laws : IsCodec is_utf8 codec) where
  apply_signature-signature_payload :
      (s : TenantState) (a : SignatureAttachment) (t raw : Text)
      → a.channel.tenant_id ≡ s.tenant_id
      → (a.signature == []) ≡ false
      → all is_utf8 (signature_texts (signature_payload sha256 codec a)) ≡ true
      → codec.marshal_signature (signature_payload sha256 codec a) ≡ some t
      → codec.transform t ≡ some raw
      → apply_signature sha256 codec s raw
        ≡ add_signature sha256 s a.channel a.receipt_id
            (preimage_digest sha256 a.unsigned_receipt_preimage)
            a.signature
  unfolding apply_signature
  apply_signature-signature_payload s a t raw own filled utf8 json form =
      rw
        (
          IsWritten-read is_utf8 codec codec.decode_signature (signature_payload sha256 codec a) t
              raw (laws.signature (signature_payload sha256 codec a) t utf8 json) form,
          apply_signature,
        )
        (rw (decode_bytes-encode_bytes is_utf8 codec laws a.signature)
          (rw filled (rw (sym own) refl)))

  -- What AttachSignature publishes reduces: where every receipt of the state stands in its transcript, the
  -- reducer takes the command that a round of AttachSignature decides on, at any later revision, and
  -- puts the signed record of the answer in the place of the unsigned one, in the transcript and under
  -- its event and receipt.
  pub apply-attach_decision :
      (s : TenantState) (a : SignatureAttachment) (subject id raw : Text) (revision : ℕ)
      (result : AcceptedRecord)
      → IsSound s
      → validate_signature_attachment a ≡ ok tt
      → a.channel.tenant_id ≡ s.tenant_id
      → IsCommandId is_utf8 codec id
      → all is_utf8 (s.tenant_id ∷ signature_texts (signature_payload sha256 codec a)) ≡ true
      → tenant_subject sha256 codec s.tenant_id ≡ ok subject
      → s.revision < revision
      → attach_decision sha256 codec (some id) a s ≡ publish raw result
      → (old : AcceptedRecord) × (held : IsHeld s old) × (lookup a.receipt_id s.receipts ≡ some old)
        × (record old { signature = a.signature } ≡ result)
        × (apply sha256 codec s subject revision raw
            ≡ ok (record (with_signature s held.transcript result) { revision = revision }))
  unfolding apply_command validate_signature_attachment
  apply-attach_decision s a subject id raw revision result sound valid own v7 utf8 named newer h =
      let w = attach_decision-IsUnsigned sha256 codec (some id) a s result raw h in
      let held = sound a.receipt_id w.old w.found in
      let filled : (a.signature == []) ≡ false = ground (arith, valid) in
      let tenant : s.tenant_id ≢ [] = λ e. ground (arith, valid, own, e) in
      (
        w.old,
        held,
        w.found,
        w.signed,
        apply-new_command sha256 is_utf8 codec laws s (with_signature s held.transcript result)
            subject id signature_attached raw revision
            (codec.marshal_signature (signature_payload sha256 codec a)) v7 tenant
            (ground (arith, utf8)) named newer known_types.2
            (λ t e.
              let written =
                laws.signature (signature_payload sha256 codec a) t (ground (arith, utf8)) e in
              (written.raw, inr (inr (signature_payload sha256 codec a, e)), written.form))
            (subst
              (λ x.
                new_command codec (some id) x signature_attached
                  (codec.marshal_signature (signature_payload sha256 codec a))
                ≡ ok raw)
              own w.written)
            (λ t p json form.
              rw (other_types.1, apply_command)
                (rw other_types.2 (
                  apply_signature-signature_payload s a t p own filled (ground (arith, utf8)) json
                    form
                  ∙ add_signature-IsUnsigned sha256 codec (some id) a s result raw w held))),
      )
