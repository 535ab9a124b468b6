-- ===== src/Relay/Memory/Signatures.antt =====
-- AttachSignature on a receipt that has a signature.
use yukh_coordination.Base.{
  ℕ, ◌≡◌, refl, sym, ap, ◌∙◌, inl, inr, false, ◌||◌, Option, none, arith, ◌!=◌, text_eq, lookup,
  lookup-insert_self, ok, err, if◌then◌else◌, set, ok-injective, subst, Bool-cases,
}
use yukh_coordination.Relay.{
  Error, channel_key_eq, AcceptedRecord, SignatureAttachment, is_empty,
  validate_signature_attachment,
}
use yukh_coordination.Relay.Memory.{
  Transcript, Store, find_receipt, signed, attach_to, attach_signature,
}
use yukh_coordination.Relay.Memory.Writes.{find_receipt-found, find_receipt-set}
use yukh_coordination.Relay.Memory.Cases.{Target, attach_signature_cases}

-- The store has the record, signed.
record IsSigned (s : Store) (a : SignatureAttachment) (r : AcceptedRecord) : Type 0 where
  transcript : Transcript
  index : ℕ
  target : Target s a transcript index r
  signature : r.signature ≡ a.signature

attach_signature-IsSigned :
    (ctx : Option Error) (s : Store) (a : SignatureAttachment) (r : AcceptedRecord)
    → (attach_signature ctx s a).1 ≡ ok r
    → IsSigned ((attach_signature ctx s a).0) a r
attach_signature-IsSigned ctx s a r =
    attach_signature_cases (λ p. p.1 ≡ ok r → IsSigned p.0 a r) ctx s a (λ e h. absurd (cc))
      (λ t i r' w q h.
        subst (λ x. IsSigned s a x) (ok-injective r' r h)
          (record { transcript = t; index = i; target = w; signature = q }))
      (λ t i r' w q h.
        subst (λ x. IsSigned (signed s a.channel t i (record r' { signature = a.signature })) a x)
          (ok-injective _ r h)
          (record {
            transcript = record t {
              records = set t.records i (record r' { signature = a.signature });
            };
            index = i;
            target = record {
              valid = w.valid;
              found = lookup-insert_self a.channel _ s.transcripts;
              at =
                  find_receipt-set a.receipt_id t.records i r' _ w.at
                    ((find_receipt-found a.receipt_id t.records i r' w.at).1);
              preimage = w.preimage;
            };
            signature = refl;
          }))

validate_signature_attachment-signature :
    (a : SignatureAttachment)
    → validate_signature_attachment a ≡ ok tt
    → is_empty a.signature ≡ false
unfolding validate_signature_attachment
validate_signature_attachment-signature a h = ground arith

attach_to-signed :
    (s : Store) (a again : SignatureAttachment) (t : Transcript) (i : ℕ) (r : AcceptedRecord)
    → r.unsigned_receipt_preimage ≡ a.unsigned_receipt_preimage
    → r.signature ≡ a.signature
    → is_empty a.signature ≡ false
    → attach_to s again t i r ≡ (
      s,
      if a.unsigned_receipt_preimage != again.unsigned_receipt_preimage
            || a.signature != again.signature
          then err Error.signature_collision
          else ok r,
    )
attach_to-signed s a again t i r p q n =
    elim (Bool-cases (r.unsigned_receipt_preimage != again.unsigned_receipt_preimage)) [
      | inl b ↦
          rw (b, attach_to) (rw (ap (λ x. x != again.unsigned_receipt_preimage) (sym p) ∙ b) refl)
      | inr b ↦
          rw (b, attach_to)
            (rw (ap (λ x. x != again.unsigned_receipt_preimage) (sym p) ∙ b)
              (rw (ap is_empty q ∙ n) (rw (ap (λ x. x != again.signature) q) refl)))
    ]

-- Once a signature is attached, a valid attachment to the same receipt leaves the store as it is: it
-- returns the same record where it has the same preimage and signature, and else a collision.
pub attach_signature-again :
    (ctx : Option Error) (s s' : Store) (a : SignatureAttachment) (r : AcceptedRecord)
    (again : SignatureAttachment)
    → attach_signature ctx s a ≡ (s', ok r)
    → again.channel ≡ a.channel
    → again.receipt_id ≡ a.receipt_id
    → validate_signature_attachment again ≡ ok tt
    → attach_signature none s' again ≡ (
      s',
      if a.unsigned_receipt_preimage != again.unsigned_receipt_preimage
            || a.signature != again.signature
          then err Error.signature_collision
          else ok r,
    )
unfolding attach_signature
attach_signature-again ctx s s' a r again h c p valid =
    let w =
      subst (λ x. IsSigned x a r) (ap (λ x. x.0) h)
        (attach_signature-IsSigned ctx s a r (ap (λ x. x.1) h)) in
    let found = ap (λ k. lookup k s'.transcripts) c ∙ w.target.found in
    let at = ap (λ k. find_receipt k w.transcript.records) p ∙ w.target.at in
    rw (valid, attach_signature)
      (rw found (
        rw at (
          attach_to-signed s' a again w.transcript w.index r w.target.preimage w.signature
            (validate_signature_attachment-signature a w.target.valid))))

-- A record that AttachSignature returns has a signature.
pub attach_signature-signature :
    (ctx : Option Error) (s : Store) (a : SignatureAttachment) (r : AcceptedRecord)
    → (attach_signature ctx s a).1 ≡ ok r
    → is_empty r.signature ≡ false
attach_signature-signature ctx s a r h =
    let w = attach_signature-IsSigned ctx s a r h in
    ap is_empty w.signature ∙ validate_signature_attachment-signature a w.target.valid
