-- ===== src/Relay/Memory/Cases.antt =====
-- How the methods of the relay store in memory end: one rule for each, with what its guards tell.
use yukh_coordination.Base.{
  ℕ, ◌+◌, ◌≡◌, inl, inr, not, ◌||◌, Option, none, some, [], arith, ◌!=◌, nat_eq, text_eq, Text,
  lookup, Result, ok, err, if◌then◌else◌, length, Bool-cases, Option-cases, Result-cases,
}
use yukh_coordination.Relay.{
  Error, channel_key_eq, Channel, AppendIntent, AcceptedRecord, SignatureAttachment, PrepareRecord,
  Admit, AppendOutcome, AppendResult, is_empty, validate_channel, same_channel,
  validate_checked_append, validate_append_intent, validate_intent, event_digest_of,
  validate_prepared_record, validate_signature_attachment,
}
use yukh_coordination.Relay.Memory.{
  Transcript, channel_identity_eq, Store, identity_of, find_event, uri_differs, created,
  create_channel, admission_view, committed, append_prepared, append_in, append_checked,
  find_receipt, signed, attach_to, attach_signature,
}

-- The record says what was asked, at the sequence and with the digest that it was given.
pub record Matches (intent : AppendIntent) (sequence : ℕ) (digest : Text) (r : AcceptedRecord)
    : Type 0 where
  pub channel : r.channel ≡ intent.channel
  pub sequence_is : r.sequence ≡ sequence
  pub event_id : r.event_id ≡ intent.event_id
  pub canonical_event : r.canonical_event ≡ intent.canonical_event
  pub event_digest : r.event_digest ≡ digest

pub validate_prepared_record-Matches :
    (intent : AppendIntent) (n : ℕ) (d : Text) (r : AcceptedRecord)
    → validate_prepared_record intent n d r ≡ ok tt
    → Matches intent n d r
unfolding validate_prepared_record
validate_prepared_record-Matches intent n d r h = record {
  channel = ground arith;
  sequence_is = ground arith;
  event_id = ground arith;
  canonical_event = ground arith;
  event_digest = ground arith;
}

validate_checked_append-ok :
    (intent : AppendIntent) (admit : Option Admit) (prepare : Option PrepareRecord) (a : Admit)
    (p : PrepareRecord)
    → validate_checked_append intent admit prepare ≡ ok (a, p)
    → validate_intent intent ≡ ok tt
unfolding validate_checked_append validate_append_intent
validate_checked_append-ok intent none prepare a p h = absurd (cc)
validate_checked_append-ok intent (some ad) prepare a p h =
    elim (Result-cases (validate_intent intent)) [
      | inl (e, b) ↦ absurd (ground (arith, h, b))
      | inr (tt, b) ↦ b
    ]

pub create_channel_cases {ℓ} :
    (P : Store × Result Error (Unit {0}) → Type ℓ) (ctx : Option Error) (s : Store)
    (channel : Channel)
    → ((res : Result Error (Unit {0})) → P (s, res))
    → (lookup channel.key s.transcripts ≡ none → P (created s channel, ok tt))
    → P (create_channel ctx s channel)
unfolding create_channel
create_channel_cases P (some e) s channel kept done = kept (err e)
create_channel_cases P none s channel kept done = elim (Result-cases (validate_channel channel)) [
  | inl (e, a) ↦ rw (a, create_channel) (kept (err e))
  | inr (u, a) ↦
      elim (Bool-cases
        (uri_differs (lookup (identity_of channel.key) s.channel_uris) channel.uri)) [
          | inl b ↦ rw (a, create_channel) (rw b (kept (err Error.channel_conflict)))
          | inr b ↦ elim (Option-cases (lookup channel.key s.transcripts)) [
            | inl c ↦ rw (a, create_channel) (rw b (rw c (done c)))
            | inr (t, c) ↦
                rw (a, create_channel)
                  (rw b (
                    rw c (
                      kept (
                        if same_channel t.channel channel
                        then ok tt
                        else err Error.channel_conflict))))
          ]
        ]
]

module _ (sha256 : Text → Text) where
  in_transcript {ℓ} :
      (P : Store × Result Error AppendResult → Type ℓ) (s : Store) (intent : AppendIntent)
      (admit : Admit) (prepare : PrepareRecord) (t : Transcript)
      → ((e : Error) → P (s, err e))
      → ((r : AcceptedRecord)
          → find_event intent.channel intent.event_id s ≡ some r
          → r.channel ≡ intent.channel
          → r.canonical_event ≡ intent.canonical_event
          → P (s, ok (AppendOutcome.duplicate, r)))
      → ((r : AcceptedRecord)
          → find_event intent.channel intent.event_id s ≡ none
          → Matches intent (length t.records + 1) (event_digest_of sha256 intent.canonical_event) r
          → P (committed s intent.channel t r, ok (AppendOutcome.appended, r)))
      → P (append_in sha256 s intent admit prepare t)
  in_transcript P s intent admit prepare t refused repeated done =
      elim (Option-cases (find_event intent.channel intent.event_id s)) [
        | inr (r, a) ↦
            elim (Bool-cases
              (r.channel != intent.channel || r.canonical_event != intent.canonical_event)) [
                | inl b ↦ rw (a, append_in) (rw b (refused Error.event_id_collision))
                | inr b ↦ rw (a, append_in) (rw b (repeated r a (ground arith) (ground arith)))
              ]
        | inl a ↦ elim (Result-cases (admit (admission_view s intent.channel t))) [
          | inl (e, b) ↦ rw (a, append_in) (rw b (refused e))
          | inr (u, b) ↦
              elim (Result-cases
                (prepare (length t.records + 1) (event_digest_of sha256 intent.canonical_event))) [
                  | inl (e, c) ↦ rw (a, append_in) (rw b (rw (c, append_prepared) (refused e)))
                  | inr (r, c) ↦
                      elim (Result-cases (
                        validate_prepared_record intent (length t.records + 1)
                          (event_digest_of sha256 intent.canonical_event) r)) [
                            | inl (e, d) ↦
                                rw (a, append_in)
                                  (rw b (rw (c, append_prepared) (rw d (refused e))))
                            | inr (v, d) ↦
                                rw (a, append_in)
                                  (rw b (
                                    rw (c, append_prepared)
                                      (rw d (
                                        done r a
                                          (validate_prepared_record-Matches intent _ _ r d)))))
                          ]
                ]
        ]
      ]

  pub append_checked_cases {ℓ} :
      (P : Store × Result Error AppendResult → Type ℓ) (ctx : Option Error) (s : Store)
      (intent : AppendIntent) (admit : Option Admit) (prepare : Option PrepareRecord)
      → ((e : Error) → P (s, err e))
      → ((t : Transcript) (r : AcceptedRecord)
          → validate_intent intent ≡ ok tt
          → lookup intent.channel s.transcripts ≡ some t
          → find_event intent.channel intent.event_id s ≡ some r
          → r.channel ≡ intent.channel
          → r.canonical_event ≡ intent.canonical_event
          → P (s, ok (AppendOutcome.duplicate, r)))
      → ((t : Transcript) (r : AcceptedRecord)
          → validate_intent intent ≡ ok tt
          → lookup intent.channel s.transcripts ≡ some t
          → find_event intent.channel intent.event_id s ≡ none
          → Matches intent (length t.records + 1) (event_digest_of sha256 intent.canonical_event) r
          → P (committed s intent.channel t r, ok (AppendOutcome.appended, r)))
      → P (append_checked sha256 ctx s intent admit prepare)
  unfolding append_checked
  append_checked_cases P (some e) s intent admit prepare refused repeated done = refused e
  append_checked_cases P none s intent admit prepare refused repeated done =
      elim (Result-cases (validate_checked_append intent admit prepare)) [
        | inl (e, a) ↦ rw (a, append_checked) (refused e)
        | inr ((ad, p), a) ↦ elim (Option-cases (lookup intent.channel s.transcripts)) [
          | inl b ↦ rw (a, append_checked) (rw b (refused Error.channel_not_found))
          | inr (t, b) ↦
              rw (a, append_checked)
                (rw b (
                  in_transcript P s intent ad p t refused
                    (λ r. repeated t r (validate_checked_append-ok intent admit prepare ad p a) b)
                    (λ r. done t r (validate_checked_append-ok intent admit prepare ad p a) b)))
        ]
      ]

-- What the guards of AttachSignature tell of the record that it finds.
pub record Target (s : Store) (a : SignatureAttachment) (t : Transcript) (i : ℕ)
    (r : AcceptedRecord) : Type 0 where
  pub valid : validate_signature_attachment a ≡ ok tt
  pub found : lookup a.channel s.transcripts ≡ some t
  pub at : find_receipt a.receipt_id t.records ≡ some (i, r)
  pub preimage : r.unsigned_receipt_preimage ≡ a.unsigned_receipt_preimage

attach_to_cases {ℓ} :
    (P : Store × Result Error AcceptedRecord → Type ℓ) (s : Store) (a : SignatureAttachment)
    (t : Transcript) (i : ℕ) (r : AcceptedRecord)
    → ((e : Error) → P (s, err e))
    → (r.unsigned_receipt_preimage ≡ a.unsigned_receipt_preimage
        → r.signature ≡ a.signature
        → P (s, ok r))
    → (r.unsigned_receipt_preimage ≡ a.unsigned_receipt_preimage
        → r.signature ≡ []
        → P (
          signed s a.channel t i (record r { signature = a.signature }),
          ok (record r { signature = a.signature }),
        ))
    → P (attach_to s a t i r)
attach_to_cases P s a t i r refused repeated done =
    elim (Bool-cases (r.unsigned_receipt_preimage != a.unsigned_receipt_preimage)) [
      | inl f ↦ rw (f, attach_to) (refused Error.signature_collision)
      | inr f ↦ elim (Bool-cases (not (is_empty r.signature))) [
        | inl g ↦ elim (Bool-cases (r.signature != a.signature)) [
          | inl k ↦ rw (f, attach_to) (rw g (rw k (refused Error.signature_collision)))
          | inr k ↦ rw (f, attach_to) (rw g (rw k (repeated (ground arith) (ground arith))))
        ]
        | inr g ↦ rw (f, attach_to) (rw g (done (ground arith) (ground arith)))
      ]
    ]

pub attach_signature_cases {ℓ} :
    (P : Store × Result Error AcceptedRecord → Type ℓ) (ctx : Option Error) (s : Store)
    (a : SignatureAttachment)
    → ((e : Error) → P (s, err e))
    → ((t : Transcript) (i : ℕ) (r : AcceptedRecord)
        → Target s a t i r
        → r.signature ≡ a.signature
        → P (s, ok r))
    → ((t : Transcript) (i : ℕ) (r : AcceptedRecord)
        → Target s a t i r
        → r.signature ≡ []
        → P (
          signed s a.channel t i (record r { signature = a.signature }),
          ok (record r { signature = a.signature }),
        ))
    → P (attach_signature ctx s a)
unfolding attach_signature
attach_signature_cases P (some e) s a refused repeated done = refused e
attach_signature_cases P none s a refused repeated done =
    elim (Result-cases (validate_signature_attachment a)) [
      | inl (e, b) ↦ rw (b, attach_signature) (refused e)
      | inr (tt, b) ↦ elim (Option-cases (lookup a.channel s.transcripts)) [
        | inl c ↦ rw (b, attach_signature) (rw c (refused Error.receipt_not_found))
        | inr (t, c) ↦ elim (Option-cases (find_receipt a.receipt_id t.records)) [
          | inl d ↦ rw (b, attach_signature) (rw c (rw d (refused Error.receipt_not_found)))
          | inr ((i, r), d) ↦
              rw (b, attach_signature)
                (rw c (
                  rw d (
                    attach_to_cases P s a t i r refused
                      (λ p. repeated t i r (record { valid = b; found = c; at = d; preimage = p }))
                      (λ p. done t i r (record { valid = b; found = c; at = d; preimage = p })))))
        ]
      ]
    ]
