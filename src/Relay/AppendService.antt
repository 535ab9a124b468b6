-- ===== src/Relay/AppendService.antt =====
-- internal/relay/service/append.go: append and sign. The store is the one in memory; the signer and
-- SHA-256 are parameters. `ctx` gives the error of the context at each call of the store, in order, and
-- `others` is what other clients do to the store between the calls: before AppendChecked, and before
-- AttachSignature.
pub mod Admitted
use yukh_coordination.Base.{
  ℕ, Bool, true, false, not, ◌||◌, Option, none, some, ◌≡◌, inl, inr, arith, Text, text_eq, Result,
  ok, err, if◌then◌else◌, ◌!=◌, Result-cases, Option-cases, Bool-cases, subst,
}
use yukh_coordination.Relay.{
  Error, AppendIntent, AcceptedRecord, Admit, AppendOutcome, AppendResult, SignatureAttachment,
  channel_key_eq, is_empty, validate_intent,
}
use yukh_coordination.Relay as Relay
use yukh_coordination.Relay.Memory.{Store, lookup_event, attach_signature}
use yukh_coordination.Relay.Memory as Memory
use yukh_coordination.Relay.Memory.Signatures.{attach_signature-signature}

pub record SigningSelection : Type 0 where
  pub key_id : Text
  pub algorithm : Text

abbrev pub PrepareSelected : Type 0
PrepareSelected = ℕ → Text → SigningSelection → Result Error AcceptedRecord

-- The callback that the service passes on to the store.
abbrev pub bound_prepare : PrepareSelected → SigningSelection → Relay.PrepareRecord
bound_prepare prepare selection sequence digest = elim (prepare sequence digest selection) [
  | err e ↦ err e
  | ok r ↦
      if r.signing_key_id != selection.key_id || r.signature_algorithm != selection.algorithm
      then err Error.invalid_argument
      else ok r
]

-- `errors.Is(err, relay.ErrEventNotFound)`
abbrev pub is_not_found : Error → Bool
is_not_found Error.event_not_found = true
is_not_found _ = false

-- A success carries a signed record.
abbrev IsSigned : Store × Result Error AppendResult → Type 0
IsSigned (s, err e) = Unit
IsSigned (s, ok (o, x)) = is_empty x.signature ≡ false

module _ (sha256 : Text → Text) (select : Result Error SigningSelection)
    (sign : AcceptedRecord → Option Text) (others : ℕ → Store → Store) where
  abbrev pub attachment_of : AcceptedRecord → Text → SignatureAttachment
  attachment_of r signature = record {
    channel = r.channel;
    receipt_id = r.receipt_id;
    unsigned_receipt_preimage = r.unsigned_receipt_preimage;
    signature = signature;
  }

  -- ensureSigned
  unfoldable pub ensure_signed :
      Option Error → Store → AppendOutcome → AcceptedRecord → Store × Result Error AppendResult
  ensure_signed ctx s o r = if not (is_empty r.signature) then (s, ok (o, r)) else elim (sign r) [
    | none ↦ (s, err Error.signature_pending)
    | some signature ↦
        let (s', signed) = attach_signature ctx (others 1 s) (attachment_of r signature) in
        (s', elim signed [ err _ ↦ err Error.signature_pending | ok x ↦ ok (o, x) ])
  ]

  -- From the selection of a key on.
  abbrev pub append_new :
      (ℕ → Option Error)
      → Store
      → AppendIntent
      → Admit
      → PrepareSelected
      → Store × Result Error AppendResult
  append_new ctx s intent admit prepare = elim select [
    | err e ↦ (s, err e)
    | ok selection ↦
        if is_empty selection.key_id || is_empty selection.algorithm
        then (s, err Error.invalid_argument)
        else let (s', r) =
            Memory.append_checked sha256 (ctx 1) (others 0 s) intent (some admit)
              (some (bound_prepare prepare selection)) in
          elim r [ err e ↦ (s', err e) | ok (o, x) ↦ ensure_signed (ctx 2) s' o x ]
  ]

  abbrev pub append_valid :
      (ℕ → Option Error)
      → Store
      → AppendIntent
      → Admit
      → PrepareSelected
      → Store × Result Error AppendResult
  append_valid ctx s intent admit prepare =
      elim (lookup_event (ctx 0) s intent.channel intent.event_id) [
        | ok existing ↦
            if existing.channel != intent.channel
              || existing.canonical_event != intent.canonical_event
            then (s, err Error.event_id_collision)
            else ensure_signed (ctx 1) s AppendOutcome.duplicate existing
        | err e ↦ if is_not_found e then append_new ctx s intent admit prepare else (s, err e)
      ]

  -- A nil callback is `none`.
  unfoldable pub append_signed :
      (ℕ → Option Error)
      → Store
      → AppendIntent
      → Option Admit
      → Option PrepareSelected
      → Store × Result Error AppendResult
  append_signed ctx s intent none prepare = (s, err Error.invalid_argument)
  append_signed ctx s intent (some admit) none = (s, err Error.invalid_argument)
  append_signed ctx s intent (some admit) (some prepare) = elim (validate_intent intent) [
    | err e ↦ (s, err e)
    | ok _ ↦ append_valid ctx s intent admit prepare
  ]

  ensure_signed-IsSigned :
      (ctx : Option Error) (s : Store) (o : AppendOutcome) (r : AcceptedRecord)
      → IsSigned (ensure_signed ctx s o r)
  unfolding ensure_signed
  ensure_signed-IsSigned ctx s o r = elim (Bool-cases (not (is_empty r.signature))) [
    | inl a ↦ rw (a, ensure_signed) (ground (arith, a))
    | inr a ↦ elim (Option-cases (sign r)) [
      | inl b ↦ rw (a, ensure_signed) (rw b tt)
      | inr (signature, b) ↦
          elim (Result-cases (attach_signature ctx (others 1 s) (attachment_of r signature)).1) [
            | inl (e, c) ↦ rw (a, ensure_signed) (rw b (rw c tt))
            | inr (x, c) ↦
                rw (a, ensure_signed)
                  (rw b (
                    rw c (
                      attach_signature-signature ctx (others 1 s) (attachment_of r signature) x c)))
          ]
    ]
  ]

  append_new-IsSigned :
      (ctx : ℕ → Option Error) (s : Store) (intent : AppendIntent) (admit : Admit)
      (prepare : PrepareSelected)
      → IsSigned (append_new ctx s intent admit prepare)
  append_new-IsSigned ctx s intent admit prepare = elim (Result-cases select) [
    | inl (e, a) ↦ rw (a, append_new) tt
    | inr (selection, a) ↦
        elim (Bool-cases (is_empty selection.key_id || is_empty selection.algorithm)) [
          | inl b ↦ rw (a, append_new) (rw b tt)
          | inr b ↦
              let stored =
                Memory.append_checked sha256 (ctx 1) (others 0 s) intent (some admit)
                  (some (bound_prepare prepare selection)) in
              elim (Result-cases (stored.1)) [
                | inl (e, c) ↦ rw (a, append_new) (rw b (rw c tt))
                | inr ((o, x), c) ↦
                    rw (a, append_new) (rw b (rw c (ensure_signed-IsSigned (ctx 2) (stored.0) o x)))
              ]
        ]
  ]

  append_valid-IsSigned :
      (ctx : ℕ → Option Error) (s : Store) (intent : AppendIntent) (admit : Admit)
      (prepare : PrepareSelected)
      → IsSigned (append_valid ctx s intent admit prepare)
  append_valid-IsSigned ctx s intent admit prepare =
      elim (Result-cases (lookup_event (ctx 0) s intent.channel intent.event_id)) [
        | inl (e, a) ↦ elim (Bool-cases (is_not_found e)) [
          | inl b ↦ rw (a, append_valid) (rw b (append_new-IsSigned ctx s intent admit prepare))
          | inr b ↦ rw (a, append_valid) (rw b tt)
        ]
        | inr (existing, a) ↦
            elim (Bool-cases (
              existing.channel != intent.channel
              || existing.canonical_event != intent.canonical_event)) [
                | inl b ↦ rw (a, append_valid) (rw b tt)
                | inr b ↦
                    rw (a, append_valid)
                      (rw b (ensure_signed-IsSigned (ctx 1) s AppendOutcome.duplicate existing))
              ]
      ]

  append_signed-IsSigned :
      (ctx : ℕ → Option Error) (s : Store) (intent : AppendIntent) (admit : Option Admit)
      (prepare : Option PrepareSelected)
      → IsSigned (append_signed ctx s intent admit prepare)
  unfolding append_signed
  append_signed-IsSigned ctx s intent none prepare = tt
  append_signed-IsSigned ctx s intent (some admit) none = tt
  append_signed-IsSigned ctx s intent (some admit) (some prepare) =
      elim (Result-cases (validate_intent intent)) [
        | inl (e, a) ↦ rw (a, append_signed) tt
        | inr (u, a) ↦ rw (a, append_signed) (append_valid-IsSigned ctx s intent admit prepare)
      ]

  -- Whatever the store holds, other clients do to it between the calls, and the signer and the callbacks answer, an append that reports success,
  -- as appended or as a duplicate, returns a record with a signature.
  pub append_signed-signature :
      (ctx : ℕ → Option Error) (s s' : Store) (intent : AppendIntent) (admit : Option Admit)
      (prepare : Option PrepareSelected) (o : AppendOutcome) (r : AcceptedRecord)
      → append_signed ctx s intent admit prepare ≡ (s', ok (o, r))
      → is_empty r.signature ≡ false
  append_signed-signature ctx s s' intent admit prepare o r h =
      subst IsSigned h (append_signed-IsSigned ctx s intent admit prepare)
