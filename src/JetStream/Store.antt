-- ===== src/JetStream/Store.antt =====
-- internal/relay/jetstream/operations.go: the loop in which the mutations publish, and the reads. A broker
-- accepts a publish if the log still has the revision that was loaded.
use yukh_coordination.Base.{
  ℕ, zero, suc, ◌||◌, Bool, Option, none, some, List, [], ◌∷◌, ltb, text_eq, Text, lookup, Result,
  ok, err, if◌then◌else◌,
}
use yukh_coordination.Relay.{
  Error, ChannelKey, channel_key_eq, Channel, AppendIntent, AcceptedRecord, SignatureAttachment,
  PrepareRecord, Admit, AppendResult, is_empty, is_blank_key, validate_channel,
  validate_checked_append, validate_signature_attachment,
}
use yukh_coordination.Relay.Memory.{window}
use yukh_coordination.JetStream.{Codec, tenant_subject}
use yukh_coordination.JetStream.Reducer.{TenantState, new_tenant_state, apply}
use yukh_coordination.JetStream.Operations.{
  Decision, answer, publish, create_decision, append_decision, attach_decision, view_lookup,
}

-- The messages of a tenant's subject: stream sequences and data.
abbrev pub Log : Type 0
Log = List (ℕ × Text)

-- `load`: the messages are those that the ordered consumer delivers up to the last one of the subject.
module _ (sha256 : Text → Text) (codec : Codec) where
  unfoldable pub replay : TenantState → Text → Log → Result Error TenantState
  replay s subject [] = ok s
  replay s subject ((sequence, data_bytes) ∷ rest) =
      elim (apply sha256 codec s subject sequence data_bytes) [
        | err e ↦ err e
        | ok s' ↦ replay s' subject rest
      ]

  unfoldable pub load : Text → (Text → Result Error Log) → Result Error TenantState
  unfolding replay
  load tenant_id messages = elim (tenant_subject sha256 codec tenant_id) [
    | err e ↦ err e
    | ok subject ↦ elim (messages subject) [
      | err e ↦ err e
      | ok log ↦ replay (new_tenant_state tenant_id) subject log
    ]
  ]

abbrev pub max_mutation_attempts : ℕ
max_mutation_attempts = 64

-- What one round meets: the state or error of `load`, a command identifier, whether the publish is
-- acknowledged, and the error of the context after it.
pub record Round : Type 0 where
  pub loaded : Result Error TenantState
  pub command_id : Option Text
  pub acknowledged : Bool
  pub cancelled : Option Error

-- The loop of the mutations with the rounds that are left: what it has published, with the revision
-- expected, and its answer.
unfoldable pub mutate :
    {A : Type 0}
    → (Option Text → TenantState → Decision A)
    → ℕ
    → (ℕ → Round)
    → List (ℕ × Text) × Result Error A
mutate decide zero rounds = ([], err Error.commit_indeterminate)
mutate decide (suc n) rounds =
    let later = mutate decide n rounds in
    elim (rounds n).loaded [
      | err e ↦ ([], err e)
      | ok s ↦ elim (decide (rounds n).command_id s) [
        | answer r ↦ ([], r)
        | publish data_bytes a ↦
            if (rounds n).acknowledged
            then ((s.revision, data_bytes) ∷ [], ok a)
            else elim (rounds n).cancelled [
              | some e ↦ ((s.revision, data_bytes) ∷ [], err e)
              | none ↦ ((s.revision, data_bytes) ∷ later.0, later.1)
            ]
      ]
    ]

unfoldable pub create_channel :
    Codec → Option Error → Channel → (ℕ → Round) → List (ℕ × Text) × Result Error (Unit {0})
unfolding create_decision mutate
create_channel codec (some e) channel rounds = ([], err e)
create_channel codec none channel rounds = elim (validate_channel channel) [
  | err e ↦ ([], err e)
  | ok _ ↦ mutate (λ id s. create_decision codec id channel s) max_mutation_attempts rounds
]

module _ (sha256 : Text → Text) (codec : Codec) where
  unfoldable pub append_checked :
      Option Error
      → AppendIntent
      → Option Admit
      → Option PrepareRecord
      → (ℕ → Round)
      → List (ℕ × Text) × Result Error AppendResult
  unfolding append_decision mutate
  append_checked (some e) intent admit prepare rounds = ([], err e)
  append_checked none intent admit prepare rounds =
      elim (validate_checked_append intent admit prepare) [
        | err e ↦ ([], err e)
        | ok (a, p) ↦
            mutate (λ id s. append_decision sha256 codec id intent a p s) max_mutation_attempts
              rounds
      ]

  unfoldable pub append :
      Option Error
      → AppendIntent
      → Option PrepareRecord
      → (ℕ → Round)
      → List (ℕ × Text) × Result Error AppendResult
  unfolding append_checked
  append ctx intent prepare rounds = append_checked ctx intent (some (λ view. ok tt)) prepare rounds

  unfoldable pub attach_signature :
      Option Error
      → SignatureAttachment
      → (ℕ → Round)
      → List (ℕ × Text) × Result Error AcceptedRecord
  unfolding attach_decision mutate
  attach_signature (some e) a rounds = ([], err e)
  attach_signature none a rounds = elim (validate_signature_attachment a) [
    | err e ↦ ([], err e)
    | ok _ ↦ mutate (λ id s. attach_decision sha256 codec id a s) max_mutation_attempts rounds
  ]

-- The reads, over what `load` returns.
abbrev pub reading :
    {A : Type 0}
    → Option Error
    → Bool
    → Result Error TenantState
    → (TenantState → Result Error A)
    → Result Error A
reading (some e) bad loaded f = err e
reading none bad loaded f =
    if bad then err Error.invalid_argument else elim loaded [ err e ↦ err e | ok s ↦ f s ]

unfoldable pub lookup_channel :
    Option Error → Result Error TenantState → ChannelKey → Result Error Channel
lookup_channel ctx loaded key = reading ctx (is_blank_key key) loaded λ s.
    elim (lookup key s.transcripts) [ none ↦ err Error.channel_not_found | some t ↦ ok t.channel ]

unfoldable pub lookup_event :
    Option Error → Result Error TenantState → ChannelKey → Text → Result Error AcceptedRecord
unfolding view_lookup
lookup_event ctx loaded key event_id =
    reading ctx (is_blank_key key || is_empty event_id) loaded λ s.
      elim (lookup key s.transcripts) [
        | none ↦ err Error.channel_not_found
        | some t ↦ view_lookup s key event_id
      ]

unfoldable pub read :
    Option Error
    → Result Error TenantState
    → ChannelKey
    → ℕ
    → ℕ
    → Result Error (List AcceptedRecord)
read ctx loaded key after limit =
    reading ctx (is_blank_key key || ltb limit 1 || ltb 1000 limit) loaded λ s.
      elim (lookup key s.transcripts) [
        | none ↦ err Error.channel_not_found
        | some t ↦ ok (window t.records after limit)
      ]
