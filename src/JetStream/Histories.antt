-- ===== src/JetStream/Histories.antt =====
-- internal/relay/jetstream: the logs of a tenant that any clients, at any interleaving, leave. A client
-- publishes on what it has loaded, which others may have added to since; the broker takes a publish if
-- the subject's last sequence is the expected one, and gives it a larger sequence.
use yukh_coordination.Base.{
  ℕ, ◌<◌, ◌≡◌, refl, sym, ap, subst, ◌∙◌, ◌⊎◌, inl, inr, Bool, true, some, [], ◌∷◌, ◌++◌, Text, ok,
  all, arith, Result-cases, Bool-cases, ok-injective, text_eq,
}
use yukh_coordination.Relay.{
  channel_key_eq, Channel, AppendIntent, AcceptedRecord, SignatureAttachment, Admit, PrepareRecord,
  AppendResult, validate_channel, validate_signature_attachment,
}
use yukh_coordination.JetStream.{Codec, decode_command}
use yukh_coordination.JetStream.Commands.{IsCommandId, channel_texts, record_texts, signature_texts}
use yukh_coordination.JetStream.Operations.{
  publish, channel_payload, record_payload, signature_payload, create_decision, append_decision,
  attach_decision,
}
use yukh_coordination.JetStream.Reducer.{TenantState, new_tenant_state, bound, apply_command, apply}
use yukh_coordination.JetStream.Store.{Log, replay}
use yukh_coordination.JetStream.Signatures.{IsSound}

-- The last sequence of the subject; 0 where it has no message.
abbrev pub head_sequence : Log → ℕ
head_sequence [] = 0
head_sequence ((n, data_bytes) ∷ []) = n
head_sequence ((n, data_bytes) ∷ m ∷ log) = head_sequence (m ∷ log)

head_sequence-snoc : (log : Log) (n : ℕ) (x : Text) → head_sequence (log ++ (n, x) ∷ []) ≡ n
head_sequence-snoc [] n x = refl
head_sequence-snoc (m ∷ []) n x = refl
head_sequence-snoc (m ∷ k ∷ log) n x = head_sequence-snoc (k ∷ log) n x

module _ (sha256 : Text → Text) (is_utf8 : Text → Bool) (codec : Codec)
    (tenant subject : Text) where
  -- What a client has loaded when the broker takes its publish.
  pub record IsTaken (log loaded later : Log) (s : TenantState) (sequence : ℕ) (id : Text)
      : Type 0 where
    pub prefix : loaded ++ later ≡ log
    pub reduced : replay sha256 codec (new_tenant_state tenant) subject loaded ≡ ok s
    pub expected : head_sequence log ≡ s.revision
    pub newer : head_sequence log < sequence
    pub version : IsCommandId is_utf8 codec id

  -- The logs that the mutations leave. Each constructor is one publish that the broker has taken.
  pub data Reaches : Log → Type 0 where
    start : Reaches []
    channel :
        {log loaded later : Log} {s : TenantState} {n : ℕ} {id raw : Text} (c : Channel)
        → Reaches log
        → IsTaken log loaded later s n id
        → c.key.tenant_id ≡ tenant
        → validate_channel c ≡ ok tt
        → all is_utf8 (c.key.tenant_id ∷ channel_texts (channel_payload codec c)) ≡ true
        → create_decision codec (some id) c s ≡ publish raw tt
        → Reaches (log ++ (n, raw) ∷ [])
    record_ :
        {log loaded later : Log} {s : TenantState} {n : ℕ} {id raw : Text} (intent : AppendIntent)
        (admit : Admit) (prepare : PrepareRecord) (result : AppendResult)
        → Reaches log
        → IsTaken log loaded later s n id
        → intent.channel.tenant_id ≡ tenant
        → all is_utf8 (tenant ∷ record_texts (record_payload codec result.1)) ≡ true
        → append_decision sha256 codec (some id) intent admit prepare s ≡ publish raw result
        → Reaches (log ++ (n, raw) ∷ [])
    signature :
        {log loaded later : Log} {s : TenantState} {n : ℕ} {id raw : Text} (a : SignatureAttachment)
        (result : AcceptedRecord)
        → Reaches log
        → IsTaken log loaded later s n id
        → a.channel.tenant_id ≡ tenant
        → validate_signature_attachment a ≡ ok tt
        → all is_utf8 (tenant ∷ signature_texts (signature_payload sha256 codec a)) ≡ true
        → attach_decision sha256 codec (some id) a s ≡ publish raw result
        → Reaches (log ++ (n, raw) ∷ [])

  -- What the reduction of a log leaves.
  pub record IsReduced (log : Log) (s : TenantState) : Type 0 where
    pub reduces : replay sha256 codec (new_tenant_state tenant) subject log ≡ ok s
    pub owner : s.tenant_id ≡ tenant
    pub head : s.revision ≡ head_sequence log
    pub sound : IsSound s

  pub replay-append :
      (s t : TenantState) (a b : Log)
      → replay sha256 codec s subject a ≡ ok t
      → replay sha256 codec s subject (a ++ b) ≡ replay sha256 codec t subject b
  unfolding replay
  replay-append s t [] b h = ap (λ x. replay sha256 codec x subject b) (ok-injective s t h)
  replay-append s t ((n, x) ∷ a) b h = elim (Result-cases (apply sha256 codec s subject n x)) [
    | inl (e, p) ↦ absurd (ground (arith, p, h))
    | inr (m, p) ↦ rw (p, replay) (replay-append m t a b (rw (p, replay) at h))
  ]

  apply-newer :
      (s t : TenantState) (n : ℕ) (raw : Text)
      → apply sha256 codec s subject n raw ≡ ok t
      → (s.revision < n) × (t.revision ≡ n)
  unfolding apply
  apply-newer s t n raw h = elim (Result-cases (decode_command codec raw)) [
    | inl (e, a) ↦ absurd (ground (arith, a, h))
    | inr (c, a) ↦ elim (Bool-cases (bound sha256 codec s subject n c)) [
      | inr b ↦ absurd (ground (arith, a, b, h))
      | inl b ↦ elim (Result-cases (apply_command sha256 codec s c)) [
        | inl (e, d) ↦ absurd (ground (arith, a, b, d, h))
        | inr (m, d) ↦
            let made : apply sha256 codec s subject n raw ≡ ok (record m { revision = n }) =
              rw (a, apply) (rw b (rw d refl)) in
            (
              ground (arith, b),
              ap (λ x. x.revision) (ok-injective t (record m { revision = n }) (sym h ∙ made)),
            )
      ]
    ]
  ]

  replay-newer :
      (s t : TenantState) (log : Log)
      → replay sha256 codec s subject log ≡ ok t
      → (log ≡ []) ⊎ (s.revision < t.revision)
  unfolding replay
  replay-newer s t [] h = inl refl
  replay-newer s t ((n, x) ∷ log) h = elim (Result-cases (apply sha256 codec s subject n x)) [
    | inl (e, p) ↦ absurd (ground (arith, p, h))
    | inr (m, p) ↦
        let (older, at_n) = apply-newer s m n x p in
        let rest : replay sha256 codec m subject log ≡ ok t = rw (p, replay) at h in
        elim (replay-newer m t log rest) [
          | inl none_left ↦
              let same =
                ok-injective m t
                  (subst (λ l. replay sha256 codec m subject l ≡ ok t) none_left rest) in
              inr (omega (arith, older, at_n, ap (λ x. x.revision) same))
          | inr more ↦ inr (omega (arith, older, at_n, more))
        ]
  ]

  append-nil : (log : Log) → log ++ [] ≡ log
  append-nil [] = refl
  append-nil (m ∷ log) = ap (λ l. m ∷ l) (append-nil log)

  -- The broker takes a publish only on the whole of the log.
  pub taken_state :
      (log loaded later : Log) (s t : TenantState) (n : ℕ) (id : Text)
      → IsReduced log t
      → IsTaken log loaded later s n id
      → s ≡ t
  unfolding replay
  taken_state log loaded later s t n id w k =
      let whole =
        sym (replay-append (new_tenant_state tenant) s loaded later k.reduced)
        ∙ (ap (λ l. replay sha256 codec (new_tenant_state tenant) subject l) k.prefix
            ∙ w.reduces) in
      elim (replay-newer s t later whole) [
        | inl nothing ↦
            ok-injective s t (subst (λ l. replay sha256 codec s subject l ≡ ok t) nothing whole)
        | inr more ↦ absurd (omega (arith, more, k.expected, w.head))
      ]

  -- One more command at the end of a log that reduces.
  pub extend :
      (log : Log) (s t : TenantState) (n : ℕ) (raw : Text)
      → IsReduced log s
      → apply sha256 codec s subject n raw ≡ ok (record t { revision = n })
      → t.tenant_id ≡ tenant
      → IsSound t
      → IsReduced (log ++ (n, raw) ∷ []) (record t { revision = n })
  unfolding replay
  extend log s t n raw w applied own sound = record {
    reduces =
        replay-append (new_tenant_state tenant) s log ((n, raw) ∷ []) w.reduces
        ∙ rw (applied, replay) refl;
    owner = own;
    head = sym (head_sequence-snoc log n raw);
    sound = λ id r h.
        (let x = sound id r h in
          record {
            transcript = x.transcript;
            found = x.found;
            numbered = x.numbered;
            within = x.within;
          });
  }
