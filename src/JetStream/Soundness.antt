-- ===== src/JetStream/Soundness.antt =====
-- internal/relay/jetstream/reducer.go: the writes of the reducer keep every receipt in its transcript.
use yukh_coordination.Base.{
  ◌+◌, ◌-◌, ◌≤◌, ◌≡◌, refl, sym, ap, subst, ◌∙◌, inl, inr, none, some, [], ◌∷◌, ◌++◌, ◌==◌, eq→≡,
  lookup, insert, lookup-insert, lookup-insert-some, lookup-insert_self, length, set, arith,
  Bool-cases, length-append, length-set, text_eq,
}
use yukh_coordination.Relay.{channel_key_eq, Channel, AcceptedRecord, ChannelKey}
use yukh_coordination.Relay.Memory.{Transcript}
use yukh_coordination.JetStream.Reducer.{TenantState, with_channel, with_record, with_signature}
use yukh_coordination.JetStream.Signatures.{IsHeld, IsSound}

-- A write of a transcript that is no shorter than the one before.
IsHeld-grown :
    (s s' : TenantState) (key : ChannelKey) (t t' : Transcript) (r : AcceptedRecord)
    → s'.transcripts ≡ insert key t' s.transcripts
    → lookup key s.transcripts ≡ some t
    → length t.records ≤ length t'.records
    → IsHeld s r
    → IsHeld s' r
IsHeld-grown s s' key t t' r e here longer w =
    let after = ap (lookup r.channel) e ∙ lookup-insert key r.channel t' s.transcripts in
    elim (Bool-cases (key == r.channel)) [
      | inl same ↦
          let there : lookup r.channel s'.transcripts ≡ some t' = after ∙ rw same refl in
          let old : some w.transcript ≡ some t =
            sym w.found
            ∙ (ap (λ k. lookup k s.transcripts) (sym (eq→≡ key r.channel same)) ∙ here) in
          let sized : length w.transcript.records ≡ length t.records = ground (arith, old) in
          record {
            transcript = t';
            found = there;
            numbered = w.numbered;
            within = omega (arith, w.within, sized, longer);
          }
      | inr other ↦ record {
        transcript = w.transcript;
        found = after ∙ rw other w.found;
        numbered = w.numbered;
        within = w.within;
      }
    ]

-- A write of a transcript for a new key.
IsHeld-added :
    (s s' : TenantState) (key : ChannelKey) (t' : Transcript) (r : AcceptedRecord)
    → s'.transcripts ≡ insert key t' s.transcripts
    → lookup key s.transcripts ≡ none
    → IsHeld s r
    → IsHeld s' r
IsHeld-added s s' key t' r e absent w =
    let after = ap (lookup r.channel) e ∙ lookup-insert key r.channel t' s.transcripts in
    elim (Bool-cases (key == r.channel)) [
      | inl same ↦
          let old : some w.transcript ≡ none =
            sym w.found
            ∙ (ap (λ k. lookup k s.transcripts) (sym (eq→≡ key r.channel same)) ∙ absent) in
          absurd (ground (arith, old))
      | inr other ↦ record {
        transcript = w.transcript;
        found = after ∙ rw other w.found;
        numbered = w.numbered;
        within = w.within;
      }
    ]

pub with_channel-IsSound :
    (s : TenantState) (c : Channel)
    → IsSound s
    → lookup c.key s.transcripts ≡ none
    → IsSound (with_channel s c)
with_channel-IsSound s c sound absent id r h =
    IsHeld-added s (with_channel s c) c.key (record { channel = c; records = [] }) r refl absent
      (sound id r h)

-- A record that is written under its receipt, with its transcript.
indexed-IsSound :
    (s s' : TenantState) (t t' : Transcript) (r : AcceptedRecord)
    → IsSound s
    → s'.transcripts ≡ insert r.channel t' s.transcripts
    → s'.receipts ≡ insert r.receipt_id r s.receipts
    → lookup r.channel s.transcripts ≡ some t
    → length t.records ≤ length t'.records
    → 1 ≤ r.sequence
    → r.sequence ≤ length t'.records
    → IsSound s'
indexed-IsSound s s' t t' r sound e f here longer numbered within id x h =
    elim (lookup-insert-some r.receipt_id id r x s.receipts (ap (lookup id) (sym f) ∙ h)) [
      | inl (_, same) ↦
          subst (λ y. IsHeld s' y) same
            (record {
              transcript = t';
              found = ap (lookup r.channel) e ∙ lookup-insert_self r.channel t' s.transcripts;
              numbered = numbered;
              within = within;
            })
      | inr (_, old) ↦ IsHeld-grown s s' r.channel t t' x e here longer (sound id x old)
    ]

pub with_record-IsSound :
    (s : TenantState) (t : Transcript) (r : AcceptedRecord)
    → IsSound s
    → lookup r.channel s.transcripts ≡ some t
    → r.sequence ≡ length t.records + 1
    → IsSound (with_record s t r)
with_record-IsSound s t r sound here at_end =
    let size = length-append t.records (r ∷ []) in
    indexed-IsSound s (with_record s t r) t (record t { records = t.records ++ r ∷ [] }) r sound
      refl refl here (omega (arith, size)) (omega (arith, at_end)) (omega (arith, size, at_end))

pub with_signature-IsSound :
    (s : TenantState) (t : Transcript) (r : AcceptedRecord)
    → IsSound s
    → lookup r.channel s.transcripts ≡ some t
    → 1 ≤ r.sequence
    → r.sequence ≤ length t.records
    → IsSound (with_signature s t r)
with_signature-IsSound s t r sound here numbered within =
    let size = length-set t.records (r.sequence - 1) r in
    indexed-IsSound s (with_signature s t r) t
      (record t { records = set t.records (r.sequence - 1) r }) r sound refl refl here
      (omega (arith, size)) numbered (omega (arith, size, within))
