-- ===== src/Relay/Memory/Retries.antt =====
-- What a second AppendChecked does with an event id that a first one has written.
use yukh_coordination.Base.{
  ◌≡◌, refl, sym, ap, ◌∙◌, Bool, true, false, ◌||◌, Option, none, some, [], ◌∷◌, ◌++◌, arith, ◌!=◌,
  text_eq, Text, lookup, ok, err, if◌then◌else◌, ok-injective, lookup-insert_self, subst,
}
use yukh_coordination.Relay.{
  Error, channel_key_eq, AppendIntent, AcceptedRecord, PrepareRecord, Admit, AppendOutcome,
  validate_intent, validate_append_intent, validate_checked_append,
}
use yukh_coordination.Relay.Memory.{
  Transcript, Store, identity_of, find_event, append_in, append_checked,
}
use yukh_coordination.Relay.Memory.Writes.{find_event-written_self, find_event-congr}
use yukh_coordination.Relay.Memory.Cases.{append_checked_cases}

-- A successful append leaves its record in the index and its channel with a transcript.
pub record Holds (s : Store) (intent : AppendIntent) (r : AcceptedRecord) : Type 0 where
  pub valid : validate_intent intent ≡ ok tt
  pub transcript : Transcript
  pub found : lookup intent.channel s.transcripts ≡ some transcript
  pub indexed : find_event intent.channel intent.event_id s ≡ some r
  pub channel : r.channel ≡ intent.channel
  pub canonical_event : r.canonical_event ≡ intent.canonical_event

if_pair {ℓ} :
    {A B : Type ℓ} (a : A) (c : Bool) (x y : B)
    → ◌≡◌ {A = A × B} (if c then (a, x) else (a, y)) (a, if c then x else y)
if_pair a true x y = refl
if_pair a false x y = refl

module _ (sha256 : Text → Text) where
  -- The second call, once the event id is found.
  append_checked-found :
      (s : Store) (intent : AppendIntent) (admit : Admit) (prepare : PrepareRecord) (t : Transcript)
      (r : AcceptedRecord)
      → validate_intent intent ≡ ok tt
      → lookup intent.channel s.transcripts ≡ some t
      → find_event intent.channel intent.event_id s ≡ some r
      → append_checked sha256 none s intent (some admit) (some prepare) ≡ (
          if r.channel != intent.channel || r.canonical_event != intent.canonical_event
          then (s, err Error.event_id_collision)
          else (s, ok (AppendOutcome.duplicate, r)))
  unfolding append_checked validate_checked_append validate_append_intent
  append_checked-found s intent admit prepare t r valid found at =
      rw (valid, append_checked) (rw found (rw (at, append_in) refl))

  append_checked-Holds :
      (ctx : Option Error) (s : Store) (intent : AppendIntent) (admit : Option Admit)
      (prepare : Option PrepareRecord) (o : AppendOutcome) (r : AcceptedRecord)
      → (append_checked sha256 ctx s intent admit prepare).1 ≡ ok (o, r)
      → Holds ((append_checked sha256 ctx s intent admit prepare).0) intent r
  append_checked-Holds ctx s intent admit prepare o r =
      append_checked_cases sha256 (λ p. p.1 ≡ ok (o, r) → Holds p.0 intent r) ctx s intent admit
        prepare (λ e h. absurd (cc))
        (λ t r' valid found at c b h.
          let e = ap (λ p. p.1) (ok-injective _ _ h) in
          record {
            valid = valid;
            transcript = t;
            found = found;
            indexed = at ∙ ap some e;
            channel = ap (λ x. x.channel) (sym e) ∙ c;
            canonical_event = ap (λ x. x.canonical_event) (sym e) ∙ b;
          })
        (λ t r' valid found fresh m h.
          let e = ap (λ p. p.1) (ok-injective _ _ h) in
          record {
            valid = valid;
            transcript = record t { records = t.records ++ r' ∷ [] };
            found = lookup-insert_self intent.channel _ s.transcripts;
            indexed =
                find_event-written_self intent.channel intent.channel intent.event_id r' s refl
                  m.event_id
                ∙ ap some e;
            channel = ap (λ x. x.channel) (sym e) ∙ m.channel;
            canonical_event = ap (λ x. x.canonical_event) (sym e) ∙ m.canonical_event;
          })

  -- Once an append has succeeded with record `r`, an append to a transcript of the same tenant and channel,
  -- in whatever epoch, with the same event id leaves the store as it is, whatever its callbacks would say:
  -- it returns `r` as a duplicate where it has the same channel key and the same event, else a collision.
  pub append_checked-again :
      (ctx : Option Error) (s s' : Store) (intent : AppendIntent) (admit : Option Admit)
      (prepare : Option PrepareRecord) (o : AppendOutcome) (r : AcceptedRecord)
      (again : AppendIntent) (t : Transcript) (admit' : Admit) (prepare' : PrepareRecord)
      → append_checked sha256 ctx s intent admit prepare ≡ (s', ok (o, r))
      → identity_of again.channel ≡ identity_of intent.channel
      → again.event_id ≡ intent.event_id
      → validate_intent again ≡ ok tt
      → lookup again.channel s'.transcripts ≡ some t
      → append_checked sha256 none s' again (some admit') (some prepare') ≡ (
        s',
        if intent.channel != again.channel || intent.canonical_event != again.canonical_event
            then err Error.event_id_collision
            else ok (AppendOutcome.duplicate, r),
      )
  append_checked-again ctx s s' intent admit prepare o r again t admit' prepare' h same id valid
        found =
      let w =
        subst (λ x. Holds x intent r) (ap (λ p. p.0) h)
          (append_checked-Holds ctx s intent admit prepare o r (ap (λ p. p.1) h)) in
      append_checked-found s' again admit' prepare' t r valid found (
        find_event-congr again.channel intent.channel again.event_id intent.event_id s' same id
        ∙ w.indexed)
      ∙ if_pair s' _ _ _
      ∙ ap (λ c. (s', if c then err Error.event_id_collision else ok (AppendOutcome.duplicate, r)))
          (ground (arith, w.channel, w.canonical_event))
