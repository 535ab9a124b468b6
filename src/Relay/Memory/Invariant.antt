-- ===== src/Relay/Memory/Invariant.antt =====
-- Transcripts and the event index of the relay store in memory, over every history.
use mathlib.Core.Option.{some-injective}
use yukh_coordination.Base.{
  ℕ, ◌+◌, ◌≡◌, ◌≢◌, refl, sym, ap, ◌∙◌, inl, inr, Bool, true, false, Option, none, some, List, [],
  ◌∷◌, arith, ◌==◌, nat_eq, text_eq, Text, Map, lookup, lookup-insert-some, if◌then◌else◌, length,
  get_elem?, get_elem?-snoc, get_elem?-set, eq→≡,
}
use yukh_coordination.Relay.{
  ChannelKey, channel_key_eq, Channel, AppendIntent, AcceptedRecord, event_digest_of,
}
use yukh_coordination.Relay.Memory.{
  Transcript, ChannelIdentity, channel_identity_eq, Store, new, identity_of, events_of, find_event,
  created, committed, signed,
}
use yukh_coordination.Relay.Memory.History.{Call, creates, appends, attaches, perform, run}
use yukh_coordination.Relay.Memory.Writes.{
  written, find_event-written_self, find_event-written_ne, events_of-insert, find_receipt-found,
}
use yukh_coordination.Relay.Memory.Cases.{
  Matches, create_channel_cases, append_checked_cases, attach_signature_cases,
}

-- A record at index `i` of the transcript of `key` has that key, the sequence `i + 1`, the digest of its
-- event, and is what the index holds for its event id.
pub record Placed (sha256 : Text → Text) (events : Map ChannelIdentity (Map Text AcceptedRecord))
    (key : ChannelKey) (i : ℕ) (r : AcceptedRecord) : Type 0 where
  pub channel : r.channel ≡ key
  pub sequence_is : r.sequence ≡ i + 1
  pub digest : r.event_digest ≡ event_digest_of sha256 r.canonical_event
  pub indexed : lookup r.event_id (events_of (identity_of key) events) ≡ some r

same_branches {ℓ} :
    {A : Type ℓ} (b : Bool) (x y : A) → (b ≡ true → x ≡ y) → (if b then x else y) ≡ y
same_branches true x y h = h refl
same_branches false x y h = refl

not_none {ℓ} : {A : Type ℓ} (o : Option A) (a : A) → o ≡ some a → o ≢ none
not_none o a e n = absurd (cc)

find_event-created :
    (s : Store) (c : Channel) (key : ChannelKey) (id : Text)
    → find_event key id (created s c) ≡ find_event key id s
find_event-created s c key id = ap (lookup id) (
    events_of-insert (identity_of c.key) (identity_of key) (events_of (identity_of c.key) s.events)
      s.events
    ∙ same_branches (identity_of c.key == identity_of key) _ _
        (λ h. ap (λ k. events_of k s.events) (eq→≡ (identity_of c.key) (identity_of key) h)))

module _ (sha256 : Text → Text) where
  pub Inv : Store → Type 0
  Inv s =
      (key : ChannelKey) (t : Transcript) (i : ℕ) (r : AcceptedRecord)
      → lookup key s.transcripts ≡ some t
      → get_elem? t.records i ≡ some r
      → Placed sha256 s.events key i r

  new-Inv : Inv new
  unfolding Inv lookup
  new-Inv key t i r e = absurd (cc)

  created-Inv : (s : Store) (c : Channel) → Inv s → Inv (created s c)
  unfolding Inv
  created-Inv s c inv key t i r found at =
      elim (lookup-insert-some c.key key _ t s.transcripts found) [
        | inl (p, q) ↦ absurd (ground (arith, q, at))
        | inr (n, found') ↦
            let h = inv key t i r found' at in
            record {
              channel = h.channel;
              sequence_is = h.sequence_is;
              digest = h.digest;
              indexed = find_event-created s c key r.event_id ∙ h.indexed;
            }
      ]

  -- A placed record stays so when the index is written under another event id.
  written-Placed :
      (s : Store) (key key' : ChannelKey) (i : ℕ) (r r' : AcceptedRecord)
      → Placed sha256 s.events key' i r'
      → find_event key r.event_id s ≢ some r'
      → Placed sha256 ((written key r s).events) key' i r'
  written-Placed s key key' i r r' h other = record {
    channel = h.channel;
    sequence_is = h.sequence_is;
    digest = h.digest;
    indexed =
        find_event-written_ne key key' r'.event_id r s (λ e. other (e ∙ h.indexed)) ∙ h.indexed;
  }

  -- Committing a new event.
  committed-Inv :
      (s : Store) (intent : AppendIntent) (t : Transcript) (r : AcceptedRecord)
      → Inv s
      → lookup intent.channel s.transcripts ≡ some t
      → find_event intent.channel intent.event_id s ≡ none
      → Matches intent (length t.records + 1) (event_digest_of sha256 intent.canonical_event) r
      → Inv (committed s intent.channel t r)
  unfolding Inv
  committed-Inv s intent t r inv found fresh m key t' i r' found' at =
      let unlike = λ (e : find_event intent.channel r.event_id s ≡ some r').
        not_none _ r' (sym (ap (λ x. find_event intent.channel x s) m.event_id) ∙ e) fresh in
      elim (lookup-insert-some intent.channel key _ t' s.transcripts found') [
        | inl (p, q) ↦
            elim (get_elem?-snoc t.records r i r' (ap (λ x. get_elem? x.records i) q ∙ at)) [
              | inl old ↦
                  written-Placed s intent.channel key i r r'
                    (inv key t i r' (ap (λ k. lookup k s.transcripts) (sym p) ∙ found) old) unlike
              | inr (j, k) ↦ record {
                channel = ground (arith, k, p, m.channel);
                sequence_is = ground (arith, k, j, m.sequence_is);
                digest = ground (arith, k, m.event_digest, m.canonical_event);
                indexed =
                    find_event-written_self intent.channel key r'.event_id r s (ap identity_of p)
                      (ap (λ x. x.event_id) (sym k))
                    ∙ ap some (sym k);
              }
            ]
        | inr (n, found0) ↦
            written-Placed s intent.channel key i r r' (inv key t' i r' found0 at) unlike
      ]

  -- Two records at the same place of the index are at the same place of a transcript.
  Placed-once :
      (s : Store) (key key' : ChannelKey) (i j : ℕ) (r r' : AcceptedRecord)
      → Placed sha256 s.events key i r
      → Placed sha256 s.events key' j r'
      → find_event key r.event_id s ≡ some r'
      → (key ≡ key') × (i ≡ j)
  Placed-once s key key' i j r r' h h' e =
      let same = some-injective _ _ (sym h.indexed ∙ e) in
      (
        sym h.channel ∙ ap (λ x. x.channel) same ∙ h'.channel,
        ground (arith, h.sequence_is, h'.sequence_is, ap (λ x. x.sequence) same),
      )

  signed-Inv :
      (s : Store) (key : ChannelKey) (t : Transcript) (i : ℕ) (r : AcceptedRecord) (sig : Text)
      → Inv s
      → lookup key s.transcripts ≡ some t
      → get_elem? t.records i ≡ some r
      → Inv (signed s key t i (record r { signature = sig }))
  unfolding Inv
  signed-Inv s key t i r sig inv found at key' t' j r' found' at' =
      let h = inv key t i r found at in
      elim (lookup-insert-some key key' _ t' s.transcripts found') [
        | inl (p, q) ↦
            elim (get_elem?-set t.records (record r { signature = sig }) r' r i j at
              (ap (λ x. get_elem? x.records j) q ∙ at')) [
                | inl (k, l) ↦ record {
                  channel = ap (λ x. x.channel) l ∙ h.channel ∙ p;
                  sequence_is = ground (arith, ap (λ x. x.sequence) l, k, h.sequence_is);
                  digest =
                      ap (λ x. x.event_digest) l
                      ∙ h.digest
                      ∙ ap (λ x. event_digest_of sha256 x.canonical_event) (sym l);
                  indexed =
                      find_event-written_self key key' r'.event_id (record r { signature = sig }) s
                        (ap identity_of p) (ap (λ x. x.event_id) (sym l))
                      ∙ ap some (sym l);
                }
                | inr (k, old) ↦
                    let h' =
                      inv key' t j r' (ap (λ x. lookup x s.transcripts) (sym p) ∙ found) old in
                    written-Placed s key key' j (record r { signature = sig }) r' h'
                      (λ e. k (sym (Placed-once s key key' i j r r' h h' e).1))
              ]
        | inr (n, found0) ↦
            let h' = inv key' t' j r' found0 at' in
            written-Placed s key key' j (record r { signature = sig }) r' h'
              (λ e. n (Placed-once s key key' i j r r' h h' e).0)
      ]

  perform-Inv : (s : Store) (c : Call) → Inv s → Inv (perform sha256 s c)
  unfolding perform
  perform-Inv s (creates ctx c) inv =
      create_channel_cases (λ p. Inv p.0) ctx s c (λ res. inv) (λ n. created-Inv s c inv)
  perform-Inv s (appends ctx intent admit prepare) inv =
      append_checked_cases sha256 (λ p. Inv p.0) ctx s intent admit prepare (λ e. inv)
        (λ t r _ _ _ _ _. inv) (λ t r _ found fresh m. committed-Inv s intent t r inv found fresh m)
  perform-Inv s (attaches ctx a) inv =
      attach_signature_cases (λ p. Inv p.0) ctx s a (λ e. inv) (λ t i r _ _. inv)
        (λ t i r w _.
          signed-Inv s a.channel t i r a.signature inv w.found
            (find_receipt-found a.receipt_id t.records i r w.at).0)

  pub run-Inv : (s : Store) (cs : List Call) → Inv s → Inv (run sha256 s cs)
  unfolding run
  run-Inv s [] inv = inv
  run-Inv s (c ∷ cs) inv = run-Inv (perform sha256 s c) cs (perform-Inv s c inv)

  -- After any history of calls on an empty store, a record at index `i` of a transcript has the
  -- transcript's key, the sequence `i + 1` and the digest of its event, and the event index holds that
  -- same record, signature included, under its event id.
  pub run-records-Placed :
      (cs : List Call) (key : ChannelKey) (t : Transcript) (i : ℕ) (r : AcceptedRecord)
      → lookup key (run sha256 new cs).transcripts ≡ some t
      → get_elem? t.records i ≡ some r
      → Placed sha256 ((run sha256 new cs).events) key i r
  unfolding Inv
  run-records-Placed cs = run-Inv new cs new-Inv
