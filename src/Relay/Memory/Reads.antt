-- ===== src/Relay/Memory/Reads.antt =====
-- What Read and LookupEvent return of a transcript.
use yukh_coordination.Base.{
  ℕ, ◌+◌, ◌-◌, ◌≤◌, ◌≡◌, refl, sym, ap, ◌∙◌, inl, inr, false, ◌||◌, Option, none, some, List, [],
  ◌∷◌, ◌++◌, arith, ltb, text_eq, Text, lookup, Result, ok, length, take, drop, min, Bool-cases,
  ok-injective, length-drop, take_at, drop_at, take-all, drop-all, take-min, drop-length,
  lookup-insert_self, subst, ltb→lt, not_ltb→le,
}
use yukh_coordination.Relay.{
  ChannelKey, channel_key_eq, AcceptedRecord, Error, AppendIntent, Admit, PrepareRecord,
  AppendOutcome, is_empty, is_blank_key, validate_intent,
}
use yukh_coordination.Relay.Memory.{
  Transcript, Store, find_event, committed, append_checked, lookup_event, window, read,
}
use yukh_coordination.Relay.Memory.Writes.{find_event-written_self}
use yukh_coordination.Relay.Memory.Cases.{append_checked_cases}

-- The bounds that Read computes cut out what follows `after`, `limit` records at most.
pub window-take-drop :
    (l : List AcceptedRecord) (after limit : ℕ) → window l after limit ≡ take limit (drop after l)
window-take-drop l after limit = elim (Bool-cases (ltb after (length l))) [
  | inl b ↦ rw b (
      take_at (drop after l) (min (after + limit) (length l) - after)
        (min limit (length (drop after l)))
        (omega (arith, length-drop after l, ltb→lt after (length l) b))
      ∙ take-min limit (drop after l))
  | inr b ↦
      let past = drop-all after l (not_ltb→le after (length l) b) in
      rw b (
        take_at (drop (length l) l) (min (length l + limit) (length l) - length l) 0 (omega arith)
        ∙ sym (ap (take limit) past ∙ take-all limit [] (omega arith)))
]

pub read_lem :
    (s : Store) (key : ChannelKey) (after n : ℕ) (t : Transcript)
    → 1 ≤ n
    → n ≤ 1000
    → lookup key s.transcripts ≡ some t
    → read none s key after n ≡ ok (take n (drop after t.records))
unfolding read
read_lem s key after n t lo hi a =
    rw (a, read) (ground (arith, lo, hi, window-take-drop t.records after n))

validate_intent-keys :
    (intent : AppendIntent)
    → validate_intent intent ≡ ok tt
    → (is_blank_key intent.channel || is_empty intent.event_id) ≡ false
unfolding validate_intent
validate_intent-keys intent h = ground arith

lookup_event-found :
    (s : Store) (intent : AppendIntent) (t : Transcript) (r : AcceptedRecord)
    → validate_intent intent ≡ ok tt
    → lookup intent.channel s.transcripts ≡ some t
    → find_event intent.channel intent.event_id s ≡ some r
    → lookup_event none s intent.channel intent.event_id ≡ ok r
unfolding lookup_event
lookup_event-found s intent t r valid a b =
    rw (validate_intent-keys intent valid, lookup_event) (rw a (rw b refl))

committed-read :
    (s : Store) (intent : AppendIntent) (t : Transcript) (r : AcceptedRecord) (limit : ℕ)
    → validate_intent intent ≡ ok tt
    → r.event_id ≡ intent.event_id
    → r.sequence - 1 ≡ length t.records
    → 1 ≤ limit
    → limit ≤ 1000
    → (read none (committed s intent.channel t r) intent.channel (r.sequence - 1) limit
        ≡ ok (r ∷ []))
      × (lookup_event none (committed s intent.channel t r) intent.channel intent.event_id ≡ ok r)
committed-read s intent t r limit valid id at lo hi =
    let t' : Transcript = record t { records = t.records ++ r ∷ [] } in
    let found = lookup-insert_self intent.channel t' s.transcripts in
    (
      read_lem (committed s intent.channel t r) intent.channel (r.sequence - 1) limit t' lo hi found
          ∙ ap {B = Result Error (List AcceptedRecord)} ok (
              ap (take limit) (
                drop_at t'.records (r.sequence - 1) (length t.records) at
                ∙ drop-length t.records (r ∷ []))
              ∙ take-all limit (r ∷ []) lo),
      lookup_event-found (committed s intent.channel t r) intent t' r valid found
          (find_event-written_self intent.channel intent.channel intent.event_id r s refl id),
    )

-- After an append that wrote record `r`, a read from the sequence before its own returns `r` alone,
-- whatever its limit, and a lookup of its event id returns `r`.
pub append_checked-read :
    (sha256 : Text → Text) (ctx : Option Error) (s s' : Store) (intent : AppendIntent)
    (admit : Option Admit) (prepare : Option PrepareRecord) (r : AcceptedRecord) (limit : ℕ)
    → append_checked sha256 ctx s intent admit prepare ≡ (s', ok (AppendOutcome.appended, r))
    → 1 ≤ limit
    → limit ≤ 1000
    → (read none s' intent.channel (r.sequence - 1) limit ≡ ok (r ∷ []))
      × (lookup_event none s' intent.channel intent.event_id ≡ ok r)
append_checked-read sha256 ctx s s' intent admit prepare r limit h lo hi =
    subst
      (λ x.
        (read none x intent.channel (r.sequence - 1) limit ≡ ok (r ∷ []))
        × (lookup_event none x intent.channel intent.event_id ≡ ok r))
      (ap (λ x. x.0) h)
      (append_checked_cases sha256
        (λ p.
          p.1 ≡ ok (AppendOutcome.appended, r)
          → (read none p.0 intent.channel (r.sequence - 1) limit ≡ ok (r ∷ []))
            × (lookup_event none p.0 intent.channel intent.event_id ≡ ok r))
        ctx s intent admit prepare (λ e k. absurd (cc)) (λ t r' _ _ _ _ _ k. absurd (cc))
        (λ t r' valid found fresh m k.
          subst
            (λ x.
              (read none (committed s intent.channel t r') intent.channel (x.sequence - 1) limit
                ≡ ok (x ∷ []))
              × (lookup_event none (committed s intent.channel t r') intent.channel intent.event_id
                  ≡ ok x))
            (ap (λ x. x.1)
              (ok-injective (AppendOutcome.appended, r') (AppendOutcome.appended, r) k))
            (committed-read s intent t r' limit valid m.event_id (omega (arith, m.sequence_is)) lo
              hi))
        (ap (λ x. x.1) h))
