-- ===== src/Application/Contiguous.antt =====
-- internal/relay/service/application.go: the records of a stream leave no gap.
use yukh_coordination.Base.{
  ℕ, zero, suc, ◌+◌, ◌≡◌, refl, sym, ap, subst, ◌∙◌, inl, inr, Bool, true, false, ◌||◌, Option,
  none, some, List, [], ◌∷◌, ◌++◌, ◌==◌, ◌!=◌, nat_eq, Text, Result, ok, length, take, arith,
  Bool-cases, Result-cases, Option-cases, ok-injective,
}
use yukh_coordination.Relay.{Error, ChannelKey, AcceptedRecord, is_empty}
use yukh_coordination.Relay.Memory.{Store, read}
use yukh_coordination.Application.{failure, Codec, ReplayRequest, canonical_record, resolve}
use yukh_coordination.Application.Stream.{
  StreamItem, stream_record, boundary, failed, Wake, Round, stream_records, waited, stream_rounds,
  stream,
}

-- The records follow the cursor without a gap, and only the last item is a boundary, which is then the
-- next sequence, or a failure.
abbrev pub IsContiguous : ℕ → List StreamItem → Type 0
IsContiguous cursor [] = Unit
IsContiguous cursor (failed e ∷ items) = items ≡ []
IsContiguous cursor (boundary b ∷ items) = (b ≡ cursor + 1) × (items ≡ [])
IsContiguous cursor (stream_record n x ∷ items) = (n ≡ cursor + 1) × IsContiguous n items

take-nothing : {A : Type 0} (n : ℕ) (l : List A) → l ≡ [] → take n l ≡ []
take-nothing zero l h = refl
take-nothing (suc n) [] h = refl
take-nothing (suc n) (x ∷ l) h = absurd (cc)

take-IsContiguous :
    (n cursor : ℕ) (items : List StreamItem)
    → IsContiguous cursor items
    → IsContiguous cursor (take n items)
take-IsContiguous zero cursor items h = tt
take-IsContiguous (suc n) cursor [] h = tt
take-IsContiguous (suc n) cursor (failed e ∷ items) h = take-nothing n items h
take-IsContiguous (suc n) cursor (boundary b ∷ items) h = (h.0, take-nothing n items h.1)
take-IsContiguous (suc n) cursor (stream_record m x ∷ items) h =
    (h.0, take-IsContiguous n m items h.1)

module _ (sha256 : Text → Text) (codec : Codec) where
  -- What one read adds: where it goes on, items from its cursor may follow.
  Follows : ℕ → List StreamItem × Option ℕ → Type 0
  Follows cursor (items, none) = IsContiguous cursor items
  Follows cursor (items, some c) =
      (more : List StreamItem) → IsContiguous c more → IsContiguous cursor (items ++ more)

  longer-Follows :
      (cursor n : ℕ) (x : Text) (p : List StreamItem × Option ℕ)
      → n ≡ cursor + 1
      → Follows n p
      → Follows cursor (stream_record n x ∷ p.0, p.1)
  unfolding Follows
  longer-Follows cursor n x (items, none) next h = (next, h)
  longer-Follows cursor n x (items, some c) next h = λ more g. (next, h more g)

  Follows-none :
      (cursor : ℕ) (p : List StreamItem × Option ℕ)
      → p.1 ≡ none
      → Follows cursor p
      → IsContiguous cursor p.0
  unfolding Follows
  Follows-none cursor (items, none) e h = h
  Follows-none cursor (items, some c) e h = absurd (cc)

  Follows-some :
      (cursor c : ℕ) (p : List StreamItem × Option ℕ) (more : List StreamItem)
      → p.1 ≡ some c
      → Follows cursor p
      → IsContiguous c more
      → IsContiguous cursor (p.0 ++ more)
  unfolding Follows
  Follows-some cursor c (items, none) more e h g = absurd (cc)
  Follows-some cursor c (items, some d) more e h g =
      h more (subst (λ k. IsContiguous k more) (ground (arith, e)) g)

  stream_records-Follows :
      (cursor : ℕ) (records : List AcceptedRecord)
      → Follows cursor (stream_records sha256 codec cursor records)
  unfolding stream_records Follows
  stream_records-Follows cursor [] = λ more h. h
  stream_records-Follows cursor (r ∷ rs) =
      elim (Bool-cases (r.sequence != cursor + 1 || is_empty r.signature)) [
        | inl b ↦ rw (b, stream_records) (refl, refl)
        | inr b ↦ elim (Result-cases (canonical_record sha256 codec r)) [
          | inl (e, c) ↦ rw (b, stream_records) (rw c refl)
          | inr (x, c) ↦
              rw (b, stream_records)
                (rw c (
                  longer-Follows cursor r.sequence x (stream_records sha256 codec r.sequence rs)
                    (ground (arith, b)) (stream_records-Follows r.sequence rs)))
        ]
      ]

  append-nothing : (l : List StreamItem) → l ++ [] ≡ l
  append-nothing [] = refl
  append-nothing (x ∷ l) = ap (λ r. x ∷ r) (append-nothing l)

  waited-IsContiguous :
      (cursor c : ℕ) (full : Bool) (wake : Wake) (p : List StreamItem × Option ℕ)
      (more : List StreamItem)
      → p.1 ≡ some c
      → Follows cursor p
      → IsContiguous c more
      → IsContiguous cursor (waited full wake p.0 more)
  waited-IsContiguous cursor c true wake p more e h g = Follows-some cursor c p more e h g
  waited-IsContiguous cursor c false Wake.notified p more e h g = Follows-some cursor c p more e h g
  waited-IsContiguous cursor c false Wake.closed p more e h g =
      Follows-some cursor c p (failed failure ∷ []) e h refl
  waited-IsContiguous cursor c false Wake.cancelled p more e h g =
      subst (λ l. IsContiguous cursor l) (append-nothing p.0) (Follows-some cursor c p [] e h tt)

  stream_rounds-IsContiguous :
      (key : ChannelKey) (limit cursor : ℕ) (rounds : List Round)
      → IsContiguous cursor (stream_rounds sha256 codec key limit cursor rounds)
  unfolding stream_rounds
  stream_rounds-IsContiguous key limit cursor [] = tt
  stream_rounds-IsContiguous key limit cursor (round ∷ rounds) =
      elim (Result-cases (read round.context round.store key cursor limit)) [
        | inl (e, a) ↦ rw (a, stream_rounds) refl
        | inr (records, a) ↦
            let p = stream_records sha256 codec cursor records in
            let follows = stream_records-Follows cursor records in
            elim (Option-cases p.1) [
              | inl b ↦ rw (a, stream_rounds) (rw b (Follows-none cursor p b follows))
              | inr (c, b) ↦
                  rw (a, stream_rounds)
                    (rw b (
                      waited-IsContiguous cursor c (length records == limit) round.wake p
                        (stream_rounds sha256 codec key limit c rounds) b follows
                        (stream_rounds-IsContiguous key limit c rounds)))
            ]
      ]

  -- Whatever the rounds of a stream meet, and wherever its context ends: the records that it sends follow
  -- the requested position without a gap, and a boundary, which is the next sequence, or a failure comes
  -- only at the end.
  pub stream-IsContiguous :
      (ctx : Option Error) (s : Store) (request : ReplayRequest)
      (subscribed : Result Error (Unit {0})) (rounds : List Round) (taken : ℕ)
      (items : List StreamItem)
      → stream sha256 codec ctx s request subscribed rounds taken ≡ ok items
      → IsContiguous request.after items
  unfolding stream
  stream-IsContiguous ctx s request subscribed rounds taken items h =
      let all_items =
        stream_rounds sha256 codec request.admitted.channel request.limit request.after rounds in
      elim (Result-cases (resolve codec ctx s request.admitted)) [
        | inl (e, a) ↦ absurd (ground (arith, a, h))
        | inr (r, a) ↦ elim (Result-cases subscribed) [
          | inl (e, b) ↦ absurd (ground (arith, a, b, h))
          | inr (u, b) ↦
              let sent : stream sha256 codec ctx s request subscribed rounds taken
                  ≡ ok (take taken all_items) =
                rw (a, stream) (rw b refl) in
              subst (λ l. IsContiguous request.after l)
                (ok-injective (take taken all_items) items (sym sent ∙ h))
                (take-IsContiguous taken request.after all_items (
                  stream_rounds-IsContiguous request.admitted.channel request.limit request.after
                    rounds))
        ]
      ]
