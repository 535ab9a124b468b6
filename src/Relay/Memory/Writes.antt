-- ===== src/Relay/Memory/Writes.antt =====
-- What the writes of the store leave to be read.
use yukh_coordination.Base.{
  ℕ, zero, suc, ◌≡◌, ◌≢◌, refl, ap, ◌∙◌, inl, inr, Bool, true, false, ◌&&◌, some, List, [], ◌∷◌,
  arith, ◌==◌, text_eq, Text, Map, lookup, insert, lookup-insert, if◌then◌else◌, set, get_elem?,
  eq→≡, Bool-cases, Option-cases,
}
use yukh_coordination.Relay.{ChannelKey, channel_key_eq, AcceptedRecord}
use yukh_coordination.Relay.Memory.{
  ChannelIdentity, channel_identity_eq, Store, identity_of, events_of, find_event, find_receipt,
}

-- The event index after one record is written under a channel.
abbrev pub write_event :
    ChannelKey
    → AcceptedRecord
    → Map ChannelIdentity (Map Text AcceptedRecord)
    → Map ChannelIdentity (Map Text AcceptedRecord)
write_event key r m =
    insert (identity_of key) (insert r.event_id r (events_of (identity_of key) m)) m

pub events_of-insert :
    (c c' : ChannelIdentity) (es : Map Text AcceptedRecord)
    (m : Map ChannelIdentity (Map Text AcceptedRecord))
    → events_of c' (insert c es m) ≡ (if c == c' then es else events_of c' m)
events_of-insert c c' es m = ground (arith, lookup-insert c c' es m)

-- The same for any two tests and two indexes, the second of which is the first where the test holds.
index_split :
    (same : Bool) (id id' : Text) (r : AcceptedRecord) (es es' : Map Text AcceptedRecord)
    → (same ≡ true → es ≡ es')
    → lookup id' (if same then insert id r es else es')
      ≡ (if same && id == id' then some r else lookup id' es')
index_split true id id' r es es' h =
    lookup-insert id id' r es ∙ ap (λ e. if id == id' then some r else lookup id' e) (h refl)
index_split false id id' r es es' h = refl

-- A read of the event index after the write: the new record under its own id in its own channel.
pub lookup-write_event :
    (key key' : ChannelKey) (id : Text) (r : AcceptedRecord)
    (m : Map ChannelIdentity (Map Text AcceptedRecord))
    → lookup id (events_of (identity_of key') (write_event key r m)) ≡ (
        if identity_of key == identity_of key' && r.event_id == id
        then some r
        else lookup id (events_of (identity_of key') m))
lookup-write_event key key' id r m =
    ap (λ es. lookup id es)
      (events_of-insert (identity_of key) (identity_of key')
        (insert r.event_id r (events_of (identity_of key) m)) m)
    ∙ index_split (identity_of key == identity_of key') r.event_id id r
        (events_of (identity_of key) m) (events_of (identity_of key') m)
        (λ h. ap (λ c. events_of c m) (eq→≡ (identity_of key) (identity_of key') h))

-- The index of the store after the write.
abbrev pub written : ChannelKey → AcceptedRecord → Store → Store
written key r s = record s { events = write_event key r s.events }

pub find_event-written_self :
    (key key' : ChannelKey) (id : Text) (r : AcceptedRecord) (s : Store)
    → identity_of key ≡ identity_of key'
    → r.event_id ≡ id
    → find_event key' id (written key r s) ≡ some r
find_event-written_self key key' id r s p q =
    lookup-write_event key key' id r s.events ∙ ground (arith, p, q)

pub find_event-congr :
    (key key' : ChannelKey) (id id' : Text) (s : Store)
    → identity_of key ≡ identity_of key'
    → id ≡ id'
    → find_event key id s ≡ find_event key' id' s
find_event-congr key key' id id' s p q =
    ap (λ k. lookup id (events_of k s.events)) p
    ∙ ap (λ i. lookup i (events_of (identity_of key') s.events)) q

-- What the index held under another event id or for another channel, it still holds.
pub find_event-written_ne :
    (key key' : ChannelKey) (id : Text) (r : AcceptedRecord) (s : Store)
    → find_event key r.event_id s ≢ find_event key' id s
    → find_event key' id (written key r s) ≡ find_event key' id s
find_event-written_ne key key' id r s other =
    elim (Bool-cases (identity_of key == identity_of key' && r.event_id == id)) [
      | inl b ↦ absurd (
          other (
            find_event-congr key key' r.event_id id s
              (eq→≡ (identity_of key) (identity_of key') (ground (arith, b)))
              (eq→≡ r.event_id id (ground (arith, b)))))
      | inr b ↦
          lookup-write_event key key' id r s.events
          ∙ ap (λ c. if c then some r else find_event key' id s) b
    ]

pub find_receipt-found :
    (id : Text) (l : List AcceptedRecord) (i : ℕ) (r : AcceptedRecord)
    → find_receipt id l ≡ some (i, r)
    → (get_elem? l i ≡ some r) × (r.receipt_id ≡ id)
find_receipt-found id [] i r e = absurd (cc)
find_receipt-found id (x ∷ l) zero r e = ground (arith, find_receipt-found id l zero r)
find_receipt-found id (x ∷ l) (suc i) r e = ground (arith, find_receipt-found id l i r)

-- Writing a record with the same receipt where the receipt was found.
pub find_receipt-set :
    (id : Text) (l : List AcceptedRecord) (i : ℕ) (r r' : AcceptedRecord)
    → find_receipt id l ≡ some (i, r)
    → r'.receipt_id ≡ id
    → find_receipt id (set l i r') ≡ some (i, r')
find_receipt-set id [] i r r' e p = absurd (cc)
find_receipt-set id (x ∷ l) zero r r' e p = ground (arith, p)
find_receipt-set id (x ∷ l) (suc i) r r' e p = elim (Bool-cases (x.receipt_id == id)) [
  | inl b ↦ absurd (ground (arith, b, e))
  | inr b ↦ elim (Option-cases (find_receipt id l)) [
    | inl c ↦ absurd (ground (arith, b, c, e))
    | inr ((j, y), c) ↦ ground (arith, b, find_receipt-set id l i r r' (ground (arith, b, c, e)) p)
  ]
]
