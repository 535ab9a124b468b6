-- ===== src/Application/Stream.antt =====
-- internal/relay/service/application.go: Stream, which reads and waits in turns. The goroutine is a
-- function of what its rounds meet; the channel takes a prefix of its items, for a context that ends
-- stops the send.
use yukh_coordination.Base.{
  ℕ, ◌+◌, Bool, true, false, ◌||◌, Option, none, some, List, [], ◌∷◌, ◌++◌, ◌==◌, ◌!=◌, nat_eq,
  Text, Result, ok, err, if◌then◌else◌, length, take,
}
use yukh_coordination.Relay.{Error, ChannelKey, AcceptedRecord, is_empty}
use yukh_coordination.Relay.Memory.{Store, read}
use yukh_coordination.Application.{failure, Codec, ReplayRequest, canonical_record, resolve}

pub data StreamItem : Type 0 where
  failed : Error → StreamItem
  boundary : ℕ → StreamItem
  stream_record : ℕ → Text → StreamItem

-- What the wait at the end of a round meets: a notification, the end of the subscription, or that of the
-- context.
pub data Wake : Type 0 where
  notified closed cancelled : Wake

pub record Round : Type 0 where
  pub context : Option Error
  pub store : Store
  pub wake : Wake

-- The wait; a full read is followed by another at once.
abbrev pub waited : Bool → Wake → List StreamItem → List StreamItem → List StreamItem
waited true wake items more = items ++ more
waited false Wake.notified items more = items ++ more
waited false Wake.closed items more = items ++ failed failure ∷ []
waited false Wake.cancelled items more = items

module _ (sha256 : Text → Text) (codec : Codec) where
  -- The loop over the records of one read: its items, and the new cursor if the stream goes on.
  unfoldable pub stream_records : ℕ → List AcceptedRecord → List StreamItem × Option ℕ
  unfolding canonical_record
  stream_records cursor [] = ([], some cursor)
  stream_records cursor (r ∷ rs) =
      if r.sequence != cursor + 1 || is_empty r.signature
      then (boundary (cursor + 1) ∷ [], none)
      else elim (canonical_record sha256 codec r) [
        | err e ↦ (failed e ∷ [], none)
        | ok encoded ↦
            let (items, next) = stream_records r.sequence rs in
            (stream_record r.sequence encoded ∷ items, next)
      ]

  unfoldable pub stream_rounds : ChannelKey → ℕ → ℕ → List Round → List StreamItem
  unfolding stream_records
  stream_rounds key limit cursor [] = []
  stream_rounds key limit cursor (round ∷ rounds) =
      elim (read round.context round.store key cursor limit) [
        | err e ↦ failed e ∷ []
        | ok records ↦
            let (items, next) = stream_records cursor records in
            elim next [
              | none ↦ items
              | some c ↦
                  waited (length records == limit) round.wake items
                    (stream_rounds key limit c rounds)
            ]
      ]

  -- Stream; `taken` items are received before the context ends.
  unfoldable pub stream :
      Option Error
      → Store
      → ReplayRequest
      → Result Error (Unit {0})
      → List Round
      → ℕ
      → Result Error (List StreamItem)
  unfolding stream_rounds
  stream ctx s request subscribed rounds taken = elim (resolve codec ctx s request.admitted) [
    | err e ↦ err e
    | ok _ ↦ elim subscribed [
      | err e ↦ err e
      | ok _ ↦
          ok
            (take taken (stream_rounds request.admitted.channel request.limit request.after rounds))
    ]
  ]
