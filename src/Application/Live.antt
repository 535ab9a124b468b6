-- ===== src/Application/Live.antt =====
-- internal/relay/service/live.go: the notifications inside one process. A Go channel with room for one
-- signal is a Boolean, whether it holds the signal; the channels are kept by the identifiers of their
-- subscriptions, for a channel outlives its subscription.
use yukh_coordination.Base.{
  ℕ, ◌+◌, ◌%◌, ◌^◌, ◌≢◌, Bool, true, false, ◌||◌, Option, none, some, List, [], ◌∷◌, ◌==◌, nat_eq,
  text_eq, Map, lookup, insert, delete, Result, ok, err, if◌then◌else◌,
}
use yukh_coordination.Relay.{Error, ChannelKey, channel_key_eq, is_blank_key}

pub record LiveChanges : Type 0 where
  pub next_id : ℕ
  pub subscribers : Map ChannelKey (List ℕ)
  pub channels : Map ℕ Bool

-- What Subscribe gives: `ended` is the sync.Once of the function that unsubscribes.
pub record Subscription : Type 0 where
  pub key : ChannelKey
  pub id : ℕ
  pub ended : Bool

abbrev pub new : LiveChanges
new = record { next_id = 0; subscribers = []; channels = [] }

-- A read of a missing key gives a nil map.
abbrev pub listed : Option (List ℕ) → List ℕ
listed none = []
listed (some ids) = ids

abbrev pub ids_of : ChannelKey → LiveChanges → List ℕ
ids_of key l = listed (lookup key l.subscribers)

unfoldable pub member : ℕ → List ℕ → Bool
member i [] = false
member i (j ∷ ids) = j == i || member i ids

unfoldable pub without : ℕ → List ℕ → List ℕ
without i [] = []
without i (j ∷ ids) = let rest = without i ids in if j == i then rest else j ∷ rest

abbrev pub next : ℕ → ℕ
next n = (n + 1) % 2 ^ 64

unfoldable pub subscribe :
    Option Error → ChannelKey → LiveChanges → LiveChanges × Result Error Subscription
subscribe (some e) key l = (l, err e)
subscribe none key l = if is_blank_key key then (l, err Error.invalid_argument) else (
  record l {
    next_id = next l.next_id;
    subscribers = insert key (next l.next_id ∷ ids_of key l) l.subscribers;
    channels = insert (next l.next_id) false l.channels;
  },
  ok (record { key = key; id = next l.next_id; ended = false }),
)

abbrev pub remaining : ChannelKey → List ℕ → LiveChanges → LiveChanges
remaining key [] l = record l { subscribers = delete key l.subscribers }
remaining key (i ∷ ids) l = record l { subscribers = insert key (i ∷ ids) l.subscribers }

unfoldable pub unsubscribe : Subscription → LiveChanges → LiveChanges × Subscription
unfolding without
unsubscribe s l =
    if s.ended
    then (l, s)
    else (remaining s.key (without s.id (ids_of s.key l)) l, record s { ended = true })

-- The loop of Notify: a full channel stays as it is.
unfoldable pub signal : List ℕ → Map ℕ Bool → Map ℕ Bool
signal [] channels = channels
signal (i ∷ ids) channels = signal ids (insert i true channels)

unfoldable pub notify : ChannelKey → LiveChanges → LiveChanges
unfolding signal
notify key l = record l { channels = signal (ids_of key l) l.channels }

-- A receive that does not wait, as the select of a subscriber does.
unfoldable pub receive : ℕ → LiveChanges → LiveChanges × Bool
receive id l = elim (lookup id l.channels) [
  | some true ↦ (record l { channels = insert id false l.channels }, true)
  | _ ↦ (l, false)
]

pub data Call : Type 0 where
  subscribes : Option Error → ChannelKey → Call
  unsubscribes : Subscription → Call
  notifies : ChannelKey → Call
  receives : ℕ → Call

unfoldable pub perform : Call → LiveChanges → LiveChanges
unfolding subscribe unsubscribe notify receive
perform (subscribes ctx key) l = (subscribe ctx key l).0
perform (unsubscribes s) l = (unsubscribe s l).0
perform (notifies key) l = notify key l
perform (receives id) l = (receive id l).0

-- The mutex makes each method one step.
unfoldable pub run : LiveChanges → List Call → LiveChanges
unfolding perform
run l [] = l
run l (c ∷ cs) = run (perform c l) cs

-- A call that takes no signal of the subscription.
abbrev pub Spares : ℕ → Call → Type 0
Spares id (receives i) = i ≢ id
Spares id _ = Unit
