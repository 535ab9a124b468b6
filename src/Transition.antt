-- ===== src/Transition.antt =====
-- internal/relay/service/transition.go: the work transitions that a relay admits. Claims are the entries
-- of one map, which never changes the claim of a key, so a pointer to a claim is its key; offers stand
-- in a heap, and a pointer to an offer is its index. The JSON of an event is parsed outside the model.
pub mod Handoffs
pub mod Validate
pub mod Replay
mod Claims
mod Kinds
pub mod Limits
mod Tests
use yukh_coordination.Base.{
  ℕ, zero, suc, ◌+◌, Bool, true, false, not, ◌&&◌, ◌||◌, Option, none, some, List, [], ◌∷◌, ◌++◌,
  ltb, leb, ◌==◌, ◌!=◌, nat_eq, text_eq, Text, text, Map, lookup, insert, delete, Result, ok, err,
  if◌then◌else◌, length, get_elem?, set, map,
}
use yukh_coordination.Relay.{AcceptedRecord, AdmissionView, hex_encode, is_empty}
use yukh_coordination.Relay as Relay

pub data Kind : Type 0 where
  claim progress release handoff_offer handoff_accept answer verdict evidence_verification
        question :
      Kind
  review_request other : Kind

-- An evidence descriptor, with its canonical JSON.
pub record Descriptor : Type 0 where
  pub canonical : Text
  pub uri : Text
  pub algorithm : Text
  pub digest_value : Text

-- `fields` has the members of `data` that are strings; `unresolved_risks` is kept as its JSON.
pub record TransitionEvent : Type 0 where
  pub id : Text
  pub kind : Kind
  pub channel : Text
  pub correlation : Text
  pub causation : Text
  pub work : Text
  pub fields : Map Text Text
  pub unresolved_risks : Text
  pub evidence : List Descriptor

pub record ClaimState : Type 0 where
  pub id : Text
  pub generation : Text
  pub root : Text
  pub work : Text
  pub last : Text
  pub active : Bool
  pub offers : Map Text ℕ

pub record OfferState : Type 0 where
  pub event_id : Text
  pub handoff_id : Text
  pub recipient : Text
  pub boundary_digest : Text
  pub evidence_digest : Text
  pub claim_key : Text
  pub accepted : Bool

pub record TranscriptState : Type 0 where
  pub events : Map Text TransitionEvent
  pub claims : Map Text ClaimState
  pub used : Map Text Bool
  pub offers : Map Text ℕ
  pub accepted : Map Text Text
  pub heap : List OfferState

abbrev pub empty_state : TranscriptState
empty_state = record { events = []; claims = []; used = []; offers = []; accepted = []; heap = [] }

-- The codes of transitionFailure; the last is an error of the view or of a stored event.
pub data Failure : Type 0 where
  unresolved_causation invalid_reference invalid_claim_transition resource_limit invalid_payload :
      Failure
  handoff_precondition_failed : Failure
  relay_error : Relay.Error → Failure

-- The error that a failure wraps.
abbrev pub sentinel : Failure → Relay.Error
sentinel resource_limit = Relay.Error.resource_limit
sentinel invalid_payload = Relay.Error.invalid_argument
sentinel (relay_error e) = e
sentinel _ = Relay.Error.transition_conflict

-- `text(value, key)`
abbrev pub text_of : Map Text Text → Text → Text
text_of value key = elim (lookup key value) [ none ↦ [] | some t ↦ t ]

abbrev pub claim_key_of : Map Text Text → Text
claim_key_of d = text_of d (text "claim_id") ++ 0 ∷ text_of d (text "generation")

abbrev pub counts : Text → ClaimState → ℕ
counts work c = if c.active && c.work == work then 1 else 0

unfoldable pub active_claims : Map Text ClaimState → Text → ℕ
active_claims [] work = 0
active_claims ((k, c) ∷ cs) work = counts work c + active_claims cs work

abbrev pub is_claim : Kind → Bool
is_claim claim = true
is_claim _ = false

abbrev pub is_question : Kind → Bool
is_question question = true
is_question _ = false

abbrev pub is_review_request : Kind → Bool
is_review_request review_request = true
is_review_request _ = false

-- The checks on the cause of an event.
unfoldable pub check_causation : TranscriptState → TransitionEvent → Result Failure (Unit {0})
check_causation s event =
    if is_empty event.causation then ok tt else elim (lookup event.causation s.events) [
      | none ↦ err unresolved_causation
      | some parent ↦
          if parent.channel != event.channel
            || parent.work != event.work
            || (not (
                  is_claim event.kind
                  && text_of event.fields (text "predecessor_handoff_event") == event.causation)
                && parent.correlation != event.correlation)
          then err invalid_reference
          else ok tt
    ]

-- referenceType
abbrev pub reference_type : TranscriptState → TransitionEvent → Text → (Kind → Bool) → Bool
reference_type s event id is_kind = elim (lookup id s.events) [
  | none ↦ false
  | some parent ↦ event.causation == id && is_kind parent.kind
]

abbrev pub apply_claim : TranscriptState → TransitionEvent → Text → Result Failure TranscriptState
apply_claim s event participant =
    let d = event.fields in
    let key = claim_key_of d in
    let predecessor = text_of d (text "predecessor_handoff_event") in
    if elim (lookup key s.used) [ none ↦ false | some b ↦ b ]
    then err invalid_claim_transition
    else if not (is_empty predecessor)
        && (text_of s.accepted predecessor != participant || event.causation != predecessor)
    then err invalid_claim_transition
    else if leb 32 (active_claims s.claims event.work)
    then err resource_limit
    else ok (record s {
      accepted = if is_empty predecessor then s.accepted else delete predecessor s.accepted;
      claims =
          insert key
            (record {
              id = text_of d (text "claim_id");
              generation = text_of d (text "generation");
              root = event.id;
              work = event.work;
              last = event.id;
              active = true;
              offers = [];
            })
            s.claims;
      used = insert key true s.used;
    })
