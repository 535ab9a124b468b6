-- ===== src/PrimitivesHttp.antt =====
-- internal/primitiveshttp/bridge.go: the authorization pipeline in front of the primitives service. The
-- service that the flows share by pointer is a part of the state of the operations. SHA-256, the sealer,
-- the source of token identifiers and the clock are parameters, as for the service.
pub mod Bridge
pub mod Identified
pub mod Mutations
pub mod Sealed
mod Tests
use yukh_coordination.Base.{
  ℕ, Option, none, some, [], text_eq, ◌==◌, ◌!=◌, Text, Result, ok, err, if◌then◌else◌,
}
use yukh_coordination.Time.{Time, utc}
use yukh_coordination.Coordination.{NonceOutcome, LeaseStatus}
use yukh_coordination.Primitives.{
  CapabilityState, LeaseResult, Service, new_identity, consume_nonce, open_capability,
  inspect_opened,
}
use yukh_coordination.Primitives as Primitives
use yukh_coordination.Primitives.Leases.{acquire, renew_opened, release_opened}
use yukh_coordination.PrimitivesAuth.{
  Error, RequestAuthentication, Identity, Action, Answer, Pipeline, nonce_consume, lease_acquire,
  lease_inspect, lease_renew, lease_release, execute_public, execute_public_admitted,
  execute_sealed, execute_sealed_admitted,
}

unfoldable pub core_identity : Identity → Result Primitives.Error Primitives.Identity
unfolding new_identity
core_identity i = new_identity i.tenant i.principal

abbrev pub map_core_error : Primitives.Error → Error
map_core_error Primitives.Error.conflict = Error.invalid_capability
map_core_error Primitives.Error.invalid_argument = Error.invalid_argument
map_core_error Primitives.Error.invariant = Error.invariant_violation
map_core_error Primitives.Error.unavailable = Error.temporarily_unavailable

abbrev pub map_core : {A : Type 0} → Result Primitives.Error A → Answer
map_core (ok a) = ok tt
map_core (err e) = err (map_core_error e)

-- Acquire reports a conflict as such.
abbrev pub map_acquire : {A : Type 0} → Result Primitives.Error A → Answer
map_acquire (err Primitives.Error.conflict) = err Error.conflict
map_acquire r = map_core r

abbrev pub map_open_error : Primitives.Error → Error
map_open_error Primitives.Error.conflict = Error.invalid_capability
map_open_error Primitives.Error.invalid_argument = Error.invalid_capability
map_open_error _ = Error.temporarily_unavailable

-- What a call returns beside an error; the zero value of its type is `none`.
abbrev pub value_of : {A : Type 0} → Result Primitives.Error A → Option A
value_of (ok a) = some a
value_of (err e) = none

pub record PublicFlow : Type 0 where
  pub service : Service
  pub value : Text
  pub holder : Text
  pub expires : Time
  pub nonce : Option NonceOutcome
  pub lease : Option LeaseResult

-- `opened` and `identity` are the zero values until the scope is opened.
pub record SealedFlow : Type 0 where
  pub service : Service
  pub capability : Text
  pub expires : Time
  pub opened : CapabilityState
  pub identity : Primitives.Identity
  pub lease : Option LeaseResult
  pub status : Option LeaseStatus

abbrev pub zero_time : Time
zero_time = record { instant = 0; location = utc }

abbrev pub zero_capability : CapabilityState
zero_capability = record {
  key = [];
  holder = [];
  expires_at = zero_time;
  epoch = 0;
  fencing_token = 0;
  token_id = [];
}

abbrev pub public_flow : Service → Text → Text → Time → PublicFlow
public_flow service value holder expires = record {
  service = service;
  value = value;
  holder = holder;
  expires = expires;
  nonce = none;
  lease = none;
}

abbrev pub sealed_flow : Service → Text → Time → SealedFlow
sealed_flow service capability expires = record {
  service = service;
  capability = capability;
  expires = expires;
  opened = zero_capability;
  identity = record { tenant = []; principal = [] };
  lease = none;
  status = none;
}

module _ (sha256 : Text → Text) (seal : Primitives.Identity → CapabilityState → Option Text)
    (open_sealed : Primitives.Identity → Text → Result Primitives.Error CapabilityState)
    (raw : Option Text) (clock : ℕ → Time) where
  -- The switch of publicFlow.Run, for an identity of the service.
  unfoldable pub public_switch :
      Primitives.Identity → Action → Text → PublicFlow → PublicFlow × Answer
  public_switch core action scope flow =
      if action == nonce_consume
      then (let (service, r) =
            consume_nonce sha256 seal open_sealed flow.service core scope flow.value flow.expires
              clock in
          (record flow { service = service; nonce = value_of r }, map_core r))
      else if action == lease_acquire
      then (let (service, r) =
            acquire sha256 seal open_sealed flow.service core scope flow.holder flow.expires raw
              clock in
          (record flow { service = service; lease = value_of r }, map_acquire r))
      else (flow, err Error.invalid_argument)

  -- publicFlow.Run. An error of the service's package is none of the pipeline's.
  unfoldable pub run_public : Identity → Action → Text → PublicFlow → PublicFlow × Answer
  run_public identity action scope flow = elim (core_identity identity) [
    | err _ ↦ (flow, err Error.foreign)
    | ok core ↦ public_switch core action scope flow
  ]

  -- sealedFlow.OpenScope
  unfoldable pub open_scope : Identity → Text → SealedFlow → SealedFlow × Result Error Text
  open_scope identity capability flow = elim (core_identity identity) [
    | err _ ↦ (flow, err Error.temporarily_unavailable)
    | ok core ↦ elim (open_capability sha256 seal open_sealed flow.service core capability) [
      | err e ↦ (flow, err (map_open_error e))
      | ok opened ↦ (record flow { identity = core; opened = opened }, ok opened.key)
    ]
  ]

  -- sealedFlow.Run
  unfoldable pub run_sealed : Identity → Action → Text → SealedFlow → SealedFlow × Answer
  run_sealed _ action scope flow =
      if scope != flow.opened.key
      then (flow, err Error.invalid_capability)
      else if action == lease_inspect
      then (let r = inspect_opened flow.service flow.opened (clock 0) in
          (record flow { status = value_of r }, map_core r))
      else if action == lease_renew
      then (let (service, r) =
            renew_opened sha256 seal open_sealed flow.service flow.identity flow.opened flow.expires
              raw clock in
          (record flow { service = service; lease = value_of r }, map_core r))
      else if action == lease_release
      then (let (service, r) =
            release_opened sha256 seal open_sealed flow.service flow.identity flow.opened clock in
          (record flow { service = service }, map_core r))
      else (flow, err Error.invalid_argument)
