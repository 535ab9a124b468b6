-- ===== src/PrimitivesHttp/Bridge.antt =====
-- internal/primitiveshttp/bridge.go: the methods of Bridge, as the service after the call, the value and
-- the error.
use yukh_coordination.Base.{ℕ, Option, some, [], Text, Result}
use yukh_coordination.Time.{Time}
use yukh_coordination.Coordination.{NonceOutcome, LeaseStatus}
use yukh_coordination.Primitives.{CapabilityState, LeaseResult, Service}
use yukh_coordination.Primitives as Primitives
use yukh_coordination.PrimitivesAuth.{
  RequestAuthentication, Identity, Answer, Pipeline, nonce_consume, lease_acquire, lease_inspect,
  lease_renew, lease_release, execute_public, execute_public_admitted, execute_sealed,
  execute_sealed_admitted,
}
use yukh_coordination.PrimitivesHttp.{
  public_flow, sealed_flow, zero_time, run_public, open_scope, run_sealed,
}

module _ (sha256 : Text → Text) (seal : Primitives.Identity → CapabilityState → Option Text)
    (open_sealed : Primitives.Identity → Text → Result Primitives.Error CapabilityState)
    (raw : Option Text) (clock : ℕ → Time) (p : Pipeline) (service : Service) where
  unfoldable pub consume :
      RequestAuthentication → Text → Text → Time → Service × Option NonceOutcome × Answer
  consume authentication scope value expires =
      let (flow, answer) =
        execute_public p authentication nonce_consume scope
          (some (run_public sha256 seal open_sealed raw clock))
          (public_flow service value [] expires) in
      (flow.service, flow.nonce, answer)

  unfoldable pub acquire :
      RequestAuthentication → Text → Text → Time → Service × Option LeaseResult × Answer
  acquire authentication scope holder expires =
      let (flow, answer) =
        execute_public p authentication lease_acquire scope
          (some (run_public sha256 seal open_sealed raw clock))
          (public_flow service [] holder expires) in
      (flow.service, flow.lease, answer)

  unfoldable pub inspect : RequestAuthentication → Text → Service × Option LeaseStatus × Answer
  inspect authentication capability =
      let (flow, answer) =
        execute_sealed p authentication lease_inspect capability
          (some (open_scope sha256 seal open_sealed raw clock))
          (some (run_sealed sha256 seal open_sealed raw clock))
          (sealed_flow service capability zero_time) in
      (flow.service, flow.status, answer)

  unfoldable pub renew : RequestAuthentication → Text → Time → Service × Option LeaseResult × Answer
  renew authentication capability expires =
      let (flow, answer) =
        execute_sealed p authentication lease_renew capability
          (some (open_scope sha256 seal open_sealed raw clock))
          (some (run_sealed sha256 seal open_sealed raw clock))
          (sealed_flow service capability expires) in
      (flow.service, flow.lease, answer)

  unfoldable pub release : RequestAuthentication → Text → Service × Answer
  release authentication capability =
      let (flow, answer) =
        execute_sealed p authentication lease_release capability
          (some (open_scope sha256 seal open_sealed raw clock))
          (some (run_sealed sha256 seal open_sealed raw clock))
          (sealed_flow service capability zero_time) in
      (flow.service, answer)

  -- The calls of the HTTP handler, which has called Admit before it reads the body.
  unfoldable pub consume_admitted :
      Identity → Text → Text → Time → Service × Option NonceOutcome × Answer
  consume_admitted identity scope value expires =
      let (flow, answer) =
        execute_public_admitted p identity nonce_consume scope
          (some (run_public sha256 seal open_sealed raw clock))
          (public_flow service value [] expires) in
      (flow.service, flow.nonce, answer)

  unfoldable pub acquire_admitted :
      Identity → Text → Text → Time → Service × Option LeaseResult × Answer
  acquire_admitted identity scope holder expires =
      let (flow, answer) =
        execute_public_admitted p identity lease_acquire scope
          (some (run_public sha256 seal open_sealed raw clock))
          (public_flow service [] holder expires) in
      (flow.service, flow.lease, answer)

  unfoldable pub inspect_admitted : Identity → Text → Service × Option LeaseStatus × Answer
  inspect_admitted identity capability =
      let (flow, answer) =
        execute_sealed_admitted p identity lease_inspect capability
          (some (open_scope sha256 seal open_sealed raw clock))
          (some (run_sealed sha256 seal open_sealed raw clock))
          (sealed_flow service capability zero_time) in
      (flow.service, flow.status, answer)

  unfoldable pub renew_admitted : Identity → Text → Time → Service × Option LeaseResult × Answer
  renew_admitted identity capability expires =
      let (flow, answer) =
        execute_sealed_admitted p identity lease_renew capability
          (some (open_scope sha256 seal open_sealed raw clock))
          (some (run_sealed sha256 seal open_sealed raw clock))
          (sealed_flow service capability expires) in
      (flow.service, flow.lease, answer)

  unfoldable pub release_admitted : Identity → Text → Service × Answer
  release_admitted identity capability =
      let (flow, answer) =
        execute_sealed_admitted p identity lease_release capability
          (some (open_scope sha256 seal open_sealed raw clock))
          (some (run_sealed sha256 seal open_sealed raw clock))
          (sealed_flow service capability zero_time) in
      (flow.service, answer)
