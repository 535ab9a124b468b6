-- ===== src/PrimitivesHttp/Mutations.antt =====
-- internal/primitiveshttp/bridge.go: when a call that names its scope changes the service.
use yukh_coordination.Base.{
  ℕ, ◌≡◌, ◌⊎◌, ◌∙◌, refl, ap, inl, inr, false, Option, Text, Result, ok, [], ◌==◌, text_eq,
  Text-discrete, ℕ_discrete, eq_refl,
}
use yukh_coordination.Time.{Time}
use yukh_coordination.Primitives.{
  CapabilityState, Service, is_identifier, new_identity, consume_nonce, open_capability,
}
use yukh_coordination.Primitives as Primitives
use yukh_coordination.Primitives.Leases as Leases
use yukh_coordination.PrimitivesAuth.{
  RequestAuthentication, Identity, Pipeline, nonce_consume, lease_acquire,
}
use yukh_coordination.PrimitivesAuth.Authorized.{IsAdmitted, execute_public-IsScoped}
use yukh_coordination.PrimitivesHttp.{public_flow, run_public, public_switch}
use yukh_coordination.PrimitivesHttp.Bridge.{consume, acquire}
use yukh_coordination.PrimitivesHttp.Identified.{core_of, core_identity-valid}

acquire_other : (lease_acquire == nonce_consume) ≡ false
unfolding Text-discrete ℕ_discrete
acquire_other = refl

module _ (sha256 : Text → Text) (seal : Primitives.Identity → CapabilityState → Option Text)
    (open_sealed : Primitives.Identity → Text → Result Primitives.Error CapabilityState)
    (raw : Option Text) (clock : ℕ → Time) (p : Pipeline) (service : Service) where
  -- A call of Consume leaves the service as it was, or the request was authenticated, the action and the
  -- scope were authorized for the identity, and the service is what ConsumeNonce leaves for that
  -- identity.
  pub consume-IsAdmitted :
      (a : RequestAuthentication) (scope value : Text) (expires : Time)
      → let after = consume sha256 seal open_sealed raw clock p service a scope value expires in
        (after.0 ≡ service)
        ⊎ ((i : Identity) × IsAdmitted p a nonce_consume i
            × (p.authorize_scope i nonce_consume scope ≡ ok tt)
            × (after.0
                ≡ (consume_nonce sha256 seal open_sealed service
                    (core_of i)
                    scope
                    value
                    expires
                    clock).0))
  unfolding consume run_public public_switch
  consume-IsAdmitted a scope value expires =
      let flow = public_flow service value [] expires in
      elim (execute_public-IsScoped p (run_public sha256 seal open_sealed raw clock) a nonce_consume
        scope flow) [
          | inl w ↦ inl (ap (λ f. f.service) w.kept)
          | inr (i, w, r) ↦
              let known = core_identity-valid i w.valid in
              let ran : (run_public sha256 seal open_sealed raw clock i nonce_consume scope
                    flow).0.service
                  ≡ (consume_nonce sha256 seal open_sealed service (core_of i) scope value expires
                      clock).0 =
                rw (known, run_public) (rw (eq_refl nonce_consume, public_switch) refl) in
              inr (i, w, r.open_scope, ap (λ f. f.service) r.state ∙ ran)
        ]

  -- A call of Acquire leaves the service as it was, or the request was authenticated, the action and the
  -- scope were authorized for the identity, and the service is what the Acquire of the service leaves
  -- for that identity.
  pub acquire-IsAdmitted :
      (a : RequestAuthentication) (scope holder : Text) (expires : Time)
      → let after = acquire sha256 seal open_sealed raw clock p service a scope holder expires in
        (after.0 ≡ service)
        ⊎ ((i : Identity) × IsAdmitted p a lease_acquire i
            × (p.authorize_scope i lease_acquire scope ≡ ok tt)
            × (after.0
                ≡ (Leases.acquire sha256 seal open_sealed service
                    (core_of i)
                    scope
                    holder
                    expires
                    raw
                    clock).0))
  unfolding acquire run_public public_switch
  acquire-IsAdmitted a scope holder expires =
      let flow = public_flow service [] holder expires in
      elim (execute_public-IsScoped p (run_public sha256 seal open_sealed raw clock) a lease_acquire
        scope flow) [
          | inl w ↦ inl (ap (λ f. f.service) w.kept)
          | inr (i, w, r) ↦
              let known = core_identity-valid i w.valid in
              let ran : (run_public sha256 seal open_sealed raw clock i lease_acquire scope
                    flow).0.service
                  ≡ (Leases.acquire sha256 seal open_sealed service (core_of i) scope holder expires
                      raw clock).0 =
                rw (known, run_public)
                  (rw (acquire_other, public_switch) (rw (eq_refl lease_acquire) refl)) in
              inr (i, w, r.open_scope, ap (λ f. f.service) r.state ∙ ran)
        ]
