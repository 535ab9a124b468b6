-- ===== src/PrimitivesHttp/Sealed.antt =====
-- internal/primitiveshttp/bridge.go: when a call with a sealed capability changes the service.
use yukh_coordination.Base.{
  ℕ, ◌≡◌, ◌⊎◌, ◌∙◌, refl, sym, ap, inl, inr, true, false, Option, some, Text, Result, ok, arith,
  ◌==◌, ◌!=◌, text_eq, Result-cases, Text-discrete, ℕ_discrete, eq_refl, ok-injective,
}
use yukh_coordination.Time.{Time}
use yukh_coordination.Primitives.{
  CapabilityState, Service, is_identifier, new_identity, consume_nonce, open_capability,
}
use yukh_coordination.Primitives as Primitives
use yukh_coordination.Primitives.Leases as Leases
use yukh_coordination.PrimitivesAuth.{
  RequestAuthentication, Identity, Answer, Pipeline, valid_identity, identifier_pattern,
  nonce_consume, lease_acquire, lease_inspect, lease_renew, lease_release, execute_sealed,
}
use yukh_coordination.PrimitivesAuth as PrimitivesAuth
use yukh_coordination.PrimitivesAuth.Authorized.{IsAdmitted, execute_sealed-IsScoped}
use yukh_coordination.PrimitivesHttp.{sealed_flow, zero_time, SealedFlow, open_scope, run_sealed}
use yukh_coordination.PrimitivesHttp.Bridge.{inspect, renew, release}
use yukh_coordination.PrimitivesHttp.Identified.{core_of, core_identity-valid}

renew_other : (lease_renew == lease_inspect) ≡ false
unfolding Text-discrete ℕ_discrete
renew_other = refl

release_other :
    ((lease_release == lease_inspect) ≡ false) × ((lease_release == lease_renew) ≡ false)
unfolding Text-discrete ℕ_discrete
release_other = (refl, refl)

module _ (sha256 : Text → Text) (seal : Primitives.Identity → CapabilityState → Option Text)
    (open_sealed : Primitives.Identity → Text → Result Primitives.Error CapabilityState)
    (raw : Option Text) (clock : ℕ → Time) (p : Pipeline) (service : Service) where
  abbrev opener : Identity → Text → SealedFlow → SealedFlow × Result PrimitivesAuth.Error Text
  opener = open_scope sha256 seal open_sealed raw clock

  abbrev opening : Identity → Text → Result Primitives.Error CapabilityState
  opening i capability = open_capability sha256 seal open_sealed service (core_of i) capability

  open_scope-service :
      (i : Identity) (capability : Text) (flow : SealedFlow)
      → valid_identity i ≡ true
      → (opener i capability flow).0.service ≡ flow.service
  unfolding open_scope
  open_scope-service i capability flow v =
      let known = core_identity-valid i v in
      elim (Result-cases
        (open_capability sha256 seal open_sealed flow.service (core_of i) capability)) [
          | inl (e, x) ↦ rw (known, open_scope) (rw x refl)
          | inr (c, x) ↦ rw (known, open_scope) (rw x refl)
        ]

  abbrev opened_flow : Text → Time → Identity → CapabilityState → SealedFlow
  opened_flow capability expires i c = record (sealed_flow service capability expires) {
    identity = core_of i;
    opened = c;
  }

  open_scope-ok :
      (i : Identity) (capability : Text) (expires : Time) (scope : Text)
      → valid_identity i ≡ true
      → (opener i capability (sealed_flow service capability expires)).1 ≡ ok scope
      → (c : CapabilityState) × (opening i capability ≡ ok c)
        × (c.key ≡ scope)
        × ((opener i capability (sealed_flow service capability expires)).0
            ≡ opened_flow capability expires i c)
  unfolding open_scope
  open_scope-ok i capability expires scope v h =
      let known = core_identity-valid i v in
      elim (Result-cases (opening i capability)) [
        | inl (e, x) ↦ absurd (ground (arith, known, x, h))
        | inr (c, x) ↦
            let opened : opener i capability (sealed_flow service capability expires)
                ≡ (opened_flow capability expires i c, ok c.key) =
              rw (known, open_scope) (rw x refl) in
            (c, x, ok-injective c.key scope (sym (ap (λ r. r.1) opened) ∙ h), ap (λ r. r.0) opened)
      ]

  -- What a sealed call has done when it was not refused.
  abbrev Opened :
      RequestAuthentication
      → PrimitivesAuth.Action
      → Text
      → (Identity → CapabilityState → Type 0)
      → Type 0
  Opened a action capability did =
      (i : Identity) × (c : CapabilityState) × IsAdmitted p a action i
      × (opening i capability ≡ ok c)
      × (p.authorize_scope i action c.key ≡ ok tt)
      × did i c

  abbrev sealed_run : Identity → PrimitivesAuth.Action → Text → SealedFlow → SealedFlow × Answer
  sealed_run = run_sealed sha256 seal open_sealed raw clock

  sealed_mutation :
      (a : RequestAuthentication) (action : PrimitivesAuth.Action) (capability : Text)
      (expires : Time) (then : Identity → CapabilityState → Service)
      → ((i : Identity) (c : CapabilityState)
          → (sealed_run i action c.key (opened_flow capability expires i c)).0.service ≡ then i c)
      → let after =
          (execute_sealed p a action capability
            (some opener)
            (some sealed_run)
            (sealed_flow service capability expires)).0.service in
        (after ≡ service) ⊎ Opened a action capability (λ i c. after ≡ then i c)
  sealed_mutation a action capability expires then ran =
      let flow = sealed_flow service capability expires in
      elim (execute_sealed-IsScoped p sealed_run a action capability opener flow) [
        | inl w ↦ inl (ap (λ f. f.service) w.kept)
        | inr (i, w, inl r) ↦
            inl (ap (λ f. f.service) r.kept ∙ open_scope-service i capability flow w.valid)
        | inr (i, w, inr (scope, o, r)) ↦
            let (c, x, key, opened) = open_scope-ok i capability expires scope w.valid o in
            let moved : (sealed_run i action scope (opener i capability flow).0).0.service
                ≡ then i c =
              rw opened (rw (sym key) (ran i c)) in
            inr (
              i,
              c,
              w,
              x,
              ap (λ k. p.authorize_scope i action k) key ∙ r.open_scope,
              ap (λ f. f.service) r.state ∙ moved,
            )
      ]

  same_key : (c : CapabilityState) → (c.key != c.key) ≡ false
  same_key c = ground arith

  -- A call of Renew leaves the service as it was, or the request was authenticated, the action was
  -- authorized, the capability was opened under the identity, its scope was authorized, and the service
  -- is what RenewOpened leaves for that identity and the opened capability.
  pub renew-IsAdmitted :
      (a : RequestAuthentication) (capability : Text) (expires : Time)
      → let after = (renew sha256 seal open_sealed raw clock p service a capability expires).0 in
        (after ≡ service)
        ⊎ ((i : Identity) × (c : CapabilityState) × IsAdmitted p a lease_renew i
            × (open_capability sha256 seal open_sealed service (core_of i) capability ≡ ok c)
            × (p.authorize_scope i lease_renew c.key ≡ ok tt)
            × (after
                ≡ (Leases.renew_opened sha256 seal open_sealed service
                    (core_of i)
                    c
                    expires
                    raw
                    clock).0))
  unfolding renew run_sealed
  renew-IsAdmitted a capability expires =
      sealed_mutation a lease_renew capability expires
        (λ i c.
          (Leases.renew_opened sha256 seal open_sealed service (core_of i) c expires raw clock).0)
        (λ i c. rw (same_key c, run_sealed) (rw renew_other (rw (eq_refl lease_renew) refl)))

  -- A call of Release leaves the service as it was, or the request was authenticated, the action was
  -- authorized, the capability was opened under the identity, its scope was authorized, and the service
  -- is what ReleaseOpened leaves for that identity and the opened capability.
  pub release-IsAdmitted :
      (a : RequestAuthentication) (capability : Text)
      → let after = (release sha256 seal open_sealed raw clock p service a capability).0 in
        (after ≡ service)
        ⊎ ((i : Identity) × (c : CapabilityState) × IsAdmitted p a lease_release i
            × (open_capability sha256 seal open_sealed service (core_of i) capability ≡ ok c)
            × (p.authorize_scope i lease_release c.key ≡ ok tt)
            × (after
                ≡ (Leases.release_opened sha256 seal open_sealed service (core_of i) c clock).0))
  unfolding release run_sealed
  release-IsAdmitted a capability =
      sealed_mutation a lease_release capability zero_time
        (λ i c. (Leases.release_opened sha256 seal open_sealed service (core_of i) c clock).0)
        (λ i c.
          rw (same_key c, run_sealed)
            (rw release_other.0 (rw release_other.1 (rw (eq_refl lease_release) refl))))

  -- A call of Inspect leaves the service as it was.
  inspect_kept :
      (a : RequestAuthentication) (capability : Text)
      → (inspect sha256 seal open_sealed raw clock p service a capability).0 ≡ service
  unfolding inspect run_sealed
  inspect_kept a capability =
      elim (sealed_mutation a lease_inspect capability zero_time (λ i c. service)
        (λ i c. rw (same_key c, run_sealed) (rw (eq_refl lease_inspect) refl))) [
          | inl kept ↦ kept
          | inr (i, c, w, x, authorized, kept) ↦ kept
        ]
