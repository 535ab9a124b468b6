-- ===== src/Primitives/Leases.antt =====
-- internal/primitives/service.go: the methods of the service that write leases.
use yukh_coordination.Base.{
  ℕ, not, ◌||◌, Option, Text, text, Result, ok, err, if◌then◌else◌, text_eq,
}
use yukh_coordination.Time.{Time}
use yukh_coordination.Coordination.{is_digest}
use yukh_coordination.LeaseStore.{Lease}
use yukh_coordination.LeaseStore as LeaseStore
use yukh_coordination.Budget.{reserve, commit, cancel, replace, retire}
use yukh_coordination.Primitives.{
  Error, Identity, CapabilityState, LeaseResult, Service, map_store_error, map_budget_error, mapped,
  valid_expiry, resume_opened, derive_principal, derive_key, open_capability, seal_lease,
  new_budget_token,
}

module _ (sha256 : Text → Text) (seal : Identity → CapabilityState → Option Text)
    (open_sealed : Identity → Text → Result Error CapabilityState) where
  -- The reservation is cancelled after a failure of the lease store or of the sealer.
  abbrev pub cancelled : Service → Text → Text → Error → Time → Service × Result Error LeaseResult
  cancelled s principal token e now =
      let (b, r) = cancel s.budget principal token s.epoch now in
      (record s { budget = b }, elim r [ err _ ↦ err Error.unavailable | ok _ ↦ err e ])

  abbrev pub finish_acquire :
      Service
      → Identity
      → Text
      → Text
      → Time
      → Text
      → Text
      → Lease
      → (ℕ → Time)
      → Service × Result Error LeaseResult
  finish_acquire s i key holder expires principal token h clock =
      elim (seal_lease sha256 seal open_sealed s i key holder expires h.revision token) [
        | err e ↦ cancelled s principal token e (clock 6)
        | ok result ↦
            let (b, r) = commit s.budget principal token s.epoch (clock 6) in
            (
              record s { budget = b },
              elim r [ err e ↦ err (map_budget_error e) | ok _ ↦ ok result ],
            )
      ]

  abbrev pub acquire_reserved :
      Service
      → Identity
      → Text
      → Text
      → Time
      → Text
      → Text
      → (ℕ → Time)
      → Service × Result Error LeaseResult
  acquire_reserved s i key holder expires principal token clock =
      let (l, r) =
        LeaseStore.acquire s.leases key
          (record { holder_digest = holder; expires_at = expires; epoch = s.epoch }) (clock 4)
          (clock 5) in
      elim r [
        | err e ↦ cancelled (record s { leases = l }) principal token (map_store_error e) (clock 6)
        | ok h ↦
            finish_acquire (record s { leases = l }) i key holder expires principal token h clock
      ]

  unfoldable pub acquire :
      Service
      → Identity
      → Text
      → Text
      → Time
      → Option Text
      → (ℕ → Time)
      → Service × Result Error LeaseResult
  acquire s i scope holder expires raw clock =
      elim (derive_key sha256 seal open_sealed i (text "lease") scope) [
        | err _ ↦ (s, err Error.invalid_argument)
        | ok key ↦
            if not (is_digest holder) || not (valid_expiry s expires (clock 0))
            then (s, err Error.invalid_argument)
            else elim (new_budget_token sha256 seal open_sealed raw i) [
              | err e ↦ (s, err e)
              | ok (token, principal) ↦
                  let (b, r) =
                    reserve s.budget principal token expires s.epoch (clock 1) (clock 2)
                      (clock 3) in
                  elim r [
                    | err e ↦ (record s { budget = b }, err (map_budget_error e))
                    | ok _ ↦
                        acquire_reserved (record s { budget = b }) i key holder expires principal
                          token clock
                  ]
            ]
      ]

  abbrev pub finish_renew :
      Service
      → Identity
      → CapabilityState
      → Time
      → Lease
      → Option Text
      → (ℕ → Time)
      → Service × Result Error LeaseResult
  finish_renew s i c expires h raw clock = elim (new_budget_token sha256 seal open_sealed raw i) [
    | err e ↦ (s, err e)
    | ok (token, principal) ↦
        elim (seal_lease sha256 seal open_sealed s i c.key c.holder expires h.revision token) [
          | err e ↦ (s, err e)
          | ok result ↦
              let (b, r) =
                replace s.budget principal c.token_id token expires s.epoch (clock 3) (clock 4) in
              (
                record s { budget = b },
                elim r [ err e ↦ err (map_budget_error e) | ok _ ↦ ok result ],
              )
        ]
  ]

  -- RenewOpened
  unfoldable pub renew_opened :
      Service
      → Identity
      → CapabilityState
      → Time
      → Option Text
      → (ℕ → Time)
      → Service × Result Error LeaseResult
  renew_opened s i c expires raw clock =
      if not (valid_expiry s expires (clock 0))
      then (s, err Error.invalid_argument)
      else elim (resume_opened s c (clock 1)) [
        | err e ↦ (s, err e)
        | ok held ↦
            let (l, h, r) = LeaseStore.renew s.leases held expires (clock 2) in
            elim r [
              | err e ↦ (record s { leases = l }, err (map_store_error e))
              | ok _ ↦ finish_renew (record s { leases = l }) i c expires h raw clock
            ]
      ]

  unfoldable pub renew :
      Service
      → Identity
      → Text
      → Time
      → Option Text
      → (ℕ → Time)
      → Service × Result Error LeaseResult
  unfolding renew_opened
  renew s i capability expires raw clock =
      elim (open_capability sha256 seal open_sealed s i capability) [
        | err e ↦ (s, err e)
        | ok c ↦ renew_opened s i c expires raw clock
      ]

  -- ReleaseOpened
  unfoldable pub release_opened :
      Service → Identity → CapabilityState → (ℕ → Time) → Service × Result Error (Unit {0})
  release_opened s i c clock = elim (resume_opened s c (clock 0)) [
    | err e ↦ (s, err e)
    | ok held ↦
        let (l, h, r) = LeaseStore.release s.leases held in
        elim r [
          | err e ↦ (record s { leases = l }, err (map_store_error e))
          | ok _ ↦ elim (derive_principal sha256 seal open_sealed i) [
            | err _ ↦ (record s { leases = l }, err Error.invariant)
            | ok principal ↦
                let (b, q) = retire s.budget principal c.token_id s.epoch (clock 1) in
                (record s { leases = l; budget = b }, mapped map_budget_error q)
          ]
        ]
  ]

  unfoldable pub release :
      Service → Identity → Text → (ℕ → Time) → Service × Result Error (Unit {0})
  unfolding release_opened
  release s i capability clock = elim (open_capability sha256 seal open_sealed s i capability) [
    | err e ↦ (s, err e)
    | ok c ↦ release_opened s i c clock
  ]
