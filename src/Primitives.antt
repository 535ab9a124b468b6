-- ===== src/Primitives.antt =====
-- internal/primitives/service.go: the coordination primitives over the ports, here with the in-memory
-- adapters behind them. SHA-256 and the capability sealer are parameters; a source of token identifiers
-- is what it returns. `clock` gives the readings of the clock in the order of the code.
pub mod Leases
pub mod Capability
mod Sealed
pub mod Acquired
mod Tests
use yukh_coordination.Base.{
  ℕ, ◌+◌, ◌/◌, ◌%◌, Bool, true, false, not, ◌&&◌, ◌||◌, Option, none, some, List, [], ◌∷◌, ◌++◌,
  ltb, leb, ◌==◌, ◌!=◌, nat_eq, text_eq, Text, text, Result, ok, err, if◌then◌else◌, length, all,
}
use yukh_coordination.Time.{Time, is_utc, whole_millis, after, add, to_utc}
use yukh_coordination.Coordination.{
  NonceOutcome, LeaseStatus, NonceValue, LeaseValue, LeaseResumeValue, is_digest, max_safe_integer,
  new_lease_resume_value, new_capability_token_id,
}
use yukh_coordination.Coordination as Coordination
use yukh_coordination.LeaseStore.{Lease, consume}
use yukh_coordination.LeaseStore as LeaseStore
use yukh_coordination.Budget.{CapabilityBudget, reserve, commit, cancel, replace, retire}
use yukh_coordination.Relay.{hex_encode}

pub data Error : Type 0 where
  invalid_argument conflict unavailable invariant : Error

pub record Identity : Type 0 where
  pub tenant : Text
  pub principal : Text

pub record CapabilityState : Type 0 where
  pub key : Text
  pub holder : Text
  pub expires_at : Time
  pub epoch : ℕ
  pub fencing_token : ℕ
  pub token_id : Text

pub record LeaseResult : Type 0 where
  pub capability : Text
  pub fencing_token : ℕ
  pub expires_at : Time

-- The service with the stores behind it.
pub record Service : Type 0 where
  pub nonces : LeaseStore.Store
  pub leases : LeaseStore.Store
  pub budget : CapabilityBudget
  pub epoch : ℕ
  pub max_ttl : ℕ

abbrev pub max_capability_size : ℕ
max_capability_size = 3800

abbrev pub is_identifier_char : ℕ → Bool
is_identifier_char c =
    (leb b'a' c && leb c b'z')
    || (leb b'A' c && leb c b'Z')
    || (leb b'0' c && leb c b'9')
    || c == b'.'
    || c == b'_'
    || c == b':'
    || c == b'-'

unfoldable pub is_identifier : Text → Bool
is_identifier value =
    not (value == []) && not (ltb 256 (length value)) && all is_identifier_char value

unfoldable pub new_identity : Text → Text → Result Error Identity
new_identity tenant principal =
    if not (is_identifier tenant) || not (is_identifier principal)
    then err Error.invalid_argument
    else ok (record { tenant = tenant; principal = principal })

unfoldable pub new_service :
    LeaseStore.Store → LeaseStore.Store → CapabilityBudget → ℕ → ℕ → Result Error Service
new_service nonces leases budget epoch max_ttl =
    if epoch == 0
      || ltb max_safe_integer epoch
      || nonces.epoch != epoch
      || leases.epoch != epoch
      || budget.epoch != epoch
      || max_ttl == 0
    then err Error.invalid_argument
    else ok (record {
      nonces = nonces;
      leases = leases;
      budget = budget;
      epoch = epoch;
      max_ttl = max_ttl;
    })

abbrev pub map_store_error : Coordination.Error → Error
map_store_error Coordination.Error.invalid_argument = Error.invalid_argument
map_store_error Coordination.Error.conflict = Error.conflict
map_store_error _ = Error.unavailable

abbrev pub map_budget_error : Coordination.Error → Error
map_budget_error Coordination.Error.unavailable = Error.unavailable
map_budget_error Coordination.Error.conflict = Error.unavailable
map_budget_error _ = Error.invariant

abbrev pub mapped : {E F A : Type 0} → (E → F) → Result E A → Result F A
mapped f (err e) = err (f e)
mapped f (ok a) = ok a

unfoldable pub valid_expiry : Service → Time → Time → Bool
valid_expiry s expires now =
    is_utc expires
    && whole_millis expires
    && after expires (to_utc now)
    && not (after expires (add (to_utc now) s.max_ttl))

-- A zero identifier is refused; the rest is NewLeaseResumeValue.
unfoldable pub new_capability_state :
    Text → Text → Time → ℕ → ℕ → Text → Result Error CapabilityState
new_capability_state key holder expires epoch token token_id =
    elim (new_lease_resume_value holder expires epoch token) [
      | err _ ↦ err Error.invalid_argument
      | ok v ↦ elim (new_capability_token_id token_id) [
        | err _ ↦ err Error.invalid_argument
        | ok _ ↦
            if not (is_digest key)
            then err Error.invalid_argument
            else ok (record {
              key = key;
              holder = v.holder_digest;
              expires_at = v.expires_at;
              epoch = v.epoch;
              fencing_token = v.fencing_token;
              token_id = token_id;
            })
      ]
    ]

abbrev pub resume_value : CapabilityState → Result Error LeaseResumeValue
resume_value c =
    mapped (λ _. Error.invariant)
      (new_lease_resume_value c.holder c.expires_at c.epoch c.fencing_token)

-- InspectOpened
unfoldable pub inspect_opened : Service → CapabilityState → Time → Result Error LeaseStatus
inspect_opened s c now = elim (resume_value c) [
  | err e ↦ err e
  | ok v ↦ mapped map_store_error (LeaseStore.inspect s.leases c.key v now)
]

unfoldable pub resume_opened : Service → CapabilityState → Time → Result Error Lease
resume_opened s c now = elim (resume_value c) [
  | err e ↦ err e
  | ok v ↦ mapped map_store_error (LeaseStore.resume s.leases c.key v now)
]

module _ (sha256 : Text → Text) (seal : Identity → CapabilityState → Option Text)
    (open_sealed : Identity → Text → Result Error CapabilityState) where
  unfoldable pub derive_principal : Identity → Result Error Text
  derive_principal i =
      if not (is_identifier i.tenant) || not (is_identifier i.principal)
      then err Error.invalid_argument
      else ok (
          hex_encode (
            sha256 (
              text "yukh:coordination-capability-budget:v1\n"
              ++ i.tenant
              ++ text "\n"
              ++ i.principal)))

  -- The family is `nonce` or `lease` at both calls.
  unfoldable pub derive_key : Identity → Text → Text → Result Error Text
  derive_key i family scope =
      if not (is_identifier i.tenant)
        || not (is_identifier i.principal)
        || not (is_digest scope)
        || (family != text "nonce" && family != text "lease")
      then err Error.invalid_argument
      else ok (
          hex_encode (
            sha256 (
              text "yukh:coordination-primitives:v1\n"
              ++ i.tenant
              ++ text "\n"
              ++ family
              ++ text "\n"
              ++ scope)))

  unfoldable pub consume_nonce :
      Service → Identity → Text → Text → Time → (ℕ → Time) → Service × Result Error NonceOutcome
  consume_nonce s i scope value expires clock = elim (derive_key i (text "nonce") scope) [
    | err _ ↦ (s, err Error.invalid_argument)
    | ok key ↦
        if not (is_digest value) || not (valid_expiry s expires (clock 0))
        then (s, err Error.invalid_argument)
        else let (store, r) =
            consume s.nonces key
              (record { value_digest = value; expires_at = expires; epoch = s.epoch }) (clock 1) in
          (record s { nonces = store }, mapped map_store_error r)
  ]

  unfoldable pub open_capability : Service → Identity → Text → Result Error CapabilityState
  open_capability s i capability =
      if capability == [] || ltb max_capability_size (length capability)
      then err Error.invalid_argument
      else elim (open_sealed i capability) [
        | err Error.unavailable ↦ err Error.unavailable
        | err _ ↦ err Error.conflict
        | ok c ↦ if c.epoch != s.epoch then err Error.conflict else ok c
      ]

  unfoldable pub inspect : Service → Identity → Text → Time → Result Error LeaseStatus
  inspect s i capability now = elim (open_capability s i capability) [
    | err e ↦ err e
    | ok c ↦ inspect_opened s c now
  ]

  unfoldable pub seal_lease :
      Service → Identity → Text → Text → Time → ℕ → Text → Result Error LeaseResult
  seal_lease s i key holder expires fence token_id =
      elim (new_capability_state key holder expires s.epoch fence token_id) [
        | err _ ↦ err Error.invariant
        | ok c ↦ elim (seal i c) [
          | none ↦ err Error.unavailable
          | some capability ↦
              if capability == [] || ltb max_capability_size (length capability)
              then err Error.invariant
              else ok
                  (record { capability = capability; fencing_token = fence; expires_at = expires })
        ]
      ]

  -- The identifier and the principal that it counts for.
  unfoldable pub new_budget_token : Option Text → Identity → Result Error (Text × Text)
  new_budget_token none i = err Error.unavailable
  new_budget_token (some raw) i = elim (new_capability_token_id raw) [
    | err _ ↦ err Error.invariant
    | ok token ↦ elim (derive_principal i) [
      | err _ ↦ err Error.invalid_argument
      | ok principal ↦ ok (token, principal)
    ]
  ]
