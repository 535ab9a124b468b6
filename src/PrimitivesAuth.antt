-- ===== src/PrimitivesAuth.antt =====
-- internal/primitivesauth/pipeline.go: the two-phase authorization in front of the primitives. The
-- authenticator and the two authorizers are parameters: what they answer is a function of what they are
-- asked. An opener and an operation work on a state `S`, which is all that they can change.
pub mod Authorized
pub mod Errors
pub mod Identities
mod Tests
use yukh_coordination.Base.{
  ℕ, Bool, true, false, not, ◌&&◌, ◌||◌, leb, ltb, ◌==◌, ◌!=◌, nat_eq, text_eq, Text, text, List,
  [], ◌∷◌, Option, none, some, Result, ok, err, length, all, if◌then◌else◌,
}
use yukh_coordination.Coordination.{is_hex}

-- `foreign` is an error that wraps none of the others.
pub data Error : Type 0 where
  invalid_argument unauthenticated access_denied invalid_capability : Error
  temporarily_unavailable invariant_violation conflict foreign : Error

-- A Go string type.
abbrev pub Action : Type 0
Action = Text

abbrev pub nonce_consume : Action
nonce_consume = text "coordination.nonce.consume"

abbrev pub lease_acquire : Action
lease_acquire = text "coordination.lease.acquire"

abbrev pub lease_inspect : Action
lease_inspect = text "coordination.lease.inspect"

abbrev pub lease_renew : Action
lease_renew = text "coordination.lease.renew"

abbrev pub lease_release : Action
lease_release = text "coordination.lease.release"

unfoldable pub valid_action : Action → Bool
valid_action action =
    action == nonce_consume
    || action == lease_acquire
    || action == lease_inspect
    || action == lease_renew
    || action == lease_release

pub record RequestAuthentication : Type 0 where
  pub credential : Text
  pub proof : Text
  pub method : Text
  pub target_uri : Text

unfoldable pub new_request_authentication :
    Text → Text → Text → Text → Result Error RequestAuthentication
new_request_authentication credential proof method target_uri =
    if credential == []
      || ltb 8192 (length credential)
      || proof == []
      || ltb 16384 (length proof)
      || method != text "POST"
      || ltb (length target_uri) 9
      || ltb 4096 (length target_uri)
    then err Error.invalid_argument
    else ok (record {
      credential = credential;
      proof = proof;
      method = method;
      target_uri = target_uri;
    })

pub record Identity : Type 0 where
  pub tenant : Text
  pub principal : Text

-- `[A-Za-z0-9]` and `[A-Za-z0-9._:-]`
abbrev pub is_alphanumeric : ℕ → Bool
is_alphanumeric c =
    (leb b'A' c && leb c b'Z') || (leb b'a' c && leb c b'z') || (leb b'0' c && leb c b'9')

abbrev pub is_pattern_char : ℕ → Bool
is_pattern_char c = is_alphanumeric c || c == b'.' || c == b'_' || c == b':' || c == b'-'

-- `^[A-Za-z0-9][A-Za-z0-9._:-]{0,255}$`
unfoldable pub identifier_pattern : Text → Bool
identifier_pattern [] = false
identifier_pattern (c ∷ rest) =
    is_alphanumeric c && all is_pattern_char rest && not (ltb 255 (length rest))

unfoldable pub new_identity : Text → Text → Result Error Identity
new_identity tenant principal =
    if not (identifier_pattern tenant) || not (identifier_pattern principal)
    then err Error.invalid_argument
    else ok (record { tenant = tenant; principal = principal })

unfoldable pub valid_identity : Identity → Bool
valid_identity i = identifier_pattern i.tenant && identifier_pattern i.principal

unfoldable pub valid_digest : Text → Bool
valid_digest value = if length value != 64 then false else all is_hex value

abbrev pub max_capability_size : ℕ
max_capability_size = 3800

abbrev pub Answer : Type 0
Answer = Result Error (Unit {0})

abbrev pub CapabilityOpener : Type 0 → Type 0
CapabilityOpener S = Identity → Text → S → S × Result Error Text

-- ScopedOperation
abbrev pub Operation : Type 0 → Type 0
Operation S = Identity → Action → Text → S → S × Answer

pub record Pipeline : Type 0 where
  pub authenticate : RequestAuthentication → Result Error Identity
  pub authorize_action : Identity → Action → Answer
  pub authorize_scope : Identity → Action → Text → Answer

abbrev pub map_authorization_error : Error → Error
map_authorization_error Error.access_denied = Error.access_denied
map_authorization_error _ = Error.temporarily_unavailable

abbrev pub map_operation_error : Answer → Answer
map_operation_error (ok u) = ok u
map_operation_error (err Error.invalid_capability) = err Error.invalid_capability
map_operation_error (err Error.invariant_violation) = err Error.invariant_violation
map_operation_error (err Error.conflict) = err Error.conflict
map_operation_error (err _) = err Error.temporarily_unavailable

abbrev pub map_authentication_error : Error → Error
map_authentication_error Error.unauthenticated = Error.unauthenticated
map_authentication_error _ = Error.temporarily_unavailable

abbrev pub map_opener_error : Error → Error
map_opener_error Error.invalid_capability = Error.invalid_capability
map_opener_error _ = Error.temporarily_unavailable

unfoldable pub admit : Pipeline → RequestAuthentication → Action → Result Error Identity
admit p authentication action =
    if not (valid_action action)
    then err Error.invalid_argument
    else elim (p.authenticate authentication) [
      | err e ↦ err (map_authentication_error e)
      | ok identity ↦
          if not (valid_identity identity)
          then err Error.temporarily_unavailable
          else elim (p.authorize_action identity action) [
            | err e ↦ err (map_authorization_error e)
            | ok _ ↦ ok identity
          ]
    ]

abbrev pub wrong_size : Text → Bool
wrong_size capability = capability == [] || ltb max_capability_size (length capability)

-- A nil operation or opener is `none`.
module _ {S : Type 0} (p : Pipeline) where
  -- The last two steps of the admitted calls.
  unfoldable pub run_scoped : Identity → Action → Text → Operation S → S → S × Answer
  run_scoped identity action scope operation s = elim (p.authorize_scope identity action scope) [
    | err e ↦ (s, err (map_authorization_error e))
    | ok _ ↦
        let (after, answer) = operation identity action scope s in
        (after, map_operation_error answer)
  ]

  unfoldable pub execute_public_admitted :
      Identity → Action → Text → Option (Operation S) → S → S × Answer
  execute_public_admitted identity action scope none s = (s, err Error.invalid_argument)
  execute_public_admitted identity action scope (some operation) s =
      if not (valid_action action) || not (valid_identity identity) || not (valid_digest scope)
      then (s, err Error.invalid_argument)
      else run_scoped identity action scope operation s

  unfoldable pub execute_public :
      RequestAuthentication → Action → Text → Option (Operation S) → S → S × Answer
  execute_public authentication action scope none s = (s, err Error.invalid_argument)
  execute_public authentication action scope (some operation) s =
      if not (valid_action action) || not (valid_digest scope)
      then (s, err Error.invalid_argument)
      else elim (admit p authentication action) [
        | err e ↦ (s, err e)
        | ok identity ↦ execute_public_admitted identity action scope (some operation) s
      ]

  -- ExecuteSealedAdmitted from the answer of the opener on.
  unfoldable pub run_opened : Identity → Action → Operation S → S → Result Error Text → S × Answer
  run_opened identity action operation s (err e) = (s, err (map_opener_error e))
  run_opened identity action operation s (ok scope) =
      if not (valid_digest scope)
      then (s, err Error.temporarily_unavailable)
      else run_scoped identity action scope operation s

  unfoldable pub execute_sealed_admitted :
      Identity → Action → Text → Option (CapabilityOpener S) → Option (Operation S) → S → S × Answer
  execute_sealed_admitted identity action capability none operation s =
      (s, err Error.invalid_argument)
  execute_sealed_admitted identity action capability (some opener) none s =
      (s, err Error.invalid_argument)
  execute_sealed_admitted identity action capability (some opener) (some operation) s =
      if not (valid_action action) || not (valid_identity identity) || wrong_size capability
      then (s, err Error.invalid_argument)
      else let (opened, answer) = opener identity capability s in
        run_opened identity action operation opened answer

  unfoldable pub execute_sealed :
      RequestAuthentication
      → Action
      → Text
      → Option (CapabilityOpener S)
      → Option (Operation S)
      → S
      → S × Answer
  execute_sealed authentication action capability none operation s = (s, err Error.invalid_argument)
  execute_sealed authentication action capability (some opener) none s =
      (s, err Error.invalid_argument)
  execute_sealed authentication action capability (some opener) (some operation) s =
      if not (valid_action action) || wrong_size capability
      then (s, err Error.invalid_argument)
      else elim (admit p authentication action) [
        | err e ↦ (s, err e)
        | ok identity ↦
            execute_sealed_admitted identity action capability (some opener) (some operation) s
      ]
