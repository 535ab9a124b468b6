-- ===== src/Primitives/Tests.antt =====
-- The primitives service at work on one lease.
use yukh_coordination.Base.{
  ℕ, ◌*◌, Option, none, some, [], Text, text, replicate, ℕ_discrete, Result, ok,
}
use yukh_coordination.Time.{Time, utc}
use yukh_coordination.LeaseStore.{Store}
use yukh_coordination.LeaseStore as LeaseStore
use yukh_coordination.Primitives.{Error, Identity, CapabilityState, LeaseResult, Service}
use yukh_coordination.Primitives.Leases.{acquire}

abbrev at : ℕ → Time
at ms = record { instant = ms * 1_000_000; location = utc }

-- A stand-in for the digest.
abbrev toy_hash : Text → Text
toy_hash t = replicate 32 0

abbrev digest : Text
digest = replicate 64 b'0'

abbrev token : Text
token = replicate 16 1

abbrev state : CapabilityState
state = record {
  key = digest;
  holder = digest;
  expires_at = at 900;
  epoch = 7;
  fencing_token = 1;
  token_id = token;
}

unfoldable CapabilityState-discrete : Discrete CapabilityState
unfolding ℕ_discrete
CapabilityState-discrete = hlevel ℕ_discrete

-- A sealer that seals one state only.
abbrev toy_seal : Identity → CapabilityState → Option Text
toy_seal i c = elim (CapabilityState-discrete c state) [
  | yes _ ↦ some (text "sealed")
  | no _ ↦ none
]

abbrev toy_open : Identity → Text → Result Error CapabilityState
toy_open i x = ok state

abbrev store : Store
store = record { max_lifetime = 1_000_000_000; epoch = 7; nonces = []; leases = []; revision = 0 }

abbrev service : Service
service = record {
  nonces = store;
  leases = store;
  budget = record { limit = 2; pending_ttl = 5_000_000; epoch = 7; entries = [] };
  epoch = 7;
  max_ttl = 1_000_000_000;
}

abbrev alice : Identity
alice = record { tenant = text "t"; principal = text "alice" }

abbrev clock : ℕ → Time
clock n = at 100

abbrev after_acquire : Service
after_acquire =
    (acquire toy_hash toy_seal toy_open service alice digest digest (at 900) (some token) clock).0

abbrev granted_lease : LeaseResult
granted_lease = record { capability = text "sealed"; fencing_token = 1; expires_at = at 900 }
