-- ===== src/PrimitivesHttp/Tests.antt =====
-- The bridge at work on an empty service.
use yukh_coordination.Base.{ℕ, ◌*◌, ◌≡◌, ◌⊎◌, Option, some, [], Text, text, replicate, Result, ok}
use yukh_coordination.Time.{Time, utc}
use yukh_coordination.LeaseStore.{Store}
use yukh_coordination.Primitives.{CapabilityState, Service, consume_nonce, open_capability}
use yukh_coordination.Primitives as Primitives
use yukh_coordination.Primitives.Leases as Leases
use yukh_coordination.PrimitivesAuth.{
  RequestAuthentication, Identity, Pipeline, lease_acquire, lease_renew,
}
use yukh_coordination.PrimitivesAuth.Authorized.{IsAdmitted}
use yukh_coordination.PrimitivesHttp.Bridge.{acquire, renew}
use yukh_coordination.PrimitivesHttp.Identified.{core_of}
use yukh_coordination.PrimitivesHttp.Mutations.{acquire-IsAdmitted}
use yukh_coordination.PrimitivesHttp.Sealed.{renew-IsAdmitted}

abbrev at : ℕ → Time
at ms = record { instant = ms * 1_000_000; location = utc }

abbrev digest : Text
digest = replicate 64 b'0'

abbrev toy_hash : Text → Text
toy_hash t = replicate 32 0

abbrev sealed : CapabilityState
sealed = record {
  key = digest;
  holder = digest;
  expires_at = at 900;
  epoch = 7;
  fencing_token = 1;
  token_id = replicate 16 1;
}

abbrev toy_seal : Primitives.Identity → CapabilityState → Option Text
toy_seal i c = some (text "sealed")

abbrev toy_open : Primitives.Identity → Text → Result Primitives.Error CapabilityState
toy_open i x = ok sealed

abbrev store : Store
store = record { max_lifetime = 1_000_000_000; epoch = 7; nonces = []; leases = []; revision = 0 }

abbrev service : Service
service = record {
  nonces = store;
  leases = store;
  budget = record { limit = 2; pending_ttl = 5_000_000; epoch = 7; entries = [] };
  epoch = 7;
  max_ttl = 1_000_000_000;
}

abbrev alice : Identity
alice = record { tenant = text "t"; principal = text "alice" }

abbrev request : RequestAuthentication
request = record {
  credential = text "token";
  proof = text "proof";
  method = text "POST";
  target_uri = text "https://h/x";
}

abbrev pipeline : Pipeline
pipeline = record {
  authenticate = λ a. ok alice;
  authorize_action = λ i action. ok tt;
  authorize_scope = λ i action scope. ok tt;
}

abbrev token : Option Text
token = some (replicate 16 1)

abbrev clock : ℕ → Time
clock n = at 100

acquire-IsAdmitted_example :
    let after =
      acquire toy_hash toy_seal toy_open token clock pipeline service request digest digest
        (at 900) in
    (after.0 ≡ service)
    ⊎ ((i : Identity) × IsAdmitted pipeline request lease_acquire i
        × (pipeline.authorize_scope i lease_acquire digest ≡ ok tt)
        × (after.0
            ≡ (Leases.acquire toy_hash toy_seal toy_open service
                (core_of i)
                digest
                digest
                (at 900)
                token
                clock).0))
acquire-IsAdmitted_example =
    acquire-IsAdmitted toy_hash toy_seal toy_open token clock pipeline service request digest digest
      (at 900)

renew-IsAdmitted_example :
    let after =
      (renew toy_hash toy_seal toy_open token clock pipeline service request
        (text "sealed")
        (at 950)).0 in
    (after ≡ service)
    ⊎ ((i : Identity) × (c : CapabilityState) × IsAdmitted pipeline request lease_renew i
        × (open_capability toy_hash toy_seal toy_open service (core_of i) (text "sealed") ≡ ok c)
        × (pipeline.authorize_scope i lease_renew c.key ≡ ok tt)
        × (after
            ≡ (Leases.renew_opened toy_hash toy_seal toy_open service
                (core_of i)
                c
                (at 950)
                token
                clock).0))
renew-IsAdmitted_example =
    renew-IsAdmitted toy_hash toy_seal toy_open token clock pipeline service request (text "sealed")
      (at 950)
