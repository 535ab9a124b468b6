-- ===== src/PrimitivesAuth/Tests.antt =====
-- The authorization pipeline at work on a counter.
use yukh_coordination.Base.{
  ℕ, suc, ◌≡◌, ◌⊎◌, refl, ap, true, some, Text, text, replicate, Result, ok, err, if◌then◌else◌,
  ◌==◌, text_eq, Text-discrete, ℕ_discrete,
}
use yukh_coordination.PrimitivesAuth.{
  Error, RequestAuthentication, Identity, Operation, CapabilityOpener, Pipeline, lease_acquire,
  lease_renew, valid_action, valid_identity, valid_digest, identifier_pattern, admit, run_scoped,
  run_opened, execute_public, execute_public_admitted, execute_sealed, execute_sealed_admitted,
}
use yukh_coordination.PrimitivesAuth.Authorized.{
  is_refusal, IsRefused, IsAdmitted, IsScoped, execute_sealed-IsScoped,
}
use yukh_coordination.PrimitivesAuth.Errors.{is_passed, execute_sealed_error}

abbrev alice : Identity
alice = record { tenant = text "t"; principal = text "alice" }

abbrev digest : Text
digest = replicate 64 b'0'

abbrev request : RequestAuthentication
request = record {
  credential = text "token";
  proof = text "proof";
  method = text "POST";
  target_uri = text "https://h/x";
}

-- It knows one identity and opens one scope.
abbrev pipeline : Pipeline
pipeline = record {
  authenticate = λ a. if a.credential == text "token" then ok alice else err Error.unauthenticated;
  authorize_action = λ i action. ok tt;
  authorize_scope = λ i action scope. if scope == digest then ok tt else err Error.access_denied;
}

-- It counts its runs and answers a conflict.
abbrev count_run : Operation ℕ
count_run i action scope n = (suc n, err Error.conflict)

abbrev opener : CapabilityOpener ℕ
opener i capability n = (n, ok capability)

public_runs :
    execute_public pipeline request lease_acquire digest (some count_run) 4
    ≡ (5, err Error.conflict)
unfolding execute_public execute_public_admitted run_scoped admit valid_action valid_identity
    valid_digest identifier_pattern Text-discrete ℕ_discrete
public_runs = refl

sealed_runs :
    execute_sealed pipeline request lease_renew digest (some opener) (some count_run) 4
    ≡ (5, err Error.conflict)
unfolding execute_sealed execute_sealed_admitted run_opened run_scoped admit valid_action
    valid_identity valid_digest identifier_pattern Text-discrete ℕ_discrete
sealed_runs = refl

execute_sealed-IsScoped_example :
    let after =
      execute_sealed pipeline request lease_renew digest (some opener) (some count_run) 4 in
    IsRefused pipeline count_run 4 after
    ⊎ ((i : Identity) × IsAdmitted pipeline request lease_renew i
        × (IsRefused pipeline count_run 4 after
            ⊎ ((scope : Text) × (◌≡◌ {A = Result Error Text} (ok digest) (ok scope))
                × IsScoped pipeline count_run i lease_renew scope 4 after)))
execute_sealed-IsScoped_example =
    execute_sealed-IsScoped pipeline count_run request lease_renew digest opener 4

execute_sealed_error_example :
    (is_refusal Error.conflict ≡ true)
    ⊎ ((is_passed Error.conflict ≡ true)
        × (i : Identity) × (scope : Text) × IsAdmitted pipeline request lease_renew i
        × ((opener i digest 4).1 ≡ ok scope)
        × (pipeline.authorize_scope i lease_renew scope ≡ ok tt)
        × ((count_run i lease_renew scope (opener i digest 4).0).1 ≡ err Error.conflict))
execute_sealed_error_example =
    execute_sealed_error pipeline count_run request lease_renew digest opener 4 Error.conflict
      (ap (λ r. r.1) sealed_runs)
