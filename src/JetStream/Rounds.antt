-- ===== src/JetStream/Rounds.antt =====
-- internal/relay/jetstream/operations.go: the loop of the mutations.
use yukh_coordination.Base.{ℕ, ◌<◌, ◌≡◌, ◌⊎◌, true, Option, Text, ok}
use yukh_coordination.Relay as Relay
use yukh_coordination.JetStream.Reducer.{TenantState}
use yukh_coordination.JetStream.Operations.{Decision, answer, publish}
use yukh_coordination.JetStream.Store.{Round}

-- A round of the loop has the answer: the loaded state gave it, or its publish was acknowledged.
pub record IsBacked {A : Type 0} (decide : Option Text → TenantState → Decision A) (n : ℕ)
    (rounds : ℕ → Round) (a : A) : Type 0 where
  pub round : ℕ
  pub in_range : round < n
  pub state : TenantState
  pub loaded : (rounds round).loaded ≡ ok state
  pub backed :
      (decide (rounds round).command_id state ≡ answer (ok a))
      ⊎ ((raw : Text) × (decide (rounds round).command_id state ≡ publish raw a)
          × ((rounds round).acknowledged ≡ true))
