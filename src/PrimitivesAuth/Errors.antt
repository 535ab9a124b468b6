-- ===== src/PrimitivesAuth/Errors.antt =====
-- internal/primitivesauth/pipeline.go: where the errors of a call come from.
use yukh_coordination.Base.{
  ◌≡◌, ◌⊎◌, sym, subst, ◌∙◌, inl, inr, Bool, true, false, some, Text, ok, err, arith,
}
use yukh_coordination.PrimitivesAuth.{
  Error, RequestAuthentication, Identity, Action, Answer, Operation, CapabilityOpener, Pipeline,
  map_operation_error, execute_sealed,
}
use yukh_coordination.PrimitivesAuth.Authorized.{
  is_refusal, IsAdmitted, IsRefused, execute_sealed-IsScoped,
}

err-injective : (d e : Error) → ◌≡◌ {A = Answer} (err d) (err e) → d ≡ e
err-injective d e h = cc

-- An error that the mapping of an operation's errors passes on.
abbrev pub is_passed : Error → Bool
is_passed Error.invalid_capability = true
is_passed Error.invariant_violation = true
is_passed Error.conflict = true
is_passed _ = false

mapped_error :
    (answer : Answer) (e : Error)
    → map_operation_error answer ≡ err e
    → (is_refusal e ≡ true) ⊎ ((is_passed e ≡ true) × (answer ≡ err e))
mapped_error (ok u) e h = absurd (ground (arith, h))
mapped_error (err Error.invalid_capability) e h = inr (ground (arith, h), h)
mapped_error (err Error.invariant_violation) e h = inr (ground (arith, h), h)
mapped_error (err Error.conflict) e h = inr (ground (arith, h), h)
mapped_error (err Error.invalid_argument) e h = inl (ground (arith, h))
mapped_error (err Error.unauthenticated) e h = inl (ground (arith, h))
mapped_error (err Error.access_denied) e h = inl (ground (arith, h))
mapped_error (err Error.temporarily_unavailable) e h = inl (ground (arith, h))
mapped_error (err Error.foreign) e h = inl (ground (arith, h))

module _ {S : Type 0} (p : Pipeline) (operation : Operation S) where
  refused_error :
      (s : S) (after : S × Answer) (e : Error)
      → IsRefused p operation s after
      → after.1 ≡ err e
      → is_refusal e ≡ true
  refused_error s after e w h =
      subst (λ d. is_refusal d ≡ true) (err-injective w.error e (sym w.answered ∙ h)) w.refusal

  -- Whatever the authenticator, the authorizers, the opener and the operation answer, an error of
  -- ExecuteSealed is one of the pipeline's own. Either it is one of the five with which the pipeline
  -- refuses; or it is invalid capability, invariant violation or conflict, the action was admitted, the
  -- opener has opened a scope that was authorized, and the operation on that scope has answered it.
  pub execute_sealed_error :
      (a : RequestAuthentication) (action : Action) (capability : Text)
      (opener : CapabilityOpener S) (s : S) (e : Error)
      → (execute_sealed p a action capability (some opener) (some operation) s).1 ≡ err e
      → (is_refusal e ≡ true)
        ⊎ ((is_passed e ≡ true)
            × (i : Identity) × (scope : Text) × IsAdmitted p a action i
            × ((opener i capability s).1 ≡ ok scope)
            × (p.authorize_scope i action scope ≡ ok tt)
            × ((operation i action scope (opener i capability s).0).1 ≡ err e))
  execute_sealed_error a action capability opener s e h =
      let after = execute_sealed p a action capability (some opener) (some operation) s in
      elim (execute_sealed-IsScoped p operation a action capability opener s) [
        | inl w ↦ inl (refused_error s after e w h)
        | inr (i, _, inl w) ↦ inl (refused_error (opener i capability s).0 after e w h)
        | inr (i, admitted, inr (scope, opened, w)) ↦
            elim (mapped_error (operation i action scope (opener i capability s).0).1 e
              (sym w.answer ∙ h)) [
                | inl x ↦ inl x
                | inr (passed, x) ↦ inr (passed, i, scope, admitted, opened, w.open_scope, x)
              ]
      ]
