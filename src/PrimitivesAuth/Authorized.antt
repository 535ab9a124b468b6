-- ===== src/PrimitivesAuth/Authorized.antt =====
-- internal/primitivesauth/pipeline.go: when an operation runs.
use yukh_coordination.Base.{
  ◌≡◌, ◌⊎◌, ◌∙◌, refl, sym, subst, ok-injective, inl, inr, Bool, true, false, not, ◌||◌, some, Text,
  Result, ok, err, arith, Result-cases, Bool-cases,
}
use yukh_coordination.PrimitivesAuth.{
  Error, RequestAuthentication, Identity, Action, Answer, Operation, CapabilityOpener, Pipeline,
  valid_action, valid_identity, valid_digest, wrong_size, map_authorization_error,
  map_authentication_error, map_opener_error, map_operation_error, admit, run_scoped, run_opened,
  execute_public, execute_public_admitted, execute_sealed, execute_sealed_admitted,
}

-- The errors with which a call is refused.
abbrev pub is_refusal : Error → Bool
is_refusal Error.invalid_argument = true
is_refusal Error.unauthenticated = true
is_refusal Error.access_denied = true
is_refusal Error.invalid_capability = true
is_refusal Error.temporarily_unavailable = true
is_refusal _ = false

-- Admit has let this identity pass.
pub record IsAdmitted (p : Pipeline) (a : RequestAuthentication) (action : Action) (i : Identity)
    : Type 0 where
  pub authenticated : p.authenticate a ≡ ok i
  pub valid : valid_identity i ≡ true
  pub known : valid_action action ≡ true
  pub permitted : p.authorize_action i action ≡ ok tt

admit-IsAdmitted :
    (p : Pipeline) (a : RequestAuthentication) (action : Action) (i : Identity)
    → admit p a action ≡ ok i
    → IsAdmitted p a action i
unfolding admit
admit-IsAdmitted p a action i h = elim (Bool-cases (valid_action action)) [
  | inr k ↦ absurd (ground (arith, k, h))
  | inl k ↦ elim (Result-cases (p.authenticate a)) [
    | inl (e, x) ↦ absurd (ground (arith, k, x, h))
    | inr (j, x) ↦ elim (Bool-cases (valid_identity j)) [
      | inr v ↦ absurd (ground (arith, k, x, v, h))
      | inl v ↦ elim (Result-cases (p.authorize_action j action)) [
        | inl (e, y) ↦ absurd (ground (arith, k, x, v, y, h))
        | inr (u, y) ↦
            let passed : admit p a action ≡ ok j = rw (k, admit) (rw x (rw v (rw y refl))) in
            subst (λ z. IsAdmitted p a action z) (ok-injective j i (sym passed ∙ h))
              (record { authenticated = x; valid = v; known = k; permitted = y })
      ]
    ]
  ]
]

map_authorization_error_refusal : (e : Error) → is_refusal (map_authorization_error e) ≡ true
map_authorization_error_refusal Error.access_denied = refl
map_authorization_error_refusal _ = refl

map_authentication_error_refusal : (e : Error) → is_refusal (map_authentication_error e) ≡ true
map_authentication_error_refusal Error.unauthenticated = refl
map_authentication_error_refusal _ = refl

map_opener_error_refusal : (e : Error) → is_refusal (map_opener_error e) ≡ true
map_opener_error_refusal Error.invalid_capability = refl
map_opener_error_refusal _ = refl

admit-refuses :
    (p : Pipeline) (a : RequestAuthentication) (action : Action) (e : Error)
    → admit p a action ≡ err e
    → is_refusal e ≡ true
unfolding admit
admit-refuses p a action e h = elim (Bool-cases (valid_action action)) [
  | inr k ↦ ground (arith, k, h)
  | inl k ↦ elim (Result-cases (p.authenticate a)) [
    | inl (d, x) ↦ ground (arith, k, x, h, map_authentication_error_refusal d)
    | inr (j, x) ↦ elim (Bool-cases (valid_identity j)) [
      | inr v ↦ ground (arith, k, x, v, h)
      | inl v ↦ elim (Result-cases (p.authorize_action j action)) [
        | inl (d, y) ↦ ground (arith, k, x, v, y, h, map_authorization_error_refusal d)
        | inr (u, y) ↦ absurd (ground (arith, k, x, v, y, h))
      ]
    ]
  ]
]

module _ {S : Type 0} (p : Pipeline) (operation : Operation S) where
  -- The call was refused and has left the state `s`.
  pub record IsRefused (s : S) (after : S × Answer) : Type 0 where
    pub error : Error
    pub kept : after.0 ≡ s
    pub answered : after.1 ≡ err error
    pub refusal : is_refusal error ≡ true

  -- The operation has run once from the state `s`, for an identity to which the scope is open.
  pub record IsScoped (i : Identity) (action : Action) (scope : Text) (s : S) (after : S × Answer)
      : Type 0 where
    pub open_scope : p.authorize_scope i action scope ≡ ok tt
    pub well_formed : valid_digest scope ≡ true
    pub state : after.0 ≡ (operation i action scope s).0
    pub answer : after.1 ≡ map_operation_error (operation i action scope s).1

  refuse : (s : S) (e : Error) → is_refusal e ≡ true → IsRefused s (s, err e)
  refuse s e h = record { error = e; kept = refl; answered = refl; refusal = h }

  run_scoped_ends :
      (i : Identity) (action : Action) (scope : Text) (s : S)
      → valid_digest scope ≡ true
      → let after = run_scoped p i action scope operation s in
        IsRefused s after ⊎ IsScoped i action scope s after
  unfolding run_scoped
  run_scoped_ends i action scope s v = elim (Result-cases (p.authorize_scope i action scope)) [
    | inl (e, x) ↦
        rw (x, run_scoped)
          (inl (refuse s (map_authorization_error e) (map_authorization_error_refusal e)))
    | inr (u, x) ↦
        rw (x, run_scoped)
          (inr (record { open_scope = x; well_formed = v; state = refl; answer = refl }))
  ]

  -- ExecutePublic either refuses, with one of the refusing errors and the state as it was, or it has
  -- authenticated a valid identity, the action and then the scope were authorized for it, and the
  -- operation has run once for that identity, action and scope, its error mapped.
  pub execute_public-IsScoped :
      (a : RequestAuthentication) (action : Action) (scope : Text) (s : S)
      → let after = execute_public p a action scope (some operation) s in
        IsRefused s after
        ⊎ ((i : Identity) × IsAdmitted p a action i × IsScoped i action scope s after)
  unfolding execute_public execute_public_admitted
  execute_public-IsScoped a action scope s =
      elim (Bool-cases (not (valid_action action) || not (valid_digest scope))) [
        | inl b ↦ rw (b, execute_public) (inl (refuse s Error.invalid_argument refl))
        | inr b ↦ elim (Result-cases (admit p a action)) [
          | inl (e, x) ↦
              rw (b, execute_public) (rw x (inl (refuse s e (admit-refuses p a action e x))))
          | inr (i, x) ↦
              let w = admit-IsAdmitted p a action i x in
              let sized : valid_digest scope ≡ true = ground (arith, b) in
              let passes : (not (valid_action action)
                    || not (valid_identity i)
                    || not (valid_digest scope))
                  ≡ false =
                ground (arith, w.known, w.valid, sized) in
              rw (b, execute_public)
                (rw x (
                  rw (passes, execute_public_admitted)
                    (elim (run_scoped_ends i action scope s sized) [
                      | inl r ↦ inl r
                      | inr r ↦ inr (i, w, r)
                    ])))
        ]
      ]

  run_opened_ends :
      (i : Identity) (action : Action) (s : S) (answer : Result Error Text)
      → let after = run_opened p i action operation s answer in
        IsRefused s after ⊎ ((scope : Text) × (answer ≡ ok scope) × IsScoped i action scope s after)
  unfolding run_opened
  run_opened_ends i action s (err e) =
      inl (refuse s (map_opener_error e) (map_opener_error_refusal e))
  run_opened_ends i action s (ok scope) = elim (Bool-cases (valid_digest scope)) [
    | inr v ↦ rw (v, run_opened) (inl (refuse s Error.temporarily_unavailable refl))
    | inl v ↦
        rw (v, run_opened)
          (elim (run_scoped_ends i action scope s v) [
            | inl r ↦ inl r
            | inr r ↦ inr (scope, refl, r)
          ])
  ]

  -- ExecuteSealed either refuses as ExecutePublic does, or it has admitted an identity and asked the
  -- opener for the scope of the capability under that identity; from the state that the opener leaves it
  -- has then refused, or the opener has answered a scope, the scope was authorized, and the operation has
  -- run once for that identity, the action and that scope, its error mapped.
  pub execute_sealed-IsScoped :
      (a : RequestAuthentication) (action : Action) (capability : Text)
      (opener : CapabilityOpener S) (s : S)
      → let after = execute_sealed p a action capability (some opener) (some operation) s in
        IsRefused s after
        ⊎ ((i : Identity) × IsAdmitted p a action i
            × (IsRefused (opener i capability s).0 after
                ⊎ ((scope : Text) × ((opener i capability s).1 ≡ ok scope)
                    × IsScoped i action scope (opener i capability s).0 after)))
  unfolding execute_sealed execute_sealed_admitted
  execute_sealed-IsScoped a action capability opener s =
      elim (Bool-cases (not (valid_action action) || wrong_size capability)) [
        | inl b ↦ rw (b, execute_sealed) (inl (refuse s Error.invalid_argument refl))
        | inr b ↦ elim (Result-cases (admit p a action)) [
          | inl (e, x) ↦
              rw (b, execute_sealed) (rw x (inl (refuse s e (admit-refuses p a action e x))))
          | inr (i, x) ↦
              let w = admit-IsAdmitted p a action i x in
              let passes : (not (valid_action action)
                    || not (valid_identity i)
                    || wrong_size capability)
                  ≡ false =
                ground (arith, w.known, w.valid, b) in
              rw (b, execute_sealed)
                (rw x (
                  rw (passes, execute_sealed_admitted)
                    (inr (
                      i,
                      w,
                      run_opened_ends i action (opener i capability s).0 (opener i capability s).1,
                    ))))
        ]
      ]
