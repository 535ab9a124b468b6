-- ===== src/Primitives/Sealed.antt =====
-- internal/primitives/service.go: what a sealed capability holds, and how Inspect opens it.
use yukh_coordination.Base.{
  ℕ, ◌≡◌, refl, sym, ap, ◌∙◌, subst, inl, inr, false, not, ◌||◌, Option, some, [], arith, ltb, Text,
  Result, ok, ok-injective, ◌==◌, ◌!=◌, nat_eq, text_eq, length, Result-cases, Option-cases,
  Bool-cases,
}
use yukh_coordination.Time.{Time}
use yukh_coordination.Coordination.{
  LeaseResumeValue, is_digest, new_lease_resume_value, new_capability_token_id,
}
use yukh_coordination.LeaseStore.{Store, Lease}
use yukh_coordination.LeaseStore as LeaseStore
use yukh_coordination.Primitives.{
  Error, Identity, CapabilityState, LeaseResult, Service, map_store_error, mapped, resume_value,
  inspect_opened, max_capability_size, new_capability_state, open_capability, inspect, seal_lease,
}

-- What a capability state holds, and that it can be resumed from.
record Holds (c : CapabilityState) (key holder : Text) (expires : Time) (epoch fence : ℕ)
    : Type 0 where
  key_is : c.key ≡ key
  epoch_is : c.epoch ≡ epoch
  resumes :
      resume_value c
      ≡ ok (record {
        holder_digest = holder;
        expires_at = expires;
        epoch = epoch;
        fencing_token = fence;
      })

pub new_lease_resume_value-ok :
    (holder : Text) (expires : Time) (epoch token : ℕ) (v : LeaseResumeValue)
    → new_lease_resume_value holder expires epoch token ≡ ok v
    → v ≡ record {
      holder_digest = holder;
      expires_at = expires;
      epoch = epoch;
      fencing_token = token;
    }
unfolding new_lease_resume_value
new_lease_resume_value-ok holder expires epoch token v h = ground (arith, h)

abbrev state_of : Text → Text → LeaseResumeValue → CapabilityState
state_of key token_id v = record {
  key = key;
  holder = v.holder_digest;
  expires_at = v.expires_at;
  epoch = v.epoch;
  fencing_token = v.fencing_token;
  token_id = token_id;
}

state_of-Holds :
    (key holder : Text) (expires : Time) (epoch fence : ℕ) (token_id : Text) (v : LeaseResumeValue)
    → new_lease_resume_value holder expires epoch fence ≡ ok v
    → Holds (state_of key token_id v) key holder expires epoch fence
state_of-Holds key holder expires epoch fence token_id v a =
    let same = new_lease_resume_value-ok holder expires epoch fence v a in
    record {
      key_is = refl;
      epoch_is = ap (λ w. w.epoch) same;
      resumes =
          ap
            (λ w.
              mapped (λ _. Error.invariant)
                (new_lease_resume_value w.holder_digest w.expires_at w.epoch w.fencing_token))
            same
          ∙ (ap (mapped (λ _. Error.invariant)) a ∙ ap {B = Result Error LeaseResumeValue} ok same);
    }

new_capability_state-Holds :
    (key holder : Text) (expires : Time) (epoch fence : ℕ) (token_id : Text) (c : CapabilityState)
    → new_capability_state key holder expires epoch fence token_id ≡ ok c
    → Holds c key holder expires epoch fence
unfolding new_capability_state
new_capability_state-Holds key holder expires epoch fence token_id c h =
    elim (Result-cases (new_lease_resume_value holder expires epoch fence)) [
      | inl (e, a) ↦ absurd (ground (arith, a, h))
      | inr (v, a) ↦ elim (Result-cases (new_capability_token_id token_id)) [
        | inl (e, b) ↦ absurd (ground (arith, a, b, h))
        | inr (u, b) ↦ elim (Bool-cases (not (is_digest key))) [
          | inl d ↦ absurd (ground (arith, a, b, d, h))
          | inr d ↦
              let built : new_capability_state key holder expires epoch fence token_id
                  ≡ ok (state_of key token_id v) =
                rw (a, new_capability_state) (rw b (rw d refl)) in
              subst (λ x. Holds x key holder expires epoch fence)
                (ok-injective (state_of key token_id v) c (sym built ∙ h))
                (state_of-Holds key holder expires epoch fence token_id v a)
        ]
      ]
    ]

module _ (sha256 : Text → Text) (seal : Identity → CapabilityState → Option Text)
    (open_sealed : Identity → Text → Result Error CapabilityState) where
  -- What a successful sealing tells.
  seal_lease-ok :
      (s : Service) (i : Identity) (key holder : Text) (expires : Time) (fence : ℕ) (token : Text)
      (result : LeaseResult)
      → seal_lease sha256 seal open_sealed s i key holder expires fence token ≡ ok result
      → (c : CapabilityState) × Holds c key holder expires s.epoch fence
        × (seal i c ≡ some result.capability)
        × ((result.capability == [] || ltb max_capability_size (length result.capability)) ≡ false)
  unfolding seal_lease
  seal_lease-ok s i key holder expires fence token result h =
      elim (Result-cases (new_capability_state key holder expires s.epoch fence token)) [
        | inl (e, a) ↦ absurd (ground (arith, a, h))
        | inr (c, a) ↦ elim (Option-cases (seal i c)) [
          | inl b ↦ absurd (ground (arith, a, b, h))
          | inr (x, b) ↦ elim (Bool-cases (x == [] || ltb max_capability_size (length x))) [
            | inl d ↦ absurd (ground (arith, a, b, d, h))
            | inr d ↦
                let made : seal_lease sha256 seal open_sealed s i key holder expires fence token
                    ≡ ok (record { capability = x; fencing_token = fence; expires_at = expires }) =
                  rw (a, seal_lease) (rw b (rw d refl)) in
                let same = ap (λ r. r.capability) (ok-injective _ result (sym made ∙ h)) in
                (
                  c,
                  new_capability_state-Holds key holder expires s.epoch fence token c a,
                  b ∙ ap some same,
                  subst (λ y. (y == [] || ltb max_capability_size (length y)) ≡ false) same d,
                )
          ]
        ]
      ]

  -- Inspect of a sealed capability asks the lease store for what was sealed.
  pub inspect-sealed :
      (s : Service) (i : Identity) (key holder : Text) (expires : Time) (fence : ℕ) (token : Text)
      (result : LeaseResult) (t : Time)
      → ((c : CapabilityState) (x : Text) → seal i c ≡ some x → open_sealed i x ≡ ok c)
      → seal_lease sha256 seal open_sealed s i key holder expires fence token ≡ ok result
      → inspect sha256 seal open_sealed s i result.capability t
        ≡ mapped map_store_error (
            LeaseStore.inspect s.leases key
              (record {
                holder_digest = holder;
                expires_at = expires;
                epoch = s.epoch;
                fencing_token = fence;
              })
              t)
  unfolding inspect open_capability inspect_opened
  inspect-sealed s i key holder expires fence token result t honest h =
      let (c, w, sealed, sized) = seal_lease-ok s i key holder expires fence token result h in
      let same_epoch : (c.epoch != s.epoch) ≡ false = ground (arith, w.epoch_is) in
      let opened : open_capability sha256 seal open_sealed s i result.capability ≡ ok c =
        rw (sized, open_capability) (rw (honest c result.capability sealed) (rw same_epoch refl)) in
      rw (opened, inspect) (rw (w.resumes, inspect_opened) (rw w.key_is refl))
