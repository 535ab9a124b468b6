-- ===== src/Transition/Claims.antt =====
-- internal/relay/service/transition.go: the claims that are active for a work item, and the
-- transitions that write them.
use mathlib.Core.Option.{some-injective}
use yukh_coordination.Base.{
  eq→≡, ◌<◌, ℕ, ◌+◌, ◌≤◌, ◌≡◌, sym, ap, ◌∙◌, inl, inr, Bool, true, false, not, ◌&&◌, ◌||◌, Option,
  none, some, [], ◌∷◌, arith, leb, ◌==◌, ◌!=◌, nat_eq, text_eq, Text, text, Map, lookup, insert,
  Result, ok, err, if◌then◌else◌, Bool-cases, Option-cases,
}
use yukh_coordination.Relay.{is_empty}
use yukh_coordination.Transition.{
  TransitionEvent, ClaimState, OfferState, TranscriptState, Failure, text_of, claim_key_of, counts,
  active_claims, apply_claim,
}
use yukh_coordination.Transition.Handoffs.{continued, apply_accept, offer_of, acceptable}

-- Every work item has at most 32 active claims.
abbrev pub IsBounded : TranscriptState → Type 0
IsBounded s = (work : Text) → active_claims s.claims work ≤ 32

-- A result whose state, if there is one, is bounded.
abbrev pub Kept : Result Failure TranscriptState → Type 0
Kept (err e) = Unit
Kept (ok s) = IsBounded s

abbrev pub Ends : Option (Result Failure TranscriptState) → Type 0
Ends none = Unit
Ends (some r) = Kept r

pub guard-Kept :
    (b : Bool) (e : Failure) (x : Result Failure TranscriptState)
    → Kept x
    → Kept (if b then err e else x)
guard-Kept true e x h = tt
guard-Kept false e x h = h

active_claims-insert :
    (k : Text) (c : ClaimState) (m : Map Text ClaimState) (work : Text)
    → active_claims (insert k c m) work ≤ counts work c + active_claims m work
unfolding active_claims insert
active_claims-insert k c [] work = omega arith
active_claims-insert k c ((j, d) ∷ m) work = elim (Bool-cases (j == k)) [
  | inl b ↦ rw b (omega arith)
  | inr b ↦ rw b (omega (arith, active_claims-insert k c m work))
]

-- Writing a claim that counts no more than the one of its key.
active_claims-update :
    (k : Text) (c d : ClaimState) (m : Map Text ClaimState) (work : Text)
    → lookup k m ≡ some d
    → counts work c ≤ counts work d
    → active_claims (insert k c m) work ≤ active_claims m work
unfolding active_claims insert lookup
active_claims-update k c d [] work e h = absurd (cc)
active_claims-update k c d ((j, x) ∷ m) work e h = elim (Bool-cases (j == k)) [
  | inl b ↦
      let same : x ≡ d =
        some-injective x d (sym (ap (λ t. if t then some x else lookup k m) b) ∙ e) in
      rw b (omega (arith, ap (counts work) same))
  | inr b ↦
      let rest : lookup k m ≡ some d = sym (ap (λ t. if t then some x else lookup k m) b) ∙ e in
      rw b (omega (arith, active_claims-update k c d m work rest h))
]

pub continued-lookup :
    (s : TranscriptState) (event : TransitionEvent) (c : ClaimState)
    → continued s event ≡ some c
    → lookup (claim_key_of event.fields) s.claims ≡ some c
continued-lookup s event c h = elim (Option-cases (lookup (claim_key_of event.fields) s.claims)) [
  | inl a ↦ absurd (ground (arith, a, h))
  | inr (d, a) ↦ ground (arith, a, h)
]

counts_le : (work : Text) (c : ClaimState) → counts work c ≤ 1
counts_le work c = ground arith

counts_other : (work : Text) (c : ClaimState) → (c.work == work) ≡ false → counts work c ≡ 0
counts_other work c h = ground (arith, h)

claim_room :
    (k : Text) (c : ClaimState) (m : Map Text ClaimState)
    → active_claims m c.work < 32
    → ((work : Text) → active_claims m work ≤ 32)
    → (work : Text) → active_claims (insert k c m) work ≤ 32
claim_room k c m room h work = elim (Bool-cases (c.work == work)) [
  | inl b ↦ omega (
    arith,
    active_claims-insert k c m work,
    counts_le work c,
    room,
    ap (active_claims m) (eq→≡ c.work work b),
  )
  | inr b ↦ omega (arith, active_claims-insert k c m work, counts_other work c b, h work)
]

-- A claim of the map is written again, counting no more than before.
pub rewritten :
    (k : Text) (c d : ClaimState) (m : Map Text ClaimState)
    → ((work : Text) → active_claims m work ≤ 32)
    → lookup k m ≡ some d
    → ((work : Text) → counts work c ≤ counts work d)
    → (work : Text) → active_claims (insert k c m) work ≤ 32
rewritten k c d m h found less work =
    omega (arith, h work, active_claims-update k c d m work found (less work))

pub claim-Kept :
    (s : TranscriptState) (event : TransitionEvent) (participant : Text)
    → IsBounded s
    → Kept (apply_claim s event participant)
claim-Kept s event participant h =
    let d = event.fields in
    let predecessor = text_of d (text "predecessor_handoff_event") in
    elim (Bool-cases (elim (lookup (claim_key_of d) s.used) [ none ↦ false | some b ↦ b ])) [
      | inl a ↦ rw (a, apply_claim) tt
      | inr a ↦
          elim (Bool-cases (
            not (is_empty predecessor)
            && (text_of s.accepted predecessor != participant || event.causation != predecessor))) [
              | inl b ↦ rw (a, apply_claim) (rw b tt)
              | inr b ↦ elim (Bool-cases (leb 32 (active_claims s.claims event.work))) [
                | inl c ↦ rw (a, apply_claim) (rw b (rw c tt))
                | inr c ↦
                    rw (a, apply_claim)
                      (rw b (rw c (λ work. claim_room _ _ s.claims (ground (arith, c)) h work)))
              ]
            ]
    ]

offer_of-lookup :
    (s : TranscriptState) (id : Text) (i : ℕ) (o : OfferState) (c : ClaimState)
    → offer_of s id ≡ some (i, o, c)
    → lookup o.claim_key s.claims ≡ some c
offer_of-lookup s id i o c h = ground (arith, h)

pub accept-Kept :
    (s : TranscriptState) (event : TransitionEvent) (participant : Text)
    → IsBounded s
    → Kept (apply_accept s event participant)
accept-Kept s event participant h =
    elim (Option-cases (offer_of s (text_of event.fields (text "offer_event_id")))) [
      | inl a ↦ rw (a, apply_accept) tt
      | inr ((i, o, c), a) ↦ elim (Bool-cases (acceptable event participant o c)) [
        | inl b ↦
            rw (a, apply_accept)
              (rw b (
                rewritten o.claim_key _ c s.claims h (offer_of-lookup s _ i o c a)
                  (λ work. omega arith)))
        | inr b ↦ rw (a, apply_accept) (rw b tt)
      ]
    ]
